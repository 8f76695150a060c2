-- ===== src/Sql/Procedure/Typed.antt =====
-- AnyValueToString (ProcedureHelper.cpp) and the writes of Execute: when boost::any_cast does not
-- throw.
use pets_server_linux.Common.{
  ℕ, zero, suc, ◌≡◌, refl, true, false, Bool-cases, inl, inr, Option, none, some, List, [], ◌∷◌,
  Text, codes, Outcome, bad_any_cast, Avoids, Avoids-after, Avoids-end, arith,
}
use pets_server_linux.Sql.{
  FieldType, unset, tiny, long, longlong, float, double, string, blob, err_type,
}
use pets_server_linux.Sql.Procedure.{Env, Any, SqlParam}
use pets_server_linux.Sql.Procedure.Values.{
  any_value_to_string, cast_pointer, cast_int, cast_int64, cast_float, cast_double, cast_chars,
  printed, quoted,
}
use pets_server_linux.Sql.Procedure.Execute.{
  copy_to, print_to, separated, write_hex, hex_byte, is_blob,
}
use pets_server_linux.Sql.Procedure.Stored.{
  HasType, of_int, of_int64, of_float, of_double, of_chars, of_pointer, is_known,
}

-- No bad_any_cast.
abbrev pub Safe {ℓ} : {A : Type ℓ} → Outcome A → Type ℓ
Safe m = Avoids bad_any_cast m

pub copy_to-Safe : (buf s : Text) → Safe (copy_to buf s)
unfolding copy_to
copy_to-Safe buf s = record { of_fail = ground arith }

pub print_to-Safe : (buf s : Text) → Safe (print_to buf s)
unfolding print_to
print_to-Safe buf s = record { of_fail = ground arith }

pub separated-Safe : (buf : Text) → Safe (separated buf)
unfolding separated
separated-Safe [] = Avoids-end (codes "set")
separated-Safe (b ∷ buf) = copy_to-Safe (b ∷ buf) (codes ",")

pub write_hex-Safe : (n : ℕ) (bytes : List ℕ) (buf : Text) → Safe (write_hex n bytes buf)
unfolding write_hex
write_hex-Safe zero bytes buf = Avoids-end buf
write_hex-Safe (suc n) [] buf = record { of_fail = λ h. cc }
write_hex-Safe (suc n) (b ∷ bytes) buf =
    Avoids-after (print_to buf (hex_byte b)) _ (print_to-Safe buf (hex_byte b))
      (λ buf' e. write_hex-Safe n bytes buf')

printed-Safe : (env : Env) (text : Text) → Safe (printed env text)
unfolding printed
printed-Safe env text = record { of_fail = ground arith }

quoted-Safe : (env : Env) (s : Option Text) → Safe (quoted env s)
unfolding quoted
quoted-Safe env none = record { of_fail = λ h. cc }
quoted-Safe env (some s) = Avoids-end _

module _ (env : Env) where
  -- A parameter of a type that is known holds the alternative of its type.
  unfoldable pub Typed : SqlParam env → Type 0
  Typed p = is_known p.type ≡ true → HasType env p.type p.bind_value

  any_value_to_string-HasType :
      (p : SqlParam env) (t : FieldType) (v : Any env)
      → p.type ≡ t
      → p.bind_value ≡ v
      → HasType env t v
      → Safe (any_value_to_string env p)
  unfolding any_value_to_string cast_int cast_int64 cast_float cast_double cast_chars
  any_value_to_string-HasType p _ _ et ev (of_int z) = rw (et, ev) (Avoids-end _)
  any_value_to_string-HasType p _ _ et ev (of_int64 z) = rw (et, ev) (Avoids-end _)
  any_value_to_string-HasType p _ _ et ev (of_float x) =
      rw (et, ev) (printed-Safe env (env.print_float x))
  any_value_to_string-HasType p _ _ et ev (of_double x) =
      rw (et, ev) (printed-Safe env (env.print_double x))
  any_value_to_string-HasType p _ _ et ev (of_chars s) = rw (et, ev) (quoted-Safe env s)
  any_value_to_string-HasType p _ _ et ev (of_pointer bytes) = rw et (Avoids-end _)

  cast_pointer-HasType :
      (v : Any env) (t : FieldType) → t ≡ blob → HasType env t v → Safe (cast_pointer env v)
  unfolding cast_pointer
  cast_pointer-HasType _ _ e (of_int z) = cc
  cast_pointer-HasType _ _ e (of_int64 z) = cc
  cast_pointer-HasType _ _ e (of_float x) = cc
  cast_pointer-HasType _ _ e (of_double x) = cc
  cast_pointer-HasType _ _ e (of_chars s) = cc
  cast_pointer-HasType _ _ e (of_pointer bytes) = Avoids-end bytes

  -- The types that have no text are not looked at.
  any_value_to_string-unknown :
      (p : SqlParam env) (t : FieldType)
      → p.type ≡ t
      → is_known t ≡ false
      → Safe (any_value_to_string env p)
  unfolding any_value_to_string
  any_value_to_string-unknown p unset et k = rw et (Avoids-end _)
  any_value_to_string-unknown p tiny et k = rw et (Avoids-end _)
  any_value_to_string-unknown p err_type et k = rw et (Avoids-end _)
  any_value_to_string-unknown p long et k = cc
  any_value_to_string-unknown p longlong et k = cc
  any_value_to_string-unknown p float et k = cc
  any_value_to_string-unknown p double et k = cc
  any_value_to_string-unknown p string et k = cc
  any_value_to_string-unknown p blob et k = cc

  pub any_value_to_string-Safe : (p : SqlParam env) → Typed p → Safe (any_value_to_string env p)
  unfolding Typed
  any_value_to_string-Safe p typed = elim (Bool-cases (is_known p.type)) [
    | inl k ↦ any_value_to_string-HasType p p.type p.bind_value refl refl (typed k)
    | inr k ↦ any_value_to_string-unknown p p.type refl k
  ]

  is_blob→eq : (t : FieldType) → is_blob t ≡ true → t ≡ blob
  is_blob→eq unset h = cc
  is_blob→eq tiny h = cc
  is_blob→eq long h = cc
  is_blob→eq longlong h = cc
  is_blob→eq float h = cc
  is_blob→eq double h = cc
  is_blob→eq string h = cc
  is_blob→eq blob h = refl
  is_blob→eq err_type h = cc

  pub pointer-Safe :
      (p : SqlParam env) → Typed p → is_blob p.type ≡ true → Safe (cast_pointer env p.bind_value)
  unfolding Typed
  pointer-Safe p typed k =
      let t : p.type ≡ blob = is_blob→eq p.type k in
      cast_pointer-HasType p.bind_value p.type t (typed (rw t refl))
