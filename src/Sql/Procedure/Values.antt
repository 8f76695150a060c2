-- ===== src/Sql/Procedure/Values.antt =====
-- ProcedureHelper.cpp: the values of parameters as SQL text and back.
use pets_server_linux.Common.{
  ℕ, ◌≡◌, sym, ap, >>=-eq-done, done-injective, ◌∙◌, ltb, if◌then◌else◌, true, Option, none, some,
  List, [], ◌∷◌, ◌++◌, Text, length, Outcome, done, fail, ◌>>=◌, bad_any_cast, null_access,
  out_of_bounds,
}
use pets_server_linux.Common.Int.{ℤ}
use pets_server_linux.Common.Decimal.{to_string, atoi, atoi-to_string, fits, read_int}
use pets_server_linux.Sql.{
  FieldType, unset, tiny, long, longlong, float, double, string, blob, err_type,
}
use pets_server_linux.Sql.Procedure.{Env, Any, SqlParam}

module _ (env : Env) where
  open env use {print_float, print_double, strtof, strtod, int64_is_long_long}

  -- The code of '.
  abbrev quote_code : ℕ
  quote_code = 39

  -- boost::any_cast: the type asked for has to be the one held.
  unfoldable pub cast_int : Any env → Outcome ℤ
  cast_int (Any.int z) = done z
  cast_int _ = fail bad_any_cast

  unfoldable pub cast_int64 : Any env → Outcome ℤ
  cast_int64 (Any.int64 z) = done z
  cast_int64 _ = fail bad_any_cast

  unfoldable pub cast_float : Any env → Outcome env.Float
  cast_float (Any.float x) = done x
  cast_float _ = fail bad_any_cast

  unfoldable pub cast_double : Any env → Outcome env.Double
  cast_double (Any.double x) = done x
  cast_double _ = fail bad_any_cast

  unfoldable pub cast_chars : Any env → Outcome (Option Text)
  cast_chars (Any.chars s) = done s
  cast_chars _ = fail bad_any_cast

  unfoldable pub cast_pointer : Any env → Outcome (List ℕ)
  cast_pointer (Any.pointer data') = done data'
  cast_pointer _ = fail bad_any_cast

  -- sprintf into `char buf[33]`: the text and its end have to fit.
  unfoldable pub printed : Text → Outcome Text
  printed text = if ltb (length text) 33 then done text else fail out_of_bounds

  -- A null pointer is not read.
  unfoldable pub quoted : Option Text → Outcome Text
  quoted none = fail null_access
  quoted (some s) = done (quote_code ∷ s ++ quote_code ∷ [])

  -- ProcedureHelper::AnyValueToString
  unfoldable pub any_value_to_string : SqlParam env → Outcome Text
  unfolding cast_int cast_int64 cast_float cast_double cast_chars printed quoted
  any_value_to_string p = elim p.type [
    | long ↦ (do z ← cast_int p.bind_value; done (to_string z))
    | longlong ↦ (do z ← cast_int64 p.bind_value; done (to_string z))
    | float ↦ (do x ← cast_float p.bind_value; printed (print_float x))
    | double ↦ (do x ← cast_double p.bind_value; printed (print_double x))
    | string ↦ (do s ← cast_chars p.bind_value; quoted s)
    | blob ↦ done []
    | unset ↦ done []
    | tiny ↦ done []
    | err_type ↦ done []
  ]

  -- A column's characters: strto* and ato* read them, so they must not be null, and atoi and atoll
  -- have the range of an int and of a long long.
  abbrev pub read_chars : Option Text → (Text → Any env) → Outcome (Any env)
  read_chars none f = fail null_access
  read_chars (some s) f = done (f s)

  abbrev pub read_number : ℕ → Option Text → (ℤ → Any env) → Outcome (Any env)
  read_number w none f = fail null_access
  read_number w (some s) f = (read_int w s >>= λ z. done (f z))

  -- The value for a type from a column's characters; other types keep the value. `any_cast<int64_t>`
  -- of atoll makes an `any` of a long long, and `any_cast<void*>(value)` one of a char*, before the
  -- cast.
  unfoldable pub column_value : FieldType → Any env → Option Text → Outcome (Any env)
  column_value long old value = read_number 31 value Any.int
  column_value longlong old value =
      if int64_is_long_long
      then read_number 63 value Any.int64
      else (read_number 63 value (λ z. old) >>= λ v. fail bad_any_cast)
  column_value float old value = read_chars value (λ s. Any.float (strtof s))
  column_value double old value = read_chars value (λ s. Any.double (strtod s))
  column_value string old value = done (Any.chars value)
  column_value blob old value = fail bad_any_cast
  column_value unset old value = done old
  column_value tiny old value = done old
  column_value err_type old value = done old

  -- ProcedureHelper::SqlValueToAny. The size is used for a blob only, after the cast.
  unfoldable pub sql_value_to_any : SqlParam env → Option Text → ℕ → Outcome (SqlParam env)
  unfolding column_value
  sql_value_to_any p value size = do
    v ← column_value p.type p.bind_value value
    done (record p { bind_value = v })

cast_int-inverse : (env : Env) (v : Any env) (z : ℤ) → cast_int env v ≡ done z → v ≡ Any.int z
unfolding cast_int
cast_int-inverse env Any.empty z h = cc
cast_int-inverse env (Any.int y) z h = ap Any.int (done-injective h)
cast_int-inverse env (Any.int64 y) z h = cc
cast_int-inverse env (Any.float y) z h = cc
cast_int-inverse env (Any.double y) z h = cc
cast_int-inverse env (Any.chars y) z h = cc
cast_int-inverse env (Any.pointer y) z h = cc

-- An int parameter whose text goes out to the database and comes back unchanged is the same
-- parameter; its value is in the range of an int.
sql_value_to_any-any_value_to_string :
    (env : Env) (p : SqlParam env) (text : Text) (size : ℕ)
    → p.type ≡ long
    → any_value_to_string env p ≡ done text
    → fits 31 (atoi text) ≡ true
    → sql_value_to_any env p (some text) size ≡ done p
unfolding any_value_to_string sql_value_to_any column_value read_int
sql_value_to_any-any_value_to_string env p text size ht h range =
    let (z, e, k) =
      >>=-eq-done (cast_int env p.bind_value) (λ z. done (to_string z)) (rw ht at h) in
    let back : Any.int (atoi text) ≡ p.bind_value =
      ap Any.int (ap atoi (sym (done-injective k)) ∙ atoi-to_string z)
      ∙ sym (cast_int-inverse env p.bind_value z e) in
    ap
      (λ t. column_value env t p.bind_value (some text) >>= λ v. done (record p { bind_value = v }))
      ht
    ∙ rw range (ap (λ v. done (record p { bind_value = v })) back)
