-- ===== src/Sql/Procedure/Safety.antt =====
-- ProcedureHelper::Execute (ProcedureHelper.cpp): when boost::any_cast does not throw.
use pets_server_linux.Common.{
  ℕ, zero, suc, ◌+◌, ◌≡◌, ◌≢◌, refl, Option, none, some, [], ◌∷◌, ◌++◌, Text, codes, get_elem?,
  Outcome, done, ◌>>=◌, Avoids-after, Avoids-if, Avoids-end, arith,
}
use pets_server_linux.Sql.Procedure.{
  Env, Direction, v_in, v_out, v_inout, SqlParam, ProcedureHelper, param_at,
}
use pets_server_linux.Sql.Procedure.Added.{param_at-get_elem}
use pets_server_linux.Sql.Procedure.Values.{any_value_to_string, cast_pointer}
use pets_server_linux.Sql.Procedure.Execute.{
  Statements, copy_to, print_to, separated, write_hex, variable, is_blob, in_param, initial_value,
  out_param, add_param, add_params, comma,
}
use pets_server_linux.Sql.Procedure.Typed.{
  Safe, copy_to-Safe, print_to-Safe, separated-Safe, write_hex-Safe, Typed,
  any_value_to_string-Safe, pointer-Safe,
}

module _ (env : Env) where
  in_param-Safe :
      (i : ℕ) (p : SqlParam env) (s : Statements) → Typed env p → Safe (in_param env i p s)
  unfolding in_param
  in_param-Safe i p s typed =
      Avoids-if (is_blob p.type) _ _
        (λ k. Avoids-after (separated s.prepared) _ (separated-Safe s.prepared) (λ buf e1.
          Avoids-after (copy_to buf (variable i ++ codes " = 0x")) _
            (copy_to-Safe buf (variable i ++ codes " = 0x"))
            (λ buf' e2.
              Avoids-after (cast_pointer env p.bind_value) _ (pointer-Safe env p typed k)
                (λ bytes e3.
                  Avoids-after (write_hex p.lens bytes buf') _ (write_hex-Safe p.lens bytes buf')
                    (λ buf'' e4. Avoids-end _)))))
        (λ k.
          Avoids-after (any_value_to_string env p) _ (any_value_to_string-Safe env p typed)
            (λ text e. Avoids-end _))

  initial_value-Safe :
      (i : ℕ) (p : SqlParam env) (buf : Text)
      → (p.direction ≢ v_out → Typed env p)
      → Safe (initial_value env i p buf)
  unfolding initial_value
  initial_value-Safe i p buf typed = go p.direction refl
    where
      go :
          (d : Direction)
          → p.direction ≡ d
          → Safe (initial_value env i (record p { direction = d }) buf)
      go v_out k =
          Avoids-after (print_to buf (codes " " ++ variable i ++ codes " = null")) _
            (print_to-Safe buf (codes " " ++ variable i ++ codes " = null")) (λ b e. Avoids-end _)
      go v_in k =
          Avoids-after (print_to buf (codes " " ++ variable i ++ codes " = null")) _
            (print_to-Safe buf (codes " " ++ variable i ++ codes " = null")) (λ b e. Avoids-end _)
      go v_inout k =
          let t = typed (λ o. cc) in
          Avoids-if (is_blob p.type) _ _
            (λ b.
              Avoids-after (cast_pointer env p.bind_value) _ (pointer-Safe env p t b) (λ bytes e.
                Avoids-after (write_hex p.lens bytes buf) _ (write_hex-Safe p.lens bytes buf)
                  (λ buf' e1. Avoids-end _)))
            (λ b.
              Avoids-after (any_value_to_string env p) _ (any_value_to_string-Safe env p t)
                (λ text e. printed_var text))
        where
          printed_var :
              (text : Text)
              → Safe (elim text as (λ _. Outcome (Option Text)) [
                | [] ↦ done none
                | ch ∷ chs ↦
                    print_to buf
                      (codes " " ++ variable i ++ codes " = " ++ env.object_text (ch ∷ chs))
                    >>= λ buf'. done (some buf')
              ])
          printed_var [] = Avoids-end none
          printed_var (ch ∷ chs) =
              let text : Text =
                codes " " ++ variable i ++ codes " = " ++ env.object_text (ch ∷ chs) in
              Avoids-after (print_to buf text) (λ buf'. done (some buf')) (print_to-Safe buf text)
                (λ b e. Avoids-end _)

  -- A value is needed of every parameter but the OUT ones.
  unfoldable pub Given : SqlParam env → Type 0
  Given p = p.direction ≢ v_out → Typed env p

  out_param-Safe :
      (i : ℕ) (p : SqlParam env) (s : Statements) → Given p → Safe (out_param env i p s)
  unfolding out_param Given
  out_param-Safe i p s given =
      Avoids-after (separated s.prepared) _ (separated-Safe s.prepared) (λ buf e.
        Avoids-after (initial_value env i p buf) _ (initial_value-Safe i p buf given)
          (λ value e1. Avoids-end _))

  add_param-Safe :
      (i : ℕ) (p : SqlParam env) (s : Statements) → Given p → Safe (add_param env i p s)
  unfolding add_param Given
  add_param-Safe i p s given = go p.direction refl
    where
      s' : Statements
      s' = record s { procedure_call = s.procedure_call ++ comma env i }

      go :
          (d : Direction)
          → p.direction ≡ d
          → Safe (elim d as (λ _. Outcome (Option Statements)) [
            | v_in ↦ in_param env i p s'
            | v_out ↦ out_param env i p s'
            | v_inout ↦ out_param env i p s'
          ])
      go v_in k = in_param-Safe i p s' (given (λ o. cc))
      go v_out k = out_param-Safe i p s' given
      go v_inout k = out_param-Safe i p s' given

  pub param_at-Safe : (h : ProcedureHelper env) (i : ℕ) → Safe (param_at env h i)
  unfolding param_at
  param_at-Safe h i = record { of_fail = ground arith }

  -- Every parameter of the helper has the value that it needs.
  unfoldable pub AllGiven : ProcedureHelper env → Type 0
  AllGiven h = (i : ℕ) (p : SqlParam env) → get_elem? h.parameters i ≡ some p → Given p

  pub add_params-Safe :
      (h : ProcedureHelper env) (left i : ℕ) (s : Statements)
      → AllGiven h
      → Safe (add_params env h left i s)
  unfolding add_params AllGiven
  add_params-Safe h zero i s given = Avoids-end _
  add_params-Safe h (suc left) i s given =
      Avoids-after (param_at env h i) _ (param_at-Safe h i) (λ p e.
        Avoids-after (add_param env i p s) _
          (add_param-Safe i p s (given i p ((param_at-get_elem env h i).of_done p e)))
          (λ next e1. go next (λ s'. add_params-Safe h left (i + 1) s' given)))
    where
      go :
          (next : Option Statements)
          → ((s' : Statements) → Safe (add_params env h left (i + 1) s'))
          → Safe (elim next as (λ _. Outcome (Option Statements)) [
            | none ↦ done none
            | some s' ↦ add_params env h left (i + 1) s'
          ])
      go none later = Avoids-end none
      go (some s') later = later s'
