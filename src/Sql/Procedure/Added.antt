-- ===== src/Sql/Procedure/Added.antt =====
-- What Execute's loop over the parameters leaves in the select.
use pets_server_linux.Common.{
  ℕ, zero, suc, ◌+◌, ◌≡◌, ◌≢◌, refl, Option, none, some, [], ◌∷◌, ◌++◌, Text, codes, get_elem?,
  done, fail, Ensures, Ensures-after, Ensures-if, Ensures-end, out_of_bounds,
}
use pets_server_linux.Sql.Procedure.Values.{any_value_to_string, cast_pointer}
use pets_server_linux.Sql.Procedure.{
  Env, Direction, v_in, v_out, v_inout, SqlParam, ProcedureHelper, param_at,
}
use pets_server_linux.Sql.Procedure.Execute.{
  Statements, in_param, out_param, add_param, add_params, variable, select_start, initial_value,
  separated, copy_to, write_hex, is_blob, unless_empty, comma,
}

module _ (env : Env) where
  -- A parameter is added without a name in the select only if its direction is IN.
  Added : SqlParam env → Statements → Option Statements → Type 0
  Added p s none = Unit
  Added p s (some s') = s'.select ≡ [] → (s.select ≡ []) × (p.direction ≡ v_in)

  append-ne-nil : (xs ys : Text) (c : ℕ) → xs ++ (c ∷ ys) ≢ []
  append-ne-nil [] ys c = λ e. cc
  append-ne-nil (x ∷ xs) ys c = λ e. cc

  in_param-Added :
      (i : ℕ) (p : SqlParam env) (s : Statements)
      → p.direction ≡ v_in
      → Ensures (Added p s) (in_param env i p s)
  unfolding in_param Added
  in_param-Added i p s d =
      Ensures-if (is_blob p.type) _ _
        (λ yes'. Ensures-after (separated s.prepared) _ (λ buf e1.
          Ensures-after (copy_to buf (variable i ++ codes " = 0x")) _ (λ buf' e2.
            Ensures-after (cast_pointer env p.bind_value) _ (λ bytes e3.
              Ensures-after (write_hex p.lens bytes buf') _
                (λ buf'' e4. Ensures-end _ (λ k. (k, d)))))))
        (λ no'. Ensures-after (any_value_to_string env p) _ (λ text e. Ensures-end _ (go text)))
    where
      go :
          (text : Text)
          → Added p s (unless_empty text (record s { procedure_call = s.procedure_call ++ text }))
      go [] = tt
      go (ch ∷ chs) = λ k. (k, d)

  out_param-Added :
      (i : ℕ) (p : SqlParam env) (s : Statements) → Ensures (Added p s) (out_param env i p s)
  unfolding out_param Added
  out_param-Added i p s = Ensures-after (separated s.prepared) _ (λ buf e1.
      Ensures-after (initial_value env i p buf) _
        (λ value e2. Ensures-end _ (go value s.select refl)))
    where
      go :
          (value : Option Text) (select : Text)
          → s.select ≡ select
          → Added p s (elim value [
            | none ↦ none
            | some buf' ↦ some (record {
              prepared = buf';
              procedure_call = s.procedure_call ++ variable i;
              select = s.select ++ select_start env s.select ++ variable i;
            })
          ])
      go none select k = tt
      go (some buf') [] k = rw k (λ e. cc)
      go (some buf') (ch ∷ chs) k = rw k (λ e. cc)

  add_param-Added :
      (i : ℕ) (p : SqlParam env) (s : Statements) → Ensures (Added p s) (add_param env i p s)
  unfolding add_param Added
  add_param-Added i p s = go p.direction refl
    where
      s' : Statements
      s' = record s { procedure_call = s.procedure_call ++ comma env i }

      go :
          (d : Direction)
          → p.direction ≡ d
          → Ensures (Added p s) (elim d [
            | v_in ↦ in_param env i p s'
            | v_out ↦ out_param env i p s'
            | v_inout ↦ out_param env i p s'
          ])
      go v_in k = in_param-Added i p s' k
      go v_out k = out_param-Added i p s'
      go v_inout k = out_param-Added i p s'

  -- The parameters from `i` on, `left` of them, are IN parameters.
  pub AllIn : ProcedureHelper env → ℕ → ℕ → Type 0
  AllIn h zero i = Unit
  AllIn h (suc left) i =
      ((p : SqlParam env) × (get_elem? h.parameters i ≡ some p) × (p.direction ≡ v_in))
      × AllIn h left (i + 1)

  unfoldable pub AddedAll : ProcedureHelper env → ℕ → ℕ → Statements → Option Statements → Type 0
  AddedAll h left i s none = Unit
  AddedAll h left i s (some s') = s'.select ≡ [] → (s.select ≡ []) × AllIn h left i

  pub param_at-get_elem :
      (h : ProcedureHelper env) (i : ℕ)
      → Ensures (λ p. get_elem? h.parameters i ≡ some p) (param_at env h i)
  unfolding param_at
  param_at-get_elem h i = go (get_elem? h.parameters i)
    where
      go :
          (o : Option (SqlParam env))
          → Ensures (λ p. o ≡ some p) (elim o [ none ↦ fail out_of_bounds | some p ↦ done p ])
      go none = record { of_done = λ a e. absurd (cc) }
      go (some p) = Ensures-end p refl

  Added-rest :
      (h : ProcedureHelper env) (left i : ℕ) (s s' : Statements) (p : SqlParam env)
      → get_elem? h.parameters i ≡ some p
      → Added p s (some s')
      → (r : Option Statements) → AddedAll h left (i + 1) s' r
      → AddedAll h (suc left) i s r
  unfolding AddedAll AllIn Added
  Added-rest h left i s s' p e k none later = tt
  Added-rest h left i s s' p e k (some s'') later =
      λ z. let (z', all) = later z in let (z'', d) = k z' in (z'', ((p, e, d), all))

  pub add_params-AddedAll :
      (h : ProcedureHelper env) (left i : ℕ) (s : Statements)
      → Ensures (AddedAll h left i s) (add_params env h left i s)
  unfolding add_params AddedAll AllIn Added
  add_params-AddedAll h zero i s = Ensures-end _ (λ k. (k, tt))
  add_params-AddedAll h (suc left) i s = Ensures-after (param_at env h i) _ (λ p e.
      Ensures-after (add_param env i p s) _ (λ next e1.
        go p ((param_at-get_elem h i).of_done p e) next ((add_param-Added i p s).of_done next e1)
          (add_params-AddedAll h left (i + 1))))
    where
      go :
          (p : SqlParam env)
          → get_elem? h.parameters i ≡ some p
          → (next : Option Statements) → Added p s next
          → ((s' : Statements)
              → Ensures (AddedAll h left (i + 1) s') (add_params env h left (i + 1) s'))
          → Ensures
              (AddedAll h (suc left) i s)
              (elim next [ none ↦ done none | some s' ↦ add_params env h left (i + 1) s' ])
      go p e none k later = Ensures-end none tt
      go p e (some s') k later = record {
        of_done = λ r e'. Added-rest h left i s s' p e k r ((later s').of_done r e');
      }
