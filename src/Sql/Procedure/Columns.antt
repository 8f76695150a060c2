-- ===== src/Sql/Procedure/Columns.antt =====
-- ProcedureHelper::Execute (ProcedureHelper.cpp): the columns that its select asks for, and the
-- parameters that they are stored in.

use pets_server_linux.Common.{
  ℕ, zero, suc, ◌+◌, ◌≡◌, refl, ap, ◌∙◌, Bool, true, false, Option, none, some, List, [], ◌∷◌, ◌++◌,
  Text, codes, get_elem?, if◌then◌else◌, done, Ensures, Ensures-after, Ensures-if, Ensures-end,
}
use pets_server_linux.Sql.Procedure.{
  Env, Direction, v_in, v_out, v_inout, SqlParam, ProcedureHelper, param_at,
}
use pets_server_linux.Sql.Procedure.Added.{param_at-get_elem}
use pets_server_linux.Sql.Procedure.Values.{any_value_to_string, cast_pointer}
use pets_server_linux.Sql.Procedure.Execute.{
  Statements, in_param, out_param, add_param, add_params, variable, select_start, initial_value,
  separated, copy_to, write_hex, is_blob, unless_empty, comma,
}
use pets_server_linux.Sql.Procedure.Positions.{positions}

module _ (env : Env) where
  -- Whether a parameter is an OUT or INOUT one.
  unfoldable pub is_out : List (SqlParam env) → ℕ → Bool
  is_out ps i = elim (get_elem? ps i) [
    | none ↦ false
    | some p ↦ elim p.direction [ v_in ↦ false | v_out ↦ true | v_inout ↦ true ]
  ]

  -- The select with the variable of one more parameter, and of some.
  abbrev pub selected : Text → ℕ → Text
  selected select i = select ++ select_start env select ++ variable i

  pub selection : Text → List ℕ → Text
  selection select [] = select
  selection select (i ∷ is) = selection (selected select i) is

  -- What one parameter adds to the select.
  Adds : ℕ → Bool → Statements → Option Statements → Type 0
  Adds i out s none = Unit {0}
  Adds i out s (some s') = s'.select ≡ (if out then selected s.select i else s.select)

  in_param-Adds :
      (i : ℕ) (p : SqlParam env) (s : Statements) → Ensures (Adds i false s) (in_param env i p s)
  unfolding in_param Adds
  in_param-Adds i p s =
      Ensures-if (is_blob p.type) _ _
        (λ blob'. Ensures-after (separated s.prepared) _ (λ buf e1.
          Ensures-after (copy_to buf (variable i ++ codes " = 0x")) _ (λ buf' e2.
            Ensures-after (cast_pointer env p.bind_value) _ (λ bytes e3.
              Ensures-after (write_hex p.lens bytes buf') _ (λ buf'' e4. Ensures-end _ refl)))))
        (λ text'. Ensures-after (any_value_to_string env p) _ (λ text e. Ensures-end _ (go text)))
    where
      go :
          (text : Text)
          → Adds i false s
              (unless_empty text (record s { procedure_call = s.procedure_call ++ text }))
      go [] = tt
      go (ch ∷ chs) = refl

  out_param-Adds :
      (i : ℕ) (p : SqlParam env) (s : Statements) → Ensures (Adds i true s) (out_param env i p s)
  unfolding out_param Adds
  out_param-Adds i p s =
      Ensures-after (separated s.prepared) _ (λ buf e1.
        Ensures-after (initial_value env i p buf) _ (λ value e2. Ensures-end _ (go value)))
    where
      go :
          (value : Option Text)
          → Adds i true s (elim value [
            | none ↦ none
            | some buf' ↦ some (record {
              prepared = buf';
              procedure_call = s.procedure_call ++ variable i;
              select = s.select ++ select_start env s.select ++ variable i;
            })
          ])
      go none = tt
      go (some buf') = refl

  add_param-Adds :
      (ps : List (SqlParam env)) (i : ℕ) (p : SqlParam env) (s : Statements)
      → get_elem? ps i ≡ some p
      → Ensures (Adds i (is_out ps i) s) (add_param env i p s)
  unfolding add_param Adds is_out
  add_param-Adds ps i p s e = rw (e, is_out) (go p.direction)
    where
      s' : Statements
      s' = record s { procedure_call = s.procedure_call ++ comma env i }

      go :
          (d : Direction)
          → Ensures (Adds i (elim d [ v_in ↦ false | v_out ↦ true | v_inout ↦ true ]) s) (elim d [
            | v_in ↦ in_param env i p s'
            | v_out ↦ out_param env i p s'
            | v_inout ↦ out_param env i p s'
          ])
      go v_in = in_param-Adds i p s'
      go v_out = out_param-Adds i p s'
      go v_inout = out_param-Adds i p s'

  -- What the loop over the parameters adds.
  AddsAll : ProcedureHelper env → ℕ → ℕ → Statements → Option Statements → Type 0
  AddsAll h left i s none = Unit {0}
  AddsAll h left i s (some s') =
      s'.select ≡ selection s.select (positions (is_out h.parameters) left i)

  Adds-rest :
      (h : ProcedureHelper env) (left i : ℕ) (s s' : Statements) (out : Bool)
      → is_out h.parameters i ≡ out
      → Adds i out s (some s')
      → (r : Option Statements) → AddsAll h left (i + 1) s' r
      → AddsAll h (suc left) i s r
  unfolding AddsAll Adds positions selection
  Adds-rest h left i s s' out o k none later = tt
  Adds-rest h left i s s' true o k (some s'') later =
      rw o (later ∙ ap (λ t. selection t (positions (is_out h.parameters) left (i + 1))) k)
  Adds-rest h left i s s' false o k (some s'') later =
      rw o (later ∙ ap (λ t. selection t (positions (is_out h.parameters) left (i + 1))) k)

  add_params-AddsAll :
      (h : ProcedureHelper env) (left i : ℕ) (s : Statements)
      → Ensures (AddsAll h left i s) (add_params env h left i s)
  unfolding add_params AddsAll positions selection
  add_params-AddsAll h zero i s = Ensures-end _ refl
  add_params-AddsAll h (suc left) i s = Ensures-after (param_at env h i) _ (λ p e.
      Ensures-after (add_param env i p s) _ (λ next e1.
        go next
          ((add_param-Adds h.parameters i p s ((param_at-get_elem env h i).of_done p e)).of_done
            next e1)
          (add_params-AddsAll h left (i + 1))))
    where
      go :
          (next : Option Statements)
          → Adds i (is_out h.parameters i) s next
          → ((s' : Statements)
              → Ensures (AddsAll h left (i + 1) s') (add_params env h left (i + 1) s'))
          → Ensures
              (AddsAll h (suc left) i s)
              (elim next [ none ↦ done none | some s' ↦ add_params env h left (i + 1) s' ])
      go none k later = Ensures-end none tt
      go (some s') k later = record {
        of_done = λ r e.
            Adds-rest h left i s s' (is_out h.parameters i) refl k r ((later s').of_done r e);
      }

  -- The select of a procedure's call names the variables of its OUT and INOUT parameters, in their
  -- order.
  pub add_params-selection :
      (h : ProcedureHelper env) (left : ℕ) (s s' : Statements)
      → add_params env h left 0 s ≡ done (some s')
      → s'.select ≡ selection s.select (positions (is_out h.parameters) left 0)
  unfolding AddsAll
  add_params-selection h left s s' e = (add_params-AddsAll h left 0 s).of_done (some s') e
