-- ===== src/Sql/Procedure/Fields.antt =====
-- ProcedureHelper.cpp: what Prepare does with the direction and the field of one parameter.
use pets_server_linux.Common.{
  ℕ, ◌+◌, ◌≡◌, refl, ap, ◌∙◌, Bool, true, false, Option, none, some, List, [], ◌∷◌, ◌++◌, text_eq,
  length, get_elem?, set, if◌then◌else◌, Outcome, done, fail, ◌>>=◌, out_of_bounds,
}
use pets_server_linux.Sql.Procedure.{
  Env, Direction, v_in, v_out, v_inout, SqlParam, ProcedureHelper, param_at, set_param,
}
use pets_server_linux.Sql.Procedure.Prepare.{
  Part, name_part, direct, read_direction, read_field, is_err,
}
use pets_server_linux.Sql.Procedure.Declared.{
  TypeName, blob_name, bigint_name, int_name, char_name, varchar_name, type_word, type_of,
  direction_word, lens_word, cut_field-field_word, InInt, get_my_sql_type-type_word,
}
use pets_server_linux.Sql.Procedure.Having.{comma_text, counting}

get_elem?-append :
    {A : Type 0} (ys zs : List A) (y : A) → get_elem? (ys ++ y ∷ zs) (length ys) ≡ some y
get_elem?-append [] zs y = refl
get_elem?-append (x ∷ ys) zs y = get_elem?-append ys zs y

set-append :
    {A : Type 0} (ys zs : List A) (y v : A) → set (ys ++ y ∷ zs) (length ys) v ≡ ys ++ v ∷ zs
set-append [] zs y v = refl
set-append (x ∷ ys) zs y v = ap (◌∷◌ x) (set-append ys zs y v)

module _ (env : Env) where
  -- A helper whose next parameter is `p`, behind the parameters `ys`.
  module _ (h : ProcedureHelper env) (ys rest : List (SqlParam env)) (p : SqlParam env)
      (parameters : h.parameters ≡ ys ++ p ∷ rest) (total : h.total_count ≡ length ys) where
    param_at_next : param_at env h h.total_count ≡ done p
    unfolding param_at
    param_at_next =
        let found : get_elem? h.parameters h.total_count ≡ some p =
          rw (parameters, total) (get_elem?-append ys rest p) in
        ap
          (λ o. elim o as (λ _. Outcome (SqlParam env)) [
            | none ↦ fail out_of_bounds
            | some q ↦ done q
          ])
          found

    set_param_next :
        (g : ProcedureHelper env) (v : SqlParam env)
        → g.parameters ≡ h.parameters
        → set_param env g h.total_count v ≡ done (record g { parameters = ys ++ v ∷ rest })
    unfolding set_param
    set_param_next g v e =
        let found : get_elem? g.parameters h.total_count ≡ some p =
          rw (e, parameters, total) (get_elem?-append ys rest p) in
        let stored : set g.parameters h.total_count v ≡ ys ++ v ∷ rest =
          rw (e, parameters, total) (set-append ys rest p v) in
        ap
          (λ o. elim o as (λ _. Outcome (ProcedureHelper env)) [
            | none ↦ fail out_of_bounds
            | some old ↦ done (record g { parameters = set g.parameters h.total_count v })
          ])
          found
        ∙ ap (λ q. done (record g { parameters = q })) stored

  module _ (h : ProcedureHelper env) (ys rest : List (SqlParam env)) (p : SqlParam env)
      (parameters : h.parameters ≡ ys ++ p ∷ rest) (total : h.total_count ≡ length ys) where
    pub read_direction_next :
        (d : Direction)
        → read_direction env (direction_word d) h
          ≡ done (
            name_part,
            record (counting env d h) { parameters = ys ++ record p { direction = d } ∷ rest },
          )
    unfolding read_direction direct text_eq
    read_direction_next d = go d
      where
        after :
            (g : ProcedureHelper env) (v : SqlParam env)
            → g.parameters ≡ h.parameters
            → ◌>>=◌ {B = Part × ProcedureHelper env}
                (set_param env g h.total_count v)
                (λ h'. done (name_part, h'))
              ≡ done (name_part, record g { parameters = ys ++ v ∷ rest })
        after g v e =
            ap (λ m. ◌>>=◌ {B = Part × ProcedureHelper env} m (λ h'. done (name_part, h')))
              (set_param_next h ys rest p parameters total g v e)

        go :
            (d : Direction)
            → read_direction env (direction_word d) h
              ≡ done (
                name_part,
                record (counting env d h) { parameters = ys ++ record p { direction = d } ∷ rest },
              )
        go v_in = rw (param_at_next h ys rest p parameters total) (after _ _ refl)
        go v_out = rw (param_at_next h ys rest p parameters total) (after _ _ refl)
        go v_inout = rw (param_at_next h ys rest p parameters total) (after _ _ refl)

    pub read_field_next :
        (t : TypeName) (lens : Option ℕ) (comma : Bool)
        → InInt lens
        → read_field env (type_word t ++ (lens_word lens ++ comma_text comma)) h
          ≡ done (
            true,
            record h {
              total_count = h.total_count + 1;
              parameters =
                  ys
                  ++ record p { type = type_of t; lens = elim lens [ none ↦ p.lens | some n ↦ n ] }
                    ∷ rest;
            },
          )
    unfolding read_field
    read_field_next t lens comma k = rw (cut_field-field_word t lens comma k) (
        rw (param_at_next h ys rest p parameters total)
          (rw (get_my_sql_type-type_word t) (go lens)))
      where
        known : (t : TypeName) → is_err env (type_of t) ≡ false
        known blob_name = refl
        known bigint_name = refl
        known int_name = refl
        known char_name = refl
        known varchar_name = refl

        ended : Bool → ProcedureHelper env → Bool × ProcedureHelper env
        ended b h' =
            if b then (false, h') else (true, record h' { total_count = h'.total_count + 1 })

        stored :
            (v : SqlParam env)
            → (set_param env h h.total_count v >>= λ h'. done (ended (is_err env (type_of t)) h'))
              ≡ done
                  (true, record h { total_count = h.total_count + 1; parameters = ys ++ v ∷ rest })
        stored v =
            ap (λ m. m >>= λ h'. done (ended (is_err env (type_of t)) h'))
              (set_param_next h ys rest p parameters total h v refl)
            ∙ ap (λ b. done (ended b (record h { parameters = ys ++ v ∷ rest }))) (known t)

        go :
            (lens : Option ℕ)
            → ◌>>=◌ {B = Bool × ProcedureHelper env}
                (set_param env h h.total_count
                  (record (elim lens as (λ _. SqlParam env) [
                    | none ↦ p
                    | some n ↦ record p { lens = n }
                  ]) { type = type_of t }))
                (λ h'. done (ended (is_err env (type_of t)) h'))
              ≡ done (
                true,
                record h {
                  total_count = h.total_count + 1;
                  parameters =
                      ys
                      ++ record p {
                        type = type_of t;
                        lens = elim lens [ none ↦ p.lens | some n ↦ n ];
                      }
                        ∷ rest;
                },
              )
        go none = stored (record p { type = type_of t })
        go (some n) = stored (record p { type = type_of t; lens = n })
