-- ===== src/Sql/Procedure/Casts.antt =====
-- ProcedureHelper::Execute (ProcedureHelper.cpp): a call whose parameters are of their types ends
-- without bad_any_cast.
use pets_server_linux.Common.{
  ℕ, ◌+◌, ◌-◌, ◌≡◌, ◌≢◌, refl, sym, subst, Option, none, some, [], ◌∷◌, ◌++◌, Text, codes, length,
  ltb, Outcome, done, fail, bad_any_cast, Avoids-after, Avoids-if, Avoids-end, Ensures,
  Ensures-after, Ensures-end, arith,
}
use pets_server_linux.Common.Int.{ℤ, pos, negsuc}
use pets_server_linux.Sql.{Client, QueryResult, is_zero}
use pets_server_linux.Sql.Query.{
  free_result, keep_result, execute_sql, fetch_result, release, affected,
}
use pets_server_linux.Sql.Procedure.{Env, ProcedureHelper}
use pets_server_linux.Sql.Procedure.Execute.{
  Statements, add_params, read_columns, execute_into, read_answer, run_call, run_statements,
  execute, present, is_one, buffer_size,
}
use pets_server_linux.Sql.Procedure.Safety.{add_params-Safe, AllGiven}
use pets_server_linux.Sql.Procedure.Typed.{Safe}
use pets_server_linux.Sql.Procedure.Storable.{StorableFrom, read_columns-Safe}

module _ (env : Env) where
  free_result-Safe : (n : ℕ) (c : Client env.api) → Safe (free_result env.api n c)
  unfolding free_result
  free_result-Safe n c = record { of_fail = ground arith }

  release-Safe : (qr : QueryResult) (c : Client env.api) → Safe (release env.api qr c)
  unfolding release
  release-Safe qr c =
      Avoids-after (elim qr.res [ none ↦ done c | some h ↦ free_result env.api h c ]) _ (go qr.res)
        (λ c' e. Avoids-end _)
    where
      go :
          (o : Option ℕ)
          → Safe (elim o as (λ _. Outcome (Client env.api)) [
            | none ↦ done c
            | some h ↦ free_result env.api h c
          ])
      go none = Avoids-end c
      go (some h) = free_result-Safe h c

  keep_result-Safe :
      (sql : Text) (qr : Option QueryResult) (o : Option ℕ) (c : Client env.api)
      → Safe (keep_result env.api sql qr o c)
  unfolding keep_result
  keep_result-Safe sql (some qr) o c = Avoids-end _
  keep_result-Safe sql none none c = Avoids-end _
  keep_result-Safe sql none (some h) c =
      Avoids-after (free_result env.api h c) _ (free_result-Safe h c) (λ c' e. Avoids-end _)

  execute_sql-Safe :
      (sql : Text) (qr : Option QueryResult) (c : Client env.api)
      → Safe (execute_sql env.api (some sql) qr c)
  unfolding execute_sql
  execute_sql-Safe sql qr c =
      Avoids-if c.mysql _ _
        (λ on.
          Avoids-if (is_zero (env.api.real_query c.db sql).0) _ _
            (λ good. keep_result-Safe sql qr _ _) (λ bad. Avoids-end _))
        (λ off. Avoids-end _)

  fetch_result-Safe : (qr : QueryResult) (c : Client env.api) → Safe (fetch_result env.api qr c)
  unfolding fetch_result
  fetch_result-Safe qr c = record { of_fail = ground arith }

  present-Safe : {A : Type 0} (o : Option A) → Safe (present o)
  unfolding present
  present-Safe none = record { of_fail = λ h. cc }
  present-Safe (some a) = Avoids-end a

  execute_into-Safe :
      (sql : Text) (h : ProcedureHelper env) (c : Client env.api) → Safe (execute_into env sql h c)
  unfolding execute_into
  execute_into-Safe sql h c =
      Avoids-after (execute_sql env.api (some sql) (some h.result) c) _
        (execute_sql-Safe sql (some h.result) c) (λ r e. Avoids-end _)

  -- The statement runs into the result alone.
  execute_into-parameters :
      (sql : Text) (h : ProcedureHelper env) (c : Client env.api)
      → Ensures
          (λ (r : ℤ × ProcedureHelper env × Client env.api).
            (r.1.parameters ≡ h.parameters) × (r.1.in_count ≡ h.in_count))
          (execute_into env sql h c)
  unfolding execute_into
  execute_into-parameters sql h c =
      Ensures-after (execute_sql env.api (some sql) (some h.result) c) _
        (λ r e. Ensures-end _ (refl, refl))

  -- The columns of a procedure's answer can be stored.
  unfoldable pub AllStorable : ProcedureHelper env → Type 0
  AllStorable h = StorableFrom env h.in_count h.parameters

  into-AllStorable :
      (sql : Text) (h h1 : ProcedureHelper env) (c c1 : Client env.api) (code : ℤ)
      → AllStorable h
      → execute_into env sql h c ≡ done (code, h1, c1)
      → AllStorable h1
  unfolding AllStorable
  into-AllStorable sql h h1 c c1 code s e =
      let (ps, n) = (execute_into-parameters sql h c).of_done (code, h1, c1) e in
      subst (λ qs. StorableFrom env h1.in_count qs) (sym ps)
        (subst (λ k. StorableFrom env k h.parameters) (sym n) s)

  read_answer-Safe :
      (select : Text) (h : ProcedureHelper env) (c : Client env.api)
      → AllStorable h
      → Safe (read_answer env select h c)
  unfolding read_answer AllStorable
  read_answer-Safe select h c s =
      Avoids-after (execute_into env select h c) _ (execute_into-Safe select h c) (λ a e.
        let s1 = into-AllStorable select h a.1 c a.2 a.0 s e in
        Avoids-if (is_zero a.0) _ _
          (λ ok.
            Avoids-if (is_one (affected env.api a.1.result)) _ _
              (λ one.
                Avoids-after (fetch_result env.api a.1.result a.2) _
                  (fetch_result-Safe a.1.result a.2)
                  (λ f e1.
                    Avoids-if (is_zero f.0) _ _
                      (λ ok1. Avoids-after (present f.1.rows) _ (present-Safe f.1.rows) (λ rows e2.
                        Avoids-after (present f.1.lens) _ (present-Safe f.1.lens) (λ lens e3.
                          Avoids-after
                            (read_columns env (a.1.out_count + a.1.inout_count) 0 rows lens
                              (record a.1 { result = f.1 }))
                            _
                            (read_columns-Safe env (a.1.out_count + a.1.inout_count) 0 rows lens
                              (record a.1 { result = f.1 }) s1)
                            (λ h2 e4. record { of_fail = λ k. cc }))))
                      (λ no. Avoids-end _)))
              (λ other. Avoids-end _))
          (λ no. Avoids-end _))

  run_call-Safe :
      (t : Statements) (h : ProcedureHelper env) (c : Client env.api)
      → AllStorable h
      → Safe (run_call env t h c)
  unfolding run_call
  run_call-Safe t h c s =
      Avoids-after (execute_into env t.procedure_call h c) _
        (execute_into-Safe t.procedure_call h c)
        (λ a e.
          Avoids-if (is_zero a.0) _ _
            (λ ok.
              Avoids-after (release env.api a.1.result a.2) _ (release-Safe a.1.result a.2)
                (λ c2 e1.
                  go t.select a.1 c2 (into-AllStorable t.procedure_call h a.1 c a.2 a.0 s e)))
            (λ no. Avoids-end _))
    where
      go :
          (select : Text) (h1 : ProcedureHelper env) (c2 : Client env.api)
          → AllStorable h1
          → Safe (elim select as (λ _. Outcome (ℤ × ProcedureHelper env × Client env.api)) [
            | [] ↦ done (pos 0, h1, c2)
            | ch ∷ chs ↦ read_answer env (ch ∷ chs) h1 c2
          ])
      go [] h1 c2 s1 = Avoids-end _
      go (ch ∷ chs) h1 c2 s1 = read_answer-Safe (ch ∷ chs) h1 c2 s1

  run_statements-Safe :
      (t : Statements) (h : ProcedureHelper env) (c : Client env.api)
      → AllStorable h
      → Safe (run_statements env t h c)
  unfolding run_statements
  run_statements-Safe t h c s = go t.prepared
    where
      go : (prepared : Text) → Safe (run_statements env (record t { prepared = prepared }) h c)
      go [] = run_call-Safe (record t { prepared = [] }) h c s
      go (b ∷ buf) =
          Avoids-if (ltb (buffer_size - 20) (length (b ∷ buf))) _ _ (λ long'. Avoids-end _)
            (λ fits.
              Avoids-after (execute_sql env.api (some (b ∷ buf)) none c) _
                (execute_sql-Safe (b ∷ buf) none c)
                (λ r e.
                  Avoids-if (is_zero r.0) _ _
                    (λ ok. run_call-Safe (record t { prepared = b ∷ buf }) h r.2 s)
                    (λ no. Avoids-end _)))

  -- Execute never throws bad_any_cast, if every IN and INOUT parameter whose type is known holds the
  -- alternative of its type, and no parameter behind the IN ones is a blob, nor a bigint where
  -- int64_t is not long long.
  pub execute-Avoids :
      (h : ProcedureHelper env) (c : Client env.api)
      → AllGiven env h
      → AllStorable h
      → execute env h c ≢ fail bad_any_cast
  unfolding execute
  execute-Avoids h c given s =
      (Avoids-after (add_params env h h.total_count 0 _) _
        (add_params-Safe env h h.total_count 0 _ given) (λ statements e. go statements)).of_fail
    where
      go :
          (o : Option Statements)
          → Safe (elim o as (λ _. Outcome (ℤ × ProcedureHelper env × Client env.api)) [
            | none ↦ done (negsuc 0, h, c)
            | some t ↦
                run_statements env
                  (record t { procedure_call = t.procedure_call ++ codes " )" })
                  h
                  c
          ])
      go none = Avoids-end _
      go (some t) =
          run_statements-Safe (record t { procedure_call = t.procedure_call ++ codes " )" }) h c s
