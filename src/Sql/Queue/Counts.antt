-- ===== src/Sql/Queue/Counts.antt =====
-- Running a task leaves the counts of what the loop frees.
use pets_server_linux.Common.{
  ℕ, ◌≡◌, refl, ◌∙◌, Bool, false, Option, none, some, Text, if◌then◌else◌, done, ◌>>=◌, >>=-eq-done,
  done-injective, Ensures, Ensures-after, Ensures-end, Ensures-if,
}
use pets_server_linux.Sql.{Client, QueryResult, new_result, is_zero}
use pets_server_linux.Common.Int.{ℤ}
use pets_server_linux.Sql.Query.{release, execute_sql, execute_stmt}
use pets_server_linux.Sql.Procedure.{Env, ProcedureHelper}
use pets_server_linux.Sql.Procedure.Prepare.{prepare}
use pets_server_linux.Sql.Procedure.Execute.{execute, clear, present}
use pets_server_linux.Sql.Queue.{
  PackType, procedure_type, common_type, stmt_type, undefined, SqlPack, Work, call_back,
  clear_helper, execute_procedure, values_of, binds_of, set_values, leave, execute_sentence,
}

module _ (env : Env) (db_name : Text) where
  -- Running a pack leaves the counts of what was freed.
  unfoldable pub Same : Work env → Work env → Type 0
  Same l l' = (l'.freed_packs ≡ l.freed_packs) × (l'.freed_arguments ≡ l.freed_arguments)

  call_back-Same :
      (pack : SqlPack env) (qr : QueryResult) (l : Work env)
      → Ensures (λ (r : QueryResult × Work env). Same l r.1) (call_back env db_name pack qr l)
  unfolding call_back Same
  call_back-Same pack qr l = go pack.sql_callback
    where
      go :
          (f : Option ℕ)
          → Ensures
              (λ (r : QueryResult × Work env). Same l r.1)
              (call_back env db_name (record pack { sql_callback = f }) qr l)
      go none = record { of_done = λ r e. absurd (cc) }
      go (some g) =
          Ensures-after (env.run_callback g qr l.client) _ (λ a e. Ensures-end _ (refl, refl))

  leave-Same : (qr : QueryResult) (l l' : Work env) → leave env db_name qr l ≡ done l' → Same l l'
  unfolding leave Same
  leave-Same qr l l' e =
      let (c, k, k') =
        >>=-eq-done (release env.api qr l.client) (λ c. done (record l { client = c })) e in
      rw⁻¹ (done-injective k') (refl, refl)

  Same-trans : (a b c : Work env) → Same a b → Same b c → Same a c
  unfolding Same
  Same-trans a b c h k = (k.0 ∙ h.0, k.1 ∙ h.1)

  clear_helper-Same :
      (h : ProcedureHelper env) (c : Client env.api) (l : Work env)
      → Ensures (Same l) (clear_helper env db_name h c l)
  unfolding clear_helper Same
  clear_helper-Same h c l = Ensures-after (clear env h c) _ (λ a e. Ensures-end _ (refl, refl))

  execute_procedure-Same :
      (pack : SqlPack env) (sentence : Text) (l : Work env)
      → Ensures (λ r. Same l r.1) (execute_procedure env db_name pack sentence l)
  unfolding execute_procedure Same
  execute_procedure-Same pack sentence l =
      Ensures-after (prepare env db_name sentence l.helper l.client) _ (λ a e.
        Ensures-if (is_zero a.0) _ _
          (λ ok. Ensures-after (values_of env db_name pack.arguments) _ (λ values e1.
            Ensures-after (set_values env db_name pack.param_nums 0 values a.1) _ (λ h2 e2.
              Ensures-after (execute env h2 a.2) _ (λ b e3.
                Ensures-if (is_zero b.0) _ _
                  (λ done'.
                    Ensures-after
                      (call_back env db_name pack b.1.result (record l { client = b.2 })) _
                      (λ r e4.
                        Ensures-after
                          (clear_helper env db_name (record b.1 { result = r.0 }) r.1.client r.1) _
                          (λ l'' e5. Ensures-end _ (
                            Same-trans l r.1 l''
                              ((call_back-Same pack b.1.result (record l { client = b.2 })).of_done
                                r e4)
                              ((clear_helper-Same (record b.1 { result = r.0 }) r.1.client
                                  r.1).of_done
                                l'' e5)))))
                  (λ failed. cleared_answer b.1 b.2)))))
          (λ no. cleared_answer a.1 a.2))
    where
      cleared_answer :
          (h : ProcedureHelper env) (c : Client env.api)
          → Ensures
              (λ (r : Bool × Work env). Same l r.1)
              (clear_helper env db_name h c l >>= λ l'. done (false, l'))
      cleared_answer h c =
          Ensures-after (clear_helper env db_name h c l) _
            (λ l' e. Ensures-end _ ((clear_helper-Same h c l).of_done l' e))

  pub execute_sentence-Same :
      (pack : SqlPack env) (l : Work env) → Ensures (Same l) (execute_sentence env db_name pack l)
  unfolding execute_sentence Same
  execute_sentence-Same pack l = go pack.pack_type
    where
      answered :
          (result : ℤ) (qr : QueryResult) (c : Client env.api)
          → Ensures (Same l) (
              if is_zero result
              then (call_back env db_name pack qr (record l { client = c }) >>= λ (qr', l2).
                  leave env db_name qr' l2)
              else leave env db_name qr (record l { client = c }))
      answered result qr c =
          let l1 : Work env = record l { client = c } in
          Ensures-if (is_zero result) _ _
            (λ ok. Ensures-after (call_back env db_name pack qr l1) _ (λ r e. record {
              of_done = λ l3 e'.
                  Same-trans l r.1 l3 ((call_back-Same pack qr l1).of_done r e)
                    (leave-Same r.0 r.1 l3 e');
            }))
            (λ no. record { of_done = λ l2 e. leave-Same qr l1 l2 e })

      go :
          (t : PackType)
          → Ensures (Same l) (execute_sentence env db_name (record pack { pack_type = t }) l)
      go common_type =
          Ensures-after (execute_sql env.api pack.sentence (some new_result) l.client) _
            (λ a e. answered a.0 _ a.2)
      go stmt_type = Ensures-after (binds_of env db_name pack.arguments) _ (λ binds e.
          let ran = execute_stmt env.api pack.sentence new_result binds l.client in
          answered ran.0 ran.1 ran.2)
      go procedure_type = Ensures-after (present pack.sentence) _ (λ sentence e.
          Ensures-after (execute_procedure env db_name pack sentence l) _
            (λ r e'. Ensures-end r.1 ((execute_procedure-Same pack sentence l).of_done r e')))
      go undefined = Ensures-end l (refl, refl)
