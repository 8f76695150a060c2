-- ===== src/Sql/Procedure/Answers.antt =====
-- What Execute can answer.
use pets_server_linux.Common.{
  ℕ, zero, suc, ◌+◌, ◌-◌, ◌≡◌, ◌≢◌, refl, sym, ap, ◌∙◌, false, inl, inr, Option, none, some, subst,
  Option-cases, [], ◌∷◌, ◌++◌, Text, codes, length, ltb, done, fail, ◌>>=◌, done-injective, Ensures,
  Ensures-after, Ensures-if, Ensures-end, double_free, arith,
}
use pets_server_linux.Common.Int.{ℤ, pos, negsuc}
use pets_server_linux.Common.Maps
use pets_server_linux.Sql.{Client, is_zero, QueryResult}
use pets_server_linux.Sql.Query.{free_result, execute_sql, fetch_result, release, affected}
use pets_server_linux.Sql.Query.Ownership.{release_twice}
use pets_server_linux.Sql.Procedure.{Env, ProcedureHelper, cleared}
use pets_server_linux.Sql.Procedure.Execute.{
  Statements, buffer_size, add_params, read_columns, execute_into, read_answer, run_call,
  run_statements, execute, clear, is_one, present,
}
use pets_server_linux.Sql.Procedure.Added.{AllIn, AddedAll, add_params-AddedAll}

is_zero-false : (z : ℤ) → is_zero z ≡ false → z ≢ pos 0
is_zero-false (pos zero) h = cc
is_zero-false (pos (suc n)) h = λ e. cc
is_zero-false (negsuc n) h = λ e. cc

module _ (env : Env) where
  -- The answer is never 0 once a select has run.
  NotZero : ℤ × ProcedureHelper env × Client env.api → Type 0
  NotZero (result, h, c) = result ≢ pos 0

  read_answer-NotZero :
      (select : Text) (h : ProcedureHelper env) (c : Client env.api)
      → Ensures NotZero (read_answer env select h c)
  unfolding read_answer NotZero
  read_answer-NotZero select h c = Ensures-after (execute_into env select h c) _ (λ a e.
      Ensures-if (is_zero a.0) _ _
        (λ ok.
          Ensures-if (is_one (affected env.api a.1.result)) _ _
            (λ one. Ensures-after (fetch_result env.api a.1.result a.2) _ (λ f e1.
              Ensures-if (is_zero f.0) _ _
                (λ ok1. Ensures-after (present f.1.rows) _ (λ rows e2.
                  Ensures-after (present f.1.lens) _ (λ lens e3.
                    Ensures-after
                      (read_columns env (a.1.out_count + a.1.inout_count) 0 rows lens
                        (record a.1 { result = f.1 }))
                      _ (λ h2 e4. record { of_done = λ r k. absurd (cc) }))))
                (λ no. Ensures-end _ (is_zero-false f.0 no))))
            (λ other. Ensures-end _ (λ k. cc)))
        (λ no. Ensures-end _ (is_zero-false a.0 no)))

  -- What an answer 0 of run_call shows: no select, and the result was released.
  AnswerZero : Statements → ℤ × ProcedureHelper env × Client env.api → Type 0
  AnswerZero s (result, h, c) =
      result ≡ pos 0
      → (s.select ≡ []) × (before : Client env.api) × (release env.api h.result before ≡ done c)

  run_call-AnswerZero :
      (s : Statements) (h : ProcedureHelper env) (c : Client env.api)
      → Ensures (AnswerZero s) (run_call env s h c)
  unfolding run_call AnswerZero NotZero
  run_call-AnswerZero s h c = Ensures-after (execute_into env s.procedure_call h c) _ (λ a e.
      Ensures-if (is_zero a.0) _ _
        (λ ok.
          Ensures-after (release env.api a.1.result a.2) _
            (λ c2 e1. go a.1 a.2 c2 e1 s.select refl))
        (λ no. Ensures-end _ (λ k. absurd (is_zero-false a.0 no k))))
    where
      go :
          (h1 : ProcedureHelper env) (c1 c2 : Client env.api)
          → release env.api h1.result c1 ≡ done c2
          → (select : Text) → s.select ≡ select
          → Ensures (AnswerZero s) (elim select [
            | [] ↦ done (pos 0, h1, c2)
            | ch ∷ chs ↦ read_answer env (ch ∷ chs) h1 c2
          ])
      go h1 c1 c2 e1 [] k = Ensures-end _ (λ z. (k, c1, e1))
      go h1 c1 c2 e1 (ch ∷ chs) k = record {
        of_done = λ r e. λ z. absurd ((read_answer-NotZero (ch ∷ chs) h1 c2).of_done r e z);
      }

  run_statements-AnswerZero :
      (s : Statements) (h : ProcedureHelper env) (c : Client env.api)
      → Ensures (AnswerZero s) (run_statements env s h c)
  unfolding run_statements AnswerZero
  run_statements-AnswerZero s h c = go s.prepared
    where
      go :
          (prepared : Text)
          → Ensures (AnswerZero s) (run_statements env (record s { prepared = prepared }) h c)
      go [] = run_call-AnswerZero s h c
      go (b ∷ buf) =
          Ensures-if (ltb (buffer_size - 20) (length (b ∷ buf))) _ _
            (λ long. Ensures-end _ (λ k. cc))
            (λ fits. Ensures-after (execute_sql env.api (some (b ∷ buf)) none c) _ (λ a e.
              Ensures-if (is_zero a.0) _ _ (λ ok. run_call-AnswerZero s h a.2)
                (λ no. Ensures-end _ (λ k. absurd (is_zero-false a.0 no k)))))

  -- What an answer 0 of Execute shows.
  Answered : ProcedureHelper env → ℤ × ProcedureHelper env × Client env.api → Type 0
  Answered h (result, h', c') =
      result ≡ pos 0
      → AllIn env h h.total_count 0
        × ((before : Client env.api) × (release env.api h'.result before ≡ done c'))

  first : ProcedureHelper env → Statements
  first h = record {
    prepared = [];
    procedure_call = codes "call " ++ h.str_proc ++ codes " ( ";
    select = [];
  }

  execute-Answered :
      (h : ProcedureHelper env) (c : Client env.api) → Ensures (Answered h) (execute env h c)
  unfolding execute AddedAll AnswerZero Answered first
  execute-Answered h c =
      Ensures-after (add_params env h h.total_count 0 (first h)) _ (λ statements e.
        go statements ((add_params-AddedAll env h h.total_count 0 (first h)).of_done statements e))
    where
      go :
          (o : Option Statements)
          → AddedAll env h h.total_count 0 (first h) o
          → Ensures (Answered h) (elim o [
            | none ↦ done (negsuc 0, h, c)
            | some s ↦
                run_statements env
                  (record s { procedure_call = s.procedure_call ++ codes " )" })
                  h
                  c
          ])
      go none k = Ensures-end _ (λ z. cc)
      go (some s) k = record {
        of_done = λ r e z.
            let s' : Statements = record s { procedure_call = s.procedure_call ++ codes " )" } in
            let (select, before, released) = (run_statements-AnswerZero s' h c).of_done r e z in
            ((k select).1, (before, released));
      }

  -- If Execute answers 0 then every parameter of the procedure is an IN parameter: with an OUT or
  -- INOUT parameter it ends with an error code, in a fault, or without a return value.
  pub execute-AllIn :
      (h h' : ProcedureHelper env) (c c' : Client env.api)
      → execute env h c ≡ done (pos 0, h', c')
      → AllIn env h h.total_count 0
  unfolding Answered
  execute-AllIn h h' c c' e = ((execute-Answered h c).of_done (pos 0, h', c') e refl).0

  released_twice :
      (qr : QueryResult) (before after : Client env.api) (n : ℕ)
      → qr.res ≡ some n
      → release env.api qr before ≡ done after
      → release env.api qr after ≡ fail double_free
  unfolding release free_result
  released_twice qr before after n e k = elim (Option-cases (Maps.find n before.results)) [
    | inl closed ↦ absurd (ground (arith, e, closed, k))
    | inr (r, open') ↦
        let (d, released, closed, again) = release_twice env.api qr before n r e open' in
        subst (λ x. release env.api qr x ≡ fail double_free) (done-injective (sym released ∙ k))
          again
  ]

  -- If Execute answers 0 and the call had a result set, then the Clear that follows it in
  -- ExecuteProcedure frees that set a second time.
  pub clear-execute :
      (h h' : ProcedureHelper env) (c c' : Client env.api) (n : ℕ)
      → execute env h c ≡ done (pos 0, h', c')
      → h'.result.res ≡ some n
      → clear env h' c' ≡ fail double_free
  unfolding Answered clear
  clear-execute h h' c c' n e k =
      let (all, rest) = (execute-Answered h c).of_done (pos 0, h', c') e refl in
      let (before, released) = rest in
      ap (λ m. m >>= λ d. done (cleared env h'.result, d))
        (released_twice h'.result before c' n k released)
