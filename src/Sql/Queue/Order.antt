-- ===== src/Sql/Queue/Order.antt =====
-- What the thread does with a queue of tasks.
use pets_server_linux.Common.{
  ℕ, zero, suc, ◌+◌, ◌<◌, ◌≡◌, refl, sym, ap, ◌∙◌, Bool, true, false, Bool-cases, inl, inr, List,
  [], ◌∷◌, ◌++◌, Text, length, if◌then◌else◌, Outcome, done, fail, stuck, ◌>>=◌, >>=-eq-done,
  done-injective, subst, arith, Ensures, Ensures-after, Ensures-end,
}
use pets_server_linux.Sql.Procedure.{Env}
use pets_server_linux.Sql.Queue.{
  PackType, procedure_type, common_type, stmt_type, undefined, SqlPack, Work, Loop,
  execute_sentence, is_null, freed_of, free_pack, get_sql_pack, drain,
}
use pets_server_linux.Sql.Queue.Counts.{Same, execute_sentence-Same}

count_null : {b : Bool} → b ≡ true → ◌≡◌ {A = ℕ} (if b then 0 else 1) 0
count_null h = rw h refl

count_given : {b : Bool} → b ≡ false → ◌≡◌ {A = ℕ} (if b then 0 else 1) 1
count_given h = rw h refl

module _ (env : Env) (db_name : Text) where
  -- The reference: the packs one after the other.
  unfoldable pub run_all : List (SqlPack env) → Work env → Outcome (Work env)
  run_all [] w = done w
  run_all (pack ∷ packs) w =
      let skip = run_all packs w in
      if is_null env db_name pack.arguments
      then skip
      else (execute_sentence env db_name pack w >>= λ w'.
          run_all packs (free_pack env db_name pack w'))

  pub run_all-append :
      (xs ys : List (SqlPack env)) (w : Work env)
      → run_all (xs ++ ys) w ≡ (run_all xs w >>= run_all ys)
  unfolding run_all
  run_all-append [] ys w = refl
  run_all-append (pack ∷ xs) ys w = go (is_null env db_name pack.arguments) (run_all-append xs ys)
    where
      after :
          (m : Outcome (Work env))
          → ((v : Work env) → run_all (xs ++ ys) v ≡ (run_all xs v >>= run_all ys))
          → (m >>= λ v. run_all (xs ++ ys) (free_pack env db_name pack v))
            ≡ (m >>= (λ v. run_all xs (free_pack env db_name pack v)) >>= run_all ys)
      after (done v) later = later (free_pack env db_name pack v)
      after (fail e) later = refl
      after stuck later = refl

      go :
          (b : Bool)
          → ((v : Work env) → run_all (xs ++ ys) v ≡ (run_all xs v >>= run_all ys))
          → (if b
              then run_all (xs ++ ys) w
              else (execute_sentence env db_name pack w >>= λ v.
                  run_all (xs ++ ys) (free_pack env db_name pack v)))
            ≡ ((if b
                  then run_all xs w
                  else (execute_sentence env db_name pack w >>= λ v.
                      run_all xs (free_pack env db_name pack v)))
                >>= run_all ys)
      go true later = later w
      go false later = after (execute_sentence env db_name pack w) later

  -- The loop with an empty queue.
  abbrev pub drained : Work env → Outcome (Loop env)
  drained w = done (record { queue = []; work = w })

  drain_from :
      (fuel : ℕ) (packs : List (SqlPack env)) (w : Work env)
      → length packs < fuel
      → drain env db_name fuel (record { queue = packs; work = w }) ≡ (run_all packs w >>= drained)
  unfolding drain run_all get_sql_pack
  drain_from zero packs w h = absurd (omega arith)
  drain_from (suc fuel) [] w h = refl
  drain_from (suc fuel) (pack ∷ packs) w h =
      go (is_null env db_name pack.arguments) (λ v. drain_from fuel packs v (omega arith))
    where
      at : Work env → Loop env
      at v = record { queue = packs; work = v }

      after :
          (m : Outcome (Work env))
          → ((v : Work env) → drain env db_name fuel (at v) ≡ (run_all packs v >>= drained))
          → (m >>= λ v. drain env db_name fuel (at (free_pack env db_name pack v)))
            ≡ (m >>= (λ v. run_all packs (free_pack env db_name pack v)) >>= drained)
      after (done v) later = later (free_pack env db_name pack v)
      after (fail e) later = refl
      after stuck later = refl

      go :
          (b : Bool)
          → ((v : Work env) → drain env db_name fuel (at v) ≡ (run_all packs v >>= drained))
          → (if b
              then drain env db_name fuel (at w)
              else (execute_sentence env db_name pack w >>= λ v.
                  drain env db_name fuel (at (free_pack env db_name pack v))))
            ≡ ((if b
                  then run_all packs w
                  else (execute_sentence env db_name pack w >>= λ v.
                      run_all packs (free_pack env db_name pack v)))
                >>= drained)
      go true later = later w
      go false later = after (execute_sentence env db_name pack w) later

  -- With fuel above the length of the queue the inner loop runs every pack once, in the order of
  -- their arrival, skips those without arguments, and ends with an empty queue unless one faults.
  pub drain-run_all :
      (fuel : ℕ) (l : Loop env)
      → length l.queue < fuel
      → drain env db_name fuel l ≡ (run_all l.queue l.work >>= drained)
  drain-run_all fuel l h = drain_from fuel l.queue l.work h

  -- How many of the packs are freed, and how many of their arguments.
  packs_freed : List (SqlPack env) → ℕ
  packs_freed [] = 0
  packs_freed (pack ∷ packs) =
      (if is_null env db_name pack.arguments then 0 else 1) + packs_freed packs

  abbrev one_if : Bool → ℕ
  one_if b = if b then 1 else 0

  -- The argument of a procedure, if it is there.
  is_procedure : SqlPack env → Bool
  is_procedure pack = elim pack.pack_type [
    | procedure_type ↦ if is_null env db_name pack.arguments then false else true
    | common_type ↦ false
    | stmt_type ↦ false
    | undefined ↦ false
  ]

  procedures : List (SqlPack env) → ℕ
  procedures [] = 0
  procedures (pack ∷ packs) = one_if (is_procedure pack) + procedures packs

  -- What is left when the loop ends: every pack that has arguments was freed, and of the arguments
  -- only those of procedures. The binds of a statement are never freed, nor is a pack without
  -- arguments.
  pub Accounts : Work env → List (SqlPack env) → Work env → Type 0
  Accounts w packs w' =
      (w'.freed_packs ≡ w.freed_packs + packs_freed packs)
      × (w'.freed_arguments ≡ w.freed_arguments + procedures packs)

  freed_null :
      (pack : SqlPack env)
      → is_null env db_name pack.arguments ≡ true
      → one_if (is_procedure pack) ≡ 0
  unfolding is_procedure
  freed_null pack h = go pack.pack_type
    where
      go : (t : PackType) → one_if (is_procedure (record pack { pack_type = t })) ≡ 0
      go procedure_type = rw h refl
      go common_type = refl
      go stmt_type = refl
      go undefined = refl

  -- What the code frees of a pack with arguments is the argument of a procedure.
  freed_procedure :
      (pack : SqlPack env)
      → is_null env db_name pack.arguments ≡ false
      → freed_of env db_name pack ≡ one_if (is_procedure pack)
  unfolding is_procedure
  freed_procedure pack h = go pack.pack_type
    where
      go :
          (t : PackType)
          → freed_of env db_name (record pack { pack_type = t })
            ≡ one_if (is_procedure (record pack { pack_type = t }))
      go procedure_type = rw h refl
      go common_type = refl
      go stmt_type = refl
      go undefined = refl

  run_all-Accounts :
      (packs : List (SqlPack env)) (w : Work env) → Ensures (Accounts w packs) (run_all packs w)
  unfolding run_all Accounts packs_freed procedures free_pack Same
  run_all-Accounts [] w = Ensures-end _ (omega arith, omega arith)
  run_all-Accounts (pack ∷ packs) w = elim (Bool-cases (is_null env db_name pack.arguments)) [
    | inl null ↦ rw null (record {
      of_done = λ w' e.
          let (f, a) = (run_all-Accounts packs w).of_done w' e in
          (omega (arith, f, count_null null), omega (arith, a, freed_null pack null));
    })
    | inr given ↦ rw given (
        Ensures-after (execute_sentence env db_name pack w) _ (λ v e2. record {
          of_done = λ w' e.
              let (f, a) = (run_all-Accounts packs (free_pack env db_name pack v)).of_done w' e in
              let (f', a') = (execute_sentence-Same env db_name pack w).of_done v e2 in
              (
                omega (arith, f, f', count_given given),
                omega (arith, a, a', freed_procedure pack given),
              );
        }))
  ]

  -- If the inner loop ends, with fuel above the length of the queue, then the queue is empty, every
  -- pack that had arguments was freed, and of the arguments only those of procedures: the binds of a
  -- statement and the packs without arguments are leaked.
  pub drain-Accounts :
      (fuel : ℕ) (l l' : Loop env)
      → length l.queue < fuel
      → drain env db_name fuel l ≡ done l'
      → (l'.queue ≡ []) × Accounts l.work l.queue l'.work
  drain-Accounts fuel l l' h e =
      let (w, k, k') =
        >>=-eq-done (run_all l.queue l.work) drained (sym (drain-run_all fuel l h) ∙ e) in
      let same = done-injective k' in
      (
        sym (ap (λ (m : Loop env). m.queue) same),
        subst (Accounts l.work l.queue) (ap (λ (m : Loop env). m.work) same)
            ((run_all-Accounts l.queue l.work).of_done w k),
      )
