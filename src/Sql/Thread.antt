-- ===== src/Sql/Thread.antt =====
-- MysqlQuery.cpp: MyQuery::MysqlLoop, the thread of the SQL tasks, among the threads that push them
-- with Pet::PrepareSQL (ObjectModule/Pet.cpp).
use pets_server_linux.Common.{
  ℕ, suc, ◌+◌, ◌-◌, ◌<◌, ◌≡◌, ◌⊎◌, inl, inr, refl, sym, ap, ◌∙◌, subst, Bool, true, false, List, [],
  ◌∷◌, ◌++◌, append_assoc, append-nil, Text, length, Outcome, done, fail, stuck, ◌>>=◌, >>=-eq-done,
  done-injective, arith,
}
use pets_server_linux.Sql.Procedure.{Env}
use pets_server_linux.Sql.Queue.{SqlPack, Work, Loop, push_sql_pack, drain}
use pets_server_linux.Sql.Queue.Order.{run_all, run_all-append, drained, drain-run_all}

-- The state between two holds of the queue's lock: the queue with what the thread works on, whether
-- the thread is blocked in m_cv.wait, how many threads have pushed and not yet notified, and, as a
-- history, the packs that were pushed and those that the thread has taken.
pub record Thread (env : Env) : Type 0 where
  pub loop : Loop env
  pub waiting : Bool
  pub notifying : ℕ
  pub pushed : List (SqlPack env)
  pub taken : List (SqlPack env)

module _ (env : Env) (db_name : Text) where
  -- The thread before its first round, with the queue empty.
  abbrev pub started : Work env → Thread env
  started w = record {
    loop = record { queue = []; work = w };
    waiting = false;
    notifying = 0;
    pushed = [];
    taken = [];
  }

  -- PrepareSQL up to the end of PushSqlPack.
  unfoldable pub push : SqlPack env → Thread env → Thread env
  unfolding push_sql_pack
  push pack t = record t {
    loop = push_sql_pack env db_name pack t.loop;
    notifying = t.notifying + 1;
    pushed = t.pushed ++ pack ∷ [];
  }

  -- m_cv.notify_one() of a PrepareSQL that has pushed: the SQL thread is the only one that waits.
  unfoldable pub notify : Thread env → Thread env
  notify t = record t { notifying = t.notifying - 1; waiting = false }

  -- What a round does by the queue that it finds.
  unfoldable pub rounded : Thread env → List (SqlPack env) → Outcome (Thread env)
  unfolding drain
  rounded t [] = done (record t { waiting = true })
  rounded t (pack ∷ packs) = drain env db_name (suc (length (pack ∷ packs))) t.loop >>= λ l.
      done (record t { loop = l; taken = t.taken ++ pack ∷ packs })

  -- A round of MysqlLoop: with the lock held it blocks, if the queue is empty, or drains the queue;
  -- the lock is held over the sleep behind it. The flag that ends the loop is never set.
  unfoldable pub loop_round : Thread env → Outcome (Thread env)
  unfolding rounded
  loop_round t = rounded t t.loop.queue

  -- What can happen next: a push, a notify that is due, a round of a thread that is not blocked, and
  -- the wakes without a reason that a condition variable has.
  pub data Step (t : Thread env) : Thread env → Type 0 where
    pushes : (pack : SqlPack env) → Step t (push pack t)
    notifies : 0 < t.notifying → Step t (notify t)
    wakes : Step t (record t { waiting = false })
    rounds : {u : Thread env} → t.waiting ≡ false → loop_round t ≡ done u → Step t u

  pub data Reach (s : Thread env) : Thread env → Type 0 where
    here : Reach s s
    next : {t u : Thread env} → Reach s t → Step t u → Reach s u

  -- Every pack that was pushed was taken or is queued, in order; and the thread has done what
  -- running the taken packs one after the other does.
  pub record Refines (w : Work env) (t : Thread env) : Type 0 where
    pub order : t.pushed ≡ t.taken ++ t.loop.queue
    pub worked : run_all env db_name t.taken w ≡ done t.loop.work

  -- A blocked thread has nothing to do, or a notify is on its way.
  Awake : Thread env → Type 0
  Awake t = (t.waiting ≡ false) ⊎ (t.loop.queue ≡ []) ⊎ (0 < t.notifying)

  -- The thread when it has taken the whole queue.
  abbrev pub took : Thread env → Work env → Thread env
  took t w = record t { loop = record { queue = []; work = w }; taken = t.taken ++ t.loop.queue }

  after_drained :
      (m : Outcome (Work env)) (f : Loop env → Thread env)
      → (m >>= drained env db_name >>= λ l. done (f l))
        ≡ (m >>= λ w. done (f (record { queue = []; work = w })))
  after_drained (done w) f = refl
  after_drained (fail e) f = refl
  after_drained stuck f = refl

  -- A round on a queue that is not empty runs the whole of it.
  loop_round-run_all :
      (t : Thread env)
      → (t.loop.queue ≡ [])
        ⊎ (loop_round t ≡ (run_all env db_name t.loop.queue t.loop.work >>= λ w. done (took t w)))
  unfolding loop_round
  loop_round-run_all t = go t.loop.queue refl
    where
      go :
          (q : List (SqlPack env))
          → t.loop.queue ≡ q
          → (t.loop.queue ≡ [])
            ⊎ (loop_round t
                ≡ (run_all env db_name t.loop.queue t.loop.work >>= λ w. done (took t w)))
      go [] k = inl k
      go (pack ∷ packs) k = inr (
          ap (rounded t) k
          ∙ ap (λ m. m >>= λ l. done (record t { loop = l; taken = t.taken ++ pack ∷ packs }))
              (drain-run_all env db_name (suc (length (pack ∷ packs))) t.loop
                (subst (λ q. length q < suc (length (pack ∷ packs))) (sym k) (omega arith)))
          ∙ after_drained (run_all env db_name t.loop.queue t.loop.work)
              (λ l. record t { loop = l; taken = t.taken ++ pack ∷ packs })
          ∙ ap
              (λ q. run_all env db_name t.loop.queue t.loop.work >>= λ w.
                done (record t { loop = record { queue = []; work = w }; taken = t.taken ++ q }))
              (sym k))

  round-Refines :
      (w : Work env) (t u : Thread env)
      → Refines w t
      → loop_round t ≡ done u
      → Refines w u × Awake u
  unfolding loop_round Awake
  round-Refines w t u r e = elim (loop_round-run_all t) [
    | inl empty ↦
        rw⁻¹ (done-injective (ap (rounded t) (sym empty) ∙ e))
          (record { order = r.order; worked = r.worked }, inr (inl empty))
    | inr runs ↦
        let (v, k, k') =
          >>=-eq-done (run_all env db_name t.loop.queue t.loop.work) (λ x. done (took t x))
            (sym runs ∙ e) in
        rw⁻¹ (done-injective k') (
          record {
            order = r.order ∙ sym (append-nil (t.taken ++ t.loop.queue));
            worked =
                run_all-append env db_name t.taken t.loop.queue w
                ∙ ap (λ m. m >>= run_all env db_name t.loop.queue) r.worked
                ∙ k;
          },
          inr (inl refl),
        )
  ]

  Step-Refines :
      (w : Work env) {t u : Thread env} → Step t u → Refines w t × Awake t → Refines w u × Awake u
  unfolding push push_sql_pack notify Awake
  Step-Refines w {t} (pushes pack) (r, a) = (
    record {
      order = ap (λ q. q ++ pack ∷ []) r.order ∙ append_assoc t.taken t.loop.queue (pack ∷ []);
      worked = r.worked;
    },
    inr (inr (omega arith)),
  )
  Step-Refines w (notifies due) (r, a) = (record { order = r.order; worked = r.worked }, inl refl)
  Step-Refines w wakes (r, a) = (record { order = r.order; worked = r.worked }, inl refl)
  Step-Refines w {t} {u} (rounds free e) (r, a) = round-Refines w t u r e

  Reach-both : (w : Work env) {t : Thread env} → Reach (started w) t → Refines w t × Awake t
  unfolding run_all Awake
  Reach-both w here = (record { order = refl; worked = refl }, inl refl)
  Reach-both w (next r st) = Step-Refines w st (Reach-both w r)

  -- In every state that is reached, with any pushes, notifies and wakes between the rounds: the packs
  -- that were pushed are those that the thread has taken and then those in the queue, in order, and
  -- the thread has done what running the taken packs one after the other, from the start, does.
  pub Reach-Refines : (w : Work env) (t : Thread env) → Reach (started w) t → Refines w t
  Reach-Refines w t r = (Reach-both w r).0

  -- No pack is forgotten: in every state that is reached where all notifies were made, either the
  -- queue is empty, or the thread is not blocked, and its next round runs the whole queue, after
  -- which it has taken all that was pushed.
  pub Reach-loop_round :
      (w : Work env) (t : Thread env)
      → Reach (started w) t
      → t.notifying ≡ 0
      → (t.loop.queue ≡ [])
        ⊎ ((t.waiting ≡ false)
            × (loop_round t ≡ (
                run_all env db_name t.loop.queue t.loop.work >>= λ v.
                done (record t { loop = record { queue = []; work = v }; taken = t.pushed }))))
  unfolding Awake
  Reach-loop_round w t r none_due =
      let both = Reach-both w r in
      elim (loop_round-run_all t) [
        | inl empty ↦ inl empty
        | inr runs ↦ elim both.1 [
          | inl free ↦ inr (
            free,
            runs
                ∙ ap
                    (λ q. run_all env db_name t.loop.queue t.loop.work >>= λ v.
                      done (record t { loop = record { queue = []; work = v }; taken = q }))
                    (sym both.0.order),
          )
          | inr (inl empty) ↦ inl empty
          | inr (inr due) ↦ absurd (omega (arith, due, none_due))
        ]
      ]
