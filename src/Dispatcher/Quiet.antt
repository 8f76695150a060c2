-- ===== src/Dispatcher/Quiet.antt =====
-- DispatchMsg (Dispatcher.cpp) within the second and with no packet arriving meanwhile.
use pets_server_linux.Common.{
  ℕ, suc, ◌+◌, ◌≤◌, ◌<◌, ◌≡◌, refl, ap, ◌∙◌, Option, none, some, List, [], ◌∷◌, append-nil, arith,
  le→leb, Outcome, done, fail, stuck, ◌>>=◌, All, length,
}
use pets_server_linux.Dispatcher.{
  SPacket, Dispatcher, CallBackMap, Tick, Dispatched, deliver, get_pack, handle_pack, next_pack,
  elapsed, dispatch_loop, dispatch_msg,
}
use pets_server_linux.Dispatcher.Order.{counted, handle_all}

-- A round that begins within the second, before which nothing was pushed.
abbrev pub Quiet : ℕ → Tick → Type 0
Quiet begin t = (elapsed t.now begin ≤ 1000) × (t.arrivals ≡ [])

module _ {S : Type 0} where
  -- The result with an empty queue, after `n` packets that were counted.
  abbrev pub emptied : ℕ → CallBackMap S × S → Outcome (Dispatched S)
  emptied n (m, s) = done (record {
    dispatcher = record { call_back_map = m; msg_queue = [] };
    world = s;
    msg_counter = n;
  })

  abbrev state : CallBackMap S → S → List SPacket → ℕ → Dispatched S
  state m s packs n = record {
    dispatcher = record { call_back_map = m; msg_queue = packs };
    world = s;
    msg_counter = n;
  }

  dispatch_loop-handle_all :
      (ts : List Tick) (begin : ℕ) (packs : List SPacket) (m : CallBackMap S) (s : S) (n : ℕ)
      → All (Quiet begin) ts
      → length packs < length ts
      → dispatch_loop ts begin (state m s packs n)
        ≡ (handle_all packs m s >>= emptied (n + counted packs))
  unfolding dispatch_loop handle_all get_pack next_pack handle_pack
  dispatch_loop-handle_all [] begin packs m s n h l = absurd (omega arith)
  dispatch_loop-handle_all (t ∷ ts) begin [] m s n h l =
      rw (le→leb _ _ h.0.0, h.0.1, dispatch_loop)
        (ap (λ k. done (state m s [] k)) {x = n} {y = n + 0} (omega arith))
  dispatch_loop-handle_all (t ∷ ts) begin (p ∷ packs) m s n h l =
      rw (le→leb _ _ h.0.0, h.0.1, append-nil packs, dispatch_loop)
        (go p.buffer (λ m' s' k. dispatch_loop-handle_all ts begin packs m' s' k h.1 (omega arith)))
    where
      Later : Type 0
      Later =
          (m : CallBackMap S) (s : S) (k : ℕ)
          → dispatch_loop ts begin (state m s packs k)
            ≡ (handle_all packs m s >>= emptied (k + counted packs))

      after :
          (o : Outcome (CallBackMap S × S))
          → Later
          → (o >>= λ (m', s'). dispatch_loop ts begin (state m' s' packs (n + 1)))
            ≡ ((o >>= λ (m', s'). handle_all packs m' s') >>= emptied (n + suc (counted packs)))
      after (done (m', s')) later =
          later m' s' (n + 1)
          ∙ ap (λ k. handle_all packs m' s' >>= emptied k) {x = n + 1 + counted packs}
              {y = n + suc (counted packs)} (omega arith)
      after (fail e) later = refl
      after stuck later = refl

      go :
          (b : Option (List ℕ))
          → Later
          → handle_pack
              (dispatch_loop ts begin)
              (state m s (p ∷ packs) n)
              p
              (record { call_back_map = m; msg_queue = packs })
              b
            ≡ ((elim b [
              | none ↦ handle_all packs m s
              | some msg ↦ deliver p msg m s >>= λ (m', s'). handle_all packs m' s'
            ])
                >>= emptied (n + elim b [ none ↦ counted packs | some msg ↦ suc (counted packs) ]))
      go none later = later m s n
      go (some msg) later = after (deliver p msg m s) later

  -- DispatchMsg with all its rounds within the second, no packet arriving meanwhile, and a round
  -- more than there are packets: it ends as handling all packets of the queue one after the other
  -- does, faults included, with the queue empty and the packets that have a buffer counted.
  pub dispatch_msg-handle_all :
      (ts : List Tick) (begin : ℕ) (d : Dispatcher S) (s : S)
      → All (Quiet begin) ts
      → length d.msg_queue < length ts
      → dispatch_msg ts begin d s
        ≡ (handle_all d.msg_queue d.call_back_map s >>= emptied (counted d.msg_queue))
  unfolding dispatch_msg
  dispatch_msg-handle_all ts begin d s h l =
      dispatch_loop-handle_all ts begin d.msg_queue d.call_back_map s 0 h l
      ∙ ap (λ k. handle_all d.msg_queue d.call_back_map s >>= emptied k)
          {x = 0 + counted d.msg_queue} {y = counted d.msg_queue} (omega arith)
