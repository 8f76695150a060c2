-- ===== src/Dispatcher/Order.antt =====
-- DispatchMsg as a whole: in which order packets are handled, how long it goes on, and that it ends.
use pets_server_linux.Common.{
  ℕ, suc, ◌+◌, ◌≤◌, ◌<◌, ◌≡◌, refl, sym, ap, ◌∙◌, ◌⊎◌, inl, inr, Option, none, some, List, [], ◌∷◌,
  ◌++◌, append_assoc, append-nil, arith, leb, Bool-cases, Outcome, done, fail, stuck, >>=-eq-done,
  ◌>>=◌, take, All, get_elem?, leb→le,
}
use pets_server_linux.Dispatcher.{
  SPacket, Dispatcher, CallBackMap, Tick, Dispatched, deliver, get_pack, handle_pack, next_pack,
  push_all, elapsed, dispatch_loop, dispatch_msg,
}

-- All packets that arrive in some rounds.
abbrev pub arrived : List Tick → List SPacket
arrived [] = []
arrived (t ∷ ts) = t.arrivals ++ arrived ts

-- How many packets have a buffer.
abbrev pub counted : List SPacket → ℕ
counted [] = 0
counted (p ∷ ps) = elim p.buffer [ none ↦ counted ps | some msg ↦ suc (counted ps) ]

snoc_arrived :
    (xs : List SPacket) (t : Tick) (ts : List Tick)
    → xs ++ arrived (t ∷ ts) ≡ (xs ++ t.arrivals) ++ arrived ts
snoc_arrived xs t ts = sym (append_assoc xs t.arrivals (arrived ts))

module _ {S : Type 0} where
  -- The specification: packets handled one after the other, those with no buffer skipped.
  unfoldable pub handle_all : List SPacket → CallBackMap S → S → Outcome (CallBackMap S × S)
  handle_all [] m s = done (m, s)
  handle_all (p ∷ ps) m s = elim p.buffer [
    | none ↦ handle_all ps m s
    | some msg ↦ deliver p msg m s >>= λ (m', s'). handle_all ps m' s'
  ]

  abbrev pub go_on : List SPacket → CallBackMap S × S → Outcome (CallBackMap S × S)
  go_on ys (m, s) = handle_all ys m s

  -- Handling two lists of packets one after the other.
  pub handle_all-append :
      (xs ys : List SPacket) (m : CallBackMap S) (s : S)
      → handle_all (xs ++ ys) m s ≡ (handle_all xs m s >>= go_on ys)
  unfolding handle_all
  handle_all-append [] ys m s = refl
  handle_all-append (p ∷ xs) ys m s = go p.buffer (handle_all-append xs ys)
    where
      Later : Type 0
      Later =
          (m : CallBackMap S) (s : S) → handle_all (xs ++ ys) m s ≡ (handle_all xs m s >>= go_on ys)

      after :
          (o : Outcome (CallBackMap S × S))
          → Later
          → (o >>= λ (m', s'). handle_all (xs ++ ys) m' s')
            ≡ ((o >>= λ (m', s'). handle_all xs m' s') >>= go_on ys)
      after (done (m', s')) later = later m' s'
      after (fail e) later = refl
      after stuck later = refl

      go :
          (b : Option (List ℕ))
          → Later
          → (elim b [
            | none ↦ handle_all (xs ++ ys) m s
            | some msg ↦ deliver p msg m s >>= λ (m', s'). handle_all (xs ++ ys) m' s'
          ])
            ≡ ((elim b [
              | none ↦ handle_all xs m s
              | some msg ↦ deliver p msg m s >>= λ (m', s'). handle_all xs m' s'
            ])
                >>= go_on ys)
      go none later = later m s
      go (some msg) later = after (deliver p msg m s) later

  -- What a finished loop has done: rounds up to `last`, the packets of `front` handled in order, the
  -- rest still queued. All rounds but the last were in time; the last found the queue empty or the
  -- second over.
  pub record Handled (ts : List Tick) (begin : ℕ) (r q : Dispatched S) : Type 0 where
    pub last : ℕ
    pub front : List SPacket
    pub queued :
        r.dispatcher.msg_queue ++ arrived (take (suc last) ts) ≡ front ++ q.dispatcher.msg_queue
    pub handled :
        handle_all front r.dispatcher.call_back_map r.world
        ≡ done (q.dispatcher.call_back_map, q.world)
    pub counter : q.msg_counter ≡ r.msg_counter + counted front
    pub in_time : All (λ t. elapsed t.now begin ≤ 1000) (take last ts)
    pub reason :
        (q.dispatcher.msg_queue ≡ [])
        ⊎ ((t : Tick) × (get_elem? ts last ≡ some t) × (1000 < elapsed t.now begin))

  module _ (t : Tick) (ts : List Tick) (begin : ℕ) (r q : Dispatched S) where
    end_reason :
        (q.dispatcher.msg_queue ≡ []) ⊎ (1000 < elapsed t.now begin)
        → (q.dispatcher.msg_queue ≡ [])
          ⊎ ((u : Tick) × (get_elem? (t ∷ ts) 0 ≡ some u) × (1000 < elapsed u.now begin))
    end_reason (inl e) = inl e
    end_reason (inr l) = inr (t, refl, l)

    -- The loop ended in the first round, with the queue as it was then.
    ended :
        q ≡ record r { dispatcher = push_all r.dispatcher t.arrivals }
        → (q.dispatcher.msg_queue ≡ []) ⊎ (1000 < elapsed t.now begin)
        → Handled (t ∷ ts) begin r q
    unfolding handle_all
    ended e why = record {
      last = 0;
      front = [];
      queued = cc (append-nil t.arrivals);
      handled = cc;
      counter = ground arith;
      in_time = tt;
      reason = end_reason why;
    }

    abbrev queue_is : List SPacket → Dispatcher S
    queue_is xs = record { call_back_map = r.dispatcher.call_back_map; msg_queue = xs }

    module _ (before : elapsed t.now begin ≤ 1000) (next : Dispatched S → Outcome (Dispatched S))
        (ih : (r' : Dispatched S) → next r' ≡ done q → Handled ts begin r' q) where
      handle_pack-Handled :
          (pack : SPacket) (d : Dispatcher S) (b : Option (List ℕ))
          → pack.buffer ≡ b
          → r.dispatcher.msg_queue ++ t.arrivals ≡ pack ∷ d.msg_queue
          → d.call_back_map ≡ r.dispatcher.call_back_map
          → handle_pack next r pack d b ≡ done q
          → Handled (t ∷ ts) begin r q
      unfolding handle_pack handle_all
      handle_pack-Handled pack d none hb hq hm e =
          let h : Handled ts begin (record r { dispatcher = d }) q = ih _ e in
          record {
            last = suc h.last;
            front = pack ∷ h.front;
            queued =
                snoc_arrived r.dispatcher.msg_queue t (take (suc h.last) ts)
                ∙ ap (λ l. l ++ arrived (take (suc h.last) ts)) hq
                ∙ ap (◌∷◌ pack) h.queued;
            handled = ground (arith, h.handled);
            counter = ground (arith, h.counter);
            in_time = (before, h.in_time);
            reason = h.reason;
          }
      handle_pack-Handled pack d (some msg) hb hq hm e =
          let (x, hx, hk) = >>=-eq-done (deliver pack msg d.call_back_map r.world) _ e in
          let h : Handled ts begin (after_one x) q = ih (after_one x) hk in
          record {
            last = suc h.last;
            front = pack ∷ h.front;
            queued =
                snoc_arrived r.dispatcher.msg_queue t (take (suc h.last) ts)
                ∙ ap (λ l. l ++ arrived (take (suc h.last) ts)) hq
                ∙ ap (◌∷◌ pack) h.queued;
            handled = ground (arith, h.handled, hx);
            counter = ground (arith, h.counter);
            in_time = (before, h.in_time);
            reason = h.reason;
          }
        where
          after_one : CallBackMap S × S → Dispatched S
          after_one x = record {
            dispatcher = record d { call_back_map = x.0 };
            world = x.1;
            msg_counter = r.msg_counter + 1;
          }

      next_pack-Handled :
          (xs : List SPacket)
          → r.dispatcher.msg_queue ++ t.arrivals ≡ xs
          → next_pack next r (queue_is xs) (get_pack (queue_is xs)) ≡ done q
          → Handled (t ∷ ts) begin r q
      unfolding next_pack get_pack
      next_pack-Handled [] hx e = ended (ground (arith, hx)) (inl (ground arith))
      next_pack-Handled (pack ∷ rest) hx e =
          handle_pack-Handled pack (queue_is rest) pack.buffer refl hx refl e

  -- A loop that returns has handled a front part of the queue and of all arrivals, in order of
  -- arrival, has counted the packets that had a buffer, and leaves the rest queued.
  dispatch_loop-Handled :
      (ts : List Tick) (begin : ℕ) (r q : Dispatched S)
      → dispatch_loop ts begin r ≡ done q
      → Handled ts begin r q
  unfolding dispatch_loop
  dispatch_loop-Handled [] begin r q e = cc
  dispatch_loop-Handled (t ∷ ts) begin r q e = elim (Bool-cases (leb (elapsed t.now begin) 1000)) [
    | inl before ↦
        next_pack-Handled t ts begin r q (leb→le _ _ before) (dispatch_loop ts begin)
          (λ r' e'. dispatch_loop-Handled ts begin r' q e') _ refl (rw (before, dispatch_loop) at e)
    | inr late ↦ ended t ts begin r q (ground arith) (inr (ground arith))
  ]

  abbrev pub start : Dispatcher S → S → Dispatched S
  start d s = record { dispatcher = d; world = s; msg_counter = 0 }

  -- DispatchMsg, whatever the network threads push meanwhile: when it returns, it has handled a
  -- front part of the queue and the arrivals, in order, and the rest is still queued in order; the
  -- counter is the number of handled packets that have a buffer; every round but the last began
  -- within the second, and the last found the queue empty or the second over.
  pub dispatch_msg-Handled :
      (ts : List Tick) (begin : ℕ) (d : Dispatcher S) (s : S) (q : Dispatched S)
      → dispatch_msg ts begin d s ≡ done q
      → Handled ts begin (start d s) q
  unfolding dispatch_msg
  dispatch_msg-Handled ts begin d s q e = dispatch_loop-Handled ts begin (start d s) q e
