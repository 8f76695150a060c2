-- ===== src/Dispatcher/Progress.antt =====
-- DispatchMsg ends: a round takes a packet away, so it needs no more rounds than there are packets.
use pets_server_linux.Common.{
  ℕ, ◌+◌, ◌<◌, ◌≡◌, refl, ◌≢◌, inl, inr, Option, none, some, List, [], ◌∷◌, ◌++◌, arith, leb,
  Bool-cases, Outcome, done, fail, stuck, >>=-ne-stuck, >>=-eq-done, ap, subst, length,
  length-append,
}
use pets_server_linux.Common.Maps
use pets_server_linux.Dispatcher.{
  SPacket, Dispatcher, DispatcherCallBack, CallBackMap, Tick, Dispatched, call, index_cb, deliver,
  get_pack, handle_pack, next_pack, elapsed, dispatch_loop, dispatch_msg,
}
use pets_server_linux.Dispatcher.Order.{arrived, start}

module _ {S : Type 0} where
  -- Every registered callback returns or faults.
  abbrev pub Returns : CallBackMap S → Type 0
  Returns m =
      (k : ℕ) (cb : DispatcherCallBack S)
      → Maps.find k m ≡ some (some cb)
      → (dnid : ℕ) (msg : List ℕ) (pet : _) (s : S) → cb dnid msg pet s ≢ stuck

  -- What looking a protocol up gives and leaves.
  index_cb-Returns : (m : CallBackMap S) (t : ℕ) → Returns m → Returns (index_cb m t).1
  unfolding index_cb
  index_cb-Returns m t h = go (Maps.find t m) refl
    where
      go :
          (o : Option (Option (DispatcherCallBack S)))
          → Maps.find t m ≡ o
          → Returns (index_cb m t).1
      go none e = rw (e, index_cb) (λ k cb f. h k cb (ground (arith, Maps.find-insert t k none m)))
      go (some x) e = rw (e, index_cb) h

  index_cb-found :
      (m : CallBackMap S) (t : ℕ) (cb : DispatcherCallBack S)
      → (index_cb m t).0 ≡ some cb
      → Maps.find t m ≡ some (some cb)
  unfolding index_cb
  index_cb-found m t cb e = ground arith

  call-ne-stuck :
      (m : CallBackMap S) (t : ℕ) (o : Option (DispatcherCallBack S)) (p : SPacket) (msg : List ℕ)
      (s : S)
      → Returns m
      → (index_cb m t).0 ≡ o
      → call o p.dnid msg p.context s ≢ stuck
  call-ne-stuck m t none p msg s h e = λ q. cc
  call-ne-stuck m t (some cb) p msg s h e = h t cb (index_cb-found m t cb e) p.dnid msg p.context s

  pub deliver-ne-stuck :
      (p : SPacket) (msg : List ℕ) (m : CallBackMap S) (s : S)
      → Returns m
      → deliver p msg m s ≢ stuck
  unfolding deliver
  deliver-ne-stuck p [] m s h = λ q. cc
  deliver-ne-stuck p (t ∷ rest) m s h =
      >>=-ne-stuck _ _ (call-ne-stuck m t (index_cb m t).0 p (t ∷ rest) s h refl) (λ a e q. cc)

  pub deliver-Returns :
      (p : SPacket) (msg : List ℕ) (m : CallBackMap S) (s : S) (x : CallBackMap S × S)
      → Returns m
      → deliver p msg m s ≡ done x
      → Returns x.0
  unfolding deliver
  deliver-Returns p [] m s x h e = cc
  deliver-Returns p (t ∷ rest) m s x h e =
      let (s', hs, hx) = >>=-eq-done (call (index_cb m t).0 p.dnid (t ∷ rest) p.context s) _ e in
      subst (λ (o : Outcome (CallBackMap S × S)). Fits o) hx (index_cb-Returns m t h)
    where
      Fits : Outcome (CallBackMap S × S) → Type 0
      Fits (done y) = Returns y.0
      Fits (fail f) = Unit {0}
      Fits stuck = Unit {0}

  handle_pack-ne-stuck :
      (next : Dispatched S → Outcome (Dispatched S)) (r : Dispatched S) (p : SPacket)
      (d : Dispatcher S) (b : Option (List ℕ))
      → Returns d.call_back_map
      → ((r' : Dispatched S)
          → Returns r'.dispatcher.call_back_map
          → r'.dispatcher.msg_queue ≡ d.msg_queue
          → next r' ≢ stuck)
      → handle_pack next r p d b ≢ stuck
  unfolding handle_pack
  handle_pack-ne-stuck next r p d none h k = k _ h refl
  handle_pack-ne-stuck next r p d (some msg) h k =
      >>=-ne-stuck _ _ (deliver-ne-stuck p msg d.call_back_map r.world h)
        (λ x e. k _ (deliver-Returns p msg d.call_back_map r.world x h e) refl)

  next_pack-ne-stuck :
      (next : Dispatched S → Outcome (Dispatched S)) (r : Dispatched S) (d : Dispatcher S)
      (m : CallBackMap S) (xs : List SPacket)
      → Returns m
      → ((r' : Dispatched S)
          → Returns r'.dispatcher.call_back_map
          → length r'.dispatcher.msg_queue < length xs
          → next r' ≢ stuck)
      → next_pack next r d (get_pack (record { call_back_map = m; msg_queue = xs })) ≢ stuck
  unfolding next_pack get_pack
  next_pack-ne-stuck next r d m [] h k = λ q. cc
  next_pack-ne-stuck next r d m (p ∷ rest) h k =
      handle_pack-ne-stuck next r p _ p.buffer h (λ r' h' e. k r' h' (omega (arith, ap length e)))

  dispatch_loop-ne-stuck :
      (ts : List Tick) (begin : ℕ) (r : Dispatched S)
      → Returns r.dispatcher.call_back_map
      → length r.dispatcher.msg_queue + length (arrived ts) < length ts
      → dispatch_loop ts begin r ≢ stuck
  unfolding dispatch_loop
  dispatch_loop-ne-stuck [] begin r h l = absurd (omega arith)
  dispatch_loop-ne-stuck (t ∷ ts) begin r h l = elim (Bool-cases (leb (elapsed t.now begin) 1000)) [
    | inl before ↦
        rw (before, dispatch_loop)
          (next_pack-ne-stuck (dispatch_loop ts begin) r _ r.dispatcher.call_back_map
            (r.dispatcher.msg_queue ++ t.arrivals) h
            (λ r' h' l'. dispatch_loop-ne-stuck ts begin r' h' (
              omega (
                arith,
                length-append r.dispatcher.msg_queue t.arrivals,
                length-append t.arrivals (arrived ts),
              ))))
    | inr late ↦ rw (late, dispatch_loop) (λ q. cc)
  ]

  -- DispatchMsg ends, also while packets keep arriving: if every callback returns or faults, and
  -- there are more rounds than packets, queued or arriving, then those rounds are enough.
  pub dispatch_msg-ne-stuck :
      (ts : List Tick) (begin : ℕ) (d : Dispatcher S) (s : S)
      → Returns d.call_back_map
      → length d.msg_queue + length (arrived ts) < length ts
      → dispatch_msg ts begin d s ≢ stuck
  unfolding dispatch_msg
  dispatch_msg-ne-stuck ts begin d s h l = dispatch_loop-ne-stuck ts begin (start d s) h l
