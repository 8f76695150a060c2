-- ===== src/System/Runs.antt =====
-- Codec::onMessage (codec.cpp) and Dispatcher::DispatchMsg (Dispatcher.cpp) as steps of the threads.

use pets_server_linux.Common.{
  ℕ, ◌+◌, ◌≡◌, inl, inr, refl, sym, subst, Bool-cases, Option, none, some, List, [], ◌∷◌, ◌++◌,
  append_assoc, append-nil, All, leb, Outcome, done, >>=-eq-done, done-injective,
}
use pets_server_linux.Muduo.{Net}
use pets_server_linux.Codec.{of_dnid, Session, on_message}
use pets_server_linux.Dispatcher.{
  SPacket, Dispatcher, Tick, Dispatched, get_pack, deliver, handle_pack, next_pack, dispatch_loop,
  dispatch_msg, elapsed,
}
use pets_server_linux.Object.Handlers.{Log}
use pets_server_linux.System.{World, Step, handles, drops, Reach, here, next, session_of}
use pets_server_linux.System.Reads.{with_session, Reach-trans, on_message-Reach}

module _ (net : Net) where
  -- The state of the game thread in DispatchMsg, and the state behind it.
  abbrev dispatching : World net → ℕ → Dispatched Log
  dispatching w n = record { dispatcher = w.dispatcher; world = w.log; msg_counter = n }

  abbrev pub dispatched : World net → Dispatched Log → List SPacket → World net
  dispatched w q front = record w {
    dispatcher = q.dispatcher;
    log = q.world;
    handled = w.handled ++ front;
  }

  -- A run that handles some packets.
  Runs : World net → Dispatched Log → Type 0
  Runs w q = (front : List SPacket) × Reach net w (dispatched w q front)

  Runs-next :
      (w : World net) (disp : Dispatcher Log) (log : Log) (q : Dispatched Log) (pack : SPacket)
      → Step net w (record w { dispatcher = disp; log = log; handled = w.handled ++ pack ∷ [] })
      → Runs (record w { dispatcher = disp; log = log; handled = w.handled ++ pack ∷ [] }) q
      → Runs w q
  unfolding Runs
  Runs-next w disp log q pack st (front, r) = (
    pack ∷ front,
    Reach-trans net (next here st) (
        subst
          (λ h.
            Reach net (record w { dispatcher = disp; log = log; handled = w.handled ++ pack ∷ [] })
              (record w { dispatcher = q.dispatcher; log = q.world; handled = h }))
          (append_assoc w.handled (pack ∷ []) front) r),
  )

  -- Nothing more is handled.
  Runs-end : (w : World net) (n : ℕ) (q : Dispatched Log) → dispatching w n ≡ q → Runs w q
  unfolding Runs
  Runs-end w n q e = (
    [],
    subst (λ (x : Dispatched Log). Reach net w (dispatched w x [])) e
        (subst (λ h. Reach net w (record w { handled = h })) (sym (append-nil w.handled)) here),
  )

  module _ (w : World net) (q : Dispatched Log) (n : ℕ)
      (loop : Dispatched Log → Outcome (Dispatched Log))
      (later : (v : World net) (k : ℕ) → loop (dispatching v k) ≡ done q → Runs v q) where
    handle_pack-Runs :
        (pack : SPacket) (disp : Dispatcher Log) (b : Option (List ℕ))
        → get_pack w.dispatcher ≡ some (pack, disp)
        → pack.buffer ≡ b
        → handle_pack loop (dispatching w n) pack disp b ≡ done q
        → Runs w q
    unfolding handle_pack
    handle_pack-Runs pack disp none got buf e =
        Runs-next w disp w.log q pack (drops pack disp got buf) (later _ n e)
    handle_pack-Runs pack disp (some msg) got buf e =
        let ((m, log), delivered, k) =
          >>=-eq-done (deliver pack msg disp.call_back_map w.log) _ e in
        Runs-next w (record disp { call_back_map = m }) log q pack
          (handles pack disp msg m log got buf delivered) (later _ (n + 1) k)

    next_pack-Runs :
        (o : Option (SPacket × Dispatcher Log))
        → get_pack w.dispatcher ≡ o
        → next_pack loop (dispatching w n) w.dispatcher o ≡ done q
        → Runs w q
    unfolding next_pack
    next_pack-Runs none got e = Runs-end w n q (done-injective e)
    next_pack-Runs (some (pack, disp)) got e = handle_pack-Runs pack disp pack.buffer got refl e

  dispatch_loop-Runs :
      (ts : List Tick) (begin n : ℕ) (w : World net) (q : Dispatched Log)
      → All (λ (t : Tick). t.arrivals ≡ []) ts
      → dispatch_loop ts begin (dispatching w n) ≡ done q
      → Runs w q
  unfolding dispatch_loop
  dispatch_loop-Runs [] begin n w q h e = cc
  dispatch_loop-Runs (t ∷ ts) begin n w q h e = elim (Bool-cases (leb (elapsed t.now begin) 1000)) [
    | inl in_time ↦
        next_pack-Runs w q n (dispatch_loop ts begin)
          (λ v k e'. dispatch_loop-Runs ts begin k v q h.1 e') (get_pack w.dispatcher) refl
          (rw (in_time, h.0, append-nil w.dispatcher.msg_queue, dispatch_loop) at e)
    | inr late ↦
        Runs-end w n q
          (done-injective (rw (late, h.0, append-nil w.dispatcher.msg_queue, dispatch_loop) at e))
  ]

  -- A DispatchMsg that ends is a sequence of the game thread's steps.
  dispatch_msg-Runs :
      (ts : List Tick) (begin : ℕ) (w : World net) (q : Dispatched Log)
      → All (λ (t : Tick). t.arrivals ≡ []) ts
      → dispatch_msg ts begin w.dispatcher w.log ≡ done q
      → Runs w q
  unfolding dispatch_msg
  dispatch_msg-Runs ts begin w q h e = dispatch_loop-Runs ts begin 0 w q h e

  -- A call of onMessage on any connection, in any state of the server, and then a DispatchMsg while
  -- no packet arrives: if both end, they are together a sequence of the threads' steps, the first of
  -- which take messages off the connection's buffer, and the others of which handle some packets.
  pub on_message-dispatch_msg :
      (d : ℕ) (w : World net) (t : Session net Log) (ts : List Tick) (begin : ℕ)
      (q : Dispatched Log)
      → on_message net (of_dnid d) (session_of net w d) ≡ done t
      → All (λ (k : Tick). k.arrivals ≡ []) ts
      → dispatch_msg ts begin t.dispatcher w.log ≡ done q
      → (front : List SPacket) × Reach net w (dispatched (with_session net w d t) q front)
  unfolding Runs
  on_message-dispatch_msg d w t ts begin q read quiet run =
      let (front, r) = dispatch_msg-Runs ts begin (with_session net w d t) q quiet run in
      (front, Reach-trans net (on_message-Reach net d w t read) r)
