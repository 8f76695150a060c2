-- ===== src/System/Progress.antt =====
-- What the threads can still do in any state that they reach: take all messages off a connection's
-- buffer, and then empty the queue.
use pets_server_linux.Common.{
  ℕ, suc, ◌≡◌, ◌≢◌, ◌⊎◌, inl, inr, refl, sym, ap, ◌∙◌, subst, Bool, Option, none, some, List, [],
  ◌∷◌, ◌++◌, ◌+◌, ◌≤◌, ◌<◌, append-nil, All, map, drop, length-append, length-drop, Fault, Outcome,
  done, fail, stuck, ◌>>=◌, >>=-ne-stuck, >>=-eq-done, Outcome-cases, done-injective, length, arith,
}
use pets_server_linux.Muduo.{Net}
use pets_server_linux.Dispatcher.{SPacket, CallBackMap, Tick, Dispatched, deliver, dispatch_msg}
use pets_server_linux.Dispatcher.Order.{handle_all, counted}
use pets_server_linux.Dispatcher.Progress.{Returns, deliver-ne-stuck, deliver-Returns}
use pets_server_linux.Dispatcher.Quiet.{Quiet, dispatch_msg-handle_all, emptied as emptied_queue}
use pets_server_linux.Codec.{of_dnid, Session, on_message}
use pets_server_linux.Codec.Frames
use pets_server_linux.Codec.Receive.{Reads, on_message-Reads, packet}
use pets_server_linux.Object.Handlers.{Log}
use pets_server_linux.Server.{bind_callbacks}
use pets_server_linux.Server.Routing.{fresh}
use pets_server_linux.Server.Returning.{bind_callbacks-Returns}
use pets_server_linux.System.{World, Reach, started, session_of, messages_of}
use pets_server_linux.System.Reads.{with_session, at_there, Reach-trans}
use pets_server_linux.System.Runs.{dispatched, on_message-dispatch_msg}
use pets_server_linux.System.Streams.{Reach-Frames}

module _ {S : Type 0} where
  handle_all-Returns :
      (ps : List SPacket) (m : CallBackMap S) (s : S) (r : CallBackMap S × S)
      → Returns m
      → handle_all ps m s ≡ done r
      → Returns r.0
  unfolding handle_all
  handle_all-Returns [] m s r h e =
      subst (λ (x : CallBackMap S × S). Returns x.0) (done-injective e) h
  handle_all-Returns (p ∷ ps) m s r h e =
      go p.buffer e (λ m' s' h' k. handle_all-Returns ps m' s' r h' k)
    where
      go :
          (b : Option (List ℕ))
          → (elim b as (λ _. Outcome (CallBackMap S × S)) [
            | none ↦ handle_all ps m s
            | some msg ↦ deliver p msg m s >>= λ (m', s'). handle_all ps m' s'
          ])
            ≡ done r
          → ((m' : CallBackMap S) (s' : S)
              → Returns m'
              → handle_all ps m' s' ≡ done r
              → Returns r.0)
          → Returns r.0
      go none k later = later m s h k
      go (some msg) k later =
          let (x, delivered, rest) = >>=-eq-done (deliver p msg m s) _ k in
          later x.0 x.1 (deliver-Returns p msg m s x h delivered) rest

  handle_all-ne-stuck :
      (ps : List SPacket) (m : CallBackMap S) (s : S) → Returns m → handle_all ps m s ≢ stuck
  unfolding handle_all
  handle_all-ne-stuck [] m s h = λ e. cc
  handle_all-ne-stuck (p ∷ ps) m s h = go p.buffer (λ m' s' h'. handle_all-ne-stuck ps m' s' h')
    where
      go :
          (b : Option (List ℕ))
          → ((m' : CallBackMap S) (s' : S) → Returns m' → handle_all ps m' s' ≢ stuck)
          → (elim b as (λ _. Outcome (CallBackMap S × S)) [
            | none ↦ handle_all ps m s
            | some msg ↦ deliver p msg m s >>= λ (m', s'). handle_all ps m' s'
          ])
            ≢ stuck
      go none later = later m s h
      go (some msg) later =
          >>=-ne-stuck (deliver p msg m s) _ (deliver-ne-stuck p msg m s h)
            (λ x e. later x.0 x.1 (deliver-Returns p msg m s x h e))

Quiet-arrivals :
    (begin : ℕ) (ts : List Tick) → All (Quiet begin) ts → All (λ (t : Tick). t.arrivals ≡ []) ts
Quiet-arrivals begin [] h = tt
Quiet-arrivals begin (t ∷ ts) h = (h.0.1, Quiet-arrivals begin ts h.1)

length-packets : (d : ℕ) (ms : List (List ℕ)) → length (map (packet d) ms) ≡ length ms
length-packets d [] = refl
length-packets d (m ∷ ms) = ap suc (length-packets d ms)

-- Each message has its length in front of it, so that there are fewer of them than bytes.
messages-bytes :
    (net : Net) {xs : List ℕ} {ps : List (List ℕ)} {rest : List ℕ} {b : Bool}
    → Frames.Frames net xs ps rest b
    → length ps ≤ length xs
messages-bytes net (Frames.short h) = omega arith
messages-bytes net (Frames.bad h e) = omega arith
messages-bytes net (Frames.partial n h e l) = omega arith
messages-bytes net {xs} (Frames.next n e l f) =
    omega (arith, messages-bytes net f, l, length-drop n (drop 4 xs), length-drop 4 xs)

-- What is left over has no complete message.
left_over :
    (net : Net) {xs : List ℕ} {ps : List (List ℕ)} {rest : List ℕ} {b : Bool}
    → Frames.Frames net xs ps rest b
    → Frames.Frames net rest [] rest b
left_over net (Frames.short h) = Frames.short h
left_over net (Frames.bad h e) = Frames.bad h e
left_over net (Frames.partial n h e l) = Frames.partial n h e l
left_over net (Frames.next n e l f) = left_over net f

module _ (net : Net) where
  open net use {peek}

  -- The callbacks of a state that is reached return or fault.
  Reach-Returns :
      (log : Log) (w : World net)
      → Reach net (started net log) w
      → Returns w.dispatcher.call_back_map
  Reach-Returns log w r =
      let reads = on_message-Reads net 0 (session_of net w 0) in
      handle_all-Returns w.handled (bind_callbacks fresh).call_back_map log
        (w.dispatcher.call_back_map, w.log) bind_callbacks-Returns
        (Reach-Frames net log w 0 reads.messages reads.rest reads.verdict r reads.frames).1

  -- What a DispatchMsg that ended has done behind an onMessage on `d`: both are steps of the threads;
  -- the queue is empty, and the messages of all the bytes that came on the connection have been
  -- handled, in order.
  pub Emptied : ℕ → World net → Session net Log → Dispatched Log → Type 0
  Emptied d w t q =
      (front : List SPacket) × (rest : List ℕ) × (b : Bool) × Reach net w
        (dispatched net (with_session net w d t) q front)
      × (q.dispatcher.msg_queue ≡ [])
      × (peek t.buf ≡ rest)
      × Frames.Frames net rest [] rest b
      × Frames.Frames net (w.received d) (messages_of d (w.handled ++ front)) rest b

  emptied :
      (log : Log) (w : World net) (d : ℕ) (t : Session net Log) (rest : List ℕ) (b : Bool)
      (q : Dispatched Log) (ts : List Tick) (begin : ℕ)
      → Reach net (started net log) w
      → on_message net (of_dnid d) (session_of net w d) ≡ done t
      → peek t.buf ≡ rest
      → Frames.Frames net rest [] rest b
      → All (λ (k : Tick). k.arrivals ≡ []) ts
      → dispatch_msg ts begin t.dispatcher w.log ≡ done q
      → q.dispatcher.msg_queue ≡ []
      → Emptied d w t q
  unfolding Emptied
  emptied log w d t rest b q ts begin reached read left ended quiet ran empty_now =
      let (front, way) = on_message-dispatch_msg net d w t ts begin q read quiet ran in
      let u = dispatched net (with_session net w d t) q front in
      let buffer : peek (u.buffers d) ≡ rest = ap peek (at_there d t.buf w.buffers) ∙ left in
      let frames =
        (Reach-Frames net log u d [] rest b (Reach-trans net reached way)
          (subst (λ xs. Frames.Frames net xs [] rest b) (sym buffer) ended)).0 in
      (
        front,
        rest,
        b,
        way,
        empty_now,
        left,
        ended,
        subst (λ ms. Frames.Frames net (w.received d) ms rest b)
            (append-nil (messages_of d (u.handled ++ q.dispatcher.msg_queue))
              ∙ ap (λ ps. messages_of d (u.handled ++ ps)) empty_now
              ∙ ap (messages_of d) (append-nil u.handled))
            frames,
      )

  -- From every state that the threads reach, and for every connection: onMessage on it returns; and
  -- a DispatchMsg behind it, with a round within its second for each packet in the queue and each byte
  -- in the connection's buffer, one round more, and nothing arriving, either ends with an empty queue,
  -- and then all messages of all the bytes that came on the connection have been handled, in order,
  -- and no complete one is left in its buffer; or it ends with the fault of a packet in the queue.
  pub Reach-progress :
      (log : Log) (w : World net) (d : ℕ) (ts : List Tick) (begin : ℕ)
      → Reach net (started net log) w
      → All (Quiet begin) ts
      → length w.dispatcher.msg_queue + length (peek (w.buffers d)) < length ts
      → (t : Session net Log) × (on_message net (of_dnid d) (session_of net w d) ≡ done t)
        × (((q : Dispatched Log) × (dispatch_msg ts begin t.dispatcher w.log ≡ done q)
              × Emptied d w t q)
            ⊎ ((e : Fault) × (dispatch_msg ts begin t.dispatcher w.log ≡ fail e)
                × (handle_all t.dispatcher.msg_queue t.dispatcher.call_back_map w.log ≡ fail e)))
  Reach-progress log w d ts begin reached quiet enough =
      (t, reads.returns, go (Outcome-cases (handle_all packs calls w.log)))
    where
      reads : Reads net d (session_of net w d) (on_message net (of_dnid d) (session_of net w d))
      reads = on_message-Reads net d (session_of net w d)

      t : Session net Log
      t = reads.session

      packs : List SPacket
      packs = t.dispatcher.msg_queue

      calls : CallBackMap Log
      calls = t.dispatcher.call_back_map

      rounds : length packs < length ts
      rounds = omega (
        arith,
        enough,
        ap length reads.received.queued,
        length-append w.dispatcher.msg_queue (map (packet d) reads.messages),
        length-packets d reads.messages,
        messages-bytes net reads.frames,
      )

      run :
          dispatch_msg ts begin t.dispatcher w.log
          ≡ (handle_all packs calls w.log >>= emptied_queue (counted packs))
      run = dispatch_msg-handle_all ts begin t.dispatcher w.log quiet rounds

      go :
          ((a : CallBackMap Log × Log) × (handle_all packs calls w.log ≡ done a))
            ⊎ ((e : Fault) × (handle_all packs calls w.log ≡ fail e))
            ⊎ (handle_all packs calls w.log ≡ stuck)
          → ((q : Dispatched Log) × (dispatch_msg ts begin t.dispatcher w.log ≡ done q)
              × Emptied d w t q)
            ⊎ ((e : Fault) × (dispatch_msg ts begin t.dispatcher w.log ≡ fail e)
                × (handle_all t.dispatcher.msg_queue t.dispatcher.call_back_map w.log ≡ fail e))
      go (inl (a, e)) =
          let ran = run ∙ ap (λ o. o >>= emptied_queue (counted packs)) e in
          inl (
            _,
            ran,
            emptied log w d t reads.rest reads.verdict _ ts begin reached reads.returns
                reads.received.left (left_over net reads.frames) (Quiet-arrivals begin ts quiet) ran
                refl,
          )
      go (inr (inl (e, k))) = inr (e, run ∙ ap (λ o. o >>= emptied_queue (counted packs)) k, k)
      go (inr (inr k)) = absurd (
          handle_all-ne-stuck packs calls w.log
            (subst Returns (sym reads.received.kept) (Reach-Returns log w reached)) k)
