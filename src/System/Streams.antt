-- ===== src/System/Streams.antt =====
-- What the threads do together to the streams of the connections: codec.cpp and Dispatcher.cpp.
use pets_server_linux.Common.{
  ℕ, ◌+◌, ◌≤◌, ◌≡◌, ◌⊎◌, inl, inr, refl, sym, ap, ◌∙◌, subst, Bool, true, false, Bool-cases, Option,
  none, some, List, [], ◌∷◌, ◌++◌, append_assoc, append-nil, arith, leb, leb→le, ◌==◌,
  if◌then◌else◌, done, ◌>>=◌, length, take, drop, done-injective,
}
use pets_server_linux.Muduo.{Net}
use pets_server_linux.Dispatcher.{SPacket, Dispatcher, CallBackMap, get_pack, deliver, push_pack}
use pets_server_linux.Dispatcher.Order.{handle_all, handle_all-append, go_on}
use pets_server_linux.Codec.{of_dnid, Session, head_msg_len, frame_len, receive}
use pets_server_linux.Codec.Frames
use pets_server_linux.Codec.Prefixes.{Taken, nothing, Taken-append, Taken-next, Taken-Frames}
use pets_server_linux.Codec.Receive.{advance, peek-advance, receive-advance, packet}
use pets_server_linux.Object.Handlers.{Log}
use pets_server_linux.Server.{bind_callbacks}
use pets_server_linux.Server.Routing.{fresh}
use pets_server_linux.Common.Maps.{at}
use pets_server_linux.System.{
  World, Step, arrives, reads, shuts, handles, drops, Reach, here, next, messages_of, started,
  session_of, delivered,
}

messages_of-packet :
    (d j : ℕ) (msg : List ℕ) (ps : List SPacket)
    → messages_of j (ps ++ packet d msg ∷ [])
      ≡ messages_of j ps ++ (if d == j then msg ∷ [] else [])
unfolding messages_of
messages_of-packet d j msg [] = refl
messages_of-packet d j msg (p ∷ ps) =
    go p.buffer (p.dnid == j) _ _ _ (messages_of-packet d j msg ps)
  where
    go :
        (b : Option (List ℕ)) (own : Bool) (xs ys zs : List (List ℕ))
        → xs ≡ ys ++ zs
        → (elim b [ none ↦ xs | some m ↦ if own then m ∷ xs else xs ])
          ≡ (elim b [ none ↦ ys | some m ↦ if own then m ∷ ys else ys ]) ++ zs
    go none own xs ys zs h = h
    go (some m) true xs ys zs h = ap (◌∷◌ m) h
    go (some m) false xs ys zs h = h

-- GetPack took the first packet, and nothing else changed.
pub get_pack-some :
    {S : Type 0} (d d' : Dispatcher S) (pack : SPacket)
    → get_pack d ≡ some (pack, d')
    → (d.msg_queue ≡ pack ∷ d'.msg_queue) × (d'.call_back_map ≡ d.call_back_map)
unfolding get_pack
get_pack-some {S} d d' pack = go d.msg_queue
  where
    go :
        (q : List SPacket)
        → get_pack (record d { msg_queue = q }) ≡ some (pack, d')
        → (q ≡ pack ∷ d'.msg_queue) × (d'.call_back_map ≡ d.call_back_map)
    go [] h = cc
    go (p ∷ rest) h =
        let same : ◌≡◌ {A = SPacket × Dispatcher S} (p, record d { msg_queue = rest }) (pack, d') =
          cc in
        (
          ap (λ (x : SPacket × Dispatcher S). x.0 ∷ x.1.msg_queue) same,
          sym (ap (λ (x : SPacket × Dispatcher S). x.1.call_back_map) same),
        )

pub ==_eq : (a b : ℕ) → (a == b) ≡ true → a ≡ b
==_eq a b h = ground arith

module _ (net : Net) where
  open net use {
    empty as empty_buffer, peek, append, readable_bytes, peek-append, peek-empty,
    readable_bytes_lem,
  }

  Inv : Log → World net → Type 0
  Inv log w =
      ((d : ℕ) → Taken net (w.received d) (delivered net w d) (peek (w.buffers d)))
      × (handle_all w.handled (bind_callbacks fresh).call_back_map log
          ≡ done (w.dispatcher.call_back_map, w.log))

  arrives-Inv :
      (log : Log) (w : World net) (d : ℕ) (bytes : List ℕ)
      → Inv log w
      → Inv log (record w {
        buffers = at d (append (w.buffers d) bytes) w.buffers;
        received = at d (w.received d ++ bytes) w.received;
      })
  unfolding Inv
  arrives-Inv log w d bytes inv = ((λ j. go j (Bool-cases (d == j))), inv.1)
    where
      go :
          (j : ℕ)
          → (((d == j) ≡ true) ⊎ ((d == j) ≡ false))
          → Taken net
              (at d (w.received d ++ bytes) w.received j)
              (delivered net w j)
              (peek (at d (append (w.buffers d) bytes) w.buffers j))
      go j (inl same) =
          rw (same, peek-append (w.buffers d) bytes)
            (subst
              (λ k.
                Taken net (w.received d ++ bytes) (delivered net w k) (peek (w.buffers d) ++ bytes))
              (==_eq d j same) (Taken-append net bytes (inv.0 d)))
      go j (inr other) = rw other (inv.0 j)

  reads-Inv :
      (log : Log) (w : World net) (d n : ℕ) (s : Session net Log)
      → Inv log w
      → frame_len net (peek (w.buffers d)) ≡ some n
      → leb (n + head_msg_len) (readable_bytes (w.buffers d)) ≡ true
      → receive net (of_dnid d) (session_of net w d) n ≡ done s
      → Inv log (record w { buffers = at d s.buf w.buffers; dispatcher = s.dispatcher })
  unfolding Inv push_pack
  reads-Inv log w d n s inv e l r =
      subst
        (λ (t : Session net Log).
          Inv log (record w { buffers = at d t.buf w.buffers; dispatcher = t.dispatcher }))
        (done-injective (sym (receive-advance net d (session_of net w d) n fits) ∙ r))
        ((λ j. go j (Bool-cases (d == j))), inv.1)
    where
      fits : n + 4 ≤ length (peek (w.buffers d))
      fits = omega (arith, leb→le _ _ l, readable_bytes_lem (w.buffers d))

      msg : List ℕ
      msg = take n (drop 4 (peek (w.buffers d)))

      one_more :
          (j : ℕ)
          → messages_of j (w.handled ++ (w.dispatcher.msg_queue ++ packet d msg ∷ []))
            ≡ delivered net w j ++ (if d == j then msg ∷ [] else [])
      one_more j =
          ap (messages_of j)
            (sym (append_assoc w.handled w.dispatcher.msg_queue (packet d msg ∷ [])))
          ∙ messages_of-packet d j msg (w.handled ++ w.dispatcher.msg_queue)

      go :
          (j : ℕ)
          → (((d == j) ≡ true) ⊎ ((d == j) ≡ false))
          → Taken net
              (w.received j)
              (messages_of j (w.handled ++ (w.dispatcher.msg_queue ++ packet d msg ∷ [])))
              (peek (at d (advance net d (session_of net w d) n).buf w.buffers j))
      go j (inl same) =
          rw (one_more j, same, peek-advance net d (session_of net w d) n fits)
            (subst
              (λ k.
                Taken net (w.received k) (delivered net w k ++ msg ∷ [])
                  (drop n (drop 4 (peek (w.buffers d)))))
              (==_eq d j same) (Taken-next net n (inv.0 d) e fits))
      go j (inr other) = rw (one_more j, other, append-nil (delivered net w j)) (inv.0 j)

  -- A packet that is handled changes no stream.
  handled_streams :
      (w : World net) (d : ℕ) (pack : SPacket) (disp : Dispatcher Log)
      → w.dispatcher.msg_queue ≡ pack ∷ disp.msg_queue
      → Taken net (w.received d) (delivered net w d) (peek (w.buffers d))
      → Taken net
          (w.received d)
          (messages_of d ((w.handled ++ pack ∷ []) ++ disp.msg_queue))
          (peek (w.buffers d))
  handled_streams w d pack disp queue =
      subst (λ q. Taken net (w.received d) (messages_of d q) (peek (w.buffers d)))
        (ap (λ q. w.handled ++ q) queue ∙ sym (append_assoc w.handled (pack ∷ []) disp.msg_queue))

  handles-Inv :
      (log : Log) (w : World net) (pack : SPacket) (disp : Dispatcher Log) (msg : List ℕ)
      (m : CallBackMap Log) (log' : Log)
      → Inv log w
      → get_pack w.dispatcher ≡ some (pack, disp)
      → pack.buffer ≡ some msg
      → deliver pack msg disp.call_back_map w.log ≡ done (m, log')
      → Inv log (record w {
        dispatcher = record disp { call_back_map = m };
        log = log';
        handled = w.handled ++ pack ∷ [];
      })
  unfolding Inv get_pack handle_all
  handles-Inv log w pack disp msg m log' inv got buf dv =
      let (queue, map_kept) = get_pack-some w.dispatcher disp pack got in
      (
        (λ d. handled_streams w d pack disp queue (inv.0 d)),
        handle_all-append w.handled (pack ∷ []) _ log
            ∙ ap (λ o. o >>= go_on (pack ∷ [])) inv.1
            ∙ rw (buf, ← map_kept, dv) refl,
      )

  drops-Inv :
      (log : Log) (w : World net) (pack : SPacket) (disp : Dispatcher Log)
      → Inv log w
      → get_pack w.dispatcher ≡ some (pack, disp)
      → pack.buffer ≡ none
      → Inv log (record w { dispatcher = disp; handled = w.handled ++ pack ∷ [] })
  unfolding Inv handle_all
  drops-Inv log w pack disp inv got buf =
      let (queue, map_kept) = get_pack-some w.dispatcher disp pack got in
      (
        (λ d. handled_streams w d pack disp queue (inv.0 d)),
        handle_all-append w.handled (pack ∷ []) _ log
            ∙ ap (λ o. o >>= go_on (pack ∷ [])) inv.1
            ∙ rw (buf, map_kept) refl,
      )

  Step-Inv : (log : Log) {w u : World net} → Step net w u → Inv log w → Inv log u
  unfolding Inv
  Step-Inv log {w} (arrives d bytes) inv = arrives-Inv log w d bytes inv
  Step-Inv log {w} (reads d n s e l r) inv = reads-Inv log w d n s inv e l r
  Step-Inv log {w} (shuts d l e) inv = inv
  Step-Inv log {w} (handles pack disp msg m log' got buf dv) inv =
      handles-Inv log w pack disp msg m log' inv got buf dv
  Step-Inv log {w} (drops pack disp got buf) inv = drops-Inv log w pack disp inv got buf

  Reach-Inv : (log : Log) {w : World net} → Reach net (started net log) w → Inv log w
  unfolding Inv handle_all bind_callbacks messages_of
  Reach-Inv log here = ((λ d. subst (Taken net [] []) (sym peek-empty) nothing), refl)
  Reach-Inv log (next r st) = Step-Inv log st (Reach-Inv log r)

  -- In every state that the threads reach, whatever the order of their steps, and for every
  -- connection: the messages that the game thread has handled for it, then those queued for it, then
  -- those still in its buffer are the messages of all the bytes that came on it, in order, none lost,
  -- doubled or taken from another connection; and the callbacks and the log are what handling the
  -- packets one after the other makes of the log at the start.
  pub Reach-Frames :
      (log : Log) (w : World net) (d : ℕ) (qs : List (List ℕ)) (rest : List ℕ) (b : Bool)
      → Reach net (started net log) w
      → Frames.Frames net (peek (w.buffers d)) qs rest b
      → Frames.Frames net
          (w.received d)
          (messages_of d (w.handled ++ w.dispatcher.msg_queue) ++ qs)
          rest
          b
        × (handle_all w.handled (bind_callbacks fresh).call_back_map log
            ≡ done (w.dispatcher.call_back_map, w.log))
  unfolding Inv
  Reach-Frames log w d qs rest b r f =
      let inv = Reach-Inv log r in (Taken-Frames net (inv.0 d) f, inv.1)
