-- ===== src/Codec/Send.antt =====
-- SendMsg writes frames that onMessage reads back.
use mathlib.Core.Path.{fun_ext}
use pets_server_linux.Common.{
  ℕ, ◌%◌, ◌^◌, ◌≤◌, ◌<◌, ◌≡◌, refl, sym, ap, ◌∙◌, Bool, true, false, ◌||◌, none, some, List, [],
  ◌∷◌, ◌++◌, map, append_assoc, append-nil, arith, done, length, length-append, take, drop, All,
  take-append_exact, drop-append_exact, concat,
}
use pets_server_linux.Common.Int.{int32}
use pets_server_linux.Muduo.{Net}
use pets_server_linux.Codec.{
  of_dnid, Session, load32, store32, valid_len, frame_len, on_message, send_msg,
}
use pets_server_linux.Codec.Frames.{Frames-unique}
use pets_server_linux.Codec.Frames.{Frames}
use pets_server_linux.Codec.Receive.{packet, on_message-Reads}
use pets_server_linux.Codec.Chunks.{on_message-Read}

load32-store32 : (w : ℕ) (xs : List ℕ) → w < 2 ^ 32 → load32 (store32 w ++ xs) ≡ w
load32-store32 w xs h = omega arith

take_all {ℓ} : {A : Type ℓ} (xs : List A) → take (length xs) xs ≡ xs
take_all [] = refl
take_all (x ∷ xs) = ap (◌∷◌ x) (take_all xs)

valid_len-small : (n : ℕ) → n ≤ 65536 → valid_len (int32 n) ≡ some n
valid_len-small n h = ground arith

valid_len-large : (n : ℕ) → 65536 < n → n < 2 ^ 32 → valid_len (int32 n) ≡ none
valid_len-large n h k = ground arith

or_false : (b : Bool) → (b || false) ≡ b
or_false true = refl
or_false false = refl

or_true : (b : Bool) → (b || true) ≡ true
or_true true = refl
or_true false = refl

module _ (net : Net) where
  open net use {
    Buffer, empty as empty_buffer, peek, append, prepend, peek-append, peek-empty, peek-prepend,
    prependable-empty, prependable-append, host_to_network32, network_to_host32,
    host_to_network32-lt, network_to_host32-host_to_network32,
  }

  -- What SendMsg puts on the wire for a whole message.
  abbrev pub wire : List ℕ → List ℕ
  wire msg = store32 (host_to_network32 (length msg % 2 ^ 32)) ++ msg

  -- The buffer that SendMsg builds holds the length in network order and then the message.
  peek-send_msg : (msg : List ℕ) → peek (send_msg net msg (length msg)) ≡ wire msg
  unfolding send_msg
  peek-send_msg msg =
      peek-prepend _ _
        (omega (arith, prependable-append empty_buffer (take (length msg) msg) prependable-empty))
      ∙ ap (◌++◌ (store32 (host_to_network32 (length msg % 2 ^ 32))))
          (peek-append empty_buffer _ ∙ rw (peek-empty, take_all msg))

  frame_len-wire :
      (msg rest : List ℕ)
      → length msg < 2 ^ 32
      → frame_len net (wire msg ++ rest) ≡ valid_len (int32 (length msg))
  unfolding frame_len
  frame_len-wire msg rest h =
      let w : length msg % 2 ^ 32 ≡ length msg = omega arith in
      rw (
        w,
        load32-store32 (host_to_network32 (length msg)) (msg ++ rest) (host_to_network32-lt _ h),
        network_to_host32-host_to_network32 (length msg) h,
      )

  -- A message of at most 65536 bytes on the wire is one message of the stream.
  wire-Frames :
      (msg : List ℕ) {xs : List ℕ} {ps : List (List ℕ)} {rest : List ℕ} {b : Bool}
      → length msg ≤ 65536
      → Frames net xs ps rest b
      → Frames net (wire msg ++ xs) (msg ∷ ps) rest b
  wire-Frames msg {xs} {ps} {rest} {b} h f =
      let len : frame_len net (wire msg ++ xs) ≡ some (length msg) =
        frame_len-wire msg xs (omega arith) ∙ valid_len-small (length msg) h in
      let left : drop (length msg) (msg ++ xs) ≡ xs = drop-append_exact (length msg) msg xs refl in
      let body : take (length msg) (msg ++ xs) ≡ msg = take-append_exact (length msg) msg xs refl in
      let more : Frames net (drop (length msg) (msg ++ xs)) ps rest b = rw left f in
      let whole : Frames net (wire msg ++ xs) (take (length msg) (msg ++ xs) ∷ ps) rest b =
        Frames.next (length msg) len (omega (arith, length-append msg xs)) more in
      rw body at whole

  wires-Frames :
      (msgs : List (List ℕ)) {xs : List ℕ} {ps : List (List ℕ)} {rest : List ℕ} {b : Bool}
      → All (λ m. length m ≤ 65536) msgs
      → Frames net xs ps rest b
      → Frames net (concat (map wire msgs) ++ xs) (msgs ++ ps) rest b
  wires-Frames [] h f = f
  wires-Frames (m ∷ ms) {xs} h f =
      rw (append_assoc (wire m) (concat (map wire ms)) xs)
        (wire-Frames m h.0 (wires-Frames ms h.1 f))

  -- A message that is longer is refused by the other side, though SendMsg sends it.
  wire-bad :
      (msg xs : List ℕ)
      → 65536 < length msg
      → length msg < 2 ^ 32
      → Frames net (wire msg ++ xs) [] (wire msg ++ xs) true
  wire-bad msg xs h k =
      Frames.bad (omega (arith, length-append msg xs))
        (frame_len-wire msg xs k ∙ valid_len-large (length msg) h k)

module _ (net : Net) {S : Type 0} where
  open net use {peek}

  -- What a call that ends has made of messages that were sent.
  pub received_sent :
      (d : ℕ) (s t : Session net S) (msgs : List (List ℕ)) (tail : List ℕ)
      → All (λ m. length m ≤ 65536) msgs
      → Frames net tail [] tail false
      → peek s.buf ≡ concat (map (λ m. peek (send_msg net m (length m))) msgs) ++ tail
      → on_message net (of_dnid d) s ≡ done t
      → (t.dispatcher.msg_queue ≡ s.dispatcher.msg_queue ++ map (packet d) msgs)
        × (peek t.buf ≡ tail)
        × (t.shut ≡ s.shut)
  received_sent d s t msgs tail h f e run =
      let r = on_message-Read net d s t run in
      let sent : map (λ (m : List ℕ). peek (send_msg net m (length m))) msgs ≡ map (wire net) msgs =
        rw (fun_ext (peek-send_msg net)) in
      let g : Frames net (peek s.buf) (msgs ++ []) tail false =
        rw (e, sent) (wires-Frames net msgs h f) in
      let same = Frames-unique net r.frames g in
      (
        r.received.queued
            ∙ ap (λ ms. s.dispatcher.msg_queue ++ map (packet d) ms)
                (same.messages ∙ append-nil msgs),
        r.received.left ∙ same.left_over,
        r.received.shut ∙ ap (◌||◌ s.shut) same.verdict ∙ or_false s.shut,
      )

  -- The bytes of any messages that SendMsg sent, each of at most 65536 bytes, with the start of
  -- another frame behind them: onMessage returns, queues a packet with each message, in order, keeps
  -- the unfinished frame in the buffer, and leaves the connection as open as it was.
  pub on_message-send_msg :
      (d : ℕ) (s : Session net S) (msgs : List (List ℕ)) (tail : List ℕ)
      → All (λ m. length m ≤ 65536) msgs
      → Frames net tail [] tail false
      → peek s.buf ≡ concat (map (λ m. peek (send_msg net m (length m))) msgs) ++ tail
      → (t : Session net S) × (on_message net (of_dnid d) s ≡ done t)
        × (t.dispatcher.msg_queue ≡ s.dispatcher.msg_queue ++ map (packet d) msgs)
        × (peek t.buf ≡ tail)
        × (t.shut ≡ s.shut)
  on_message-send_msg d s msgs tail h f e =
      let r = on_message-Reads net d s in
      let (queued, left, shut) = received_sent d s r.session msgs tail h f e r.returns in
      (r.session, r.returns, queued, left, shut)

  -- What a call that ends has made of a message that is too long.
  refused_sent :
      (d : ℕ) (s t : Session net S) (msg more : List ℕ)
      → 65536 < length msg
      → length msg < 2 ^ 32
      → peek s.buf ≡ peek (send_msg net msg (length msg)) ++ more
      → on_message net (of_dnid d) s ≡ done t
      → (t.dispatcher.msg_queue ≡ s.dispatcher.msg_queue)
        × (peek t.buf ≡ peek s.buf)
        × (t.shut ≡ true)
  refused_sent d s t msg more h k e run =
      let r = on_message-Read net d s t run in
      let sent : peek s.buf ≡ wire net msg ++ more =
        e ∙ ap (λ l. l ++ more) (peek-send_msg net msg) in
      let g : Frames net (peek s.buf) [] (wire net msg ++ more) true =
        rw sent (wire-bad net msg more h k) in
      let same = Frames-unique net r.frames g in
      (
        r.received.queued
            ∙ ap (λ ms. s.dispatcher.msg_queue ++ map (packet d) ms) same.messages
            ∙ append-nil s.dispatcher.msg_queue,
        r.received.left ∙ same.left_over ∙ sym sent,
        r.received.shut ∙ ap (◌||◌ s.shut) same.verdict ∙ or_true s.shut,
      )

  -- A message of more than 65536 bytes, which SendMsg sends all the same, whatever is behind it:
  -- onMessage returns, takes nothing off the buffer, queues nothing and shuts the connection down.
  pub on_message-send_msg_long :
      (d : ℕ) (s : Session net S) (msg more : List ℕ)
      → 65536 < length msg
      → length msg < 2 ^ 32
      → peek s.buf ≡ peek (send_msg net msg (length msg)) ++ more
      → (t : Session net S) × (on_message net (of_dnid d) s ≡ done t)
        × (t.dispatcher.msg_queue ≡ s.dispatcher.msg_queue)
        × (peek t.buf ≡ peek s.buf)
        × (t.shut ≡ true)
  on_message-send_msg_long d s msg more h k e =
      let r = on_message-Reads net d s in
      let (queued, left, shut) = refused_sent d s r.session msg more h k e r.returns in
      (r.session, r.returns, queued, left, shut)
