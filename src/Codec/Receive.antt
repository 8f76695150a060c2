-- ===== src/Codec/Receive.antt =====
-- onMessage reads the stream: whatever the buffer, one call takes off all complete messages, queues
-- a packet for each, in order, and keeps the rest.
use pets_server_linux.Common.{
  ℕ, zero, suc, ◌+◌, ◌≤◌, ◌<◌, ◌≡◌, refl, sym, ap, ◌∙◌, Bool, true, false, ◌||◌, Option, none, some,
  List, [], ◌∷◌, ◌++◌, map, append_assoc, append-nil, arith, leb, Bool-cases, inl, inr, Outcome,
  done, length, length-drop, take, drop, leb→le, leb_false→lt,
}
use pets_server_linux.Muduo.{Net}
use pets_server_linux.Dispatcher.{SPacket, push_pack}
use pets_server_linux.Codec.{
  of_dnid, Session, make_pack, frame_len, receive, handle_frame, on_message_loop, on_message,
}
use pets_server_linux.Codec.Frames.{Frames}

-- The packet of a connection that has no pet yet.
abbrev pub packet : ℕ → List ℕ → SPacket
packet d msg = record { dnid = d; buffer = some msg; context = none }

or_false : (b : Bool) → b ≡ (b || false)
or_false true = refl
or_false false = refl

or_true : (b : Bool) → true ≡ (b || true)
or_true true = refl
or_true false = refl

module _ (net : Net) {S : Type 0} where
  open net use {readable_bytes, readable_bytes_lem, peek, retrieve, peek-retrieve}

  -- `t` is `s` after the messages `ps`: their packets queued, `rest` left in the buffer.
  pub record Received (d : ℕ) (s t : Session net S) (ps : List (List ℕ)) (rest : List ℕ) (b : Bool)
      : Type 0 where
    pub left : peek t.buf ≡ rest
    pub queued : t.dispatcher.msg_queue ≡ s.dispatcher.msg_queue ++ map (packet d) ps
    pub kept : t.dispatcher.call_back_map ≡ s.dispatcher.call_back_map
    pub shut : t.shut ≡ (s.shut || b)

  -- The outcome of a call: it returns, and has read the stream that stood in the buffer.
  pub record Reads (d : ℕ) (s : Session net S) (o : Outcome (Session net S)) : Type 0 where
    pub session : Session net S
    pub returns : o ≡ done session
    pub messages : List (List ℕ)
    pub rest : List ℕ
    pub verdict : Bool
    pub frames : Frames net (peek s.buf) messages rest verdict
    pub received : Received d s session messages rest verdict

  -- Nothing is taken off, and the call ends.
  stays :
      (d : ℕ) (s : Session net S) (o : Outcome (Session net S))
      → o ≡ done s
      → Frames net (peek s.buf) [] (peek s.buf) false
      → Reads d s o
  stays d s o e f = record {
    session = s;
    returns = e;
    messages = [];
    rest = peek s.buf;
    verdict = false;
    frames = f;
    received = record {
      left = refl;
      queued = sym (append-nil _);
      kept = refl;
      shut = or_false s.shut;
    };
  }

  shuts :
      (d : ℕ) (s : Session net S) (o : Outcome (Session net S))
      → o ≡ done (record s { shut = true })
      → Frames net (peek s.buf) [] (peek s.buf) true
      → Reads d s o
  shuts d s o e f = record {
    session = record s { shut = true };
    returns = e;
    messages = [];
    rest = peek s.buf;
    verdict = true;
    frames = f;
    received = record {
      left = refl;
      queued = sym (append-nil _);
      kept = refl;
      shut = or_true s.shut;
    };
  }

  -- The session after one complete message of `n` bytes.
  abbrev pub advance : ℕ → Session net S → ℕ → Session net S
  advance d s n = record s {
    buf = retrieve (retrieve s.buf 4) n;
    dispatcher = push_pack s.dispatcher (packet d (take n (drop 4 (peek s.buf))));
  }

  pub peek-advance :
      (d : ℕ) (s : Session net S) (n : ℕ)
      → n + 4 ≤ length (peek s.buf)
      → peek (advance d s n).buf ≡ drop n (drop 4 (peek s.buf))
  peek-advance d s n h =
      let four : peek (retrieve s.buf 4) ≡ drop 4 (peek s.buf) =
        peek-retrieve s.buf 4 (omega (arith, readable_bytes_lem s.buf)) in
      peek-retrieve (retrieve s.buf 4) n
        (rw (readable_bytes_lem, four) (omega (arith, length-drop 4 (peek s.buf))))
      ∙ ap (drop n) four

  pub receive-advance :
      (d : ℕ) (s : Session net S) (n : ℕ)
      → n + 4 ≤ length (peek s.buf)
      → receive net (of_dnid d) s n ≡ done (advance d s n)
  unfolding receive make_pack
  receive-advance d s n h =
      let four : peek (retrieve s.buf 4) ≡ drop 4 (peek s.buf) =
        peek-retrieve s.buf 4 (omega (arith, readable_bytes_lem s.buf)) in
      rw four

  frame :
      (d : ℕ) (s : Session net S) (o : Outcome (Session net S)) (n : ℕ)
      → frame_len net (peek s.buf) ≡ some n
      → n + 4 ≤ length (peek s.buf)
      → Reads d (advance d s n) o
      → Reads d s o
  unfolding push_pack
  frame d s o n e h r = record {
    session = r.session;
    returns = r.returns;
    messages = take n (drop 4 (peek s.buf)) ∷ r.messages;
    rest = r.rest;
    verdict = r.verdict;
    frames = Frames.next n e h (rw (peek-advance d s n h) at r.frames);
    received = record {
      left = r.received.left;
      queued =
          r.received.queued ∙ append_assoc s.dispatcher.msg_queue _ (map (packet d) r.messages);
      kept = r.received.kept;
      shut = r.received.shut;
    };
  }

  -- One round of the loop, for any rest of it that reads what is left.
  handle_frame-Reads :
      (next : Session net S → Outcome (Session net S)) (d : ℕ) (s : Session net S) (len : Option ℕ)
      → 4 ≤ length (peek s.buf)
      → frame_len net (peek s.buf) ≡ len
      → ((n : ℕ) → n + 4 ≤ length (peek s.buf) → Reads d (advance d s n) (next (advance d s n)))
      → Reads d s (handle_frame net next (of_dnid d) s len)
  unfolding handle_frame
  handle_frame-Reads next d s none h e k = shuts d s _ refl (Frames.bad h e)
  handle_frame-Reads next d s (some n) h e k =
      elim (Bool-cases (leb (n + 4) (readable_bytes s.buf))) [
        | inl whole ↦
            let l : n + 4 ≤ length (peek s.buf) =
              omega (arith, leb→le _ _ whole, readable_bytes_lem s.buf) in
            rw (whole, receive-advance d s n l) (frame d s _ n e l (k n l))
        | inr cut ↦ rw cut (
            stays d s _ refl (
              Frames.partial n h e (omega (arith, leb_false→lt _ _ cut, readable_bytes_lem s.buf))))
      ]

  on_message_loop-Reads :
      (fuel d : ℕ) (s : Session net S)
      → length (peek s.buf) < fuel
      → Reads d s (on_message_loop net fuel (of_dnid d) s)
  unfolding on_message_loop
  on_message_loop-Reads zero d s h = absurd (omega arith)
  on_message_loop-Reads (suc fuel) d s h = elim (Bool-cases (leb 4 (readable_bytes s.buf))) [
    | inl long ↦
        let l : 4 ≤ length (peek s.buf) =
          omega (arith, leb→le _ _ long, readable_bytes_lem s.buf) in
        rw (long, on_message_loop)
          (handle_frame-Reads (on_message_loop net fuel (of_dnid d)) d s _ l refl (λ n hn.
            on_message_loop-Reads fuel d (advance d s n) (
              rw (peek-advance d s n hn)
                (omega (arith, length-drop n (drop 4 (peek s.buf)), length-drop 4 (peek s.buf))))))
    | inr few ↦
        rw (few, on_message_loop)
          (stays d s _ refl
            (Frames.short (omega (arith, leb_false→lt _ _ few, readable_bytes_lem s.buf))))
  ]

  -- onMessage on a connection whose context is a number, for every buffer: it returns; it takes off
  -- the buffer exactly the complete messages in front of the first bad length, queues one packet
  -- for each, in order, behind what was queued, keeps the other bytes, and shuts the connection
  -- down exactly if it met a bad length (or it was shut down before).
  pub on_message-Reads : (d : ℕ) (s : Session net S) → Reads d s (on_message net (of_dnid d) s)
  unfolding on_message
  on_message-Reads d s =
      on_message_loop-Reads (suc (readable_bytes s.buf)) d s
        (omega (arith, readable_bytes_lem s.buf))
