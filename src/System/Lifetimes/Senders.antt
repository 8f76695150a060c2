-- ===== src/System/Lifetimes/Senders.antt =====
-- What the threads do to the streams of the connections while these come and go.
use pets_server_linux.Common.{
  ℕ, ◌+◌, ◌≤◌, ◌≡◌, ◌≢◌, ◌⊎◌, inl, inr, refl, sym, ap, ◌∙◌, subst, Bool, true, false, Bool-cases,
  some, List, [], ◌∷◌, ◌++◌, append_assoc, append-nil, arith, leb, leb→le, ◌==◌, if◌then◌else◌,
  done, length, take, drop, done-injective,
}
use pets_server_linux.Common.Maps
use pets_server_linux.Common.Maps.{at}
use pets_server_linux.Muduo.{Net}
use pets_server_linux.Dispatcher.{SPacket, Dispatcher, get_pack, push_pack}
use pets_server_linux.Codec.{of_dnid, Session, head_msg_len, frame_len, receive}
use pets_server_linux.Codec.Frames
use pets_server_linux.Codec.Prefixes.{Taken, nothing, Taken-append, Taken-next, Taken-Frames}
use pets_server_linux.Codec.Receive.{advance, peek-advance, receive-advance, packet}
use pets_server_linux.Object.Handlers.{Log}
use pets_server_linux.Server.{bind_callbacks, context_of}
use pets_server_linux.Server.Races.{Inv, Step-Inv, Step-context, idle-Inv, opened}
use pets_server_linux.System.{messages_of}
use pets_server_linux.System.Streams.{get_pack-some, ==_eq}
use pets_server_linux.System.Lifetimes.{
  Life, Step, connects, arrives, reads, shuts, handles, drops, Reach, here, next, sent_by, started,
  session_at, all_packets,
}
use pets_server_linux.System.Lifetimes.Sent.{
  Sent, no_packets, Sent-append, Sent-contexts, sent_by-append, sent_by-messages_of,
}

module _ (net : Net) where
  open net use {peek, append, readable_bytes, peek-append, peek-empty, readable_bytes_lem}

  -- Every connection's bytes are the messages that it has pushed and then its buffer, and every packet
  -- has its connection's number.
  record Whole (l : Life net) : Type 0 where
    inv : Inv l.race
    streams :
        (c : ℕ)
        → Taken net (l.received c) (sent_by c l.senders (all_packets net l)) (peek (l.buffers c))
    sent : Sent l.race.server.contexts l.senders (all_packets net l)

  arrives-Whole :
      (l : Life net) (c : ℕ) (bytes : List ℕ)
      → Whole l
      → Whole (record l {
        buffers = at c (append (l.buffers c) bytes) l.buffers;
        received = at c (l.received c ++ bytes) l.received;
      })
  arrives-Whole l c bytes v = record {
    inv = v.inv;
    streams = λ j. go j (Bool-cases (c == j));
    sent = v.sent;
  }
    where
      go :
          (j : ℕ)
          → (((c == j) ≡ true) ⊎ ((c == j) ≡ false))
          → Taken net
              (at c (l.received c ++ bytes) l.received j)
              (sent_by j l.senders (all_packets net l))
              (peek (at c (append (l.buffers c) bytes) l.buffers j))
      go j (inl same) =
          rw (same, peek-append (l.buffers c) bytes)
            (subst
              (λ k.
                Taken net (l.received c ++ bytes) (sent_by k l.senders (all_packets net l))
                  (peek (l.buffers c) ++ bytes))
              (==_eq c j same) (Taken-append net bytes (v.streams c)))
      go j (inr other) = rw other (v.streams j)

  -- The state when a message of `n` bytes was taken off the buffer of a connection.
  abbrev took : Life net → ℕ → Session net Log → Life net
  took l c s = record l {
    buffers = at c s.buf l.buffers;
    dispatcher = s.dispatcher;
    senders = l.senders ++ c ∷ [];
  }

  advance-Whole :
      (l : Life net) (c k n : ℕ)
      → Whole l
      → l.race.phase c ≡ opened k
      → frame_len net (peek (l.buffers c)) ≡ some n
      → n + 4 ≤ length (peek (l.buffers c))
      → Whole (took l c (advance net k (session_at net l c) n))
  unfolding push_pack
  advance-Whole l c k n v open_now e fits = record {
    inv = v.inv;
    streams = λ j. go j (Bool-cases (c == j));
    sent =
        subst (Sent l.race.server.contexts (l.senders ++ c ∷ [])) regroup
          (Sent-append c (packet k msg) v.sent (v.inv.opened_context c k open_now));
  }
    where
      msg : List ℕ
      msg = take n (drop 4 (peek (l.buffers c)))

      regroup :
          all_packets net l ++ packet k msg ∷ []
          ≡ l.handled ++ (l.dispatcher.msg_queue ++ packet k msg ∷ [])
      regroup = append_assoc l.handled l.dispatcher.msg_queue (packet k msg ∷ [])

      one_more :
          (j : ℕ)
          → sent_by j
              (l.senders ++ c ∷ [])
              (l.handled ++ (l.dispatcher.msg_queue ++ packet k msg ∷ []))
            ≡ sent_by j l.senders (all_packets net l) ++ (if c == j then msg ∷ [] else [])
      one_more j =
          ap (sent_by j (l.senders ++ c ∷ [])) (sym regroup) ∙ sent_by-append c j k msg v.sent

      go :
          (j : ℕ)
          → (((c == j) ≡ true) ⊎ ((c == j) ≡ false))
          → Taken net
              (l.received j)
              (sent_by j
                (l.senders ++ c ∷ [])
                (l.handled ++ (l.dispatcher.msg_queue ++ packet k msg ∷ [])))
              (peek (at c (advance net k (session_at net l c) n).buf l.buffers j))
      go j (inl same) =
          rw (one_more j, same, peek-advance net k (session_at net l c) n fits)
            (subst
              (λ i.
                Taken net (l.received i) (sent_by i l.senders (all_packets net l) ++ msg ∷ [])
                  (drop n (drop 4 (peek (l.buffers c)))))
              (==_eq c j same) (Taken-next net n (v.streams c) e fits))
      go j (inr other) =
          rw (one_more j, other, append-nil (sent_by j l.senders (all_packets net l))) (v.streams j)

  reads-Whole :
      (l : Life net) (c k n : ℕ) (s : Session net Log)
      → Whole l
      → l.race.phase c ≡ opened k
      → frame_len net (peek (l.buffers c)) ≡ some n
      → leb (n + head_msg_len) (readable_bytes (l.buffers c)) ≡ true
      → receive net (context_of c l.race.server.contexts) (session_at net l c) n ≡ done s
      → Whole (took l c s)
  reads-Whole l c k n s v open_now e fits r =
      let long : n + 4 ≤ length (peek (l.buffers c)) =
        omega (arith, leb→le _ _ fits, readable_bytes_lem (l.buffers c)) in
      let context : context_of c l.race.server.contexts ≡ of_dnid k =
        rw (v.inv.opened_context c k open_now, context_of) refl in
      subst (λ t. Whole (took l c t))
        (done-injective (
          sym (receive-advance net k (session_at net l c) n long)
          ∙ ap (λ x. receive net x (session_at net l c) n) (sym context)
          ∙ r))
        (advance-Whole l c k n v open_now e long)

  -- A packet that leaves the queue is still one of those that were pushed.
  taken_off :
      (l : Life net) (pack : SPacket) (disp : Dispatcher Log)
      → get_pack l.dispatcher ≡ some (pack, disp)
      → all_packets net l ≡ (l.handled ++ pack ∷ []) ++ disp.msg_queue
  taken_off l pack disp got =
      ap (λ q. l.handled ++ q) (get_pack-some l.dispatcher disp pack got).0
      ∙ sym (append_assoc l.handled (pack ∷ []) disp.msg_queue)

  handled-Whole :
      (l : Life net) (pack : SPacket) (disp disp' : Dispatcher Log) (log : Log)
      → Whole l
      → get_pack l.dispatcher ≡ some (pack, disp)
      → disp'.msg_queue ≡ disp.msg_queue
      → Whole (record l { dispatcher = disp'; log = log; handled = l.handled ++ pack ∷ [] })
  handled-Whole l pack disp disp' log v got queue =
      let same = taken_off l pack disp got ∙ ap (λ q. (l.handled ++ pack ∷ []) ++ q) (sym queue) in
      record {
        inv = v.inv;
        streams = λ c.
            subst (λ q. Taken net (l.received c) (sent_by c l.senders q) (peek (l.buffers c))) same
              (v.streams c);
        sent = subst (Sent l.race.server.contexts l.senders) same v.sent;
      }

  Step-Whole : {l m : Life net} → Step net l m → Whole l → Whole m
  Step-Whole {l} (connects st) v = record {
    inv = Step-Inv st v.inv;
    streams = v.streams;
    sent = Sent-contexts (λ c k. Step-context c k st v.inv) v.sent;
  }
  Step-Whole {l} (arrives c k bytes open_now) v = arrives-Whole l c bytes v
  Step-Whole {l} (reads c k n s open_now e fits r) v = reads-Whole l c k n s v open_now e fits r
  Step-Whole {l} (shuts c k open_now long e) v = record {
    inv = v.inv;
    streams = v.streams;
    sent = v.sent;
  }
  Step-Whole {l} (handles pack disp msg m log got buf dv) v =
      handled-Whole l pack disp (record disp { call_back_map = m }) log v got refl
  Step-Whole {l} (drops pack disp got buf) v = handled-Whole l pack disp disp l.log v got refl

  started-Whole : (log : Log) → Whole (started net log)
  unfolding sent_by bind_callbacks
  started-Whole log = record {
    inv = idle-Inv;
    streams = λ c. subst (Taken net [] []) (sym peek-empty) nothing;
    sent = no_packets;
  }

  Reach-Whole : (log : Log) {l : Life net} → Reach net (started net log) l → Whole l
  Reach-Whole log here = started-Whole log
  Reach-Whole log (next r st) = Step-Whole st (Reach-Whole log r)

  -- In every state that the threads reach, whatever the order of their steps, while connections come
  -- and go: if a connection has a number that no other connection has had, then the messages with
  -- that number, handled or queued, and then those still in the connection's buffer are the messages
  -- of all the bytes that came on it, in order, also when it has long gone down.
  pub Reach-messages_of :
      (log : Log) (l : Life net) (c k : ℕ) (qs : List (List ℕ)) (rest : List ℕ) (b : Bool)
      → Reach net (started net log) l
      → Maps.find c l.race.server.contexts ≡ some (of_dnid k)
      → ((j : ℕ) → j ≢ c → Maps.find j l.race.server.contexts ≢ some (of_dnid k))
      → Frames.Frames net (peek (l.buffers c)) qs rest b
      → Frames.Frames net
          (l.received c)
          (messages_of k (l.handled ++ l.dispatcher.msg_queue) ++ qs)
          rest
          b
  Reach-messages_of log l c k qs rest b r number only f =
      let v = Reach-Whole log r in
      subst (λ ms. Frames.Frames net (l.received c) (ms ++ qs) rest b)
        (sent_by-messages_of c k v.sent number only) (Taken-Frames net (v.streams c) f)
