-- ===== src/System.antt =====
-- The network threads and the game thread together: the connections' buffers of codec.cpp, the queue
-- of Dispatcher.cpp between them, and the callbacks, one step of one thread after the other. A step
-- takes the queue's lock at most once, so that the steps can follow each other in any order.
pub mod Streams
pub mod Reads
pub mod Runs
pub mod Lifetimes
pub mod Progress
pub mod Confluence
use pets_server_linux.Common.{
  ℕ, zero, suc, ◌+◌, ◌≤◌, ◌<◌, ◌≡◌, ◌≢◌, ◌⊎◌, inl, inr, refl, sym, ap, ◌∙◌, subst, Bool, true,
  false, Bool-cases, Option, none, some, List, [], ◌∷◌, ◌++◌, append_assoc, append-nil, arith, leb,
  leb→le, ◌==◌, if◌then◌else◌, Outcome, done, ◌>>=◌, length, take, drop, done-injective,
}
use pets_server_linux.Common.Maps.{at}
use pets_server_linux.Muduo.{Net}
use pets_server_linux.Dispatcher.{SPacket, Dispatcher, CallBackMap, get_pack, deliver, push_pack}
use pets_server_linux.Dispatcher.Order.{handle_all, handle_all-append, go_on}
use pets_server_linux.Codec.{of_dnid, Session, head_msg_len, frame_len, receive}
use pets_server_linux.Codec.Frames
use pets_server_linux.Codec.Prefixes.{Taken, nothing, Taken-append, Taken-next, Taken-Frames}
use pets_server_linux.Codec.Receive.{advance, peek-advance, receive-advance, packet}
use pets_server_linux.Object.Handlers.{Log}
use pets_server_linux.Server.{bind_callbacks}
use pets_server_linux.Server.Routing.{fresh}

-- The messages of a connection among some packets.
pub messages_of : ℕ → List SPacket → List (List ℕ)
messages_of d [] = []
messages_of d (p ∷ ps) =
    let others = messages_of d ps in
    elim p.buffer [ none ↦ others | some msg ↦ if p.dnid == d then msg ∷ others else others ]

-- The buffers of the connections, each by its number, the dispatcher, what the handlers wrote; and,
-- as a history, the bytes that came on each connection and the packets that were handled.
pub record World (net : Net) : Type 0 where
  pub buffers : ℕ → net.Buffer
  pub shut : ℕ → Bool
  pub dispatcher : Dispatcher Log
  pub log : Log
  pub received : ℕ → List ℕ
  pub handled : List SPacket

module _ (net : Net) where
  open net use {
    empty as empty_buffer, peek, append, readable_bytes, peek-append, peek-empty,
    readable_bytes_lem,
  }

  -- The server when it starts, with what was logged before.
  abbrev pub started : Log → World net
  started log = record {
    buffers = λ d. empty_buffer;
    shut = λ d. false;
    dispatcher = bind_callbacks fresh;
    log = log;
    received = λ d. [];
    handled = [];
  }

  -- What onMessage works on for a connection.
  abbrev pub session_of : World net → ℕ → Session net Log
  session_of w d = record { buf = w.buffers d; shut = w.shut d; dispatcher = w.dispatcher }

  -- Bytes come on a connection; a round of onMessage's loop takes off a message or shuts the
  -- connection down; a round of DispatchMsg's loop handles a packet, or drops one that has no buffer.
  pub data Step (w : World net) : World net → Type 0 where
    arrives :
        (d : ℕ) (bytes : List ℕ)
        → Step w (record w {
          buffers = at d (append (w.buffers d) bytes) w.buffers;
          received = at d (w.received d ++ bytes) w.received;
        })
    reads :
        (d n : ℕ) (s : Session net Log)
        → frame_len net (peek (w.buffers d)) ≡ some n
        → leb (n + head_msg_len) (readable_bytes (w.buffers d)) ≡ true
        → receive net (of_dnid d) (session_of w d) n ≡ done s
        → Step w (record w { buffers = at d s.buf w.buffers; dispatcher = s.dispatcher })
    shuts :
        (d : ℕ)
        → leb head_msg_len (readable_bytes (w.buffers d)) ≡ true
        → frame_len net (peek (w.buffers d)) ≡ none
        → Step w (record w { shut = at d true w.shut })
    handles :
        (pack : SPacket) (disp : Dispatcher Log) (msg : List ℕ) (m : CallBackMap Log) (log : Log)
        → get_pack w.dispatcher ≡ some (pack, disp)
        → pack.buffer ≡ some msg
        → deliver pack msg disp.call_back_map w.log ≡ done (m, log)
        → Step w (record w {
          dispatcher = record disp { call_back_map = m };
          log = log;
          handled = w.handled ++ pack ∷ [];
        })
    drops :
        (pack : SPacket) (disp : Dispatcher Log)
        → get_pack w.dispatcher ≡ some (pack, disp)
        → pack.buffer ≡ none
        → Step w (record w { dispatcher = disp; handled = w.handled ++ pack ∷ [] })

  pub data Reach (s : World net) : World net → Type 0 where
    here : Reach s s
    next : {t u : World net} → Reach s t → Step t u → Reach s u

  -- The messages of a connection that were taken off its stream, handled or still queued.
  abbrev pub delivered : World net → ℕ → List (List ℕ)
  delivered w d = messages_of d (w.handled ++ w.dispatcher.msg_queue)
