-- ===== src/System/Lifetimes.antt =====
-- The network threads and the game thread while connections come and go (PetsServer.cpp, codec.cpp,
-- Dispatcher.cpp): a buffer belongs to a TCP connection, whose context gives the number of its
-- packets, and the packets outlive the connection.
pub mod Sent
pub mod Senders
use pets_server_linux.Common.{
  ℕ, ◌+◌, ◌≡◌, Bool, true, false, none, some, List, [], ◌∷◌, ◌++◌, leb, ◌==◌, if◌then◌else◌, done,
}
use pets_server_linux.Common.Maps
use pets_server_linux.Common.Maps.{at}
use pets_server_linux.Muduo.{Net}
use pets_server_linux.Dispatcher.{SPacket, Dispatcher, CallBackMap, get_pack, deliver}
use pets_server_linux.Codec.{Session, head_msg_len, frame_len, receive}
use pets_server_linux.Object.Handlers.{Log}
use pets_server_linux.Server.{bind_callbacks, context_of}
use pets_server_linux.Server.Races
use pets_server_linux.Server.Races.{Race, idle, opened}
use pets_server_linux.Server.Routing.{fresh}

-- The connections, their buffers, the dispatcher and what the handlers wrote; and, as a history, the
-- bytes that came on each connection, the packets that were handled, and the connection of each
-- packet that was ever pushed.
pub record Life (net : Net) : Type 0 where
  pub race : Race
  pub buffers : ℕ → net.Buffer
  pub shut : ℕ → Bool
  pub dispatcher : Dispatcher Log
  pub log : Log
  pub received : ℕ → List ℕ
  pub handled : List SPacket
  pub senders : List ℕ

-- The messages of the packets that a connection has pushed.
pub sent_by : ℕ → List ℕ → List SPacket → List (List ℕ)
sent_by c [] ps = []
sent_by c (s ∷ ss) [] = []
sent_by c (s ∷ ss) (p ∷ ps) =
    let others = sent_by c ss ps in
    elim p.buffer [ none ↦ others | some msg ↦ if s == c then msg ∷ others else others ]

module _ (net : Net) where
  open net use {empty as empty_buffer, peek, append, readable_bytes}

  abbrev pub started : Log → Life net
  started log = record {
    race = idle;
    buffers = λ c. empty_buffer;
    shut = λ c. false;
    dispatcher = bind_callbacks fresh;
    log = log;
    received = λ c. [];
    handled = [];
    senders = [];
  }

  -- What onMessage works on for a connection.
  abbrev pub session_at : Life net → ℕ → Session net Log
  session_at l c = record { buf = l.buffers c; shut = l.shut c; dispatcher = l.dispatcher }

  -- A connection comes or goes, or is between; bytes come on an open connection; a round of
  -- onMessage's loop takes off a message or shuts the connection down; a round of DispatchMsg's loop
  -- handles a packet, or drops one that has no buffer.
  pub data Step (l : Life net) : Life net → Type 0 where
    connects : {r : Race} → Races.Step l.race r → Step l (record l { race = r })
    arrives :
        (c k : ℕ) (bytes : List ℕ)
        → l.race.phase c ≡ opened k
        → Step l (record l {
          buffers = at c (append (l.buffers c) bytes) l.buffers;
          received = at c (l.received c ++ bytes) l.received;
        })
    reads :
        (c k n : ℕ) (s : Session net Log)
        → l.race.phase c ≡ opened k
        → frame_len net (peek (l.buffers c)) ≡ some n
        → leb (n + head_msg_len) (readable_bytes (l.buffers c)) ≡ true
        → receive net (context_of c l.race.server.contexts) (session_at l c) n ≡ done s
        → Step l (record l {
          buffers = at c s.buf l.buffers;
          dispatcher = s.dispatcher;
          senders = l.senders ++ c ∷ [];
        })
    shuts :
        (c k : ℕ)
        → l.race.phase c ≡ opened k
        → leb head_msg_len (readable_bytes (l.buffers c)) ≡ true
        → frame_len net (peek (l.buffers c)) ≡ none
        → Step l (record l { shut = at c true l.shut })
    handles :
        (pack : SPacket) (disp : Dispatcher Log) (msg : List ℕ) (m : CallBackMap Log) (log : Log)
        → get_pack l.dispatcher ≡ some (pack, disp)
        → pack.buffer ≡ some msg
        → deliver pack msg disp.call_back_map l.log ≡ done (m, log)
        → Step l (record l {
          dispatcher = record disp { call_back_map = m };
          log = log;
          handled = l.handled ++ pack ∷ [];
        })
    drops :
        (pack : SPacket) (disp : Dispatcher Log)
        → get_pack l.dispatcher ≡ some (pack, disp)
        → pack.buffer ≡ none
        → Step l (record l { dispatcher = disp; handled = l.handled ++ pack ∷ [] })

  pub data Reach (a : Life net) : Life net → Type 0 where
    here : Reach a a
    next : {l m : Life net} → Reach a l → Step l m → Reach a m

  -- The packets that were ever pushed: handled, or still queued.
  abbrev pub all_packets : Life net → List SPacket
  all_packets l = l.handled ++ l.dispatcher.msg_queue
