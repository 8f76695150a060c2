-- ===== src/Tests/Lifetimes.antt =====
-- A connection that opens, sends a message and goes down, and runs of the threads from their start.
use pets_server_linux.Common.{
  All, replicate, zero, suc, ℕ, ◌≡◌, ◌≢◌, ◌⊎◌, refl, false, some, List, [], ◌∷◌, ◌++◌, done, fail,
  Fault, Bool, arith, ◌+◌, ◌^◌,
}
use pets_server_linux.Common.Maps
use pets_server_linux.Common.Maps.{at}
use pets_server_linux.Muduo.{listed}
use pets_server_linux.Dispatcher.Order.{handle_all}
use pets_server_linux.Codec.{of_dnid, Session, on_message, receive, make_pack, frame_len}
use pets_server_linux.Codec.Frames
use pets_server_linux.Codec.Receive.{packet}
use pets_server_linux.Object.Handlers.{Log}
use pets_server_linux.Server.{Draw, greate_dnid, dnid_of, bind_callbacks}
use pets_server_linux.Server.Connections
use pets_server_linux.Server.Races.{Race, picks, enters, new, opened, picked, pick, enter}
use pets_server_linux.Server.Routing.{fresh}
use pets_server_linux.System
use pets_server_linux.System.{World, messages_of, session_of, delivered}
use pets_server_linux.Dispatcher.{Tick, Dispatched, dispatch_msg}
use pets_server_linux.Dispatcher.Quiet.{Quiet}
use pets_server_linux.System.Progress.{Emptied, Reach-progress}
use pets_server_linux.System.Confluence.{Reach-delivered}
use pets_server_linux.System.Lifetimes.{Life, connects, arrives, reads, Reach, here, next, started}
use pets_server_linux.System.Lifetimes.Senders.{Reach-messages_of}

abbrev number : ℕ
number = 2 ^ 16 + 5

abbrev draw : Draw
draw = record { time = 1; rand = 5 }

abbrev picked_race : Race
picked_race = record {
  server = pick 40 number Connections.started;
  phase = at 40 (picked number) (λ conn. new);
}

abbrev opened_race : Race
opened_race = record {
  server = enter 40 number picked_race.server;
  phase = at 40 (opened number) picked_race.phase;
}

abbrev sent : List ℕ
sent = 0 ∷ 0 ∷ 0 ∷ 2 ∷ 0x66 ∷ 1 ∷ 0 ∷ []

abbrev arrived : Life listed
arrived = record (started listed []) {
  race = opened_race;
  buffers = at 40 sent (λ c. []);
  received = at 40 sent (λ c. []);
}

abbrev was_read : Life listed
was_read = record arrived {
  buffers = at 40 (0 ∷ []) arrived.buffers;
  dispatcher = record (bind_callbacks fresh) { msg_queue = packet number (0x66 ∷ 1 ∷ []) ∷ [] };
  senders = 40 ∷ [];
}

reached : Reach listed (started listed []) was_read
unfolding pick enter greate_dnid dnid_of Maps.find Maps.insert receive frame_len make_pack
    bind_callbacks pets_server_linux.Dispatcher.push_pack
reached =
    next
      (next
        (next (next here (connects (picks 40 number (draw ∷ []) refl refl)))
          (connects (enters 40 number refl)))
        (arrives 40 number sent refl))
      (reads 40 number 2 (record { buf = 0 ∷ []; shut = false; dispatcher = was_read.dispatcher })
        refl refl refl refl)

only_one : (j : ℕ) → j ≢ 40 → Maps.find j was_read.race.server.contexts ≢ some (of_dnid number)
unfolding pick enter Maps.find Maps.insert
only_one j n = ground arith

Reach-messages_of_example :
    Frames.Frames listed sent
      (messages_of number (was_read.handled ++ was_read.dispatcher.msg_queue) ++ [])
      (0 ∷ [])
      false
unfolding pick enter Maps.find Maps.insert
Reach-messages_of_example =
    Reach-messages_of listed [] was_read 40 number [] (0 ∷ []) false reached refl only_one
      (Frames.short (omega arith))

-- A message and a byte on connection 5, come and read; and the same while another connection sends.
abbrev come : World listed → World listed
come w = record w {
  buffers = at 5 (w.buffers 5 ++ sent) w.buffers;
  received = at 5 (w.received 5 ++ sent) w.received;
}

abbrev taken_off : World listed → World listed
taken_off w = record w {
  buffers = at 5 (0 ∷ []) w.buffers;
  dispatcher = record (bind_callbacks fresh) { msg_queue = packet 5 (0x66 ∷ 1 ∷ []) ∷ [] };
}

abbrev other_first : World listed
other_first = record (System.started listed []) {
  buffers = at 6 (7 ∷ []) (λ d. []);
  received = at 6 (7 ∷ []) (λ d. []);
}

abbrev alone : World listed
alone = come (System.started listed [])

abbrev together : World listed
together = come other_first

abbrev queue_session : Session listed Log
queue_session = record {
  buf = 0 ∷ [];
  shut = false;
  dispatcher = record (bind_callbacks fresh) { msg_queue = packet 5 (0x66 ∷ 1 ∷ []) ∷ [] };
}

reached_alone : System.Reach listed (System.started listed []) (taken_off alone)
unfolding receive frame_len make_pack bind_callbacks pets_server_linux.Dispatcher.push_pack
reached_alone =
    System.next (System.next System.here (System.arrives 5 sent))
      (System.reads 5 2 queue_session refl refl refl)

reached_together : System.Reach listed (System.started listed []) (taken_off together)
unfolding receive frame_len make_pack bind_callbacks pets_server_linux.Dispatcher.push_pack
reached_together =
    System.next
      (System.next (System.next System.here (System.arrives 6 (7 ∷ []))) (System.arrives 5 sent))
      (System.reads 5 2 queue_session refl refl refl)

Reach-delivered_example :
    (delivered listed (taken_off alone) 5 ≡ delivered listed (taken_off together) 5)
    × (◌≡◌ {A = List ℕ} (0 ∷ []) (0 ∷ []))
    × (◌≡◌ {A = Bool} false false)
Reach-delivered_example =
    Reach-delivered listed [] [] (taken_off alone) (taken_off together) 5 (0 ∷ []) (0 ∷ []) false
      false reached_alone reached_together refl (Frames.short (omega arith))
      (Frames.short (omega arith))

-- Rounds of DispatchMsg at the beginning of its second.
abbrev rounds : List Tick
rounds = replicate 20 (record { now = 0; arrivals = [] })

rounds-Quiet : (n : ℕ) → All (Quiet 0) (replicate n (record { now = 0; arrivals = [] }))
rounds-Quiet zero = tt
rounds-Quiet (suc n) = ((omega arith, refl), rounds-Quiet n)

Reach-progress_example :
    (t : Session listed Log) × (on_message listed (of_dnid 5) (session_of listed alone 5) ≡ done t)
    × (((q : Dispatched Log) × (dispatch_msg rounds 0 t.dispatcher alone.log ≡ done q)
          × Emptied listed 5 alone t q)
        ⊎ ((e : Fault) × (dispatch_msg rounds 0 t.dispatcher alone.log ≡ fail e)
            × (handle_all t.dispatcher.msg_queue t.dispatcher.call_back_map alone.log ≡ fail e)))
unfolding bind_callbacks
Reach-progress_example =
    Reach-progress listed [] alone 5 rounds 0 (System.next System.here (System.arrives 5 sent))
      (rounds-Quiet 20) (omega arith)
