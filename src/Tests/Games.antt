-- ===== src/Tests/Games.antt =====
-- Concrete runs of the game thread: its frames, and messages from the bytes of a connection on.
use pets_server_linux.Common.{
  ℕ, ◌≡◌, refl, false, some, List, [], ◌∷◌, ◌++◌, done, arith, length, map, concat, null_access,
  ◌>>=◌,
}
use pets_server_linux.Common.Maps
use pets_server_linux.Muduo.{listed}
use pets_server_linux.Dispatcher.{SPacket, Tick, dispatch_msg, bind_cb}
use pets_server_linux.Codec.{Session, of_dnid, on_message, send_msg}
use pets_server_linux.Codec.Frames
use pets_server_linux.Codec.Receive.{packet}
use pets_server_linux.Object.Handlers.{Log}
use pets_server_linux.Object.Manager.{ObjectManager}
use pets_server_linux.Server.{bind_callbacks}
use pets_server_linux.Server.Routing.{fresh}
use pets_server_linux.Server.Frame.{Game, Clock, server_frame}
use pets_server_linux.Server.Loop.{Played, server_frames, server_frames-Played}
use pets_server_linux.Server.Pipeline.{ended, first_fault, send_msg-dispatch_msg}

-- A chat message and then a login, on the wire, with one byte more.
abbrev messages : List (List ℕ)
messages = (0x66 ∷ 1 ∷ []) ∷ (0x64 ∷ 0 ∷ 5 ∷ []) ∷ []

abbrev session : Session listed Log
session = record {
  buf = 0 ∷ 0 ∷ 0 ∷ 2 ∷ 0x66 ∷ 1 ∷ 0 ∷ 0 ∷ 0 ∷ 3 ∷ 0x64 ∷ 0 ∷ 5 ∷ 0 ∷ [];
  shut = false;
  dispatcher = bind_callbacks fresh;
}

abbrev quiet_tick : Tick
quiet_tick = record { now = 10; arrivals = [] }

on_the_wire : session.buf ≡ concat (map (λ m. send_msg listed m (length m)) messages) ++ (0 ∷ [])
unfolding send_msg
on_the_wire = refl

send_msg-dispatch_msg_example :
    (on_message listed (of_dnid 5) session >>= λ t.
    dispatch_msg (quiet_tick ∷ quiet_tick ∷ quiet_tick ∷ []) 10 t.dispatcher [])
    ≡ ended
        (record { dispatcher = bind_callbacks fresh; world = []; msg_counter = 2 })
        (first_fault messages)
send_msg-dispatch_msg_example =
    send_msg-dispatch_msg listed 5 session messages (0 ∷ [])
      (quiet_tick ∷ quiet_tick ∷ quiet_tick ∷ []) 10 [] (omega arith, (omega arith, tt))
      (Frames.short (omega arith)) on_the_wire refl
      ((omega arith, refl), ((omega arith, refl), ((omega arith, refl), tt))) (omega arith)

faulty : first_fault messages ≡ some null_access
unfolding first_fault
faulty = refl

-- Two frames, of which the second is late.
abbrev manager : ObjectManager
manager = record { max_size = 10; object_map = []; remove_list = [] }

abbrev game : Game
game = record { dispatcher = bind_callbacks fresh; log = []; manager = manager }

abbrev in_time_clock : Clock
in_time_clock = record {
  before = 3000;
  begin = 10;
  ticks =
      record { now = 10; arrivals = packet 5 (0x66 ∷ 1 ∷ []) ∷ [] }
      ∷ record { now = 11; arrivals = [] }
      ∷ [];
  after = 7000;
}

abbrev late_clock : Clock
late_clock = record in_time_clock { before = 60000; after = 61000 }

two_frames : server_frames (in_time_clock ∷ late_clock ∷ []) game ≡ done (game, 111)
unfolding server_frames server_frame dispatch_msg bind_callbacks Maps.find Maps.insert
    pets_server_linux.Dispatcher.deliver pets_server_linux.Object.Handlers.on_dispatch_chat_msg
    pets_server_linux.Object.Manager.run
two_frames = refl

server_frames-Played_example : Played (in_time_clock ∷ late_clock ∷ []) game game 111
server_frames-Played_example =
    server_frames-Played (in_time_clock ∷ late_clock ∷ []) game game 111 two_frames
