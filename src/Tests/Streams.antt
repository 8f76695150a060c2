-- ===== src/Tests/Streams.antt =====
-- A run of the threads: two connections, one of which has sent a message and a half.
use pets_server_linux.Common.{ℕ, ◌≡◌, refl, false, List, [], ◌∷◌, ◌++◌, done, arith}
use pets_server_linux.Common.Maps
use pets_server_linux.Muduo.{listed}
use pets_server_linux.Dispatcher.{SPacket, Tick, Dispatched, get_pack, deliver, dispatch_msg}
use pets_server_linux.Dispatcher.Order.{handle_all}
use pets_server_linux.Codec.{
  of_dnid, on_message, on_message_loop, handle_frame, Session, receive, make_pack, frame_len,
}
use pets_server_linux.Codec.Frames
use pets_server_linux.Codec.Receive.{packet}
use pets_server_linux.Object.Handlers.{Log, on_dispatch_chat_msg}
use pets_server_linux.Server.{bind_callbacks}
use pets_server_linux.Server.Routing.{fresh}
use pets_server_linux.Common.Maps.{at}
use pets_server_linux.System.{
  World, arrives, reads, handles, Reach, here, next, messages_of, started, session_of,
}
use pets_server_linux.System.Reads.{with_session}
use pets_server_linux.System.Runs.{dispatched, on_message-dispatch_msg}
use pets_server_linux.System.Streams.{Reach-Frames}

abbrev chat_and_half : List ℕ
chat_and_half = 0 ∷ 0 ∷ 0 ∷ 2 ∷ 0x66 ∷ 1 ∷ 0 ∷ 0 ∷ []

abbrev one_message : List ℕ
one_message = 0 ∷ 0 ∷ 0 ∷ 3 ∷ 0x66 ∷ 2 ∷ 9 ∷ []

abbrev arrived_5 : World listed
arrived_5 = record (started listed []) {
  buffers = at 5 chat_and_half (λ d. []);
  received = at 5 chat_and_half (λ d. []);
}

abbrev arrived_both : World listed
arrived_both = record arrived_5 {
  buffers = at 6 one_message arrived_5.buffers;
  received = at 6 one_message arrived_5.received;
}

abbrev read_5 : World listed
read_5 = record arrived_both {
  buffers = at 5 (0 ∷ 0 ∷ []) arrived_both.buffers;
  dispatcher = record (bind_callbacks fresh) { msg_queue = packet 5 (0x66 ∷ 1 ∷ []) ∷ [] };
}

abbrev handled_5 : World listed
handled_5 = record read_5 {
  dispatcher = bind_callbacks fresh;
  handled = packet 5 (0x66 ∷ 1 ∷ []) ∷ [];
}

reached : Reach listed (started listed []) handled_5
unfolding receive frame_len make_pack pets_server_linux.Dispatcher.push_pack bind_callbacks get_pack
    deliver Maps.find Maps.insert on_dispatch_chat_msg
reached =
    next
      (next (next (next here (arrives 5 chat_and_half)) (arrives 6 one_message)) (
        reads 5 2 (record { buf = 0 ∷ 0 ∷ []; shut = false; dispatcher = read_5.dispatcher }) refl
          refl refl))
      (handles (packet 5 (0x66 ∷ 1 ∷ [])) (bind_callbacks fresh) (0x66 ∷ 1 ∷ [])
        (bind_callbacks fresh).call_back_map [] refl refl refl)

Reach-Frames_example :
    Frames.Frames listed chat_and_half
      (messages_of 5 (packet 5 (0x66 ∷ 1 ∷ []) ∷ handled_5.dispatcher.msg_queue) ++ [])
      (0 ∷ 0 ∷ [])
      false
    × (handle_all handled_5.handled (bind_callbacks fresh).call_back_map []
        ≡ done (handled_5.dispatcher.call_back_map, handled_5.log))
Reach-Frames_example =
    Reach-Frames listed [] handled_5 5 [] (0 ∷ 0 ∷ []) false reached (Frames.short (omega arith))

-- onMessage on the first connection, and then a DispatchMsg.
abbrev read_session : Session listed Log
read_session = record { buf = 0 ∷ 0 ∷ []; shut = false; dispatcher = read_5.dispatcher }

abbrev done_dispatch : Dispatched Log
done_dispatch = record { dispatcher = bind_callbacks fresh; world = []; msg_counter = 1 }

abbrev two_ticks : List Tick
two_ticks = record { now = 5; arrivals = [] } ∷ record { now = 6; arrivals = [] } ∷ []

read_first : on_message listed (of_dnid 5) (session_of listed arrived_both 5) ≡ done read_session
unfolding on_message on_message_loop handle_frame receive frame_len make_pack
    pets_server_linux.Dispatcher.push_pack bind_callbacks
read_first = refl

dispatch_first : dispatch_msg two_ticks 5 read_5.dispatcher [] ≡ done done_dispatch
unfolding dispatch_msg bind_callbacks get_pack deliver Maps.find Maps.insert on_dispatch_chat_msg
dispatch_first = refl

on_message-dispatch_msg_example :
    (front : List SPacket) × Reach listed arrived_both
      (dispatched listed (with_session listed arrived_both 5 read_session) done_dispatch front)
on_message-dispatch_msg_example =
    on_message-dispatch_msg listed 5 arrived_both read_session two_ticks 5 done_dispatch read_first
      (refl, (refl, tt)) dispatch_first
