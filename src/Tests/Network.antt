-- ===== src/Tests/Network.antt =====
-- Concrete runs of the codec, the dispatcher and the connections.
use pets_server_linux.Common.{
  ℕ, ◌≡◌, ◌≢◌, refl, false, true, none, replicate, zero, suc, some, List, [], ◌∷◌, ◌++◌, done,
  stuck, arith, length, map, concat, ◌+◌,
}
use pets_server_linux.Common.Maps
use pets_server_linux.Muduo.{listed}
use pets_server_linux.Dispatcher.{SPacket, Dispatcher, Dispatched, Tick, dispatch_msg}
use pets_server_linux.Dispatcher.Order.{Handled, start, dispatch_msg-Handled}
use pets_server_linux.Dispatcher.Progress.{dispatch_msg-ne-stuck}
use pets_server_linux.Codec.{Session, of_dnid, on_message, send_msg}
use pets_server_linux.Codec.Frames
use pets_server_linux.Codec.Receive.{Reads, on_message-Reads, packet}
use pets_server_linux.Codec.Chunks.{SameSession, feed, feed-on_message}
use pets_server_linux.Codec.Send.{on_message-send_msg, on_message-send_msg_long}

abbrev idle : Dispatcher ℕ
idle = record { call_back_map = []; msg_queue = [] }

abbrev session : List ℕ → Session listed ℕ
session bytes = record { buf = bytes; shut = false; dispatcher = idle }

-- A frame with the body 7 8, and the start of another.
abbrev two_frames : List ℕ
two_frames = 0 ∷ 0 ∷ 0 ∷ 2 ∷ 7 ∷ 8 ∷ 0 ∷ 0 ∷ []

abbrev after_one : Session listed ℕ
after_one = record {
  buf = 0 ∷ 0 ∷ [];
  shut = false;
  dispatcher = record { call_back_map = []; msg_queue = packet 5 (7 ∷ 8 ∷ []) ∷ [] };
}

on_message_one : on_message listed (of_dnid 5) (session two_frames) ≡ done after_one
unfolding on_message
on_message_one = refl

on_message-Reads_example :
    Reads listed 5 (session two_frames) (on_message listed (of_dnid 5) (session two_frames))
on_message-Reads_example = on_message-Reads listed 5 (session two_frames)

abbrev first_part : List ℕ
first_part = 0 ∷ 0 ∷ 0 ∷ 2 ∷ 7 ∷ []

abbrev second_part : List ℕ
second_part = 8 ∷ 0 ∷ 0 ∷ []

-- The frame in three reads, one of them empty.
feed-on_message_example :
    (u : Session listed ℕ) × (v : Session listed ℕ) × (feed listed 5
        (session [])
        (first_part ∷ [] ∷ second_part ∷ [])
      ≡ done u)
    × (on_message listed (of_dnid 5) (session (first_part ++ second_part)) ≡ done v)
    × SameSession listed u v
feed-on_message_example = feed-on_message listed 5 (session []) first_part ([] ∷ second_part ∷ [])

sent :
    two_frames
    ≡ concat (map (λ m. send_msg listed m (length m)) ((7 ∷ 8 ∷ []) ∷ [])) ++ (0 ∷ 0 ∷ [])
unfolding send_msg
sent = refl

on_message-send_msg_example :
    (t : Session listed ℕ) × (on_message listed (of_dnid 5) (session two_frames) ≡ done t)
    × (t.dispatcher.msg_queue ≡ [] ++ map (packet 5) ((7 ∷ 8 ∷ []) ∷ []))
    × (t.buf ≡ 0 ∷ 0 ∷ [])
    × (t.shut ≡ false)
on_message-send_msg_example =
    on_message-send_msg listed 5 (session two_frames) ((7 ∷ 8 ∷ []) ∷ []) (0 ∷ 0 ∷ [])
      (omega arith, tt) (Frames.short (omega arith)) sent

abbrev zeros : ℕ → List ℕ
zeros n = replicate n 0

-- One byte more than onMessage accepts.
abbrev too_long : List ℕ
too_long = zeros 65537

length-zeros : (n : ℕ) → length (zeros n) ≡ n
length-zeros zero = refl
length-zeros (suc n) = omega (arith, length-zeros n)

abbrev long_frame : List ℕ
long_frame = send_msg listed too_long (length too_long) ++ []

on_message-send_msg_long_example :
    (t : Session listed ℕ) × (on_message listed (of_dnid 5) (session long_frame) ≡ done t)
    × (t.dispatcher.msg_queue ≡ [])
    × (t.buf ≡ long_frame)
    × (t.shut ≡ true)
on_message-send_msg_long_example =
    on_message-send_msg_long listed 5 (session long_frame) too_long []
      (omega (arith, length-zeros 65537)) (omega (arith, length-zeros 65537)) refl

-- One packet for a callback that counts, one with no buffer, then the end of the second.
abbrev ticks : List Tick
ticks =
    record { now = 10; arrivals = packet 5 (0x66 ∷ 0 ∷ []) ∷ [] }
    ∷ record { now = 20; arrivals = record { dnid = 5; buffer = none; context = none } ∷ [] }
    ∷ record { now = 1011; arrivals = packet 6 (0x66 ∷ 0 ∷ []) ∷ [] }
    ∷ []

abbrev counting : Dispatcher ℕ
counting = record {
  call_back_map = (0x66, some (λ dnid msg pet n. done (n + 1))) ∷ [];
  msg_queue = [];
}

abbrev counted_once : Dispatched ℕ
counted_once = record {
  dispatcher = record counting { msg_queue = packet 6 (0x66 ∷ 0 ∷ []) ∷ [] };
  world = 1;
  msg_counter = 1;
}

dispatch_msg_counts : dispatch_msg ticks 10 counting 0 ≡ done counted_once
unfolding dispatch_msg Maps.find pets_server_linux.Dispatcher.deliver
dispatch_msg_counts = refl

dispatch_msg-Handled_example : Handled ticks 10 (start counting 0) counted_once
dispatch_msg-Handled_example =
    dispatch_msg-Handled ticks 10 counting 0 counted_once dispatch_msg_counts

abbrev quiet : List Tick
quiet = record { now = 1012; arrivals = [] } ∷ []

dispatch_msg-ne-stuck_example : dispatch_msg (ticks ++ quiet) 10 idle 0 ≢ stuck
unfolding Maps.find
dispatch_msg-ne-stuck_example =
    dispatch_msg-ne-stuck (ticks ++ quiet) 10 idle 0 (λ k cb f. cc) (omega arith)
