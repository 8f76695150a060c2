-- ===== src/Codec.antt =====
-- codec.hpp and codec.cpp: splitting the byte stream of a connection into packets, and framing a
-- message that is sent. The host is little-endian, as the build's target.
pub mod Frames
pub mod Receive
pub mod Chunks
pub mod Send
pub mod Prefixes
use pets_server_linux.Common.{
  ℕ, zero, suc, ◌+◌, ◌*◌, ◌/◌, ◌%◌, ◌^◌, ◌≤◌, Bool, true, false, Option, none, some, List, [], ◌∷◌,
  leb, ltb, if◌then◌else◌, Outcome, done, fail, stuck, ◌>>=◌, bad_any_cast, take,
}
use pets_server_linux.Common.Int.{ℤ, pos, negsuc, int32}
use pets_server_linux.Muduo.{Net}
use pets_server_linux.Object.{Pet, get_dnid}
use pets_server_linux.Dispatcher.{SPacket, Dispatcher, push_pack}

-- boost::any as the context of a connection.
pub data Context : Type 0 where
  empty : Context
  of_dnid : ℕ → Context
  of_pet : Pet → Context

-- HEADMSGLEN
abbrev pub head_msg_len : ℕ
head_msg_len = 4

-- The DWORD at a pointer, and the four bytes of a DWORD.
abbrev pub load32 : List ℕ → ℕ
load32 (a ∷ b ∷ c ∷ d ∷ rest) = a + b * 2 ^ 8 + c * 2 ^ 16 + d * 2 ^ 24
load32 _ = 0

abbrev pub store32 : ℕ → List ℕ
store32 w = (w % 2 ^ 8) ∷ (w / 2 ^ 8 % 2 ^ 8) ∷ (w / 2 ^ 16 % 2 ^ 8) ∷ (w / 2 ^ 24 % 2 ^ 8) ∷ []

-- The test of the length, `len > 65536 || len < 0`: the body's length, or none.
abbrev pub valid_len : ℤ → Option ℕ
valid_len (negsuc n) = none
valid_len (pos n) = if ltb 65536 n then none else some n

-- The packet for one message, with the connection's number and pet from its context.
unfoldable pub make_pack : Context → List ℕ → Outcome SPacket
make_pack empty msg = fail bad_any_cast
make_pack (of_dnid d) msg = done (record { dnid = d; buffer = some msg; context = none })
make_pack (of_pet p) msg = done (record { dnid = get_dnid p; buffer = some msg; context = some p })

-- What onMessage works on: the buffer, whether the connection has been shut down, the dispatcher.
pub record Session (net : Net) (S : Type 0) : Type 0 where
  pub buf : net.Buffer
  pub shut : Bool
  pub dispatcher : Dispatcher S

-- `len`, read from the first four bytes.
unfoldable pub frame_len : Net → List ℕ → Option ℕ
frame_len net bytes = valid_len (int32 (net.network_to_host32 (load32 bytes)))

module _ (net : Net) {S : Type 0} where
  open net use {readable_bytes, peek, retrieve}

  -- One complete message of `len` bytes: off the buffer and into the dispatcher's queue.
  unfoldable pub receive : Context → Session net S → ℕ → Outcome (Session net S)
  unfolding make_pack push_pack
  receive ctx s len = do
    let body = retrieve s.buf head_msg_len
    pack ← make_pack ctx (take len (peek body))
    done (record s { buf = retrieve body len; dispatcher = push_pack s.dispatcher pack })

  -- The three branches of the loop's body, where `next` is the rest of the loop.
  unfoldable pub handle_frame :
      (Session net S → Outcome (Session net S))
      → Context
      → Session net S
      → Option ℕ
      → Outcome (Session net S)
  handle_frame next ctx s none = done (record s { shut = true })
  handle_frame next ctx s (some len) =
      let more = (receive ctx s len >>= next) in
      if leb (len + head_msg_len) (readable_bytes s.buf) then more else done s

  unfoldable pub on_message_loop : ℕ → Context → Session net S → Outcome (Session net S)
  unfolding handle_frame frame_len
  on_message_loop zero ctx s = stuck
  on_message_loop (suc fuel) ctx s = elim (leb head_msg_len (readable_bytes s.buf)) [
    | false ↦ done s
    | true ↦ handle_frame (on_message_loop fuel ctx) ctx s (frame_len net (peek s.buf))
  ]

  -- Codec::onMessage. A round takes four bytes at least off the buffer, or is the last.
  unfoldable pub on_message : Context → Session net S → Outcome (Session net S)
  unfolding on_message_loop receive
  on_message ctx s = on_message_loop (suc (readable_bytes s.buf)) ctx s

module _ (net : Net) where
  open net use {Buffer, empty as empty_buffer, peek, append, prepend, host_to_network32}

  -- Codec::SendMsg: the buffer that is handed to the connection. `size` is a DWORD.
  unfoldable pub send_msg : List ℕ → ℕ → Buffer
  send_msg data_bytes size =
      let buf = append empty_buffer (take size data_bytes) in
      prepend buf (store32 (host_to_network32 (size % 2 ^ 32)))
