-- ===== src/Message.antt =====
-- NetMsg: the message structures and the two levels of message numbers (SMessage.hpp, LoginMsg.hpp,
-- ChatMsg.hpp, MoveMsg.hpp). A structure is its bytes on a little-endian host with the usual
-- alignment; `pad` stands for the bytes between fields, which nobody writes.
pub mod Login
pub mod Chat
pub mod Move
pub mod Kinds
use pets_server_linux.Common.{
  ℕ, ◌%◌, ◌^◌, ◌/◌, ◌≡◌, Option, none, some, List, [], ◌∷◌, ◌++◌, Text, replicate,
}
use pets_server_linux.Object.{Point}
use pets_server_linux.Codec.{store32}
use Login.{LoginRet, RegisterRet, login_ret_byte, register_ret_byte}

-- The enum of SMessage.
abbrev pub login_message_base : ℕ
login_message_base = 0x64

abbrev pub move_message_base : ℕ
move_message_base = 0x65

abbrev pub chat_message_base : ℕ
chat_message_base = 0x66

abbrev fight_message_base : ℕ
fight_message_base = 0x67

-- SMessage::_protocol, and the _protocol of the structure below it, which hides it.
pub record Header : Type 0 where
  pub protocol : ℕ
  pub sub_protocol : Option ℕ

-- The constructor of DECLARE_MSG_MAP_BEGIN: it sets the protocol of SMessage and not its own.
abbrev declare_msg_map : ℕ → Header
declare_msg_map type = record { protocol = type % 2 ^ 8; sub_protocol = none }

-- The constructor of DECLARE_MSG, after that of its base.
abbrev declare_msg : Header → ℕ → Header
declare_msg base type = record base { sub_protocol = some (type % 2 ^ 8) }

abbrev login_base_msg : Header
login_base_msg = declare_msg_map login_message_base

abbrev chat_base_msg : Header
chat_base_msg = declare_msg_map chat_message_base

abbrev move_base_msg : Header
move_base_msg = declare_msg_map move_message_base

abbrev pub login_msg : Header
login_msg = declare_msg login_base_msg Login.login

-- Declared with the number of the login message.
abbrev register_msg : Header
register_msg = declare_msg login_base_msg Login.login

abbrev chat_whisper_msg : Header
chat_whisper_msg = declare_msg chat_base_msg Chat.whisper

abbrev chat_broadcast_msg : Header
chat_broadcast_msg = declare_msg chat_base_msg Chat.broadcast

abbrev chat_system_msg : Header
chat_system_msg = declare_msg chat_base_msg Chat.system

abbrev chat_room_msg : Header
chat_room_msg = declare_msg chat_base_msg Chat.room

abbrev pub move_msg : Header
move_msg = declare_msg move_base_msg Move.move

-- The messages. SQ is sent to the server and SA to the client.
pub data Message : Type 0 where
  sq_login : Text → Message
  sa_login : LoginRet → Message
  sq_register : Text → Message
  sa_register : RegisterRet → Message
  sq_chat_whisper : ℕ → Text → Message
  sa_chat_whisper : Text → Message
  sq_chat_broadcast sa_chat_broadcast : Text → Message
  sq_chat_system sa_chat_system : Text → Message
  sq_chat_room : ℕ → Text → Message
  sa_chat_room : Text → Message
  sq_move : ℕ → Point → Message
  sa_move : Point → Message

unfoldable pub header : Message → Header
header (sq_login s) = login_msg
header (sa_login r) = login_msg
header (sq_register s) = register_msg
header (sa_register r) = register_msg
header (sq_chat_whisper d s) = chat_whisper_msg
header (sa_chat_whisper s) = chat_whisper_msg
header (sq_chat_broadcast s) = chat_broadcast_msg
header (sa_chat_broadcast s) = chat_broadcast_msg
header (sq_chat_system s) = chat_system_msg
header (sa_chat_system s) = chat_system_msg
header (sq_chat_room r s) = chat_room_msg
header (sa_chat_room s) = chat_room_msg
header (sq_move r p) = move_msg
header (sa_move p) = move_msg

abbrev store16 : ℕ → List ℕ
store16 w = (w % 2 ^ 8) ∷ (w / 2 ^ 8 % 2 ^ 8) ∷ []

abbrev store64 : ℕ → List ℕ
store64 w = store32 (w % 2 ^ 32) ++ store32 (w / 2 ^ 32 % 2 ^ 32)

abbrev point_bytes : Point → List ℕ
point_bytes p = store16 p.x ++ store16 p.y

-- What follows the two numbers.
unfoldable pub body : ℕ → Message → List ℕ
body pad (sq_login s) = s
body pad (sa_login r) = login_ret_byte r ∷ []
body pad (sq_register s) = s
body pad (sa_register r) = register_ret_byte r ∷ []
body pad (sq_chat_whisper d s) = replicate 2 pad ++ (store32 d ++ s)
body pad (sa_chat_whisper s) = s
body pad (sq_chat_broadcast s) = s
body pad (sa_chat_broadcast s) = s
body pad (sq_chat_system s) = s
body pad (sa_chat_system s) = s
body pad (sq_chat_room r s) = store16 r ++ s
body pad (sa_chat_room s) = s
body pad (sq_move r p) = replicate 6 pad ++ (store64 r ++ (point_bytes p ++ replicate 4 pad))
body pad (sa_move p) = point_bytes p

abbrev header_bytes : ℕ → Header → List ℕ
header_bytes pad h = h.protocol ∷ elim h.sub_protocol [ none ↦ pad | some p ↦ p ] ∷ []

unfoldable pub bytes : ℕ → Message → List ℕ
unfolding header body
bytes pad m = header_bytes pad (header m) ++ body pad m
