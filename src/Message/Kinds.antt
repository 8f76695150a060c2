-- ===== src/Message/Kinds.antt =====
-- The two numbers of a message tell its kind, but for one pair.
use pets_server_linux.Common.{◌≡◌, ◌↔◌, arith}
use pets_server_linux.Message.{
  Message, header, sq_login, sa_login, sq_register, sa_register, sq_chat_whisper, sa_chat_whisper,
  sq_chat_broadcast, sa_chat_broadcast, sq_chat_system, sa_chat_system, sq_chat_room, sa_chat_room,
  sq_move, sa_move,
}

-- The kinds that the structures' names stand for.
pub data Kind : Type 0 where
  login register whisper broadcast system room move : Kind

abbrev pub kind : Message → Kind
kind (sq_login s) = login
kind (sa_login r) = login
kind (sq_register s) = register
kind (sa_register r) = register
kind (sq_chat_whisper d s) = whisper
kind (sa_chat_whisper s) = whisper
kind (sq_chat_broadcast s) = broadcast
kind (sa_chat_broadcast s) = broadcast
kind (sq_chat_system s) = system
kind (sa_chat_system s) = system
kind (sq_chat_room r s) = room
kind (sa_chat_room s) = room
kind (sq_move r p) = move
kind (sa_move p) = move

-- The kind that a receiver reads from the two numbers: it takes a registration for a login.
abbrev received_as : Kind → Kind
received_as register = login
received_as k = k

-- Two messages have the same two numbers exactly if their kinds are the same once a registration
-- counts as a login; so the numbers tell all other kinds apart.
header-eq : (m n : Message) → (header m ≡ header n) ↔ (received_as (kind m) ≡ received_as (kind n))
unfolding header
header-eq m n = (ground arith, ground arith)
