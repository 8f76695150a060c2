-- ===== src/Message/Chat.antt =====
-- ChatMsg.hpp: the numbers of the chat messages.
use pets_server_linux.Common.{ℕ}

abbrev pub whisper : ℕ
whisper = 0

abbrev pub broadcast : ℕ
broadcast = 1

abbrev pub system : ℕ
system = 2

abbrev pub room : ℕ
room = 3
