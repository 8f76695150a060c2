-- ===== src/Message/Move.antt =====
-- MoveMsg.hpp: the numbers of the move messages.
use pets_server_linux.Common.{ℕ}

abbrev pub move : ℕ
move = 0

abbrev pub position : ℕ
position = 1

abbrev pub jump : ℕ
jump = 2
