-- ===== src/Object/Handlers.antt =====
-- PetsManager.cpp: what the game thread does with a message, and Pet::OnNetLoginMsg. The handlers
-- work on the log, which is all that they write.
use pets_server_linux.Common.{
  ℕ, zero, suc, Bool, false, Option, none, some, List, [], ◌∷◌, ◌++◌, Text, codes, length, drop,
  ◌==◌, if◌then◌else◌, Outcome, done, fail, ◌>>=◌, out_of_bounds, null_access,
}
use pets_server_linux.Object.{Pet}
use pets_server_linux.Object.Parse.{parse}
use pets_server_linux.Message.Login
use pets_server_linux.Message.Chat
use pets_server_linux.Message.Move

abbrev pub Log : Type 0
Log = List Text

-- A char* as std::string: the bytes before the first 0. The codec's copy of a message has no 0
-- behind it, so a message without one is read past its end.
unfoldable pub c_string : List ℕ → Outcome Text
c_string [] = fail out_of_bounds
c_string (zero ∷ cs) = done []
c_string (suc c ∷ cs) = do s ← c_string cs; done (suc c ∷ s)

-- pMsg->_protocol of a structure below SMessage: the second byte.
abbrev sub_protocol_of : List ℕ → Outcome ℕ
sub_protocol_of [] = fail out_of_bounds
sub_protocol_of (p ∷ []) = fail out_of_bounds
sub_protocol_of (p ∷ q ∷ rest) = done q

-- Pet::OnNetLoginMsg: account and password, joined by `&`, go to the log.
unfoldable pub on_net_login_msg : Pet → List ℕ → Log → Outcome Log
unfolding c_string parse
on_net_login_msg pet msg log = do
  str ← c_string (drop 2 msg)
  vec_param ← parse str (codes "&")
  if length vec_param == 2 then done (log ++ vec_param) else done log

-- The case KKDD_LOGINMSG_LOGIN: a call through the packet's pet pointer.
unfoldable pub login_case : Option Pet → List ℕ → Log → Outcome Log
unfolding on_net_login_msg
login_case none msg log = fail null_access
login_case (some pet) msg log = on_net_login_msg pet msg log

-- PetsManager::OnDispatchLoginMsg. The cases besides the login are empty.
unfoldable pub on_dispatch_login_msg : ℕ → List ℕ → Option Pet → Log → Outcome (Bool × Log)
unfolding login_case
on_dispatch_login_msg dnid msg pet log = do
  protocol ← sub_protocol_of msg
  log' ←
      if protocol == Login.login
      then login_case pet msg log
      else (if protocol == Login.register
          then done log
          else (if protocol == Login.set_info
              then done log
              else (if protocol == Login.get_info then done log else done log)))
  done (false, log')

-- PetsManager::OnDispatchChatMsg. All its cases are empty.
unfoldable pub on_dispatch_chat_msg : ℕ → List ℕ → Option Pet → Log → Outcome (Bool × Log)
on_dispatch_chat_msg dnid msg pet log = do
  protocol ← sub_protocol_of msg
  log' ←
      if protocol == Chat.whisper
      then done log
      else (if protocol == Chat.broadcast
          then done log
          else (if protocol == Chat.system
              then done log
              else (if protocol == Chat.room then done log else done log)))
  done (false, log')

-- PetsManager::OnDispatchMoveMsg. All its cases are empty.
unfoldable pub on_dispatch_move_msg : ℕ → List ℕ → Option Pet → Log → Outcome (Bool × Log)
on_dispatch_move_msg dnid msg pet log = do
  protocol ← sub_protocol_of msg
  log' ←
      if protocol == Move.move
      then done log
      else (if protocol == Move.position
          then done log
          else (if protocol == Move.jump then done log else done log))
  done (false, log')
