-- ===== src/Message/Login.antt =====
-- LoginMsg.hpp: the numbers of the login messages and of the server's answers.
use pets_server_linux.Common.{ℕ}

abbrev pub login : ℕ
login = 0

abbrev pub register : ℕ
register = 1

abbrev pub set_info : ℕ
set_info = 2

abbrev pub get_info : ℕ
get_info = 3

-- SALoginMsg
pub data LoginRet : Type 0 where
  login_success invalid_account invalid_password login_already_login account_blocked : LoginRet

abbrev pub login_ret_byte : LoginRet → ℕ
login_ret_byte login_success = 0
login_ret_byte invalid_account = 1
login_ret_byte invalid_password = 2
login_ret_byte login_already_login = 3
login_ret_byte account_blocked = 4

-- SARegisterMsg
pub data RegisterRet : Type 0 where
  reginter_success account_exist : RegisterRet

abbrev pub register_ret_byte : RegisterRet → ℕ
register_ret_byte reginter_success = 0
register_ret_byte account_exist = 1
