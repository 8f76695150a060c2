-- ===== src/Sql.antt =====
-- MySqlModule: the data of MysqlQuery.hpp, and what it calls of the MySQL client library, which is no
-- code of this program and stays a parameter.
pub mod Query
pub mod Procedure
pub mod Binds
pub mod Queue
pub mod Connect
pub mod ErrMsg
pub mod Trials
pub mod Thread
pub mod Login
use pets_server_linux.Common.{ℕ, zero, suc, Bool, true, false, Option, none, some, List, [], Text}
use pets_server_linux.Common.Int.{ℤ, pos, negsuc}

-- The types of a column that the code names; `unset` is the value 0, `err_type` is -1.
pub data FieldType : Type 0 where
  unset tiny long longlong float double string blob err_type : FieldType

-- MYSQL_BIND, as far as it is filled: the buffer is its address and its size in bytes.
pub record MysqlBind : Type 0 where
  pub buffer_type : FieldType
  pub buffer : ℕ
  pub buffer_length : ℕ
  pub length : ℕ

abbrev pub Row : Type 0
Row = List (Option Text)

-- The client library: `Db` is a connection with its statement, `Res` a result set. A call answers 0
-- or an error code.
pub record Api : Type 1 where
  pub Db : Type 0
  pub Res : Type 0
  pub real_query : Db → Text → ℤ × Db
  pub store_result : Db → Option Res × Db
  pub affected_rows : Db → ℕ
  pub num_rows : Res → ℕ
  pub num_fields : Res → ℕ
  pub fetch_row : Res → Option Row × Res
  pub fetch_lengths : Res → Option (List ℕ)
  pub stmt_prepare : Db → Text → ℤ × Db
  pub stmt_bind_param : Db → List MysqlBind → ℤ × Db
  pub stmt_execute : Db → ℤ × Db
  pub stmt_store_result : Db → ℤ × Db
  pub stmt_result_metadata : Db → Option Res × Db
  pub stmt_affected_rows : Db → ℕ
  pub stmt_free_result : Db → Db
  pub stmt_bind_result : Db → List MysqlBind → ℤ × Db
  pub stmt_fetch : Db → ℤ × Db

abbrev pub is_zero : ℤ → Bool
is_zero (pos zero) = true
is_zero (pos (suc n)) = false
is_zero (negsuc n) = false

-- MyQuery::QueryResult. A result set is a handle; `stmt` says whether the statement is set.
pub record QueryResult : Type 0 where
  pub stmt : Bool
  pub res : Option ℕ
  pub binds : Option (List MysqlBind)
  pub sql : Option Text
  pub nrow : ℕ
  pub num_rows : ℕ
  pub num_fields : ℕ
  pub lens : Option (List ℕ)
  pub rows : Option Row

-- QueryResult::QueryResult: memset to 0.
abbrev pub new_result : QueryResult
new_result = record {
  stmt = false;
  res = none;
  binds = none;
  sql = none;
  nrow = 0;
  num_rows = 0;
  num_fields = 0;
  lens = none;
  rows = none;
}

-- The handles of MyQuery and the open result sets: whether m_pMysql and m_pMysqlStmt are set.
pub record Client (api : Api) : Type 0 where
  pub mysql : Bool
  pub mysql_stmt : Bool
  pub db : api.Db
  pub results : List (ℕ × api.Res)
  pub next : ℕ
