-- ===== src/Sql/Trials.antt =====
-- MysqlQuery.cpp: the test functions of MyQuery, readMysqlStmt and testProcedure.
use pets_server_linux.Common.{
  ℕ, zero, suc, none, some, List, [], ◌∷◌, Text, codes, if◌then◌else◌, Outcome, done, stuck, ◌>>=◌,
}
use pets_server_linux.Sql.{Api, Client, MysqlBind, QueryResult, new_result, is_zero}
use pets_server_linux.Sql.Binds.{new_query_bind, bind_long, bind_string, bind_blob}
use pets_server_linux.Sql.Query.{execute_stmt, fetch_result_bind, release}
use pets_server_linux.Sql.Procedure.{Env, Any}
use pets_server_linux.Sql.Queue.{SqlPack, procedure_type, any_arr, Work, execute_sentence}

-- The addresses of the four variables that readMysqlStmt binds.
record Addresses : Type 0 where
  staticid : ℕ
  pub account : ℕ
  pub password : ℕ
  pub buffer : ℕ

module _ (api : Api) (at : Addresses) where
  -- The binds of readMysqlStmt.
  unfoldable four_binds : Outcome (List MysqlBind)
  unfolding new_query_bind bind_long bind_string bind_blob
  four_binds = do
    q1 ← bind_long at.staticid 0 (new_query_bind 4)
    q2 ← bind_string at.account 20 1 q1
    q3 ← bind_string at.password 33 2 q2
    q4 ← bind_blob at.buffer 1024 3 q3
    done q4.binds

  -- Its loop, for fuel: rows are fetched and printed until a fetch fails.
  unfoldable fetch_all : ℕ → List MysqlBind → QueryResult → Client api → Outcome (Client api)
  unfolding fetch_result_bind
  fetch_all zero binds qr c = stuck
  fetch_all (suc fuel) binds qr c =
      let (result, c') = fetch_result_bind api binds qr c in
      let again = fetch_all fuel binds qr c' in if is_zero result then again else done c'

  -- MyQuery::readMysqlStmt; the local result is released when it returns.
  unfoldable read_mysql_stmt : ℕ → Client api → Outcome (Client api)
  unfolding execute_stmt four_binds fetch_all release
  read_mysql_stmt fuel c =
      let (result, qr, c1) =
        execute_stmt api (some (codes "select * from Pets where Account = 'TEST' ")) new_result []
          c in
      if is_zero result
      then (do
        binds ← four_binds
        c2 ← fetch_all fuel binds qr c1
        release api (record qr { binds = some binds }) c2)
      else release api qr c1

-- MyQuery::testProcedure: a task with one empty value and no callback, run at once.
unfoldable test_procedure : (env : Env) → Text → Work env → Outcome (Work env)
unfolding execute_sentence
test_procedure env db_name w =
    let pack : SqlPack env = record {
      pack_type = procedure_type;
      sentence = some (codes "p_test");
      arguments = any_arr (Any.empty ∷ []);
      sql_callback = none;
      param_nums = 1;
    } in
    execute_sentence env db_name pack w
