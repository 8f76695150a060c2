-- ===== src/Tests/Small.antt =====
-- A small database for the tests.
use pets_server_linux.Common.{ℕ, Bool, true, false, none, some, [], ◌∷◌, codes, done}
use pets_server_linux.Common.Int.{pos}
use pets_server_linux.Common.Decimal.{to_string}
use pets_server_linux.Sql.{Api, Client}
use pets_server_linux.Sql.Procedure.{Env}

-- A database that accepts every query and answers it with a set of one row of one column.
abbrev pub api : Api
api = record {
  Db = Bool;
  Res = Bool;
  real_query = λ db sql. (pos 0, db);
  store_result = λ db. (some true, db);
  affected_rows = λ db. 1;
  num_rows = λ r. 1;
  num_fields = λ r. 1;
  fetch_row = λ r. (some (some (codes "in a int") ∷ []), false);
  fetch_lengths = λ r. some (8 ∷ []);
  stmt_prepare = λ db sql. (pos 0, db);
  stmt_bind_param = λ db binds. (pos 0, db);
  stmt_execute = λ db. (pos 0, db);
  stmt_store_result = λ db. (pos 0, db);
  stmt_result_metadata = λ db. (none, db);
  stmt_affected_rows = λ db. 1;
  stmt_free_result = λ db. db;
  stmt_bind_result = λ db binds. (pos 0, db);
  stmt_fetch = λ db. (pos 0, db);
}

abbrev pub env : Env
env = record {
  api = api;
  Float = ℕ;
  Double = ℕ;
  print_float = λ x. to_string (pos x);
  print_double = λ x. to_string (pos x);
  strtof = λ s. 0;
  strtod = λ s. 0;
  object_text = λ s. s;
  int64_is_long_long = false;
  select_procedure_paramlist = λ db name. codes "select";
  run_callback = λ f qr c. done (qr, c);
}

abbrev pub client : Client api
client = record { mysql = true; mysql_stmt = true; db = true; results = []; next = 0 }
