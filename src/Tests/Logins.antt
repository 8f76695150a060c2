-- ===== src/Tests/Logins.antt =====
-- The login task of start, on a database whose answer is a list of numbers.
use pets_server_linux.Common.{
  use_after_free, fail, ◌⊎◌, Bool, false, true, ℕ, ◌≡◌, refl, Bool, true, false, Option, none, some,
  List, [], ◌∷◌, done, arith, length, if◌then◌else◌,
}
use pets_server_linux.Common.Int.{ℤ, pos}
use pets_server_linux.Common.Maps
use pets_server_linux.Sql.{Api, Client, QueryResult, new_result, is_zero}
use pets_server_linux.Sql.Query.{affected, fetch_result_bind, execute_stmt}
use pets_server_linux.Sql.Procedure.{Env, new_helper}
use pets_server_linux.Sql.Queue.{Work, execute_sentence}
use pets_server_linux.Sql.Login.{
  silent, accepted, Fetches, Rows, over, row, wrote, role_binds, verdict, on_mysql_login_msg,
}
use pets_server_linux.Server.Start.{
  Host, login_task, select_petslogin_stmt, on_mysql_login_msg_number,
}
use pets_server_linux.Server.Login.{pets_env, login_args, execute_sentence-login_task}

-- A statement whose answer is a list of numbers, NULL for `none`.
abbrev row_api : Api
row_api = record {
  Db = List (Option ℤ);
  Res = Bool;
  real_query = λ db sql. (pos 0, db);
  store_result = λ db. (none, db);
  affected_rows = λ db. 1;
  num_rows = λ r. 1;
  num_fields = λ r. 1;
  fetch_row = λ r. (none, r);
  fetch_lengths = λ r. none;
  stmt_prepare = λ db sql. (pos 0, db);
  stmt_bind_param = λ db binds. (pos 0, db);
  stmt_execute = λ db. (pos 0, db);
  stmt_store_result = λ db. (pos 0, db);
  stmt_result_metadata = λ db. (some true, db);
  stmt_affected_rows = λ db. length db;
  stmt_free_result = λ db. db;
  stmt_bind_result = λ db binds. (pos 0, db);
  stmt_fetch = λ db. elim db [ [] ↦ (pos 100, []) | v ∷ vs ↦ (pos 0, vs) ];
}

abbrev fetches : Fetches row_api
fetches = record {
  written = λ db. elim db [ [] ↦ none | v ∷ vs ↦ v ];
  role_address = 96;
  null_flag = false;
}

abbrev row_client : Client row_api
row_client = record {
  mysql = true;
  mysql_stmt = true;
  db = none ∷ some (pos 7) ∷ some (pos 0) ∷ [];
  results = [];
  next = 0;
}

-- After the statement, whose metadata is a set of its own.
abbrev ran_client : Client row_api
ran_client = record row_client { results = (0, true) ∷ []; next = 1 }

abbrev login_result : QueryResult
login_result = record new_result {
  stmt = true;
  res = some 0;
  sql = some select_petslogin_stmt;
  nrow = 3;
  num_rows = 1;
  num_fields = 1;
}

fetched_numbers :
    Rows row_api fetches
      (role_binds row_api fetches)
      login_result
      ran_client
      (none ∷ some (pos 7) ∷ some (pos 0) ∷ [])
unfolding fetch_result_bind wrote
fetched_numbers = row refl refl (row refl refl (row refl refl (over refl refl)))

login_accepted :
    (c' : Client row_api) × (on_mysql_login_msg row_api fetches 4 login_result row_client
      ≡ done (accepted, c'))
unfolding on_mysql_login_msg
login_accepted = (record row_client { db = some (pos 0) ∷ [] }, refl)

abbrev row_env : Env
row_env = record {
  api = row_api;
  Float = ℕ;
  Double = ℕ;
  print_float = λ x. [];
  print_double = λ x. [];
  strtof = λ s. 0;
  strtod = λ s. 0;
  object_text = λ s. s;
  int64_is_long_long = false;
  select_procedure_paramlist = λ db name. [];
  run_callback = λ f qr c. done (qr, c);
}

abbrev row_host : Host (pets_env row_env fetches 4 true)
row_host = record {
  setup = record {
    mysql_init = true;
    set_options = λ db. db;
    real_connect = λ host user password name port db. (true, db);
    stmt_init = true;
  };
  has_loop = true;
  test_address = 64;
  number_address = 80;
}

abbrev row_work : Work (pets_env row_env fetches 4 true)
row_work = record {
  client = row_client;
  helper = new_helper (pets_env row_env fetches 4 true);
  called = [];
  freed_packs = 0;
  freed_arguments = 0;
}

stmt_ran :
    execute_stmt row_api
      (some select_petslogin_stmt)
      new_result
      (login_args row_env fetches 4 true row_host)
      row_client
    ≡ (pos 0, login_result, ran_client)
unfolding execute_stmt Maps.find Maps.insert
stmt_ran = refl

execute_sentence-login_task_example :
    ((◌≡◌ {A = Bool} true true)
      × ((c2 c3 : Client row_api) × (on_mysql_login_msg row_api fetches 4 login_result ran_client
            ≡ done (
              if is_zero (affected row_api login_result)
                  then silent
                  else verdict row_api fetches (none ∷ some (pos 7) ∷ some (pos 0) ∷ []),
              c2,
            ))
          × (execute_sentence
                (pets_env row_env fetches 4 true)
                []
                (login_task (pets_env row_env fetches 4 true) row_host)
                row_work
              ≡ done (record row_work {
                client = c3;
                called = (on_mysql_login_msg_number, login_result) ∷ [];
              }))
          × ((k : ℕ) → Maps.find k c3.results ≡ Maps.find k row_client.results)))
    ⊎ ((◌≡◌ {A = Bool} true false)
        × (execute_sentence
              (pets_env row_env fetches 4 true)
              []
              (login_task (pets_env row_env fetches 4 true) row_host)
              row_work
            ≡ fail use_after_free))
unfolding Maps.find
execute_sentence-login_task_example =
    execute_sentence-login_task row_env fetches 4 true [] row_host row_work login_result ran_client
      (none ∷ some (pos 7) ∷ some (pos 0) ∷ []) refl stmt_ran fetched_numbers (omega arith)
