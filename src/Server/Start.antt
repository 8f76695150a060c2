-- ===== src/Server/Start.antt =====
-- PetsServer.cpp and main.cpp: InitServer, start, and the program's result.
use pets_server_linux.Common.{
  ℕ, ◌≡◌, inl, inr, refl, ap, ◌∙◌, Bool, true, false, Bool-cases, some, List, [], ◌∷◌, ◌++◌,
  append_assoc, Text, codes, length, if◌then◌else◌, Outcome, done, ◌>>=◌,
}
use pets_server_linux.Common.Int.{ℤ, pos, negsuc}
use pets_server_linux.Dispatcher.{Dispatcher}
use pets_server_linux.Object.Handlers.{Log}
use pets_server_linux.Server.{bind_callbacks}
use pets_server_linux.Sql.{Client, MysqlBind, string}
use pets_server_linux.Sql.Binds.{new_query_bind, bind_string}
use pets_server_linux.Sql.Connect.{Setup, DbInfo, init}
use pets_server_linux.Sql.Procedure.{Env, Any, empty, chars}
use pets_server_linux.Sql.Queue.{SqlPack, stmt_type, procedure_type, query_bind, any_arr, new_pack}

-- What the start calls of muduo, of the threads and of Pet::PrepareSQL, in its order.
pub data Call (env : Env) : Type 0 where
  set_connection_callback set_message_callback : Call env
  set_thread_num : ℕ → Call env
  main_thread mysql_thread : Call env
  sleep_for_seconds : ℕ → Call env
  server_start : Call env
  run_every : ℕ → Call env
  prepare_sql : SqlPack env → Call env
  event_loop : Call env

pub record Boot (env : Env) : Type 0 where
  pub calls : List (Call env)
  pub dispatcher : Dispatcher Log
  pub info : DbInfo
  pub client : Client env.api

-- DB_USERNAME, DB_PASSWORD, DB_IPADDRESS and DB_DBNAME are the same text.
abbrev db_text : Text
db_text = codes "XXX"

-- DB_IPPORT
abbrev db_ipport : ℕ
db_ipport = 3306

abbrev pub select_petslogin_stmt : Text
select_petslogin_stmt = codes "select StaticID from Pets where Account=? and Password=?"

-- The callbacks of the two packs, as numbers.
abbrev pub on_mysql_login_msg_number : ℕ
on_mysql_login_msg_number = 0

abbrev testfunc_number : ℕ
testfunc_number = 1

-- The event loop that getLoop gives, if any, and the addresses of two string literals.
pub record Host (env : Env) : Type 0 where
  pub setup : Setup env.api
  pub has_loop : Bool
  pub test_address : ℕ
  pub number_address : ℕ

module _ (env : Env) (host : Host env) where
  open host use {setup, has_loop, test_address, number_address}

  abbrev pub called : List (Call env) → Boot env → Boot env
  called cs b = record b { calls = b.calls ++ cs }

  -- PetsServer::InitServer
  unfoldable pub init_server : Boot env → Bool × Boot env
  unfolding bind_callbacks init
  init_server b =
      let (ok, info, client) =
        init env.api setup db_text db_text db_text db_text db_ipport b.info b.client in
      (
        ok,
        record (called (set_connection_callback ∷ set_message_callback ∷ set_thread_num 20 ∷ [])
            b) { dispatcher = bind_callbacks b.dispatcher; info = info; client = client },
      )

  -- QueryBind(2), with both parameters bound to string literals.
  unfoldable login_binds : Outcome (List MysqlBind)
  unfolding new_query_bind bind_string
  login_binds = do
    q1 ← bind_string test_address (length (codes "TEST")) 0 (new_query_bind 2)
    q2 ← bind_string number_address (length (codes "123456789")) 1 q1
    done q2.binds

  -- What start does behind server.start(), with a loop.
  unfoldable first_tasks : Boot env → Outcome (Boot env)
  unfolding login_binds new_pack
  first_tasks b = do
    binds ← login_binds
    let login : SqlPack env =
        new_pack env db_text stmt_type (some select_petslogin_stmt) (query_bind binds) 2
          (some on_mysql_login_msg_number)
    let values : List (Any env) = chars (some (codes "TEST")) ∷ empty ∷ []
    let test : SqlPack env =
        new_pack env db_text procedure_type (some (codes "p_test")) (any_arr values) 2
          (some testfunc_number)
    done (called (run_every 2 ∷ prepare_sql login ∷ prepare_sql test ∷ []) b)

  -- PetsServer::start. `new std::thread` gives no null pointer.
  unfoldable pub start : Boot env → Outcome (Bool × Boot env)
  unfolding init_server first_tasks
  start b =
      let (ok, b1) = init_server b in
      if ok
      then (let b2 : Boot env =
            called (main_thread ∷ mysql_thread ∷ sleep_for_seconds 1 ∷ server_start ∷ []) b1 in
          if has_loop then (do b3 ← first_tasks b2; done (true, b3)) else done (false, b2))
      else done (false, b1)

  -- main, up to the end of the event loop
  unfoldable pub main : Boot env → Outcome (ℤ × Boot env)
  unfolding start
  main b = do
    (ok, b1) ← start b
    if ok then done (pos 0, called (event_loop ∷ []) b1) else done (negsuc 0, b1)

  abbrev pub connected : Boot env → Bool
  connected b = (init env.api setup db_text db_text db_text db_text db_ipport b.info b.client).0

  -- The two tasks: a statement with two bound texts, and a procedure with two values.
  abbrev pub login_task : SqlPack env
  login_task = record {
    pack_type = stmt_type;
    sentence = some select_petslogin_stmt;
    arguments = query_bind (
        record { buffer_type = string; buffer = test_address; buffer_length = 4; length = 4 }
        ∷ record { buffer_type = string; buffer = number_address; buffer_length = 9; length = 9 }
        ∷ []);
    sql_callback = some on_mysql_login_msg_number;
    param_nums = 2;
  }

  abbrev test_task : SqlPack env
  test_task = record {
    pack_type = procedure_type;
    sentence = some (codes "p_test");
    arguments = any_arr (chars (some (codes "TEST")) ∷ empty ∷ []);
    sql_callback = some testfunc_number;
    param_nums = 2;
  }

  abbrev pub threads_started : List (Call env)
  threads_started = main_thread ∷ mysql_thread ∷ sleep_for_seconds 1 ∷ server_start ∷ []

  abbrev all_started : List (Call env)
  all_started =
      threads_started
      ++ run_every 2 ∷ prepare_sql login_task ∷ prepare_sql test_task ∷ event_loop ∷ []

  -- What a run of main with a result has done, by its answer.
  data Started (b b' : Boot env) : ℤ → Type 0 where
    no_database : connected b ≡ false → b' ≡ (init_server b).1 → Started b b' (negsuc 0)
    no_event_loop :
        connected b ≡ true
        → has_loop ≡ false
        → b' ≡ called threads_started (init_server b).1
        → Started b b' (negsuc 0)
    runs :
        connected b ≡ true
        → has_loop ≡ true
        → b' ≡ called all_started (init_server b).1
        → Started b b' (pos 0)

  flat :
      (xs : List (Call env))
      → ((xs ++ threads_started)
            ++ (run_every 2 ∷ prepare_sql login_task ∷ prepare_sql test_task ∷ []))
          ++ event_loop ∷ []
        ≡ xs ++ all_started
  flat xs = append_assoc (xs ++ threads_started) _ _ ∙ append_assoc xs threads_started _

  -- main without the destructor: with no connection to the database it answers -1 and no thread was
  -- started; with no event loop it answers -1 while both threads run; else it answers 0, and after
  -- the threads were started exactly two tasks were handed to PrepareSQL, the login and the test.
  main-Started :
      (b : Boot env) → (r : ℤ) × (b' : Boot env) × (main b ≡ done (r, b')) × Started b b' r
  unfolding main start init_server first_tasks login_binds new_pack
  main-Started b = elim (Bool-cases (connected b)) [
    | inr refused ↦ (negsuc 0, (init_server b).1, rw refused refl, no_database refused refl)
    | inl up ↦ elim (Bool-cases has_loop) [
      | inr missing ↦ (
        negsuc 0,
        called threads_started (init_server b).1,
        rw (up, missing) refl,
        no_event_loop up missing refl,
      )
      | inl there ↦ (
        pos 0,
        called all_started (init_server b).1,
        rw (up, there)
            (ap (λ cs. done (pos 0, record (init_server b).1 { calls = cs }))
              (flat (init_server b).1.calls)),
        runs up there refl,
      )
    ]
  ]
