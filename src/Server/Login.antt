-- ===== src/Server/Login.antt =====
-- The login from PetsServer::start (PetsServer.cpp) to its callback Pet::OnMysqlLoginMsg
-- (ObjectModule/Pet.cpp), through ExecuteSentence on the SQL thread (MySqlModule/MysqlQuery.cpp).
use pets_server_linux.Common.{
  ℕ, zero, suc, ◌<◌, ◌≡◌, ◌≢◌, inl, inr, refl, ap, ◌∙◌, subst, true, false, Bool-cases, Option,
  none, some, List, [], ◌∷◌, ◌++◌, Text, length, if◌then◌else◌, Outcome, done, fail, ◌>>=◌,
  bad_function_call, use_after_free, ◌⊎◌, Bool, Ensures, Ensures-after, Ensures-if, Ensures-end,
  ◌||◌, arith,
}
use pets_server_linux.Common.Int.{ℤ, pos, negsuc}
use pets_server_linux.Common.Maps
use pets_server_linux.Sql.{Client, QueryResult, new_result, MysqlBind, is_zero, string}
use pets_server_linux.Sql.Query.{
  execute_stmt, fetch_result_bind, release, free_result, affected, open_result, run_stmt,
}
use pets_server_linux.Sql.Query.Ownership.{release_twice}
use pets_server_linux.Sql.Procedure.{Env}
use pets_server_linux.Sql.Queue.{Work, execute_sentence, call_back, leave}
use pets_server_linux.Sql.Login.{
  Fetches, silent, on_mysql_login_msg, role_binds, fetch_role, Rows, verdict,
  on_mysql_login_msg-Rows, store, wrote,
}
use pets_server_linux.Server.Start.{
  Host, login_task, select_petslogin_stmt, on_mysql_login_msg_number,
}

module _ (env : Env) (f : Fetches env.api) (fuel : ℕ) where
  -- Pet::TESTFUNC only logs.
  unfoldable pub testfunc : QueryResult → Client env.api → Outcome (QueryResult × Client env.api)
  testfunc qr c = done (qr, c)

  fetch_result_bind-results :
      (binds : List MysqlBind) (qr : QueryResult) (c : Client env.api)
      → (fetch_result_bind env.api binds qr c).1.results ≡ c.results
  unfolding fetch_result_bind
  fetch_result_bind-results binds qr c = ground arith

  -- The loop over the rows leaves the result sets alone, and so does the callback.
  fetch_role-results :
      (n : ℕ) (binds : List MysqlBind) (qr : QueryResult) (role : ℤ) (c : Client env.api)
      → Ensures (λ r. r.1.results ≡ c.results) (fetch_role env.api f n binds qr role c)
  unfolding fetch_role
  fetch_role-results zero binds qr role c = record { of_done = λ r e. cc }
  fetch_role-results (suc n) binds qr role c =
      let kept = fetch_result_bind-results binds qr c in
      let c' = (fetch_result_bind env.api binds qr c).1 in
      let now = store (wrote env.api f binds qr c) role in
      let later = fetch_role-results n binds qr now c' in
      Ensures-if (is_zero (fetch_result_bind env.api binds qr c).0) _ _
        (λ good.
          Ensures-if (f.null_flag || is_zero now) _ _
            (λ more. record { of_done = λ r e. later.of_done r e ∙ kept })
            (λ found. Ensures-end _ kept))
        (λ failed. Ensures-end _ kept)

  on_mysql_login_msg-results :
      (qr : QueryResult) (c : Client env.api)
      → Ensures (λ r. r.1.results ≡ c.results) (on_mysql_login_msg env.api f fuel qr c)
  unfolding on_mysql_login_msg
  on_mysql_login_msg-results qr c =
      Ensures-if (is_zero (affected env.api qr)) _ _ (λ nothing_found. Ensures-end _ refl)
        (λ found.
          let loop = fetch_role-results fuel (role_binds env.api f) qr (pos 0) c in
          Ensures-after (fetch_role env.api f fuel (role_binds env.api f) qr (pos 0) c) _
            (λ r e. Ensures-end _ (loop.of_done r e)))

  -- A result that ExecuteStmt has just made can be released, whatever was fetched meanwhile, and then
  -- the open result sets are those from before.
  Closes : Client env.api → QueryResult → Client env.api → Type 0
  Closes before qr c =
      (d : Client env.api)
      → d.results ≡ c.results
      → (d' : Client env.api) × (release env.api qr d ≡ done d')
        × ((k : ℕ) → Maps.find k d'.results ≡ Maps.find k before.results)

  open_result-Closes :
      (o : Option env.api.Res) (db : env.api.Db) (c : Client env.api) (qr : QueryResult)
      → Maps.find c.next c.results ≡ none
      → qr.res ≡ (open_result env.api (o, db) c).0
      → Closes c qr (open_result env.api (o, db) c).1
  unfolding open_result release free_result Closes
  open_result-Closes none db c qr unused e d same =
      let d' : Client env.api =
        if qr.stmt then record d { db = env.api.stmt_free_result d.db } else d in
      (d', ground (arith, e), λ k. ground (arith, same))
  open_result-Closes (some r) db c qr unused e d same =
      let there : Maps.find c.next d.results ≡ some r =
        ap (Maps.find c.next) same ∙ ground (arith, Maps.find-insert c.next c.next r c.results) in
      let (d', released, closed, again) = release_twice env.api qr d c.next r e there in
      (
        d',
        released,
        λ k. ground (
          arith,
          closed k,
          e,
          ap (Maps.find k) same,
          Maps.find-insert c.next k r c.results,
          unused,
        ),
      )

  -- ExecuteStmt, if it answers 0.
  execute_stmt-Closes :
      (sql : Option Text) (binds : List MysqlBind) (c c1 : Client env.api) (qr : QueryResult)
      → Maps.find c.next c.results ≡ none
      → execute_stmt env.api sql new_result binds c ≡ (pos 0, qr, c1)
      → Closes c qr c1
  unfolding execute_stmt Closes
  execute_stmt-Closes none binds c c1 qr unused e = cc
  execute_stmt-Closes (some sql) binds c c1 qr unused e = elim (Bool-cases c.mysql_stmt) [
    | inr off ↦ cc (simp off at e)
    | inl on ↦ elim (Bool-cases (is_zero (run_stmt env.api sql binds c.db).0)) [
      | inr bad ↦
          absurd (
            code_zero (run_stmt env.api sql binds c.db).0 bad (ap (λ r. r.0) (simp (on, bad) at e)))
      | inl good ↦
          let db = (run_stmt env.api sql binds c.db).1 in
          subst (λ (r : ℤ × QueryResult × Client env.api). Closes c r.1 r.2) (simp (on, good) at e)
            (open_result-Closes (env.api.stmt_result_metadata db).0
              (env.api.stmt_result_metadata db).1 (record c { mysql_stmt = true; db = db }) _ unused
              refl)
    ]
  ]
    where
      code_zero : (z : ℤ) → is_zero z ≡ false → z ≢ pos 0
      code_zero (pos zero) h = cc
      code_zero (pos (suc n)) h = λ k. cc
      code_zero (negsuc n) h = λ k. cc

  -- `alive` says whether the pet that start binds to the callbacks is still there when they run: it is
  -- a local of start, and start returns when it has pushed the tasks.
  module _ (alive : Bool) where
    -- The callbacks that start binds, by their numbers; OnMysqlLoginMsg with fuel for its loop. To call a
    -- member function of a pet that is gone is undefined.
    unfoldable pub pet_callback :
        ℕ → QueryResult → Client env.api → Outcome (QueryResult × Client env.api)
    unfolding on_mysql_login_msg testfunc
    pet_callback zero qr c =
        if alive
        then (do (answer, c') ← on_mysql_login_msg env.api f fuel qr c; done (qr, c'))
        else fail use_after_free
    pet_callback (suc zero) qr c = if alive then testfunc qr c else fail use_after_free
    pet_callback (suc (suc n)) qr c = fail bad_function_call

    -- The program's callbacks in place of any.
    abbrev pub pets_env : Env
    pets_env = record {
      api = env.api;
      Float = env.Float;
      Double = env.Double;
      print_float = env.print_float;
      print_double = env.print_double;
      strtof = env.strtof;
      strtod = env.strtod;
      object_text = env.object_text;
      int64_is_long_long = env.int64_is_long_long;
      select_procedure_paramlist = env.select_procedure_paramlist;
      run_callback = pet_callback;
    }

    -- The two texts that start binds.
    abbrev pub login_args : Host pets_env → List MysqlBind
    login_args host =
        record { buffer_type = string; buffer = host.test_address; buffer_length = 4; length = 4 }
        ∷ record {
          buffer_type = string;
          buffer = host.number_address;
          buffer_length = 9;
          length = 9;
        }
        ∷ []

    -- The login task that start pushes, run by the SQL thread: its statement was accepted and its rows
    -- were read into roleID. If the pet is still there, it ends, the callback 0 was called once with the
    -- result and gave the verdict of the rows, and no result set stays open; if start has returned, the
    -- call of the pet is undefined.
    pub execute_sentence-login_task :
        (db_name : Text) (host : Host pets_env) (w : Work pets_env) (qr : QueryResult)
        (c1 : Client env.api) (vs : List (Option ℤ))
        → Maps.find w.client.next w.client.results ≡ none
        → execute_stmt env.api (some select_petslogin_stmt) new_result (login_args host) w.client
          ≡ (pos 0, qr, c1)
        → Rows env.api f (role_binds env.api f) qr c1 vs
        → length vs < fuel
        → ((alive ≡ true)
            × ((c2 c3 : Client env.api) × (on_mysql_login_msg env.api f fuel qr c1
                  ≡ done
                      (if is_zero (affected env.api qr) then silent else verdict env.api f vs, c2))
                × (execute_sentence pets_env db_name (login_task pets_env host) w
                    ≡ done (record w {
                      client = c3;
                      called = w.called ++ (on_mysql_login_msg_number, qr) ∷ [];
                    }))
                × ((k : ℕ) → Maps.find k c3.results ≡ Maps.find k w.client.results)))
          ⊎ ((alive ≡ false)
              × (execute_sentence pets_env db_name (login_task pets_env host) w
                  ≡ fail use_after_free))
    unfolding execute_sentence call_back leave pet_callback Closes
    execute_sentence-login_task db_name host w qr c1 vs unused ran rows enough =
        elim (Bool-cases alive) [
          | inr gone ↦ inr (gone, rw (ran, gone) refl)
          | inl there ↦
              let (c2, answered) = on_mysql_login_msg-Rows env.api f fuel qr c1 vs rows enough in
              let kept = (on_mysql_login_msg-results qr c1).of_done _ answered in
              let (c3, released, same) =
                execute_stmt-Closes (some select_petslogin_stmt) (login_args host) w.client c1 qr
                  unused ran c2 kept in
              inl (there, (c2, c3, answered, rw (ran, there, answered, released) refl, same))
        ]
