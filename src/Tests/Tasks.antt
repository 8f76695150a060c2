-- ===== src/Tests/Tasks.antt =====
-- Concrete runs of the queue of tasks and of the thread that works on it.
use pets_server_linux.Common.{◌≡◌, ◌⊎◌, refl, some, List, [], ◌∷◌, done, arith, codes, ◌>>=◌, false}
use pets_server_linux.Common.Maps
use pets_server_linux.Sql.{QueryResult, new_result}
use pets_server_linux.Sql.Query.{release, execute_sql}
use pets_server_linux.Sql.Procedure.{new_helper}
use pets_server_linux.Sql.Queue.{SqlPack, Work, Loop, null, query_bind, common_type, drain}
use pets_server_linux.Sql.Queue.Order.{Accounts, drain-Accounts, drain-run_all, run_all, drained}
use pets_server_linux.Sql.Thread.{
  Thread, Reach, Refines, started, push, notify, rounded, loop_round, pushes, notifies, rounds,
  here, next, Reach-Refines, Reach-loop_round,
}
use pets_server_linux.Tests.Small.{env, client}

-- A query with binds, and a pack without arguments.
abbrev query : SqlPack env
query = record {
  pack_type = common_type;
  sentence = some (codes "select");
  arguments = query_bind [];
  sql_callback = some 9;
  param_nums = 0;
}

abbrev tasks : List (SqlPack env)
tasks = query ∷ record query { arguments = null } ∷ []

abbrev loop : Loop env
loop = record {
  queue = tasks;
  work = record {
    client = client;
    helper = new_helper env;
    called = [];
    freed_packs = 0;
    freed_arguments = 0;
  };
}

abbrev selected : QueryResult
selected = record new_result {
  res = some 0;
  sql = some (codes "select");
  nrow = 1;
  num_rows = 1;
  num_fields = 1;
}

abbrev worked : Work env
worked = record loop.work {
  client = record client { next = 1 };
  called = (9, selected) ∷ [];
  freed_packs = 1;
}

abbrev ended : Loop env
ended = record { queue = []; work = worked }

drain_tasks : drain env [] 3 loop ≡ done ended
unfolding drain execute_sql release Maps.find Maps.insert Maps.erase
drain_tasks = refl

drain-run_all_example : drain env [] 3 loop ≡ (run_all env [] tasks loop.work >>= drained env [])
drain-run_all_example = drain-run_all env [] 3 loop (omega arith)

drain-Accounts_example : (ended.queue ≡ []) × Accounts env [] loop.work tasks worked
drain-Accounts_example = drain-Accounts env [] 3 loop ended (omega arith) drain_tasks

-- A pack that is pushed, announced and run.
abbrev pushed_query : Thread env
pushed_query = push env [] query (started env [] loop.work)

abbrev announced : Thread env
announced = notify env [] pushed_query

abbrev rested : Thread env
rested = record announced {
  loop = record { queue = []; work = record worked { freed_packs = 1 } };
  taken = query ∷ [];
}

run_query : loop_round env [] announced ≡ done rested
unfolding loop_round rounded drain execute_sql release Maps.find Maps.insert Maps.erase push notify
run_query = refl

reached_announced : Reach env [] (started env [] loop.work) announced
unfolding push
reached_announced = next (next here (pushes query)) (notifies (omega arith))

Reach-Refines_example : Refines env [] loop.work rested
unfolding notify
Reach-Refines_example =
    Reach-Refines env [] loop.work rested (next reached_announced (rounds refl run_query))

Reach-loop_round_example :
    (announced.loop.queue ≡ [])
    ⊎ ((announced.waiting ≡ false)
        × (loop_round env [] announced ≡ (
            run_all env [] announced.loop.queue announced.loop.work >>= λ v.
            done (record announced {
              loop = record { queue = []; work = v };
              taken = announced.pushed;
            }))))
unfolding notify push
Reach-loop_round_example = Reach-loop_round env [] loop.work announced reached_announced (refl)
