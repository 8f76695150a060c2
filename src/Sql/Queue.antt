-- ===== src/Sql/Queue.antt =====
-- MysqlQuery.cpp: the queue of SQL tasks and the thread that runs them.
pub mod Counts
pub mod Order
use pets_server_linux.Common.{
  ℕ, zero, suc, ◌+◌, ◌%◌, ◌^◌, Bool, true, false, Option, none, some, List, [], ◌∷◌, ◌++◌, Text,
  get_elem?, Outcome, done, fail, stuck, ◌>>=◌, if◌then◌else◌, out_of_bounds, bad_function_call,
  null_access,
}
use pets_server_linux.Common.Int.{ℤ}
use pets_server_linux.Sql.{Api, Client, MysqlBind, QueryResult, new_result, is_zero}
use pets_server_linux.Sql.Query.{execute_sql, execute_stmt, release}
use pets_server_linux.Sql.Procedure.{Env, Any, SqlParam, ProcedureHelper, param_at, set_param}
use pets_server_linux.Sql.Procedure.Prepare.{prepare}
use pets_server_linux.Sql.Procedure.Execute.{execute, clear, present}

-- SQL_PACK_TYPE; `undefined` stands for every other value.
pub data PackType : Type 0 where
  common_type stmt_type procedure_type undefined : PackType

-- The union of SqlPack, as the pack's type says: both members are one pointer.
pub data Arguments (env : Env) : Type 0 where
  null : Arguments env
  query_bind : List MysqlBind → Arguments env
  any_arr : List (Any env) → Arguments env

-- SqlPack; the callback is given by its number, `none` is an empty std::function.
pub record SqlPack (env : Env) : Type 0 where
  pub pack_type : PackType
  pub sentence : Option Text
  pub arguments : Arguments env
  pub sql_callback : Option ℕ
  pub param_nums : ℕ

-- What the thread works on: the client, the static helper of ExecuteProcedure, and what was done: the
-- calls of the callbacks with the result each saw, and how many packs and arguments were freed.
pub record Work (env : Env) : Type 0 where
  pub client : Client env.api
  pub helper : ProcedureHelper env
  pub called : List (ℕ × QueryResult)
  pub freed_packs : ℕ
  pub freed_arguments : ℕ

-- MyQuery's state for the thread; the thread holds the queue's lock while it executes.
pub record Loop (env : Env) : Type 0 where
  pub queue : List (SqlPack env)
  pub work : Work env

module _ (env : Env) (db_name : Text) where
  -- MyQuery::PushSqlPack
  unfoldable pub push_sql_pack : SqlPack env → Loop env → Loop env
  push_sql_pack pack l = record l { queue = l.queue ++ pack ∷ [] }

  -- The pack that Pet::PrepareSQL makes; its number of parameters is a BYTE.
  unfoldable pub new_pack : PackType → Option Text → Arguments env → ℕ → Option ℕ → SqlPack env
  new_pack type sentence bind bind_nums cb = record {
    pack_type = type;
    sentence = sentence;
    arguments = bind;
    sql_callback = cb;
    param_nums = bind_nums % 2 ^ 8;
  }

  -- MyQuery::GetSqlPack
  unfoldable pub get_sql_pack : Loop env → Option (SqlPack env × Loop env)
  get_sql_pack l = elim l.queue [
    | [] ↦ none
    | pack ∷ packs ↦ some (pack, record l { queue = packs })
  ]

  -- pack->sql_callback(&qr): the callback can change the result and, by fetching, the connection.
  unfoldable pub call_back : SqlPack env → QueryResult → Work env → Outcome (QueryResult × Work env)
  call_back pack qr l = elim pack.sql_callback [
    | none ↦ fail bad_function_call
    | some f ↦ (do
      (qr', c) ← env.run_callback f qr l.client
      done (qr', record l { client = c; called = l.called ++ (f, qr) ∷ [] }))
  ]

  -- A member of the union that is read.
  unfoldable pub binds_of : Arguments env → Outcome (List MysqlBind)
  binds_of (query_bind binds) = done binds
  binds_of (any_arr values) = fail out_of_bounds
  binds_of null = fail null_access

  unfoldable pub values_of : Arguments env → Outcome (List (Any env))
  values_of (any_arr values) = done values
  values_of (query_bind binds) = fail out_of_bounds
  values_of null = done []

  -- parameters[param].bindValue = any_arr[param], for `left` of them from `i`.
  unfoldable pub set_values :
      ℕ → ℕ → List (Any env) → ProcedureHelper env → Outcome (ProcedureHelper env)
  unfolding param_at set_param
  set_values zero i values h = done h
  set_values (suc left) i [] h = fail out_of_bounds
  set_values (suc left) i (v ∷ values) h = do
    p ← param_at env h i
    h' ← set_param env h i (record p { bind_value = v })
    set_values left (i + 1) values h'

  -- pdcHelper.Clear()
  unfoldable pub clear_helper : ProcedureHelper env → Client env.api → Work env → Outcome (Work env)
  unfolding clear
  clear_helper h c l = do (h', c') ← clear env h c; done (record l { helper = h'; client = c' })

  -- MyQuery::ExecuteProcedure
  unfoldable pub execute_procedure : SqlPack env → Text → Work env → Outcome (Bool × Work env)
  unfolding prepare execute set_values clear_helper call_back values_of
  execute_procedure pack sentence l = do
    (prepared, h1, c1) ← prepare env db_name sentence l.helper l.client
    (if is_zero prepared
        then (do
          values ← values_of pack.arguments
          h2 ← set_values pack.param_nums 0 values h1
          (result, h3, c2) ← execute env h2 c1
          (if is_zero result
              then (do
                (qr, l') ← call_back pack h3.result (record l { client = c2 })
                l'' ← clear_helper (record h3 { result = qr }) l'.client l'
                done (true, l''))
              else (clear_helper h3 c2 l >>= λ l'. done (false, l'))))
        else (clear_helper h1 c1 l >>= λ l'. done (false, l')))

  -- A local result is released when the function returns.
  unfoldable pub leave : QueryResult → Work env → Outcome (Work env)
  unfolding release
  leave qr l = do c ← release env.api qr l.client; done (record l { client = c })

  abbrev leave_with : QueryResult × Work env → Outcome (Work env)
  leave_with (qr, l) = leave qr l

  -- MyQuery::ExecuteSentence
  unfoldable pub execute_sentence : SqlPack env → Work env → Outcome (Work env)
  unfolding execute_sql execute_stmt execute_procedure call_back leave binds_of present
  execute_sentence pack l = elim pack.pack_type [
    | common_type ↦ (do
      (result, kept, c) ← execute_sql env.api pack.sentence (some new_result) l.client
      let qr : QueryResult = elim kept [ none ↦ new_result | some q ↦ q ]
      let l1 : Work env = record l { client = c }
      (if is_zero result then (call_back pack qr l1 >>= leave_with) else leave qr l1))
    | stmt_type ↦ (do
      binds ← binds_of pack.arguments
      let (result, qr, c) = execute_stmt env.api pack.sentence new_result binds l.client
      let l1 : Work env = record l { client = c }
      (if is_zero result then (call_back pack qr l1 >>= leave_with) else leave qr l1))
    | procedure_type ↦ (do
      sentence ← present pack.sentence
      (answer, l1) ← execute_procedure pack sentence l
      done l1)
    | undefined ↦ done l
  ]

  abbrev pub is_null : Arguments env → Bool
  is_null null = true
  is_null (query_bind binds) = false
  is_null (any_arr values) = false

  -- Whether the loop frees a pack's arguments: the `else` belongs to the inner `if`, so that a
  -- procedure's are freed and no others.
  abbrev pub freed_of : SqlPack env → ℕ
  freed_of pack = elim pack.pack_type [
    | procedure_type ↦ if is_null pack.arguments then 0 else 1
    | common_type ↦ 0
    | stmt_type ↦ 0
    | undefined ↦ 0
  ]

  unfoldable pub free_pack : SqlPack env → Work env → Work env
  free_pack pack l = record l {
    freed_packs = l.freed_packs + 1;
    freed_arguments = l.freed_arguments + freed_of pack;
  }

  -- The inner loop of MysqlLoop, for fuel: a pack without arguments is taken from the queue and
  -- dropped.
  unfoldable pub drain : ℕ → Loop env → Outcome (Loop env)
  unfolding get_sql_pack execute_sentence free_pack
  drain zero l = stuck
  drain (suc fuel) l = elim (get_sql_pack l) [
    | none ↦ done l
    | some (pack, l1) ↦
        let skip = drain fuel l1 in
        if is_null pack.arguments
        then skip
        else (execute_sentence pack l1.work >>= λ w.
            drain fuel (record l1 { work = free_pack pack w }))
  ]
