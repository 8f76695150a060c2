-- ===== src/Sql/Query.antt =====
-- MysqlQuery.cpp: running a query or a prepared statement, and its result.
pub mod Ownership
pub mod Released
use pets_server_linux.Common.{
  ℕ, zero, suc, ◌+◌, ◌%◌, ◌^◌, Bool, true, false, ◌||◌, ◌&&◌, not, Option, none, some, List, [],
  ◌∷◌, Text, length, ◌==◌, if◌then◌else◌, Outcome, done, fail, ◌>>=◌, double_free, use_after_free,
}
use pets_server_linux.Common.Int.{ℤ, pos, negsuc, int32}
use pets_server_linux.Common.Maps
use pets_server_linux.Sql.{Api, Client, QueryResult, MysqlBind, Row, is_zero}

module _ (api : Api) where
  open api use {
    real_query, store_result, affected_rows, fetch_row, fetch_lengths, stmt_prepare,
    stmt_bind_param, stmt_execute, stmt_store_result, stmt_result_metadata, stmt_affected_rows,
    stmt_free_result, stmt_bind_result, stmt_fetch,
  }

  -- A result set that the library hands out gets a handle.
  unfoldable pub open_result : Option api.Res × api.Db → Client api → Option ℕ × Client api
  open_result (none, db) c = (none, record c { db = db })
  open_result (some r, db) c = (
    some c.next,
    record c { db = db; results = Maps.insert c.next r c.results; next = c.next + 1 },
  )

  -- mysql_free_result
  unfoldable pub free_result : ℕ → Client api → Outcome (Client api)
  free_result h c = elim (Maps.find h c.results) [
    | none ↦ fail double_free
    | some r ↦ done (record c { results = Maps.erase h c.results })
  ]

  -- The counts of a result set that has just been stored.
  abbrev pub rows_of : Option ℕ → Client api → ℕ → ℕ
  rows_of none c old = old
  rows_of (some h) c old = elim (Maps.find h c.results) [ none ↦ old | some r ↦ api.num_rows r ]

  abbrev pub fields_of : Option ℕ → Client api → ℕ → ℕ
  fields_of none c old = old
  fields_of (some h) c old = elim (Maps.find h c.results) [ none ↦ old | some r ↦ api.num_fields r ]

  -- What ExecuteSQL does after a query that succeeded.
  unfoldable pub keep_result :
      Text
      → Option QueryResult
      → Option ℕ
      → Client api
      → Outcome (ℤ × Option QueryResult × Client api)
  unfolding free_result
  keep_result sql (some qr) temp c = done (
    pos 0,
    some (record qr {
      sql = some sql;
      res = temp;
      nrow = affected_rows c.db;
      num_rows = rows_of temp c qr.num_rows;
      num_fields = fields_of temp c qr.num_fields;
    }),
    c,
  )
  keep_result sql none none c = done (pos 0, none, c)
  keep_result sql none (some h) c = do c' ← free_result h c; done (pos 0, none, c')

  -- MyQuery::ExecuteSQL. `none` is a null pointer.
  unfoldable pub execute_sql :
      Option Text → Option QueryResult → Client api → Outcome (ℤ × Option QueryResult × Client api)
  unfolding open_result keep_result
  execute_sql none qr c = done (negsuc 0, qr, c)
  execute_sql (some sql) qr c =
      if c.mysql
      then (let (result, db) = real_query c.db sql in
          if is_zero result
          then (let (temp, c') = open_result (store_result db) (record c { db = db }) in
              keep_result sql qr temp c')
          else done (result, qr, record c { db = db }))
      else done (negsuc 0, qr, c)

  -- MyQuery::ExecuteSQLEx
  unfoldable execute_sql_ex : Option Text → Client api → ℤ × Client api
  execute_sql_ex none c = (negsuc 0, c)
  execute_sql_ex (some sql) c =
      if c.mysql
      then (let (result, db) = real_query c.db sql in (result, record c { db = db }))
      else (negsuc 0, c)

  -- Parameters are bound only if there are any.
  abbrev bind_params : List MysqlBind → api.Db → ℤ × api.Db
  bind_params [] db = (pos 0, db)
  bind_params (b ∷ bs) db = stmt_bind_param db (b ∷ bs)

  -- The steps of ExecuteStmt up to the stored result: each goes on if it answers 0.
  unfoldable pub run_stmt : Text → List MysqlBind → api.Db → ℤ × api.Db
  run_stmt sql args db =
      let (prepared, db1) = stmt_prepare db sql in
      if is_zero prepared
      then (let (bound, db2) = bind_params args db1 in
          if is_zero bound
          then (let (executed, db3) = stmt_execute db2 in
              if is_zero executed then stmt_store_result db3 else (executed, db3))
          else (bound, db2))
      else (prepared, db1)

  -- MyQuery::ExecuteStmt
  unfoldable pub execute_stmt :
      Option Text → QueryResult → List MysqlBind → Client api → ℤ × QueryResult × Client api
  unfolding run_stmt open_result
  execute_stmt none qr args c = (negsuc 0, qr, c)
  execute_stmt (some sql) qr args c =
      if c.mysql_stmt
      then (let (result, db) = run_stmt sql args c.db in
          if is_zero result
          then (let (meta, c') = open_result (stmt_result_metadata db) (record c { db = db }) in
              (
                pos 0,
                record qr {
                  sql = some sql;
                  stmt = true;
                  res = meta;
                  nrow = stmt_affected_rows c'.db;
                  num_rows = rows_of meta c' qr.num_rows;
                  num_fields = fields_of meta c' qr.num_fields;
                },
                c',
              ))
          else (result, qr, record c { db = db }))
      else (negsuc 0, qr, c)

  -- QueryResult::Release. The handles stay in the result.
  unfoldable pub release : QueryResult → Client api → Outcome (Client api)
  unfolding free_result
  release qr c = do
    c' ← elim qr.res [ none ↦ done c | some h ↦ free_result h c ]
    done (if qr.stmt then record c' { db = stmt_free_result c'.db } else c')

  -- QueryResult::AffectedRows: a my_ulonglong returned as int.
  abbrev pub affected : QueryResult → ℤ
  affected qr = int32 (qr.nrow % 2 ^ 32)

  -- QueryResult::FetchResult()
  unfoldable pub fetch_result : QueryResult → Client api → Outcome (ℤ × QueryResult × Client api)
  fetch_result qr c = elim qr.res [
    | none ↦ done (pos 1, qr, c)
    | some h ↦
        if qr.num_rows == 0 || qr.num_fields == 0
        then done (pos 1, qr, c)
        else (elim (Maps.find h c.results) [
          | none ↦ fail use_after_free
          | some r ↦
              let (row, r') = fetch_row r in
              let lens = fetch_lengths r' in
              done (
                elim row [
                  | none ↦ pos 1
                  | some fields ↦ elim lens [ none ↦ pos 1 | some ls ↦ pos 0 ]
                ],
                record qr { rows = row; lens = lens },
                record c { results = Maps.insert h r' c.results },
              )
        ])
  ]

  -- QueryResult::FetchResult(QueryBind&)
  unfoldable pub fetch_result_bind : List MysqlBind → QueryResult → Client api → ℤ × Client api
  fetch_result_bind binds qr c =
      if length binds == qr.num_fields
      then (let (result, db) = stmt_bind_result c.db binds in
          if is_zero result
          then (let (fetched, db') = stmt_fetch db in (fetched, record c { db = db' }))
          else (result, record c { db = db }))
      else (pos 1, c)
