-- ===== src/Sql/Query/Ownership.antt =====
-- Which result sets are open: what a query opens, what Release frees, and that a second Release of
-- the same result is a double free.
use pets_server_linux.Common.{
  ℕ, ◌+◌, ◌≤◌, ◌≡◌, refl, ◌⊎◌, true, false, Option, none, some, List, Text, ◌==◌, if◌then◌else◌,
  done, fail, double_free, arith, Bool-cases, inl, inr,
}
use pets_server_linux.Common.Int.{ℤ, pos, negsuc}
use pets_server_linux.Common.Maps
use pets_server_linux.Sql.{Api, Client, QueryResult, is_zero}
use pets_server_linux.Sql.Query.{
  open_result, free_result, keep_result, execute_sql, release, rows_of, fields_of,
}

module _ (api : Api) where
  open api use {real_query, store_result}

  -- No open result set has a handle that is still to be given.
  pub record Fresh (c : Client api) : Type 0 where
    pub unused : (h : ℕ) → c.next ≤ h → Maps.find h c.results ≡ none

  -- The same result sets are open.
  abbrev pub SameOpen : Client api → Client api → Type 0
  SameOpen c d = (h : ℕ) → Maps.find h c.results ≡ Maps.find h d.results

  -- Exactly the result set of `qr`, if it has one, has been closed.
  abbrev Closed : QueryResult → Client api → Client api → Type 0
  Closed qr c d =
      (h : ℕ)
      → Maps.find h d.results ≡ elim qr.res [
        | none ↦ Maps.find h c.results
        | some k ↦ if k == h then none else Maps.find h c.results
      ]

  -- A result with an open set is released once, and that closes its set and no other; released again
  -- it is a double free, since Release keeps the handle.
  pub release_twice :
      (qr : QueryResult) (c : Client api) (h : ℕ) (r : api.Res)
      → qr.res ≡ some h
      → Maps.find h c.results ≡ some r
      → (d : Client api) × (release api qr c ≡ done d)
        × Closed qr c d
        × (release api qr d ≡ fail double_free)
  unfolding release free_result
  release_twice qr c h r e o =
      let d : Client api = record c { results = Maps.erase h c.results } in
      let d' : Client api = if qr.stmt then record d { db = api.stmt_free_result d.db } else d in
      (
        d',
        ground (arith, e, o),
        λ k. ground (arith, e, Maps.find-erase h k c.results),
        ground (arith, e, Maps.find-erase h h c.results),
      )

  drop_result :
      (sql : Text) (o : Option api.Res × api.Db) (c : Client api)
      → Fresh c
      → (d : Client api) × (keep_result api sql none (open_result api o c).0 (open_result api o c).1
          ≡ done (pos 0, none, d))
        × SameOpen c d
  unfolding keep_result open_result free_result
  drop_result sql (none, db) c f = (record c { db = db }, refl, λ h. refl)
  drop_result sql (some r, db) c f =
      let opened : List (ℕ × api.Res) = Maps.insert c.next r c.results in
      (
        record c { db = db; next = c.next + 1; results = Maps.erase c.next opened },
        ground (arith, Maps.find-insert c.next c.next r c.results),
        λ h. ground (
          arith,
          Maps.find-erase c.next h opened,
          Maps.find-insert c.next h r c.results,
          f.unused h,
        ),
      )

  -- A query with no result to keep, as the preparation of a procedure makes it, returns, and leaves
  -- exactly the result sets open that were open before, whatever it answers.
  execute_sql-SameOpen :
      (sql : Option Text) (c : Client api)
      → Fresh c
      → (code : ℤ) × (d : Client api) × (execute_sql api sql none c ≡ done (code, none, d))
        × SameOpen c d
  unfolding execute_sql
  execute_sql-SameOpen none c f = (negsuc 0, c, refl, λ h. refl)
  execute_sql-SameOpen (some sql) c f = elim (Bool-cases c.mysql) [
    | inr off ↦ (negsuc 0, c, ground arith, λ h. refl)
    | inl on ↦ elim (Bool-cases (is_zero (real_query c.db sql).0)) [
      | inr bad ↦ (
        (real_query c.db sql).0,
        record c { db = (real_query c.db sql).1 },
        ground arith,
        λ h. refl,
      )
      | inl good ↦
          let c1 : Client api = record c { db = (real_query c.db sql).1 } in
          let (d, e, same) =
            drop_result sql (store_result c1.db) c1 (record { unused = f.unused }) in
          (pos 0, d, ground (arith, e), same)
    ]
  ]

  -- What a query that succeeds leaves in the result: nothing is left open besides the set that the
  -- result has, its counts are those of the set, and the handle was not in use.
  pub record Kept (c d : Client api) (sql : Text) (old qr : QueryResult) : Type 0 where
    pub sentence : qr.sql ≡ some sql
    pub affected : qr.nrow ≡ api.affected_rows d.db
    pub opened :
        ((qr.res ≡ none)
          × SameOpen c d
          × (qr.num_rows ≡ old.num_rows)
          × (qr.num_fields ≡ old.num_fields))
        ⊎ ((h : ℕ) × (r : api.Res) × (qr.res ≡ some h)
            × (Maps.find h c.results ≡ none)
            × ((k : ℕ) → Maps.find k d.results ≡ (if h == k then some r else Maps.find k c.results))
            × (qr.num_rows ≡ api.num_rows r)
            × (qr.num_fields ≡ api.num_fields r))

  keep_some :
      (sql : Text) (o : Option api.Res × api.Db) (c : Client api) (old : QueryResult)
      → Fresh c
      → (qr : QueryResult) × (d : Client api) × (keep_result api sql
            (some old)
            (open_result api o c).0
            (open_result api o c).1
          ≡ done (pos 0, some qr, d))
        × Kept c d sql old qr
  unfolding keep_result open_result
  keep_some sql (none, db) c old f = (
    record old { sql = some sql; res = none; nrow = api.affected_rows db },
    record c { db = db },
    refl,
    record { sentence = refl; affected = refl; opened = inl (refl, λ h. refl, refl, refl) },
  )
  keep_some sql (some r, db) c old f =
      let d : Client api = record c {
        db = db;
        results = Maps.insert c.next r c.results;
        next = c.next + 1;
      } in
      (
        record old {
          sql = some sql;
          res = some c.next;
          nrow = api.affected_rows db;
          num_rows = rows_of api (some c.next) d old.num_rows;
          num_fields = fields_of api (some c.next) d old.num_fields;
        },
        d,
        refl,
        record {
          sentence = refl;
          affected = refl;
          opened = inr (
            c.next,
            r,
            refl,
            f.unused c.next (omega arith),
            λ k. Maps.find-insert c.next k r c.results,
            ground (arith, Maps.find-insert c.next c.next r c.results),
            ground (arith, Maps.find-insert c.next c.next r c.results),
          );
        },
      )

  -- A query into a result, on every branch: with no sentence or no connection it answers -1 and
  -- changes nothing; if the server refuses it, its code is the answer and the result is as before; if
  -- it succeeds, it answers 0 and the result holds its set, if it has one, under a new handle.
  pub execute_sql_cases :
      (sql : Text) (old : QueryResult) (c : Client api)
      → Fresh c
      → (execute_sql api none (some old) c ≡ done (negsuc 0, some old, c))
        × (((c.mysql ≡ false)
              × (execute_sql api (some sql) (some old) c ≡ done (negsuc 0, some old, c)))
            ⊎ ((c.mysql ≡ true)
                × (is_zero (real_query c.db sql).0 ≡ false)
                × (execute_sql api (some sql) (some old) c
                    ≡ done (
                      (real_query c.db sql).0,
                      some old,
                      record c { db = (real_query c.db sql).1 },
                    )))
            ⊎ ((c.mysql ≡ true)
                × (is_zero (real_query c.db sql).0 ≡ true)
                × ((qr : QueryResult) × (d : Client api) × (execute_sql api (some sql) (some old) c
                      ≡ done (pos 0, some qr, d))
                    × Kept c d sql old qr)))
  unfolding execute_sql
  execute_sql_cases sql old c f = (
    refl,
    elim (Bool-cases c.mysql) [
      | inr off ↦ inl (off, ground arith)
      | inl on ↦ elim (Bool-cases (is_zero (real_query c.db sql).0)) [
        | inr bad ↦ inr (inl (on, bad, ground arith))
        | inl good ↦
            let c1 : Client api = record c { db = (real_query c.db sql).1 } in
            let (qr, d, e, k) =
              keep_some sql (store_result c1.db) c1 old (record { unused = f.unused }) in
            inr (inr (on, good, (qr, d, ground (arith, e), lift k)))
      ]
    ],
  )
    where
      lift :
          {d : Client api} {qr : QueryResult}
          → Kept (record c { db = (real_query c.db sql).1 }) d sql old qr
          → Kept c d sql old qr
      lift k = record { sentence = k.sentence; affected = k.affected; opened = k.opened }
