-- ===== src/Sql/Query/Released.antt =====
-- A query into a result and its Release (MysqlQuery.cpp).
use pets_server_linux.Common.{
  ◌≡◌, ◌⊎◌, inl, inr, none, some, Text, if◌then◌else◌, done, fail, double_free, arith,
}
use pets_server_linux.Common.Maps
use pets_server_linux.Sql.{Api, Client, QueryResult}
use pets_server_linux.Sql.Query.{release}
use pets_server_linux.Sql.Query.Ownership.{SameOpen, Kept, release_twice}

module _ (api : Api) where
  -- The result that a query has filled can be released, and then the same sets are open as before.
  pub release-Kept :
      (c d : Client api) (sql : Text) (old qr : QueryResult)
      → Kept api c d sql old qr
      → (e : Client api) × (release api qr d ≡ done e)
        × SameOpen api c e
        × ((qr.res ≡ none) ⊎ (release api qr e ≡ fail double_free))
  unfolding release
  release-Kept c d sql old qr k = elim k.opened [
    | inl (no_set, same, rows, fields) ↦ (
      if qr.stmt then record d { db = api.stmt_free_result d.db } else d,
      ground (arith, no_set),
      λ i. ground (arith, same i),
      inl no_set,
    )
    | inr (n, r, at_n, unused, opened, rows, fields) ↦
        let there : Maps.find n d.results ≡ some r = ground (arith, opened n) in
        let (e, released, closed, again) = release_twice api qr d n r at_n there in
        (e, released, λ i. ground (arith, closed i, opened i, unused, at_n), inr again)
  ]
