-- ===== src/Server/Reuse.antt =====
-- PetsServer.cpp: GreateDnid seeds rand with the clock's second on each call, so that all calls of one
-- second that see one second only make the same draws.
use pets_server_linux.Common.{
  ℕ, ◌≡◌, ◌≢◌, refl, sym, ap, ◌∙◌, subst, true, false, none, some, List, [], ◌∷◌, done, >>=-eq-done,
  done-injective, arith,
}
use pets_server_linux.Common.Maps
use pets_server_linux.Codec.{of_dnid}
use pets_server_linux.Server.{
  Connection, Server, Draw, greate_dnid, dnid_of, connect, on_connection,
}
use pets_server_linux.Server.Numbers.{greate_dnid-FirstFree}
use pets_server_linux.Server.Connections.{
  Reach, next, up, started, Inv, Reach-Inv, disconnect_entry,
}

-- GreateDnid sees of the pool only which numbers are taken.
greate_dnid-find :
    (ds : List Draw) (xs ys : List (ℕ × Connection))
    → ((k : ℕ) → Maps.find k xs ≡ Maps.find k ys)
    → greate_dnid ds xs ≡ greate_dnid ds ys
unfolding greate_dnid
greate_dnid-find [] xs ys same = refl
greate_dnid-find (d ∷ ds) xs ys same =
    ground (arith, same (dnid_of d), greate_dnid-find ds xs ys same)

module _ (a b : ℕ) (draws : List Draw) (s : Server) (k : ℕ) where
  abbrev pub opened : Server
  opened = record s {
    contexts = Maps.insert a (of_dnid k) s.contexts;
    connections = Maps.insert k (record { conn = a; ttl = 3 }) s.connections;
  }

  abbrev pub gone : Server
  gone = record opened { connections = Maps.erase k opened.connections }

  abbrev pub back : Server
  back = record gone {
    contexts = Maps.insert b (of_dnid k) gone.contexts;
    connections = Maps.insert k (record { conn = b; ttl = 3 }) gone.connections;
  }

  opened_again :
      greate_dnid draws s.connections ≡ done k
      → Maps.find k s.connections ≡ none
      → on_connection b true draws gone ≡ done back
  unfolding on_connection connect
  opened_again e free =
      let same : greate_dnid draws gone.connections ≡ done k =
        greate_dnid-find draws gone.connections s.connections (λ j. ground (
          arith,
          Maps.find-erase k j opened.connections,
          Maps.find-insert k j (record { conn = a; ttl = 3 }) s.connections,
          free,
        ))
        ∙ e in
      rw same refl

-- A connection that comes when another has gone down, with the same draws and with nothing else
-- between, gets the same number: the contexts of both TCP connections are then this number, by which
-- alone the packets of both are known.
pub on_connection_again :
    (a b : ℕ) (draws : List Draw) (s t u : Server)
    → Reach started s
    → a ≢ b
    → Maps.find a s.contexts ≡ none
    → on_connection a true draws s ≡ done t
    → on_connection a false draws t ≡ done u
    → (k : ℕ) × (v : Server) × (on_connection b true draws u ≡ done v)
      × (Maps.find a v.contexts ≡ some (of_dnid k))
      × (Maps.find b v.contexts ≡ some (of_dnid k))
      × (Maps.find k v.connections ≡ some (record { conn = b; ttl = 3 }))
unfolding on_connection connect
on_connection_again a b draws s t u reached n fresh ea eu =
    let (k, hk, ht) = >>=-eq-done (greate_dnid draws s.connections) _ ea in
    let free = (greate_dnid-FirstFree draws s.connections k hk).free in
    let opened_now : opened a b draws s k ≡ t = done-injective ht in
    let inv : Inv (opened a b draws s k) =
      subst Inv (sym opened_now) (Reach-Inv (next reached (up a draws fresh ea))) in
    let entry : Maps.find k (opened a b draws s k).connections
        ≡ some (record { conn = a; ttl = 3 }) =
      ground (arith, Maps.find-insert k k (record { conn = a; ttl = 3 }) s.connections) in
    let went : gone a b draws s k ≡ u = done-injective (
      sym (disconnect_entry (opened a b draws s k) inv k (record { conn = a; ttl = 3 }) draws entry)
      ∙ ap (on_connection a false draws) opened_now
      ∙ eu) in
    (
      k,
      back a b draws s k,
      subst (λ w. on_connection b true draws w ≡ done (back a b draws s k)) went
          (opened_again a b draws s k hk free),
      ground (
        arith,
        Maps.find-insert b a (of_dnid k) (Maps.insert a (of_dnid k) s.contexts),
        Maps.find-insert a a (of_dnid k) s.contexts,
      ),
      ground (arith, Maps.find-insert b b (of_dnid k) (Maps.insert a (of_dnid k) s.contexts)),
      ground (
        arith,
        Maps.find-insert k k (record { conn = b; ttl = 3 }) (gone a b draws s k).connections,
      ),
    )
