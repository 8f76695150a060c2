-- ===== src/Server/Connections.antt =====
-- The pool of connections under any sequence of connects and disconnects.
use pets_server_linux.Common.{
  ℕ, ◌≡◌, ◌≢◌, sym, ◌∙◌, true, false, none, some, List, [], done, >>=-eq-done, done-injective,
  subst, arith, ◌==◌, if◌then◌else◌,
}
use pets_server_linux.Common.Maps
use pets_server_linux.Object.{Pet}
use pets_server_linux.Object.Manager.{initialize}
use pets_server_linux.Codec.{of_dnid, of_pet}
use pets_server_linux.Server.{
  Connection, Server, Draw, greate_dnid, connect, disconnect, on_connection,
}
use pets_server_linux.Server.Numbers.{greate_dnid-FirstFree}

-- Each entry's TCP connection has the entry's number as its context, and no context is a pet.
pub record Inv (s : Server) : Type 0 where
  pub numbered :
      (k : ℕ) (c : Connection)
      → Maps.find k s.connections ≡ some c
      → Maps.find c.conn s.contexts ≡ some (of_dnid k)
  petless : (conn : ℕ) (p : Pet) → Maps.find conn s.contexts ≢ some (of_pet p)

-- muduo calls onConnection for a new connection, whose context is empty, and again when a connection
-- goes down.
pub data Step : Server → Server → Type 0 where
  up :
      {s t : Server} (conn : ℕ) (draws : List Draw)
      → Maps.find conn s.contexts ≡ none
      → on_connection conn true draws s ≡ done t
      → Step s t
  down :
      {s t : Server} (k : ℕ) (c : Connection) (draws : List Draw)
      → Maps.find k s.connections ≡ some c
      → on_connection c.conn false draws s ≡ done t
      → Step s t

pub data Reach (s : Server) : Server → Type 0 where
  here : Reach s s
  next : {t u : Server} → Reach s t → Step t u → Reach s u

-- The server before the first connection.
abbrev pub started : Server
started = record { connections = []; contexts = []; manager = initialize 0; heap = [] }

started-Inv : Inv started
unfolding Maps.find
started-Inv = record { numbered = λ k c e. cc; petless = λ conn p e. cc }

module _ (s : Server) (v : Inv s) where
  numbered_insert :
      (conn k : ℕ) (j : ℕ) (c : Connection)
      → Maps.find conn s.contexts ≡ none
      → Maps.find j (Maps.insert k (record { conn = conn; ttl = 3 }) s.connections) ≡ some c
      → Maps.find c.conn (Maps.insert conn (of_dnid k) s.contexts) ≡ some (of_dnid j)
  numbered_insert conn k j c new e = ground (
    arith,
    Maps.find-insert k j (record { conn = conn; ttl = 3 }) s.connections,
    Maps.find-insert conn c.conn (of_dnid k) s.contexts,
    v.numbered j c,
  )

  petless_insert :
      (conn k i : ℕ) (p : Pet)
      → Maps.find i (Maps.insert conn (of_dnid k) s.contexts) ≢ some (of_pet p)
  petless_insert conn k i p e =
      ground (arith, Maps.find-insert conn i (of_dnid k) s.contexts, v.petless i p)

  connect-Inv :
      (t : Server) (conn : ℕ) (draws : List Draw)
      → Maps.find conn s.contexts ≡ none
      → connect conn draws s ≡ done t
      → Inv t
  unfolding connect
  connect-Inv t conn draws new e =
      let (k, hk, ht) = >>=-eq-done (greate_dnid draws s.connections) _ e in
      let inv : Inv (record s {
        contexts = Maps.insert conn (of_dnid k) s.contexts;
        connections = Maps.insert k (record { conn = conn; ttl = 3 }) s.connections;
      }) =
        record {
          numbered = λ j c. numbered_insert conn k j c new;
          petless = petless_insert conn k;
        } in
      subst Inv (done-injective ht) inv

  -- A connection that goes down: its context is its number, so its entry goes and no other.
  pub disconnect_entry :
      (k : ℕ) (c : Connection) (draws : List Draw)
      → Maps.find k s.connections ≡ some c
      → on_connection c.conn false draws s
        ≡ done (record s { connections = Maps.erase k s.connections })
  unfolding on_connection disconnect
  disconnect_entry k c draws e = ground (arith, v.numbered k c e)

  erased-Inv : (k : ℕ) → Inv (record s { connections = Maps.erase k s.connections })
  erased-Inv k = record {
    numbered = λ j c e. v.numbered j c (ground (arith, Maps.find-erase k j s.connections));
    petless = v.petless;
  }

Step-Inv : {s t : Server} → Step s t → Inv s → Inv t
unfolding on_connection
Step-Inv {s} {t} (up conn draws new e) v = connect-Inv s v t conn draws new e
Step-Inv {s} {t} (down k c draws has e) v =
    subst Inv (done-injective (sym (disconnect_entry s v k c draws has) ∙ e)) (erased-Inv s v k)

-- After any sequence of connects and disconnects: every entry of the pool has a TCP connection whose
-- context is the entry's number, and no TCP connection has a pet as its context.
pub Reach-Inv : {t : Server} → Reach started t → Inv t
Reach-Inv here = started-Inv
Reach-Inv (next r st) = Step-Inv st (Reach-Inv r)

-- In any state that is reached, two different entries never share a TCP connection, and the
-- disconnect of one entry's connection returns, takes away that entry and keeps the other.
pub Reach-disconnect :
    {t : Server} (k j : ℕ) (c d : Connection) (draws : List Draw)
    → Reach started t
    → Maps.find k t.connections ≡ some c
    → Maps.find j t.connections ≡ some d
    → k ≢ j
    → (c.conn ≢ d.conn)
      × ((u : Server) × (on_connection c.conn false draws t ≡ done u)
          × (Maps.find k u.connections ≡ none)
          × (Maps.find j u.connections ≡ some d))
Reach-disconnect {t} k j c d draws r hc hd n =
    let v = Reach-Inv r in
    (
      λ e. n (ground (arith, v.numbered k c hc, v.numbered j d hd)),
      (
        record t { connections = Maps.erase k t.connections },
        disconnect_entry t v k c draws hc,
        ground (arith, Maps.find-erase k k t.connections),
        ground (arith, Maps.find-erase k j t.connections),
      ),
    )

-- A connect that returns adds one entry, for the new TCP connection and under a number that was
-- free, and keeps all others.
pub connect_entry :
    (conn : ℕ) (draws : List Draw) (s t : Server)
    → on_connection conn true draws s ≡ done t
    → (k : ℕ) × (Maps.find k s.connections ≡ none)
      × (Maps.find conn t.contexts ≡ some (of_dnid k))
      × ((j : ℕ)
          → Maps.find j t.connections ≡ (
              if k == j then some (record { conn = conn; ttl = 3 }) else Maps.find j s.connections))
unfolding on_connection connect
connect_entry conn draws s t e =
    let (k, hk, ht) = >>=-eq-done (greate_dnid draws s.connections) _ e in
    let f = greate_dnid-FirstFree draws s.connections k hk in
    (
      k,
      f.free,
      ground (arith, ht, Maps.find-insert conn conn (of_dnid k) s.contexts),
      λ j. ground (arith, ht, Maps.find-insert k j (record { conn = conn; ttl = 3 }) s.connections),
    )
