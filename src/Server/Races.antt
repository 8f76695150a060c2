-- ===== src/Server/Races.antt =====
-- PetsServer.cpp: onConnection on the twenty network threads, which share the pool without a lock. A
-- thread that opens a connection reads the pool in GreateDnid and writes its entry later; other
-- threads can come between. The reads and writes of the map are each taken as one step, which the
-- unlocked std::map does not even promise.
pub mod Lost
use pets_server_linux.Common.{
  ℕ, ◌≡◌, ◌≢◌, ◌⊎◌, inl, inr, refl, sym, ap, ◌∙◌, subst, true, false, Bool-cases, Option, none,
  some, List, [], ◌∷◌, done, ◌>>=◌, >>=-eq-done, done-injective, arith, ◌==◌, if◌then◌else◌,
}
use pets_server_linux.Common.Maps
use pets_server_linux.Common.Maps.{at}
use pets_server_linux.Object.Manager.{initialize}
use pets_server_linux.Codec.{of_dnid}
use pets_server_linux.Server.{
  Connection, Server, Draw, greate_dnid, dnid_of, connect, disconnect, on_connection,
}
use pets_server_linux.Server.Numbers.{greate_dnid-FirstFree}
use pets_server_linux.Server.Connections
use pets_server_linux.Server.Connections.{started}

-- How far a TCP connection is: not yet there, between GreateDnid and the write of its entry, open,
-- or down.
pub data Phase : Type 0 where
  new closed : Phase
  picked opened : ℕ → Phase

-- onConnection up to setContext, when GreateDnid has given the number.
unfoldable pub pick : ℕ → ℕ → Server → Server
pick conn dnid s = record s { contexts = Maps.insert conn (of_dnid dnid) s.contexts }

-- onConnection from `connections[dnid] = scon` on.
unfoldable pub enter : ℕ → ℕ → Server → Server
enter conn dnid s = record s {
  connections = Maps.insert dnid (record { conn = conn; ttl = 3 }) s.connections;
}

-- The two parts, with no other thread between them, are the function.
connect-enter-pick :
    (conn : ℕ) (draws : List Draw) (s : Server)
    → on_connection conn true draws s
      ≡ (greate_dnid draws s.connections >>= λ dnid. done (enter conn dnid (pick conn dnid s)))
unfolding on_connection connect enter pick
connect-enter-pick conn draws s = refl

pub record Race : Type 0 where
  pub server : Server
  pub phase : ℕ → Phase

-- A thread takes a number that is free now, after any draws that were not; it writes its entry; or a
-- connection goes down.
pub data Step (r : Race) : Race → Type 0 where
  picks :
      (conn dnid : ℕ) (draws : List Draw)
      → r.phase conn ≡ new
      → greate_dnid draws r.server.connections ≡ done dnid
      → Step r (record { server = pick conn dnid r.server; phase = at conn (picked dnid) r.phase })
  enters :
      (conn dnid : ℕ)
      → r.phase conn ≡ picked dnid
      → Step r (record { server = enter conn dnid r.server; phase = at conn (opened dnid) r.phase })
  closes :
      (conn dnid : ℕ) {t : Server}
      → r.phase conn ≡ opened dnid
      → on_connection conn false [] r.server ≡ done t
      → Step r (record { server = t; phase = at conn closed r.phase })

pub data Reach (s : Race) : Race → Type 0 where
  here : Reach s s
  next : {t u : Race} → Reach s t → Step t u → Reach s u

abbrev pub idle : Race
idle = record { server = started; phase = λ conn. new }

-- A connection that is not yet there has no context, one that has a number has it as its context, and
-- every entry is that of an open connection.
pub record Inv (r : Race) : Type 0 where
  new_context : (conn : ℕ) → r.phase conn ≡ new → Maps.find conn r.server.contexts ≡ none
  picked_context :
      (conn dnid : ℕ)
      → r.phase conn ≡ picked dnid
      → Maps.find conn r.server.contexts ≡ some (of_dnid dnid)
  pub opened_context :
      (conn dnid : ℕ)
      → r.phase conn ≡ opened dnid
      → Maps.find conn r.server.contexts ≡ some (of_dnid dnid)
  pub entry :
      (dnid : ℕ) (c : Connection)
      → Maps.find dnid r.server.connections ≡ some c
      → r.phase c.conn ≡ opened dnid

picks-Inv :
    (r : Race) (conn dnid : ℕ)
    → Inv r
    → r.phase conn ≡ new
    → Inv (record { server = pick conn dnid r.server; phase = at conn (picked dnid) r.phase })
unfolding pick
picks-Inv r conn dnid v fresh = record {
  new_context = λ c e.
      ground (arith, Maps.find-insert conn c (of_dnid dnid) r.server.contexts, v.new_context c);
  picked_context = λ c k e.
      ground
        (arith, Maps.find-insert conn c (of_dnid dnid) r.server.contexts, v.picked_context c k);
  opened_context = λ c k e.
      ground
        (arith, Maps.find-insert conn c (of_dnid dnid) r.server.contexts, v.opened_context c k);
  entry = λ k c e. ground (arith, v.entry k c);
}

enters-Inv :
    (r : Race) (conn dnid : ℕ)
    → Inv r
    → r.phase conn ≡ picked dnid
    → Inv (record { server = enter conn dnid r.server; phase = at conn (opened dnid) r.phase })
unfolding enter
enters-Inv r conn dnid v took = record {
  new_context = λ c e. ground (arith, v.new_context c);
  picked_context = λ c k e. ground (arith, v.picked_context c k);
  opened_context = λ c k e. ground (arith, v.picked_context conn dnid took, v.opened_context c k);
  entry = λ k c e. ground (
    arith,
    Maps.find-insert dnid k (record { conn = conn; ttl = 3 }) r.server.connections,
    v.entry k c,
  );
}

-- A connection that is open goes down without an exception, and takes away the entry of its number.
pub closed_entry :
    (r : Race) (conn dnid : ℕ)
    → Inv r
    → r.phase conn ≡ opened dnid
    → on_connection conn false [] r.server
      ≡ done (record r.server { connections = Maps.erase dnid r.server.connections })
unfolding on_connection disconnect
closed_entry r conn dnid v open_now = ground (arith, v.opened_context conn dnid open_now)

closes-Inv :
    (r : Race) (conn dnid : ℕ)
    → Inv r
    → r.phase conn ≡ opened dnid
    → Inv (record {
      server = record r.server { connections = Maps.erase dnid r.server.connections };
      phase = at conn closed r.phase;
    })
closes-Inv r conn dnid v open_now = record {
  new_context = λ c e. ground (arith, v.new_context c);
  picked_context = λ c k e. ground (arith, v.picked_context c k);
  opened_context = λ c k e. ground (arith, v.opened_context c k);
  entry = λ k c e. ground (arith, Maps.find-erase dnid k r.server.connections, v.entry k c);
}

pub Step-Inv : {r u : Race} → Step r u → Inv r → Inv u
Step-Inv {r} (picks conn dnid draws fresh e) v = picks-Inv r conn dnid v fresh
Step-Inv {r} (enters conn dnid took) v = enters-Inv r conn dnid v took
Step-Inv {r} (closes conn dnid open_now e) v =
    subst (λ s. Inv (record { server = s; phase = at conn closed r.phase }))
      (done-injective (sym (closed_entry r conn dnid v open_now) ∙ e))
      (closes-Inv r conn dnid v open_now)

pub idle-Inv : Inv idle
unfolding Maps.find
idle-Inv = record {
  new_context = λ c e. refl;
  picked_context = λ c k e. cc;
  opened_context = λ c k e. cc;
  entry = λ k c e. cc;
}

-- Once a connection has its number as its context, it keeps it.
pub Step-context :
    {r u : Race} (c k : ℕ)
    → Step r u
    → Inv r
    → Maps.find c r.server.contexts ≡ some (of_dnid k)
    → Maps.find c u.server.contexts ≡ some (of_dnid k)
unfolding pick enter
Step-context {r} c k (picks conn dnid draws fresh e) v h =
    ground
      (arith, Maps.find-insert conn c (of_dnid dnid) r.server.contexts, v.new_context conn fresh, h)
Step-context c k (enters conn dnid took) v h = h
Step-context {r} c k (closes conn dnid {t} open_now e) v h =
    ap (λ (s : Server). Maps.find c s.contexts)
      (sym (done-injective (sym (closed_entry r conn dnid v open_now) ∙ e)))
    ∙ h

-- Under every interleaving of the threads: a connection that is between GreateDnid and its entry, or
-- open, has its number as its context, and every entry of the pool is that of an open connection
-- with this number.
pub Reach-Inv : {r : Race} → Reach idle r → Inv r
Reach-Inv here = idle-Inv
Reach-Inv (next r st) = Step-Inv st (Reach-Inv r)
