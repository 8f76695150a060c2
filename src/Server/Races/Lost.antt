-- ===== src/Server/Races/Lost.antt =====
-- PetsServer.cpp: what the missing lock around onConnection costs, and what a lock would give.
use pets_server_linux.Common.{
  ℕ, ◌≡◌, ◌≢◌, ◌↔◌, refl, sym, ◌∙◌, subst, none, some, [], ◌∷◌, done, done-injective, arith,
}
use pets_server_linux.Common.Maps
use pets_server_linux.Common.Maps.{at}
use pets_server_linux.Server.{Connection, Draw, greate_dnid, dnid_of}
use pets_server_linux.Server.Numbers.{greate_dnid-FirstFree}
use pets_server_linux.Server.Races.{
  Race, Step, picks, enters, closes, Reach, here, next, Inv, Reach-Inv, idle, new, picked, opened,
  closed, pick, enter, closed_entry, Step-Inv,
}

-- Both have written their entries.
abbrev both_opened : ℕ → ℕ → ℕ → Race → Race
both_opened a b k r = record {
  server = enter b k (enter a k (pick b k (pick a k r.server)));
  phase = at b (opened k) (at a (opened k) (at b (picked k) (at a (picked k) r.phase)));
}

greate_dnid-free :
    (r : Race) (d : Draw)
    → Maps.find (dnid_of d) r.server.connections ≡ none
    → greate_dnid (d ∷ []) r.server.connections ≡ done (dnid_of d)
unfolding greate_dnid
greate_dnid-free r d free = rw (free, greate_dnid) refl

both_opened-Reach :
    (r : Race) (a b : ℕ) (d : Draw)
    → a ≢ b
    → Reach idle r
    → r.phase a ≡ new
    → r.phase b ≡ new
    → Maps.find (dnid_of d) r.server.connections ≡ none
    → Reach r (both_opened a b (dnid_of d) r)
unfolding pick
both_opened-Reach r a b d n reached na nb free =
    next
      (next
        (next (next here (picks a (dnid_of d) (d ∷ []) na (greate_dnid-free r d free)))
          (picks b (dnid_of d) (d ∷ []) (ground arith) (greate_dnid-free r d free)))
        (enters a (dnid_of d) (ground arith)))
      (enters b (dnid_of d) (ground arith))

Reach-trans : {a b c : Race} → Reach a b → Reach b c → Reach a c
Reach-trans r here = r
Reach-trans r (next q st) = next (Reach-trans r q) st

-- From any state that is reached, for any two new connections and any draw whose number is free,
-- some interleaving of their threads leaves the second one open with that number while the pool has
-- no entry for it: both take the number, both write the one entry, and when the first one goes down
-- it takes away the entry of the second.
pub Reach-lost :
    {r : Race} (a b : ℕ) (d : Draw)
    → Reach idle r
    → a ≢ b
    → r.phase a ≡ new
    → r.phase b ≡ new
    → Maps.find (dnid_of d) r.server.connections ≡ none
    → (u : Race) × Reach r u
      × (u.phase a ≡ closed)
      × (u.phase b ≡ opened (dnid_of d))
      × (Maps.find (dnid_of d) u.server.connections ≡ none)
Reach-lost {r} a b d reached n na nb free =
    let way = both_opened-Reach r a b d n reached na nb free in
    let both = both_opened a b (dnid_of d) r in
    let open_now : both.phase a ≡ opened (dnid_of d) = ground arith in
    (
      record {
        server = record both.server {
          connections = Maps.erase (dnid_of d) both.server.connections;
        };
        phase = at a closed both.phase;
      },
      next way (
          closes a (dnid_of d) open_now
            (closed_entry both a (dnid_of d) (Reach-Inv (Reach-trans reached way)) open_now)),
      ground arith,
      ground arith,
      ground (arith, Maps.find-erase (dnid_of d) (dnid_of d) both.server.connections),
    )

-- What a lock around onConnection, or any other means, has to ensure: no connection takes a number
-- that another one has taken and not yet entered.
abbrev Unclaimed : {r u : Race} → Step r u → Type 0
Unclaimed {r} (picks conn dnid draws fresh e) = (c : ℕ) → r.phase c ≢ picked dnid
Unclaimed (enters conn dnid took) = Unit {0}
Unclaimed (closes conn dnid open_now e) = Unit {0}

pub data Calm (s : Race) : Race → Type 0 where
  still : Calm s s
  moves : {t u : Race} → Calm s t → (st : Step t u) → Unclaimed st → Calm s u

abbrev entry_of : ℕ → Connection
entry_of conn = record { conn = conn; ttl = 3 }

record Exact (r : Race) : Type 0 where
  inv : Inv r
  pool :
      (conn dnid : ℕ)
      → r.phase conn ≡ opened dnid
      → Maps.find dnid r.server.connections ≡ some (entry_of conn)
  free : (conn dnid : ℕ) → r.phase conn ≡ picked dnid → Maps.find dnid r.server.connections ≡ none
  apart : (a b dnid : ℕ) → r.phase a ≡ picked dnid → r.phase b ≡ picked dnid → a ≡ b

picks-Exact :
    (r : Race) (conn dnid : ℕ)
    → Exact r
    → Inv (record { server = pick conn dnid r.server; phase = at conn (picked dnid) r.phase })
    → r.phase conn ≡ new
    → Maps.find dnid r.server.connections ≡ none
    → ((c : ℕ) → r.phase c ≢ picked dnid)
    → Exact (record { server = pick conn dnid r.server; phase = at conn (picked dnid) r.phase })
unfolding pick
picks-Exact r conn dnid v inv fresh unused unclaimed = record {
  inv = inv;
  pool = λ c k e. ground (arith, v.pool c k);
  free = λ c k e. ground (arith, v.free c k);
  apart = λ a b k ea eb. ground (arith, v.apart a b k, unclaimed a, unclaimed b);
}

enters-Exact :
    (r : Race) (conn dnid : ℕ)
    → Exact r
    → Inv (record { server = enter conn dnid r.server; phase = at conn (opened dnid) r.phase })
    → r.phase conn ≡ picked dnid
    → Exact (record { server = enter conn dnid r.server; phase = at conn (opened dnid) r.phase })
unfolding enter
enters-Exact r conn dnid v inv took = record {
  inv = inv;
  pool = λ c k e. ground (
    arith,
    Maps.find-insert dnid k (entry_of conn) r.server.connections,
    v.pool c k,
    v.free conn dnid took,
  );
  free = λ c k e. ground (
    arith,
    Maps.find-insert dnid k (entry_of conn) r.server.connections,
    v.free c k,
    v.apart c conn dnid,
  );
  apart = λ a b k ea eb. ground (arith, v.apart a b k);
}

closes-Exact :
    (r : Race) (conn dnid : ℕ)
    → Exact r
    → Inv (record {
      server = record r.server { connections = Maps.erase dnid r.server.connections };
      phase = at conn closed r.phase;
    })
    → r.phase conn ≡ opened dnid
    → Exact (record {
      server = record r.server { connections = Maps.erase dnid r.server.connections };
      phase = at conn closed r.phase;
    })
closes-Exact r conn dnid v inv open_now = record {
  inv = inv;
  pool = λ c k e.
      ground
        (arith, Maps.find-erase dnid k r.server.connections, v.pool c k, v.pool conn dnid open_now);
  free = λ c k e. ground (arith, Maps.find-erase dnid k r.server.connections, v.free c k);
  apart = λ a b k ea eb. ground (arith, v.apart a b k);
}

Step-Exact : {r u : Race} (st : Step r u) → Unclaimed st → Exact r → Exact u
Step-Exact {r} (picks conn dnid draws fresh e) unclaimed v =
    picks-Exact r conn dnid v (Step-Inv (picks conn dnid draws fresh e) v.inv) fresh
      (greate_dnid-FirstFree draws r.server.connections dnid e).free unclaimed
Step-Exact {r} (enters conn dnid took) unclaimed v =
    enters-Exact r conn dnid v (Step-Inv (enters conn dnid took) v.inv) took
Step-Exact {r} (closes conn dnid {t} open_now e) unclaimed v =
    let same = done-injective (sym (closed_entry r conn dnid v.inv open_now) ∙ e) in
    subst (λ s. Exact (record { server = s; phase = at conn closed r.phase })) same
      (closes-Exact r conn dnid v
        (Step-Inv (closes conn dnid open_now (closed_entry r conn dnid v.inv open_now)) v.inv)
        open_now)

idle-Exact : Exact idle
idle-Exact = record {
  inv = Reach-Inv here;
  pool = λ c k e. cc;
  free = λ c k e. cc;
  apart = λ a b k ea eb. cc;
}

Calm-Exact : {r : Race} → Calm idle r → Exact r
Calm-Exact still = idle-Exact
Calm-Exact (moves r st h) = Step-Exact st h (Calm-Exact r)

-- Under every interleaving in which no connection takes a number that another has taken and not yet
-- entered: the pool is exactly the open connections, each under its number.
pub Calm-pool :
    {r : Race} (conn dnid : ℕ)
    → Calm idle r
    → (r.phase conn ≡ opened dnid)
      ↔ (Maps.find dnid r.server.connections ≡ some (record { conn = conn; ttl = 3 }))
Calm-pool conn dnid calm =
    let v = Calm-Exact calm in (λ e. v.pool conn dnid e, λ e. v.inv.entry dnid (entry_of conn) e)
