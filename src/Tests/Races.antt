-- ===== src/Tests/Races.antt =====
-- Two connections whose threads come between each other, and one that comes back.
use pets_server_linux.Common.{
  ℕ, ◌≡◌, ◌↔◌, refl, none, some, [], ◌∷◌, done, true, false, ◌+◌, ◌^◌, arith,
}
use pets_server_linux.Common.Maps
use pets_server_linux.Common.Maps.{at}
use pets_server_linux.Codec.{of_dnid}
use pets_server_linux.Server.{Server, Draw, dnid_of, greate_dnid, on_connection}
use pets_server_linux.Server.Connections
use pets_server_linux.Server.Connections.{started}
use pets_server_linux.Server.Races.{
  Race, picks, enters, Reach, here, idle, new, closed, opened, picked, pick, enter,
}
use pets_server_linux.Server.Races.Lost.{Reach-lost, Calm, still, moves, Calm-pool}
use pets_server_linux.Server.Reuse.{on_connection_again}

abbrev draw : ℕ → Draw
draw n = record { time = 1; rand = n }

abbrev number : ℕ → ℕ
number n = 2 ^ 16 + n

drawn_5 : greate_dnid (draw 5 ∷ []) [] ≡ done (number 5)
unfolding greate_dnid dnid_of Maps.find
drawn_5 = refl

Reach-lost_example :
    (u : Race) × Reach idle u
    × (u.phase 40 ≡ closed)
    × (u.phase 41 ≡ opened (dnid_of (draw 5)))
    × (Maps.find (dnid_of (draw 5)) u.server.connections ≡ none)
unfolding Maps.find
Reach-lost_example = Reach-lost 40 41 (draw 5) here (omega arith) refl refl refl

-- One connection, open and entered.
abbrev one_picked : Race
one_picked = record {
  server = pick 40 (number 5) started;
  phase = at 40 (picked (number 5)) (λ conn. new);
}

abbrev one_opened : Race
one_opened = record {
  server = enter 40 (number 5) one_picked.server;
  phase = at 40 (opened (number 5)) one_picked.phase;
}

opened_calmly : Calm idle one_opened
unfolding pick
opened_calmly =
    moves (moves still (picks 40 (number 5) (draw 5 ∷ []) refl drawn_5) (λ c e. cc))
      (enters 40 (number 5) refl) tt

Calm-pool_example :
    (one_opened.phase 40 ≡ opened (number 5))
    ↔ (Maps.find (number 5) one_opened.server.connections ≡ some (record { conn = 40; ttl = 3 }))
Calm-pool_example = Calm-pool 40 (number 5) opened_calmly

-- A connection that goes and one that comes in the same second.
abbrev first_up : Server
first_up = record started {
  connections = (number 5, record { conn = 40; ttl = 3 }) ∷ [];
  contexts = (40, of_dnid (number 5)) ∷ [];
}

abbrev first_down : Server
first_down = record first_up { connections = [] }

goes_up : on_connection 40 true (draw 5 ∷ []) started ≡ done first_up
unfolding on_connection dnid_of Maps.find Maps.insert
goes_up = refl

goes_down : on_connection 40 false (draw 5 ∷ []) first_up ≡ done first_down
unfolding on_connection Maps.find Maps.erase
goes_down = refl

on_connection_again_example :
    (k : ℕ) × (v : Server) × (on_connection 41 true (draw 5 ∷ []) first_down ≡ done v)
    × (Maps.find 40 v.contexts ≡ some (of_dnid k))
    × (Maps.find 41 v.contexts ≡ some (of_dnid k))
    × (Maps.find k v.connections ≡ some (record { conn = 41; ttl = 3 }))
unfolding Maps.find
on_connection_again_example =
    on_connection_again 40 41 (draw 5 ∷ []) started first_up first_down Connections.here
      (omega arith) refl goes_up goes_down
