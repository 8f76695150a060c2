-- ===== src/Tests/Connections.antt =====
-- Concrete runs of the connections and their numbers.
use pets_server_linux.Common.{
  ℕ, ◌≡◌, ◌≢◌, refl, true, false, none, some, [], ◌∷◌, done, ◌+◌, ◌^◌, arith,
}
use pets_server_linux.Common.Maps
use pets_server_linux.Codec.{of_dnid}
use pets_server_linux.Server.{Server, Draw, dnid_of, greate_dnid, on_connection}
use pets_server_linux.Server.Numbers.{
  FirstFree, greate_dnid-FirstFree, greate_dnid_ends, dnid_of_parts,
}
use pets_server_linux.Server.Connections.{up, Reach, here, next, started, Reach-disconnect}

abbrev draw : ℕ → Draw
draw n = record { time = 1; rand = n }

abbrev number : ℕ → ℕ
number n = 2 ^ 16 + n

abbrev first : Server
first = record started {
  connections = (number 5, record { conn = 40; ttl = 3 }) ∷ [];
  contexts = (40, of_dnid (number 5)) ∷ [];
}

-- The second connection draws 5 again, which is taken, and then 6.
abbrev both : Server
both = record started {
  connections =
      (number 5, record { conn = 40; ttl = 3 }) ∷ (number 6, record { conn = 41; ttl = 3 }) ∷ [];
  contexts = (40, of_dnid (number 5)) ∷ (41, of_dnid (number 6)) ∷ [];
}

up_first : on_connection 40 true (draw 5 ∷ []) started ≡ done first
unfolding on_connection dnid_of Maps.find Maps.insert
up_first = refl

up_second : on_connection 41 true (draw 5 ∷ draw 6 ∷ []) first ≡ done both
unfolding on_connection dnid_of Maps.find Maps.insert
up_second = refl

reached : Reach started both
unfolding Maps.find
reached =
    next (next here (up 40 (draw 5 ∷ []) refl up_first))
      (up 41 (draw 5 ∷ draw 6 ∷ []) refl up_second)

Reach-disconnect_example :
    (◌≢◌ {A = ℕ} 40 41)
    × ((u : Server) × (on_connection 40 false [] both ≡ done u)
        × (Maps.find (number 5) u.connections ≡ none)
        × (Maps.find (number 6) u.connections ≡ some (record { conn = 41; ttl = 3 })))
unfolding Maps.find
Reach-disconnect_example =
    Reach-disconnect (number 5) (number 6) (record { conn = 40; ttl = 3 })
      (record { conn = 41; ttl = 3 }) [] reached refl refl (omega arith)

drawn_second : greate_dnid (draw 5 ∷ draw 6 ∷ []) first.connections ≡ done (number 6)
unfolding greate_dnid dnid_of Maps.find
drawn_second = refl

greate_dnid-FirstFree_example : FirstFree (draw 5 ∷ draw 6 ∷ []) first.connections (number 6)
greate_dnid-FirstFree_example =
    greate_dnid-FirstFree (draw 5 ∷ draw 6 ∷ []) first.connections (number 6) drawn_second

greate_dnid_ends_example :
    (dnid : ℕ) × (greate_dnid (draw 5 ∷ draw 6 ∷ []) first.connections ≡ done dnid)
greate_dnid_ends_example =
    greate_dnid_ends (draw 5 ∷ draw 6 ∷ []) first.connections
      ((omega (arith, dnid_of_parts (draw 5), dnid_of_parts (draw 6)), tt), (tt, tt)) (omega arith)
