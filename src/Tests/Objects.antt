-- ===== src/Tests/Objects.antt =====
-- Concrete runs of the object manager and of Parse.
use pets_server_linux.Common.{
  ℕ, suc, ◌+◌, ◌≡◌, refl, true, none, some, List, [], ◌∷◌, ◌++◌, done, fail, double_free, arith,
  Text, codes, length, All, if◌then◌else◌,
}
use pets_server_linux.Common.Maps
use pets_server_linux.Object.{new_pet}
use pets_server_linux.Object.Heap.{Heap}
use pets_server_linux.Object.Manager.{ObjectManager, run, release_object, clear, destroy, destruct}
use pets_server_linux.Object.Manager.Sweep.{find-run, swept}
use pets_server_linux.Object.Manager.Ownership.{
  Owned, Released, points_to, release_object-Released, clear-Owned,
}
use pets_server_linux.Object.Parse.{parse_loop}
use pets_server_linux.Object.Parse.Cuts.{join, Free, parse_loop-join}

-- Two pets and a number whose pet was released.
abbrev manager : ObjectManager
manager = record {
  max_size = 10;
  object_map = (3, some 100) ∷ (4, none) ∷ (7, some 200) ∷ [];
  remove_list = [];
}

abbrev heap : Heap
heap = (100, new_pet) ∷ (200, new_pet) ∷ []

ordered : Maps.Above 0 manager.object_map
ordered = ground arith

owned : Owned manager.object_map heap
unfolding Maps.find
owned = ((new_pet, refl), (λ e. omega arith, tt), ((new_pet, refl), tt, tt))

find-run_example :
    (Maps.find 4 (run manager).object_map ≡ swept (Maps.find 4 manager.object_map))
    × ((run manager).remove_list ≡ [])
find-run_example = find-run manager 4 ordered refl

release_object-Released_example :
    (o' : ObjectManager) × (heap' : Heap) × (release_object 3 manager heap ≡ done (true, o', heap'))
    × Released 3 100 manager o' heap heap'
unfolding Maps.find
release_object-Released_example = release_object-Released 3 100 manager heap ordered refl owned refl

clear-Owned_example :
    (h : Heap) × (clear manager heap ≡ done (record manager { max_size = 0 }, h))
    × ((q : ℕ)
        → Maps.find q h ≡ (if points_to manager.object_map q then none else Maps.find q heap))
clear-Owned_example = clear-Owned manager heap owned

freed_twice :
    (o' : ObjectManager) × (h : Heap) × (destroy manager heap ≡ done (true, o', h))
    × (destruct o' h ≡ fail double_free)
unfolding destroy destruct Maps.find Maps.erase pets_server_linux.Object.Heap.delete
freed_twice = (_, _, refl, refl)

parse_loop-join_example :
    (pieces : List Text) × (parse_loop
        (suc (suc (length (codes "tom 123") + 1)))
        (codes "tom 123" ++ b' ' ∷ [])
        (b' ' ∷ [])
        []
      ≡ done pieces)
    × (join b' ' pieces ≡ codes "tom 123")
    × All (Free b' ') pieces
parse_loop-join_example = parse_loop-join b' ' (codes "tom 123")
