-- ===== src/Object/Manager/Sweep.antt =====
-- Run removes the entries whose object has been released, and nothing else.
use pets_server_linux.Common.{
  ℕ, ◌+◌, ◌≡◌, refl, Bool, true, false, ◌||◌, Option, none, some, List, [], ◌∷◌, ◌++◌, arith, ◌==◌,
  if◌then◌else◌,
}
use pets_server_linux.Common.Maps
use pets_server_linux.Object.Manager.{ObjectMap, ObjectManager, mark_null, erase_marked, run}

-- Whether a key is in a list.
pub listed : ℕ → List ℕ → Bool
listed k [] = false
listed k (j ∷ js) = j == k || listed k js

listed-append : (k : ℕ) (xs ys : List ℕ) → listed k (xs ++ ys) ≡ (listed k xs || listed k ys)
unfolding listed
listed-append k [] ys = refl
listed-append k (x ∷ xs) ys = ground (arith, listed-append k xs ys)

find-erase_marked :
    (k : ℕ) (ks : List ℕ) (m : ObjectMap)
    → Maps.find k (erase_marked ks m) ≡ (if listed k ks then none else Maps.find k m)
unfolding erase_marked listed
find-erase_marked k [] m = refl
find-erase_marked k (j ∷ js) m =
    ground (arith, find-erase_marked k js (Maps.erase j m), Maps.find-erase j k m)

-- Whether an entry is there and holds a null pointer.
abbrev null_at : Option (Option ℕ) → Bool
null_at none = false
null_at (some none) = true
null_at (some (some p)) = false

-- The marked keys are those with a null pointer, and those marked before.
listed-mark_null :
    (n k : ℕ) (m : ObjectMap) (ks : List ℕ)
    → Maps.Above n m
    → listed k (mark_null m ks) ≡ (listed k ks || null_at (Maps.find k m))
unfolding mark_null listed Maps.find
listed-mark_null n k [] ks s = ground arith
listed-mark_null n k ((j, none) ∷ m) ks s = ground (
  arith,
  listed-mark_null (j + 1) k m (ks ++ j ∷ []) s.1,
  listed-append k ks (j ∷ []),
  Maps.find_below (j + 1) k m s.1,
)
listed-mark_null n k ((j, some p) ∷ m) ks s =
    ground (arith, listed-mark_null (j + 1) k m ks s.1, Maps.find_below (j + 1) k m s.1)

-- What Run leaves at an entry.
abbrev pub swept : Option (Option ℕ) → Option (Option ℕ)
swept none = none
swept (some none) = none
swept (some (some p)) = some (some p)

-- Run removes exactly the entries with a null pointer and leaves every other entry as it is, when
-- the map is in order and no removal was pending, and nothing is pending afterwards.
pub find-run :
    (o : ObjectManager) (k : ℕ)
    → Maps.Above 0 o.object_map
    → o.remove_list ≡ []
    → (Maps.find k (run o).object_map ≡ swept (Maps.find k o.object_map))
      × ((run o).remove_list ≡ [])
unfolding run listed
find-run o k s e = ground (
  arith,
  find-erase_marked k (mark_null o.object_map o.remove_list) o.object_map,
  listed-mark_null 0 k o.object_map o.remove_list s,
)

erase_marked-Above :
    (n : ℕ) (ks : List ℕ) (m : ObjectMap) → Maps.Above n m → Maps.Above n (erase_marked ks m)
unfolding erase_marked
erase_marked-Above n [] m s = s
erase_marked-Above n (k ∷ ks) m s =
    erase_marked-Above n ks (Maps.erase k m) (Maps.erase-Above n k m s)

run-Above : (o : ObjectManager) → Maps.Above 0 o.object_map → Maps.Above 0 (run o).object_map
unfolding run
run-Above o s = erase_marked-Above 0 (mark_null o.object_map o.remove_list) o.object_map s
