-- ===== src/Object/Heap.antt =====
-- The objects that `new` has made and `delete` has not yet freed, by address.
use pets_server_linux.Common.{
  ℕ, ◌≡◌, none, some, List, Outcome, done, fail, double_free, arith, ◌==◌, if◌then◌else◌,
}
use pets_server_linux.Common.Maps
use pets_server_linux.Object.{Pet}

abbrev pub Heap : Type 0
Heap = List (ℕ × Pet)

-- `delete p`, for a pointer that is not null.
unfoldable pub delete : ℕ → Heap → Outcome Heap
delete p heap = elim (Maps.find p heap) [
  | none ↦ fail double_free
  | some pet ↦ done (Maps.erase p heap)
]

-- A freed address is not an object, and the other objects stay.
delete_lem :
    (p : ℕ) (heap : Heap) (pet : Pet)
    → Maps.find p heap ≡ some pet
    → (h : Heap) × (delete p heap ≡ done h)
      × ((q : ℕ) → Maps.find q h ≡ (if p == q then none else Maps.find q heap))
unfolding delete
delete_lem p heap pet e = (Maps.erase p heap, ground arith, λ q. Maps.find-erase p q heap)

pub delete_freed :
    (p : ℕ) (heap : Heap) → Maps.find p heap ≡ none → delete p heap ≡ fail double_free
unfolding delete
delete_freed p heap e = ground arith
