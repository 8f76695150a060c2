-- ===== src/Object/Manager/Ownership.antt =====
-- Who owns the objects: every pointer of the map is a live object and no object is pointed to
-- twice. What releasing, sweeping and clearing do to the heap.
use pets_server_linux.Common.{
  ℕ, ◌+◌, ◌≡◌, ◌≢◌, refl, ◌∙◌, Bool, true, false, ◌||◌, none, some, [], ◌∷◌, done, fail, arith,
  ◌==◌, if◌then◌else◌, double_free,
}
use pets_server_linux.Common.Maps
use pets_server_linux.Object.{Pet}
use pets_server_linux.Object.Heap.{Heap, delete, delete_freed}
use pets_server_linux.Object.Manager.{
  ObjectMap, ObjectManager, run, release_object, locate, delete_all, clear, destroy, destruct,
}
use pets_server_linux.Object.Manager.Sweep.{swept, find-run}

abbrev pub Avoids : ℕ → ObjectMap → Type 0
Avoids p [] = Unit {0}
Avoids p ((k, none) ∷ m) = Avoids p m
Avoids p ((k, some q) ∷ m) = (q ≢ p) × Avoids p m

abbrev pub Owned : ObjectMap → Heap → Type 0
Owned [] heap = Unit {0}
Owned ((k, none) ∷ m) heap = Owned m heap
Owned ((k, some p) ∷ m) heap =
    ((pet : Pet) × (Maps.find p heap ≡ some pet)) × Avoids p m × Owned m heap

-- Whether a map has a pointer to an address.
abbrev pub points_to : ObjectMap → ℕ → Bool
points_to [] q = false
points_to ((k, none) ∷ m) q = points_to m q
points_to ((k, some p) ∷ m) q = p == q || points_to m q

Owned-erase :
    (p : ℕ) (m : ObjectMap) (heap : Heap) → Avoids p m → Owned m heap → Owned m (Maps.erase p heap)
Owned-erase p [] heap a o = tt
Owned-erase p ((k, none) ∷ m) heap a o = Owned-erase p m heap a o
Owned-erase p ((k, some q) ∷ m) heap a o = (
  (o.0.0, ground (arith, Maps.find-erase p q heap, o.0.1, a.0)),
  o.1,
  Owned-erase p m heap a.1 o.2,
)

Avoids-insert : (p k : ℕ) (m : ObjectMap) → Avoids p m → Avoids p (Maps.insert k none m)
unfolding Maps.insert
Avoids-insert p k [] a = tt
Avoids-insert p k ((j, none) ∷ m) a = ground (arith, Avoids-insert p k m a)
Avoids-insert p k ((j, some q) ∷ m) a = ground (arith, Avoids-insert p k m a.1)

Avoids-found : (p q k : ℕ) (m : ObjectMap) → Avoids p m → Maps.find k m ≡ some (some q) → q ≢ p
unfolding Maps.find
Avoids-found p q k [] a e = cc
Avoids-found p q k ((j, none) ∷ m) a e = ground (arith, Avoids-found p q k m a)
Avoids-found p q k ((j, some r) ∷ m) a e = ground (arith, Avoids-found p q k m a.1)

still_live :
    (p q : ℕ) (heap : Heap)
    → (pet : Pet) × (Maps.find q heap ≡ some pet)
    → p ≢ q
    → (pet : Pet) × (Maps.find q (Maps.erase p heap) ≡ some pet)
still_live p q heap (pet, e) h = (pet, ground (arith, Maps.find-erase p q heap))

-- Entry `k` is set to null when its object is freed.
Owned-release :
    (n k p : ℕ) (m : ObjectMap) (heap : Heap)
    → Maps.Above n m
    → Owned m heap
    → Maps.find k m ≡ some (some p)
    → Owned (Maps.insert k none m) (Maps.erase p heap)
unfolding Maps.insert Maps.find
Owned-release n k p [] heap s o e = cc
Owned-release n k p ((j, none) ∷ m) heap s o e =
    ground (arith, Owned-release (j + 1) k p m heap s.1 o, Maps.find_below (j + 1) k m s.1)
Owned-release n k p ((j, some q) ∷ m) heap s o e = ground (
  arith,
  Owned-erase q m heap o.1 o.2,
  Owned-release (j + 1) k p m heap s.1 o.2,
  Avoids-found q p k m o.1,
  Maps.find_below (j + 1) k m s.1,
  still_live p q heap o.0,
  Avoids-insert q k m o.1,
)

owner :
    (k p : ℕ) (m : ObjectMap) (heap : Heap)
    → Owned m heap
    → Maps.find k m ≡ some (some p)
    → (pet : Pet) × (Maps.find p heap ≡ some pet)
unfolding Maps.find
owner k p [] heap w e = cc
owner k p ((j, none) ∷ m) heap w e = ground (arith, owner k p m heap w)
owner k p ((j, some q) ∷ m) heap w e = ground (arith, w.0, owner k p m heap w.2)

release_object_found :
    (dnid p : ℕ) (o : ObjectManager) (heap : Heap)
    → Owned o.object_map heap
    → Maps.find dnid o.object_map ≡ some (some p)
    → release_object dnid o heap
      ≡ done (true, record o { object_map = Maps.insert dnid none o.object_map }, Maps.erase p heap)
unfolding release_object delete
release_object_found dnid p o heap w e = ground (arith, owner dnid p o.object_map heap w e)

-- The outcome of releasing the object of a number and then sweeping.
pub record Released (dnid p : ℕ) (o o' : ObjectManager) (heap heap' : Heap) : Type 0 where
  pub owned : Owned o'.object_map heap'
  pub freed : Maps.find p heap' ≡ none
  hidden : locate dnid o' ≡ none
  pub kept :
      (k : ℕ)
      → Maps.find k (run o').object_map
        ≡ (if dnid == k then none else swept (Maps.find k o.object_map))

-- In a map in order, which owns its objects, with no removal pending, releasing the object of a
-- number frees that object and answers true; the number is then not located, the next Run drops
-- its entry and keeps every other entry with an object, and the map still owns what it points to.
pub release_object-Released :
    (dnid p : ℕ) (o : ObjectManager) (heap : Heap)
    → Maps.Above 0 o.object_map
    → o.remove_list ≡ []
    → Owned o.object_map heap
    → Maps.find dnid o.object_map ≡ some (some p)
    → (o' : ObjectManager) × (heap' : Heap) × (release_object dnid o heap ≡ done (true, o', heap'))
      × Released dnid p o o' heap heap'
unfolding locate
release_object-Released dnid p o heap s r w e =
    let o' : ObjectManager = record o { object_map = Maps.insert dnid none o.object_map } in
    let s' : Maps.Above 0 o'.object_map =
      Maps.insert-Above 0 dnid none o.object_map (omega arith) s in
    (
      o',
      Maps.erase p heap,
      release_object_found dnid p o heap w e,
      record {
        owned = Owned-release 0 dnid p o.object_map heap s w e;
        freed = ground (arith, Maps.find-erase p p heap);
        hidden = ground (arith, Maps.find-insert dnid dnid none o.object_map);
        kept =
            λ k. (find-run o' k s' r).0 ∙ ground (arith, Maps.find-insert dnid k none o.object_map);
      },
    )

-- Deleting every object of an owned map.
delete_all-Owned :
    (m : ObjectMap) (heap : Heap)
    → Owned m heap
    → (h : Heap) × (delete_all m heap ≡ done h)
      × ((q : ℕ) → Maps.find q h ≡ (if points_to m q then none else Maps.find q heap))
unfolding delete_all delete
delete_all-Owned [] heap w = (heap, refl, λ q. refl)
delete_all-Owned ((k, none) ∷ m) heap w = delete_all-Owned m heap w
delete_all-Owned ((k, some p) ∷ m) heap w =
    let (h, e, f) = delete_all-Owned m (Maps.erase p heap) (Owned-erase p m heap w.1 w.2) in
    (h, ground (arith, w.0.1, e), λ q. ground (arith, f q, Maps.find-erase p q heap))

-- Clear frees exactly the objects of an owned map, each once; the map keeps its pointers.
pub clear-Owned :
    (o : ObjectManager) (heap : Heap)
    → Owned o.object_map heap
    → (h : Heap) × (clear o heap ≡ done (record o { max_size = 0 }, h))
      × ((q : ℕ) → Maps.find q h ≡ (if points_to o.object_map q then none else Maps.find q heap))
unfolding clear
clear-Owned o heap w = let (h, e, f) = delete_all-Owned o.object_map heap w in (h, rw e, f)

delete_all_again :
    (k p : ℕ) (m : ObjectMap) (heap : Heap)
    → Maps.find k m ≡ some (some p)
    → ((q : ℕ) → points_to m q ≡ true → Maps.find q heap ≡ none)
    → delete_all m heap ≡ fail double_free
unfolding delete_all Maps.find
delete_all_again k p [] heap e f = cc
delete_all_again k p ((j, none) ∷ m) heap e f = ground (arith, delete_all_again k p m heap)
delete_all_again k p ((j, some q) ∷ m) heap e f = ground (arith, delete_freed q heap, f q)

-- If the map owns its objects and has one when Destroy is called, then Destroy succeeds and the
-- destructor after it ends in a double free.
destruct-destroy :
    (k p : ℕ) (o : ObjectManager) (heap : Heap)
    → Owned o.object_map heap
    → Maps.find k o.object_map ≡ some (some p)
    → (o' : ObjectManager) × (h : Heap) × (destroy o heap ≡ done (true, o', h))
      × (destruct o' h ≡ fail double_free)
unfolding destroy destruct clear
destruct-destroy k p o heap w e =
    let (h, d, f) = clear-Owned o heap w in
    (
      record o { max_size = 0 },
      h,
      rw d,
      rw (delete_all_again k p o.object_map h e (λ q t. ground (arith, f q))),
    )
