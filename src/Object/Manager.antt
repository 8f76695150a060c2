-- ===== src/Object/Manager.antt =====
-- ObjectManager.hpp and ObjectManager.cpp, with the part of PetsManager that makes objects.
pub mod Sweep
pub mod Ownership
use pets_server_linux.Common.{
  ℕ, ◌+◌, ◌≡◌, refl, Bool, true, false, Option, none, some, List, [], ◌∷◌, ◌++◌, Outcome, done,
  fail, ◌>>=◌, arith, ◌==◌, if◌then◌else◌, length,
}
use pets_server_linux.Common.Maps
use pets_server_linux.Object.{Pet, new_pet, iid_pets}
use pets_server_linux.Object.Heap.{Heap, delete}

-- std::map<DNID, Object*>; a null pointer is `none`.
abbrev pub ObjectMap : Type 0
ObjectMap = List (ℕ × Option ℕ)

pub record ObjectManager : Type 0 where
  pub max_size : ℕ
  pub object_map : ObjectMap
  pub remove_list : List ℕ

-- CObjectManager::CObjectManager, followed by Initialize: the constructor leaves m_lMaxSize unset.
unfoldable pub initialize : ℕ → ObjectManager
initialize max = record { max_size = max; object_map = []; remove_list = [] }

-- The first loop of Run: the keys with a null pointer go to the end of the list.
unfoldable pub mark_null : ObjectMap → List ℕ → List ℕ
mark_null [] marked = marked
mark_null ((k, none) ∷ m) marked = mark_null m (marked ++ k ∷ [])
mark_null ((k, some p) ∷ m) marked = mark_null m marked

-- The second loop: an entry for each marked key is erased.
unfoldable pub erase_marked : List ℕ → ObjectMap → ObjectMap
erase_marked [] m = m
erase_marked (k ∷ ks) m = erase_marked ks (Maps.erase k m)

-- CObjectManager::Run
unfoldable pub run : ObjectManager → ObjectManager
unfolding mark_null erase_marked
run o = record o {
  object_map = erase_marked (mark_null o.object_map o.remove_list) o.object_map;
  remove_list = [];
}

-- CObjectManager::RealseObject
unfoldable pub release_object : ℕ → ObjectManager → Heap → Outcome (Bool × ObjectManager × Heap)
release_object dnid o heap = elim (Maps.find dnid o.object_map) [
  | none ↦ done (false, o, heap)
  | some none ↦ done (false, o, heap)
  | some (some p) ↦ delete p heap >>= λ heap'.
      done (true, record o { object_map = Maps.insert dnid none o.object_map }, heap')
]

-- CObjectManager::_Locate
unfoldable pub locate : ℕ → ObjectManager → Option ℕ
locate gid o = elim (Maps.find gid o.object_map) [ none ↦ none | some p ↦ p ]

-- CObjectManager::size
abbrev pub size : ObjectManager → ℕ
size o = length o.object_map

-- The loop of TraversalObjects: the callback works on a state and may write the pointer; it ends the
-- loop by returning false.
unfoldable traverse {ℓ} :
    {S : Type ℓ} → (ℕ → S → Bool × Option ℕ × S) → ObjectMap → S → ObjectMap × S
traverse f [] s = ([], s)
traverse f ((k, none) ∷ m) s = let (m', s') = traverse f m s in ((k, none) ∷ m', s')
traverse f ((k, some p) ∷ m) s =
    let (go_on, p', s') = f p s in
    let rest = traverse f m s' in if go_on then ((k, p') ∷ rest.0, rest.1) else ((k, p') ∷ m, s')

-- CObjectManager::TraversalObjects
unfoldable traversal_objects {ℓ} :
    {S : Type ℓ} → (ℕ → S → Bool × Option ℕ × S) → ObjectManager → S → ℕ × ObjectManager × S
unfolding traverse
traversal_objects f o s =
    let (m, s') = traverse f o.object_map s in (length m, record o { object_map = m }, s')

-- The loop of Clear. The pointers in the map stay as they are.
unfoldable pub delete_all : ObjectMap → Heap → Outcome Heap
delete_all [] heap = done heap
delete_all ((k, none) ∷ m) heap = delete_all m heap
delete_all ((k, some p) ∷ m) heap = do heap' ← delete p heap; delete_all m heap'

-- CObjectManager::Clear
unfoldable pub clear : ObjectManager → Heap → Outcome (ObjectManager × Heap)
unfolding delete_all
clear o heap = do heap' ← delete_all o.object_map heap; done (record o { max_size = 0 }, heap')

-- CObjectManager::Destroy
unfoldable pub destroy : ObjectManager → Heap → Outcome (Bool × ObjectManager × Heap)
unfolding clear
destroy o heap = do (o', heap') ← clear o heap; done (true, o', heap')

-- CObjectManager::~CObjectManager
unfoldable pub destruct : ObjectManager → Heap → Outcome (ObjectManager × Heap)
unfolding clear
destruct o heap = clear o heap

-- PetsManager::CreateObject: the address is the allocator's choice.
unfoldable create_object : ℕ → ℕ → Heap → Option ℕ × Heap
create_object iid address heap =
    if iid == iid_pets then (some address, Maps.insert address new_pet heap) else (none, heap)
