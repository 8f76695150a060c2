-- ===== src/Common/Maps.antt =====
-- std::map with number keys: an association list, in the order of the keys, which is the order of
-- iteration.
use pets_server_linux.Common.{
  ℕ, ◌+◌, ◌≡◌, refl, ◌<◌, ◌≤◌, Option, none, some, List, [], ◌∷◌, arith, ltb, ◌==◌, if◌then◌else◌,
}

-- A function changed at one place.
abbrev pub at {ℓ} : {A : Type ℓ} → ℕ → A → (ℕ → A) → ℕ → A
at d v f j = if d == j then v else f j

module _ {ℓ} {V : Type ℓ} where
  unfoldable pub find : ℕ → List (ℕ × V) → Option V
  find k [] = none
  find k ((j, v) ∷ m) = if j == k then some v else find k m

  unfoldable pub insert : ℕ → V → List (ℕ × V) → List (ℕ × V)
  insert k v [] = (k, v) ∷ []
  insert k v ((j, w) ∷ m) =
      if k == j
      then (k, v) ∷ m
      else (if ltb k j then (k, v) ∷ (j, w) ∷ m else (j, w) ∷ insert k v m)

  unfoldable pub erase : ℕ → List (ℕ × V) → List (ℕ × V)
  erase k [] = []
  erase k ((j, v) ∷ m) = if j == k then erase k m else (j, v) ∷ erase k m

  unfoldable pub keys : List (ℕ × V) → List ℕ
  keys [] = []
  keys ((k, v) ∷ m) = k ∷ keys m

  pub find-insert :
      (k j : ℕ) (v : V) (m : List (ℕ × V))
      → find j (insert k v m) ≡ (if k == j then some v else find j m)
  unfolding find insert
  find-insert k j v [] = refl
  find-insert k j v ((i, w) ∷ m) = ground (arith, find-insert k j v m)

  pub find-erase :
      (k j : ℕ) (m : List (ℕ × V)) → find j (erase k m) ≡ (if k == j then none else find j m)
  unfolding find erase
  find-erase k j [] = ground arith
  find-erase k j ((i, w) ∷ m) = ground (arith, find-erase k j m)

  -- The keys rise, and lie above `n` (or are at least `n`).
  abbrev pub Above : ℕ → List (ℕ × V) → Type 0
  Above n [] = Unit {0}
  Above n ((k, v) ∷ m) = (n ≤ k) × Above (k + 1) m

  Above-mono : {a b : ℕ} (m : List (ℕ × V)) → a ≤ b → Above b m → Above a m
  Above-mono [] h s = tt
  Above-mono ((k, v) ∷ m) h s = (omega arith, s.1)

  pub insert-Above :
      (n k : ℕ) (v : V) (m : List (ℕ × V)) → n ≤ k → Above n m → Above n (insert k v m)
  unfolding insert
  insert-Above n k v [] h s = (h, tt)
  insert-Above n k v ((j, w) ∷ m) h s = ground (arith, insert-Above (j + 1) k v m, s.1)

  pub erase-Above : (n k : ℕ) (m : List (ℕ × V)) → Above n m → Above n (erase k m)
  unfolding erase
  erase-Above n k [] s = tt
  erase-Above n k ((j, w) ∷ m) s =
      ground (arith, erase-Above (j + 1) k m s.1, Above-mono {a = n} {b = j + 1} (erase k m))

  pub find_below : (n k : ℕ) (m : List (ℕ × V)) → Above n m → k < n → find k m ≡ none
  unfolding find
  find_below n k [] s h = refl
  find_below n k ((j, v) ∷ m) s h = ground (arith, find_below (j + 1) k m s.1)
