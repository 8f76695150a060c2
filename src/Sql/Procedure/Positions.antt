-- ===== src/Sql/Procedure/Positions.antt =====
-- Where the parameters of a kind stand in a list, and when they stand behind the others.
use native.Mathlib.Decide.{dec_lt}
use pets_server_linux.Common.{
  get_elem?, some, ℕ, zero, suc, ◌+◌, ◌≤◌, ◌<◌, ◌≡◌, ◌↔◌, inl, inr, refl, sym, ap, ◌∙◌, subst, Bool,
  true, false, Bool-cases, List, [], ◌∷◌, length, if◌then◌else◌, arith,
}

-- The numbers from `i` on, `left` of them, of which `out` holds, and how many it does not hold of.
unfoldable pub positions : (ℕ → Bool) → ℕ → ℕ → List ℕ
positions out zero i = []
positions out (suc left) i =
    let rest = positions out left (i + 1) in if out i then i ∷ rest else rest

unfoldable pub ins : (ℕ → Bool) → ℕ → ℕ → ℕ
ins out zero i = 0
ins out (suc left) i = let rest = ins out left (i + 1) in if out i then rest else suc rest

-- `n` numbers from `i` on.
consecutive : ℕ → ℕ → List ℕ
consecutive i zero = []
consecutive i (suc n) = i ∷ consecutive (i + 1) n

-- Where `out` holds once, it holds from there on.
abbrev pub InsFirst : (ℕ → Bool) → ℕ → ℕ → Type 0
InsFirst out left i = (a b : ℕ) → i ≤ a → a < b → b < i + left → out a ≡ true → out b ≡ true

all_out :
    (out : ℕ → Bool) (left i : ℕ)
    → ((b : ℕ) → i ≤ b → b < i + left → out b ≡ true)
    → ins out left i ≡ 0
unfolding ins
all_out out zero i h = refl
all_out out (suc left) i h =
    rw (h i (omega arith) (omega arith))
      (all_out out left (i + 1) (λ b l u. h b (omega arith) (omega arith)))

no_ins : (out : ℕ → Bool) (left i b : ℕ) → ins out left i ≡ 0 → i ≤ b → b < i + left → out b ≡ true
unfolding ins
no_ins out zero i b h l u = absurd (omega arith)
no_ins out (suc left) i b h l u = elim (Bool-cases (out i)) [
  | inr kept ↦ absurd (omega (arith, rw kept at h))
  | inl first ↦ elim (dec_lt i b) [
    | no first_one ↦
        let same : i ≡ b = omega (arith, first_one) in subst (λ k. out k ≡ true) same first
    | yes above ↦ no_ins out left (i + 1) b (rw first at h) (omega (arith, above)) (omega arith)
  ]
]

consecutive_head : (x i n : ℕ) (xs : List ℕ) → x ∷ xs ≡ consecutive i (suc n) → x ≡ i
unfolding consecutive
consecutive_head x i n xs e = cc

ordered :
    (out : ℕ → Bool) (left i : ℕ)
    → positions out left i ≡ consecutive (i + ins out left i) (length (positions out left i))
    → InsFirst out left i
unfolding positions ins
ordered out zero i e a b la lb u h = absurd (omega arith)
ordered out (suc left) i e a b la lb u h = elim (Bool-cases (out i)) [
  | inl first ↦
      let none_in : ins out left (i + 1) ≡ 0 = omega (
        arith,
        consecutive_head i (i + ins out left (i + 1)) (length (positions out left (i + 1)))
            (positions out left (i + 1)) (rw (first, positions) at e),
      ) in
      no_ins out left (i + 1) b none_in (omega arith) (omega arith)
  | inr kept ↦ elim (dec_lt i a) [
    | no first_one ↦
        let same : i ≡ a = omega (arith, first_one) in
        cc (sym kept ∙ subst (λ k. out k ≡ true) (sym same) h)
    | yes above ↦
        ordered out left (i + 1) (shift (rw (kept, positions, ins) at e)) a b (omega (arith, above))
          lb (omega arith) h
  ]
]
  where
    shift :
        positions out left (i + 1)
          ≡ consecutive (i + suc (ins out left (i + 1))) (length (positions out left (i + 1)))
        → positions out left (i + 1)
          ≡ consecutive (i + 1 + ins out left (i + 1)) (length (positions out left (i + 1)))
    shift k = k ∙ ap (λ n. consecutive n (length (positions out left (i + 1)))) (omega arith)

placed :
    (out : ℕ → Bool) (left i : ℕ)
    → InsFirst out left i
    → positions out left i ≡ consecutive (i + ins out left i) (length (positions out left i))
unfolding positions ins consecutive
placed out zero i h = refl
placed out (suc left) i h =
    go (out i) refl (placed out left (i + 1) (λ a b l m u. h a b (omega arith) m (omega arith)))
  where
    n : ℕ
    n = ins out left (i + 1)

    go :
        (first : Bool)
        → out i ≡ first
        → positions out left (i + 1) ≡ consecutive (i + 1 + n) (length (positions out left (i + 1)))
        → (if first then i ∷ positions out left (i + 1) else positions out left (i + 1))
          ≡ consecutive (i + (if first then n else suc n)) (
              length (if first then i ∷ positions out left (i + 1) else positions out left (i + 1)))
    go true k e =
        let none_in : n ≡ 0 =
          all_out out left (i + 1) (λ b l u. h i b (omega arith) (omega arith) (omega arith) k) in
        ap (◌∷◌ i) (e ∙ ap (λ m. consecutive m (length (positions out left (i + 1)))) (omega arith))
        ∙ ap (λ m. m ∷ consecutive (i + n + 1) (length (positions out left (i + 1)))) (omega arith)
    go false k e = e ∙ ap (λ m. consecutive m (length (positions out left (i + 1)))) (omega arith)

-- The positions are those behind the others exactly if the others come first.
positions_iff :
    (out : ℕ → Bool) (left i : ℕ)
    → (positions out left i ≡ consecutive (i + ins out left i) (length (positions out left i)))
      ↔ InsFirst out left i
positions_iff out left i = (ordered out left i, placed out left i)

-- The number at each place `j` is `n + j`.
abbrev pub InPlace : ℕ → List ℕ → Type 0
InPlace n ks = (j k : ℕ) → get_elem? ks j ≡ some k → k ≡ n + j

consecutive-InPlace : (n m : ℕ) → InPlace n (consecutive n m)
unfolding consecutive
consecutive-InPlace n zero j k e = cc
consecutive-InPlace n (suc m) zero k e = omega (arith, same e)
  where
    same : some n ≡ some k → n ≡ k
    same h = cc
consecutive-InPlace n (suc m) (suc j) k e = omega (arith, consecutive-InPlace (n + 1) m j k e)

InPlace-consecutive : (n : ℕ) (ks : List ℕ) → InPlace n ks → ks ≡ consecutive n (length ks)
unfolding consecutive
InPlace-consecutive n [] h = refl
InPlace-consecutive n (k ∷ ks) h =
    let first : k ≡ n = omega (arith, h 0 k refl) in
    let rest : InPlace (n + 1) ks = λ j i e. omega (arith, h (suc j) i e) in
    ap (λ m. m ∷ ks) first ∙ ap (◌∷◌ n) (InPlace-consecutive (n + 1) ks rest)

-- The positions are in place behind the others exactly if the others come first.
pub positions-InPlace :
    (out : ℕ → Bool) (left i : ℕ)
    → InPlace (i + ins out left i) (positions out left i) ↔ InsFirst out left i
positions-InPlace out left i =
    let n : ℕ = i + ins out left i in
    let ks : List ℕ = positions out left i in
    let (ordered_by, placed_by) = positions_iff out left i in
    (
      λ k. ordered_by (InPlace-consecutive n ks k),
      λ k. subst (InPlace n) (sym (placed_by k)) (consecutive-InPlace n (length ks)),
    )
