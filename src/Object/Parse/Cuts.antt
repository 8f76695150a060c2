-- ===== src/Object/Parse/Cuts.antt =====
-- What the loop of Parse computes, and when it ends.
use pets_server_linux.Common.{
  ℕ, zero, suc, ◌+◌, ◌≤◌, ◌<◌, ◌≡◌, ◌≢◌, refl, sym, ap, ◌∙◌, false, some, List, [], ◌∷◌, ◌++◌,
  append_assoc, append-nil, Text, length, length-append, take-append_exact, take, drop, leb, leb→le,
  leb_false→lt, ◌⊎◌, ◌==◌, ==_iff, if◌then◌else◌, done, fail, stuck, arith, no_return, inl, inr,
  Bool-cases, All,
}
use pets_server_linux.Object.Parse.{starts_with, find, parse_loop, parse}

-- The specification for a delimiter of one character: the runs between its occurrences, where
-- `acc` is the run so far.
split_on : ℕ → Text → Text → List Text
split_on c acc [] = acc ∷ []
split_on c acc (x ∷ xs) =
    let cut = acc ∷ split_on c [] xs in
    let go_on = split_on c (acc ++ x ∷ []) xs in if c == x then cut else go_on

drop_whole : (n : ℕ) (xs : Text) → length xs ≡ n → drop n xs ≡ []
drop_whole zero [] h = refl
drop_whole zero (x ∷ xs) h = absurd (omega arith)
drop_whole (suc n) [] h = refl
drop_whole (suc n) (x ∷ xs) h = drop_whole n xs (omega arith)

-- The first cut of a text that ends in the delimiter: it was the last run, or more is left.
data FirstCut (c : ℕ) (t : Text) : Type 0 where
  last :
      find (c ∷ []) (t ++ c ∷ []) ≡ some (length t)
      → ((acc : Text) → split_on c acc t ≡ (acc ++ t) ∷ [])
      → FirstCut c t
  more :
      (pos : ℕ) (rest : Text)
      → find (c ∷ []) (t ++ c ∷ []) ≡ some pos
      → drop (pos + 1) (t ++ c ∷ []) ≡ rest ++ c ∷ []
      → ((acc : Text) → split_on c acc t ≡ (acc ++ take pos (t ++ c ∷ [])) ∷ split_on c [] rest)
      → length rest < length t
      → FirstCut c t

find_here : (c : ℕ) (s : Text) → find (c ∷ []) (c ∷ s) ≡ some 0
unfolding find starts_with
find_here c s = ground arith

find_later :
    (c x pos : ℕ) (s : Text)
    → (c == x) ≡ false
    → find (c ∷ []) s ≡ some pos
    → find (c ∷ []) (x ∷ s) ≡ some (suc pos)
unfolding find starts_with
find_later c x pos s h e = ground arith

cut_later : (c x : ℕ) (t : Text) → (c == x) ≡ false → FirstCut c t → FirstCut c (x ∷ t)
unfolding split_on
cut_later c x t h (last e k) =
    last (find_later c x (length t) (t ++ c ∷ []) h e)
      (λ acc. rw h (k (acc ++ x ∷ []) ∙ ap (λ l. l ∷ []) (append_assoc acc (x ∷ []) t)))
cut_later c x t h (more pos rest e d k l) =
    more (suc pos) rest (find_later c x pos (t ++ c ∷ []) h e)
      (let shift : suc pos + 1 ≡ suc (pos + 1) = omega arith in rw shift d)
      (λ acc. rw h (
        k (acc ++ x ∷ [])
        ∙ ap (λ l. l ∷ split_on c [] rest) (append_assoc acc (x ∷ []) (take pos (t ++ c ∷ [])))))
      (omega arith)

first_cut : (c : ℕ) (t : Text) → FirstCut c t
unfolding split_on find starts_with
first_cut c [] = last (find_here c []) (λ acc. ap (λ l. l ∷ []) (sym (append-nil acc)))
first_cut c (x ∷ t) = elim (Bool-cases (c == x)) [
  | inl hit ↦
      more 0 t (ground arith) refl
        (λ acc. rw hit (ap (λ l. l ∷ split_on c [] t) (sym (append-nil acc)))) (omega arith)
  | inr miss ↦ cut_later c x t miss (first_cut c t)
]

loop_end : (fuel c : ℕ) (res : List Text) → 0 < fuel → parse_loop fuel [] (c ∷ []) res ≡ done res
unfolding parse_loop find starts_with
loop_end zero c res h = absurd (omega arith)
loop_end (suc fuel) c res h = refl

-- One round of the loop.
loop_cut :
    (fuel c pos : ℕ) (strs left : Text) (res : List Text)
    → find (c ∷ []) strs ≡ some pos
    → drop (pos + 1) strs ≡ left
    → parse_loop (suc fuel) strs (c ∷ []) res
      ≡ parse_loop fuel left (c ∷ []) (res ++ take pos strs ∷ [])
unfolding parse_loop
loop_cut fuel c pos strs left res e d = rw (e, parse_loop) (rw d refl)

parse_loop-split_on :
    (fuel c : ℕ) (t : Text) (res : List Text)
    → suc (length t) < fuel
    → parse_loop fuel (t ++ c ∷ []) (c ∷ []) res ≡ done (res ++ split_on c [] t)
parse_loop-split_on zero c t res h = absurd (omega arith)
parse_loop-split_on (suc fuel) c t res h = elim (first_cut c t) [
  | last e k ↦
      let len : length (t ++ c ∷ []) ≡ length t + 1 = length-append t (c ∷ []) in
      loop_cut fuel c (length t) (t ++ c ∷ []) [] res e (drop_whole (length t + 1) _ len)
      ∙ loop_end fuel c _ (omega arith)
      ∙ ap (λ l. done (res ++ l))
          (ap (λ l. l ∷ []) (take-append_exact (length t) t (c ∷ []) refl) ∙ sym (k []))
  | more pos rest e d k l ↦
      loop_cut fuel c pos (t ++ c ∷ []) (rest ++ c ∷ []) res e d
      ∙ parse_loop-split_on fuel c rest (res ++ take pos (t ++ c ∷ []) ∷ []) (omega arith)
      ∙ ap done (
          append_assoc res (take pos (t ++ c ∷ []) ∷ []) (split_on c [] rest)
          ∙ ap (◌++◌ res) (sym (k [])))
]

-- The loop of Parse with a delimiter of one character, as Parse starts it: it ends within its fuel,
-- and its pieces are the runs of the text between the delimiters, empty ones included.
parse_loop-split :
    (c : ℕ) (str : Text)
    → parse_loop (suc (suc (length str + 1))) (str ++ c ∷ []) (c ∷ []) [] ≡ done (split_on c [] str)
parse_loop-split c str = parse_loop-split_on (suc (suc (length str + 1))) c str [] (omega arith)

-- Joined again with the delimiter the runs are the text.
pub join : ℕ → List Text → Text
join c [] = []
join c (p ∷ []) = p
join c (p ∷ q ∷ ps) = p ++ c ∷ join c (q ∷ ps)

split_on-cons : (c : ℕ) (acc t : Text) → (p : Text) × (ps : List Text) × (split_on c acc t ≡ p ∷ ps)
unfolding split_on
split_on-cons c acc [] = (acc, [], refl)
split_on-cons c acc (x ∷ xs) = elim (Bool-cases (c == x)) [
  | inl hit ↦ (acc, split_on c [] xs, rw hit)
  | inr miss ↦ rw miss (split_on-cons c (acc ++ x ∷ []) xs)
]

join_cons : (c : ℕ) (p : Text) (ps : List Text) → ps ≢ [] → join c (p ∷ ps) ≡ p ++ c ∷ join c ps
unfolding join
join_cons c p [] h = absurd (h refl)
join_cons c p (q ∷ ps) h = refl

split_on-ne-nil : (c : ℕ) (acc t : Text) → split_on c acc t ≢ []
split_on-ne-nil c acc t e = let (p, ps, h) = split_on-cons c acc t in cc

join-split_acc : (c : ℕ) (acc t : Text) → join c (split_on c acc t) ≡ acc ++ t
unfolding split_on
join-split_acc c acc [] = unfold join in sym (append-nil acc)
join-split_acc c acc (x ∷ xs) = elim (Bool-cases (c == x)) [
  | inl hit ↦ rw hit (
      join_cons c acc (split_on c [] xs) (split_on-ne-nil c [] xs)
      ∙ rw (join-split_acc c [] xs) (ground (arith, (==_iff c x).0 hit)))
  | inr miss ↦ rw miss (join-split_acc c (acc ++ x ∷ []) xs ∙ append_assoc acc (x ∷ []) xs)
]

-- No run has the delimiter in it.
abbrev pub Free : ℕ → Text → Type 0
Free c [] = Unit {0}
Free c (x ∷ xs) = (c ≢ x) × Free c xs

Free-snoc : (c x : ℕ) (acc : Text) → Free c acc → c ≢ x → Free c (acc ++ x ∷ [])
Free-snoc c x [] f h = (h, tt)
Free-snoc c x (y ∷ ys) f h = (f.0, Free-snoc c x ys f.1 h)

split_on-Free : (c : ℕ) (acc t : Text) → Free c acc → All (Free c) (split_on c acc t)
unfolding split_on
split_on-Free c acc [] f = (f, tt)
split_on-Free c acc (x ∷ xs) f = elim (Bool-cases (c == x)) [
  | inl hit ↦ rw hit (f, split_on-Free c [] xs tt)
  | inr miss ↦
      rw miss
        (split_on-Free c (acc ++ x ∷ []) xs (Free-snoc c x acc f (ground (arith, ==_iff c x))))
]

-- The loop of Parse with a delimiter of one character, as Parse starts it, ends within its fuel; its
-- pieces, joined with the delimiter, are the text, and none has the delimiter in it.
pub parse_loop-join :
    (c : ℕ) (str : Text)
    → (pieces : List Text) × (parse_loop (suc (suc (length str + 1))) (str ++ c ∷ []) (c ∷ []) []
        ≡ done pieces)
      × (join c pieces ≡ str)
      × All (Free c) pieces
parse_loop-join c str =
    (split_on c [] str, parse_loop-split c str, join-split_acc c [] str, split_on-Free c [] str tt)

-- An empty delimiter is found at the start of every text, so the loop never ends.
parse_loop_empty : (fuel : ℕ) (strs : Text) (res : List Text) → parse_loop fuel strs [] res ≡ stuck
unfolding parse_loop find starts_with
parse_loop_empty zero strs res = refl
parse_loop_empty (suc fuel) [] res = parse_loop_empty fuel [] (res ++ [] ∷ [])
parse_loop_empty (suc fuel) (x ∷ xs) res = parse_loop_empty fuel (x ∷ xs) (res ++ [] ∷ [])

-- A text of two characters or more, cut at one character, runs off the end of Parse, which
-- has no return statement there; only the shorter texts return, and with no piece.
pub parse_cases :
    (c : ℕ) (str : Text)
    → ((length str ≤ 1) × (parse str (c ∷ []) ≡ done []))
      ⊎ ((1 < length str) × (parse str (c ∷ []) ≡ fail no_return))
unfolding parse
parse_cases c str = elim (Bool-cases (leb (length str) 1)) [
  | inl short ↦ inl (leb→le (length str) 1 short, rw short)
  | inr long ↦ inr (leb_false→lt (length str) 1 long, rw (long, parse_loop-split c str))
]
