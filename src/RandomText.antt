-- ===== src/RandomText.antt =====
-- NetMsg/Algorithm.hpp: srand_str, a random text of letters and digits.
use pets_server_linux.Common.{
  ℕ, zero, suc, ◌+◌, ◌%◌, ◌≤◌, ◌≡◌, ◌⊎◌, refl, sym, ◌-◌, ◌∙◌, ap, List, [], ◌∷◌, ◌++◌, append_assoc,
  append-nil, Text, All, length, ◌==◌, if◌then◌else◌, Outcome, done, stuck, arith,
}

-- The two results of rand() that a character takes.
pub record Draws : Type 0 where
  pub type_draw : ℕ
  pub ch_draw : ℕ

-- ch, by its type: a capital, a small letter or a digit.
unfoldable random_char : Draws → ℕ
random_char d =
    if d.type_draw % 3 == 0
    then d.ch_draw % (b'Z' - b'A' + 1) + b'A'
    else (if d.type_draw % 3 == 1
        then d.ch_draw % (b'z' - b'a' + 1) + b'a'
        else d.ch_draw % (b'9' - b'0' + 1) + b'0')

-- srand_str: `len` characters appended to `nonce`, over the draws that it makes.
unfoldable pub srand_str : List Draws → Text → ℕ → Outcome Text
unfolding random_char
srand_str ds nonce zero = done nonce
srand_str [] nonce (suc len) = stuck
srand_str (d ∷ ds) nonce (suc len) = srand_str ds (nonce ++ random_char d ∷ []) len

-- A capital, a small letter or a digit.
abbrev IsAlphanumeric : ℕ → Type 0
IsAlphanumeric c = ((b'A' ≤ c) × (c ≤ b'Z')) ⊎ ((b'a' ≤ c) × (c ≤ b'z')) ⊎ ((b'0' ≤ c) × (c ≤ b'9'))

random_char-IsAlphanumeric : (d : Draws) → IsAlphanumeric (random_char d)
unfolding random_char
random_char-IsAlphanumeric d = ground arith

-- With draws for every character it ends; it keeps the text that it was given and appends exactly
-- `len` characters to it, each a letter or a digit, none of them a 0 that would be dropped.
srand_str-IsAlphanumeric :
    (ds : List Draws) (nonce : Text) (len : ℕ)
    → len ≤ length ds
    → (s : Text) × (srand_str ds nonce len ≡ done (nonce ++ s))
      × (length s ≡ len)
      × All IsAlphanumeric s
unfolding srand_str
srand_str-IsAlphanumeric ds nonce zero h = ([], ap done (sym (append-nil nonce)), refl, tt)
srand_str-IsAlphanumeric [] nonce (suc len) h = absurd (omega arith)
srand_str-IsAlphanumeric (d ∷ ds) nonce (suc len) h =
    let (s, e, n, all) =
      srand_str-IsAlphanumeric ds (nonce ++ random_char d ∷ []) len (omega arith) in
    (
      random_char d ∷ s,
      e ∙ ap done (append_assoc nonce (random_char d ∷ []) s),
      ap suc n,
      (random_char-IsAlphanumeric d, all),
    )
