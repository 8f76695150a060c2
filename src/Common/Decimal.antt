-- ===== src/Common/Decimal.antt =====
-- std::to_string and atoi.
use pets_server_linux.Common.{
  false, ℕ, zero, suc, ◌+◌, ◌-◌, ◌*◌, ◌/◌, ◌%◌, ◌≤◌, ◌<◌, ◌≡◌, refl, ◌∙◌, ap, Bool, ◌&&◌, ◌||◌, [],
  ◌∷◌, ◌++◌, Text, arith, ltb, leb, ◌==◌, if◌then◌else◌, All, Bool-cases, inl, inr, ltb→lt, ◌^◌,
  Outcome, done, fail, signed_overflow,
}
use pets_server_linux.Common.Int.{ℤ, pos, negsuc}

-- The decimal digits of a number, for fuel above the number.
unfoldable pub digits : ℕ → ℕ → Text
digits zero n = []
digits (suc f) n =
    let rest = digits f (n / 10) in
    if ltb n 10 then (b'0' + n) ∷ [] else rest ++ (b'0' + n % 10) ∷ []

unfoldable pub to_string : ℤ → Text
unfolding digits
to_string (pos n) = digits (suc n) n
to_string (negsuc n) = b'-' ∷ digits (suc (suc n)) (suc n)

abbrev pub is_digit : ℕ → Bool
is_digit c = leb b'0' c && leb c b'9'

-- Digits are read until another character.
unfoldable read_digits : Text → ℕ → ℕ
read_digits [] acc = acc
read_digits (c ∷ cs) acc =
    let more = read_digits cs (acc * 10 + (c - b'0')) in if is_digit c then more else acc

abbrev pub negate : ℕ → ℤ
negate zero = pos 0
negate (suc n) = negsuc n

read_signed : Text → ℤ
unfolding read_digits
read_signed [] = pos 0
read_signed (c ∷ cs) =
    if c == b'-'
    then negate (read_digits cs 0)
    else (if c == b'+' then pos (read_digits cs 0) else pos (read_digits (c ∷ cs) 0))

abbrev pub is_space : ℕ → Bool
is_space c = c == b' ' || (leb 9 c && leb c 13)

-- atoi: white space, a sign, digits.
unfoldable pub atoi : Text → ℤ
unfolding read_signed
atoi [] = pos 0
atoi (c ∷ cs) = let rest = atoi cs in if is_space c then rest else read_signed (c ∷ cs)

-- Whether a signed integer of `w` bits and a sign has the value.
abbrev pub fits : ℕ → ℤ → Bool
fits w (pos n) = ltb n (2 ^ w)
fits w (negsuc n) = ltb n (2 ^ w)

-- atoi and atoll with the range of their result: C leaves undefined what they do beyond it.
unfoldable pub read_int : ℕ → Text → Outcome ℤ
read_int w s = if fits w (atoi s) then done (atoi s) else fail signed_overflow

AllDigits : Text → Type 0
AllDigits = All (λ c. (b'0' ≤ c) × (c ≤ b'9'))

read-append :
    (xs ys : Text) (acc : ℕ)
    → AllDigits xs
    → read_digits (xs ++ ys) acc ≡ read_digits ys (read_digits xs acc)
unfolding read_digits AllDigits
read-append [] ys acc h = refl
read-append (x ∷ xs) ys acc h =
    ground (arith, read-append xs ys (acc * 10 + (x - b'0')) h.1, h.0.0, h.0.1)

digits-append : (xs ys : Text) → AllDigits xs → AllDigits ys → AllDigits (xs ++ ys)
unfolding AllDigits
digits-append [] ys h k = k
digits-append (x ∷ xs) ys h k = (h.0, digits-append xs ys h.1 k)

digits-AllDigits : (f n : ℕ) → AllDigits (digits f n)
unfolding digits AllDigits
digits-AllDigits zero n = tt
digits-AllDigits (suc f) n = elim (Bool-cases (ltb n 10)) [
  | inl small ↦ rw small ((omega arith, omega (arith, ltb→lt n 10 small)), tt)
  | inr large ↦ rw large (
      digits-append (digits f (n / 10)) _ (digits-AllDigits f (n / 10))
        ((omega arith, omega arith), tt))
]

read_digits-digits : (f n : ℕ) → n < f → read_digits (digits f n) 0 ≡ n
unfolding digits read_digits
read_digits-digits zero n h = absurd (omega arith)
read_digits-digits (suc f) n h = ground (
  arith,
  read-append (digits f (n / 10)) ((b'0' + n % 10) ∷ []) 0 (digits-AllDigits f (n / 10)),
  read_digits-digits f (n / 10),
)

digits_cons : (f n : ℕ) → (c : ℕ) × (cs : Text) × (digits (suc f) n ≡ c ∷ cs)
unfolding digits
digits_cons f n = elim (Bool-cases (ltb n 10)) [
  | inl small ↦ (b'0' + n, [], rw small)
  | inr large ↦ go (digits f (n / 10)) (rw large)
]
  where
    go :
        (xs : Text)
        → (if ltb n 10 then (b'0' + n) ∷ [] else digits f (n / 10) ++ (b'0' + n % 10) ∷ [])
          ≡ xs ++ (b'0' + n % 10) ∷ []
        → (c : ℕ) × (cs : Text) × ((if ltb n 10
              then (b'0' + n) ∷ []
              else digits f (n / 10) ++ (b'0' + n % 10) ∷ [])
            ≡ c ∷ cs)
    go [] e = (b'0' + n % 10, [], e)
    go (x ∷ xs) e = (x, xs ++ (b'0' + n % 10) ∷ [], e)

atoi_digits :
    (c : ℕ) (cs : Text) → AllDigits (c ∷ cs) → atoi (c ∷ cs) ≡ pos (read_digits (c ∷ cs) 0)
unfolding atoi read_signed AllDigits
atoi_digits c cs h = ground (arith, h.0.0, h.0.1)

atoi_digits_append :
    (c : ℕ) (cs ts : Text)
    → AllDigits (c ∷ cs)
    → atoi (c ∷ cs ++ ts) ≡ pos (read_digits (c ∷ cs ++ ts) 0)
unfolding atoi read_signed AllDigits
atoi_digits_append c cs ts h = ground (arith, h.0.0, h.0.1)

atoi_minus : (xs : Text) → atoi (b'-' ∷ xs) ≡ negate (read_digits xs 0)
unfolding atoi read_signed
atoi_minus xs = refl

-- atoi reads back what std::to_string prints.
pub atoi-to_string : (z : ℤ) → atoi (to_string z) ≡ z
unfolding to_string
atoi-to_string (pos n) =
    let (c, cs, e) = digits_cons n n in
    rw e (
      atoi_digits c cs (rw e at (digits-AllDigits (suc n) n))
      ∙ ap pos (rw e at (read_digits-digits (suc n) n (omega arith))))
atoi-to_string (negsuc n) =
    atoi_minus (digits (suc (suc n)) (suc n))
    ∙ ap negate (read_digits-digits (suc (suc n)) (suc n) (omega arith))

-- It stops at the first character that is no digit.
pub atoi-to_string_append :
    (n c : ℕ) (cs : Text) → is_digit c ≡ false → atoi (to_string (pos n) ++ c ∷ cs) ≡ pos n
unfolding to_string read_digits
atoi-to_string_append n c cs h =
    let (d, ds, e) = digits_cons n n in
    let stops : (acc : ℕ) → read_digits (c ∷ cs) acc ≡ acc = λ acc. rw h refl in
    rw e (
      atoi_digits_append d ds (c ∷ cs) (rw e at (digits-AllDigits (suc n) n))
      ∙ ap pos (
          read-append (d ∷ ds) (c ∷ cs) 0 (rw e at (digits-AllDigits (suc n) n))
          ∙ stops (read_digits (d ∷ ds) 0)
          ∙ rw e at (read_digits-digits (suc n) n (omega arith))))

digit-is_space : (c : ℕ) → b'0' ≤ c → c ≤ b'9' → is_space c ≡ false
digit-is_space c h k = ground arith

AllDigits-is_space : (xs : Text) → AllDigits xs → All (λ c. is_space c ≡ false) xs
unfolding AllDigits
AllDigits-is_space [] h = tt
AllDigits-is_space (x ∷ xs) h = (digit-is_space x h.0.0 h.0.1, AllDigits-is_space xs h.1)

-- No character of a printed number is white space.
pub to_string-is_space : (n : ℕ) → All (λ c. is_space c ≡ false) (to_string (pos n))
unfolding to_string
to_string-is_space n = AllDigits-is_space (digits (suc n) n) (digits-AllDigits (suc n) n)
