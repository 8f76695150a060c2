-- ===== src/Clock.antt =====
-- CELLTimestamp.hpp, CELLTimestamp.cpp: the clock of the game loop, and the text of a time.
use pets_server_linux.Common.{
  ℕ, ◌+◌, ◌-◌, ◌*◌, ◌/◌, ◌≡◌, ◌≤◌, ◌<◌, refl, sym, ap, ◌∙◌, false, [], ◌∷◌, ◌++◌, Text, leb,
  if◌then◌else◌, arith,
}
use pets_server_linux.Common.Int.{ℤ, pos}
use pets_server_linux.Common.Decimal.{
  to_string, negate, atoi, atoi-to_string, atoi-to_string_append, is_digit,
}

-- CELLTimestamp: _begin, a reading of high_resolution_clock in nanoseconds.
pub record Timestamp : Type 0 where
  pub begin : ℕ

-- CELLTimestamp::update, with the reading that it takes; the constructor does the same.
unfoldable update : ℕ → Timestamp → Timestamp
update now t = record t { begin = now }

unfoldable new_timestamp : ℕ → Timestamp
new_timestamp now = record { begin = now }

-- getElapsedTimeInMicroSec. The cast rounds towards 0; the clock can be set back.
unfoldable get_elapsed_time_in_micro_sec : ℕ → Timestamp → ℤ
get_elapsed_time_in_micro_sec now t =
    if leb t.begin now then pos ((now - t.begin) / 1000) else negate ((t.begin - now) / 1000)

-- What localtime says of a time: struct tm, as far as it is read, for a year from 1900 on.
pub record Tm : Type 0 where
  pub tm_year : ℕ
  pub tm_mon : ℕ
  pub tm_mday : ℕ
  pub tm_hour : ℕ
  pub tm_min : ℕ
  pub tm_sec : ℕ

-- The text behind the year.
unfoldable date_text : ℕ → ℕ → ℕ → Text → Text
date_text year mon mday rest =
    to_string (pos (year + 1900))
    ++ b'/' ∷ (to_string (pos (mon + 1)) ++ b'/' ∷ (to_string (pos mday) ++ b' ' ∷ b' ' ∷ rest))

unfoldable time_text : ℕ → ℕ → ℕ → Text
time_text hour min sec =
    to_string (pos hour) ++ b':' ∷ (to_string (pos min) ++ b':' ∷ to_string (pos sec))

-- getTimeStampToNomalTime, on what localtime gives.
unfoldable pub get_time_stamp_to_nomal_time : Tm → Text
unfolding date_text time_text
get_time_stamp_to_nomal_time t =
    date_text t.tm_year t.tm_mon t.tm_mday (time_text t.tm_hour t.tm_min t.tm_sec)

-- getCurrentTimeStampSec and getCurrentTimeStampMiliSec, with the reading of system_clock in
-- nanoseconds, which is not before 1970.
unfoldable get_current_time_stamp_sec : ℕ → ℕ
get_current_time_stamp_sec now = now / 1000000000

unfoldable get_current_time_stamp_mili_sec : ℕ → ℕ
get_current_time_stamp_mili_sec now = now / 1000000

-- getCurrentNomalTime, with localtime and the reading.
unfoldable get_current_nomal_time : (ℕ → Tm) → ℕ → Text
get_current_nomal_time localtime now =
    get_time_stamp_to_nomal_time (localtime (get_current_time_stamp_sec now))

-- The two time stamps of one reading agree on the second.
get_current_time_stamp_sec_mili :
    (now : ℕ)
    → (get_current_time_stamp_sec now * 1000 ≤ get_current_time_stamp_mili_sec now)
      × (get_current_time_stamp_mili_sec now < get_current_time_stamp_sec now * 1000 + 1000)
unfolding get_current_time_stamp_sec get_current_time_stamp_mili_sec
get_current_time_stamp_sec_mili now = (omega arith, omega arith)

append_cancel : (xs ys zs : Text) → xs ++ ys ≡ xs ++ zs → ys ≡ zs
append_cancel [] ys zs e = e
append_cancel (x ∷ xs) ys zs e = append_cancel xs ys zs (cc)

-- A number and what is behind it are told apart, if that does not start with a digit.
to_string_prefix :
    (a b c : ℕ) (xs ys : Text)
    → is_digit c ≡ false
    → to_string (pos a) ++ c ∷ xs ≡ to_string (pos b) ++ c ∷ ys
    → (a ≡ b) × (xs ≡ ys)
to_string_prefix a b c xs ys h e =
    let same : pos a ≡ pos b =
      sym (atoi-to_string_append a c xs h) ∙ ap atoi e ∙ atoi-to_string_append b c ys h in
    let behind : c ∷ xs ≡ c ∷ ys =
      append_cancel (to_string (pos b)) (c ∷ xs) (c ∷ ys)
        (ap (λ z. to_string z ++ c ∷ xs) (sym same) ∙ e) in
    (cc, cc)

-- The text tells the times apart: two times with the same text are the same, in each of the six
-- numbers, though the numbers are printed without leading zeros.
nomal_time_injective :
    (t u : Tm) → get_time_stamp_to_nomal_time t ≡ get_time_stamp_to_nomal_time u → t ≡ u
unfolding get_time_stamp_to_nomal_time date_text time_text
nomal_time_injective t u e =
    let (year, e1) = to_string_prefix (t.tm_year + 1900) (u.tm_year + 1900) b'/' _ _ refl e in
    let (mon, e2) = to_string_prefix (t.tm_mon + 1) (u.tm_mon + 1) b'/' _ _ refl e1 in
    let (mday, e3) = to_string_prefix t.tm_mday u.tm_mday b' ' _ _ refl e2 in
    let (hour, e4) =
      to_string_prefix t.tm_hour u.tm_hour b':' _ _ refl (append_cancel (b' ' ∷ []) _ _ e3) in
    let (min, e5) = to_string_prefix t.tm_min u.tm_min b':' _ _ refl e4 in
    let sec : pos t.tm_sec ≡ pos u.tm_sec =
      sym (atoi-to_string (pos t.tm_sec)) ∙ ap atoi e5 ∙ atoi-to_string (pos u.tm_sec) in
    let year_same : t.tm_year ≡ u.tm_year = omega (arith, year) in
    let mon_same : t.tm_mon ≡ u.tm_mon = omega (arith, mon) in
    let sec_same : t.tm_sec ≡ u.tm_sec = cc in
    λ i. record {
      tm_year = year_same i;
      tm_mon = mon_same i;
      tm_mday = mday i;
      tm_hour = hour i;
      tm_min = min i;
      tm_sec = sec_same i;
    }
