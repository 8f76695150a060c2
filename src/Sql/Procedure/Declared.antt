-- ===== src/Sql/Procedure/Declared.antt =====
-- The parameter lists that the rules of ProcedureHelper.hpp allow, and their text.
use pets_server_linux.Common.{
  ℕ, zero, suc, ◌+◌, ◌-◌, ◌^◌, ◌<◌, ltb, ◌≡◌, refl, sym, ap, ◌∙◌, Bool, true, false, Option, none,
  some, List, [], ◌∷◌, ◌++◌, append_assoc, append-nil, Text, codes, length, length-append, take,
  drop, take-append_exact, drop-append_exact, get_elem?, if◌then◌else◌, ◌==◌, Outcome, done, arith,
}
use pets_server_linux.Common.Int.{pos}
use pets_server_linux.Common.Decimal.{to_string, atoi, read_int, atoi-to_string_append}
use pets_server_linux.Sql.{FieldType, blob, longlong, long, string}
use pets_server_linux.Sql.Procedure.{Direction, v_in, v_out, v_inout}
use pets_server_linux.Sql.Procedure.Types.{get_my_sql_type}
use pets_server_linux.Sql.Procedure.Prepare.{
  find_first_of, at_before, cut_field, cut_open, cut_last,
}

-- The types that a parameter can have.
pub data TypeName : Type 0 where
  blob_name bigint_name int_name char_name varchar_name : TypeName

abbrev pub type_word : TypeName → Text
type_word blob_name = codes "blob"
type_word bigint_name = codes "bigint"
type_word int_name = codes "int"
type_word char_name = codes "char"
type_word varchar_name = codes "varchar"

abbrev pub type_of : TypeName → FieldType
type_of blob_name = blob
type_of bigint_name = longlong
type_of int_name = long
type_of char_name = string
type_of varchar_name = string

pub get_my_sql_type-type_word : (t : TypeName) → get_my_sql_type (type_word t) ≡ type_of t
unfolding get_my_sql_type pets_server_linux.Common.text_eq
get_my_sql_type-type_word blob_name = refl
get_my_sql_type-type_word bigint_name = refl
get_my_sql_type-type_word int_name = refl
get_my_sql_type-type_word char_name = refl
get_my_sql_type-type_word varchar_name = refl

-- A parameter: `in name varchar(50)`.
pub record Declared : Type 0 where
  pub direction : Direction
  pub name : Text
  pub type_name : TypeName
  pub lens : Option ℕ

abbrev pub direction_word : Direction → Text
direction_word v_in = codes "in"
direction_word v_out = codes "out"
direction_word v_inout = codes "inout"

abbrev pub lens_word : Option ℕ → Text
lens_word none = []
lens_word (some n) = b'(' ∷ to_string (pos n) ++ b')' ∷ []

-- The type with its length, and the comma that all but the last have.
abbrev pub field_word : Declared → Text → Text
field_word d comma = type_word d.type_name ++ (lens_word d.lens ++ comma)

at_before-append : (xs ys : Text) (c : ℕ) → at_before (xs ++ c ∷ ys) (suc (length xs)) ≡ done c
at_before-append [] ys c = refl
at_before-append (x ∷ xs) ys c = at_before-append xs ys c

find_first_of-type_word :
    (t : TypeName) (rest : Text)
    → find_first_of b'(' (type_word t ++ b'(' ∷ rest) ≡ some (length (type_word t))
unfolding find_first_of
find_first_of-type_word blob_name rest = refl
find_first_of-type_word bigint_name rest = refl
find_first_of-type_word int_name rest = refl
find_first_of-type_word char_name rest = refl
find_first_of-type_word varchar_name rest = refl

cut_field_comma :
    (q : Text)
    → cut_field (q ++ b')' ∷ b',' ∷ [])
      ≡ cut_open (q ++ b')' ∷ b',' ∷ []) (find_first_of b'(' (q ++ b')' ∷ b',' ∷ []))
unfolding cut_field cut_last
cut_field_comma q =
    let w : Text = q ++ b')' ∷ b',' ∷ [] in
    let whole : length w ≡ suc (suc (length q)) =
      omega (arith, length-append q (b')' ∷ b',' ∷ [])) in
    let split : (q ++ b')' ∷ []) ++ b',' ∷ [] ≡ w = append_assoc q (b')' ∷ []) (b',' ∷ []) in
    let before : length (q ++ b')' ∷ []) ≡ suc (length q) =
      omega (arith, length-append q (b')' ∷ [])) in
    let e1 : at_before w (length w) ≡ done b',' =
      ap (at_before w) whole ∙ rw (split, before) at (at_before-append (q ++ b')' ∷ []) [] b',') in
    let e2 : at_before w (length w - 1) ≡ done b')' =
      ap (at_before w) {y = suc (length q)} (omega (arith, whole))
      ∙ at_before-append q (b',' ∷ []) b')' in
    rw e1 (rw e2 refl)

cut_field_plain :
    (q : Text)
    → cut_field (q ++ b')' ∷ []) ≡ cut_open (q ++ b')' ∷ []) (find_first_of b'(' (q ++ b')' ∷ []))
unfolding cut_field cut_last
cut_field_plain q =
    let w : Text = q ++ b')' ∷ [] in
    let e1 : at_before w (length w) ≡ done b')' =
      ap (at_before w) {y = suc (length q)} (omega (arith, length-append q (b')' ∷ [])))
      ∙ at_before-append q [] b')' in
    rw e1 (rw e1 refl)

cut_open-type_word :
    (t : TypeName) (n c : ℕ) (cs : Text)
    → c ≡ b')'
    → n < 2 ^ 31
    → cut_open
        (type_word t ++ b'(' ∷ (to_string (pos n) ++ c ∷ cs))
        (find_first_of b'(' (type_word t ++ b'(' ∷ (to_string (pos n) ++ c ∷ cs)))
      ≡ done (type_word t, some n)
unfolding read_int
cut_open-type_word t n c cs close small =
    let rest : Text = to_string (pos n) ++ c ∷ cs in
    let shift : length (type_word t) + 1 ≡ length (type_word t ++ b'(' ∷ []) =
      omega (arith, length-append (type_word t) (b'(' ∷ [])) in
    let split : (type_word t ++ b'(' ∷ []) ++ rest ≡ type_word t ++ b'(' ∷ rest =
      append_assoc (type_word t) (b'(' ∷ []) rest in
    let behind : drop (length (type_word t) + 1) (type_word t ++ b'(' ∷ rest) ≡ rest =
      rw split at (
        drop-append_exact (length (type_word t) + 1) (type_word t ++ b'(' ∷ []) rest (sym shift)) in
    let front : take (length (type_word t)) (type_word t ++ b'(' ∷ rest) ≡ type_word t =
      take-append_exact (length (type_word t)) (type_word t) (b'(' ∷ rest) refl in
    let number : atoi rest ≡ pos n = atoi-to_string_append n c cs (rw close refl) in
    let range : ltb n (2 ^ 31) ≡ true = ground arith in
    ap (cut_open (type_word t ++ b'(' ∷ rest)) (find_first_of-type_word t rest)
    ∙ rw (behind, front, number, range) refl

-- A length that an int can have.
abbrev pub InInt : Option ℕ → Type 0
InInt none = Unit
InInt (some n) = n < 2 ^ 31

-- A field's word is cut into its type and its length.
pub cut_field-field_word :
    (t : TypeName) (lens : Option ℕ) (comma : Bool)
    → InInt lens
    → cut_field (type_word t ++ (lens_word lens ++ (if comma then codes "," else [])))
      ≡ done (type_word t, lens)
unfolding cut_field
cut_field-field_word blob_name none true k = refl
cut_field-field_word blob_name none false k = refl
cut_field-field_word bigint_name none true k = refl
cut_field-field_word bigint_name none false k = refl
cut_field-field_word int_name none true k = refl
cut_field-field_word int_name none false k = refl
cut_field-field_word char_name none true k = refl
cut_field-field_word char_name none false k = refl
cut_field-field_word varchar_name none true k = refl
cut_field-field_word varchar_name none false k = refl
cut_field-field_word t (some n) true k =
    let split : (type_word t ++ b'(' ∷ to_string (pos n)) ++ b')' ∷ b',' ∷ []
        ≡ type_word t ++ b'(' ∷ (to_string (pos n) ++ b')' ∷ b',' ∷ []) =
      append_assoc (type_word t) (b'(' ∷ to_string (pos n)) (b')' ∷ b',' ∷ []) in
    let same : to_string (pos n) ++ b')' ∷ b',' ∷ []
        ≡ (to_string (pos n) ++ b')' ∷ []) ++ b',' ∷ [] =
      sym (append_assoc (to_string (pos n)) (b')' ∷ []) (b',' ∷ [])) in
    rw⁻¹ same (
      rw split at (cut_field_comma (type_word t ++ b'(' ∷ to_string (pos n)))
      ∙ cut_open-type_word t n b')' (b',' ∷ []) refl k)
cut_field-field_word t (some n) false k =
    let split : (type_word t ++ b'(' ∷ to_string (pos n)) ++ b')' ∷ []
        ≡ type_word t ++ b'(' ∷ (to_string (pos n) ++ b')' ∷ []) =
      append_assoc (type_word t) (b'(' ∷ to_string (pos n)) (b')' ∷ []) in
    rw (append-nil (to_string (pos n) ++ b')' ∷ [])) (
      rw split at (cut_field_plain (type_word t ++ b'(' ∷ to_string (pos n)))
      ∙ cut_open-type_word t n b')' [] refl k)
