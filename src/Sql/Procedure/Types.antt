-- ===== src/Sql/Procedure/Types.antt =====
-- ProcedureHelper::GetMySqlType.
use pets_server_linux.Common.{
  ℕ, zero, suc, ◌≡◌, Bool-cases, inl, inr, List, [], ◌∷◌, Text, codes, text_eq, text_eq→eq, ◌==◌,
  if◌then◌else◌, arith,
}
use pets_server_linux.Sql.{FieldType, long, longlong, string, blob, err_type}

-- typestr[i]: the character behind the last is 0.
abbrev char_at : Text → ℕ → ℕ
char_at [] i = 0
char_at (c ∷ cs) zero = c
char_at (c ∷ cs) (suc i) = char_at cs i

unfoldable pub get_my_sql_type : Text → FieldType
get_my_sql_type s =
    if char_at s 0 == b'b'
    then (if char_at s 1 == b'l'
        then (if text_eq s (codes "blob") then blob else err_type)
        else (if char_at s 1 == b'i'
            then (if text_eq s (codes "bigint") then longlong else err_type)
            else err_type))
    else (if char_at s 0 == b'i'
        then (if text_eq s (codes "int") then long else err_type)
        else (if char_at s 0 == b'c'
            then (if text_eq s (codes "char") then string else err_type)
            else (if char_at s 0 == b'v'
                then (if text_eq s (codes "varchar") then string else err_type)
                else err_type)))

-- The types by name.
abbrev type_names : List (Text × FieldType)
type_names =
    (codes "blob", blob)
    ∷ (codes "bigint", longlong)
    ∷ (codes "int", long)
    ∷ (codes "char", string)
    ∷ (codes "varchar", string)
    ∷ []

abbrev lookup_type : Text → List (Text × FieldType) → FieldType
lookup_type s [] = err_type
lookup_type s ((name, t) ∷ rest) = if text_eq s name then t else lookup_type s rest

-- The nested switch is a lookup of the whole name in a table of five; every other text, float and
-- double too, is the error type.
get_my_sql_type-lookup : (s : Text) → get_my_sql_type s ≡ lookup_type s type_names
unfolding get_my_sql_type text_eq
get_my_sql_type-lookup s = elim (Bool-cases (text_eq s (codes "blob"))) [
  | inl e ↦ rw (text_eq→eq s (codes "blob") e)
  | inr n1 ↦ elim (Bool-cases (text_eq s (codes "bigint"))) [
    | inl e ↦ rw (text_eq→eq s (codes "bigint") e)
    | inr n2 ↦ elim (Bool-cases (text_eq s (codes "int"))) [
      | inl e ↦ rw (text_eq→eq s (codes "int") e)
      | inr n3 ↦ elim (Bool-cases (text_eq s (codes "char"))) [
        | inl e ↦ rw (text_eq→eq s (codes "char") e)
        | inr n4 ↦ elim (Bool-cases (text_eq s (codes "varchar"))) [
          | inl e ↦ rw (text_eq→eq s (codes "varchar") e)
          | inr n5 ↦ rw (n1, n2, n3, n4, n5) (ground arith)
        ]
      ]
    ]
  ]
]
