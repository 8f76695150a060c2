-- ===== src/Sql/Procedure/Readable.antt =====
-- The loop of ProcedureHelper::Execute that reads an answer (ProcedureHelper.cpp): when it ends.
use pets_server_linux.Common.{
  ℕ, ◌+◌, ◌<◌, ◌≡◌, ◌≢◌, true, Option, none, some, List, Text, get_elem?, set,
}
use pets_server_linux.Common.Decimal.{atoi, fits}
use pets_server_linux.Sql.{
  FieldType, unset, tiny, long, longlong, float, double, string, blob, err_type,
}
use pets_server_linux.Sql.Procedure.{Env, Any, SqlParam, ProcedureHelper}
use pets_server_linux.Sql.Procedure.Storable.{Storable}

-- What the characters of a column have to be for a type: there, where they are read as a number, and
-- within the range of an int or of a long long.
abbrev InRange : FieldType → Option Text → Type 0
InRange long column = (s : Text) × (column ≡ some s) × (fits 31 (atoi s) ≡ true)
InRange longlong column = (s : Text) × (column ≡ some s) × (fits 63 (atoi s) ≡ true)
InRange float column = column ≢ none
InRange double column = column ≢ none
InRange string column = Unit
InRange blob column = Unit
InRange unset column = Unit
InRange tiny column = Unit
InRange err_type column = Unit

module _ (env : Env) where
  -- A column can be read for a parameter: SqlValueToAny can store it, and the column is in the range
  -- of the parameter's type.
  unfoldable pub Readable : SqlParam env → Option Text → Type 0
  Readable p column = Storable env p × InRange p.type column

  -- There are `left` columns, with their lengths and with parameters behind the first `in_count + i`
  -- ones, and each can be read.
  unfoldable pub AllReadable : ℕ → ℕ → List (Option Text) → List ℕ → ProcedureHelper env → Type 0
  AllReadable left i rows lens h =
      (j : ℕ)
      → j < left
      → (p : SqlParam env) × (column : Option Text) × (len : ℕ) × (get_elem? h.parameters
            (h.in_count + i + j)
          ≡ some p)
        × (get_elem? rows j ≡ some column)
        × (get_elem? lens j ≡ some len)
        × Readable p column

  -- The helper with a value stored in a parameter.
  abbrev with_value : ProcedureHelper env → ℕ → SqlParam env → Any env → ProcedureHelper env
  with_value h k p v = record h { parameters = set h.parameters k (record p { bind_value = v }) }
