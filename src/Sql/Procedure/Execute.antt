-- ===== src/Sql/Procedure/Execute.antt =====
-- ProcedureHelper::Execute and Clear: the statements of a call, and its answer.
use pets_server_linux.Common.{
  ℕ, zero, suc, ◌+◌, ◌-◌, ◌/◌, ◌%◌, Bool, true, false, Option, none, some, List, [], ◌∷◌, ◌++◌,
  Text, codes, length, leb, ltb, ◌==◌, if◌then◌else◌, Outcome, done, fail, ◌>>=◌, out_of_bounds,
  no_return, null_access,
}
use pets_server_linux.Common.Int.{ℤ, pos, negsuc}
use pets_server_linux.Common.Decimal.{to_string}
use pets_server_linux.Sql.{Client, FieldType, blob, is_zero}
use pets_server_linux.Sql.Query.{execute_sql, fetch_result, release, affected}
use pets_server_linux.Sql.Procedure.{
  Env, v_in, v_out, v_inout, SqlParam, ProcedureHelper, param_at, set_param, cleared,
}
use pets_server_linux.Sql.Procedure.Values.{any_value_to_string, cast_pointer, sql_value_to_any}

-- The size of PrepareBuffer.
abbrev pub buffer_size : ℕ
buffer_size = 0xFA00

-- What Execute writes: the bytes of PrepareBuffer up to prepareIdx, the call, and the select.
pub record Statements : Type 0 where
  pub prepared : Text
  pub procedure_call : Text
  pub select : Text

-- Characters copied to PrepareBuffer + prepareIdx, and printed there with a 0 behind them.
unfoldable pub copy_to : Text → Text → Outcome Text
copy_to buf s =
    if leb (length buf + length s) buffer_size then done (buf ++ s) else fail out_of_bounds

unfoldable pub print_to : Text → Text → Outcome Text
print_to buf s =
    if ltb (length buf + length s) buffer_size then done (buf ++ s) else fail out_of_bounds

-- The start of a variable's value: `set`, or a comma behind the one before.
unfoldable pub separated : Text → Outcome Text
unfolding copy_to
separated [] = done (codes "set")
separated (b ∷ buf) = copy_to (b ∷ buf) (codes ",")

abbrev hex_digit : ℕ → ℕ
hex_digit n = if ltb n 10 then b'0' + n else b'a' + (n - 10)

abbrev pub hex_byte : ℕ → Text
hex_byte b = hex_digit (b / 16) ∷ hex_digit (b % 16) ∷ []

-- `lens` bytes in hexadecimal.
unfoldable pub write_hex : ℕ → List ℕ → Text → Outcome Text
unfolding print_to
write_hex zero bytes buf = done buf
write_hex (suc n) [] buf = fail out_of_bounds
write_hex (suc n) (b ∷ bytes) buf = do buf' ← print_to buf (hex_byte b); write_hex n bytes buf'

abbrev pub variable : ℕ → Text
variable i = codes "@_" ++ to_string (pos i)

abbrev pub is_blob : FieldType → Bool
is_blob t = elim t [ blob ↦ true | _ ↦ false ]

-- An empty text makes Execute return -1: `none`.
abbrev pub unless_empty {ℓ} : {A : Type ℓ} → Text → A → Option A
unless_empty [] a = none
unless_empty (c ∷ cs) a = some a

-- AffectedRows() != 1, negated.
abbrev pub is_one : ℤ → Bool
is_one (pos n) = n == 1
is_one (negsuc n) = false

-- A pointer that is read.
unfoldable pub present {ℓ} : {A : Type ℓ} → Option A → Outcome A
present none = fail null_access
present (some a) = done a

module _ (env : Env) where
  open env use {api, object_text}

  -- An IN parameter: its text in the call, or a variable that holds the blob.
  unfoldable pub in_param : ℕ → SqlParam env → Statements → Outcome (Option Statements)
  unfolding separated copy_to write_hex cast_pointer any_value_to_string
  in_param i p s =
      if is_blob p.type
      then (do
        buf ← separated s.prepared
        buf' ← copy_to buf (variable i ++ codes " = 0x")
        bytes ← cast_pointer env p.bind_value
        buf'' ← write_hex p.lens bytes buf'
        done
            (some (record s { prepared = buf''; procedure_call = s.procedure_call ++ variable i })))
      else (do
        text ← any_value_to_string env p
        done (unless_empty text (record s { procedure_call = s.procedure_call ++ text })))

  -- The value that an INOUT or OUT parameter's variable starts with.
  unfoldable pub initial_value : ℕ → SqlParam env → Text → Outcome (Option Text)
  unfolding print_to write_hex cast_pointer any_value_to_string
  initial_value i p buf = elim p.direction [
    | v_inout ↦
        if is_blob p.type
        then (do
          bytes ← cast_pointer env p.bind_value
          buf' ← write_hex p.lens bytes buf
          done (some buf'))
        else (do
          text ← any_value_to_string env p
          elim text [
            | [] ↦ done none
            | ch ∷ chs ↦
                print_to buf (codes " " ++ variable i ++ codes " = " ++ object_text (ch ∷ chs))
                >>= λ buf'. done (some buf')
          ])
    | v_out ↦
        (print_to buf (codes " " ++ variable i ++ codes " = null") >>= λ buf'. done (some buf'))
    | v_in ↦
        (print_to buf (codes " " ++ variable i ++ codes " = null") >>= λ buf'. done (some buf'))
  ]

  abbrev pub select_start : Text → Text
  select_start [] = codes "select "
  select_start (c ∷ cs) = codes ", "

  -- An OUT or INOUT parameter.
  unfoldable pub out_param : ℕ → SqlParam env → Statements → Outcome (Option Statements)
  unfolding separated initial_value
  out_param i p s = do
    buf ← separated s.prepared
    value ← initial_value i p buf
    done (elim value [
      | none ↦ none
      | some buf' ↦ some (record {
        prepared = buf';
        procedure_call = s.procedure_call ++ variable i;
        select = s.select ++ select_start s.select ++ variable i;
      })
    ])

  abbrev pub comma : ℕ → Text
  comma zero = []
  comma (suc i) = codes ", "

  unfoldable pub add_param : ℕ → SqlParam env → Statements → Outcome (Option Statements)
  unfolding in_param out_param
  add_param i p s =
      let s' = record s { procedure_call = s.procedure_call ++ comma i } in
      elim p.direction [
        | v_in ↦ in_param i p s'
        | v_out ↦ out_param i p s'
        | v_inout ↦ out_param i p s'
      ]

  -- The loop over the parameters: `left` of them from number `i`.
  unfoldable pub add_params : ProcedureHelper env → ℕ → ℕ → Statements → Outcome (Option Statements)
  unfolding add_param param_at
  add_params h zero i s = done (some s)
  add_params h (suc left) i s = do
    p ← param_at env h i
    next ← add_param i p s
    elim next [ none ↦ done none | some s' ↦ add_params h left (i + 1) s' ]

  -- The columns of the answer go to the parameters behind the IN ones: `left` of them from `i`.
  unfoldable pub read_columns :
      ℕ → ℕ → List (Option Text) → List ℕ → ProcedureHelper env → Outcome (ProcedureHelper env)
  unfolding param_at set_param sql_value_to_any
  read_columns zero i rows lens h = done h
  read_columns (suc left) i [] lens h = fail out_of_bounds
  read_columns (suc left) i (column ∷ rows) [] h = fail out_of_bounds
  read_columns (suc left) i (column ∷ rows) (len ∷ lens) h = do
    p ← param_at env h (h.in_count + i)
    p' ← sql_value_to_any env p column len
    h' ← set_param env h (h.in_count + i) p'
    read_columns left (i + 1) rows lens h'

  -- ExecuteSQL with the helper itself as the result.
  unfoldable pub execute_into :
      Text → ProcedureHelper env → Client api → Outcome (ℤ × ProcedureHelper env × Client api)
  execute_into sql h c = do
    (result, qr, c') ← execute_sql api (some sql) (some h.result) c
    done (result, record h { result = elim qr [ none ↦ h.result | some q ↦ q ] }, c')

  -- Execute from the select on: the function has no return after the values are read.
  unfoldable pub read_answer :
      Text → ProcedureHelper env → Client api → Outcome (ℤ × ProcedureHelper env × Client api)
  unfolding execute_into read_columns present
  read_answer select h c = do
    (result, h1, c1) ← execute_into select h c
    (if is_zero result
        then (if is_one (affected api h1.result)
            then (do
              (fetched, qr, c2) ← fetch_result api h1.result c1
              (if is_zero fetched
                  then (do
                    rows ← present qr.rows
                    lens ← present qr.lens
                    h2 ←
                        read_columns (h1.out_count + h1.inout_count) 0 rows lens
                          (record h1 { result = qr })
                    fail no_return)
                  else done (fetched, record h1 { result = qr }, c2)))
            else done (negsuc 0, h1, c1))
        else done (result, h1, c1))

  -- Execute from the call on.
  unfoldable pub run_call :
      Statements → ProcedureHelper env → Client api → Outcome (ℤ × ProcedureHelper env × Client api)
  unfolding read_answer execute_into
  run_call s h c = do
    (result, h1, c1) ← execute_into s.procedure_call h c
    (if is_zero result
        then (do
          c2 ← release api h1.result c1
          elim s.select [ [] ↦ done (pos 0, h1, c2) | ch ∷ chs ↦ read_answer (ch ∷ chs) h1 c2 ])
        else done (result, h1, c1))

  -- The variables are set first, if there are any.
  unfoldable pub run_statements :
      Statements → ProcedureHelper env → Client api → Outcome (ℤ × ProcedureHelper env × Client api)
  unfolding run_call
  run_statements s h c = elim s.prepared [
    | [] ↦ run_call s h c
    | b ∷ buf ↦ if ltb (buffer_size - 20) (length (b ∷ buf)) then done (negsuc 0, h, c) else (do
      (result, none_qr, c') ← execute_sql api (some (b ∷ buf)) none c
      (if is_zero result then run_call s h c' else done (result, h, c')))
  ]

  -- ProcedureHelper::Execute
  unfoldable pub execute :
      ProcedureHelper env → Client api → Outcome (ℤ × ProcedureHelper env × Client api)
  unfolding add_params run_statements
  execute h c = do
    statements ← add_params h h.total_count 0 (record {
      prepared = [];
      procedure_call = codes "call " ++ h.str_proc ++ codes " ( ";
      select = [];
    })
    elim statements [
      | none ↦ done (negsuc 0, h, c)
      | some s ↦ run_statements (record s { procedure_call = s.procedure_call ++ codes " )" }) h c
    ]

  -- ProcedureHelper::Clear
  unfoldable pub clear :
      ProcedureHelper env → Client api → Outcome (ProcedureHelper env × Client api)
  unfolding cleared
  clear h c = do c' ← release api h.result c; done (cleared env h.result, c')
