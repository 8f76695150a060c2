-- ===== src/Sql/Procedure/Prepare.antt =====
-- ProcedureHelper::Prepare: the parameter list of a procedure, as the database prints it, becomes
-- the parameters of the call.
use pets_server_linux.Common.{
  ℕ, zero, suc, ◌+◌, ◌-◌, ◌^◌, Bool, true, false, ◌&&◌, Option, none, some, List, [], ◌∷◌, ◌++◌,
  map, Text, codes, text_eq, length, take, drop, get_elem?, leb, ltb, ◌==◌, if◌then◌else◌, Outcome,
  done, fail, ◌>>=◌, null_access, out_of_bounds, out_of_range,
}
use pets_server_linux.Common.Int.{ℤ, pos, negsuc}
use pets_server_linux.Common.Decimal.{read_int, is_space}
use pets_server_linux.Sql.{Client, FieldType, err_type, Row, is_zero, QueryResult, new_result}
use pets_server_linux.Sql.Query.{execute_sql, fetch_result, release, affected}
use pets_server_linux.Sql.Procedure.{
  Env, Direction, v_in, v_out, v_inout, SqlParam, ProcedureHelper, param_at, set_param,
}
use pets_server_linux.Sql.Procedure.Types.{get_my_sql_type}

-- ::tolower
abbrev lower : ℕ → ℕ
lower c = if leb b'A' c && leb c b'Z' then c + 32 else c

-- strStream >> parampart, until nothing is left: the runs without white space.
unfoldable pub split_words : Text → Text → List Text
split_words [] [] = []
split_words (a ∷ acc) [] = (a ∷ acc) ∷ []
split_words [] (c ∷ cs) =
    let skip = split_words [] cs in
    let begin = split_words (c ∷ []) cs in if is_space c then skip else begin
split_words (a ∷ acc) (c ∷ cs) =
    let cut = (a ∷ acc) ∷ split_words [] cs in
    let go_on = split_words (a ∷ acc ++ c ∷ []) cs in if is_space c then cut else go_on

-- whichPart: what the next word is.
pub data Part : Type 0 where
  type_part name_part field_part : Part

-- find_first_of, of one character.
unfoldable pub find_first_of : ℕ → Text → Option ℕ
find_first_of c [] = none
find_first_of c (x ∷ xs) =
    let later = find_first_of c xs in
    if c == x then some 0 else elim later [ none ↦ none | some i ↦ some (suc i) ]

-- std::string::at at last - 1.
abbrev pub at_before : Text → ℕ → Outcome ℕ
at_before s zero = fail out_of_range
at_before s (suc i) = elim (get_elem? s i) [ none ↦ fail out_of_range | some c ↦ done c ]

-- An int as a size_t.
abbrev as_size : ℤ → ℕ
as_size (pos n) = n
as_size (negsuc n) = 2 ^ 64 - n - 1

-- The name of the type and the length behind the bracket, if there is one: an int.
abbrev pub cut_open : Text → Option ℕ → Outcome (Text × Option ℕ)
cut_open word none = done (word, none)
cut_open word (some i) =
    (read_int 31 (drop (i + 1) word) >>= λ n. done (take i word, some (as_size n)))

-- What the last character `d` of the field, in front of `last`, decides.
unfoldable pub cut_last : Text → ℕ → ℕ → Outcome (Text × Option ℕ)
unfolding find_first_of
cut_last word last d =
    if d == b')' then cut_open word (find_first_of b'(' word) else done (take last word, none)

-- Where the name of the type ends and the length, if it has one: a word like `varchar(50),`.
unfoldable pub cut_field : Text → Outcome (Text × Option ℕ)
unfolding cut_last
cut_field word = do
  c ← at_before word (length word)
  let last = if c == b',' then length word - 1 else length word
  d ← at_before word last
  cut_last word last d

module _ (env : Env) where
  open env use {api, select_procedure_paramlist}

  abbrev pub is_err : FieldType → Bool
  is_err t = elim t [ err_type ↦ true | _ ↦ false ]

  -- The direction of the next parameter, with its counter.
  unfoldable pub direct : Direction → ProcedureHelper env → Outcome (ProcedureHelper env)
  unfolding set_param param_at
  direct d h = do
    p ← param_at env h h.total_count
    let counted : ProcedureHelper env = elim d [
      | v_in ↦ record h { in_count = h.in_count + 1 }
      | v_out ↦ record h { out_count = h.out_count + 1 }
      | v_inout ↦ record h { inout_count = h.inout_count + 1 }
    ]
    set_param env counted h.total_count (record p { direction = d })

  -- The first word of a parameter: without a direction it is the name.
  unfoldable pub read_direction : Text → ProcedureHelper env → Outcome (Part × ProcedureHelper env)
  unfolding direct
  read_direction word h =
      if text_eq word (codes "in")
      then (direct v_in h >>= λ h'. done (name_part, h'))
      else (if text_eq word (codes "out")
          then (direct v_out h >>= λ h'. done (name_part, h'))
          else (if text_eq word (codes "inout")
              then (direct v_inout h >>= λ h'. done (name_part, h'))
              else (direct v_in h >>= λ h'. done (field_part, h'))))

  -- The type and the length of the parameter; `true` if the type is known.
  unfoldable pub read_field : Text → ProcedureHelper env → Outcome (Bool × ProcedureHelper env)
  unfolding cut_field set_param param_at
  read_field word h = do
    (name, lens) ← cut_field word
    p ← param_at env h h.total_count
    let p' : SqlParam env = elim lens [ none ↦ p | some n ↦ record p { lens = n } ]
    let t = get_my_sql_type name
    h' ← set_param env h h.total_count (record p' { type = t })
    done (if is_err t then (false, h') else (true, record h' { total_count = h'.total_count + 1 }))

  -- The loop over the words.
  unfoldable pub prepare_words :
      List Text → Part → ProcedureHelper env → Outcome (ℤ × ProcedureHelper env)
  unfolding read_direction read_field
  prepare_words [] part h = done (pos 0, h)
  prepare_words (word ∷ words) type_part h = do
    (part, h') ← read_direction word h
    prepare_words words part h'
  prepare_words (word ∷ words) name_part h = prepare_words words field_part h
  prepare_words (word ∷ words) field_part h = do
    (known, h') ← read_field word h
    elim known [ true ↦ prepare_words words type_part h' | false ↦ done (negsuc 2, h') ]

  -- rows[0]
  abbrev first_column : Option Row → Outcome Text
  first_column none = fail null_access
  first_column (some []) = fail out_of_bounds
  first_column (some (none ∷ columns)) = fail null_access
  first_column (some (some s ∷ columns)) = done s

  -- AffectedRows() < 1
  abbrev below_one : ℤ → Bool
  below_one (pos zero) = true
  below_one (pos (suc n)) = false
  below_one (negsuc n) = true

  -- The part of Prepare that reads the result of the query.
  unfoldable read_paramlist :
      QueryResult
      → ProcedureHelper env
      → Client api
      → Outcome (ℤ × QueryResult × ProcedureHelper env × Client api)
  unfolding prepare_words split_words
  read_paramlist qr h c = if below_one (affected api qr) then done (negsuc 0, qr, h, c) else (do
    (fetched, qr', c') ← fetch_result api qr c
    (if is_zero fetched
        then (do
          args ← first_column qr'.rows
          let str_args = map lower args
          (code', h') ←
              prepare_words (split_words [] str_args) type_part (record h { str_args = str_args })
          done (code', qr', h', c'))
        else done (negsuc 1, qr', h, c')))

  -- ProcedureHelper::Prepare; the local result is released when the function returns.
  unfoldable pub prepare :
      Text
      → Text
      → ProcedureHelper env
      → Client api
      → Outcome (ℤ × ProcedureHelper env × Client api)
  unfolding read_paramlist
  prepare db_name proc_name h c =
      let named = record h { str_proc = proc_name } in
      let sql = select_procedure_paramlist db_name proc_name in
      if ltb (length sql) 1024
      then (do
        (result, qr, c') ← execute_sql api (some sql) (some new_result) c
        (code', qr', h', c'') ←
            (if is_zero result
              then read_paramlist (elim qr [ none ↦ new_result | some q ↦ q ]) named c'
              else done (negsuc 3, new_result, named, c'))
        c''' ← release api qr' c''
        done (code', h', c'''))
      else fail out_of_bounds
