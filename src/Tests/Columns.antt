-- ===== src/Tests/Columns.antt =====
-- A procedure with an IN and an OUT parameter, in this order and in the other.
use pets_server_linux.Common.{
  ℕ, zero, suc, ◌≡◌, ◌≢◌, refl, subst, Option, some, List, Text, [], ◌∷◌, ◌++◌, replicate, codes,
  get_elem?, done, fail, bad_any_cast, arith,
}
use pets_server_linux.Common.Int.{pos}
use pets_server_linux.Common.Decimal.{atoi, read_int}
use pets_server_linux.Sql.{new_result, long, string}
use pets_server_linux.Sql.Procedure.{
  Any, SqlParam, ProcedureHelper, v_in, v_out, blank_param, param_at, set_param,
}
use pets_server_linux.Sql.Procedure.Values.{sql_value_to_any}
use pets_server_linux.Sql.Procedure.Execute.{Statements, read_columns, execute}
use pets_server_linux.Sql.Procedure.Columns.{is_out}
use pets_server_linux.Sql.Procedure.Positions.{InsFirst}
use pets_server_linux.Sql.Procedure.Stored.{of_int, Columns}
use pets_server_linux.Sql.Procedure.Readable.{Readable}
use pets_server_linux.Sql.Procedure.Safety.{Given, AllGiven}
use pets_server_linux.Sql.Procedure.Typed.{Typed}
use pets_server_linux.Sql.Procedure.Casts.{AllStorable, execute-Avoids}
use pets_server_linux.Sql.Procedure.Storable.{Storable, StorableFrom}
use pets_server_linux.Tests.Small.{env, client}

abbrev given_int : SqlParam env
given_int = record { direction = v_in; type = long; lens = 0; bind_value = Any.int (pos 7) }

abbrev out_text : SqlParam env
out_text = record { direction = v_out; type = string; lens = 50; bind_value = Any.empty }

abbrev helper : List (SqlParam env) → ProcedureHelper env
helper ps = record {
  result = new_result;
  str_proc = codes "p";
  str_args = [];
  total_count = 2;
  in_count = 1;
  out_count = 1;
  inout_count = 0;
  parameters = ps ++ replicate 8 (blank_param env);
}

-- The OUT parameter stands first, so that its column goes to the IN parameter.
abbrev swapped : ProcedureHelper env
swapped = helper (out_text ∷ given_int ∷ [])

abbrev in_order : ProcedureHelper env
in_order = helper (given_int ∷ out_text ∷ [])

abbrev nothing_yet : Statements
nothing_yet = record { prepared = []; procedure_call = []; select = [] }

abbrev added : Statements
added = record {
  prepared = codes "set @_0 = null";
  procedure_call = codes "@_0, 7";
  select = codes "select @_0";
}

-- The column of the OUT parameter ends up in the IN one.
not_in_order : ¬ InsFirst (is_out env swapped.parameters) 2 0
unfolding is_out
not_in_order h = cc (h 0 1 (omega arith) (omega arith) (omega arith) refl)

-- The IN parameter is behind the OUT one, and gets its column.
abbrev number_column : List (Option Text)
number_column = some (codes "12") ∷ []

abbrev stored : ProcedureHelper env
stored = helper (out_text ∷ record given_int { bind_value = Any.int (pos 12) } ∷ [])

read_swapped : read_columns env 1 0 (some (codes "12") ∷ []) (2 ∷ []) swapped ≡ done stored
unfolding read_columns param_at set_param sql_value_to_any atoi read_int
read_swapped = refl

abbrev answer : List (Option Text)
answer = some (codes "Tom") ∷ []

some_eq : {x y : SqlParam env} → some x ≡ some y → x ≡ y
some_eq e = cc

blank_Given :
    (n i : ℕ) (p : SqlParam env)
    → get_elem? (replicate n (blank_param env)) i ≡ some p
    → Given env p
unfolding Given Typed
blank_Given zero i p e = cc
blank_Given (suc n) zero p e = subst (Given env) (some_eq e) (λ d k. cc)
blank_Given (suc n) (suc i) p e = blank_Given n i p e

all_given : AllGiven env in_order
unfolding AllGiven Given Typed
all_given zero p e = subst (Given env) (some_eq e) (λ d k. of_int (pos 7))
all_given (suc zero) p e = subst (Given env) (some_eq e) (λ d k. absurd (d refl))
all_given (suc (suc i)) p e = blank_Given 8 i p e

blank_Storable :
    (n i : ℕ) (p : SqlParam env)
    → get_elem? (replicate n (blank_param env)) i ≡ some p
    → Storable env p
unfolding Storable
blank_Storable zero i p e = cc
blank_Storable (suc n) zero p e = subst (Storable env) (some_eq e) ((λ h. cc), (λ h. cc))
blank_Storable (suc n) (suc i) p e = blank_Storable n i p e

all_storable : AllStorable env in_order
unfolding AllStorable StorableFrom Storable
all_storable zero p l e = absurd (omega arith)
all_storable (suc zero) p l e = subst (Storable env) (some_eq e) ((λ h. cc), (λ h. cc))
all_storable (suc (suc i)) p l e = blank_Storable 8 i p e

execute-Avoids_example : execute env in_order client ≢ fail bad_any_cast
execute-Avoids_example = execute-Avoids env in_order client all_given all_storable
