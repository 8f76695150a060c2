-- ===== src/Tests/Procedures.antt =====
-- Concrete runs of a procedure and of the queue of tasks.
use pets_server_linux.Common.{
  Text, text_eq, ◌≡◌, ◌⊎◌, ◌<◌, ◌≤◌, ◌-◌, length, All, out_of_bounds, none, refl, some, List, [],
  ◌∷◌, replicate, done, fail, double_free, arith, codes,
}
use pets_server_linux.Common.Int.{pos, negsuc}
use pets_server_linux.Common.Decimal.{atoi, read_int, to_string}
use pets_server_linux.Common.Maps
use pets_server_linux.Sql.{
  Api, Client, QueryResult, new_result, FieldType, unset, long, string, err_type, is_zero,
}
use pets_server_linux.Sql.Query.{release, execute_sql}
use pets_server_linux.Sql.Procedure.{
  Env, Any, SqlParam, ProcedureHelper, v_in, v_out, max_param_count, new_helper, blank_param,
  cleared,
}
use pets_server_linux.Sql.Procedure.Types.{get_my_sql_type}
use pets_server_linux.Sql.Procedure.Values.{any_value_to_string}
use pets_server_linux.Sql.Procedure.Execute.{execute, clear}
use pets_server_linux.Sql.Procedure.Added.{AllIn}
use pets_server_linux.Sql.Procedure.Answers.{execute-AllIn, clear-execute}
use pets_server_linux.Sql.Procedure.Prepare.{type_part, prepare_words, split_words}
use pets_server_linux.Sql.Procedure.Counts.{Counts, ends_in, prepare_words-Counts}
use pets_server_linux.Sql.Procedure.Declared.{Declared, int_name, varchar_name}
use pets_server_linux.Sql.Procedure.Having.{having}
use pets_server_linux.Sql.Procedure.Lists.{Writable, list_text, prepare_words-list_text}
use pets_server_linux.Tests.Small.{env, client}

abbrev param : SqlParam env
param = record { direction = v_in; type = long; lens = 0; bind_value = Any.int (negsuc 41) }

-- A procedure with one IN parameter.
abbrev helper : ProcedureHelper env
helper = record {
  result = new_result;
  str_proc = codes "login";
  str_args = [];
  total_count = 1;
  in_count = 1;
  out_count = 0;
  inout_count = 0;
  parameters = param ∷ replicate 9 (blank_param env);
}

abbrev answered : ProcedureHelper env
answered = record helper {
  result = record new_result {
    res = some 0;
    sql = some (codes "call login ( -42 )");
    nrow = 1;
    num_rows = 1;
    num_fields = 1;
  };
}

executed : execute env helper client ≡ done (pos 0, answered, record client { next = 1 })
unfolding execute to_string any_value_to_string execute_sql release Maps.find Maps.insert Maps.erase
executed = refl

execute-AllIn_example : AllIn env helper 1 0
execute-AllIn_example =
    execute-AllIn env helper answered client (record client { next = 1 }) executed

clear-execute_example : clear env answered (record client { next = 1 }) ≡ fail double_free
clear-execute_example =
    clear-execute env helper answered client (record client { next = 1 }) 0 executed refl

-- The words of a list of two parameters, read into a helper after Clear.
abbrev read_words : List Text
read_words =
    codes "in" ∷ codes "a" ∷ codes "int," ∷ codes "out" ∷ codes "b" ∷ codes "varchar(50)" ∷ []

abbrev blank_helper : ProcedureHelper env
blank_helper = record {
  result = new_result;
  str_proc = [];
  str_args = [];
  total_count = 0;
  in_count = 0;
  out_count = 0;
  inout_count = 0;
  parameters = replicate 10 (blank_param env);
}

abbrev read_helper : ProcedureHelper env
read_helper = record blank_helper {
  total_count = 2;
  in_count = 1;
  out_count = 1;
  parameters =
      record (blank_param env) { type = long }
      ∷ record (blank_param env) { direction = v_out; type = string; lens = 50 }
      ∷ replicate 8 (blank_param env);
}

read_two :
    prepare_words env read_words type_part (cleared env new_result) ≡ done (pos 0, read_helper)
unfolding prepare_words cleared text_eq atoi read_int get_my_sql_type
read_two = refl

cleared-Counts : Counts env type_part (cleared env new_result)
unfolding cleared
cleared-Counts = record { directions = omega arith; room = omega arith }

prepare_words-Counts_example : Counts env (ends_in read_words type_part) read_helper
prepare_words-Counts_example =
    prepare_words-Counts env read_words type_part (cleared env new_result) read_helper
      cleared-Counts read_two

-- Prepare answers 0 for a direction without a parameter, and counts it.
in_alone :
    prepare_words env (codes "in" ∷ []) type_part (cleared env new_result)
    ≡ done (pos 0, record (cleared env new_result) { in_count = 1 })
unfolding prepare_words cleared text_eq
in_alone = refl

-- A list of two parameters.
abbrev declared : List Declared
declared =
    record { direction = v_in; name = codes "a"; type_name = int_name; lens = none }
    ∷ record { direction = v_out; name = codes "b"; type_name = varchar_name; lens = some 50 }
    ∷ []

declared-Writable : All Writable declared
declared-Writable = (((λ e. cc, (refl, tt)), tt), (((λ e. cc, (refl, tt)), omega arith), tt))

prepare_words-list_text_example :
    ((length declared ≤ max_param_count)
      × (prepare_words env
            (split_words [] (list_text declared))
            type_part
            (having env (cleared env new_result) [] (replicate max_param_count (blank_param env)))
          ≡ done (
            pos 0,
            having env
                (cleared env new_result)
                declared
                (replicate (max_param_count - length declared) (blank_param env)),
          )))
    ⊎ ((max_param_count < length declared)
        × (prepare_words env
              (split_words [] (list_text declared))
              type_part
              (having env (cleared env new_result) [] (replicate max_param_count (blank_param env)))
            ≡ fail out_of_bounds))
prepare_words-list_text_example =
    prepare_words-list_text env declared (cleared env new_result) declared-Writable
