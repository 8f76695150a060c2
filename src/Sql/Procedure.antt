-- ===== src/Sql/Procedure.antt =====
-- ProcedureHelper.hpp: the state of a stored procedure's call, and what it takes of C and of the
-- client library as parameters.
pub mod Types
pub mod Values
pub mod Prepare
pub mod Execute
pub mod Added
pub mod Answers
pub mod Declared
pub mod Having
pub mod Fields
pub mod Words
pub mod Lists
pub mod Counts
pub mod Positions
pub mod Columns
pub mod Stored
pub mod Typed
pub mod Safety
pub mod Storable
pub mod Readable
pub mod Placement
pub mod Calls
pub mod Casts
use pets_server_linux.Common.{
  ℕ, zero, suc, Bool, true, false, Option, none, some, List, [], ◌∷◌, Text, replicate, Outcome,
  done, fail, out_of_bounds, get_elem?, set,
}
use pets_server_linux.Common.Int.{ℤ, pos, negsuc}
use pets_server_linux.Sql.{Api, Client, FieldType, unset, QueryResult, new_result}

-- What printf and strto* do with floating point numbers; the text that printf makes of a class
-- object passed through `...`; whether int64_t is the long long of atoll (on 64-bit Linux it is long);
-- SELECT_PROCEDURE_PARAMLIST with its two arguments put in, a macro
-- that no file of the program defines; and what the callback with a number does to the result that it
-- gets and, through it, to the connection.
pub record Env : Type 1 where
  pub api : Api
  pub Float : Type 0
  pub Double : Type 0
  pub print_float : Float → Text
  pub print_double : Double → Text
  pub strtof : Text → Float
  pub strtod : Text → Double
  pub object_text : Text → Text
  pub int64_is_long_long : Bool
  pub select_procedure_paramlist : Text → Text → Text
  pub run_callback : ℕ → QueryResult → Client api → Outcome (QueryResult × Client api)

-- SqlParam::DIRECTION; memset leaves V_IN.
pub data Direction : Type 0 where
  v_in v_out v_inout : Direction

-- boost::any as the value of a parameter; a null char* is `none`.
pub data Any (env : Env) : Type 0 where
  empty : Any env
  int : ℤ → Any env
  int64 : ℤ → Any env
  float : env.Float → Any env
  double : env.Double → Any env
  chars : Option Text → Any env
  pointer : List ℕ → Any env

pub record SqlParam (env : Env) : Type 0 where
  pub direction : Direction
  pub type : FieldType
  pub lens : ℕ
  pub bind_value : Any env

-- MAX_PARAM_COUNT
abbrev pub max_param_count : ℕ
max_param_count = 10

pub record ProcedureHelper (env : Env) : Type 0 where
  pub result : QueryResult
  pub str_proc : Text
  pub str_args : Text
  pub total_count : ℕ
  pub in_count : ℕ
  pub out_count : ℕ
  pub inout_count : ℕ
  pub parameters : List (SqlParam env)

module _ (env : Env) where
  -- A parameter after memset to 0.
  abbrev pub blank_param : SqlParam env
  blank_param = record { direction = v_in; type = unset; lens = 0; bind_value = empty }

  -- The fields that Clear resets; Release keeps the handles of the result.
  unfoldable pub cleared : QueryResult → ProcedureHelper env
  cleared result = record {
    result = result;
    str_proc = [];
    str_args = [];
    total_count = 0;
    in_count = 0;
    out_count = 0;
    inout_count = 0;
    parameters = replicate max_param_count blank_param;
  }

  -- ProcedureHelper::ProcedureHelper, on the blank result of its base.
  unfoldable pub new_helper : ProcedureHelper env
  unfolding cleared
  new_helper = cleared new_result

  -- parameters[i], read and written; the array has no other element.
  unfoldable pub param_at : ProcedureHelper env → ℕ → Outcome (SqlParam env)
  param_at h i = elim (get_elem? h.parameters i) [ none ↦ fail out_of_bounds | some p ↦ done p ]

  unfoldable pub set_param : ProcedureHelper env → ℕ → SqlParam env → Outcome (ProcedureHelper env)
  set_param h i p = elim (get_elem? h.parameters i) [
    | none ↦ fail out_of_bounds
    | some old ↦ done (record h { parameters = set h.parameters i p })
  ]
