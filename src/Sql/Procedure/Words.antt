-- ===== src/Sql/Procedure/Words.antt =====
-- Prepare reads back the parameter lists that the rules of ProcedureHelper.hpp allow.
use pets_server_linux.Common.{
  ℕ, ◌+◌, ◌≡◌, refl, sym, ap, ◌∙◌, Bool, true, false, List, [], ◌∷◌, ◌++◌, append_assoc, append-nil,
  map, All, Text, length, done, ◌>>=◌,
}
use pets_server_linux.Common.Int.{pos}
use pets_server_linux.Sql.Procedure.{
  Env, Direction, v_in, v_out, v_inout, SqlParam, ProcedureHelper, blank_param,
}
use pets_server_linux.Sql.Procedure.Prepare.{type_part, field_part, prepare_words}
use pets_server_linux.Sql.Procedure.Declared.{Declared, type_word, direction_word, lens_word, InInt}
use pets_server_linux.Sql.Procedure.Having.{
  comma_text, words_of, param_of, having, length-map, counting, after_field,
}
use pets_server_linux.Sql.Procedure.Fields.{read_direction_next, read_field_next}

module _ (env : Env) where
  read_declared :
      (g : ProcedureHelper env) (xs : List Declared) (rest : List (SqlParam env)) (d : Declared)
      (comma : Bool) (words : List Text)
      → g.total_count ≡ length xs
      → InInt d.lens
      → prepare_words env
          ((type_word d.type_name ++ (lens_word d.lens ++ comma_text comma)) ∷ words)
          field_part
          (record g {
            parameters =
                map (param_of env) xs
                ++ record (blank_param env) { direction = d.direction } ∷ rest;
          })
        ≡ prepare_words env words type_part (record g {
          total_count = g.total_count + 1;
          parameters = map (param_of env) xs ++ param_of env d ∷ rest;
        })
  unfolding prepare_words
  read_declared g xs rest d comma words total k =
      rw
        (read_field_next env
          (record g {
            parameters =
                map (param_of env) xs
                ++ record (blank_param env) { direction = d.direction } ∷ rest;
          })
          (map (param_of env) xs) rest (record (blank_param env) { direction = d.direction }) refl
          (total ∙ sym (length-map env xs)) d.type_name d.lens comma k)
        refl

  -- One declared parameter behind those that are read.
  next_declared :
      (h : ProcedureHelper env) (xs : List Declared) (rest : List (SqlParam env)) (d : Declared)
      (comma : Bool) (words : List Text)
      → InInt d.lens
      → prepare_words env
          (direction_word d.direction
            ∷ d.name
            ∷ (type_word d.type_name ++ (lens_word d.lens ++ comma_text comma))
            ∷ words)
          type_part
          (having env h xs (blank_param env ∷ rest))
        ≡ prepare_words env words type_part (having env h (xs ++ d ∷ []) rest)
  unfolding prepare_words
  next_declared h xs rest d comma words k =
      ap
        (λ m. m >>= λ (part, h').
          prepare_words env
            (d.name ∷ (type_word d.type_name ++ (lens_word d.lens ++ comma_text comma)) ∷ words)
            part h')
        (read_direction_next env (having env h xs (blank_param env ∷ rest)) (map (param_of env) xs)
          rest (blank_param env) refl (sym (length-map env xs)) d.direction)
      ∙ read_declared (counting env d.direction (having env h xs (blank_param env ∷ rest))) xs rest
          d comma words (total d.direction) k
      ∙ ap (λ t. prepare_words env words type_part (ended t)) {y = length xs + 1}
          (ap (λ t. t + 1) (total d.direction))
      ∙ ap (prepare_words env words type_part) (after_field env h xs rest d)
    where
      total :
          (d' : Direction)
          → (counting env d' (having env h xs (blank_param env ∷ rest))).total_count ≡ length xs
      total v_in = refl
      total v_out = refl
      total v_inout = refl

      ended : ℕ → ProcedureHelper env
      ended t = record (counting env d.direction (having env h xs (blank_param env ∷ rest))) {
        total_count = t;
        parameters = map (param_of env) xs ++ param_of env d ∷ rest;
      }

  abbrev pub blanks : List Declared → List (SqlParam env)
  blanks [] = []
  blanks (d ∷ ds) = blank_param env ∷ blanks ds

  -- All but the last parameters of a list.
  pub read_front :
      (h : ProcedureHelper env) (xs ds es : List Declared) (e : Declared)
      (rest : List (SqlParam env))
      → All (λ d. InInt d.lens) ds
      → prepare_words env (words_of (ds ++ e ∷ es)) type_part (having env h xs (blanks ds ++ rest))
        ≡ prepare_words env (words_of (e ∷ es)) type_part (having env h (xs ++ ds) rest)
  read_front h xs [] es e rest k =
      ap (λ ys. prepare_words env (words_of (e ∷ es)) type_part (having env h ys rest))
        (sym (append-nil xs))
  read_front h xs (d ∷ []) es e rest k = next_declared h xs rest d true (words_of (e ∷ es)) k.0
  read_front h xs (d ∷ c ∷ ds) es e rest k =
      next_declared h xs (blank_param env ∷ (blanks ds ++ rest)) d true
        (words_of (c ∷ (ds ++ e ∷ es))) k.0
      ∙ read_front h (xs ++ d ∷ []) (c ∷ ds) es e rest k.1
      ∙ ap (λ ys. prepare_words env (words_of (e ∷ es)) type_part (having env h ys rest))
          (append_assoc xs (d ∷ []) (c ∷ ds))

  -- A whole list.
  pub read_list :
      (h : ProcedureHelper env) (xs ds : List Declared) (rest : List (SqlParam env))
      → All (λ d. InInt d.lens) ds
      → prepare_words env (words_of ds) type_part (having env h xs (blanks ds ++ rest))
        ≡ done (pos 0, having env h (xs ++ ds) rest)
  unfolding prepare_words
  read_list h xs [] rest k = ap (λ ys. done (pos 0, having env h ys rest)) (sym (append-nil xs))
  read_list h xs (d ∷ []) rest k = next_declared h xs rest d false [] k.0
  read_list h xs (d ∷ c ∷ ds) rest k =
      next_declared h xs (blank_param env ∷ (blanks ds ++ rest)) d true (words_of (c ∷ ds)) k.0
      ∙ read_list h (xs ++ d ∷ []) (c ∷ ds) rest k.1
      ∙ ap (λ ys. done (pos 0, having env h ys rest)) (append_assoc xs (d ∷ []) (c ∷ ds))
