-- ===== src/Sql/Procedure/Having.antt =====
-- The words of a parameter list (ProcedureHelper.cpp), and the helper that has read some of them.
use pets_server_linux.Common.{
  ℕ, ◌+◌, ◌≡◌, refl, sym, ap, ◌∙◌, Bool, none, some, List, [], ◌∷◌, ◌++◌, map, Text, codes, length,
  length-append, if◌then◌else◌, arith,
}
use pets_server_linux.Sql.Procedure.{
  Env, Direction, v_in, v_out, v_inout, Any, SqlParam, ProcedureHelper, blank_param,
}
use pets_server_linux.Sql.Procedure.Declared.{Declared, type_of, direction_word, field_word}

abbrev pub comma_text : Bool → Text
comma_text b = if b then codes "," else []

-- The words of a list; the last parameter has no comma.
abbrev pub words_of : List Declared → List Text
words_of [] = []
words_of (d ∷ []) = direction_word d.direction ∷ d.name ∷ field_word d [] ∷ []
words_of (d ∷ e ∷ ds) =
    direction_word d.direction ∷ d.name ∷ field_word d (codes ",") ∷ words_of (e ∷ ds)

-- How many parameters have a direction.
abbrev pub same : Direction → Direction → ℕ
same v_in v_in = 1
same v_out v_out = 1
same v_inout v_inout = 1
same _ _ = 0

abbrev pub count : Direction → List Declared → ℕ
count d [] = 0
count d (x ∷ xs) = same d x.direction + count d xs

count-snoc :
    (d : Direction) (xs : List Declared) (x : Declared)
    → count d (xs ++ x ∷ []) ≡ count d xs + same d x.direction
count-snoc d [] x = omega arith
count-snoc d (y ∷ xs) x = omega (arith, count-snoc d xs x)

module _ (env : Env) where
  -- What Prepare makes of a declared parameter.
  abbrev pub param_of : Declared → SqlParam env
  param_of d = record {
    direction = d.direction;
    type = type_of d.type_name;
    lens = elim d.lens [ none ↦ 0 | some n ↦ n ];
    bind_value = Any.empty;
  }

  -- A helper that has read some parameters, with `rest` behind them.
  abbrev pub having :
      ProcedureHelper env → List Declared → List (SqlParam env) → ProcedureHelper env
  having h xs rest = record h {
    total_count = length xs;
    in_count = count v_in xs;
    out_count = count v_out xs;
    inout_count = count v_inout xs;
    parameters = map param_of xs ++ rest;
  }

  pub length-map : (xs : List Declared) → length (map param_of xs) ≡ length xs
  length-map [] = refl
  length-map (x ∷ xs) = omega (arith, length-map xs)

  map-snoc :
      (xs : List Declared) (x : Declared) (rest : List (SqlParam env))
      → map param_of (xs ++ x ∷ []) ++ rest ≡ map param_of xs ++ param_of x ∷ rest
  map-snoc [] x rest = refl
  map-snoc (y ∷ xs) x rest = ap (◌∷◌ (param_of y)) (map-snoc xs x rest)

  -- The helper with one parameter more of a direction.
  abbrev pub counting : Direction → ProcedureHelper env → ProcedureHelper env
  counting v_in h = record h { in_count = h.in_count + 1 }
  counting v_out h = record h { out_count = h.out_count + 1 }
  counting v_inout h = record h { inout_count = h.inout_count + 1 }

  -- The helper behind a direction and a field.
  pub after_field :
      (h : ProcedureHelper env) (xs : List Declared) (rest : List (SqlParam env)) (d : Declared)
      → record (counting d.direction (having h xs (blank_param env ∷ rest))) {
        total_count = length xs + 1;
        parameters = map param_of xs ++ param_of d ∷ rest;
      }
        ≡ having h (xs ++ d ∷ []) rest
  after_field h xs rest d =
      go d.direction refl
      ∙ ap
          (with_counts (count v_in (xs ++ d ∷ [])) (count v_out (xs ++ d ∷ []))
            (count v_inout (xs ++ d ∷ [])) (map param_of xs ++ param_of d ∷ rest))
          {y = length (xs ++ d ∷ [])} (omega (arith, length-append xs (d ∷ [])))
      ∙ ap (λ q. having_parameters q) (sym (map-snoc xs d rest))
    where
      with_counts : ℕ → ℕ → ℕ → List (SqlParam env) → ℕ → ProcedureHelper env
      with_counts i o n ps t = record h {
        total_count = t;
        in_count = i;
        out_count = o;
        inout_count = n;
        parameters = ps;
      }

      having_parameters : List (SqlParam env) → ProcedureHelper env
      having_parameters ps = record (having h (xs ++ d ∷ []) rest) { parameters = ps }

      counts :
          (i o n : ℕ)
          → i ≡ count v_in (xs ++ d ∷ [])
          → o ≡ count v_out (xs ++ d ∷ [])
          → n ≡ count v_inout (xs ++ d ∷ [])
          → with_counts i o n (map param_of xs ++ param_of d ∷ rest) (length xs + 1)
            ≡ with_counts
                (count v_in (xs ++ d ∷ []))
                (count v_out (xs ++ d ∷ []))
                (count v_inout (xs ++ d ∷ []))
                (map param_of xs ++ param_of d ∷ rest)
                (length xs + 1)
      counts i o n ei eo en = rw (ei, eo, en) refl

      added :
          (e d' : Direction) (k : ℕ)
          → d.direction ≡ d'
          → k ≡ count e xs + same e d'
          → k ≡ count e (xs ++ d ∷ [])
      added e d' k q z = z ∙ sym (count-snoc e xs d ∙ ap (λ x. count e xs + same e x) q)

      go :
          (d' : Direction)
          → d.direction ≡ d'
          → record (counting d' (having h xs (blank_param env ∷ rest))) {
            total_count = length xs + 1;
            parameters = map param_of xs ++ param_of d ∷ rest;
          }
            ≡ with_counts
                (count v_in (xs ++ d ∷ []))
                (count v_out (xs ++ d ∷ []))
                (count v_inout (xs ++ d ∷ []))
                (map param_of xs ++ param_of d ∷ rest)
                (length xs + 1)
      go v_in q =
          counts (count v_in xs + 1) (count v_out xs) (count v_inout xs)
            (added v_in v_in _ q (omega arith)) (added v_out v_in _ q (omega arith))
            (added v_inout v_in _ q (omega arith))
      go v_out q =
          counts (count v_in xs) (count v_out xs + 1) (count v_inout xs)
            (added v_in v_out _ q (omega arith)) (added v_out v_out _ q (omega arith))
            (added v_inout v_out _ q (omega arith))
      go v_inout q =
          counts (count v_in xs) (count v_out xs) (count v_inout xs + 1)
            (added v_in v_inout _ q (omega arith)) (added v_out v_inout _ q (omega arith))
            (added v_inout v_inout _ q (omega arith))
