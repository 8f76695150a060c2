-- ===== src/Sql/Procedure/Lists.antt =====
-- The text of a parameter list, and what Prepare makes of it.
use pets_server_linux.Common.{
  ℕ, zero, suc, ◌+◌, ◌-◌, ◌≤◌, ◌<◌, ◌≡◌, ◌≢◌, ◌⊎◌, inl, inr, refl, sym, ap, ◌∙◌, false, Bool-cases,
  Option, none, some, List, [], ◌∷◌, ◌++◌, append_assoc, append-nil, map, All, Text, codes, text_eq,
  length, take, drop, take-append-drop, length-take, length-drop, get_elem?, replicate, leb, leb→le,
  leb_false→lt, Outcome, done, fail, out_of_bounds, arith,
}
use pets_server_linux.Common.Int.{pos}
use pets_server_linux.Common.Decimal.{to_string, is_space, to_string-is_space}
use pets_server_linux.Sql.Procedure.{
  Env, Direction, v_in, v_out, v_inout, SqlParam, ProcedureHelper, blank_param, max_param_count,
  param_at,
}
use pets_server_linux.Sql.Procedure.Prepare.{
  type_part, direct, read_direction, split_words, prepare_words,
}
use pets_server_linux.Sql.Procedure.Declared.{
  Declared, TypeName, blob_name, bigint_name, int_name, char_name, varchar_name, type_word,
  direction_word, lens_word, field_word, InInt,
}
use pets_server_linux.Sql.Procedure.Having.{words_of, having, param_of}
use pets_server_linux.Sql.Procedure.Words.{blanks, read_front, read_list}

-- Words with a space between them.
abbrev spaced : List Text → Text
spaced [] = []
spaced (w ∷ []) = w
spaced (w ∷ v ∷ ws) = w ++ b' ' ∷ spaced (v ∷ ws)

-- The list as the rules write it: `in a int, out b varchar(50)`.
abbrev pub list_text : List Declared → Text
list_text ds = spaced (words_of ds)

abbrev NoSpace : Text → Type 0
NoSpace = All (λ c. is_space c ≡ false)

-- A text that is one word.
abbrev IsWord : Text → Type 0
IsWord w = (w ≢ []) × All (λ c. is_space c ≡ false) w

-- Within a word the characters are collected.
split_words-word :
    (a : ℕ) (acc w rest : Text)
    → NoSpace w
    → split_words (a ∷ acc) (w ++ rest) ≡ split_words (a ∷ acc ++ w) rest
unfolding split_words
split_words-word a acc [] rest h = ap (λ x. split_words (a ∷ x) rest) (sym (append-nil acc))
split_words-word a acc (c ∷ w) rest h = rw h.0 (
    split_words-word a (acc ++ c ∷ []) w rest h.1
    ∙ ap (λ x. split_words (a ∷ x) rest) (append_assoc acc (c ∷ []) w))

split_words-spaced : (ws : List Text) → All IsWord ws → split_words [] (spaced ws) ≡ ws
unfolding split_words
split_words-spaced [] h = refl
split_words-spaced ([] ∷ ws) h = absurd (h.0.0 refl)
split_words-spaced ((c ∷ w) ∷ []) h =
    rw h.0.1.0 (ap (split_words (c ∷ [])) (sym (append-nil w)) ∙ split_words-word c [] w [] h.0.1.1)
split_words-spaced ((c ∷ w) ∷ v ∷ ws) h = rw h.0.1.0 (
    split_words-word c [] w (b' ' ∷ spaced (v ∷ ws)) h.0.1.1
    ∙ ap (◌∷◌ (c ∷ w)) (split_words-spaced (v ∷ ws) h.1))

All-append : (xs ys : Text) → NoSpace xs → NoSpace ys → NoSpace (xs ++ ys)
All-append [] ys h k = k
All-append (x ∷ xs) ys h k = (h.0, All-append xs ys h.1 k)

direction_word-IsWord : (d : Direction) → IsWord (direction_word d)
direction_word-IsWord v_in = (λ e. cc, (refl, (refl, tt)))
direction_word-IsWord v_out = (λ e. cc, (refl, (refl, (refl, tt))))
direction_word-IsWord v_inout = (λ e. cc, (refl, (refl, (refl, (refl, (refl, tt))))))

lens_word-NoSpace : (lens : Option ℕ) → NoSpace (lens_word lens)
lens_word-NoSpace none = tt
lens_word-NoSpace (some n) =
    (refl, All-append (to_string (pos n)) (b')' ∷ []) (to_string-is_space n) (refl, tt))

field_word-IsWord : (d : Declared) (comma : Text) → NoSpace comma → IsWord (field_word d comma)
field_word-IsWord d comma h = go d.type_name
  where
    behind : NoSpace (lens_word d.lens ++ comma)
    behind = All-append (lens_word d.lens) comma (lens_word-NoSpace d.lens) h

    go : (t : TypeName) → IsWord (type_word t ++ (lens_word d.lens ++ comma))
    go blob_name = (λ e. cc, All-append (codes "blob") _ (refl, (refl, (refl, (refl, tt)))) behind)
    go bigint_name = (
      λ e. cc,
      All-append (codes "bigint") _ (refl, (refl, (refl, (refl, (refl, (refl, tt)))))) behind,
    )
    go int_name = (λ e. cc, All-append (codes "int") _ (refl, (refl, (refl, tt))) behind)
    go char_name = (λ e. cc, All-append (codes "char") _ (refl, (refl, (refl, (refl, tt)))) behind)
    go varchar_name = (
      λ e. cc,
      All-append (codes "varchar") _ (refl, (refl, (refl, (refl, (refl, (refl, (refl, tt)))))))
          behind,
    )

-- A parameter that can be written: its name is one word, and an int can have its length.
abbrev pub Writable : Declared → Type 0
Writable d = IsWord d.name × InInt d.lens

words_of-IsWord : (ds : List Declared) → All Writable ds → All IsWord (words_of ds)
words_of-IsWord [] h = tt
words_of-IsWord (d ∷ []) h =
    (direction_word-IsWord d.direction, (h.0.0, (field_word-IsWord d [] tt, tt)))
words_of-IsWord (d ∷ c ∷ ds) h = (
  direction_word-IsWord d.direction,
  (h.0.0, (field_word-IsWord d (codes ",") (refl, tt), words_of-IsWord (c ∷ ds) h.1)),
)

lengths : (ds : List Declared) → All Writable ds → All (λ d. InInt d.lens) ds
lengths [] h = tt
lengths (d ∷ ds) h = (h.0.1, lengths ds h.1)

lengths_front :
    (n : ℕ) (ds : List Declared) → All (λ d. InInt d.lens) ds → All (λ d. InInt d.lens) (take n ds)
lengths_front zero ds h = tt
lengths_front (suc n) [] h = tt
lengths_front (suc n) (d ∷ ds) h = (h.0, lengths_front n ds h.1)

module _ (env : Env) where
  length-params : (xs : List Declared) → length (map (param_of env) xs) ≡ length xs
  length-params [] = refl
  length-params (x ∷ xs) = omega (arith, length-params xs)

  param_at_end :
      (ps : List (SqlParam env)) (h : ProcedureHelper env)
      → h.parameters ≡ ps
      → param_at env h (length ps) ≡ fail out_of_bounds
  unfolding param_at
  param_at_end ps h e =
      let ends : get_elem? h.parameters (length ps) ≡ none = rw e (none_at ps) in
      ap
        (λ o. elim o as (λ _. Outcome (SqlParam env)) [
          | none ↦ fail out_of_bounds
          | some q ↦ done q
        ])
        ends
    where
      none_at : (ps : List (SqlParam env)) → get_elem? ps (length ps) ≡ none
      none_at [] = refl
      none_at (q ∷ qs) = none_at qs

  full_words :
      (h : ProcedureHelper env) (xs : List Declared) (d : Direction) (words : List Text)
      → prepare_words env (direction_word d ∷ words) type_part (having env h xs [])
        ≡ fail out_of_bounds
  unfolding prepare_words read_direction direct text_eq
  full_words h xs d words = go d
    where
      full : param_at env (having env h xs []) (length xs) ≡ fail out_of_bounds
      full =
          ap (param_at env (having env h xs [])) (sym (length-params xs))
          ∙ param_at_end (map (param_of env) xs) (having env h xs [])
              (append-nil (map (param_of env) xs))

      go :
          (d : Direction)
          → prepare_words env (direction_word d ∷ words) type_part (having env h xs [])
            ≡ fail out_of_bounds
      go v_in = rw full refl
      go v_out = rw full refl
      go v_inout = rw full refl

  -- A parameter behind the last that there is room for.
  read_full :
      (h : ProcedureHelper env) (xs es : List Declared) (e : Declared)
      → prepare_words env (words_of (e ∷ es)) type_part (having env h xs []) ≡ fail out_of_bounds
  unfolding prepare_words
  read_full h xs [] e = full_words h xs e.direction (e.name ∷ field_word e [] ∷ [])
  read_full h xs (c ∷ es) e =
      full_words h xs e.direction (e.name ∷ field_word e (codes ",") ∷ words_of (c ∷ es))

  blanks-replicate :
      (ds : List Declared) (n : ℕ)
      → blanks env ds ++ replicate n (blank_param env) ≡ replicate (length ds + n) (blank_param env)
  blanks-replicate [] n = ap (λ m. replicate m (blank_param env)) (omega arith)
  blanks-replicate (d ∷ ds) n =
      ap (◌∷◌ (blank_param env)) (blanks-replicate ds n)
      ∙ ap (λ m. replicate m (blank_param env)) {x = suc (length ds + n)} (omega arith)

  -- Prepare on the text of any list of parameters, each with its direction, a name that is one word, one
  -- of five types and maybe a length below 2 ^ 31, with a helper that has none yet: of ten parameters or fewer it answers 0 and has read every direction, type and length, and
  -- the counters; of more it writes behind the array.
  pub prepare_words-list_text :
      (ds : List Declared) (h : ProcedureHelper env)
      → All Writable ds
      → ((length ds ≤ max_param_count)
          × (prepare_words env
                (split_words [] (list_text ds))
                type_part
                (having env h [] (replicate max_param_count (blank_param env)))
              ≡ done (
                pos 0,
                having env h ds (replicate (max_param_count - length ds) (blank_param env)),
              )))
        ⊎ ((max_param_count < length ds)
            × (prepare_words env
                  (split_words [] (list_text ds))
                  type_part
                  (having env h [] (replicate max_param_count (blank_param env)))
                ≡ fail out_of_bounds))
  prepare_words-list_text ds h names = elim (Bool-cases (leb (length ds) max_param_count)) [
    | inl fits ↦
        let le : length ds ≤ max_param_count = leb→le (length ds) max_param_count fits in
        inl (
          le,
          rw (split_words-spaced (words_of ds) (words_of-IsWord ds names)) (
              ap (λ ps. prepare_words env (words_of ds) type_part (having env h [] ps))
                (sym (
                  blanks-replicate ds (max_param_count - length ds)
                  ∙ ap (λ m. replicate m (blank_param env)) {y = max_param_count}
                      (omega (arith, le))))
              ∙ read_list env h [] ds (replicate (max_param_count - length ds) (blank_param env))
                  (lengths ds names)),
        )
    | inr over ↦
        let lt : max_param_count < length ds = leb_false→lt (length ds) max_param_count over in
        inr (lt, rw (split_words-spaced (words_of ds) (words_of-IsWord ds names)) (too_long lt))
  ]
    where
      too_long :
          max_param_count < length ds
          → prepare_words env
              (words_of ds)
              type_part
              (having env h [] (replicate max_param_count (blank_param env)))
            ≡ fail out_of_bounds
      too_long lt = go (drop max_param_count ds) refl
        where
          first : length (take max_param_count ds) + 0 ≡ max_param_count
          first = omega (arith, length-take max_param_count ds, lt)

          go :
              (es : List Declared)
              → drop max_param_count ds ≡ es
              → prepare_words env
                  (words_of ds)
                  type_part
                  (having env h [] (replicate max_param_count (blank_param env)))
                ≡ fail out_of_bounds
          go [] e = absurd (omega (arith, length-drop max_param_count ds, ap length e, lt))
          go (e ∷ es) k =
              ap
                (λ l.
                  prepare_words env (words_of l) type_part
                    (having env h [] (replicate max_param_count (blank_param env))))
                (sym (take-append-drop max_param_count ds)
                  ∙ ap (λ l. take max_param_count ds ++ l) k)
              ∙ ap
                  (λ ps.
                    prepare_words env (words_of (take max_param_count ds ++ e ∷ es)) type_part
                      (having env h [] ps))
                  (sym (
                    blanks-replicate (take max_param_count ds) 0
                    ∙ ap (λ m. replicate m (blank_param env)) first))
              ∙ read_front env h [] (take max_param_count ds) es e []
                  (lengths_front max_param_count ds (lengths ds names))
              ∙ read_full h (take max_param_count ds) es e
