-- ===== src/Sql/Procedure/Counts.antt =====
-- The counters that Prepare leaves, for every parameter list.
use pets_server_linux.Common.{
  ℕ, zero, suc, ◌+◌, ◌≤◌, ◌<◌, ◌≡◌, refl, ap, Bool, true, false, Option, none, some, List, [], ◌∷◌,
  Text, length, codes, get_elem?, set, text_eq, if◌then◌else◌, Outcome, done, fail, ◌>>=◌,
  out_of_bounds, arith, Ensures, Ensures-after, Ensures-if, Ensures-end, >>=-eq-done,
  done-injective, subst,
}
use pets_server_linux.Common.Int.{ℤ, pos, negsuc}
use pets_server_linux.Sql.Procedure.{
  Env, Direction, v_in, v_out, v_inout, SqlParam, ProcedureHelper, param_at, set_param,
}
use pets_server_linux.Sql.Procedure.Types.{get_my_sql_type}
use pets_server_linux.Sql.Procedure.Prepare.{
  Part, type_part, name_part, field_part, cut_field, direct, read_direction, read_field,
  prepare_words, is_err,
}

-- Which part of a parameter a word leaves, and which part a list of words ends in: `type_part` if no
-- parameter is unfinished.
part_after : Text → Part → Part
part_after word type_part =
    if text_eq word (codes "in")
    then name_part
    else (if text_eq word (codes "out")
        then name_part
        else (if text_eq word (codes "inout") then name_part else field_part))
part_after word name_part = field_part
part_after word field_part = type_part

unfoldable pub ends_in : List Text → Part → Part
unfolding part_after
ends_in [] part = part
ends_in (word ∷ words) part = ends_in words (part_after word part)

module _ (env : Env) where
  length-set :
      (xs : List (SqlParam env)) (i : ℕ) (v : SqlParam env) → length (set xs i v) ≡ length xs
  length-set [] i v = refl
  length-set (x ∷ xs) zero v = omega arith
  length-set (x ∷ xs) (suc i) v = omega (arith, length-set xs i v)

  get_elem?-lt :
      (xs : List (SqlParam env)) (i : ℕ) (v : SqlParam env)
      → get_elem? xs i ≡ some v
      → i < length xs
  get_elem?-lt [] i v e = cc
  get_elem?-lt (x ∷ xs) zero v e = omega arith
  get_elem?-lt (x ∷ xs) (suc i) v e = omega (arith, get_elem?-lt xs i v e)

  abbrev counted : ProcedureHelper env → ℕ
  counted h = h.in_count + h.out_count + h.inout_count

  -- A parameter was written at an index that the array has.
  Wrote : ℕ → ProcedureHelper env → ProcedureHelper env → Type 0
  Wrote i h h' =
      (counted h' ≡ counted h)
      × (h'.total_count ≡ h.total_count)
      × (length h'.parameters ≡ length h.parameters)
      × (i < length h.parameters)

  set_param-Wrote :
      (h : ProcedureHelper env) (i : ℕ) (p : SqlParam env)
      → Ensures (Wrote i h) (set_param env h i p)
  unfolding set_param Wrote
  set_param-Wrote h i p = go (get_elem? h.parameters i) refl
    where
      go :
          (o : Option (SqlParam env))
          → get_elem? h.parameters i ≡ o
          → Ensures (Wrote i h) (elim o [
            | none ↦ fail out_of_bounds
            | some old ↦ done (record h { parameters = set h.parameters i p })
          ])
      go none e = record { of_done = λ a k. absurd (cc) }
      go (some old) e =
          Ensures-end _ (refl, refl, length-set h.parameters i p, get_elem?-lt h.parameters i old e)

  -- A direction has been counted and not yet its parameter, unless a type ended it.
  abbrev pending : Part → ℕ
  pending type_part = 0
  pending name_part = 1
  pending field_part = 1

  -- What Prepare keeps: the directions counted are the parameters, and the one that is being read;
  -- the parameters are in the array.
  pub record Counts (part : Part) (h : ProcedureHelper env) : Type 0 where
    pub directions : counted h ≡ h.total_count + pending part
    pub room : h.total_count + pending part ≤ length h.parameters

  direct-Counts :
      (d : Direction) (h : ProcedureHelper env)
      → Counts type_part h
      → Ensures (λ h'. Counts name_part h' × Counts field_part h') (direct env d h)
  unfolding direct Wrote
  direct-Counts d h c =
      Ensures-after (param_at env h h.total_count) _ (λ p e. go d (record p { direction = d }))
    where
      written :
          (g : ProcedureHelper env) (p : SqlParam env)
          → counted g ≡ counted h + 1
          → g.total_count ≡ h.total_count
          → length g.parameters ≡ length h.parameters
          → Ensures
              (λ h'. Counts name_part h' × Counts field_part h')
              (set_param env g h.total_count p)
      written g p e t l = record {
        of_done = λ h' k.
            let (w, w', w'', lt) = (set_param-Wrote g h.total_count p).of_done h' k in
            (
              record {
                directions = omega (arith, c.directions, w, w', e, t);
                room = omega (arith, w', w'', lt, t);
              },
              record {
                directions = omega (arith, c.directions, w, w', e, t);
                room = omega (arith, w', w'', lt, t);
              },
            );
      }

      go :
          (d' : Direction) (p : SqlParam env)
          → Ensures
              (λ h'. Counts name_part h' × Counts field_part h')
              (set_param env
                (elim d' [
                  | v_in ↦ record h { in_count = h.in_count + 1 }
                  | v_out ↦ record h { out_count = h.out_count + 1 }
                  | v_inout ↦ record h { inout_count = h.inout_count + 1 }
                ])
                h.total_count
                p)
      go v_in p = written (record h { in_count = h.in_count + 1 }) p (omega arith) refl refl
      go v_out p = written (record h { out_count = h.out_count + 1 }) p (omega arith) refl refl
      go v_inout p =
          written (record h { inout_count = h.inout_count + 1 }) p (omega arith) refl refl

  -- The direction that a word gives, and the part that it leaves.
  Directed : Text → Part × ProcedureHelper env → Type 0
  Directed word (part, h) = (part ≡ part_after word type_part) × Counts part h

  read_direction-Counts :
      (word : Text) (h : ProcedureHelper env)
      → Counts type_part h
      → Ensures (Directed word) (read_direction env word h)
  unfolding read_direction Directed part_after
  read_direction-Counts word h c =
      Ensures-if (text_eq word (codes "in")) _ _ (λ e. named v_in (rw e refl))
        (λ e.
          Ensures-if (text_eq word (codes "out")) _ _ (λ e1. named v_out (rw (e, e1) refl))
            (λ e1.
              Ensures-if (text_eq word (codes "inout")) _ _
                (λ e2. named v_inout (rw (e, e1, e2) refl))
                (λ e2. Ensures-after (direct env v_in h) _ (λ h' k.
                  Ensures-end _ (rw (e, e1, e2) refl, ((direct-Counts v_in h c).of_done h' k).1)))))
    where
      named :
          (d : Direction)
          → name_part ≡ part_after word type_part
          → Ensures (Directed word) (direct env d h >>= λ h'. done (name_part, h'))
      named d same =
          Ensures-after (direct env d h) _
            (λ h' k. Ensures-end _ (same, ((direct-Counts d h c).of_done h' k).0))

  -- A known type ends the parameter.
  Ended : Bool × ProcedureHelper env → Type 0
  Ended (true, h) = Counts type_part h
  Ended (false, h) = Unit

  read_field-Ended :
      (word : Text) (h : ProcedureHelper env)
      → Counts field_part h
      → Ensures Ended (read_field env word h)
  unfolding read_field Ended Wrote
  read_field-Ended word h c = Ensures-after (cut_field word) _ (λ (name, lens) e.
      Ensures-after (param_at env h h.total_count) _ (λ p e1.
        Ensures-after (set_param env h h.total_count _) _ (λ h' e2. Ensures-end _ (
          go h' ((set_param-Wrote h h.total_count _).of_done h' e2)
            (is_err env (get_my_sql_type name))))))
    where
      go :
          (h' : ProcedureHelper env)
          → Wrote h.total_count h h'
          → (b : Bool)
          → Ended
              (if b then (false, h') else (true, record h' { total_count = h'.total_count + 1 }))
      go h' w true = tt
      go h' (w, w', w'', lt) false = record {
        directions = omega (arith, c.directions, w, w');
        room = omega (arith, w', w'', lt);
      }

  field_rest :
      (words : List Text) (known : Bool) (h1 h' : ProcedureHelper env)
      → Ended (known, h1)
      → (elim known as (λ b. Outcome (ℤ × ProcedureHelper env)) [
        | false ↦ done (negsuc 2, h1)
        | true ↦ prepare_words env words type_part h1
      ])
        ≡ done (pos 0, h')
      → (Counts type_part h1
          → prepare_words env words type_part h1 ≡ done (pos 0, h')
          → Counts (ends_in words type_part) h')
      → Counts (ends_in words type_part) h'
  unfolding Ended
  field_rest words true h1 h' d e later = later d e
  field_rest words false h1 h' d e later = cc

  -- After Prepare has read any words, from a helper whose counters fit its parameters: if it answers
  -- 0, all parameters have room, and IN, OUT and INOUT parameters are together as many as there are
  -- parameters if the words end with a type, and one more if they end within a parameter.
  pub prepare_words-Counts :
      (words : List Text) (part : Part) (h h' : ProcedureHelper env)
      → Counts part h
      → prepare_words env words part h ≡ done (pos 0, h')
      → Counts (ends_in words part) h'
  unfolding prepare_words Ended Directed ends_in part_after
  prepare_words-Counts [] part h h' c e = subst (Counts part) (ap (λ r. r.1) (done-injective e)) c
  prepare_words-Counts (word ∷ words) type_part h h' c e =
      let ((part, h1), k, k') = >>=-eq-done (read_direction env word h) _ e in
      let (same, counts) = (read_direction-Counts word h c).of_done (part, h1) k in
      subst (λ p. Counts (ends_in words p) h') same
        (prepare_words-Counts words part h1 h' counts k')
  prepare_words-Counts (word ∷ words) name_part h h' c e =
      prepare_words-Counts words field_part h h'
        (record { directions = c.directions; room = c.room }) e
  prepare_words-Counts (word ∷ words) field_part h h' c e =
      let ((known, h1), k, k') = >>=-eq-done (read_field env word h) _ e in
      field_rest words known h1 h' ((read_field-Ended word h c).of_done (known, h1) k) k'
        (λ d. prepare_words-Counts words type_part h1 h' d)
