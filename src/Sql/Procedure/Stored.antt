-- ===== src/Sql/Procedure/Stored.antt =====
-- ProcedureHelper::Execute (ProcedureHelper.cpp): where the columns of the answer are stored, and of
-- which type the values are.
use pets_server_linux.Common.{
  ℕ, zero, suc, ◌+◌, ◌≤◌, ◌<◌, ◌≡◌, ◌⊎◌, inl, inr, refl, sym, ap, ◌∙◌, subst, Bool, true, false,
  Option, none, some, List, [], ◌∷◌, Text, get_elem?, set, get_elem?-set, ◌==◌, if◌then◌else◌, done,
  fail, ◌>>=◌, >>=-eq-done, done-injective, bad_any_cast, arith,
}
use pets_server_linux.Sql.{
  FieldType, unset, tiny, long, longlong, float, double, string, blob, err_type,
}
use pets_server_linux.Sql.Procedure.{Env, Any, SqlParam, ProcedureHelper, param_at, set_param}
use pets_server_linux.Common.Int.{ℤ}
use pets_server_linux.Common.Decimal.{read_int}
use pets_server_linux.Sql.Procedure.Added.{param_at-get_elem}
use pets_server_linux.Sql.Procedure.Values.{column_value, sql_value_to_any, read_chars, read_number}
use pets_server_linux.Sql.Procedure.Execute.{read_columns}

-- The types that AnyValueToString and SqlValueToAny know.
abbrev pub is_known : FieldType → Bool
is_known long = true
is_known longlong = true
is_known float = true
is_known double = true
is_known string = true
is_known blob = true
is_known unset = false
is_known tiny = false
is_known err_type = false

module _ (env : Env) where
  -- The alternative of boost::any that a parameter of a type has to hold; the other types have none.
  pub data HasType : FieldType → Any env → Type 0 where
    of_int : (z : ℤ) → HasType long (Any.int z)
    of_int64 : (z : ℤ) → HasType longlong (Any.int64 z)
    of_float : (x : env.Float) → HasType float (Any.float x)
    of_double : (x : env.Double) → HasType double (Any.double x)
    of_chars : (s : Option Text) → HasType string (Any.chars s)
    of_pointer : (bytes : List ℕ) → HasType blob (Any.pointer bytes)

  read_chars-HasType :
      (t : FieldType) (value : Option Text) (f : Text → Any env) (v : Any env)
      → ((s : Text) → HasType t (f s))
      → read_chars env value f ≡ done v
      → HasType t v
  read_chars-HasType t none f v h e = cc
  read_chars-HasType t (some s) f v h e = subst (HasType t) (done-injective e) (h s)

  read_number-HasType :
      (t : FieldType) (w : ℕ) (value : Option Text) (f : ℤ → Any env) (v : Any env)
      → ((z : ℤ) → HasType t (f z))
      → read_number env w value f ≡ done v
      → HasType t v
  read_number-HasType t w none f v h e = cc
  read_number-HasType t w (some s) f v h e =
      let (z, read, same) = >>=-eq-done (read_int w s) (λ z. done (f z)) e in
      subst (HasType t) (done-injective same) (h z)

  -- A column that was read holds the alternative of its type.
  column_value-HasType :
      (t : FieldType) (old v : Any env) (value : Option Text)
      → is_known t ≡ true
      → column_value env t old value ≡ done v
      → HasType t v
  unfolding column_value
  column_value-HasType long old v value k e = read_number-HasType long 31 value Any.int v of_int e
  column_value-HasType longlong old v value k e = go env.int64_is_long_long e
    where
      go :
          (b : Bool)
          → (if b
              then read_number env 63 value Any.int64
              else (read_number env 63 value (λ z. old) >>= λ w. fail bad_any_cast))
            ≡ done v
          → HasType longlong v
      go true h = read_number-HasType longlong 63 value Any.int64 v of_int64 h
      go false h =
          let (w, read, thrown) =
            >>=-eq-done (read_number env 63 value (λ z. old)) (λ w. fail bad_any_cast) h in
          cc
  column_value-HasType float old v value k e =
      read_chars-HasType float value _ v (λ s. of_float (env.strtof s)) e
  column_value-HasType double old v value k e =
      read_chars-HasType double value _ v (λ s. of_double (env.strtod s)) e
  column_value-HasType string old v value k e =
      subst (HasType string) (done-injective e) (of_chars value)
  column_value-HasType blob old v value k e = cc
  column_value-HasType unset old v value k e = cc
  column_value-HasType tiny old v value k e = cc
  column_value-HasType err_type old v value k e = cc

  -- A column of the answer was stored in the parameter `k`: its value was read for the parameter's
  -- type, and holds the alternative of that type, if the type is known; nothing else of it changed.
  pub record StoredAt (h h' : ProcedureHelper env) (k : ℕ) (column : Option Text) : Type 0 where
    pub before : SqlParam env
    pub value : Any env
    pub found : get_elem? h.parameters k ≡ some before
    pub read : column_value env before.type before.bind_value column ≡ done value
    pub typed : is_known before.type ≡ true → HasType before.type value
    pub stored : get_elem? h'.parameters k ≡ some (record before { bind_value = value })

  -- What a call of set_param that ends has done.
  pub set_param-done :
      (h h' : ProcedureHelper env) (k : ℕ) (old p : SqlParam env)
      → get_elem? h.parameters k ≡ some old
      → set_param env h k p ≡ done h'
      → record h { parameters = set h.parameters k p } ≡ h'
  unfolding set_param
  set_param-done h h' k old p e w = done-injective (rw (e, set_param) at w)

  -- The columns from the first on, behind `i` others, go to the parameters behind the first
  -- `in_count + i` ones.
  unfoldable pub Columns :
      ℕ → ℕ → List (Option Text) → ProcedureHelper env → ProcedureHelper env → Type 0
  Columns left i rows h h' =
      ((j : ℕ)
        → j < left
        → (column : Option Text) × (get_elem? rows j ≡ some column)
          × StoredAt h h' (h.in_count + i + j) column)
      × ((k : ℕ)
          → (k < h.in_count + i) ⊎ (h.in_count + i + left ≤ k)
          → get_elem? h'.parameters k ≡ get_elem? h.parameters k)

  -- One column more in front.
  Columns-next :
      (left i : ℕ) (column : Option Text) (rows : List (Option Text)) (h h' : ProcedureHelper env)
      (p : SqlParam env) (v : Any env)
      → get_elem? h.parameters (h.in_count + i) ≡ some p
      → column_value env p.type p.bind_value column ≡ done v
      → Columns left
          (i + 1)
          rows
          (record h {
            parameters = set h.parameters (h.in_count + i) (record p { bind_value = v });
          })
          h'
      → Columns (suc left) i (column ∷ rows) h h'
  unfolding Columns
  Columns-next left i column rows h h' p v found read (later, others) = (first, kept)
    where
      changed :
          (k : ℕ)
          → get_elem? (set h.parameters (h.in_count + i) (record p { bind_value = v })) k ≡ (
              if h.in_count + i == k
              then some (record p { bind_value = v })
              else get_elem? h.parameters k)
      changed k =
          get_elem?-set h.parameters (h.in_count + i) k (record p { bind_value = v }) p found

      apart : (k : ℕ) → (k < h.in_count + i) ⊎ (h.in_count + i < k) → (h.in_count + i == k) ≡ false
      apart k (inl lt) = ground arith
      apart k (inr lt) = ground arith

      here_eq : (h.in_count + i == h.in_count + i) ≡ true
      here_eq = ground arith

      unchanged :
          (k : ℕ)
          → (k < h.in_count + i) ⊎ (h.in_count + i < k)
          → get_elem? (set h.parameters (h.in_count + i) (record p { bind_value = v })) k
            ≡ get_elem? h.parameters k
      unchanged k o = changed k ∙ rw (apart k o) refl

      kept :
          (k : ℕ)
          → (k < h.in_count + i) ⊎ (h.in_count + i + suc left ≤ k)
          → get_elem? h'.parameters k ≡ get_elem? h.parameters k
      kept k (inl lt) = others k (inl (omega arith)) ∙ unchanged k (inl lt)
      kept k (inr le) = others k (inr (omega arith)) ∙ unchanged k (inr (omega arith))

      first :
          (j : ℕ)
          → j < suc left
          → (c : Option Text) × (get_elem? (column ∷ rows) j ≡ some c)
            × StoredAt h h' (h.in_count + i + j) c
      first zero u =
          let at_first : StoredAt h h' (h.in_count + i) column = record {
            before = p;
            value = v;
            found = found;
            read = read;
            typed = λ k. column_value-HasType p.type p.bind_value v column k read;
            stored =
                others (h.in_count + i) (inl (omega arith))
                ∙ changed (h.in_count + i)
                ∙ rw here_eq refl;
          } in
          (column, refl, subst (λ k. StoredAt h h' k column) (omega arith) at_first)
      first (suc j) u =
          let (c, e, s) = later j (omega arith) in
          let same : h.in_count + (i + 1) + j ≡ h.in_count + i + suc j = omega arith in
          (
            c,
            e,
            subst (λ k. StoredAt h h' k c) same
                (record {
                  before = s.before;
                  value = s.value;
                  found = sym (unchanged (h.in_count + (i + 1) + j) (inr (omega arith))) ∙ s.found;
                  read = s.read;
                  typed = s.typed;
                  stored = s.stored;
                }),
          )

  -- When Execute has read the columns of the answer, from the one numbered `i` on: the column `j` is
  -- in the parameter that is `j` places behind these, read for that parameter's type and of the
  -- alternative that belongs to it, and every other parameter is as before.
  pub read_columns-Columns :
      (left i : ℕ) (rows : List (Option Text)) (lens : List ℕ) (h h' : ProcedureHelper env)
      → read_columns env left i rows lens h ≡ done h'
      → Columns left i rows h h'
  unfolding read_columns sql_value_to_any Columns
  read_columns-Columns zero i rows lens h h' e = (
    λ j u. absurd (omega arith),
    λ k o. ap (λ (g : ProcedureHelper env). get_elem? g.parameters k) (sym (done-injective e)),
  )
  read_columns-Columns (suc left) i [] lens h h' e = cc
  read_columns-Columns (suc left) i (column ∷ rows) [] h h' e = cc
  read_columns-Columns (suc left) i (column ∷ rows) (len ∷ lens) h h' e =
      let (p, at_p, e1) = >>=-eq-done (param_at env h (h.in_count + i)) _ e in
      let (p', read, e2) = >>=-eq-done (sql_value_to_any env p column len) _ e1 in
      let (v, value, e3) = >>=-eq-done (column_value env p.type p.bind_value column) _ read in
      let (h1, wrote, e4) = >>=-eq-done (set_param env h (h.in_count + i) p') _ e2 in
      let found = (param_at-get_elem env h (h.in_count + i)).of_done p at_p in
      let written : record h {
        parameters = set h.parameters (h.in_count + i) (record p { bind_value = v });
      }
          ≡ h1 =
        ap (λ q. record h { parameters = set h.parameters (h.in_count + i) q }) (done-injective e3)
        ∙ set_param-done h h1 (h.in_count + i) p p' found wrote in
      Columns-next left i column rows h h' p v found value (
        read_columns-Columns left (i + 1) rows lens _ h'
          (ap (read_columns env left (i + 1) rows lens) written ∙ e4))
