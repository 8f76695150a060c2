-- ===== src/Sql/Procedure/Storable.antt =====
-- SqlValueToAny and the loop that reads an answer (ProcedureHelper.cpp): when they do not throw
-- bad_any_cast.
use pets_server_linux.Common.{
  ℕ, zero, suc, ◌+◌, ◌≤◌, ◌≡◌, ◌≢◌, refl, sym, ap, ◌∙◌, subst, Bool, true, false, Bool-cases, inl,
  inr, Option, none, some, List, [], ◌∷◌, Text, get_elem?, set, get_elem?-set, ◌==◌, if◌then◌else◌,
  done, fail, ◌>>=◌, >>=-eq-done, done-injective, bad_any_cast, Avoids-after, Avoids-end, arith,
}
use pets_server_linux.Common.Int.{ℤ}
use pets_server_linux.Common.Decimal.{read_int}
use pets_server_linux.Sql.{
  FieldType, unset, tiny, long, longlong, float, double, string, blob, err_type,
}
use pets_server_linux.Sql.Procedure.{Env, Any, SqlParam, ProcedureHelper, param_at, set_param}
use pets_server_linux.Sql.Procedure.Added.{param_at-get_elem}
use pets_server_linux.Sql.Procedure.Values.{column_value, sql_value_to_any, read_chars, read_number}
use pets_server_linux.Sql.Procedure.Execute.{read_columns}
use pets_server_linux.Sql.Procedure.Stored.{set_param-done}
use pets_server_linux.Sql.Procedure.Safety.{param_at-Safe}
use pets_server_linux.Sql.Procedure.Typed.{Safe}

module _ (env : Env) where
  -- A parameter whose column SqlValueToAny can store: no blob, and a bigint only where int64_t is
  -- long long.
  unfoldable pub Storable : SqlParam env → Type 0
  Storable p = (p.type ≢ blob) × (p.type ≡ longlong → env.int64_is_long_long ≡ true)

  read_chars-Safe : (value : Option Text) (f : Text → Any env) → Safe (read_chars env value f)
  read_chars-Safe none f = record { of_fail = λ h. cc }
  read_chars-Safe (some s) f = Avoids-end (f s)

  read_int-Safe : (w : ℕ) (s : Text) → Safe (read_int w s)
  unfolding read_int
  read_int-Safe w s = record { of_fail = ground arith }

  read_number-Safe :
      (w : ℕ) (value : Option Text) (f : ℤ → Any env) → Safe (read_number env w value f)
  read_number-Safe w none f = record { of_fail = λ h. cc }
  read_number-Safe w (some s) f =
      Avoids-after (read_int w s) _ (read_int-Safe w s) (λ z e. Avoids-end (f z))

  column_value-Safe :
      (p : SqlParam env) (t : FieldType) (column : Option Text)
      → p.type ≡ t
      → Storable p
      → Safe (column_value env t p.bind_value column)
  unfolding column_value Storable
  column_value-Safe p long column k s = read_number-Safe 31 column Any.int
  column_value-Safe p longlong column k s = go env.int64_is_long_long (s.1 k)
    where
      go :
          (b : Bool)
          → b ≡ true
          → Safe (
              if b
              then read_number env 63 column Any.int64
              else (read_number env 63 column (λ z. p.bind_value) >>= λ v. fail bad_any_cast))
      go true e = read_number-Safe 63 column Any.int64
      go false e = cc
  column_value-Safe p float column k s = read_chars-Safe column (λ x. Any.float (env.strtof x))
  column_value-Safe p double column k s = read_chars-Safe column (λ x. Any.double (env.strtod x))
  column_value-Safe p string column k s = Avoids-end _
  column_value-Safe p blob column k s = absurd (s.0 k)
  column_value-Safe p unset column k s = Avoids-end _
  column_value-Safe p tiny column k s = Avoids-end _
  column_value-Safe p err_type column k s = Avoids-end _

  sql_value_to_any-Safe :
      (p : SqlParam env) (column : Option Text) (len : ℕ)
      → Storable p
      → Safe (sql_value_to_any env p column len)
  unfolding sql_value_to_any
  sql_value_to_any-Safe p column len s =
      Avoids-after (column_value env p.type p.bind_value column) _
        (column_value-Safe p p.type column refl s) (λ v e. Avoids-end _)

  set_param-Safe : (h : ProcedureHelper env) (i : ℕ) (p : SqlParam env) → Safe (set_param env h i p)
  unfolding set_param
  set_param-Safe h i p = record { of_fail = ground arith }

  -- From the parameter `n` on, all can be stored.
  unfoldable pub StorableFrom : ℕ → List (SqlParam env) → Type 0
  StorableFrom n ps = (i : ℕ) (p : SqlParam env) → n ≤ i → get_elem? ps i ≡ some p → Storable p

  -- A value that is stored changes no type.
  StorableFrom-set :
      (n k : ℕ) (ps : List (SqlParam env)) (p : SqlParam env) (v : Any env)
      → get_elem? ps k ≡ some p
      → StorableFrom n ps
      → StorableFrom n (set ps k (record p { bind_value = v }))
  unfolding StorableFrom Storable
  StorableFrom-set n k ps p v found s i q le e = elim (Bool-cases (k == i)) [
    | inl same ↦
        let now : record p { bind_value = v } ≡ q =
          some_eq
            (sym (get_elem?-set ps k i (record p { bind_value = v }) p found ∙ rw same refl) ∙ e) in
        subst Storable now (s k p (omega (arith, ==_eq k i same)) found)
    | inr other ↦
        s i q le
          (sym (get_elem?-set ps k i (record p { bind_value = v }) p found ∙ rw other refl) ∙ e)
  ]
    where
      some_eq : {x y : SqlParam env} → some x ≡ some y → x ≡ y
      some_eq h = cc

      ==_eq : (a b : ℕ) → (a == b) ≡ true → a ≡ b
      ==_eq a b h = ground arith

  -- The helper after one column was stored.
  stored-StorableFrom :
      (h h' : ProcedureHelper env) (p p' : SqlParam env) (column : Option Text) (len i : ℕ)
      → StorableFrom h.in_count h.parameters
      → get_elem? h.parameters (h.in_count + i) ≡ some p
      → sql_value_to_any env p column len ≡ done p'
      → set_param env h (h.in_count + i) p' ≡ done h'
      → StorableFrom h'.in_count h'.parameters
  unfolding sql_value_to_any
  stored-StorableFrom h h' p p' column len i s found read wrote =
      let (v, value, same) = >>=-eq-done (column_value env p.type p.bind_value column) _ read in
      let written : record h {
        parameters = set h.parameters (h.in_count + i) (record p { bind_value = v });
      }
          ≡ h' =
        ap (λ q. record h { parameters = set h.parameters (h.in_count + i) q })
          (done-injective same)
        ∙ set_param-done env h h' (h.in_count + i) p p' found wrote in
      subst (λ (g : ProcedureHelper env). StorableFrom g.in_count g.parameters) written
        (StorableFrom-set h.in_count (h.in_count + i) h.parameters p v found s)

  pub read_columns-Safe :
      (left i : ℕ) (rows : List (Option Text)) (lens : List ℕ) (h : ProcedureHelper env)
      → StorableFrom h.in_count h.parameters
      → Safe (read_columns env left i rows lens h)
  unfolding read_columns StorableFrom
  read_columns-Safe zero i rows lens h s = Avoids-end h
  read_columns-Safe (suc left) i [] lens h s = record { of_fail = λ k. cc }
  read_columns-Safe (suc left) i (column ∷ rows) [] h s = record { of_fail = λ k. cc }
  read_columns-Safe (suc left) i (column ∷ rows) (len ∷ lens) h s =
      Avoids-after (param_at env h (h.in_count + i)) _ (param_at-Safe env h (h.in_count + i))
        (λ p e.
          let found = (param_at-get_elem env h (h.in_count + i)).of_done p e in
          Avoids-after (sql_value_to_any env p column len) _
            (sql_value_to_any-Safe p column len (s (h.in_count + i) p (omega arith) found))
            (λ p' e1.
              Avoids-after (set_param env h (h.in_count + i) p') _
                (set_param-Safe h (h.in_count + i) p')
                (λ h' e2.
                  read_columns-Safe left (i + 1) rows lens h'
                    (stored-StorableFrom h h' p p' column len i s found e1 e2))))
