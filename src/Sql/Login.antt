-- ===== src/Sql/Login.antt =====
-- ObjectModule/Pet.cpp: Pet::OnMysqlLoginMsg, the callback on the answer to a login's query.
use pets_server_linux.Common.{
  ℕ, zero, suc, ◌<◌, ◌≡◌, inl, inr, refl, ap, ◌∙◌, Bool, true, false, Bool-cases, ◌||◌, ◌&&◌,
  Option, none, some, List, [], ◌∷◌, length, ◌==◌, if◌then◌else◌, Outcome, done, stuck, ◌>>=◌,
  arith,
}
use pets_server_linux.Common.Int.{ℤ, pos, negsuc}
use pets_server_linux.Sql.{Api, Client, QueryResult, MysqlBind, long, is_zero}
use pets_server_linux.Sql.Binds.{new_query_bind, bind_long}
use pets_server_linux.Sql.Query.{affected, fetch_result_bind}

-- What is logged: nothing, that account or password are wrong, or that the login succeeded.
pub data Answer : Type 0 where
  silent refused accepted : Answer

-- The rest of the callback, by roleID.
abbrev pub decide : ℤ → Answer
decide role = if is_zero role then refused else accepted

-- The variable after a fetch that wrote a value, or none.
abbrev pub store : Option ℤ → ℤ → ℤ
store none role = role
store (some v) role = v

-- Every row is NULL or 0.
all_zero : List (Option ℤ) → Bool
all_zero [] = true
all_zero (v ∷ vs) = is_zero (store v (pos 0)) && all_zero vs

-- The value of the last row that is not NULL.
last_value : ℤ → List (Option ℤ) → ℤ
last_value role [] = role
last_value role (v ∷ vs) = last_value (store v role) vs

-- Of the client library: what mysql_stmt_fetch in a state writes into the variable that is bound. Of
-- the program's memory: the address of roleID, and the flag m_nulls[0], which nothing sets, since
-- BindLong passes no place for it.
pub record Fetches (api : Api) : Type 0 where
  pub written : api.Db → Option ℤ
  pub role_address : ℕ
  pub null_flag : Bool

module _ (api : Api) (f : Fetches api) where
  open f use {written, role_address, null_flag}

  -- QueryBind bind(1); bind[0].BindLong(&roleID)
  unfoldable bind_role : Outcome (List MysqlBind)
  unfolding new_query_bind bind_long
  bind_role = do q ← bind_long role_address 0 (new_query_bind 1); done q.binds

  -- The array that it binds: a MYSQL_TYPE_LONG of length 0 at the variable's address.
  abbrev pub role_binds : List MysqlBind
  role_binds =
      record { buffer_type = long; buffer = role_address; buffer_length = 0; length = 0 } ∷ []

  -- What FetchResult(bind) writes into roleID: nothing before the fetch itself.
  unfoldable pub wrote : List MysqlBind → QueryResult → Client api → Option ℤ
  wrote binds qr c =
      if length binds == qr.num_fields
      then (let (result, db) = api.stmt_bind_result c.db binds in
          if is_zero result then written db else none)
      else none

  -- The loop over the rows, for fuel: on to the next row while the flag says null or roleID is 0.
  unfoldable pub fetch_role :
      ℕ → List MysqlBind → QueryResult → ℤ → Client api → Outcome (ℤ × Client api)
  unfolding fetch_result_bind wrote
  fetch_role zero binds qr role c = stuck
  fetch_role (suc fuel) binds qr role c =
      let (result, c') = fetch_result_bind api binds qr c in
      let now = store (wrote binds qr c) role in
      let again = fetch_role fuel binds qr now c' in
      if is_zero result
      then (if null_flag || is_zero now then again else done (now, c'))
      else done (now, c')

  -- Pet::OnMysqlLoginMsg
  unfoldable pub on_mysql_login_msg : ℕ → QueryResult → Client api → Outcome (Answer × Client api)
  unfolding bind_role fetch_role
  on_mysql_login_msg fuel qr c = if is_zero (affected api qr) then done (silent, c) else (do
    binds ← bind_role
    (role, c') ← fetch_role fuel binds qr (pos 0) c
    done (decide role, c'))

  -- The rows that the fetches give, each with what it writes, up to the fetch that fails; that one
  -- writes nothing.
  pub data Rows (binds : List MysqlBind) (qr : QueryResult)
      : Client api → List (Option ℤ) → Type 0 where
    over :
        {c : Client api}
        → is_zero (fetch_result_bind api binds qr c).0 ≡ false
        → wrote binds qr c ≡ none
        → Rows binds qr c []
    row :
        {c : Client api} {v : Option ℤ} {vs : List (Option ℤ)}
        → is_zero (fetch_result_bind api binds qr c).0 ≡ true
        → wrote binds qr c ≡ v
        → Rows binds qr (fetch_result_bind api binds qr c).1 vs
        → Rows binds qr c (v ∷ vs)

  -- What the login should be decided by.
  pub verdict : List (Option ℤ) → Answer
  verdict vs =
      if null_flag
      then decide (last_value (pos 0) vs)
      else (if all_zero vs then refused else accepted)

  zero_role : (z : ℤ) → is_zero z ≡ true → z ≡ pos 0
  zero_role (pos zero) h = refl
  zero_role (pos (suc n)) h = cc
  zero_role (negsuc n) h = cc

  -- With the flag set, every row is read.
  fetch_role_null :
      (fuel : ℕ) (binds : List MysqlBind) (qr : QueryResult) (role : ℤ) (c : Client api)
      {vs : List (Option ℤ)}
      → null_flag ≡ true
      → Rows binds qr c vs
      → length vs < fuel
      → (c' : Client api) × (fetch_role fuel binds qr role c ≡ done (last_value role vs, c'))
  unfolding fetch_role last_value
  fetch_role_null zero binds qr role c null rows h = absurd (omega arith)
  fetch_role_null (suc fuel) binds qr role c null (over failed nothing) h =
      ((fetch_result_bind api binds qr c).1, rw (failed, nothing) refl)
  fetch_role_null (suc fuel) binds qr role c null (row {v = v} {vs = vs} good wr rest) h =
      let (c', e) =
        fetch_role_null fuel binds qr (store v role) (fetch_result_bind api binds qr c).1 null rest
          (omega arith) in
      (c', rw (good, wr, null) e)

  -- With the flag clear, the first row that is not 0 ends the loop.
  fetch_role_first :
      (fuel : ℕ) (binds : List MysqlBind) (qr : QueryResult) (c : Client api) {vs : List (Option ℤ)}
      → null_flag ≡ false
      → Rows binds qr c vs
      → length vs < fuel
      → (role : ℤ) × (c' : Client api) × (fetch_role fuel binds qr (pos 0) c ≡ done (role, c'))
        × (is_zero role ≡ all_zero vs)
  unfolding fetch_role all_zero
  fetch_role_first zero binds qr c clear rows h = absurd (omega arith)
  fetch_role_first (suc fuel) binds qr c clear (over failed nothing) h =
      (pos 0, (fetch_result_bind api binds qr c).1, rw (failed, nothing) refl, refl)
  fetch_role_first (suc fuel) binds qr c clear (row {v = v} {vs = vs} good wr rest) h =
      elim (Bool-cases (is_zero (store v (pos 0)))) [
        | inl zeroed ↦
            let (role, c', e, same) =
              fetch_role_first fuel binds qr (fetch_result_bind api binds qr c).1 clear rest
                (omega arith) in
            (
              role,
              c',
              rw (good, wr, clear, zeroed)
                  (ap (λ r. fetch_role fuel binds qr r (fetch_result_bind api binds qr c).1)
                      (zero_role (store v (pos 0)) zeroed)
                    ∙ e),
              rw zeroed same,
            )
        | inr found ↦ (
          store v (pos 0),
          (fetch_result_bind api binds qr c).1,
          rw (good, wr, clear, found) refl,
          rw found refl,
        )
      ]

  -- The callback on the result of a query that has rows, with a fetch more than there are rows in
  -- fuel: if nothing was affected it logs nothing; else it ends, and accepts the login exactly if
  -- some row has a number other than 0, provided that the flag happens to be clear. If it is set, the
  -- last number decides.
  pub on_mysql_login_msg-Rows :
      (fuel : ℕ) (qr : QueryResult) (c : Client api) (vs : List (Option ℤ))
      → Rows role_binds qr c vs
      → length vs < fuel
      → (c' : Client api) × (on_mysql_login_msg fuel qr c
          ≡ done (if is_zero (affected api qr) then silent else verdict vs, c'))
  unfolding on_mysql_login_msg verdict
  on_mysql_login_msg-Rows fuel qr c vs rows h = elim (Bool-cases (is_zero (affected api qr))) [
    | inl none_affected ↦ (c, rw none_affected refl)
    | inr some_affected ↦ elim (Bool-cases null_flag) [
      | inl null ↦
          let (c', k) = fetch_role_null fuel role_binds qr (pos 0) c null rows h in
          (c', rw (some_affected, k, null) refl)
      | inr clear ↦
          let (role, c', k, same) = fetch_role_first fuel role_binds qr c clear rows h in
          (c', rw (some_affected, k, clear, same) refl)
    ]
  ]
