-- ===== src/Sql/Binds.antt =====
-- MysqlQuery.hpp and MysqlQuery.cpp: the arrays of parameters of a prepared statement.
use pets_server_linux.Common.{
  ℕ, zero, suc, ◌%◌, ◌^◌, ◌≡◌, ◌<◌, ◌≤◌, ◌⊎◌, inl, inr, refl, none, some, List, replicate,
  get_elem?, set, get_elem?-set, ◌==◌, if◌then◌else◌, Outcome, done, fail, out_of_bounds, arith,
}
use pets_server_linux.Sql.{FieldType, unset, tiny, long, longlong, string, blob, MysqlBind}

-- QueryBind: the number is a BYTE.
pub record QueryBind : Type 0 where
  pub binds : List MysqlBind
  param_numbers : ℕ

-- An element of the arrays before it is bound; `new` leaves it unset.
abbrev blank_bind : MysqlBind
blank_bind = record { buffer_type = unset; buffer = 0; buffer_length = 0; length = 0 }

-- QueryBind::QueryBind, of a number that is converted to a BYTE.
unfoldable pub new_query_bind : ℕ → QueryBind
new_query_bind n = record { binds = replicate (n % 2 ^ 8) blank_bind; param_numbers = n % 2 ^ 8 }

-- MySTMTBind::bind_param on the element `i`, which operator[] refers to: the size goes to the
-- buffer's length and to the length's own array. The lengths are unsigned int.
unfoldable pub bind_param : FieldType → ℕ → ℕ → ℕ → QueryBind → Outcome QueryBind
bind_param t buffer size i q = elim (get_elem? q.binds i) [
  | none ↦ fail out_of_bounds
  | some old ↦ done (record q {
    binds = set q.binds i (record {
      buffer_type = t;
      buffer = buffer;
      buffer_length = size % 2 ^ 32;
      length = size % 2 ^ 32;
    });
  })
]

module _ (buffer : ℕ) where
  -- BindBlob and BindString pass the size on, the numbers' binds pass 0.
  unfoldable pub bind_blob : ℕ → ℕ → QueryBind → Outcome QueryBind
  unfolding bind_param
  bind_blob size = bind_param blob buffer size

  unfoldable pub bind_string : ℕ → ℕ → QueryBind → Outcome QueryBind
  unfolding bind_param
  bind_string size = bind_param string buffer size

  unfoldable pub bind_long : ℕ → QueryBind → Outcome QueryBind
  unfolding bind_param
  bind_long = bind_param long buffer 0

  unfoldable bind_ulong : ℕ → QueryBind → Outcome QueryBind
  unfolding bind_param
  bind_ulong = bind_param long buffer 0

  unfoldable bind_long_long : ℕ → QueryBind → Outcome QueryBind
  unfolding bind_param
  bind_long_long = bind_param longlong buffer 0

  unfoldable bind_ulong_long : ℕ → QueryBind → Outcome QueryBind
  unfolding bind_param
  bind_ulong_long = bind_param longlong buffer 0

  unfoldable bind_utiny : ℕ → QueryBind → Outcome QueryBind
  unfolding bind_param
  bind_utiny = bind_param tiny buffer 0

get_elem?-replicate :
    {A : Type 0} (n i : ℕ) (a : A)
    → ((i < n) × (get_elem? (replicate n a) i ≡ some a))
      ⊎ ((n ≤ i) × (get_elem? (replicate n a) i ≡ none))
get_elem?-replicate zero i a = inr (omega arith, refl)
get_elem?-replicate (suc n) zero a = inl (omega arith, refl)
get_elem?-replicate (suc n) (suc i) a = elim (get_elem?-replicate n i a) [
  | inl (h, e) ↦ inl (omega (arith, h), e)
  | inr (h, e) ↦ inr (omega (arith, h), e)
]

-- The element that a bind leaves: the size goes to the buffer's length and to the length.
abbrev pub bound : FieldType → ℕ → ℕ → MysqlBind
bound t buffer size = record {
  buffer_type = t;
  buffer = buffer;
  buffer_length = size % 2 ^ 32;
  length = size % 2 ^ 32;
}

-- The element `i` holds what was bound, and every other element is as before.
pub Bound : FieldType → ℕ → ℕ → ℕ → QueryBind → QueryBind → Type 0
Bound t buffer size i q q' =
    ((j : ℕ)
      → get_elem? q'.binds j ≡ (if i == j then some (bound t buffer size) else get_elem? q.binds j))
    × (q'.param_numbers ≡ q.param_numbers)

-- The first bind on a new QueryBind: its number is taken modulo 256. An index below that is bound,
-- and any other, 0 of a QueryBind of 256 parameters too, is a write out of bounds.
pub bind_param-new_query_bind :
    (n : ℕ) (t : FieldType) (buffer size i : ℕ)
    → ((i < n % 2 ^ 8)
        × (q : QueryBind) × (bind_param t buffer size i (new_query_bind n) ≡ done q)
        × Bound t buffer size i (new_query_bind n) q)
      ⊎ ((n % 2 ^ 8 ≤ i) × (bind_param t buffer size i (new_query_bind n) ≡ fail out_of_bounds))
unfolding bind_param new_query_bind Bound
bind_param-new_query_bind n t buffer size i = elim (get_elem?-replicate (n % 2 ^ 8) i blank_bind) [
  | inl (h, e) ↦ inl (
    h,
    record {
      binds = set (replicate (n % 2 ^ 8) blank_bind) i (bound t buffer size);
      param_numbers = n % 2 ^ 8;
    },
    ground (arith, e),
    ((λ j. get_elem?-set (replicate (n % 2 ^ 8) blank_bind) i j _ blank_bind e), refl),
  )
  | inr (h, e) ↦ inr (h, ground (arith, e))
]
