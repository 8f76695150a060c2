-- ===== src/Sql/Procedure/Calls.antt =====
-- ProcedureHelper::Execute (ProcedureHelper.cpp): the statement of a call without variables.
use pets_server_linux.Common.{
  ◌⊎◌, true, ℕ, ◌+◌, ◌≡◌, ◌≢◌, false, some, List, [], ◌∷◌, ◌++◌, Text, codes, map, concat,
  get_elem?, if◌then◌else◌, Outcome, done, ◌>>=◌,
}
use pets_server_linux.Common.Int.{ℤ, pos, negsuc}
use pets_server_linux.Sql.{Client, is_zero}
use pets_server_linux.Sql.Query.{release}
use pets_server_linux.Sql.Query.Ownership.{SameOpen}
use pets_server_linux.Sql.Procedure.{Env, v_in, SqlParam, ProcedureHelper}
use pets_server_linux.Sql.Procedure.Values.{any_value_to_string}
use pets_server_linux.Sql.Procedure.Execute.{execute_into, is_blob, comma}

-- Texts with a comma between each two.
pub arguments : List Text → Text
arguments [] = []
arguments (t ∷ ts) = t ++ concat (map (λ u. codes ", " ++ u) ts)

module _ (env : Env) where
  -- An IN parameter with its text in a statement.
  pub record HasText (h : ProcedureHelper env) (i : ℕ) (text : Text) : Type 0 where
    pub param : SqlParam env
    pub found : get_elem? h.parameters i ≡ some param
    pub direction : param.direction ≡ v_in
    pub kind : is_blob param.type ≡ false
    pub printed : any_value_to_string env param ≡ done text
    pub filled : text ≢ []

  -- The parameters from `i` on are IN parameters with these texts.
  unfoldable pub HasTexts : ProcedureHelper env → ℕ → List Text → Type 0
  HasTexts h i [] = Unit
  HasTexts h i (t ∷ ts) = HasText h i t × HasTexts h (i + 1) ts

  -- The statement, one call with the texts as its arguments.
  abbrev pub call_text : ProcedureHelper env → List Text → Text
  call_text h ts = codes "call " ++ h.str_proc ++ codes " ( " ++ arguments ts ++ codes " )"

  -- What parameters from number `i` on add to the call.
  pieces : ℕ → List Text → Text
  pieces i [] = []
  pieces i (t ∷ ts) = (comma env i ++ t) ++ pieces (i + 1) ts

  -- One query with a call, into the helper itself, and Release if the query was accepted.
  unfoldable call_and_release :
      Text
      → ProcedureHelper env
      → Client env.api
      → Outcome (ℤ × ProcedureHelper env × Client env.api)
  unfolding execute_into
  call_and_release sql h c = do
    (code, h1, c1) ← execute_into env sql h c
    (if is_zero code
        then (do c2 ← release env.api h1.result c1; done (pos 0, h1, c2))
        else done (code, h1, c1))

  -- How a call ends: without a connection with -1; if the server refuses it, with its code; and else
  -- with 0, the parameters as they were, and no result set open that was not open before.
  pub Ended :
      Text
      → ProcedureHelper env
      → Client env.api
      → Outcome (ℤ × ProcedureHelper env × Client env.api)
      → Type 0
  Ended sql h c o =
      ((c.mysql ≡ false) × (o ≡ done (negsuc 0, h, c)))
      ⊎ ((c.mysql ≡ true)
          × (is_zero (env.api.real_query c.db sql).0 ≡ false)
          × (o
              ≡ done (
                (env.api.real_query c.db sql).0,
                h,
                record c { db = (env.api.real_query c.db sql).1 },
              )))
      ⊎ ((c.mysql ≡ true)
          × (is_zero (env.api.real_query c.db sql).0 ≡ true)
          × ((h' : ProcedureHelper env) × (c' : Client env.api) × (o ≡ done (pos 0, h', c'))
              × (h'.parameters ≡ h.parameters)
              × (h'.result.sql ≡ some sql)
              × SameOpen env.api c c'))
