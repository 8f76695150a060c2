-- ===== src/Object/Parse.antt =====
-- Pet::Parse of Pet.cpp: cutting a text at a delimiter.
pub mod Cuts
use pets_server_linux.Common.{
  ℕ, zero, suc, ◌+◌, Bool, true, false, ◌&&◌, Option, none, some, List, [], ◌∷◌, ◌++◌, Text, length,
  take, drop, leb, ◌==◌, if◌then◌else◌, Outcome, done, fail, stuck, ◌>>=◌, no_return,
}
use mathlib.Core.Option

-- Whether a text begins with another.
unfoldable pub starts_with : Text → Text → Bool
starts_with [] s = true
starts_with (c ∷ cs) [] = false
starts_with (c ∷ cs) (d ∷ s) = (c == d) && starts_with cs s

-- std::string::find: the first position of a text in another.
unfoldable pub find : Text → Text → Option ℕ
unfolding starts_with
find pat [] = if starts_with pat [] then some 0 else none
find pat (c ∷ s) = if starts_with pat (c ∷ s) then some 0 else Option.map suc (find pat s)

-- The loop: `strs` is what is not cut yet, `res` the pieces so far.
unfoldable pub parse_loop : ℕ → Text → Text → List Text → Outcome (List Text)
unfolding find
parse_loop zero strs delimiter res = stuck
parse_loop (suc fuel) strs delimiter res = elim (find delimiter strs) [
  | none ↦ done res
  | some pos ↦
      parse_loop fuel (drop (pos + length delimiter) strs) delimiter (res ++ take pos strs ∷ [])
]

-- Parse returns on the short texts only: behind the loop the function ends with no return
-- statement.
unfoldable pub parse : Text → Text → Outcome (List Text)
unfolding parse_loop
parse str delimiter =
    if leb (length str) 1
    then done []
    else (parse_loop (suc (suc (length str + length delimiter))) (str ++ delimiter) delimiter []
        >>= λ res. fail no_return)
