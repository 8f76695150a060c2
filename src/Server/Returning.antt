-- ===== src/Server/Returning.antt =====
-- The callbacks that InitServer registers (PetsServer.cpp, ObjectModule/PetsManager.cpp) return or
-- fault, on every message.
use pets_server_linux.Common.{
  ℕ, zero, suc, ◌≡◌, ◌≢◌, inl, inr, refl, Bool, Bool-cases, false, Option, none, some, List, [],
  ◌∷◌, ◌++◌, codes, length, drop, All, subst, ◌==◌, if◌then◌else◌, Outcome, done, fail, stuck,
  ◌>>=◌, >>=-ne-stuck, arith,
}
use pets_server_linux.Common.Maps
use pets_server_linux.Object.{Pet}
use pets_server_linux.Object.Parse.{parse}
use pets_server_linux.Object.Parse.Cuts.{parse_cases}
use pets_server_linux.Object.Handlers.{
  Log, c_string, on_net_login_msg, login_case, on_dispatch_login_msg, on_dispatch_chat_msg,
  on_dispatch_move_msg,
}
use pets_server_linux.Message.Login
use pets_server_linux.Dispatcher.{DispatcherCallBack, CallBackMap}
use pets_server_linux.Dispatcher.Progress.{Returns}
use pets_server_linux.Server.{bind_callbacks, as_callback}
use pets_server_linux.Server.Routing.{fresh}

c_string-ne-stuck : (cs : List ℕ) → c_string cs ≢ stuck
unfolding c_string
c_string-ne-stuck [] = λ e. cc
c_string-ne-stuck (zero ∷ cs) = λ e. cc
c_string-ne-stuck (suc c ∷ cs) = >>=-ne-stuck (c_string cs) _ (c_string-ne-stuck cs) (λ s e k. cc)

parse-ne-stuck : (c : ℕ) (str : List ℕ) → parse str (c ∷ []) ≢ stuck
parse-ne-stuck c str = elim (parse_cases c str) [
  | inl (short, e) ↦ λ k. cc
  | inr (long, e) ↦ λ k. cc
]

login_case-ne-stuck : (pet : Option Pet) (msg : List ℕ) (log : Log) → login_case pet msg log ≢ stuck
unfolding login_case on_net_login_msg
login_case-ne-stuck none msg log = λ e. cc
login_case-ne-stuck (some pet) msg log =
    >>=-ne-stuck (c_string (drop 2 msg)) _ (c_string-ne-stuck (drop 2 msg)) (λ str e.
      >>=-ne-stuck (parse str (codes "&")) _ (parse-ne-stuck b'&' str) (λ vec k. ended vec))
  where
    ended :
        (vec : List (List ℕ)) → (if length vec == 2 then done (log ++ vec) else done log) ≢ stuck
    ended vec = ground arith

login-ne-stuck :
    (dnid : ℕ) (msg : List ℕ) (pet : Option Pet) (log : Log)
    → on_dispatch_login_msg dnid msg pet log ≢ stuck
unfolding on_dispatch_login_msg
login-ne-stuck dnid [] pet log = λ e. cc
login-ne-stuck dnid (p ∷ []) pet log = λ e. cc
login-ne-stuck dnid (p ∷ q ∷ rest) pet log =
    go (login_case pet (p ∷ q ∷ rest) log) (login_case-ne-stuck pet (p ∷ q ∷ rest) log)
  where
    go :
        (o : Outcome Log)
        → o ≢ stuck
        → ◌>>=◌ {B = Bool × Log}
            (if q == Login.login
              then o
              else (if q == Login.register
                  then done log
                  else (if q == Login.set_info
                      then done log
                      else (if q == Login.get_info then done log else done log))))
            (λ log'. done (false, log'))
          ≢ stuck
    go (done l) h = ground arith
    go (fail f) h = ground arith
    go stuck h = absurd (h refl)

chat-ne-stuck :
    (dnid : ℕ) (msg : List ℕ) (pet : Option Pet) (log : Log)
    → on_dispatch_chat_msg dnid msg pet log ≢ stuck
unfolding on_dispatch_chat_msg
chat-ne-stuck dnid [] pet log = λ e. cc
chat-ne-stuck dnid (p ∷ []) pet log = λ e. cc
chat-ne-stuck dnid (p ∷ q ∷ rest) pet log = ground arith

move-ne-stuck :
    (dnid : ℕ) (msg : List ℕ) (pet : Option Pet) (log : Log)
    → on_dispatch_move_msg dnid msg pet log ≢ stuck
unfolding on_dispatch_move_msg
move-ne-stuck dnid [] pet log = λ e. cc
move-ne-stuck dnid (p ∷ []) pet log = λ e. cc
move-ne-stuck dnid (p ∷ q ∷ rest) pet log = ground arith

as_callback-ne-stuck :
    (f : ℕ → List ℕ → Option Pet → Log → Outcome (Bool × Log))
    → ((dnid : ℕ) (msg : List ℕ) (pet : Option Pet) (log : Log) → f dnid msg pet log ≢ stuck)
    → (dnid : ℕ) (msg : List ℕ) (pet : Option Pet) (log : Log)
    → as_callback f dnid msg pet log ≢ stuck
as_callback-ne-stuck f h dnid msg pet log =
    >>=-ne-stuck (f dnid msg pet log) _ (h dnid msg pet log) (λ r e k. cc)

abbrev Answers : Option (DispatcherCallBack Log) → Type 0
Answers none = Unit {0}
Answers (some cb) =
    (dnid : ℕ) (msg : List ℕ) (pet : Option Pet) (log : Log) → cb dnid msg pet log ≢ stuck

Returns-All :
    (m : CallBackMap Log)
    → All (λ (e : ℕ × Option (DispatcherCallBack Log)). Answers e.1) m
    → Returns m
unfolding Maps.find
Returns-All [] h k cb e = cc
Returns-All ((j, o) ∷ m) h k cb e = elim (Bool-cases (j == k)) [
  | inl same ↦ subst Answers (some_eq (rw (same, Maps.find) at e)) h.0
  | inr other ↦ Returns-All m h.1 k cb (rw (other, Maps.find) at e)
]
  where
    some_eq : {x y : Option (DispatcherCallBack Log)} → some x ≡ some y → x ≡ y
    some_eq p = cc

-- All callbacks of the server return or fault.
pub bind_callbacks-Returns : Returns (bind_callbacks fresh).call_back_map
unfolding bind_callbacks Maps.insert
bind_callbacks-Returns = Returns-All (bind_callbacks fresh).call_back_map (
  as_callback-ne-stuck on_dispatch_login_msg login-ne-stuck,
  (
    as_callback-ne-stuck on_dispatch_move_msg move-ne-stuck,
    (as_callback-ne-stuck on_dispatch_chat_msg chat-ne-stuck, tt),
  ),
)
