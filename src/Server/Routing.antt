-- ===== src/Server/Routing.antt =====
-- From the bytes of a message to its handler.
use pets_server_linux.Common.{
  ℕ, ◌≡◌, ◌≢◌, refl, Bool, true, false, none, some, List, [], ◌∷◌, Outcome, done, fail, stuck,
  ◌>>=◌, arith, ◌==◌, ◌⊎◌, inl, inr, bad_function_call, null_access, Text, Bool-cases,
}
use pets_server_linux.Common.Maps
use pets_server_linux.Object.Handlers.{
  Log, on_dispatch_chat_msg, on_dispatch_move_msg, on_dispatch_login_msg, login_case,
}
use pets_server_linux.Dispatcher.{SPacket, Dispatcher, CallBackMap, deliver}
use pets_server_linux.Codec.{make_pack}
use pets_server_linux.Message.{Message, bytes, sq_login, sq_register}
use pets_server_linux.Server.{Server, Connection, bind_callbacks, context_of}
use pets_server_linux.Server.Connections.{Reach, started, Reach-Inv}

abbrev pub fresh : Dispatcher Log
fresh = record { call_back_map = []; msg_queue = [] }

-- What the game thread does with a message, by its two numbers, whoever sent it.
pub data Routed (p q : ℕ) (pack : SPacket) (rest : List ℕ) (log : Log) : Type 0 where
  chat_or_move :
      (p ≡ 0x66) ⊎ (p ≡ 0x65)
      → deliver pack (p ∷ q ∷ rest) (bind_callbacks fresh).call_back_map log
        ≡ done ((bind_callbacks fresh).call_back_map, log)
      → Routed p q pack rest log
  login :
      p ≡ 0x64
      → q ≡ 0
      → deliver pack (p ∷ q ∷ rest) (bind_callbacks fresh).call_back_map log ≡ (
          login_case pack.context (p ∷ q ∷ rest) log >>= λ log'.
          done ((bind_callbacks fresh).call_back_map, log'))
      → Routed p q pack rest log
  other_login :
      p ≡ 0x64
      → q ≢ 0
      → deliver pack (p ∷ q ∷ rest) (bind_callbacks fresh).call_back_map log
        ≡ done ((bind_callbacks fresh).call_back_map, log)
      → Routed p q pack rest log
  unknown :
      p ≢ 0x64
      → p ≢ 0x65
      → p ≢ 0x66
      → deliver pack (p ∷ q ∷ rest) (bind_callbacks fresh).call_back_map log
        ≡ fail bad_function_call
      → Routed p q pack rest log

abbrev answered : Log → Outcome (Bool × Log)
answered l = done (false, l)

abbrev dropped : Bool × Log → Outcome Log
dropped r = done r.1

abbrev with_map : CallBackMap Log → Log → Outcome (CallBackMap Log × Log)
with_map m l = done (m, l)

-- The handler's result passes through the callback.
regroup :
    (o : Outcome Log) (m : CallBackMap Log)
    → (o >>= answered >>= dropped >>= with_map m) ≡ (o >>= with_map m)
regroup (done l) m = refl
regroup (fail e) m = refl
regroup stuck m = refl

deliver_login :
    (pack : SPacket) (rest : List ℕ) (log : Log)
    → deliver pack (0x64 ∷ 0 ∷ rest) (bind_callbacks fresh).call_back_map log ≡ (
        login_case pack.context (0x64 ∷ 0 ∷ rest) log >>= λ log'.
        done ((bind_callbacks fresh).call_back_map, log'))
unfolding deliver bind_callbacks Maps.find Maps.insert on_dispatch_login_msg on_dispatch_chat_msg
    on_dispatch_move_msg
deliver_login pack rest log = regroup (login_case pack.context (0x64 ∷ 0 ∷ rest) log) _

-- The game thread on a message of two bytes or more, from any connection: a chat or move message and
-- a login message other than the login itself change nothing; a login goes to the login case with
-- the packet's pet; a protocol with no callback ends in the exception of an empty std::function.
pub deliver-Routed :
    (p q : ℕ) (pack : SPacket) (rest : List ℕ) (log : Log) → Routed p q pack rest log
unfolding deliver bind_callbacks Maps.find Maps.insert on_dispatch_login_msg on_dispatch_chat_msg
    on_dispatch_move_msg
deliver-Routed p q pack rest log = elim (Bool-cases (p == 0x64)) [
  | inl is_login ↦ elim (Bool-cases (q == 0)) [
    | inl is_request ↦
        login (ground arith) (ground arith)
          (rw (==_eq p 0x64 is_login, ==_eq q 0 is_request) (deliver_login pack rest log))
    | inr other ↦ other_login (ground arith) (ground arith) (ground arith)
  ]
  | inr n4 ↦ elim (Bool-cases (p == 0x65)) [
    | inl is_move ↦ chat_or_move (inr (ground arith)) (ground arith)
    | inr n5 ↦ elim (Bool-cases (p == 0x66)) [
      | inl is_chat ↦ chat_or_move (inl (ground arith)) (ground arith)
      | inr n6 ↦ unknown (ground arith) (ground arith) (ground arith) (ground arith)
    ]
  ]
]
  where
    ==_eq : (a b : ℕ) → (a == b) ≡ true → a ≡ b
    ==_eq a b h = ground arith

login_bytes :
    (pad : ℕ) (text : Text) (m : Message)
    → (m ≡ sq_login text) ⊎ (m ≡ sq_register text)
    → bytes pad m ≡ 0x64 ∷ 0 ∷ text
unfolding bytes
login_bytes pad text m (inl e) = rw e
login_bytes pad text m (inr e) = rw e

-- A login or a registration, from the connection of any entry in a state that the server reaches,
-- brings the game thread to a call through a null pet.
login_faults :
    {t : Server} (k pad : ℕ) (text : Text) (c : Connection) (m : Message) (log : Log)
    → Reach started t
    → Maps.find k t.connections ≡ some c
    → (m ≡ sq_login text) ⊎ (m ≡ sq_register text)
    → (pack : SPacket) × (make_pack (context_of c.conn t.contexts) (bytes pad m) ≡ done pack)
      × (deliver pack (bytes pad m) (bind_callbacks fresh).call_back_map log ≡ fail null_access)
unfolding make_pack login_case
login_faults {t} k pad text c m log r hc hm =
    let pack : SPacket = record { dnid = k; buffer = some (bytes pad m); context = none } in
    let wire = login_bytes pad text m hm in
    (
      pack,
      ground (arith, (Reach-Inv r).numbered k c hc),
      rw wire ((deliver_login (record pack { buffer = some (0x64 ∷ 0 ∷ text) }) text log)),
    )
