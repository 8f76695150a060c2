-- ===== src/Server/Pipeline.antt =====
-- From the bytes of a connection to the game thread's answer: Codec::SendMsg and Codec::onMessage
-- (codec.cpp), Dispatcher::DispatchMsg (Dispatcher.cpp) with the callbacks that PetsServer::InitServer
-- registers (PetsServer.cpp).
use pets_server_linux.Common.{
  ℕ, suc, ◌≤◌, ◌<◌, ◌≡◌, ◌≢◌, ◌⊎◌, inl, inr, refl, sym, ap, ◌∙◌, Bool, false, ◌||◌, Option, none,
  some, List, [], ◌∷◌, ◌++◌, map, concat, arith, ◌==◌, if◌then◌else◌, Fault, Outcome, done, fail,
  ◌>>=◌, bad_function_call, null_access, out_of_bounds, All, length,
}
use pets_server_linux.Common.Maps
use pets_server_linux.Muduo.{Net}
use pets_server_linux.Dispatcher.{Dispatcher, CallBackMap, Tick, deliver, dispatch_msg}
use pets_server_linux.Dispatcher.Order.{handle_all, counted}
use pets_server_linux.Dispatcher.Quiet.{Quiet, emptied, dispatch_msg-handle_all}
use pets_server_linux.Codec.{of_dnid, Session, on_message, send_msg}
use pets_server_linux.Codec.Frames
use pets_server_linux.Codec.Receive.{packet, on_message-Reads}
use pets_server_linux.Codec.Send.{received_sent}
use pets_server_linux.Object.Handlers.{
  Log, on_dispatch_chat_msg, on_dispatch_move_msg, on_dispatch_login_msg, login_case,
}
use pets_server_linux.Server.{bind_callbacks}
use pets_server_linux.Server.Routing.{
  fresh, Routed, chat_or_move, login, other_login, unknown, deliver-Routed,
}

-- The protocols that have a callback: login, move and chat.
abbrev pub known : ℕ → Bool
known p = p == 0x64 || (p == 0x65 || p == 0x66)

-- What goes wrong on a message from a connection that has no pet, by its first two bytes.
unfoldable fault_of : List ℕ → Option Fault
fault_of [] = some out_of_bounds
fault_of (p ∷ []) = if known p then some out_of_bounds else some bad_function_call
fault_of (p ∷ q ∷ rest) =
    if known p
    then (if p == 0x64 then (if q == 0 then some null_access else none) else none)
    else some bad_function_call

-- The first fault among some messages.
unfoldable pub first_fault : List (List ℕ) → Option Fault
unfolding fault_of
first_fault [] = none
first_fault (msg ∷ msgs) =
    let later = first_fault msgs in elim (fault_of msg) [ none ↦ later | some e ↦ some e ]

abbrev pub ended {ℓ} : {A : Type ℓ} → A → Option Fault → Outcome A
ended a none = done a
ended a (some e) = fail e

-- The callbacks as they are when the server starts.
abbrev pub bound : CallBackMap Log
bound = (bind_callbacks fresh).call_back_map

-- A message with less than its two numbers.
deliver_short :
    (d p : ℕ) (log : Log)
    → deliver (packet d (p ∷ [])) (p ∷ []) bound log ≡ ended (bound, log) (fault_of (p ∷ []))
unfolding deliver bind_callbacks Maps.find Maps.insert on_dispatch_login_msg on_dispatch_chat_msg
    on_dispatch_move_msg fault_of
deliver_short d p log = ground arith

fault_of_known :
    (p q : ℕ) (rest : List ℕ)
    → (p ≡ 0x66) ⊎ (p ≡ 0x65) ⊎ ((p ≡ 0x64) × (q ≢ 0))
    → fault_of (p ∷ q ∷ rest) ≡ none
unfolding fault_of
fault_of_known p q rest (inl e) = rw e refl
fault_of_known p q rest (inr (inl e)) = rw e refl
fault_of_known p q rest (inr (inr (e, z))) = ground (arith, e, z)

fault_of_login :
    (p q : ℕ) (rest : List ℕ) → p ≡ 0x64 → q ≡ 0 → fault_of (p ∷ q ∷ rest) ≡ some null_access
unfolding fault_of
fault_of_login p q rest e z = rw (e, z) refl

fault_of_unknown :
    (p q : ℕ) (rest : List ℕ)
    → p ≢ 0x64
    → p ≢ 0x65
    → p ≢ 0x66
    → fault_of (p ∷ q ∷ rest) ≡ some bad_function_call
unfolding fault_of
fault_of_unknown p q rest a b c = ground arith

deliver_routed :
    (d p q : ℕ) (rest : List ℕ) (log : Log)
    → Routed p q (packet d (p ∷ q ∷ rest)) rest log
    → deliver (packet d (p ∷ q ∷ rest)) (p ∷ q ∷ rest) bound log
      ≡ ended (bound, log) (fault_of (p ∷ q ∷ rest))
unfolding login_case
deliver_routed d p q rest log (chat_or_move (inl e) h) =
    h ∙ ap (ended (bound, log)) (sym (fault_of_known p q rest (inl e)))
deliver_routed d p q rest log (chat_or_move (inr e) h) =
    h ∙ ap (ended (bound, log)) (sym (fault_of_known p q rest (inr (inl e))))
deliver_routed d p q rest log (login e z h) =
    h ∙ ap (ended (bound, log)) {x = some null_access} (sym (fault_of_login p q rest e z))
deliver_routed d p q rest log (other_login e z h) =
    h ∙ ap (ended (bound, log)) (sym (fault_of_known p q rest (inr (inr (e, z)))))
deliver_routed d p q rest log (unknown a b c h) =
    h ∙ ap (ended (bound, log)) (sym (fault_of_unknown p q rest a b c))

deliver-fault_of :
    (d : ℕ) (msg : List ℕ) (log : Log)
    → deliver (packet d msg) msg bound log ≡ ended (bound, log) (fault_of msg)
unfolding deliver fault_of
deliver-fault_of d [] log = refl
deliver-fault_of d (p ∷ []) log = deliver_short d p log
deliver-fault_of d (p ∷ q ∷ rest) log =
    deliver_routed d p q rest log (deliver-Routed p q (packet d (p ∷ q ∷ rest)) rest log)

-- The game thread on the messages of one connection: it stops at the first fault, and else is as
-- before.
handle_all-first_fault :
    (d : ℕ) (msgs : List (List ℕ)) (log : Log)
    → handle_all (map (packet d) msgs) bound log ≡ ended (bound, log) (first_fault msgs)
unfolding handle_all first_fault
handle_all-first_fault d [] log = refl
handle_all-first_fault d (msg ∷ msgs) log =
    rw (deliver-fault_of d msg log) (go (fault_of msg) (handle_all-first_fault d msgs log))
  where
    go :
        (o : Option Fault)
        → handle_all (map (packet d) msgs) bound log ≡ ended (bound, log) (first_fault msgs)
        → (ended (bound, log) o >>= λ (m, s). handle_all (map (packet d) msgs) m s)
          ≡ ended (bound, log) (elim o [ none ↦ first_fault msgs | some e ↦ some e ])
    go none later = later
    go (some e) later = refl

counted-packet : (d : ℕ) (msgs : List (List ℕ)) → counted (map (packet d) msgs) ≡ length msgs
counted-packet d [] = refl
counted-packet d (msg ∷ msgs) = ap suc (counted-packet d msgs)

length-packet : (d : ℕ) (msgs : List (List ℕ)) → length (map (packet d) msgs) ≡ length msgs
length-packet d [] = refl
length-packet d (msg ∷ msgs) = ap suc (length-packet d msgs)

-- The messages queued for a dispatcher with the server's callbacks, and then dispatched.
dispatch_queued :
    (d : ℕ) (msgs : List (List ℕ)) (ts : List Tick) (begin : ℕ) (disp : Dispatcher Log) (log : Log)
    → disp.call_back_map ≡ bound
    → disp.msg_queue ≡ map (packet d) msgs
    → All (Quiet begin) ts
    → length msgs < length ts
    → dispatch_msg ts begin disp log
      ≡ ended
          (record { dispatcher = bind_callbacks fresh; world = log; msg_counter = length msgs })
          (first_fault msgs)
unfolding bind_callbacks
dispatch_queued d msgs ts begin disp log hm hq quiet enough =
    dispatch_msg-handle_all ts begin disp log quiet
      (omega (arith, ap length hq, length-packet d msgs, enough))
    ∙ rw (hm, hq, handle_all-first_fault d msgs log, counted-packet d msgs) (go (first_fault msgs))
  where
    go :
        (o : Option Fault)
        → (ended (bound, log) o >>= emptied (length msgs))
          ≡ ended
              (record { dispatcher = bind_callbacks fresh; world = log; msg_counter = length msgs })
              o
    go none = refl
    go (some e) = refl

module _ (net : Net) where
  open net use {peek}

  -- Any messages of at most 65536 bytes that SendMsg sent on a connection without a pet, with the
  -- start of another frame behind them, and then the game thread with enough rounds of the second and
  -- nothing else queued or arriving: chat, move and login messages but the login itself are handled
  -- without effect and counted; the first message that is a login, has an unknown protocol, or is
  -- shorter than its two numbers ends the game thread with its fault.
  pub send_msg-dispatch_msg :
      (d : ℕ) (s : Session net Log) (msgs : List (List ℕ)) (tail : List ℕ) (ts : List Tick)
      (begin : ℕ) (log : Log)
      → All (λ m. length m ≤ 65536) msgs
      → Frames.Frames net tail [] tail false
      → peek s.buf ≡ concat (map (λ m. peek (send_msg net m (length m))) msgs) ++ tail
      → s.dispatcher ≡ bind_callbacks fresh
      → All (Quiet begin) ts
      → length msgs < length ts
      → (on_message net (of_dnid d) s >>= λ t. dispatch_msg ts begin t.dispatcher log)
        ≡ ended
            (record { dispatcher = bind_callbacks fresh; world = log; msg_counter = length msgs })
            (first_fault msgs)
  unfolding bind_callbacks
  send_msg-dispatch_msg d s msgs tail ts begin log sizes f sent start quiet enough =
      let r = on_message-Reads net d s in
      let (queued, left, open_still) =
        received_sent net d s r.session msgs tail sizes f sent r.returns in
      ap (λ o. o >>= λ t. dispatch_msg ts begin t.dispatcher log) r.returns
      ∙ dispatch_queued d msgs ts begin r.session.dispatcher log
          (r.received.kept ∙ ap (λ (e : Dispatcher Log). e.call_back_map) start)
          (queued ∙ ap (λ (e : Dispatcher Log). e.msg_queue ++ map (packet d) msgs) start) quiet
          enough
