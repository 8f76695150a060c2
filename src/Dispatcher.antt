-- ===== src/Dispatcher.antt =====
-- Dispatcher.hpp and Dispatcher.cpp: the queue of packets between the network threads and the game
-- thread, and the loop that hands them to the callbacks.
pub mod Order
pub mod Progress
pub mod Quiet
use pets_server_linux.Common.{
  ℕ, zero, suc, ◌+◌, ◌-◌, ◌%◌, ◌^◌, Bool, true, false, Option, none, some, List, [], ◌∷◌, ◌++◌, leb,
  if◌then◌else◌, Outcome, done, fail, stuck, ◌>>=◌, bad_function_call, out_of_bounds, get_elem?,
}
use pets_server_linux.Common.Maps
use pets_server_linux.Object.{Pet}

-- SPacket; a null pointer is `none`.
pub record SPacket : Type 0 where
  pub dnid : ℕ
  pub buffer : Option (List ℕ)
  pub context : Option Pet

-- DispatcherCallBack, over the state `S` that the callbacks work on.
abbrev pub DispatcherCallBack : Type 0 → Type 0
DispatcherCallBack S = ℕ → List ℕ → Option Pet → S → Outcome S

-- std::map<MESSAGETYPE, DispatcherCallBack>; an entry `none` is an empty std::function.
abbrev pub CallBackMap : Type 0 → Type 0
CallBackMap S = List (ℕ × Option (DispatcherCallBack S))

pub record Dispatcher (S : Type 0) : Type 0 where
  pub call_back_map : CallBackMap S
  pub msg_queue : List SPacket

-- One test of the loop: the clock's reading in milliseconds, and the packets that the network
-- threads have pushed since the test before.
pub record Tick : Type 0 where
  pub now : ℕ
  pub arrivals : List SPacket

pub record Dispatched (S : Type 0) : Type 0 where
  pub dispatcher : Dispatcher S
  pub world : S
  pub msg_counter : ℕ

-- pmsg->_protocol: the first byte of the message.
abbrev pub protocol_of : List ℕ → Outcome ℕ
protocol_of [] = fail out_of_bounds
protocol_of (p ∷ rest) = done p

-- `now - begin` in QWORD.
abbrev pub elapsed : ℕ → ℕ → ℕ
elapsed now begin = (now + 2 ^ 64 - begin) % 2 ^ 64

module _ {S : Type 0} where
  unfoldable pub bind_cb : Dispatcher S → ℕ → DispatcherCallBack S → Dispatcher S
  bind_cb d type cb = record d { call_back_map = Maps.insert type (some cb) d.call_back_map }

  unfoldable pub push_pack : Dispatcher S → SPacket → Dispatcher S
  push_pack d pack = record d { msg_queue = d.msg_queue ++ pack ∷ [] }

  unfoldable pub get_pack : Dispatcher S → Option (SPacket × Dispatcher S)
  get_pack d = elim d.msg_queue [
    | [] ↦ none
    | pack ∷ rest ↦ some (pack, record d { msg_queue = rest })
  ]

  -- m_callBackMap[type], which adds an empty function under a key that is not there.
  unfoldable pub index_cb : CallBackMap S → ℕ → Option (DispatcherCallBack S) × CallBackMap S
  index_cb m type = elim (Maps.find type m) [
    | some cb ↦ (cb, m)
    | none ↦ (none, Maps.insert type none m)
  ]

  -- A call of a std::function.
  abbrev pub call : Option (DispatcherCallBack S) → DispatcherCallBack S
  call none dnid msg pet s = fail bad_function_call
  call (some cb) dnid msg pet s = cb dnid msg pet s

  -- One packet with a buffer: look the callback up and call it.
  unfoldable pub deliver : SPacket → List ℕ → CallBackMap S → S → Outcome (CallBackMap S × S)
  unfolding index_cb
  deliver pack msg m s = do
    protocol ← protocol_of msg
    let (cb, m') = index_cb m protocol
    s' ← call cb pack.dnid msg pack.context s
    done (m', s')

  -- The network threads push their packets.
  abbrev pub push_all : Dispatcher S → List SPacket → Dispatcher S
  push_all d packs = record d { msg_queue = d.msg_queue ++ packs }

  -- The body of the loop, where `next` is the rest of it. A packet with no buffer is dropped and
  -- not counted.
  unfoldable pub handle_pack :
      (Dispatched S → Outcome (Dispatched S))
      → Dispatched S
      → SPacket
      → Dispatcher S
      → Option (List ℕ)
      → Outcome (Dispatched S)
  handle_pack next r pack d none = next (record r { dispatcher = d })
  handle_pack next r pack d (some msg) = do
    (m, s) ← deliver pack msg d.call_back_map r.world
    next (record {
      dispatcher = record d { call_back_map = m };
      world = s;
      msg_counter = r.msg_counter + 1;
    })

  unfoldable pub next_pack :
      (Dispatched S → Outcome (Dispatched S))
      → Dispatched S
      → Dispatcher S
      → Option (SPacket × Dispatcher S)
      → Outcome (Dispatched S)
  unfolding handle_pack
  next_pack next r d none = done (record r { dispatcher = d })
  next_pack next r d (some (pack, d')) = handle_pack next r pack d' pack.buffer

  -- The loop of DispatchMsg: a test of the clock, then GetPack.
  unfoldable pub dispatch_loop : List Tick → ℕ → Dispatched S → Outcome (Dispatched S)
  unfolding get_pack next_pack
  dispatch_loop [] begin r = stuck
  dispatch_loop (t ∷ ts) begin r =
      let d : Dispatcher S = push_all r.dispatcher t.arrivals in
      elim (leb (elapsed t.now begin) 1000) [
        | false ↦ done (record r { dispatcher = d })
        | true ↦ next_pack (dispatch_loop ts begin) r d (get_pack d)
      ]

  -- DispatchMsg: `begin` is the reading that the budget of a second counts from.
  unfoldable pub dispatch_msg : List Tick → ℕ → Dispatcher S → S → Outcome (Dispatched S)
  unfolding dispatch_loop
  dispatch_msg ts begin d s =
      dispatch_loop ts begin (record { dispatcher = d; world = s; msg_counter = 0 })
