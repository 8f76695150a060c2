-- ===== src/Server.antt =====
-- PetsServer.hpp and PetsServer.cpp: the connections and their numbers, the callbacks, and the frame
-- of the game loop.
pub mod Numbers
pub mod Connections
pub mod Routing
pub mod Frame
pub mod Loop
pub mod Pipeline
pub mod Start
pub mod Races
pub mod Reuse
pub mod Login
pub mod Returning
use Prim.Native.Nat.{bit_or}
use pets_server_linux.Common.{
  ℕ, zero, suc, ◌+◌, ◌-◌, ◌*◌, ◌/◌, ◌%◌, ◌^◌, Bool, true, false, Option, none, some, List, [], ◌∷◌,
  Text, Outcome, done, fail, stuck, ◌>>=◌, bad_any_cast, leb, ltb, if◌then◌else◌,
}
use pets_server_linux.Common.Maps
use pets_server_linux.Object.{Pet, get_dnid}
use pets_server_linux.Object.Heap.{Heap}
use pets_server_linux.Object.Manager.{ObjectManager, release_object}
use pets_server_linux.Object.Handlers.{
  Log, on_dispatch_chat_msg, on_dispatch_move_msg, on_dispatch_login_msg,
}
use pets_server_linux.Dispatcher.{Dispatcher, DispatcherCallBack, bind_cb}
use pets_server_linux.Codec.{Context, empty, of_dnid, of_pet}
use pets_server_linux.Message.{login_message_base, move_message_base, chat_message_base}

-- PetsServer::Connection; a TcpConnection is a handle.
pub record Connection : Type 0 where
  pub conn : ℕ
  pub ttl : ℕ

-- The connections by number, the contexts of the TCP connections, and the game's objects.
pub record Server : Type 0 where
  pub connections : List (ℕ × Connection)
  pub contexts : List (ℕ × Context)
  pub manager : ObjectManager
  pub heap : Heap

-- One draw of GreateDnid: the clock in seconds and the result of rand().
pub record Draw : Type 0 where
  pub time : ℕ
  pub rand : ℕ

-- (time << 16) | (rand % 0xFFFF), cut to the 32 bits of a DNID.
unfoldable pub dnid_of : Draw → ℕ
dnid_of d = bit_or (d.time * 2 ^ 16) (d.rand % 0xffff) % 2 ^ 32

-- PetsServer::GreateDnid, over the draws that it would make.
unfoldable pub greate_dnid : List Draw → List (ℕ × Connection) → Outcome ℕ
greate_dnid [] connections = stuck
greate_dnid (d ∷ ds) connections =
    let rest = greate_dnid ds connections in
    elim (Maps.find (dnid_of d) connections) [ none ↦ done (dnid_of d) | some c ↦ rest ]

-- conn->getContext()
abbrev pub context_of : ℕ → List (ℕ × Context) → Context
context_of conn contexts = elim (Maps.find conn contexts) [ none ↦ empty | some c ↦ c ]

-- The branch of onConnection for a connection that is up.
unfoldable pub connect : ℕ → List Draw → Server → Outcome Server
unfolding greate_dnid
connect conn draws s = do
  dnid ← greate_dnid draws s.connections
  done (record s {
    contexts = Maps.insert conn (of_dnid dnid) s.contexts;
    connections = Maps.insert dnid (record { conn = conn; ttl = 3 }) s.connections;
  })

-- The branch for a connection that is down, by what its context holds.
unfoldable pub disconnect : Context → Server → Outcome Server
unfolding release_object
disconnect empty s = fail bad_any_cast
disconnect (of_dnid dnid) s = done (record s { connections = Maps.erase dnid s.connections })
disconnect (of_pet pet) s = do
  (released, manager, heap) ← release_object (get_dnid pet) s.manager s.heap
  done (record s {
    manager = manager;
    heap = heap;
    connections = Maps.erase (get_dnid pet) s.connections;
  })

-- PetsServer::onConnection
unfoldable pub on_connection : ℕ → Bool → List Draw → Server → Outcome Server
unfolding connect disconnect
on_connection conn true draws s = connect conn draws s
on_connection conn false draws s = disconnect (context_of conn s.contexts) s

-- A handler as a callback: std::function<void> drops its result.
abbrev pub as_callback :
    (ℕ → List ℕ → Option Pet → Log → Outcome (Bool × Log)) → DispatcherCallBack Log
as_callback f dnid msg pet log = do (answer, log') ← f dnid msg pet log; done log'

-- The registrations of InitServer.
unfoldable pub bind_callbacks : Dispatcher Log → Dispatcher Log
unfolding bind_cb
bind_callbacks d =
    let chat = bind_cb d chat_message_base (as_callback on_dispatch_chat_msg) in
    let move = bind_cb chat move_message_base (as_callback on_dispatch_move_msg) in
    bind_cb move login_message_base (as_callback on_dispatch_login_msg)
