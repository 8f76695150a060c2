-- ===== src/Lib.antt =====
-- Verification of the pets server, a game server in C++ over muduo and the MySQL client library.
--
-- A network thread of muduo feeds the bytes of a connection to Codec::onMessage (codec.cpp), which
-- cuts them into messages and pushes each, as a packet with the connection's context, into the queue of
-- the Dispatcher (Dispatcher.cpp). The game thread calls DispatchMsg in every frame, which hands the
-- packets to the callbacks of PetsManager (ObjectModule/PetsManager.cpp), and then Run of the object
-- manager. PetsServer (PetsServer.cpp) keeps the pool of connections and their numbers. A third thread
-- runs the SQL tasks (MySqlModule/MysqlQuery.cpp), stored procedures among them
-- (MySqlModule/ProcedureHelper.cpp).
--
-- The files, and what they model:
--   Codec       codec.hpp, codec.cpp: `on_message` is Codec::onMessage, `send_msg` Codec::SendMsg. The
--               session is the connection's buffer, whether it was shut down, and the dispatcher.
--   Dispatcher  Dispatcher.hpp, Dispatcher.cpp: `push_pack`, `get_pack`, `bind_cb`, `dispatch_msg`.
--   Object      ObjectModule/: the pet in Object, the live objects in Object/Heap, CObjectManager in
--               Object/Manager, Pet::Parse in Object/Parse, and the callbacks in Object/Handlers.
--   Message     NetMsg/: the structures of the messages, their two numbers and their bytes.
--   Server      PetsServer.hpp, PetsServer.cpp: `on_connection`, `greate_dnid`, `bind_callbacks`;
--               a frame of ServerLoop in Server/Frame and its frames in Server/Loop; InitServer, start
--               and main.cpp in Server/Start. Server/Pipeline puts codec, dispatcher and callbacks
--               together, Server/Login the SQL task that start pushes and the pet that it calls. In
--               Server/Races several threads are inside onConnection at once; Server/Reuse is about a
--               number that is given again.
--   System      the network threads and the game thread together, one step of one thread after the
--               other: bytes that come, a round of onMessage's loop, a round of DispatchMsg's loop. The
--               streams are in System/Streams, the functions as steps in System/Reads and
--               System/Runs, what runs of the threads deliver in System/Progress and
--               System/Confluence. In System/Lifetimes connections come and go as well.
--   Sql         MySqlModule/: the connection in Sql/Connect, queries and results in Sql/Query, the binds
--               of a statement in Sql/Binds, procedures in Sql/Procedure (what Execute sends is in
--               Calls, what it does with the columns of an answer in Columns, Stored,
--               Readable and Placement, its casts in Typed, Safety, Storable and Casts below it), the
--               task queue in Sql/Queue, the thread that works on it in Sql/Thread, among the threads
--               that push with Pet::PrepareSQL, Pet::OnMysqlLoginMsg in Sql/Login, the error buffer in
--               Sql/ErrMsg, and the test functions of MyQuery in Sql/Trials.
--   Clock       CELLTimestamp.hpp, CELLTimestamp.cpp.
--   RandomText  NetMsg/Algorithm.hpp.
--   Muduo       what the codec calls of muduo, as an interface with its documented laws.
--   Common      integers, text, maps and the outcome of a run.
--   Tests       the theorems at concrete inputs.
--
-- A run ends in `done`, or in `fail` with the exception or the undefined behaviour that the code runs
-- into, or in `stuck`, where the model's fuel or schedule is used up. The codec's loop has fuel for one
-- round more than there are bytes, and every round but the last takes off four; the loop of Parse has
-- fuel above the length of its text; the queue's inner loop needs fuel above its length, which a round
-- of the SQL thread gives it; the loop over a login's rows needs a fetch more than there are rows.
-- DispatchMsg and GreateDnid take as many clock readings and draws as their lists hold. A DNID is a
-- number below 2 ^ 32; wraps of machine integers are written out. Pointers are addresses of a heap, or
-- handles that a call may find closed.
--
-- Nothing sets the flags of the two threads' loops, so that only a fault ends them: ServerLoop is any number of
-- its first frames, and MysqlLoop a relation of steps, one of which is a round of the SQL thread.
--
-- Not modelled: muduo and the MySQL client library (interfaces), the log, the readings of the clock
-- and of localtime (parameters). The server's twenty threads share the pool of connections without a
-- lock: Server/Races interleaves them with GreateDnid, the entry into the pool and the whole of a
-- disconnect as one step each, and leaves out what a data race on the map itself may do. In System a
-- DNID stands for one connection, which stays open; System/Lifetimes has neither restriction. The
-- macro SELECT_PROCEDURE_PARAMLIST is defined nowhere in the program, and is a parameter. The callback
-- of a SQL task is known by its number, and what it does is a parameter of the queue, which
-- Server/Login gives for the tasks of start, with whether the pet that they are bound to is still
-- there. The destructor of PetsServer, which joins the two threads, is left out. atoi and atoll beyond
-- the range of their type, which C leaves undefined, are a fault.
pub mod Common
pub mod Muduo
pub mod Object
pub mod Dispatcher
pub mod Codec
pub mod Message
pub mod Server
pub mod System
pub mod Sql
pub mod Clock
pub mod RandomText
pub mod Tests
