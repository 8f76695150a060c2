-- ===== src/Tests/Frames.antt =====
-- A concrete frame of the game loop.
use pets_server_linux.Common.{◌≡◌, refl, some, none, [], ◌∷◌, done}
use pets_server_linux.Common.Maps
use pets_server_linux.Dispatcher.{dispatch_msg, deliver}
use pets_server_linux.Object.Manager.{initialize, run}
use pets_server_linux.Server.{bind_callbacks}
use pets_server_linux.Server.Routing.{fresh}
use pets_server_linux.Server.Frame.{Game, Clock, server_frame}

-- A chat message is queued, and the manager has an entry whose object was released.
abbrev game : Game
game = record {
  dispatcher = record (bind_callbacks fresh) {
    msg_queue = record { dnid = 5; buffer = some (0x66 ∷ 0 ∷ []); context = none } ∷ [];
  };
  log = [];
  manager = record (initialize 10) { object_map = (4, none) ∷ [] };
}

abbrev after_frame : Game
after_frame = record {
  dispatcher = record (bind_callbacks fresh) { msg_queue = [] };
  log = [];
  manager = initialize 10;
}

abbrev clock : Clock
clock = record {
  before = 1200;
  begin = 7;
  ticks = record { now = 7; arrivals = [] } ∷ record { now = 8; arrivals = [] } ∷ [];
  after = 3400;
}

framed : server_frame clock game ≡ done (after_frame, 47)
unfolding server_frame dispatch_msg deliver Maps.find bind_callbacks Maps.insert
    pets_server_linux.Object.Handlers.on_dispatch_chat_msg initialize run Maps.erase
framed = refl
