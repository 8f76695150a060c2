-- ===== src/Sql/Connect.antt =====
-- MysqlQuery.cpp: MyQuery::MyQuery, Init, Connect, ~MyQuery and DBInfo::SetInfo.
use pets_server_linux.Common.{
  ℕ, ◌≡◌, Bool, true, false, Text, if◌then◌else◌, Bool-cases, inl, inr, refl, List, [], ◌∷◌, ◌++◌,
}
use pets_server_linux.Sql.{Api, Client}

-- How the client library sets a connection up: whether mysql_init and mysql_stmt_init give a handle,
-- the two options, and mysql_real_connect with host, user, password, database and port.
pub record Setup (api : Api) : Type 0 where
  pub mysql_init : Bool
  pub set_options : api.Db → api.Db
  pub real_connect : Text → Text → Text → Text → ℕ → api.Db → Bool × api.Db
  pub stmt_init : Bool

-- MyQuery::DBInfo
pub record DbInfo : Type 0 where
  pub user : Text
  pub password : Text
  pub dbname : Text
  pub host : Text
  pub port : ℕ

-- DBInfo::SetInfo
abbrev pub set_info : Text → Text → Text → Text → ℕ → DbInfo
set_info user password ip name port = record {
  user = user;
  password = password;
  dbname = name;
  host = ip;
  port = port;
}

-- The port that Connect takes by default.
abbrev pub default_port : ℕ
default_port = 3306

-- What the destructor calls.
data Closing : Type 0 where
  stmt_close close : Closing

module _ (api : Api) (setup : Setup api) where
  open setup use {mysql_init, set_options, real_connect, stmt_init}

  -- MyQuery::Connect
  unfoldable pub connect : Text → Text → Text → Text → ℕ → Client api → Bool × Client api
  connect user password ip name port c =
      let (connected, db) = real_connect ip user password name port c.db in
      (connected, record c { db = db })

  -- Init behind a connect that succeeded.
  unfoldable init_stmt : DbInfo → DbInfo → Client api → Bool × DbInfo × Client api
  init_stmt new old c =
      if stmt_init
      then (true, new, record c { mysql_stmt = true })
      else (false, old, record c { mysql_stmt = false })

  -- MyQuery::Init. The handle stays set if the connect fails.
  unfoldable pub init :
      Text → Text → Text → Text → ℕ → DbInfo → Client api → Bool × DbInfo × Client api
  unfolding connect init_stmt
  init user password ip name port info c =
      if mysql_init
      then (let (connected, c') =
            connect user password ip name default_port
              (record c { mysql = true; db = set_options c.db }) in
          if connected
          then init_stmt (set_info user password ip name port) info c'
          else (false, info, c'))
      else (false, info, record c { mysql = false })

  -- MyQuery::MyQuery: no handle is set.
  abbrev new_client : api.Db → Client api
  new_client db = record { mysql = false; mysql_stmt = false; db = db; results = []; next = 0 }

  -- MyQuery::~MyQuery, with the calls that close the handles, in its order.
  unfoldable delete_client : Client api → List Closing × Client api
  delete_client c = (
    (if c.mysql_stmt then stmt_close ∷ [] else []) ++ (if c.mysql then close ∷ [] else []),
    record c { mysql = false; mysql_stmt = false },
  )

  -- An Init on a new object and then the destructor close exactly the handles that were given: both
  -- if Init answered true, that of the connection alone if it failed behind mysql_init.
  delete_client-init :
      (user password ip name : Text) (port : ℕ) (info : DbInfo) (db : api.Db)
      → (delete_client (init user password ip name port info (new_client db)).2).0 ≡ (
          if (init user password ip name port info (new_client db)).0
          then stmt_close ∷ close ∷ []
          else (if mysql_init then close ∷ [] else []))
  unfolding init connect init_stmt delete_client
  delete_client-init user password ip name port info db = elim (Bool-cases mysql_init) [
    | inr off ↦ rw off refl
    | inl on ↦
        elim (Bool-cases (real_connect ip user password name default_port (set_options db)).0) [
          | inr refused ↦ rw (on, refused) refl
          | inl up ↦ elim (Bool-cases stmt_init) [
            | inr bad ↦ rw (on, up, bad) refl
            | inl good ↦ rw (on, up, good) refl
          ]
        ]
  ]
