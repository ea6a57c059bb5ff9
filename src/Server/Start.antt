-- ===== src/Server/Start.antt =====
-- server.rs: the configuration, and the server as `Server::from` makes it.
use phira_mp.Common.{false, true, Option, none, some, List, [], ◌∷◌, arith}
use phira_mp.Common.Int.{ℤ, pos}
use phira_mp.Common.Eq.{int_eq}
use phira_mp.Common.Maps.{lookup}
use phira_mp.Bin.Reader.{Bytes}
use phira_mp.Command.Types.{room_id_eq}
use phira_mp.World.{World}
use phira_mp.Room.{new}
use phira_mp.Server.{Services, Server}
use phira_mp.Server.Authenticate.{new_user}
use phira_mp.Server.Calm.{OneSender}
use phira_mp.Server.Named.{Named}
use phira_mp.Server.Named.Reached.{Reach-Named}
use phira_mp.Server.Sender.{Reach-OneSender}
use phira_mp.Server.Steps.{Reach}

-- `ServerConfig::default`: who may monitor.
unfoldable pub default_monitors : List ℤ
default_monitors = pos 2 ∷ []

-- The file, if it can be opened, and what serde_yaml makes of its text; else the default.
unfoldable pub server_config : Option Bytes → (Bytes → Option (List ℤ)) → List ℤ
unfolding default_monitors
server_config none from_reader = default_monitors
server_config (some text) from_reader = elim (from_reader text) [
  | none ↦ default_monitors
  | some monitors ↦ monitors
]

-- Nothing is listed and no address is in use; what stands at the addresses does not matter.
unfoldable pub new_world : List ℤ → World
new_world monitors = record {
  user_at = λ u. new_user (pos 0) [] 0;
  alive = λ u. false;
  room_at = λ rm. new (record { name = record { into_inner = [] } }) 0;
  session_alive = λ s. false;
  users = [];
  rooms = [];
  config_monitors = monitors;
  outbox = [];
  fresh = 0;
  draws = 0;
}

-- `Server::from`: the maps are empty, and the task that handles lost connections is running.
unfoldable pub from_listener : Option Bytes → (Bytes → Option (List ℤ)) → Server
unfolding server_config new_world
from_listener file from_reader = record {
  world = new_world (server_config file from_reader);
  conn_at = λ s. record {
    greeted = false;
    tx = false;
    waiting_for_authenticate = true;
    panicked = false;
    receiving = false;
    beating = false;
    last_recv = 0;
    user = none;
  };
  opened = [];
  sessions = [];
  lost_con = [];
  handling = true;
  timers = [];
  next_mark = 0;
  clock = 0;
  accepting = none;
}

module _ (file : Option Bytes) (from_reader : Bytes → Option (List ℤ)) where
  Named-from_listener : Named (from_listener file from_reader).world
  unfolding from_listener new_world lookup new
  Named-from_listener = record {
    listed = λ k u h. cc h;
    roomy = record { capacity = λ rm. omega arith; listed = λ id rm h. cc h };
  }

  OneSender-from_listener : OneSender (from_listener file from_reader)
  unfolding from_listener
  OneSender-from_listener = record { only = λ t h. cc h }

  -- In every state that the server can reach from its start, each user and each room is listed under
  -- its own id, no room lists more than eight users, and only the connection that is being accepted
  -- can have the sender that its `Session::new` waits on.
  pub from_listener-Named :
      (services : Services) (sv : Server)
      → Reach services (from_listener file from_reader) sv
      → Named sv.world × OneSender sv
  from_listener-Named services sv r = (
    Reach-Named services Named-from_listener r,
    Reach-OneSender services OneSender-from_listener r,
  )
