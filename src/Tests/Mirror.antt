-- ===== src/Tests/Mirror.antt =====
-- The host of a room sets its lock, and a client in the room hears of it.
use phira_mp.Common.{◌≡◌, refl, true, false, none, some, []}
use phira_mp.Bin.Data.{success}
use phira_mp.World.{select_chart, World, returns}
use phira_mp.Room.{users, monitors, upgrade_all, check_host, client_state, new}
use phira_mp.Room.Host.{mem}
use phira_mp.Session.Rooms.{lock_room, cycle_room}
use phira_mp.Session.Mirror.{gets_from}
use phira_mp.Session.Mirror.Settings.{Mirrors, settings-Mirrors}
use phira_mp.Client as Client
use phira_mp.Tests.Rooms.{world_in}

abbrev idle : World
idle = world_in select_chart

-- The client of the user 1, which is a guest of the room 0.
abbrev guest : Client.State
guest = record {
  delay = none;
  permit = false;
  me = none;
  room = some (client_state idle 0 1);
  callback = λ s. none;
  answered = [];
  live_players = [];
  messages = [];
  sent = [];
  fresh = 0;
}

settings-Mirrors_example :
    ((w' : World) × (lock_room 0 true idle ≡ returns (success tt) w') × Mirrors idle w' 0 1 1 guest)
    × ((w' : World) × (cycle_room 0 true idle ≡ returns (success tt) w')
        × Mirrors idle w' 0 1 1 guest)
unfolding check_host users monitors upgrade_all mem gets_from new
settings-Mirrors_example = settings-Mirrors 0 0 1 1 idle refl refl refl refl guest refl true
