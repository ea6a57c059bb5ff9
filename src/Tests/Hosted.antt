-- ===== src/Tests/Hosted.antt =====
-- The user 0, which hosts the lobby, leaves it during a game.
use phira_mp.Common.{◌≡◌, refl, Option, some, arith, ℕ, subst}
use phira_mp.Common.Eq.{int_eq, beq→eq}
use phira_mp.Common.Maps.{lookup}
use phira_mp.Command.Types.{RoomId, room_id_eq, ServerCommand, ClientCommand}
use phira_mp.World.{World, returns}
use phira_mp.Room.{new}
use phira_mp.Room.Host.{HasHost}
use phira_mp.Session.Process.{process}
use phira_mp.Session.Tame.{Roomy}
use phira_mp.Session.Hosted.Whole.{Hosted, OnMap, process-Hosted}
use phira_mp.Tests.Rooms.{env, env-IsChoice, env-Speaks, game, game-HasHost, lobby}

game-Roomy : Roomy game
unfolding lookup new
game-Roomy = record {
  capacity = λ rm. omega arith;
  listed = λ id rm h. ground (arith, h, beq→eq {j = lobby} {k = id});
}

only_lobby : (id : RoomId) (rm : ℕ) → lookup id game.rooms ≡ some rm → 0 ≡ rm
unfolding lookup
only_lobby id rm h = ground (arith, h)

game-Hosted : Hosted game
game-Hosted = record {
  has_host = λ id rm h. subst (HasHost game) (only_lobby id rm h) game-HasHost;
}

host-OnMap : OnMap 0 game
unfolding lookup new
host-OnMap rm e = ground (arith, e)

process-Hosted_example :
    (reply : Option ServerCommand) × (w' : World) × (process env 0 ClientCommand.leave_room game
      ≡ returns reply w')
    × Hosted w'
    × Roomy w'
process-Hosted_example =
    process-Hosted env env-IsChoice 0 game game-Hosted game-Roomy refl host-OnMap env-Speaks
      ClientCommand.leave_room refl
