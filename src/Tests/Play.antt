-- ===== src/Tests/Play.antt =====
-- The user 1 plays in the lobby, and the client of the user 2, which monitors it, gets its frames.
use phira_mp.Common.{refl, true, [], ◌∷◌}
use phira_mp.Common.Int.{pos}
use phira_mp.Common.Eq.{int_eq}
use phira_mp.Command.Types.{ServerCommand, ClientCommand}
use phira_mp.World.{select_chart, World, set_room}
use phira_mp.Room.{monitors, upgrade_all, new}
use phira_mp.Session.Mirror.{copies, gets_from}
use phira_mp.Session.Mirror.Play.{Watches, Extends, play-watched}
use phira_mp.Tests.Rooms.{world_in, env}
use phira_mp.Tests.Entry.{outsider}

-- The user 2 monitors the lobby.
abbrev watched : World
watched =
    let w = world_in select_chart in
    set_room 0 (record (w.room_at 0) { live = true; monitors = 2 ∷ [] }) w

play-watched_example :
    Watches env 1 0 2 watched outsider
      (ClientCommand.touches (record { time = 5; points = [] } ∷ []))
      (ServerCommand.touches (pos 1) (record { time = 5; points = [] } ∷ []))
      1
      (Extends env 1 0 2 watched outsider
        (pos 1)
        (pos 0)
        (record { time = 5; points = [] } ∷ [])
        [])
    × Watches env 1 0 2 watched outsider
        (ClientCommand.judges [])
        (ServerCommand.judges (pos 1) [])
        1
        (Extends env 1 0 2 watched outsider (pos 1) (pos 0) [] [])
unfolding monitors upgrade_all copies gets_from new
play-watched_example =
    play-watched env 1 0 2 watched outsider (record { time = 5; points = [] } ∷ []) [] (pos 0)
      (λ e. cc e) refl refl refl
