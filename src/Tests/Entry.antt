-- ===== src/Tests/Entry.antt =====
-- The user 2 opens a room, or joins the lobby, and its client holds what the server would tell it.
use phira_mp.Common.{ℕ, ◌≡◌, refl, false, none, some, List, [], ◌∷◌, ◌++◌, arith}
use phira_mp.Common.Eq.{int_eq, beq→eq}
use phira_mp.Common.Maps.{lookup}
use phira_mp.Bin.Data.{success}
use phira_mp.Command.Types.{room_id_eq, JoinRoomResponse, ServerCommand, ClientCommand}
use phira_mp.World.{select_chart, World, returns}
use phira_mp.Room.{users, upgrade_all, check_host, client_state, to_info, new, add_user}
use phira_mp.Session.Rooms.{enter_room, join_room, join_response, find_room, try_add}
use phira_mp.Session.Process.{process}
use phira_mp.Session.Tame.{Roomy}
use phira_mp.Session.Mirror.{commands_for}
use phira_mp.Session.Mirror.Entering.{create_room-mirrored}
use phira_mp.Session.Mirror.Joining.{join_room-mirrored}
use phira_mp.Client as Client
use phira_mp.Client.Calls as Calls
use phira_mp.Client.Calls.{received}
use phira_mp.Tests.Rooms.{world_in, env, lobby, den, member}

abbrev idle : World
idle = world_in select_chart

-- The client of the user 2, which is in no room.
abbrev pub outsider : Client.State
outsider = record {
  delay = none;
  permit = false;
  me = some (record { id = (member 2).id; name = (member 2).name; monitor = false });
  room = none;
  callback = λ s. none;
  answered = [];
  live_players = [];
  messages = [];
  sent = [];
  fresh = 0;
}

no_den : lookup den idle.rooms ≡ none
unfolding lookup
no_den = refl

create_room-mirrored_example :
    (w' : World) × (out : List (ℕ × ServerCommand)) × (st' : Client.State) × (process env 2
        (ClientCommand.create_room den)
        idle
      ≡ returns (some (ServerCommand.create_room (success tt))) w')
    × (w'.outbox ≡ idle.outbox ++ out)
    × (Calls.create_room den
          (record {
            early = [];
            later = commands_for 2 out ++ (ServerCommand.create_room (success tt) ∷ []);
          })
          outsider
        ≡ Client.returns (success tt) st')
    × (st'.room ≡ some (client_state w' 3 2))
unfolding to_info received
create_room-mirrored_example =
    create_room-mirrored 2 den idle env 2 outsider refl refl no_den refl refl refl

abbrev joined : World
joined = enter_room 0 2 false (add_user 0 2 false idle).1

abbrev granted : JoinRoomResponse
granted = join_response 0 joined

may_join : join_room 2 lobby false idle ≡ returns (success granted) joined
unfolding join_room find_room try_add add_user enter_room lookup new users upgrade_all
may_join = refl

idle-Roomy : Roomy idle
unfolding lookup new
idle-Roomy = record {
  capacity = λ rm. omega arith;
  listed = λ id rm h. ground (arith, h, beq→eq {j = lobby} {k = id});
}

lobby_listed : lookup lobby idle.rooms ≡ some 0
unfolding lookup
lobby_listed = refl

not_hosting : check_host idle 0 2 ≡ false
unfolding check_host new
not_hosting = refl

join_room-mirrored_example :
    (out : List (ℕ × ServerCommand)) × (st' : Client.State) × (process env 2
        (ClientCommand.join_room lobby false)
        idle
      ≡ returns (some (ServerCommand.join_room (success granted))) joined)
    × (joined.outbox ≡ idle.outbox ++ out)
    × (Calls.join_room lobby false
          (record {
            early = [];
            later = commands_for 2 out ++ (ServerCommand.join_room (success granted) ∷ []);
          })
          outsider
        ≡ Client.returns (success tt) st')
    × (st'.room ≡ some (record (client_state joined 0 2) { cycle = false }))
unfolding received
join_room-mirrored_example =
    join_room-mirrored 2 lobby false idle joined granted env 2 0 outsider may_join idle-Roomy
      lobby_listed not_hosting refl refl
