-- ===== src/Tests/Rooms.antt =====
-- A room in a game, and what users do in it.
use phira_mp.Common.{
  ℕ, ◌≡◌, refl, Bool, true, false, Option, none, some, List, [], ◌∷◌, ◌==◌ as nat_beq,
  if◌then◌else◌, arith,
}
use phira_mp.Common.Int.{ℤ, pos}
use phira_mp.Common.Eq.{int_eq}
use phira_mp.Common.Eq.{nat_eq}
use phira_mp.Common.Maps.{lookup, insert}
use phira_mp.L10n.{Bundle, add_bundle, translate, message_of, format_pattern}
use phira_mp.Session.Hosted.Whole.{Speaks}
use phira_mp.Bin.Data.{success, failure}
use phira_mp.Command.Types.{RoomId, room_id_eq}
use phira_mp.World.{
  Record, InternalRoomState, select_chart, playing, User, Room, World, Env, returns, set_user,
}
use phira_mp.Room.Rotation.{check_all_ready-rotates}
use phira_mp.Room.{all_finished, new, users, upgrade_all, check_host, contains, contains_key}
use phira_mp.Room.Turn.{on_user_leave, check_all_ready}
use phira_mp.Room.Settled.{is_due}
use phira_mp.Room.Host.{mem, HasHost}
use phira_mp.Room.Leaving.{IsChoice, has_id}
use phira_mp.Room.Hosting.{
  Remains, on_user_leave-HasHost, on_user_leave-gone, check_all_ready-rests,
}
use phira_mp.Session.Handler.{tl, already_uploaded}
use phira_mp.Session.Rooms.{leave_room, create_room, lock_room, cycle_room}
use phira_mp.Session.Game.{select_chart_of, request_start, played}
use phira_mp.Session.Guards.{is_outside, Refuses, host_commands-Refuses}
use phira_mp.Session.Lingering.{leave_room-lingers}
use phira_mp.Session.Effects.{create_room-hosted, played-overwrites}

abbrev pub first : ℕ → List ℕ → Option ℕ
first n [] = none
first n (u ∷ us) = some u

abbrev score : Record
score = record {
  id = pos 7;
  player = pos 1;
  score = pos 900000;
  perfect = pos 90;
  good = pos 10;
  bad = pos 0;
  miss = pos 0;
  max_combo = pos 100;
  accuracy = 0;
  full_combo = true;
  std = 0;
  std_score = 0;
}

-- A bundle with a message for every key.
abbrev bundle : Bundle ℕ Unit
bundle = record { get_message = λ key. some (some 0); format_pattern = λ pattern args. 63 ∷ [] }

abbrev pub env : Env
env = record {
  bundles = add_bundle 0 bundle (record { inner = []; map = [] });
  choose = first;
  fetch_chart = λ id. failure [];
  fetch_record = λ id. success score;
}

pub env-Speaks : Speaks env 0
unfolding tl translate message_of format_pattern add_bundle insert lookup
env-Speaks key = (63 ∷ [], refl)

pub env-IsChoice : IsChoice env
unfolding mem
env-IsChoice = record { picks = λ n u us. (u, refl, ground arith) }

abbrev pub lobby : RoomId
lobby = record { name = record { into_inner = 97 ∷ 45 ∷ [] } }

abbrev pub den : RoomId
den = record { name = record { into_inner = 100 ∷ [] } }

-- The users 0 and 1 are in the room 0; every other user is in no room.
abbrev pub member : ℕ → User
member u = record {
  id = pos u;
  name = 65 ∷ [];
  lang = 0;
  session = some u;
  room = if nat_beq u 0 then some 0 else if nat_beq u 1 then some 0 else none;
  monitor = false;
  game_time = 0;
  dangle_mark = none;
}

abbrev room_in : InternalRoomState → Room
room_in state = record (new lobby 0) { state = state; cycle = true; users = 0 ∷ 1 ∷ [] }

abbrev pub world_in : InternalRoomState → World
world_in state = record {
  user_at = member;
  alive = λ u. true;
  room_at = λ rm. room_in state;
  session_alive = λ s. true;
  users = (pos 0, 0) ∷ (pos 1, 1) ∷ (pos 2, 2) ∷ [];
  rooms = (lobby, 0) ∷ [];
  config_monitors = [];
  outbox = [];
  fresh = 3;
  draws = 0;
}

-- The game that the user 1 has played and the user 0 has not.
abbrev pub game : World
game = world_in (playing ((pos 1, score) ∷ []) [])

pub game-HasHost : HasHost game 0
unfolding users upgrade_all mem new
game-HasHost = record { host_listed = refl }

on_user_leave-HasHost_example :
    (drop : Bool) × (w' : World) × (on_user_leave env 0 0 game ≡ returns drop w')
    × Remains w' 0 drop
on_user_leave-HasHost_example = on_user_leave-HasHost env env-IsChoice 0 0 game game-HasHost

on_user_leave-gone_example :
    (drop : Bool) × (w' : World) × (on_user_leave env 0 1 game ≡ returns drop w')
    × (has_id game (pos 1) (users w' 0) ≡ false)
on_user_leave-gone_example = on_user_leave-gone env env-IsChoice 0 1 game game-HasHost refl

-- The game that both users have played.
abbrev over : World
over = world_in (playing ((pos 1, score) ∷ []) (pos 0 ∷ []))

over-HasHost : HasHost over 0
unfolding users upgrade_all mem new
over-HasHost = record { host_listed = refl }

check_all_ready-rests_example :
    (w' : World) × (check_all_ready 0 over ≡ returns tt w')
    × (is_due w' 0 ≡ false)
    × (users w' 0 ≡ users over 0)
    × HasHost w' 0
check_all_ready-rests_example = check_all_ready-rests 0 over over-HasHost

guest_outside : is_outside game 1 (some 0) ≡ true
unfolding is_outside check_host new
guest_outside = refl

host_commands-Refuses_example :
    Refuses (lock_room 1 true) game
    × Refuses (cycle_room 1 false) game
    × Refuses (select_chart_of env 1 (pos 5)) game
    × Refuses (request_start 1) game
host_commands-Refuses_example = host_commands-Refuses 1 game guest_outside env true false (pos 5)

no_den : lookup den game.rooms ≡ none
unfolding lookup
no_den = refl

create_room-hosted_example :
    (w' : World) × (create_room 2 den game ≡ returns (success tt) w')
    × (lookup den w'.rooms ≡ some 3)
    × (w'.room_at 3 ≡ new den 2)
    × ((w'.user_at 2).room ≡ some 3)
    × HasHost w' 3
create_room-hosted_example = create_room-hosted 2 den game refl refl no_den

one_scored : contains_key (pos 1) ((pos 1, score) ∷ []) ≡ true
unfolding contains_key lookup
one_scored = refl

none_out : contains (pos 1) [] ≡ false
unfolding contains
none_out = refl

played-overwrites_example :
    (w' : World) × (after : List (ℤ × Record)) × (played env 1 (pos 7) game
      ≡ returns (failure already_uploaded) w')
    × ((w'.room_at 0).state ≡ playing after [])
    × (lookup (pos 1) after ≡ some score)
played-overwrites_example =
    played-overwrites env 1 0 (pos 7) game score ((pos 1, score) ∷ []) [] refl refl refl refl
      none_out one_scored

check_all_ready-rotates_example :
    (w' : World) × (check_all_ready 0 over ≡ returns tt w')
    × (w'.room_at 0 ≡ record (over.room_at 0) { state = select_chart; host = 1 })
    × (users w' 0 ≡ users over 0)
unfolding users upgrade_all mem new all_finished contains contains_key lookup
check_all_ready-rotates_example =
    check_all_ready-rotates 0 over ((pos 1, score) ∷ []) (pos 0 ∷ []) [] (1 ∷ []) (0 ∷ []) 1 refl
      refl refl refl refl refl

-- The user 2 has monitored a room.
abbrev flagged : World
flagged = set_user 2 (record (member 2) { monitor = true }) game

none_free : lookup den flagged.rooms ≡ none
unfolding lookup
none_free = refl

leave_room-lingers_example :
    (w1 : World) × (w2 : World) × (create_room 2 den flagged ≡ returns (success tt) w1)
    × (leave_room env 2 w1 ≡ returns (success tt) w2)
    × (lookup den w2.rooms ≡ some 3)
    × (users w2 3 ≡ 2 ∷ [])
leave_room-lingers_example =
    leave_room-lingers env env-IsChoice 2 den flagged refl refl refl none_free
