-- ===== src/Room.antt =====
-- phira-mp-server/src/room.rs: the operations of a room. `rm` is the room's address and `u` a user's.
pub mod Turn
pub mod Frame
pub mod Host
pub mod Succession
pub mod Settled
pub mod Leaving
pub mod Detached
pub mod Hosting
pub mod Rotation
use phira_mp.Common.{
  ℕ, ◌+◌, ◌%◌, Bool, true, false, not, ◌&&◌, ◌||◌, Option, none, some, List, [], ◌∷◌, ◌++◌, map,
  length, get_elem?, leb, if◌then◌else◌, ◌==◌ as nat_beq,
}
use phira_mp.Common.Int.{ℤ}
use phira_mp.Common.Eq.{Eq, ◌==◌, int_eq, nat_eq}
use phira_mp.Common.Maps.{lookup, insert_all}
use mathlib.Core.Option
use phira_mp.Bin.Reader.{Bytes}
use phira_mp.Command.Types.{RoomId, Message, RoomState, UserInfo, ClientRoomState, ServerCommand}
use phira_mp.World.{
  Chart, Record, InternalRoomState, select_chart, wait_for_ready, playing, User, Room, World, Env,
  set_user, set_room, Run, M, ◌>>=◌, ◌>>◌, pure, gets, modify, panics,
}

abbrev pub room_max_users : ℕ
room_max_users = 8

-- Sets of user ids and maps keyed by them.
unfoldable pub contains : ℤ → List ℤ → Bool
contains k [] = false
contains k (j ∷ s) = j == k || contains k s

unfoldable pub contains_key : ℤ → List (ℤ × Record) → Bool
contains_key k m = elim (lookup k m) [ some r ↦ true | none ↦ false ]

unfoldable pub to_client : InternalRoomState → Option ℤ → RoomState
to_client select_chart chart = RoomState.select_chart chart
to_client (wait_for_ready started) chart = RoomState.waiting_for_ready
to_client (playing results aborted) chart = RoomState.playing

unfoldable pub new : RoomId → ℕ → Room
new id host = record {
  id = id;
  host = host;
  state = select_chart;
  live = false;
  locked = false;
  cycle = false;
  users = host ∷ [];
  monitors = [];
  chart = none;
}

-- `it.upgrade()` over a list of `Weak<User>`.
unfoldable pub upgrade_all : World → List ℕ → List ℕ
upgrade_all w [] = []
upgrade_all w (u ∷ us) = if w.alive u then u ∷ upgrade_all w us else upgrade_all w us

unfoldable pub users : World → ℕ → List ℕ
users w rm = upgrade_all w (w.room_at rm).users

unfoldable pub monitors : World → ℕ → List ℕ
monitors w rm = upgrade_all w (w.room_at rm).monitors

unfoldable pub client_room_state : World → ℕ → RoomState
client_room_state w rm =
    to_client (w.room_at rm).state (Option.map (λ c. c.id) (w.room_at rm).chart)

-- Whether `check_host` is `Ok`: the host can be upgraded and has the user's id.
unfoldable pub check_host : World → ℕ → ℕ → Bool
check_host w rm u =
    w.alive (w.room_at rm).host && (w.user_at (w.room_at rm).host).id == (w.user_at u).id

unfoldable pub to_info : User → UserInfo
to_info user = record { id = user.id; name = user.name; monitor = user.monitor }

unfoldable pub is_started : InternalRoomState → ℤ → Bool
is_started (wait_for_ready started) k = contains k started
is_started select_chart k = false
is_started (playing results aborted) k = false

unfoldable pub client_state : World → ℕ → ℕ → ClientRoomState
client_state w rm u = record {
  id = (w.room_at rm).id;
  state = client_room_state w rm;
  live = (w.room_at rm).live;
  locked = (w.room_at rm).locked;
  cycle = (w.room_at rm).cycle;
  is_host = check_host w rm u;
  is_ready = is_started (w.room_at rm).state (w.user_at u).id;
  users =
      insert_all []
        (map (λ v. ((w.user_at v).id, to_info (w.user_at v))) (users w rm ++ monitors w rm));
}

-- `User::try_send`: to a dangling user nothing is sent.
unfoldable pub try_send : ℕ → ServerCommand → World → World
try_send u cmd w = elim (w.user_at u).session [
  | none ↦ w
  | some s ↦ if w.session_alive s then record w { outbox = w.outbox ++ ((s, cmd) ∷ []) } else w
]

unfoldable pub send_all : List ℕ → ServerCommand → World → World
send_all [] cmd w = w
send_all (u ∷ us) cmd w = send_all us cmd (try_send u cmd w)

unfoldable pub broadcast : ℕ → ServerCommand → World → World
broadcast rm cmd w = send_all (users w rm ++ monitors w rm) cmd w

unfoldable pub broadcast_monitors : ℕ → ServerCommand → World → World
broadcast_monitors rm cmd w = send_all (monitors w rm) cmd w

unfoldable pub send : ℕ → Message → World → World
send rm msg w = broadcast rm (ServerCommand.message msg) w

unfoldable pub send_as : ℕ → ℕ → Bytes → World → World
send_as rm u content w = send rm (Message.chat (w.user_at u).id content) w

unfoldable pub on_state_change : ℕ → World → World
on_state_change rm w = broadcast rm (ServerCommand.change_state (client_room_state w rm)) w

unfoldable pub add_user : ℕ → ℕ → Bool → World → Bool × World
add_user rm u true w =
    (true, set_room rm (record (w.room_at rm) { monitors = monitors w rm ++ (u ∷ []) }) w)
add_user rm u false w =
    if leb room_max_users (length (users w rm))
    then (false, set_room rm (record (w.room_at rm) { users = users w rm }) w)
    else (true, set_room rm (record (w.room_at rm) { users = users w rm ++ (u ∷ []) }) w)

-- `f32::NEG_INFINITY.to_bits()`
abbrev pub neg_infinity : ℕ
neg_infinity = 0xff800000

unfoldable pub reset_times : List ℕ → World → World
reset_times [] w = w
reset_times (u ∷ us) w =
    reset_times us (set_user u (record (w.user_at u) { game_time = neg_infinity }) w)

unfoldable pub reset_game_time : ℕ → World → World
reset_game_time rm w = reset_times (users w rm) w

abbrev pub set_state : ℕ → InternalRoomState → World → World
set_state rm st w = set_room rm (record (w.room_at rm) { state = st }) w

abbrev pub set_host : ℕ → ℕ → World → World
set_host rm u w = set_room rm (record (w.room_at rm) { host = u }) w

unfoldable pub all_started : World → List ℤ → List ℕ → Bool
all_started w started [] = true
all_started w started (u ∷ us) = contains (w.user_at u).id started && all_started w started us

unfoldable pub all_finished : World → List (ℤ × Record) → List ℤ → List ℕ → Bool
all_finished w results aborted [] = true
all_finished w results aborted (u ∷ us) =
    (contains_key (w.user_at u).id results || contains (w.user_at u).id aborted)
    && all_finished w results aborted us

-- `position(|it| host.ptr_eq(..))`
unfoldable pub position : ℕ → List ℕ → Option ℕ
position h [] = none
position h (u ∷ us) = if nat_beq u h then some 0 else Option.map (λ i. i + 1) (position h us)

unfoldable pub next_index : ℕ → List ℕ → ℕ
next_index h us = elim (position h us) [ some i ↦ (i + 1) % length us | none ↦ 0 ]
