-- ===== src/Session/Rooms.antt =====
-- session.rs: the commands that a user enters, talks in, sets and leaves a room by. A task that is
-- spawned runs at once.
use phira_mp.Common.{
  ℕ, ◌+◌, Bool, true, false, not, Option, none, some, List, [], ◌∷◌, ◌++◌, map, if◌then◌else◌,
}
use phira_mp.Common.Int.{ℤ}
use phira_mp.Common.Eq.{int_eq}
use phira_mp.Common.Maps.{lookup, insert, remove}
use phira_mp.Bin.Reader.{Bytes}
use phira_mp.Bin.Data.{success, failure}
use phira_mp.Command.Types.{
  RoomId, room_id_eq, TouchFrame, JudgeEvent, Message, JoinRoomResponse, ServerCommand,
}
use phira_mp.World.{
  InternalRoomState, select_chart, wait_for_ready, playing, World, Env, Key, set_user, set_room,
  returns,
}
use phira_mp.Room.{
  contains, new, users, monitors, client_room_state, check_host, to_info, send, send_as, broadcast,
  broadcast_monitors, add_user,
}
use phira_mp.Room.Turn.{on_user_leave}
use phira_mp.Session.Handler.{
  only_host, already_in_room, room_not_found, localized, H, ◌>>=◌, ◌>>◌, require, gets, act, lift,
  get_room,
}

abbrev pub id_of : ℕ → World → ℤ
id_of u w = (w.user_at u).id

abbrev pub is_select_chart : InternalRoomState → Bool
is_select_chart select_chart = true
is_select_chart (wait_for_ready started) = false
is_select_chart (playing results out) = false

abbrev pub is_none {ℓ} : {A : Type ℓ} → Option A → Bool
is_none none = true
is_none (some a) = false

unfoldable pub chat : ℕ → Bytes → H Unit
chat u content = do rm ← get_room u; act (send_as rm u content)

-- The last frame's time becomes the user's.
unfoldable pub store_time : ℕ → List TouchFrame → World → World
store_time u [] w = w
store_time u (f ∷ []) w = set_user u (record (w.user_at u) { game_time = f.time }) w
store_time u (f ∷ g ∷ fs) w = store_time u (g ∷ fs) w

unfoldable pub touches : ℕ → List TouchFrame → World → World
unfolding store_time
touches u frames w = elim (w.user_at u).room [
  | none ↦ w
  | some rm ↦
      if (w.room_at rm).live
      then broadcast_monitors rm (ServerCommand.touches (id_of u w) frames) (store_time u frames w)
      else w
]

unfoldable pub judges : ℕ → List JudgeEvent → World → World
judges u events w = elim (w.user_at u).room [
  | none ↦ w
  | some rm ↦
      if (w.room_at rm).live
      then broadcast_monitors rm (ServerCommand.judges (id_of u w) events) w
      else w
]

-- A room at a fresh address, entered into the map.
unfoldable pub open_room : ℕ → RoomId → World → World
open_room u id w =
    let rm = w.fresh in
    let w1 = set_room rm (new id u) (record w { rooms = insert id rm w.rooms; fresh = rm + 1 }) in
    let w2 = send rm (Message.create_room (id_of u w)) w1 in
    set_user u (record (w2.user_at u) { room = some rm }) w2

unfoldable pub create_room : ℕ → RoomId → H Unit
unfolding open_room
create_room u id = do
  here ← gets (λ w. (w.user_at u).room)
  require (is_none here) already_in_room
  found ← gets (λ w. lookup id w.rooms)
  require (is_none found) (localized Key.create_id_occupied)
  act (open_room u id)

unfoldable pub can_monitor : ℕ → World → Bool
can_monitor u w = contains (id_of u w) w.config_monitors

unfoldable pub try_add : ℕ → ℕ → Bool → H Bool
try_add rm u monitor w = let (added, w') = add_user rm u monitor w in returns (success added) w'

-- What a user that was added sees and does.
unfoldable pub enter_room : ℕ → ℕ → Bool → World → World
enter_room rm u monitor w =
    let w1 = set_user u (record (w.user_at u) { monitor = monitor }) w in
    let w2 = if monitor then set_room rm (record (w1.room_at rm) { live = true }) w1 else w1 in
    let w3 = broadcast rm (ServerCommand.on_join_room (to_info (w2.user_at u))) w2 in
    let w4 = send rm (Message.join_room (id_of u w3) (w3.user_at u).name) w3 in
    set_user u (record (w4.user_at u) { room = some rm }) w4

unfoldable pub join_response : ℕ → World → JoinRoomResponse
join_response rm w = record {
  state = client_room_state w rm;
  users = map (λ v. to_info (w.user_at v)) (users w rm ++ monitors w rm);
  live = (w.room_at rm).live;
}

unfoldable pub find_room : RoomId → H ℕ
find_room id w = elim (lookup id w.rooms) [
  | none ↦ returns (failure room_not_found) w
  | some rm ↦ returns (success rm) w
]

unfoldable pub join_room : ℕ → RoomId → Bool → H JoinRoomResponse
unfolding try_add enter_room find_room
join_room u id monitor = do
  here ← gets (λ w. (w.user_at u).room)
  require (is_none here) already_in_room
  rm ← find_room id
  locked ← gets (λ w. (w.room_at rm).locked)
  require (not locked) (localized Key.join_room_locked)
  idle ← gets (λ w. is_select_chart (w.room_at rm).state)
  require idle (localized Key.join_game_ongoing)
  allowed ← gets (λ w. if monitor then can_monitor u w else true)
  require allowed (localized Key.join_cant_monitor)
  added ← try_add rm u monitor
  require added (localized Key.join_room_full)
  act (enter_room rm u monitor)
  gets (join_response rm)

-- A room that is to be dropped is taken off the map.
unfoldable pub drop_room : ℕ → Bool → World → World
drop_room rm false w = w
drop_room rm true w = record w { rooms = remove (w.room_at rm).id w.rooms }

unfoldable pub require_host : ℕ → ℕ → H Unit
require_host rm u = do host ← gets (λ w. check_host w rm u); require host only_host

unfoldable pub lock_room : ℕ → Bool → H Unit
unfolding require_host
lock_room u lock = do
  rm ← get_room u
  require_host rm u
  act (λ w. set_room rm (record (w.room_at rm) { locked = lock }) w)
  act (send rm (Message.lock_room lock))

unfoldable pub cycle_room : ℕ → Bool → H Unit
unfolding require_host
cycle_room u cycle = do
  rm ← get_room u
  require_host rm u
  act (λ w. set_room rm (record (w.room_at rm) { cycle = cycle }) w)
  act (send rm (Message.cycle_room cycle))

module _ (env : Env) where
  unfoldable pub leave_room : ℕ → H Unit
  unfolding drop_room
  leave_room u = do rm ← get_room u; drop ← lift (on_user_leave env rm u); act (drop_room rm drop)
