-- ===== src/Room/Turn.antt =====
-- room.rs: what moves a room on by itself: `check_all_ready` and `on_user_leave`.
use phira_mp.Common.{
  ℕ, ◌+◌, Bool, true, false, not, ◌&&◌, none, some, List, [], ◌∷◌, ◌++◌, get_elem?, if◌then◌else◌,
}
use phira_mp.Common.Int.{ℤ}
use phira_mp.Common.Eq.{◌==◌, int_eq}
use phira_mp.Command.Types.{Message, ServerCommand}
use phira_mp.World.{
  InternalRoomState, select_chart, wait_for_ready, playing, World, Env, set_user, set_room, returns,
  panics, M, ◌>>◌, pure, modify,
}
use phira_mp.Room.{
  users, monitors, check_host, try_send, send, on_state_change, reset_game_time, set_state,
  set_host, all_started, all_finished, next_index,
}

unfoldable pub start_game : ℕ → World → World
start_game rm w =
    on_state_change rm
      (set_state rm (playing [] []) (reset_game_time rm (send rm Message.start_playing w)))

-- The old host is told if it still exists.
unfoldable pub tell_old : ℕ → World → World
tell_old old w = if w.alive old then try_send old (ServerCommand.change_host false) w else w

unfoldable pub tell_hosts : ℕ → ℕ → ℕ → World → World
unfolding tell_old
tell_hosts rm old new w =
    let told = send rm (Message.new_host (w.user_at new).id) w in
    try_send new (ServerCommand.change_host true) (tell_old old told)

-- With `cycle` the next user becomes the host; `nth(index).unwrap()` panics where there is no user.
unfoldable pub rotate_host : ℕ → M (Unit {0})
unfolding tell_hosts
rotate_host rm w =
    let old = (w.room_at rm).host in
    elim (get_elem? (users w rm) (next_index old (users w rm))) [
      | none ↦ panics w
      | some new ↦ returns tt (tell_hosts rm old new (set_host rm new w))
    ]

unfoldable pub end_game : ℕ → M (Unit {0})
unfolding rotate_host
end_game rm w =
    let w1 = set_state rm select_chart (send rm Message.game_end w) in
    if (w1.room_at rm).cycle
    then (rotate_host rm >> modify (on_state_change rm)) w1
    else returns tt (on_state_change rm w1)

unfoldable pub check_state : ℕ → InternalRoomState → M (Unit {0})
unfolding start_game end_game
check_state rm select_chart w = returns tt w
check_state rm (wait_for_ready started) w =
    if all_started w started (users w rm ++ monitors w rm)
    then returns tt (start_game rm w)
    else returns tt w
check_state rm (playing results aborted) w =
    if all_finished w results aborted (users w rm) then end_game rm w else returns tt w

unfoldable pub check_all_ready : ℕ → M (Unit {0})
unfolding check_state
check_all_ready rm w = check_state rm (w.room_at rm).state w

-- `retain(|it| it.upgrade().is_some_and(|it| it.id != user.id))`
unfoldable pub retain_others : World → ℤ → List ℕ → List ℕ
retain_others w k [] = []
retain_others w k (u ∷ us) =
    if w.alive u && not ((w.user_at u).id == k)
    then u ∷ retain_others w k us
    else retain_others w k us

-- The list that a user is taken off is chosen by its `monitor` flag.
unfoldable pub take_off : ℕ → ℕ → World → World
unfolding retain_others
take_off rm u w =
    let room = w.room_at rm in
    let k = (w.user_at u).id in
    if (w.user_at u).monitor
    then set_room rm (record room { monitors = retain_others w k room.monitors }) w
    else set_room rm (record room { users = retain_others w k room.users }) w

unfoldable pub detach : ℕ → ℕ → World → World
unfolding take_off
detach rm u w =
    let w1 = send rm (Message.leave_room (w.user_at u).id (w.user_at u).name) w in
    take_off rm u (set_user u (record (w1.user_at u) { room = none }) w1)

module _ (env : Env) where
  -- A random user becomes the host.
  unfoldable pub appoint_host : ℕ → List ℕ → M (Unit {0})
  appoint_host rm us w = elim (env.choose w.draws us) [
    | none ↦ panics w
    | some new ↦
        let w1 = set_host rm new (record w { draws = w.draws + 1 }) in
        let w2 = send rm (Message.new_host (w.user_at new).id) w1 in
        returns tt (try_send new (ServerCommand.change_host true) w2)
  ]

  unfoldable pub leave_as_host : ℕ → List ℕ → M Bool
  unfolding appoint_host
  leave_as_host rm [] = pure true
  leave_as_host rm (u ∷ us) = do appoint_host rm (u ∷ us); check_all_ready rm; pure false

  -- Returns whether the room should be dropped.
  unfoldable pub on_user_leave : ℕ → ℕ → M Bool
  unfolding detach leave_as_host
  on_user_leave rm u w =
      let w1 = detach rm u w in
      if check_host w1 rm u
      then leave_as_host rm (users w1 rm) w1
      else (do check_all_ready rm; pure false) w1
