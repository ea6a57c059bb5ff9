-- ===== src/Session/Game.antt =====
-- session.rs: the commands that a game goes by. An answer of the web service comes at once.
use phira_mp.Common.{ℕ, Bool, true, false, not, some, List, [], ◌∷◌, if◌then◌else◌}
use phira_mp.Common.Int.{ℤ}
use phira_mp.Common.Eq.{◌==◌, int_eq}
use phira_mp.Common.Maps.{insert}
use phira_mp.Command.Types.{room_id_eq, Message}
use phira_mp.World.{
  Record, InternalRoomState, select_chart, wait_for_ready, playing, World, Env, Key, set_room,
}
use phira_mp.Room.{
  contains, contains_key, check_host, send, on_state_change, reset_game_time, set_state,
}
use phira_mp.Room.Turn.{check_all_ready}
use phira_mp.Session.Handler.{
  invalid_state, already_ready, not_ready, invalid_record, aborted, already_uploaded, localized, H,
  ◌>>=◌, ◌>>◌, done, require, gets, act, lift, from_service, get_room,
}
use phira_mp.Session.Rooms.{id_of, is_select_chart, is_none, require_host}

-- `get_room!(room, InternalRoomState::SelectChart)`
unfoldable pub get_idle_room : ℕ → H ℕ
get_idle_room u = do
  rm ← get_room u
  idle ← gets (λ w. is_select_chart (w.room_at rm).state)
  require idle invalid_state
  done rm

module _ (env : Env) where
  unfoldable pub select_chart_of : ℕ → ℤ → H Unit
  unfolding get_idle_room require_host
  select_chart_of u id = do
    rm ← get_idle_room u
    require_host rm u
    chart ← from_service (env.fetch_chart id)
    act (λ w. send rm (Message.select_chart (id_of u w) chart.name chart.id) w)
    act (λ w. set_room rm (record (w.room_at rm) { chart = some chart }) w)
    act (on_state_change rm)

unfoldable pub request_start : ℕ → H Unit
unfolding get_idle_room require_host
request_start u = do
  rm ← get_idle_room u
  require_host rm u
  empty ← gets (λ w. is_none (w.room_at rm).chart)
  require (not empty) (localized Key.start_no_chart_selected)
  act (reset_game_time rm)
  act (λ w. send rm (Message.game_start (id_of u w)) w)
  act (λ w. set_state rm (wait_for_ready (id_of u w ∷ [])) w)
  act (on_state_change rm)
  lift (check_all_ready rm)

-- In another state than `WaitForReady` nothing is done, and the reply is a success.
unfoldable pub ready_in : ℕ → ℕ → InternalRoomState → H Unit
ready_in rm u (wait_for_ready started) = do
  k ← gets (id_of u)
  require (not (contains k started)) already_ready
  act (set_state rm (wait_for_ready (k ∷ started)))
  act (send rm (Message.ready k))
  lift (check_all_ready rm)
ready_in rm u select_chart = done tt
ready_in rm u (playing results out) = done tt

unfoldable pub ready : ℕ → H Unit
unfolding ready_in
ready u = do rm ← get_room u; state ← gets (λ w. (w.room_at rm).state); ready_in rm u state

unfoldable pub remove_id : ℤ → List ℤ → List ℤ
remove_id k [] = []
remove_id k (j ∷ s) = if j == k then remove_id k s else j ∷ remove_id k s

-- The host's cancelling ends the game that was to start.
unfoldable pub cancel_as : Bool → ℕ → ℤ → World → World
cancel_as true rm k w =
    on_state_change rm (set_state rm select_chart (send rm (Message.cancel_game k) w))
cancel_as false rm k w = send rm (Message.cancel_ready k) w

unfoldable pub cancel_ready_in : ℕ → ℕ → InternalRoomState → H Unit
unfolding cancel_as remove_id
cancel_ready_in rm u (wait_for_ready started) = do
  k ← gets (id_of u)
  require (contains k started) not_ready
  act (set_state rm (wait_for_ready (remove_id k started)))
  act (λ w. cancel_as (check_host w rm u) rm k w)
cancel_ready_in rm u select_chart = done tt
cancel_ready_in rm u (playing results out) = done tt

unfoldable pub cancel_ready : ℕ → H Unit
unfolding cancel_ready_in
cancel_ready u = do
  rm ← get_room u
  state ← gets (λ w. (w.room_at rm).state)
  cancel_ready_in rm u state

-- The map takes the new record before it is known whether there was one.
unfoldable pub upload_in : ℕ → ℕ → Record → InternalRoomState → H Unit
upload_in rm u res (playing results out) = do
  k ← gets (id_of u)
  require (not (contains k out)) aborted
  act (set_state rm (playing (insert k res results) out))
  require (not (contains_key k results)) already_uploaded
  lift (check_all_ready rm)
upload_in rm u res select_chart = done tt
upload_in rm u res (wait_for_ready started) = done tt

unfoldable pub played : Env → ℕ → ℤ → H Unit
unfolding upload_in
played env u id = do
  rm ← get_room u
  res ← from_service (env.fetch_record id)
  k ← gets (id_of u)
  require (res.player == k) invalid_record
  act (send rm (Message.played k res.score res.accuracy res.full_combo))
  state ← gets (λ w. (w.room_at rm).state)
  upload_in rm u res state

unfoldable pub abort_in : ℕ → ℕ → InternalRoomState → H Unit
abort_in rm u (playing results out) = do
  k ← gets (id_of u)
  require (not (contains_key k results)) already_uploaded
  require (not (contains k out)) aborted
  act (set_state rm (playing results (k ∷ out)))
  act (send rm (Message.abort k))
  lift (check_all_ready rm)
abort_in rm u select_chart = done tt
abort_in rm u (wait_for_ready started) = done tt

unfoldable pub abort : ℕ → H Unit
unfolding abort_in
abort u = do rm ← get_room u; state ← gets (λ w. (w.room_at rm).state); abort_in rm u state
