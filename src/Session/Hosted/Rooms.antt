-- ===== src/Session/Hosted/Rooms.antt =====
-- Entering, leaving and setting up rooms keeps their hosts.
use phira_mp.Common.{
  subst, append-nil, ℕ, ◌≡◌, inl, inr, refl, ap, ◌∙◌, Bool, true, false, not, List, [], ◌∷◌, ◌++◌,
  leb, length, if◌then◌else◌, Bool-cases, Option-cases, arith,
}
use phira_mp.Bin.Reader.{Bytes}
use phira_mp.Bin.Data.{Outcome, success, failure}
use phira_mp.Common.Eq.{int_eq}
use phira_mp.Common.Maps.{lookup}
use phira_mp.Command.Types.{RoomId, room_id_eq, TouchFrame, JudgeEvent, Message, ServerCommand}
use phira_mp.World.{Room, World, Key, set_user, set_room}
use phira_mp.Room.{
  room_max_users, users, upgrade_all, send, send_as, broadcast, broadcast_monitors, add_user,
  check_host, to_info,
}
use phira_mp.Room.Frame.{send-Quiet, broadcast-Quiet, send_all-Quiet, upgrade_all-alive}
use phira_mp.Room.Host.{mem}
use phira_mp.Session.Handler.{
  Failure, only_host, already_in_room, room_not_found, localized, H, ◌>>=◌,
}
use phira_mp.Session.Rooms.{
  id_of, is_none, is_select_chart, can_monitor, join_response, chat, store_time, touches, judges,
  try_add, enter_room, find_room, join_room, require_host, lock_room, cycle_room,
}
use phira_mp.Session.Hosted.{
  Steady, Steady-refl, Steady-trans, Local-Steady, set_room-Becomes, set_room-Steady, Quiet-Steady,
  set_user-Steady, Serves, ended, required, room_step,
}
use phira_mp.Room.Frame.{Becomes-Local}

pub send-Steady : (rm : ℕ) (msg : Message) (w : World) → Steady w (send rm msg w)
send-Steady rm msg w = Quiet-Steady (send-Quiet rm msg w)

-- Upgrading a list again, with more behind it, loses nobody.
mem-upgrade_again :
    (w : World) (h : ℕ) (us vs : List ℕ)
    → mem h (upgrade_all w us) ≡ true
    → mem h (upgrade_all w (upgrade_all w us ++ vs)) ≡ true
unfolding mem upgrade_all
mem-upgrade_again w h [] vs m = cc
mem-upgrade_again w h (u ∷ us) vs m = elim (Bool-cases (w.alive u)) [
  | inl here ↦ ground (arith, here, mem-upgrade_again w h us vs)
  | inr gone ↦ ground (arith, gone, mem-upgrade_again w h us vs)
]

more_users-Steady :
    (rm : ℕ) (vs : List ℕ) (w : World)
    → Steady w (set_room rm (record (w.room_at rm) { users = users w rm ++ vs }) w)
unfolding users
more_users-Steady rm vs w =
    let room = record (w.room_at rm) { users = users w rm ++ vs } in
    let w' = set_room rm room w in
    let b = set_room-Becomes rm room w in
    Local-Steady (Becomes-Local b) (λ h. record {
      host_listed =
          ap (λ (r : Room). mem r.host (upgrade_all w' r.users)) b.room_is
          ∙ ap (mem (w.room_at rm).host) (upgrade_all-alive w w' (users w rm ++ vs) b.alive)
          ∙ mem-upgrade_again w (w.room_at rm).host (w.room_at rm).users vs h.host_listed;
    })

add_user-Steady : (rm u : ℕ) (monitor : Bool) (w : World) → Steady w (add_user rm u monitor w).1
unfolding add_user
add_user-Steady rm u true w = set_room-Steady rm _ w refl refl
add_user-Steady rm u false w = elim (Bool-cases (leb room_max_users (length (users w rm)))) [
  | inl full ↦ rw full (
      subst (λ us. Steady w (set_room rm (record (w.room_at rm) { users = us }) w))
        (append-nil (users w rm)) (more_users-Steady rm [] w))
  | inr free ↦ rw free (more_users-Steady rm (u ∷ []) w)
]

live-Steady :
    (rm : ℕ) (monitor : Bool) (w : World)
    → Steady w (if monitor then set_room rm (record (w.room_at rm) { live = true }) w else w)
live-Steady rm true w = set_room-Steady rm _ w refl refl
live-Steady rm false w = Steady-refl w

module _ (u : ℕ) (w : World) where
  pub chat-Serves : (content : Bytes) → Serves w (chat u content w)
  unfolding chat send_as
  chat-Serves content =
      room_step w w u _ (Steady-refl w)
        (λ rm e. ended w (send_as rm u content w) _ (send-Steady rm _ w))

  -- A room is set, and then its users are told.
  set_and_send-Steady :
      (rm : ℕ) (room : Room) (msg : Message)
      → room.users ≡ (w.room_at rm).users
      → room.host ≡ (w.room_at rm).host
      → Steady w (send rm msg (set_room rm room w))
  set_and_send-Steady rm room msg same_users same_host =
      Steady-trans (set_room-Steady rm room w same_users same_host) (send-Steady rm msg _)

  pub lock_room-Serves : (lock : Bool) → Serves w (lock_room u lock w)
  unfolding lock_room require_host
  lock_room-Serves lock = room_step w w u _ (Steady-refl w) (λ rm e.
      required w w (check_host w rm u) only_host _ (Steady-refl w)
        (ended w _ _ (set_and_send-Steady rm _ _ refl refl)))

  pub cycle_room-Serves : (cycle : Bool) → Serves w (cycle_room u cycle w)
  unfolding cycle_room require_host
  cycle_room-Serves cycle = room_step w w u _ (Steady-refl w) (λ rm e.
      required w w (check_host w rm u) only_host _ (Steady-refl w)
        (ended w _ _ (set_and_send-Steady rm _ _ refl refl)))

  store_time-Steady : (frames : List TouchFrame) (v : World) → Steady v (store_time u frames v)
  unfolding store_time
  store_time-Steady [] v = Steady-refl v
  store_time-Steady (f ∷ []) v = set_user-Steady u _ v
  store_time-Steady (f ∷ g ∷ fs) v = store_time-Steady (g ∷ fs) v

  broadcast_monitors-Steady :
      (rm : ℕ) (cmd : ServerCommand) (v : World) → Steady v (broadcast_monitors rm cmd v)
  unfolding broadcast_monitors
  broadcast_monitors-Steady rm cmd v = Quiet-Steady (send_all-Quiet _ cmd v)

  pub touches-Steady : (frames : List TouchFrame) → Steady w (touches u frames w)
  unfolding touches
  touches-Steady frames = elim (Option-cases (w.user_at u).room) [
    | inl e ↦ rw (e, touches) (Steady-refl w)
    | inr (rm, e) ↦ elim (Bool-cases (w.room_at rm).live) [
      | inl live ↦
          rw (e, touches)
            (rw live (Steady-trans (store_time-Steady frames w) (broadcast_monitors-Steady rm _ _)))
      | inr off ↦ rw (e, touches) (rw off (Steady-refl w))
    ]
  ]

  pub judges-Steady : (events : List JudgeEvent) → Steady w (judges u events w)
  unfolding judges
  judges-Steady events = elim (Option-cases (w.user_at u).room) [
    | inl e ↦ rw (e, judges) (Steady-refl w)
    | inr (rm, e) ↦ elim (Bool-cases (w.room_at rm).live) [
      | inl live ↦ rw (e, judges) (rw live (broadcast_monitors-Steady rm _ w))
      | inr off ↦ rw (e, judges) (rw off (Steady-refl w))
    ]
  ]

  enter_room-Steady : (rm : ℕ) (monitor : Bool) (v : World) → Steady v (enter_room rm u monitor v)
  unfolding enter_room
  enter_room-Steady rm monitor v =
      let w1 = set_user u (record (v.user_at u) { monitor = monitor }) v in
      let w2 = if monitor then set_room rm (record (w1.room_at rm) { live = true }) w1 else w1 in
      let w3 = broadcast rm (ServerCommand.on_join_room (to_info (w2.user_at u))) w2 in
      let w4 = send rm (Message.join_room (id_of u w3) (w3.user_at u).name) w3 in
      Steady-trans {b = w1} (set_user-Steady u _ v) (
        Steady-trans {b = w2} (live-Steady rm monitor w1) (
          Steady-trans {b = w3} (Quiet-Steady (broadcast-Quiet rm _ w2))
            (Steady-trans {b = w4} (send-Steady rm _ w3) (set_user-Steady u _ w4))))

  found-Serves :
      {A : Type 0} (id : RoomId) (k : ℕ → H A)
      → ((rm : ℕ) → Serves w (k rm w))
      → Serves w ((find_room id >>= k) w)
  unfolding find_room
  found-Serves {A} id k h = elim (Option-cases (lookup id w.rooms)) [
    | inl e ↦
        rw (e, find_room, ◌>>=◌)
          (ended {A = Outcome A Failure} w w (failure room_not_found) (Steady-refl w))
    | inr (rm, e) ↦ rw (e, find_room, ◌>>=◌) (h rm)
  ]

  pub join_room-Serves : (id : RoomId) (monitor : Bool) → Serves w (join_room u id monitor w)
  unfolding join_room try_add
  join_room-Serves id monitor =
      let same = Steady-refl w in
      required w w (is_none (w.user_at u).room) already_in_room _ same (
        found-Serves id _ (λ rm.
          let w1 = (add_user rm u monitor w).1 in
          let w2 = enter_room rm u monitor w1 in
          let added = add_user-Steady rm u monitor w in
          required w w (not (w.room_at rm).locked) (localized Key.join_room_locked) _ same (
            required w w (is_select_chart (w.room_at rm).state) (localized Key.join_game_ongoing) _
              same
              (required w w (if monitor then can_monitor u w else true)
                (localized Key.join_cant_monitor) _ same
                (required w w1 (add_user rm u monitor w).0 (localized Key.join_room_full) _ added (
                  ended w w2 (success (join_response rm w2))
                    (Steady-trans added (enter_room-Steady rm monitor w1))))))))
