-- ===== src/Session/Tame/Rooms.antt =====
-- The operations of a room are tame.
use phira_mp.Common.{
  ◌≤◌, ◌≡◌, arith, ℕ, ◌+◌, inl, inr, refl, Bool, true, false, none, List, [], ◌∷◌, ◌++◌, leb,
  length, get_elem?, Bool-cases, Option-cases,
}
use phira_mp.Common.Int.{ℤ}
use phira_mp.Command.Types.{Message, ServerCommand}
use phira_mp.World.{
  InternalRoomState, select_chart, wait_for_ready, playing, World, Env, ◌>>◌, pure, modify,
  set_user,
}
use phira_mp.Room.{
  upgrade_all, room_max_users, users, monitors, try_send, send, on_state_change, set_state,
  add_user, next_index, check_host, all_started, all_finished,
}
use phira_mp.Room.Turn.{
  retain_others, start_game, tell_old, tell_hosts, rotate_host, end_game, check_state,
  check_all_ready, take_off, detach, appoint_host, leave_as_host, on_user_leave,
}
use phira_mp.Room.Frame.{send-Quiet, try_send-Quiet, on_state_change-Quiet}
use phira_mp.Session.Tame.{
  Tame, Tame-refl, Tame-trans, Quiet-Tame, set_room-Tame, set_user-Tame, reset_game_time-Tame,
  identity, final, world_step,
}

pub send-Tame : (rm : ℕ) (msg : Message) (w : World) → Tame w (send rm msg w)
send-Tame rm msg w = Quiet-Tame (send-Quiet rm msg w)

pub try_send-Tame : (u : ℕ) (cmd : ServerCommand) (w : World) → Tame w (try_send u cmd w)
try_send-Tame u cmd w = Quiet-Tame (try_send-Quiet u cmd w)

pub on_state_change-Tame : (rm : ℕ) (w : World) → Tame w (on_state_change rm w)
on_state_change-Tame rm w = Quiet-Tame (on_state_change-Quiet rm w)

upgrade_all_le : (w : World) (us : List ℕ) → length (upgrade_all w us) ≤ length us
unfolding upgrade_all
upgrade_all_le w [] = omega arith
upgrade_all_le w (u ∷ us) = ground (arith, upgrade_all_le w us)

users_le : (w : World) (rm : ℕ) → length (users w rm) ≤ length (w.room_at rm).users
unfolding users
users_le w rm = upgrade_all_le w (w.room_at rm).users

retain_others_le : (w : World) (k : ℤ) (us : List ℕ) → length (retain_others w k us) ≤ length us
unfolding retain_others
retain_others_le w k [] = omega arith
retain_others_le w k (u ∷ us) = ground (arith, retain_others_le w k us)

length-snoc : (us : List ℕ) (u : ℕ) → length (us ++ (u ∷ [])) ≡ length us + 1
length-snoc [] u = omega arith
length-snoc (v ∷ us) u = omega (arith, length-snoc us u)

one_more :
    (us : List ℕ) (u : ℕ)
    → leb room_max_users (length us) ≡ false
    → length (us ++ (u ∷ [])) ≤ room_max_users
one_more us u free = ground (arith, length-snoc us u, free)

pub add_user-Tame : (rm u : ℕ) (monitor : Bool) (w : World) → Tame w (add_user rm u monitor w).1
unfolding add_user
add_user-Tame rm u true w = set_room-Tame rm _ w refl (λ h. h)
add_user-Tame rm u false w = elim (Bool-cases (leb room_max_users (length (users w rm)))) [
  | inl full ↦
      rw full (set_room-Tame rm _ w refl (λ h. let e = users_le w rm in omega (arith, e, h)))
  | inr free ↦ rw free (set_room-Tame rm _ w refl (λ h. one_more (users w rm) u free))
]

start_game-Tame : (rm : ℕ) (w : World) → Tame w (start_game rm w)
unfolding start_game
start_game-Tame rm w = Tame-trans (send-Tame rm Message.start_playing w) (
    Tame-trans (reset_game_time-Tame rm _)
      (Tame-trans (set_room-Tame rm _ _ refl (λ h. h)) (on_state_change-Tame rm _)))

tell_old-Tame : (old : ℕ) (w : World) → Tame w (tell_old old w)
unfolding tell_old
tell_old-Tame old w = elim (Bool-cases (w.alive old)) [
  | inl here ↦ rw here (try_send-Tame old _ w)
  | inr gone ↦ rw gone (Tame-refl w)
]

rotate_host-Tame : (rm : ℕ) (w : World) → Tame w (final (rotate_host rm w))
unfolding rotate_host tell_hosts
rotate_host-Tame rm w =
    elim (Option-cases (get_elem? (users w rm) (next_index (w.room_at rm).host (users w rm)))) [
      | inl e ↦ rw (e, rotate_host) (Tame-refl w)
      | inr (new, e) ↦
          rw (e, rotate_host)
            (Tame-trans (set_room-Tame rm _ w refl (λ h. h)) (
              Tame-trans (send-Tame rm _ _)
                (Tame-trans (tell_old-Tame (w.room_at rm).host _) (try_send-Tame new _ _))))
    ]

end_game-Tame : (rm : ℕ) (w : World) → Tame w (final (end_game rm w))
unfolding end_game
end_game-Tame rm w =
    let w1 = set_state rm select_chart (send rm Message.game_end w) in
    let over : Tame w w1 =
      Tame-trans (send-Tame rm Message.game_end w) (set_room-Tame rm _ _ refl (λ h. h)) in
    elim (Bool-cases (w1.room_at rm).cycle) [
      | inl rotate ↦ rw rotate (
          Tame-trans over (
            world_step w1 (rotate_host rm) (λ _. modify (on_state_change rm))
              (rotate_host-Tame rm w1) (λ _ w'. on_state_change-Tame rm w')))
      | inr stay ↦ rw stay (Tame-trans over (on_state_change-Tame rm w1))
    ]

check_state-Tame :
    (rm : ℕ) (st : InternalRoomState) (w : World) → Tame w (final (check_state rm st w))
unfolding check_state
check_state-Tame rm select_chart w = Tame-refl w
check_state-Tame rm (wait_for_ready started) w =
    elim (Bool-cases (all_started w started (users w rm ++ monitors w rm))) [
      | inl go ↦ rw go (start_game-Tame rm w)
      | inr wait ↦ rw wait (Tame-refl w)
    ]
check_state-Tame rm (playing results out) w =
    elim (Bool-cases (all_finished w results out (users w rm))) [
      | inl go ↦ rw go (end_game-Tame rm w)
      | inr wait ↦ rw wait (Tame-refl w)
    ]

pub check_all_ready-Tame : (rm : ℕ) (w : World) → Tame w (final (check_all_ready rm w))
unfolding check_all_ready
check_all_ready-Tame rm w = check_state-Tame rm (w.room_at rm).state w

detach-Tame : (rm u : ℕ) (w : World) → Tame w (detach rm u w)
unfolding detach take_off identity
detach-Tame rm u w =
    let w1 = send rm (Message.leave_room (w.user_at u).id (w.user_at u).name) w in
    let w2 = set_user u (record (w1.user_at u) { room = none }) w1 in
    let left : Tame w w2 = Tame-trans (send-Tame rm _ w) (set_user-Tame u _ w1 refl) in
    elim (Bool-cases (w2.user_at u).monitor) [
      | inl m ↦ rw m (Tame-trans left (set_room-Tame rm _ w2 refl (λ h. h)))
      | inr m ↦ rw m (
          Tame-trans left (
            set_room-Tame rm _ w2 refl (λ h.
              let e = retain_others_le w2 (w2.user_at u).id (w2.room_at rm).users in
              omega (arith, e, h))))
    ]

module _ (env : Env) where
  appoint_host-Tame : (rm : ℕ) (us : List ℕ) (w : World) → Tame w (final (appoint_host env rm us w))
  unfolding appoint_host
  appoint_host-Tame rm us w = elim (Option-cases (env.choose w.draws us)) [
    | inl e ↦ rw (e, appoint_host) (Tame-refl w)
    | inr (new, e) ↦
        rw (e, appoint_host)
          (Tame-trans {b = record w { draws = w.draws + 1 }}
            (record {
              same = λ v. refl;
              users = refl;
              alive = refl;
              session_alive = refl;
              config_monitors = refl;
              fresh = omega arith;
              roomy = λ r. record { capacity = r.capacity; listed = r.listed };
            })
            (Tame-trans (set_room-Tame rm _ _ refl (λ h. h))
              (Tame-trans (send-Tame rm _ _) (try_send-Tame new _ _))))
  ]

  checked-Tame : (rm : ℕ) (w : World) → Tame w (final ((check_all_ready rm >> pure false) w))
  checked-Tame rm w =
      world_step w (check_all_ready rm) (λ _. pure false) (check_all_ready-Tame rm w)
        (λ _ w'. Tame-refl w')

  leave_as_host-Tame :
      (rm : ℕ) (us : List ℕ) (w : World) → Tame w (final (leave_as_host env rm us w))
  unfolding leave_as_host
  leave_as_host-Tame rm [] w = Tame-refl w
  leave_as_host-Tame rm (u ∷ us) w =
      world_step w (appoint_host env rm (u ∷ us)) (λ _. check_all_ready rm >> pure false)
        (appoint_host-Tame rm (u ∷ us) w) (λ _ w'. checked-Tame rm w')

  pub on_user_leave-Tame : (rm u : ℕ) (w : World) → Tame w (final (on_user_leave env rm u w))
  unfolding on_user_leave
  on_user_leave-Tame rm u w =
      let w1 = detach rm u w in
      elim (Bool-cases (check_host w1 rm u)) [
        | inl host ↦
            rw host (Tame-trans (detach-Tame rm u w) (leave_as_host-Tame rm (users w1 rm) w1))
        | inr guest ↦ rw guest (Tame-trans (detach-Tame rm u w) (checked-Tame rm w1))
      ]
