-- ===== src/Session/Tame/Commands.antt =====
-- The commands of `process` are tame.
use phira_mp.Common.{
  ◌≡◌, ◌≤◌, length, sym, ap, ◌∙◌, ==_iff, ◌==◌ as nat_beq, arith, ℕ, ◌+◌, inl, inr, refl, Bool,
  true, false, not, List, [], ◌∷◌, Bool-cases, Option-cases, if◌then◌else◌,
}
use phira_mp.Common.Eq.{int_eq}
use phira_mp.Common.Eq.{◌==◌, beq→eq, beq_false→ne}
use phira_mp.Common.Maps.{
  lookup-insert_self, lookup-insert_ne, lookup-remove_self, lookup-remove_ne, remove, lookup,
  insert,
}
use phira_mp.Bin.Reader.{Bytes}
use phira_mp.Command.Types.{RoomId, room_id_eq, TouchFrame, JudgeEvent, Message, ServerCommand}
use phira_mp.World.{Room, World, Env, Key, set_user, set_room}
use phira_mp.Room.{
  room_max_users, send, send_as, broadcast, broadcast_monitors, add_user, check_host, new, to_info,
}
use phira_mp.Room.Turn.{on_user_leave}
use phira_mp.Room.Frame.{broadcast-Quiet, send_all-Quiet}
use phira_mp.Session.Handler.{only_host, already_in_room, localized, H, ◌>>=◌, require, act, gets}
use phira_mp.Session.Rooms.{
  id_of, is_none, is_select_chart, can_monitor, join_response, chat, store_time, touches, judges,
  open_room, create_room, try_add, enter_room, find_room, join_room, drop_room, require_host,
  lock_room, cycle_room, leave_room,
}
use phira_mp.Session.Tame.{
  Roomy, Tame, Tame-refl, Tame-trans, Quiet-Tame, set_room-Tame, set_user-Tame, identity, final,
  room_step, required, lifted,
}
use phira_mp.Session.Tame.Rooms.{send-Tame, add_user-Tame, on_user_leave-Tame}

live-Tame :
    (rm : ℕ) (monitor : Bool) (w : World)
    → Tame w (if monitor then set_room rm (record (w.room_at rm) { live = true }) w else w)
live-Tame rm true w = set_room-Tame rm _ w refl (λ h. h)
live-Tame rm false w = Tame-refl w

-- A room is set, and then its users are told.
set_and_send-Tame :
    (rm : ℕ) (room : Room) (msg : Message) (w : World)
    → room.id ≡ (w.room_at rm).id
    → room.users ≡ (w.room_at rm).users
    → Tame w (send rm msg (set_room rm room w))
set_and_send-Tame rm room msg w same_id same_users =
    Tame-trans (set_room-Tame rm room w same_id (λ h. rw same_users h)) (send-Tame rm msg _)

-- A new room is entered under its id, at an address that was not in use.
open-Roomy :
    (id : RoomId) (room : Room) (w : World)
    → room.id ≡ id
    → length room.users ≤ room_max_users
    → Roomy w
    → Roomy (
        set_room w.fresh room (record w { rooms = insert id w.fresh w.rooms; fresh = w.fresh + 1 }))
open-Roomy id room w same_id small r = record {
  capacity = λ q. elim (Bool-cases (nat_beq q w.fresh)) [
    | inl here ↦ rw here small
    | inr apart ↦ rw apart (r.capacity q)
  ];
  listed = λ j q h. elim (Bool-cases (id == j)) [
    | inl t ↦
        let e = beq→eq {j = id} {k = j} t in
        let found =
          ap (λ i. lookup i (insert id w.fresh w.rooms)) (sym e)
          ∙ lookup-insert_self id w.fresh w.rooms in
        let here : w.fresh ≡ q = cc (found, h) in
        rw (← here) (rw ((==_iff w.fresh w.fresh).1 refl) (same_id ∙ e), omega arith)
    | inr f ↦
        let (named, below) =
          r.listed j q (sym (lookup-insert_ne id j w.fresh w.rooms (beq_false→ne f)) ∙ h) in
        let apart : nat_beq q w.fresh ≡ false = ground (arith, below) in
        (rw apart named, omega (arith, below))
  ];
}

drop-Roomy : (id : RoomId) (w : World) → Roomy w → Roomy (record w { rooms = remove id w.rooms })
drop-Roomy id w r = record {
  capacity = r.capacity;
  listed = λ j q h. elim (Bool-cases (id == j)) [
    | inl t ↦
        let gone =
          ap (λ i. lookup i (remove id w.rooms)) (sym (beq→eq {j = id} {k = j} t))
          ∙ lookup-remove_self id w.rooms in
        absurd (cc (gone, h))
    | inr f ↦ r.listed j q (sym (lookup-remove_ne id j w.rooms (beq_false→ne f)) ∙ h)
  ];
}

module _ (u : ℕ) where
  pub chat-Tame : (content : Bytes) (w : World) → Tame w (final (chat u content w))
  unfolding chat send_as
  chat-Tame content w = room_step w u _ (λ rm. send-Tame rm _ w)

  store_time-Tame : (frames : List TouchFrame) (w : World) → Tame w (store_time u frames w)
  unfolding store_time identity
  store_time-Tame [] w = Tame-refl w
  store_time-Tame (f ∷ []) w = set_user-Tame u _ w refl
  store_time-Tame (f ∷ g ∷ fs) w = store_time-Tame (g ∷ fs) w

  broadcast_monitors-Tame :
      (rm : ℕ) (cmd : ServerCommand) (w : World) → Tame w (broadcast_monitors rm cmd w)
  unfolding broadcast_monitors
  broadcast_monitors-Tame rm cmd w = Quiet-Tame (send_all-Quiet _ cmd w)

  pub touches-Tame : (frames : List TouchFrame) (w : World) → Tame w (touches u frames w)
  unfolding touches
  touches-Tame frames w = elim (Option-cases (w.user_at u).room) [
    | inl e ↦ rw (e, touches) (Tame-refl w)
    | inr (rm, e) ↦ elim (Bool-cases (w.room_at rm).live) [
      | inl live ↦
          rw (e, touches)
            (rw live (Tame-trans (store_time-Tame frames w) (broadcast_monitors-Tame rm _ _)))
      | inr off ↦ rw (e, touches) (rw off (Tame-refl w))
    ]
  ]

  pub judges-Tame : (events : List JudgeEvent) (w : World) → Tame w (judges u events w)
  unfolding judges
  judges-Tame events w = elim (Option-cases (w.user_at u).room) [
    | inl e ↦ rw (e, judges) (Tame-refl w)
    | inr (rm, e) ↦ elim (Bool-cases (w.room_at rm).live) [
      | inl live ↦ rw (e, judges) (rw live (broadcast_monitors-Tame rm _ w))
      | inr off ↦ rw (e, judges) (rw off (Tame-refl w))
    ]
  ]

  pub lock_room-Tame : (lock : Bool) (w : World) → Tame w (final (lock_room u lock w))
  unfolding lock_room require_host
  lock_room-Tame lock w =
      room_step w u _
        (λ rm. required w (check_host w rm u) only_host _ (set_and_send-Tame rm _ _ w refl refl))

  pub cycle_room-Tame : (cycle : Bool) (w : World) → Tame w (final (cycle_room u cycle w))
  unfolding cycle_room require_host
  cycle_room-Tame cycle w =
      room_step w u _
        (λ rm. required w (check_host w rm u) only_host _ (set_and_send-Tame rm _ _ w refl refl))

  open_room-Tame : (id : RoomId) (w : World) → Tame w (open_room u id w)
  unfolding open_room identity new
  open_room-Tame id w =
      let w0 = record w { rooms = insert id w.fresh w.rooms; fresh = w.fresh + 1 } in
      let w1 = set_room w.fresh (new id u) w0 in
      let w2 = send w.fresh (Message.create_room (id_of u w1)) w1 in
      Tame-trans {b = w1}
        (record {
          same = λ v. refl;
          users = refl;
          alive = refl;
          session_alive = refl;
          config_monitors = refl;
          fresh = omega arith;
          roomy = open-Roomy id (new id u) w refl (omega arith);
        })
        (Tame-trans {b = w2} (send-Tame w.fresh _ w1) (set_user-Tame u _ w2 refl))

  pub create_room-Tame : (id : RoomId) (w : World) → Tame w (final (create_room u id w))
  unfolding create_room
  create_room-Tame id w = required w (is_none (w.user_at u).room) already_in_room _ (
      required w (is_none (lookup id w.rooms)) (localized Key.create_id_occupied) _
        (open_room-Tame id w))

  pub drop_room-Tame : (rm : ℕ) (drop : Bool) (w : World) → Tame w (drop_room rm drop w)
  unfolding drop_room
  drop_room-Tame rm true w = record {
    same = λ v. refl;
    users = refl;
    alive = refl;
    session_alive = refl;
    config_monitors = refl;
    fresh = omega arith;
    roomy = drop-Roomy (w.room_at rm).id w;
  }
  drop_room-Tame rm false w = Tame-refl w

  pub leave_room-Tame : (env : Env) (w : World) → Tame w (final (leave_room env u w))
  unfolding leave_room
  leave_room-Tame env w = room_step w u _ (λ rm.
      lifted w (on_user_leave env rm u) _ (on_user_leave-Tame env rm u w)
        (λ drop w'. drop_room-Tame rm drop w'))

  pub enter_room-Tame : (rm : ℕ) (monitor : Bool) (w : World) → Tame w (enter_room rm u monitor w)
  unfolding enter_room identity
  enter_room-Tame rm monitor w =
      let w1 = set_user u (record (w.user_at u) { monitor = monitor }) w in
      let w2 = if monitor then set_room rm (record (w1.room_at rm) { live = true }) w1 else w1 in
      let w3 = broadcast rm (ServerCommand.on_join_room (to_info (w2.user_at u))) w2 in
      let w4 = send rm (Message.join_room (id_of u w3) (w3.user_at u).name) w3 in
      Tame-trans {b = w1} (set_user-Tame u _ w refl) (
        Tame-trans {b = w2} (live-Tame rm monitor w1) (
          Tame-trans {b = w3} (Quiet-Tame (broadcast-Quiet rm _ w2))
            (Tame-trans {b = w4} (send-Tame rm _ w3) (set_user-Tame u _ w4 refl))))

  added-Tame :
      (rm : ℕ) (monitor : Bool) (w : World)
      → Tame w (
          final (
            ((require (add_user rm u monitor w).0 (localized Key.join_room_full)) >>= λ _.
            (act (enter_room rm u monitor) >>= λ _. gets (join_response rm)))
              (add_user rm u monitor w).1))
  added-Tame rm monitor w =
      let w1 = (add_user rm u monitor w).1 in
      Tame-trans (add_user-Tame rm u monitor w) (
        required w1 (add_user rm u monitor w).0 (localized Key.join_room_full) _
          (enter_room-Tame rm monitor w1))

  found-Tame :
      {A : Type 0} (id : RoomId) (w : World) (k : ℕ → H A)
      → ((rm : ℕ) → Tame w (final (k rm w)))
      → Tame w (final ((find_room id >>= k) w))
  unfolding find_room
  found-Tame id w k h = elim (Option-cases (lookup id w.rooms)) [
    | inl e ↦ rw (e, find_room, ◌>>=◌) (Tame-refl w)
    | inr (rm, e) ↦ rw (e, find_room, ◌>>=◌) (h rm)
  ]

  pub join_room-Tame :
      (id : RoomId) (monitor : Bool) (w : World) → Tame w (final (join_room u id monitor w))
  unfolding join_room try_add
  join_room-Tame id monitor w = required w (is_none (w.user_at u).room) already_in_room _ (
      found-Tame id w _ (λ rm.
        required w (not (w.room_at rm).locked) (localized Key.join_room_locked) _ (
          required w (is_select_chart (w.room_at rm).state) (localized Key.join_game_ongoing) _ (
            required w (if monitor then can_monitor u w else true) (localized Key.join_cant_monitor)
              _ (added-Tame rm monitor w)))))
