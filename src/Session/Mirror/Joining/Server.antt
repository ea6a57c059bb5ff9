-- ===== src/Session/Mirror/Joining/Server.antt =====
-- What the server does when somebody joins a room.
use phira_mp.Common.{
  subst, ℕ, ◌≡◌, refl, sym, ap, ◌∙◌, Bool, true, false, not, some, List, ◌++◌, length, leb,
  append_assoc, Bool-cases, Option-cases, inl, inr, if◌then◌else◌, ==_iff,
}
use phira_mp.Common.Eq.{int_eq}
use phira_mp.Common.Maps.{lookup}
use phira_mp.Bin.Data.{Outcome, success}
use phira_mp.Command.Types.{RoomId, room_id_eq, JoinRoomResponse, ServerCommand, Message}
use phira_mp.World.{Room, World, Key, Run, returns, set_user, set_room}
use phira_mp.Room.{add_user, broadcast, send, to_info, check_host, room_max_users, users}
use phira_mp.Room.Frame.{send-Quiet, broadcast-Quiet}
use phira_mp.Session.Handler.{Failure, already_in_room, localized, H, ◌>>=◌, require}
use phira_mp.Session.Rooms.{
  id_of, is_none, is_select_chart, can_monitor, find_room, try_add, enter_room, join_room,
  join_response,
}
use phira_mp.Session.Tame.{Tame-trans, Identity, identity}
use phira_mp.Session.Tame.Rooms.{add_user-Tame}
use phira_mp.Session.Tame.Commands.{enter_room-Tame}
use phira_mp.Session.Mirror.{commands_for, commands_for-append, all_sent, members, broadcast-sent}
use phira_mp.Session.Mirror.Entering.{harmless-all_sent}
use phira_mp.Client.Outside.{is_harmless, all_harmless, all_harmless-append}

-- What a handler that succeeded has passed.
module _ {A P : Type 0} (w w' : World) (a : A) where
  require_passed :
      (b : Bool) (e : Failure) (k : Unit → H A)
      → (require b e >>= k) w ≡ returns (success a) w'
      → (b ≡ true → k tt w ≡ returns (success a) w' → P)
      → P
  require_passed true e k h next = next refl h
  require_passed false e k h next = absurd (cc h)

  find_passed :
      (id : RoomId) (k : ℕ → H A)
      → (find_room id >>= k) w ≡ returns (success a) w'
      → ((rm : ℕ) → lookup id w.rooms ≡ some rm → k rm w ≡ returns (success a) w' → P)
      → P
  unfolding find_room
  find_passed id k h next = elim (Option-cases (lookup id w.rooms)) [
    | inl e ↦ absurd (cc (rw (e, find_room, ◌>>=◌) at h))
    | inr (rm, e) ↦ next rm e (rw (e, find_room, ◌>>=◌) at h)
  ]

same_result :
    {A : Type 0} (a b : A) (w w' : World)
    → ◌≡◌ {A = Run (Outcome A Failure)} (returns (success a) w) (returns (success b) w')
    → (a ≡ b) × (w ≡ w')
same_result a b w w' h = (cc h, cc h)

-- A success of `JoinRoom`: which room, what was tested, and what was done.
pub record Joined (u : ℕ) (id : RoomId) (monitor : Bool) (w w' : World) (resp : JoinRoomResponse)
    : Type 0 where
  pub rm : ℕ
  pub found : lookup id w.rooms ≡ some rm
  pub unlocked : (w.room_at rm).locked ≡ false
  pub idle : is_select_chart (w.room_at rm).state ≡ true
  pub done : enter_room rm u monitor (add_user rm u monitor w).1 ≡ w'
  pub said : join_response rm w' ≡ resp

not-false : (b : Bool) → not b ≡ true → b ≡ false
not-false true h = cc
not-false false h = refl

pub join_room-Joined :
    (u : ℕ) (id : RoomId) (monitor : Bool) (w w' : World) (resp : JoinRoomResponse)
    → join_room u id monitor w ≡ returns (success resp) w'
    → Joined u id monitor w w' resp
unfolding join_room try_add
join_room-Joined u id monitor w w' resp h =
    require_passed w w' resp (is_none (w.user_at u).room) already_in_room _ h (λ free h1.
      find_passed w w' resp id _ h1 (λ rm found h2.
        require_passed w w' resp (not (w.room_at rm).locked) (localized Key.join_room_locked) _ h2
          (λ unlocked h3.
            require_passed w w' resp (is_select_chart (w.room_at rm).state)
              (localized Key.join_game_ongoing) _ h3
              (λ idle h4.
                require_passed w w' resp (if monitor then can_monitor u w else true)
                  (localized Key.join_cant_monitor) _ h4
                  (λ allowed h5.
                    let w1 = (add_user rm u monitor w).1 in
                    require_passed w1 w' resp (add_user rm u monitor w).0
                      (localized Key.join_room_full) _ h5
                      (λ added h6.
                        let w2 = enter_room rm u monitor w1 in
                        let same = same_result (join_response rm w2) resp w2 w' h6 in
                        record {
                          rm = rm;
                          found = found;
                          unlocked = not-false _ unlocked;
                          idle = idle;
                          done = same.1;
                          said = ap (join_response rm) (sym same.1) ∙ same.0;
                        }))))))

-- What the room keeps when a user is added and enters.
pub record Kept (r r' : Room) : Type 0 where
  pub id : r'.id ≡ r.id
  pub host : r'.host ≡ r.host
  pub locked : r'.locked ≡ r.locked
  pub state : r'.state ≡ r.state

set_room-Kept :
    (rm : ℕ) (room : Room) (w : World)
    → Kept (w.room_at rm) room
    → Kept (w.room_at rm) ((set_room rm room w).room_at rm)
set_room-Kept rm room w k = rw ((==_iff rm rm).1 refl) k

pub add_user-Kept :
    (rm u : ℕ) (monitor : Bool) (w : World)
    → Kept (w.room_at rm) ((add_user rm u monitor w).1.room_at rm)
unfolding add_user
add_user-Kept rm u true w =
    set_room-Kept rm _ w (record { id = refl; host = refl; locked = refl; state = refl })
add_user-Kept rm u false w = elim (Bool-cases (leb room_max_users (length (users w rm)))) [
  | inl full ↦
      rw full
        (set_room-Kept rm _ w (record { id = refl; host = refl; locked = refl; state = refl }))
  | inr free ↦
      rw free
        (set_room-Kept rm _ w (record { id = refl; host = refl; locked = refl; state = refl }))
]

-- The room is live if a monitor comes.
abbrev pub lit : ℕ → Bool → World → World
lit rm monitor w = if monitor then set_room rm (record (w.room_at rm) { live = true }) w else w

lit-Kept :
    (rm : ℕ) (monitor : Bool) (w : World) → Kept (w.room_at rm) ((lit rm monitor w).room_at rm)
lit-Kept rm true w =
    set_room-Kept rm _ w (record { id = refl; host = refl; locked = refl; state = refl })
lit-Kept rm false w = record { id = refl; host = refl; locked = refl; state = refl }

pub Kept-trans : {a b c : Room} → Kept a b → Kept b c → Kept a c
Kept-trans p q = record {
  id = q.id ∙ p.id;
  host = q.host ∙ p.host;
  locked = q.locked ∙ p.locked;
  state = q.state ∙ p.state;
}

pub enter_room-Kept :
    (rm u : ℕ) (monitor : Bool) (w : World)
    → Kept (w.room_at rm) ((enter_room rm u monitor w).room_at rm)
unfolding enter_room
enter_room-Kept rm u monitor w =
    let w1 = set_user u (record (w.user_at u) { monitor = monitor }) w in
    let w2 = lit rm monitor w1 in
    let c1 = ServerCommand.on_join_room (to_info (w2.user_at u)) in
    let w3 = broadcast rm c1 w2 in
    let q1 = broadcast-Quiet rm c1 w2 in
    let q2 = send-Quiet rm (Message.join_room (id_of u w3) (w3.user_at u).name) w3 in
    subst (λ (f : ℕ → Room). Kept (w.room_at rm) (f rm)) (sym (q2.room_at ∙ q1.room_at))
      (lit-Kept rm monitor w1)

-- The host of the room is who it was.
pub check_host-joined :
    (rm u : ℕ) (monitor : Bool) (w : World)
    → check_host (enter_room rm u monitor (add_user rm u monitor w).1) rm u ≡ check_host w rm u
unfolding check_host identity
check_host-joined rm u monitor w =
    let w1 = (add_user rm u monitor w).1 in
    let t = Tame-trans (add_user-Tame rm u monitor w) (enter_room-Tame u rm monitor w1) in
    let k = Kept-trans (add_user-Kept rm u monitor w) (enter_room-Kept rm u monitor w1) in
    let h = (w.room_at rm).host in
    rw
      (
        k.host,
        t.alive,
        ap (λ (i : Identity). i.id) (t.same h),
        ap (λ (i : Identity). i.id) (t.same u),
      )
      refl

module _ (rm u : ℕ) (monitor : Bool) (w : World) where
  abbrev w2 : World
  w2 = lit rm monitor (set_user u (record (w.user_at u) { monitor = monitor }) w)

  abbrev c1 : ServerCommand
  c1 = ServerCommand.on_join_room (to_info (w2.user_at u))

  abbrev w3 : World
  w3 = broadcast rm c1 w2

  abbrev c2 : ServerCommand
  c2 = ServerCommand.message (Message.join_room (id_of u w3) (w3.user_at u).name)

  -- What the members of the room are told.
  abbrev pub told : List (ℕ × ServerCommand)
  told = all_sent w2 c1 (members w2 rm) ++ all_sent w3 c2 (members w3 rm)

  outbox-lit : w2.outbox ≡ w.outbox
  outbox-lit = elim (Bool-cases monitor) [ inl m ↦ rw m refl | inr m ↦ rw m refl ]

  pub outbox-enter_room : (enter_room rm u monitor w).outbox ≡ w.outbox ++ told
  unfolding enter_room send
  outbox-enter_room =
      ap (λ (x : World). x.outbox) (broadcast-sent rm c2 w3)
      ∙ ap (λ (x : World). x.outbox ++ all_sent w3 c2 (members w3 rm)) (broadcast-sent rm c1 w2)
      ∙ ap (λ o. (o ++ all_sent w2 c1 (members w2 rm)) ++ all_sent w3 c2 (members w3 rm)) outbox-lit
      ∙ append_assoc w.outbox (all_sent w2 c1 (members w2 rm)) (all_sent w3 c2 (members w3 rm))

  pub harmless-told : (s : ℕ) → all_harmless (commands_for s told) ≡ true
  unfolding is_harmless
  harmless-told s =
      ap all_harmless
        (commands_for-append s (all_sent w2 c1 (members w2 rm)) (all_sent w3 c2 (members w3 rm)))
      ∙ all_harmless-append _ _ (harmless-all_sent s c1 (members w2 rm) w2 refl)
          (harmless-all_sent s c2 (members w3 rm) w3 refl)

pub outbox-add_user :
    (rm u : ℕ) (monitor : Bool) (w : World) → (add_user rm u monitor w).1.outbox ≡ w.outbox
unfolding add_user
outbox-add_user rm u true w = refl
outbox-add_user rm u false w = elim (Bool-cases (leb room_max_users (length (users w rm)))) [
  | inl full ↦ rw full refl
  | inr free ↦ rw free refl
]
