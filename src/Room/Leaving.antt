-- ===== src/Room/Leaving.antt =====
-- `on_user_leave`: the room that a user leaves has a live user for a host, or is to be dropped.
use phira_mp.Common.{
  ℕ, ◌≡◌, inl, inr, refl, sym, ap, ◌∙◌, Bool, true, false, ◌||◌, none, some, List, [], ◌∷◌, arith,
  if◌then◌else◌, ◌==◌ as nat_beq, ==_iff, Bool-cases,
}
use phira_mp.Common.Int.{ℤ}
use phira_mp.Common.Eq.{◌==◌, int_eq}
use phira_mp.Command.Types.{Message}
use phira_mp.World.{User, Room, World, Env, update, set_user}
use phira_mp.Room.{upgrade_all, send}
use phira_mp.Room.Turn.{retain_others, take_off, detach}
use phira_mp.Room.Frame.{send-Quiet, update_self, update_other, Becomes, Becomes-trans, Becomes-eq}
use phira_mp.Room.Host.{mem}

-- What the random choice of rand promises: from a list that is not empty it picks a member.
pub record IsChoice (env : Env) : Type 0 where
  pub picks :
      (n u : ℕ) (us : List ℕ)
      → (new : ℕ) × (env.choose n (u ∷ us) ≡ some new) × (mem new (u ∷ us) ≡ true)

-- A live user with the id `k` in a list of users.
unfoldable pub has_id : World → ℤ → List ℕ → Bool
has_id w k [] = false
has_id w k (u ∷ us) = (w.user_at u).id == k || has_id w k us

-- `retain_others` reads who is alive and who has which id.
retain_others-same :
    (w w' : World) (k : ℤ) (us : List ℕ)
    → w'.alive ≡ w.alive
    → ((v : ℕ) → (w'.user_at v).id ≡ (w.user_at v).id)
    → retain_others w' k us ≡ retain_others w k us
unfolding retain_others
retain_others-same w w' k [] a i = refl
retain_others-same w w' k (u ∷ us) a i = rw (ap (λ f. f u) a, i u, retain_others-same w w' k us a i)

pub retained_gone :
    (w : World) (k : ℤ) (us : List ℕ) → has_id w k (upgrade_all w (retain_others w k us)) ≡ false
unfolding retain_others upgrade_all has_id
retained_gone w k [] = refl
retained_gone w k (u ∷ us) = ground (arith, retained_gone w k us)

pub retained_mem :
    (w : World) (k : ℤ) (h : ℕ) (us : List ℕ)
    → ((w.user_at h).id == k) ≡ false
    → mem h (upgrade_all w us) ≡ true
    → mem h (upgrade_all w (retain_others w k us)) ≡ true
unfolding retain_others upgrade_all mem
retained_mem w k h [] other m = cc
retained_mem w k h (u ∷ us) other m = elim (Bool-cases (nat_beq u h)) [
  | inl same ↦
      let other' : ((w.user_at u).id == k) ≡ false = rw ((==_iff u h).0 same) other in
      ground (arith, other', retained_mem w k h us other)
  | inr differ ↦ ground (arith, retained_mem w k h us other)
]

-- The room without the user, on the list that the user's flag names.
unfoldable pub left_room : World → ℕ → ℕ → Room
left_room w rm u =
    let room = w.room_at rm in
    let k = (w.user_at u).id in
    if (w.user_at u).monitor
    then record room { monitors = retain_others w k room.monitors }
    else record room { users = retain_others w k room.users }

take_off-Becomes : (rm u : ℕ) (w : World) → Becomes w (take_off rm u w) rm (left_room w rm u)
unfolding take_off left_room
take_off-Becomes rm u w = elim (Bool-cases (w.user_at u).monitor) [
  | inl flag ↦ rw flag (record {
    room_is = update_self w.room_at rm _;
    alive = refl;
    elsewhere = λ v apart. update_other w.room_at rm v _ apart;
    rooms = refl;
  })
  | inr flag ↦ rw flag (record {
    room_is = update_self w.room_at rm _;
    alive = refl;
    elsewhere = λ v apart. update_other w.room_at rm v _ apart;
    rooms = refl;
  })
]

take_off-user_at : (rm u : ℕ) (w : World) → (take_off rm u w).user_at ≡ w.user_at
unfolding take_off
take_off-user_at rm u w = elim (Bool-cases (w.user_at u).monitor) [
  | inl flag ↦ rw flag
  | inr flag ↦ rw flag
]

abbrev told : ℕ → ℕ → World → World
told rm u w = send rm (Message.leave_room (w.user_at u).id (w.user_at u).name) w

-- The user is told to have left, and has no room.
unhoused : ℕ → ℕ → World → World
unhoused rm u w = let w1 = told rm u w in set_user u (record (w1.user_at u) { room = none }) w1

without_room :
    (f : ℕ → User) (u v : ℕ) → (update f u (record (f u) { room = none }) v).id ≡ (f v).id
without_room f u v = elim (Bool-cases (nat_beq v u)) [
  | inl same ↦ rw same (ap (λ a. (f a).id) (sym ((==_iff v u).0 same)))
  | inr differ ↦ rw differ
]

unhoused-ids : (rm u : ℕ) (w : World) (v : ℕ) → ((unhoused rm u w).user_at v).id ≡ (w.user_at v).id
unfolding unhoused
unhoused-ids rm u w v =
    let q = send-Quiet rm (Message.leave_room (w.user_at u).id (w.user_at u).name) w in
    without_room (told rm u w).user_at u v ∙ ap (λ f. (f v).id) q.user_at

unhoused_monitor :
    (rm u : ℕ) (w : World) → ((unhoused rm u w).user_at u).monitor ≡ (w.user_at u).monitor
unfolding unhoused
unhoused_monitor rm u w =
    let q = send-Quiet rm (Message.leave_room (w.user_at u).id (w.user_at u).name) w in
    ap (λ (x : User). x.monitor) (update_self (told rm u w).user_at u _)
    ∙ ap (λ f. (f u).monitor) q.user_at

unhoused-Becomes : (rm u : ℕ) (w : World) → Becomes w (unhoused rm u w) rm (w.room_at rm)
unfolding unhoused
unhoused-Becomes rm u w =
    let q = send-Quiet rm (Message.leave_room (w.user_at u).id (w.user_at u).name) w in
    record {
      room_is = ap (λ f. f rm) q.room_at;
      alive = q.alive;
      elsewhere = λ v apart. ap (λ f. f v) q.room_at;
      rooms = q.rooms;
    }

left_room-unhoused : (rm u : ℕ) (w : World) → left_room (unhoused rm u w) rm u ≡ left_room w rm u
unfolding left_room
left_room-unhoused rm u w = rw (
  unhoused_monitor rm u w,
  unhoused-ids rm u w u,
  (unhoused-Becomes rm u w).room_is,
  retained (w.room_at rm).users,
  retained (w.room_at rm).monitors,
)
  where
    retained :
        (us : List ℕ)
        → retain_others (unhoused rm u w) (w.user_at u).id us ≡ retain_others w (w.user_at u).id us
    retained us =
        retain_others-same w (unhoused rm u w) _ us (unhoused-Becomes rm u w).alive
          (unhoused-ids rm u w)

pub detach-Becomes : (rm u : ℕ) (w : World) → Becomes w (detach rm u w) rm (left_room w rm u)
unfolding detach unhoused
detach-Becomes rm u w =
    Becomes-eq (Becomes-trans (unhoused-Becomes rm u w) (take_off-Becomes rm u (unhoused rm u w)))
      (left_room-unhoused rm u w)

pub detach-ids : (rm u : ℕ) (w : World) (v : ℕ) → ((detach rm u w).user_at v).id ≡ (w.user_at v).id
unfolding detach unhoused
detach-ids rm u w v =
    ap (λ f. (f v).id) (take_off-user_at rm u (unhoused rm u w)) ∙ unhoused-ids rm u w v
