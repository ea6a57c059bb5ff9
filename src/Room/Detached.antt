-- ===== src/Room/Detached.antt =====
-- What is left of a room whose user has left it, before its host is seen to.
use phira_mp.Common.{
  ℕ, ◌≡◌, inl, inr, ap, ◌∙◌, true, false, List, [], ◌∷◌, arith, ◌==◌ as nat_beq, ==_iff, Bool-cases,
}
use phira_mp.Common.Eq.{◌==◌, int_eq}
use phira_mp.World.{Room, World}
use phira_mp.Room.{users, upgrade_all, check_host}
use phira_mp.Room.Turn.{retain_others, detach}
use phira_mp.Room.Frame.{upgrade_all-alive}
use phira_mp.Room.Host.{mem, HasHost}
use phira_mp.Room.Leaving.{
  has_id, retained_gone, retained_mem, left_room, detach-Becomes, detach-ids,
}

pub left_room-host : (w : World) (rm u : ℕ) → (left_room w rm u).host ≡ (w.room_at rm).host
unfolding left_room
left_room-host w rm u = ground arith

pub left_room-users :
    (w : World) (rm u : ℕ)
    → (w.user_at u).monitor ≡ false
    → (left_room w rm u).users ≡ retain_others w (w.user_at u).id (w.room_at rm).users
unfolding left_room
left_room-users w rm u flag = rw flag

pub left_room-users_monitor :
    (w : World) (rm u : ℕ)
    → (w.user_at u).monitor ≡ true
    → (left_room w rm u).users ≡ (w.room_at rm).users
unfolding left_room
left_room-users_monitor w rm u flag = rw flag

pub users-detach :
    (w : World) (rm u : ℕ) → users (detach rm u w) rm ≡ upgrade_all w (left_room w rm u).users
unfolding users
users-detach w rm u =
    let b = detach-Becomes rm u w in
    upgrade_all-alive w (detach rm u w) _ b.alive
    ∙ ap (λ (r : Room). upgrade_all w r.users) b.room_is

pub host-detach : (w : World) (rm u : ℕ) → ((detach rm u w).room_at rm).host ≡ (w.room_at rm).host
host-detach w rm u =
    ap (λ (r : Room). r.host) (detach-Becomes rm u w).room_is ∙ left_room-host w rm u

pub check_host-detach : (w : World) (rm u : ℕ) → check_host (detach rm u w) rm u ≡ check_host w rm u
unfolding check_host
check_host-detach w rm u = rw (
  host-detach w rm u,
  ap (λ f. f (w.room_at rm).host) (detach-Becomes rm u w).alive,
  detach-ids rm u w (w.room_at rm).host,
  detach-ids rm u w u,
)

pub mem-upgrade_all :
    (w : World) (h : ℕ) (us : List ℕ) → mem h (upgrade_all w us) ≡ true → w.alive h ≡ true
unfolding upgrade_all mem
mem-upgrade_all w h [] m = cc
mem-upgrade_all w h (u ∷ us) m = elim (Bool-cases (nat_beq u h)) [
  | inl same ↦
      let alike : w.alive u ≡ w.alive h = ap w.alive ((==_iff u h).0 same) in
      ground (arith, alike, mem-upgrade_all w h us)
  | inr differ ↦ ground (arith, mem-upgrade_all w h us)
]

pub other_id :
    (w : World) (rm u : ℕ)
    → HasHost w rm
    → check_host w rm u ≡ false
    → ((w.user_at (w.room_at rm).host).id == (w.user_at u).id) ≡ false
unfolding check_host
other_id w rm u h no_host =
    let here =
      mem-upgrade_all w (w.room_at rm).host (w.room_at rm).users (unfold users in h.host_listed) in
    ground (arith, here)

-- A host who stays is still a live user of the room.
pub HasHost-detach :
    (w : World) (rm u : ℕ) → HasHost w rm → check_host w rm u ≡ false → HasHost (detach rm u w) rm
HasHost-detach w rm u h no_host = record {
  host_listed = rw (host-detach w rm u, users-detach w rm u) listed;
}
  where
    listed : mem (w.room_at rm).host (upgrade_all w (left_room w rm u).users) ≡ true
    listed = elim (Bool-cases (w.user_at u).monitor) [
      | inl flag ↦ rw (left_room-users_monitor w rm u flag) (unfold users in h.host_listed)
      | inr flag ↦ rw (left_room-users w rm u flag) (
          retained_mem w _ _ (w.room_at rm).users (other_id w rm u h no_host)
            (unfold users in h.host_listed))
    ]

-- Whoever left by its own list is no live user of the room.
pub gone-detach :
    (w : World) (rm u : ℕ)
    → (w.user_at u).monitor ≡ false
    → has_id w (w.user_at u).id (users (detach rm u w) rm) ≡ false
gone-detach w rm u flag =
    rw (users-detach w rm u, left_room-users w rm u flag)
      (retained_gone w (w.user_at u).id (w.room_at rm).users)
