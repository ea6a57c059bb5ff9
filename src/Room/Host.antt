-- ===== src/Room/Host.antt =====
-- A room whose host is one of its live users.
use phira_mp.Common.{
  ℕ, zero, suc, ◌≡◌, ap, ◌∙◌, Bool, true, false, some, List, [], ◌∷◌, get_elem?, arith, ◌||◌,
  ◌==◌ as nat_beq,
}
use phira_mp.World.{Room, World}
use phira_mp.Room.{users}
use phira_mp.Room.Frame.{Becomes, Becomes-users}

unfoldable pub mem : ℕ → List ℕ → Bool
mem h [] = false
mem h (u ∷ us) = nat_beq u h || mem h us

-- The host is a live user of the room.
pub record HasHost (w : World) (rm : ℕ) : Type 0 where
  pub host_listed : mem (w.room_at rm).host (users w rm) ≡ true

pub mem-get_elem? : (us : List ℕ) (i h : ℕ) → get_elem? us i ≡ some h → mem h us ≡ true
unfolding mem
mem-get_elem? [] i h e = cc
mem-get_elem? (u ∷ us) zero h e = ground arith
mem-get_elem? (u ∷ us) (suc i) h e = ground (arith, mem-get_elem? us i h e)

pub Becomes-HasHost :
    {w w' : World} {rm : ℕ} {room : Room}
    → Becomes w w' rm room
    → room.users ≡ (w.room_at rm).users
    → mem room.host (users w rm) ≡ true
    → HasHost w' rm
Becomes-HasHost {w} {w'} {rm} b same listed = record {
  host_listed =
      ap (λ (r : Room). mem r.host (users w' rm)) b.room_is
      ∙ ap (mem _) (Becomes-users b same)
      ∙ listed;
}
