-- ===== src/Server/Outdated.antt =====
-- Marks that `dangle` gave out before: no step gives such a mark to a user that does not have it.
pub mod Packets
pub mod Lost
pub mod Reached
use phira_mp.Common.{
  ℕ, ◌+◌, ◌<◌, ◌≡◌, refl, sym, ap, ◌∙◌, false, ◌==◌, ==_iff, if◌then◌else◌, Bool-cases, inl, inr,
  arith,
}
use phira_mp.World.{User, World, set_user}
use phira_mp.Session.Tame.{Tame, Identity, identity}
use phira_mp.Server.{Server, is_user}

-- The user at `v` does not have the mark `m`.
abbrev pub Free : ℕ → ℕ → World → Type 0
Free m v w = is_user m (w.user_at v).dangle_mark ≡ false

-- Moreover the mark was given out before.
abbrev pub Outdated : ℕ → ℕ → Server → Type 0
Outdated m v sv = (m < sv.next_mark) × Free m v sv.world

pub Tame-Free : (m v : ℕ) {w w' : World} → Tame w w' → Free m v w → Free m v w'
unfolding identity
Tame-Free m v t f = ap (λ (i : Identity). is_user m i.dangle_mark) (t.same v) ∙ f

-- A user is set that does not have the mark.
pub set_user-Free :
    (m v u : ℕ) (user : User) (w : World)
    → is_user m user.dangle_mark ≡ false
    → Free m v w
    → Free m v (set_user u user w)
set_user-Free m v u user w e f = elim (Bool-cases (v == u)) [
  | inl here ↦ rw here e
  | inr apart ↦ rw apart f
]
