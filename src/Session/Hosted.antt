-- ===== src/Session/Hosted.antt =====
-- What no command does to a room that has a host among its live users.
pub mod Rooms
pub mod Games
pub mod Whole
use phira_mp.Common.{
  ℕ, ◌≡◌, inl, inr, refl, sym, ap, ◌∙◌, Bool, true, false, Option, none, some, List, [], ◌∷◌, ◌++◌,
  ◌||◌, ◌==◌, ==_iff, Bool-cases, Option-cases, arith,
}
use phira_mp.Bin.Data.{Outcome, success, failure}
use phira_mp.World.{Room, World, Run, returns, set_room, set_user, User}
use phira_mp.Room.{users, upgrade_all, reset_game_time}
use phira_mp.Room.Frame.{
  Quiet, Becomes, Becomes-refl, Becomes-reset, Becomes-Local, Becomes-users, Local,
  upgrade_all-alive, update_self, update_other,
}
use phira_mp.Room.Host.{mem, HasHost, Becomes-HasHost}
use phira_mp.Session.Handler.{Failure, H, ◌>>=◌, require, get_room, no_room}

-- The map of rooms is the same, and every room that had a host has one.
pub record Steady (w w' : World) : Type 0 where
  pub hosts : (q : ℕ) → HasHost w q → HasHost w' q
  pub rooms : w'.rooms ≡ w.rooms

pub Steady-refl : (w : World) → Steady w w
Steady-refl w = record { hosts = λ q h. h; rooms = refl }

pub Steady-trans : {a b c : World} → Steady a b → Steady b c → Steady a c
Steady-trans p q = record { hosts = λ r h. q.hosts r (p.hosts r h); rooms = q.rooms ∙ p.rooms }

-- Another room than the one that was changed.
pub HasHost-apart :
    {w w' : World} (q : ℕ)
    → w'.room_at q ≡ w.room_at q
    → w'.alive ≡ w.alive
    → HasHost w q
    → HasHost w' q
unfolding users
HasHost-apart {w} {w'} q same alive h = record {
  host_listed =
      ap (λ (r : Room). mem r.host (upgrade_all w' r.users)) same
      ∙ ap (mem (w.room_at q).host) (upgrade_all-alive w w' (w.room_at q).users alive)
      ∙ h.host_listed;
}

pub HasHost-elsewhere :
    {w w' : World} {rm : ℕ}
    → Local w w' rm
    → (q : ℕ) → (q == rm) ≡ false
    → HasHost w q
    → HasHost w' q
HasHost-elsewhere l q apart h = HasHost-apart q (l.elsewhere q apart) l.alive h

pub Local-Steady :
    {w w' : World} {rm : ℕ} → Local w w' rm → (HasHost w rm → HasHost w' rm) → Steady w w'
Local-Steady {w} {w'} {rm} l keeps = record {
  hosts = λ q h. elim (Bool-cases (q == rm)) [
    | inl here ↦ let e = (==_iff q rm).0 here in rw e (keeps (rw (← e) h))
    | inr apart ↦ HasHost-elsewhere l q apart h
  ];
  rooms = l.rooms;
}

pub Becomes-Steady :
    {w w' : World} {rm : ℕ} {room : Room}
    → Becomes w w' rm room
    → room.users ≡ (w.room_at rm).users
    → room.host ≡ (w.room_at rm).host
    → Steady w w'
Becomes-Steady {w} {w'} {rm} b same_users same_host =
    Local-Steady (Becomes-Local b)
      (λ h. Becomes-HasHost b same_users (ap (λ x. mem x (users w rm)) same_host ∙ h.host_listed))

pub set_room-Becomes : (rm : ℕ) (room : Room) (w : World) → Becomes w (set_room rm room w) rm room
set_room-Becomes rm room w = record {
  room_is = update_self w.room_at rm room;
  alive = refl;
  elsewhere = λ v apart. update_other w.room_at rm v room apart;
  rooms = refl;
}

pub set_room-Steady :
    (rm : ℕ) (room : Room) (w : World)
    → room.users ≡ (w.room_at rm).users
    → room.host ≡ (w.room_at rm).host
    → Steady w (set_room rm room w)
set_room-Steady rm room w same_users same_host =
    Becomes-Steady (set_room-Becomes rm room w) same_users same_host

pub Quiet-Steady : {w w' : World} → Quiet w w' → Steady w w'
Quiet-Steady {w} {w'} q =
    let b : Becomes w w' 0 (w.room_at 0) = record {
      room_is = ap (λ f. f 0) q.room_at;
      alive = q.alive;
      elsewhere = λ v apart. ap (λ f. f v) q.room_at;
      rooms = q.rooms;
    } in
    Becomes-Steady b refl refl

pub set_user-Steady : (u : ℕ) (user : User) (w : World) → Steady w (set_user u user w)
set_user-Steady u user w =
    let b : Becomes w (set_user u user w) 0 (w.room_at 0) = record {
      room_is = refl;
      alive = refl;
      elsewhere = λ v apart. refl;
      rooms = refl;
    } in
    Becomes-Steady b refl refl

pub reset_game_time-Steady : (rm : ℕ) (w : World) → Steady w (reset_game_time rm w)
reset_game_time-Steady rm w = Becomes-Steady (Becomes-reset (Becomes-refl w rm)) refl refl

-- A run that started at `w` returns, and keeps the hosts.
abbrev pub Serves : {A : Type 0} → World → Run A → Type 0
Serves {A} w r = (a : A) × (w' : World) × (r ≡ returns a w') × Steady w w'

pub ended : {A : Type 0} (w w' : World) (a : A) → Steady w w' → Serves w (returns a w')
ended w w' a s = (a, w', refl, s)

-- Rules for the steps of a handler that do not compute away.
module _ {A : Type 0} (w0 w : World) where
  pub required :
      (b : Bool) (e : Failure) (k : Unit → H A)
      → Steady w0 w
      → Serves w0 (k tt w)
      → Serves w0 ((require b e >>= k) w)
  required true e k s h = h
  required false e k s h = ended w0 w (failure e) s

  pub room_step :
      (u : ℕ) (k : ℕ → H A)
      → Steady w0 w
      → ((rm : ℕ) → (w.user_at u).room ≡ some rm → Serves w0 (k rm w))
      → Serves w0 ((get_room u >>= k) w)
  unfolding get_room
  room_step u k s h = elim (Option-cases (w.user_at u).room) [
    | inl e ↦ rw (e, get_room, ◌>>=◌) (ended {A = Outcome A Failure} w0 w (failure no_room) s)
    | inr (rm, e) ↦ rw (e, get_room, ◌>>=◌) (h rm e)
  ]
