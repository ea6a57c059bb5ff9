-- ===== src/Session/Guards.antt =====
-- session.rs: commands that only a host may give, and the states that they are given in.
use phira_mp.Common.{
  ℕ, ◌≡◌, inl, inr, refl, sym, ◌∙◌, ap, Bool, true, false, not, Option, none, some, Bool-cases,
  Option-cases,
}
use phira_mp.Common.Int.{ℤ}
use phira_mp.Common.Eq.{int_eq}
use phira_mp.Bin.Data.{success, failure}
use phira_mp.Command.Types.{room_id_eq}
use phira_mp.World.{World, Env, returns}
use phira_mp.Room.{check_host}
use phira_mp.Session.Handler.{Failure, no_room, invalid_state, only_host, H, ◌>>=◌, get_room}
use phira_mp.Session.Rooms.{require_host, lock_room, cycle_room, is_select_chart}
use phira_mp.Session.Game.{get_idle_room, select_chart_of, request_start}

-- The user is not in a room whose host it is.
unfoldable pub is_outside : World → ℕ → Option ℕ → Bool
is_outside w u none = true
is_outside w u (some rm) = not (check_host w rm u)

-- A command that comes to a failure and changes nothing.
abbrev pub Refuses : {A : Type 0} → H A → World → Type 0
Refuses m w = (e : Failure) × (m w ≡ returns (failure e) w)

not-true : (b : Bool) → not b ≡ true → b ≡ false
not-true true h = cc
not-true false h = refl

guest :
    (w : World) (u rm : ℕ)
    → (w.user_at u).room ≡ some rm
    → is_outside w u (w.user_at u).room ≡ true
    → check_host w rm u ≡ false
unfolding is_outside
guest w u rm e out = not-true _ (ap (is_outside w u) (sym e) ∙ out)

pub bind_succeeds :
    {A B : Type 0} (m : H A) (f : A → H B) {w w' : World} {a : A}
    → m w ≡ returns (success a) w'
    → (m >>= f) w ≡ f a w'
bind_succeeds m f h = rw (h, ◌>>=◌) refl

pub bind_fails :
    {A B : Type 0} (m : H A) (f : A → H B) {w w' : World} {e : Failure}
    → m w ≡ returns (failure e) w'
    → (m >>= f) w ≡ returns (failure e) w'
bind_fails m f h = rw (h, ◌>>=◌) refl

pub get_room-none :
    (u : ℕ) (w : World) → (w.user_at u).room ≡ none → get_room u w ≡ returns (failure no_room) w
unfolding get_room
get_room-none u w e = rw (e, get_room)

pub get_room-some :
    (u rm : ℕ) (w : World) → (w.user_at u).room ≡ some rm → get_room u w ≡ returns (success rm) w
unfolding get_room
get_room-some u rm w e = rw (e, get_room)

require_host_guest :
    (rm u : ℕ) (w : World)
    → check_host w rm u ≡ false
    → require_host rm u w ≡ returns (failure only_host) w
unfolding require_host
require_host_guest rm u w e = rw (e, require_host)

get_idle_room_busy :
    (u rm : ℕ) (w : World)
    → (w.user_at u).room ≡ some rm
    → is_select_chart (w.room_at rm).state ≡ false
    → get_idle_room u w ≡ returns (failure invalid_state) w
unfolding get_idle_room
get_idle_room_busy u rm w e busy = bind_succeeds (get_room u) _ (get_room-some u rm w e) ∙ rw busy

pub get_idle_room-some :
    (u rm : ℕ) (w : World)
    → (w.user_at u).room ≡ some rm
    → is_select_chart (w.room_at rm).state ≡ true
    → get_idle_room u w ≡ returns (success rm) w
unfolding get_idle_room
get_idle_room-some u rm w e idle = bind_succeeds (get_room u) _ (get_room-some u rm w e) ∙ rw idle

module _ (u : ℕ) (w : World) (out : is_outside w u (w.user_at u).room ≡ true) where
  host-Refuses :
      {A : Type 0} (next : ℕ → H A)
      → Refuses (get_room u >>= λ rm. require_host rm u >>= λ _. next rm) w
  host-Refuses next = elim (Option-cases (w.user_at u).room) [
    | inl e ↦ (no_room, bind_fails (get_room u) _ (get_room-none u w e))
    | inr (rm, e) ↦ (
      only_host,
      bind_succeeds (get_room u) _ (get_room-some u rm w e)
          ∙ bind_fails (require_host rm u) _ (require_host_guest rm u w (guest w u rm e out)),
    )
  ]

  idle-Refuses :
      {A : Type 0} (next : ℕ → H A)
      → Refuses (get_idle_room u >>= λ rm. require_host rm u >>= λ _. next rm) w
  unfolding get_idle_room
  idle-Refuses next = elim (Option-cases (w.user_at u).room) [
    | inl e ↦
        (no_room, bind_fails (get_idle_room u) _ (bind_fails (get_room u) _ (get_room-none u w e)))
    | inr (rm, e) ↦ elim (Bool-cases (is_select_chart (w.room_at rm).state)) [
      | inl idle ↦ (
        only_host,
        bind_succeeds (get_idle_room u) _ (get_idle_room-some u rm w e idle)
            ∙ bind_fails (require_host rm u) _ (require_host_guest rm u w (guest w u rm e out)),
      )
      | inr busy ↦
          (invalid_state, bind_fails (get_idle_room u) _ (get_idle_room_busy u rm w e busy))
    ]
  ]

  -- A user who is in no room, or in one that it is not the host of, has its commands to lock a room,
  -- to cycle hosts, to select a chart and to start a game refused: each ends in a failure, and
  -- nothing is changed or sent.
  pub host_commands-Refuses :
      (env : Env) (lock cycle : Bool) (chart : ℤ)
      → Refuses (lock_room u lock) w
        × Refuses (cycle_room u cycle) w
        × Refuses (select_chart_of env u chart) w
        × Refuses (request_start u) w
  unfolding lock_room cycle_room select_chart_of request_start
  host_commands-Refuses env lock cycle chart =
      (host-Refuses _, host-Refuses _, idle-Refuses _, idle-Refuses _)
