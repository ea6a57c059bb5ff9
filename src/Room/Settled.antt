-- ===== src/Room/Settled.antt =====
-- `check_all_ready` brings a room to rest.
use phira_mp.Common.{
  ℕ, ◌≡◌, ◌≢◌, inl, inr, refl, sym, ap, ◌∙◌, Bool, false, List, [], ◌∷◌, ◌++◌, Bool-cases,
}
use phira_mp.Common.Int.{ℤ}
use phira_mp.World.{
  Record, InternalRoomState, select_chart, wait_for_ready, playing, Room, World, Run, returns,
}
use phira_mp.Common.Maps.{lookup}
use phira_mp.Room.{users, monitors, contains, contains_key, all_started, all_finished}
use phira_mp.Room.Turn.{start_game, check_state, check_all_ready}
use phira_mp.Room.Frame.{Becomes-users, Local, Local-refl, Becomes-Local}
use phira_mp.Room.Host.{HasHost, Becomes-HasHost}
use phira_mp.Room.Succession.{start_game-Becomes, end_game-Becomes}

-- A game that everybody in the room is ready for, or that every player has finished.
unfoldable pub is_due_in : World → ℕ → InternalRoomState → Bool
is_due_in w rm select_chart = false
is_due_in w rm (wait_for_ready started) = all_started w started (users w rm ++ monitors w rm)
is_due_in w rm (playing results out) = all_finished w results out (users w rm)

unfoldable pub is_due : World → ℕ → Bool
unfolding is_due_in
is_due w rm = is_due_in w rm (w.room_at rm).state

fresh_game : (w : World) (us : List ℕ) → us ≢ [] → all_finished w [] [] us ≡ false
unfolding all_finished contains_key contains lookup
fresh_game w [] some_user = absurd (some_user refl)
fresh_game w (u ∷ us) some_user = refl

is_due_by :
    (w : World) (rm : ℕ) (st : InternalRoomState)
    → (w.room_at rm).state ≡ st
    → is_due w rm ≡ is_due_in w rm st
unfolding is_due
is_due_by w rm st e = rw e

-- What `check_all_ready` promises: it returns, and leaves the room with its users and at rest.
abbrev Settles : (World → Run (Unit {0})) → ℕ → World → Type 0
Settles step rm w =
    (w' : World) × (step w ≡ returns tt w')
    × (is_due w' rm ≡ false)
    × (users w' rm ≡ users w rm)
    × Local w w' rm
    × (HasHost w rm → HasHost w' rm)

waiting-Settles :
    (rm : ℕ) (started : List ℤ) (w : World)
    → (w.room_at rm).state ≡ wait_for_ready started
    → users w rm ≢ []
    → Settles (check_state rm (wait_for_ready started)) rm w
unfolding check_state
waiting-Settles rm started w e some_user =
    elim (Bool-cases (all_started w started (users w rm ++ monitors w rm))) [
      | inr wait ↦
          (w, rw wait, is_due_by w rm _ e ∙ unfold is_due_in in wait, refl, Local-refl w rm, λ h. h)
      | inl go ↦
          let b = start_game-Becomes rm w in
          let same : users (start_game rm w) rm ≡ users w rm = Becomes-users b refl in
          let rest =
            is_due_by (start_game rm w) rm (playing [] []) (ap (λ (r : Room). r.state) b.room_is) in
          (
            start_game rm w,
            rw go,
            rest ∙ unfold is_due_in in (fresh_game _ _ (λ q. some_user (sym same ∙ q))),
            same,
            Becomes-Local b,
            λ h. Becomes-HasHost b refl h.host_listed,
          )
    ]

playing-Settles :
    (rm : ℕ) (results : List (ℤ × Record)) (out : List ℤ) (w : World)
    → (w.room_at rm).state ≡ playing results out
    → users w rm ≢ []
    → Settles (check_state rm (playing results out)) rm w
unfolding check_state
playing-Settles rm results out w e some_user =
    elim (Bool-cases (all_finished w results out (users w rm))) [
      | inr wait ↦
          (w, rw wait, is_due_by w rm _ e ∙ unfold is_due_in in wait, refl, Local-refl w rm, λ h. h)
      | inl go ↦
          let (w', host, run, b, keeps) = end_game-Becomes rm w some_user in
          (
            w',
            rw go run,
            is_due_by w' rm select_chart (ap (λ (r : Room). r.state) b.room_is)
                ∙ unfold is_due_in in refl,
            Becomes-users b refl,
            Becomes-Local b,
            λ h. Becomes-HasHost b refl (keeps h),
          )
    ]

state-Settles :
    (rm : ℕ) (st : InternalRoomState) (w : World)
    → (w.room_at rm).state ≡ st
    → users w rm ≢ []
    → Settles (check_state rm st) rm w
state-Settles rm select_chart w e some_user = (
  w,
  unfold check_state in refl,
  is_due_by w rm _ e ∙ unfold is_due_in in refl,
  refl,
  Local-refl w rm,
  λ h. h,
)
state-Settles rm (wait_for_ready started) w e some_user = waiting-Settles rm started w e some_user
state-Settles rm (playing results out) w e some_user = playing-Settles rm results out w e some_user

-- In a room with a live user `check_all_ready` does not panic. After it, the room's live users are
-- the same, nothing has changed but this room and what `Local` does not name, the room is not waiting for users who are all ready, nor for players who have all
-- finished, and if its host was one of its live users, its host is one of them.
pub check_all_ready-Settles :
    (rm : ℕ) (w : World)
    → users w rm ≢ []
    → (w' : World) × (check_all_ready rm w ≡ returns tt w')
      × (is_due w' rm ≡ false)
      × (users w' rm ≡ users w rm)
      × Local w w' rm
      × (HasHost w rm → HasHost w' rm)
unfolding check_all_ready
check_all_ready-Settles rm w some_user = state-Settles rm (w.room_at rm).state w refl some_user
