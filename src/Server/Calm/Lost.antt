-- ===== src/Server/Calm/Lost.antt =====
-- What the handling of lost connections leaves alone.
use phira_mp.Common.{ℕ, refl, Bool, ◌==◌, Bool-cases, Option-cases, inl, inr}
use phira_mp.World.{Run, returns, panics}
use phira_mp.Room.Turn.{on_user_leave}
use phira_mp.Session.Rooms.{drop_room}
use phira_mp.Server.{Services, Timer, Server, set_world}
use phira_mp.Server.Lost.{
  is_playing, has_mark, abandon, mark_dangling, stop_handling, dangle, dangle_if_last, expire,
}
use phira_mp.Server.Calm.{Calm, Calm-refl, Calm-trans, Calm-set_world}

module _ (services : Services) where
  abandon-Calm :
      (died : Server → Server)
      → ((sv : Server) → Calm sv (died sv))
      → (u rm : ℕ) (sv : Server) → Calm sv (abandon services died u rm sv)
  unfolding abandon
  abandon-Calm died mild u rm sv = ended (on_user_leave services.env rm u _)
    where
      ended :
          (r : Run Bool)
          → Calm sv (elim r [
            | returns drop w' ↦ set_world (drop_room rm drop w') sv
            | panics w' ↦ died (set_world w' sv)
          ])
      ended (returns drop w') = Calm-set_world _ sv
      ended (panics w') = Calm-trans (Calm-set_world w' sv) (mild _)

  mark_dangling-Calm : (u : ℕ) (sv : Server) → Calm sv (mark_dangling u sv)
  unfolding mark_dangling
  mark_dangling-Calm u sv = record { accepting = refl; sessions = refl; no_tx = λ t h. h }

  stop_handling-Calm : (sv : Server) → Calm sv (stop_handling sv)
  stop_handling-Calm sv = record { accepting = refl; sessions = refl; no_tx = λ t h. h }

  dangle-Calm : (u : ℕ) (sv : Server) → Calm sv (dangle services u sv)
  unfolding dangle
  dangle-Calm u sv = elim (Option-cases (sv.world.user_at u).room) [
    | inl e ↦ rw (e, dangle) (mark_dangling-Calm u sv)
    | inr (rm, e) ↦ elim (Bool-cases (is_playing (sv.world.room_at rm).state)) [
      | inl p ↦ rw (e, dangle) (rw p (abandon-Calm stop_handling stop_handling-Calm u rm sv))
      | inr p ↦ rw (e, dangle) (rw p (mark_dangling-Calm u sv))
    ]
  ]

  pub dangle_if_last-Calm : (s u : ℕ) (sv : Server) → Calm sv (dangle_if_last services s u sv)
  unfolding dangle_if_last
  dangle_if_last-Calm s u sv = elim (Option-cases (sv.world.user_at u).session) [
    | inl e ↦ rw (e, dangle_if_last) (Calm-refl sv)
    | inr (t, e) ↦ elim (Bool-cases (t == s)) [
      | inl same ↦ rw (e, dangle_if_last) (rw same (dangle-Calm u sv))
      | inr other ↦ rw (e, dangle_if_last) (rw other (Calm-refl sv))
    ]
  ]

  pub expire-Calm : (t : Timer) (sv : Server) → Calm sv (expire services t sv)
  unfolding expire
  expire-Calm t sv = elim (Option-cases (sv.world.user_at t.user).room) [
    | inl e ↦ rw (e, expire) (Calm-refl sv)
    | inr (rm, e) ↦ elim (Bool-cases (has_mark sv.world t)) [
      | inl marked ↦ rw (e, expire) (rw marked (abandon-Calm (λ x. x) Calm-refl t.user rm sv))
      | inr free ↦ rw (e, expire) (rw free (Calm-refl sv))
    ]
  ]
