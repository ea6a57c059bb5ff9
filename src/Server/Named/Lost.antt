-- ===== src/Server/Named/Lost.antt =====
-- The handling of lost connections keeps each user under its own id.
use phira_mp.Common.{ℕ, refl, Bool, Bool-cases, Option-cases, inl, inr, ◌==◌}
use phira_mp.Common.Eq.{int_eq}
use phira_mp.Common.Maps.{remove}
use phira_mp.World.{Run, returns, panics}
use phira_mp.Room.Turn.{on_user_leave}
use phira_mp.Session.Rooms.{drop_room}
use phira_mp.Session.Tame.{final}
use phira_mp.Session.Tame.Rooms.{on_user_leave-Tame}
use phira_mp.Session.Tame.Commands.{drop_room-Tame}
use phira_mp.Server.{Services, Timer, Server, set_world, mem, remove_one}
use phira_mp.Server.Lost.{
  is_playing, has_mark, abandon, mark_dangling, stop_handling, dangle, dangle_if_last, lose, expire,
}
use phira_mp.Server.Named.{Named, Tame-Named, set_user-Named, remove-Named}

module _ (services : Services) where
  abandon-Named :
      (died : Server → Server)
      → ((sv : Server) → Named sv.world → Named (died sv).world)
      → (u rm : ℕ) (sv : Server) → Named sv.world
      → Named (abandon services died u rm sv).world
  unfolding abandon
  abandon-Named died mild u rm sv n =
      let w = record sv.world { users = remove (sv.world.user_at u).id sv.world.users } in
      ended (on_user_leave services.env rm u w) (
        Tame-Named (on_user_leave-Tame services.env rm u w)
          (remove-Named (sv.world.user_at u).id sv.world n))
    where
      ended :
          (r : Run Bool)
          → Named (final r)
          → Named
              (elim r as (λ _. Server) [
                | returns drop w' ↦ set_world (drop_room rm drop w') sv
                | panics w' ↦ died (set_world w' sv)
              ]).world
      ended (returns drop w') m = Tame-Named (drop_room-Tame u rm drop w') m
      ended (panics w') m = mild (set_world w' sv) m

  mark_dangling-Named : (u : ℕ) (sv : Server) → Named sv.world → Named (mark_dangling u sv).world
  unfolding mark_dangling
  mark_dangling-Named u sv n = set_user-Named u _ sv.world refl n

  dangle-Named : (u : ℕ) (sv : Server) → Named sv.world → Named (dangle services u sv).world
  unfolding dangle
  dangle-Named u sv n = elim (Option-cases (sv.world.user_at u).room) [
    | inl e ↦ rw (e, dangle) (mark_dangling-Named u sv n)
    | inr (rm, e) ↦ elim (Bool-cases (is_playing (sv.world.room_at rm).state)) [
      | inl p ↦ rw (e, dangle) (rw p (abandon-Named stop_handling (λ t m. m) u rm sv n))
      | inr p ↦ rw (e, dangle) (rw p (mark_dangling-Named u sv n))
    ]
  ]

  dangle_if_last-Named :
      (s u : ℕ) (sv : Server) → Named sv.world → Named (dangle_if_last services s u sv).world
  unfolding dangle_if_last
  dangle_if_last-Named s u sv n = elim (Option-cases (sv.world.user_at u).session) [
    | inl e ↦ rw (e, dangle_if_last) n
    | inr (t, e) ↦ elim (Bool-cases (t == s)) [
      | inl same ↦ rw (e, dangle_if_last) (rw same (dangle-Named u sv n))
      | inr other ↦ rw (e, dangle_if_last) (rw other n)
    ]
  ]

  pub lose-Named : (s : ℕ) (sv : Server) → Named sv.world → Named (lose services s sv).world
  unfolding lose
  lose-Named s sv n = elim (Bool-cases (mem s sv.sessions)) [
    | inr absent ↦ rw absent n
    | inl listed ↦ elim (Option-cases (sv.conn_at s).user) [
      | inl e ↦ rw (listed, e) n
      | inr (u, e) ↦
          rw (listed, e)
            (dangle_if_last-Named s u (record sv { sessions = remove_one s sv.sessions }) n)
    ]
  ]

  pub expire-Named : (t : Timer) (sv : Server) → Named sv.world → Named (expire services t sv).world
  unfolding expire
  expire-Named t sv n = elim (Option-cases (sv.world.user_at t.user).room) [
    | inl e ↦ rw (e, expire) n
    | inr (rm, e) ↦ elim (Bool-cases (has_mark sv.world t)) [
      | inl marked ↦ rw (e, expire) (rw marked (abandon-Named (λ x. x) (λ x m. m) t.user rm sv n))
      | inr free ↦ rw (e, expire) (rw free n)
    ]
  ]
