-- ===== src/Server/Outdated/Lost.antt =====
-- The handling of lost connections gives new marks only.
use phira_mp.Common.{ℕ, Bool, Bool-cases, Option-cases, inl, inr, ◌==◌, arith}
use phira_mp.Common.Eq.{int_eq}
use phira_mp.Common.Maps.{remove}
use phira_mp.World.{Run, returns, panics}
use phira_mp.Room.Turn.{on_user_leave}
use phira_mp.Session.Rooms.{drop_room}
use phira_mp.Session.Tame.{final}
use phira_mp.Session.Tame.Rooms.{on_user_leave-Tame}
use phira_mp.Session.Tame.Commands.{drop_room-Tame}
use phira_mp.Server.{Services, Timer, Server, set_world, mem, remove_one}
use phira_mp.Server.Lost.{
  is_playing, has_mark, abandon, mark_dangling, stop_handling, dangle, dangle_if_last, lose, expire,
}
use phira_mp.Server.Outdated.{Free, Outdated, Tame-Free, set_user-Free}

module _ (services : Services) (m v : ℕ) where
  abandon-Outdated :
      (died : Server → Server)
      → ((sv : Server) → Outdated m v sv → Outdated m v (died sv))
      → (u rm : ℕ) (sv : Server) → Outdated m v sv
      → Outdated m v (abandon services died u rm sv)
  unfolding abandon
  abandon-Outdated died mild u rm sv n =
      let w = record sv.world { users = remove (sv.world.user_at u).id sv.world.users } in
      ended (on_user_leave services.env rm u w)
        (Tame-Free m v (on_user_leave-Tame services.env rm u w) n.1)
    where
      ended :
          (r : Run Bool)
          → Free m v (final r)
          → Outdated m v (elim r as (λ _. Server) [
            | returns drop w' ↦ set_world (drop_room rm drop w') sv
            | panics w' ↦ died (set_world w' sv)
          ])
      ended (returns drop w') f = (n.0, Tame-Free m v (drop_room-Tame u rm drop w') f)
      ended (panics w') f = mild (set_world w' sv) (n.0, f)

  -- The mark that is given is a new one.
  mark_dangling-Outdated :
      (u : ℕ) (sv : Server) → Outdated m v sv → Outdated m v (mark_dangling u sv)
  unfolding mark_dangling
  mark_dangling-Outdated u sv n =
      let past = n.0 in
      (omega (arith, past), set_user-Free m v u _ sv.world (ground (arith, past)) n.1)

  dangle-Outdated : (u : ℕ) (sv : Server) → Outdated m v sv → Outdated m v (dangle services u sv)
  unfolding dangle
  dangle-Outdated u sv n = elim (Option-cases (sv.world.user_at u).room) [
    | inl e ↦ rw (e, dangle) (mark_dangling-Outdated u sv n)
    | inr (rm, e) ↦ elim (Bool-cases (is_playing (sv.world.room_at rm).state)) [
      | inl p ↦ rw (e, dangle) (rw p (abandon-Outdated stop_handling (λ t x. x) u rm sv n))
      | inr p ↦ rw (e, dangle) (rw p (mark_dangling-Outdated u sv n))
    ]
  ]

  dangle_if_last-Outdated :
      (s u : ℕ) (sv : Server) → Outdated m v sv → Outdated m v (dangle_if_last services s u sv)
  unfolding dangle_if_last
  dangle_if_last-Outdated s u sv n = elim (Option-cases (sv.world.user_at u).session) [
    | inl e ↦ rw (e, dangle_if_last) n
    | inr (t, e) ↦ elim (Bool-cases (t == s)) [
      | inl same ↦ rw (e, dangle_if_last) (rw same (dangle-Outdated u sv n))
      | inr other ↦ rw (e, dangle_if_last) (rw other n)
    ]
  ]

  pub lose-Outdated : (s : ℕ) (sv : Server) → Outdated m v sv → Outdated m v (lose services s sv)
  unfolding lose
  lose-Outdated s sv n = elim (Bool-cases (mem s sv.sessions)) [
    | inr absent ↦ rw absent n
    | inl listed ↦ elim (Option-cases (sv.conn_at s).user) [
      | inl e ↦ rw (listed, e) n
      | inr (u, e) ↦
          rw (listed, e)
            (dangle_if_last-Outdated s u (record sv { sessions = remove_one s sv.sessions }) n)
    ]
  ]

  pub expire-Outdated :
      (t : Timer) (sv : Server) → Outdated m v sv → Outdated m v (expire services t sv)
  unfolding expire
  expire-Outdated t sv n = elim (Option-cases (sv.world.user_at t.user).room) [
    | inl e ↦ rw (e, expire) n
    | inr (rm, e) ↦ elim (Bool-cases (has_mark sv.world t)) [
      | inl marked ↦
          rw (e, expire) (rw marked (abandon-Outdated (λ x. x) (λ x y. y) t.user rm sv n))
      | inr free ↦ rw (e, expire) (rw free n)
    ]
  ]
