-- ===== src/Server/Lost.antt =====
-- Lost connections: the heartbeat task of `Session::new`, the task of `Server::from` that handles
-- them, and `User::dangle` with the task that it spawns.
use phira_mp.Common.{
  ℕ, ◌+◌, Bool, true, false, ◌&&◌, ◌||◌, none, some, [], ◌∷◌, ◌++◌, leb, ◌==◌, if◌then◌else◌,
}
use phira_mp.Common.Eq.{int_eq}
use phira_mp.Common.Maps.{remove}
use phira_mp.Command.Types.{room_id_eq}
use phira_mp.World.{
  InternalRoomState, select_chart, wait_for_ready, playing, World, set_user, returns, panics,
}
use phira_mp.Room.Turn.{on_user_leave}
use phira_mp.Session.Rooms.{drop_room}
use phira_mp.Server.{
  Services, Timer, Server, heartbeat_disconnect_timeout, update_conn, set_world, mem, remove_one,
  is_user, holds_session,
}

-- The heartbeat task wakes up too late for the last packet. A session that is dropped stops it.
unfoldable pub is_overdue : Server → ℕ → Bool
unfolding holds_session
is_overdue sv s =
    let c = sv.conn_at s in
    c.beating
    && (leb (c.last_recv + heartbeat_disconnect_timeout) sv.clock
        && (holds_session sv s || elim c.user [ none ↦ true | some u ↦ false ]))

unfoldable pub mark_lost : ℕ → Server → Server
mark_lost s sv =
    update_conn s (λ c. record c { beating = false })
      (record sv { lost_con = sv.lost_con ++ (s ∷ []) })

abbrev pub is_playing : InternalRoomState → Bool
is_playing select_chart = false
is_playing (wait_for_ready started) = false
is_playing (playing results out) = true

-- The user goes off the map and leaves its room. A panic ends the task: `died` says what that is.
unfoldable pub abandon : Services → (Server → Server) → ℕ → ℕ → Server → Server
unfolding drop_room
abandon services died u rm sv =
    let w = record sv.world { users = remove (sv.world.user_at u).id sv.world.users } in
    elim (on_user_leave services.env rm u w) [
      | returns drop w' ↦ set_world (drop_room rm drop w') sv
      | panics w' ↦ died (set_world w' sv)
    ]

-- The user is marked, and a task looks at the mark ten seconds later.
unfoldable pub mark_dangling : ℕ → Server → Server
mark_dangling u sv =
    let m = sv.next_mark in
    let w = set_user u (record (sv.world.user_at u) { dangle_mark = some m }) sv.world in
    let timer : Timer = record { mark = m; user = u; due = sv.clock + 10 } in
    record sv { world = w; timers = timer ∷ sv.timers; next_mark = m + 1 }

abbrev pub stop_handling : Server → Server
stop_handling sv = record sv { handling = false }

-- `User::dangle`
unfoldable pub dangle : Services → ℕ → Server → Server
unfolding abandon mark_dangling
dangle services u sv = elim (sv.world.user_at u).room [
  | none ↦ mark_dangling u sv
  | some rm ↦
      if is_playing (sv.world.room_at rm).state
      then abandon services stop_handling u rm sv
      else mark_dangling u sv
]

-- The user's session is still this one, and not one that it reconnected by.
unfoldable pub dangle_if_last : Services → ℕ → ℕ → Server → Server
unfolding dangle
dangle_if_last services s u sv = elim (sv.world.user_at u).session [
  | none ↦ sv
  | some t ↦ if t == s then dangle services u sv else sv
]

unfoldable pub lose : Services → ℕ → Server → Server
unfolding dangle_if_last mem remove_one
lose services s sv =
    if mem s sv.sessions
    then elim (sv.conn_at s).user [
      | none ↦ record sv { sessions = remove_one s sv.sessions }
      | some u ↦ dangle_if_last services s u (record sv { sessions = remove_one s sv.sessions })
    ]
    else sv

-- `Arc::strong_count(&dangle_mark) > 1`: the user still has this mark.
unfoldable pub has_mark : World → Timer → Bool
has_mark w t = is_user t.mark (w.user_at t.user).dangle_mark

-- The task that `dangle` spawned, once its time is over. It ends with this, and so does its panic.
unfoldable pub expire : Services → Timer → Server → Server
unfolding has_mark abandon
expire services t sv = elim (sv.world.user_at t.user).room [
  | none ↦ sv
  | some rm ↦ if has_mark sv.world t then abandon services (λ x. x) t.user rm sv else sv
]
