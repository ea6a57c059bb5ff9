-- ===== src/Server/Expiry.antt =====
-- What becomes of a user whose connection is lost and that does not come back.
use phira_mp.Common.{◌⊎◌, ℕ, ◌+◌, ◌≡◌, refl, none, some, List, ==_iff}
use phira_mp.Common.Eq.{int_eq}
use phira_mp.Common.Maps.{lookup}
use phira_mp.World.{World}
use phira_mp.Server.{remove_one, Services, Timer, Server}
use phira_mp.Server.Lost.{mark_dangling, dangle, expire}
use phira_mp.Server.Steps.{step, tick, wake}

module _ (services : Services) where
  module _ (u : ℕ) (sv : Server) where
    -- The task that `dangle` spawns, if it does.
    abbrev pub timer_of : Timer
    timer_of = record { mark = sv.next_mark; user = u; due = sv.clock + 10 }

    -- A user in no room loses its connection. The map of users stays as it was, and the task that
    -- `dangle` spawned does nothing.
    pub dangle-stays :
        (sv.world.user_at u).room ≡ none
        → ((dangle services u sv).world.users ≡ sv.world.users)
          × (expire services timer_of (dangle services u sv) ≡ dangle services u sv)
    unfolding dangle mark_dangling expire
    dangle-stays e =
        let self : ((mark_dangling u sv).world.user_at u).room ≡ none =
          rw ((==_iff u u).1 refl) e in
        (rw (e, dangle) refl, rw (e, dangle) (rw (self, expire) refl))

  module _ (s u : ℕ) (queue : List ℕ) (sv : Server) where
    -- The connection is taken off the queue and the map of sessions.
    abbrev unlisted : Server
    unlisted = record sv { lost_con = queue; sessions = remove_one s sv.sessions }

    -- What happens when the user does not come back: nobody is on the map under its id, at once or
    -- once ten seconds are over, and not before that.
    abbrev pub IsTakenOff : ℕ → ℕ → Server → Type 0
    IsTakenOff j k sv1 =
        (lookup (sv.world.user_at u).id sv1.world.users ≡ none)
        ⊎ ((early : Server) × (late : Server) × (sv2 : Server) × (step services (tick j) sv1
              ≡ some early)
            × (step services (wake sv.next_mark) early ≡ none)
            × (step services (tick k) sv1 ≡ some late)
            × (step services (wake sv.next_mark) late ≡ some sv2)
            × (lookup (sv.world.user_at u).id sv2.world.users ≡ none))
