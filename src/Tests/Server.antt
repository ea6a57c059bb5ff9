-- ===== src/Tests/Server.antt =====
-- A server with two users, and a connection that is being accepted.
use phira_mp.Common.{
  ◌≤◌, ℕ, ◌+◌, ◌≡◌, refl, true, false, none, some, [], ◌∷◌, ◌==◌, if◌then◌else◌, arith,
}
use phira_mp.Common.Int.{pos}
use phira_mp.Common.Maps.{lookup}
use phira_mp.Common.Eq.{int_eq, beq→eq}
use phira_mp.Room.{new}
use phira_mp.Command.Types.{room_id_eq}
use phira_mp.Bin.Reader.{Bytes}
use phira_mp.Bin.Data.{success}
use phira_mp.Command.Types.{ClientCommand}
use phira_mp.World.{select_chart, set_user}
use phira_mp.Session.Process.{process}
use phira_mp.Session.Tame.{Tame, final}
use phira_mp.Session.Tame.Whole.{process-Tame}
use phira_mp.Server.{mem, Me, Services, Conn, Timer, Server, collect}
use phira_mp.Server.Authenticate.{receive}
use phira_mp.Server.Lost.{dangle, expire}
use phira_mp.Server.Expiry.{timer_of, dangle-stays}
use phira_mp.Server.Steps.{tick, packet, step, Reach, here, next}
use phira_mp.Server.Calm.{OneSender}
use phira_mp.Server.Sender.{Reach-OneSender}
use phira_mp.Server.Blocked.{is_of, none_of, run, silent_client-Calm}
use phira_mp.Server.Gate.{Untouched, is_accepted, receive-Untouched}
use phira_mp.Server.Named.{Named}
use phira_mp.Server.Named.Reached.{Reach-Named}
use phira_mp.Server.Vacant.{drawn, vacant_entry, all_used, vacant_entry-mem}
use phira_mp.Tests.Rooms.{env, game, world_in, lobby}

process-Tame_example : Tame game (final (process env 0 (ClientCommand.lock_room true) game))
process-Tame_example = process-Tame env 0 (ClientCommand.lock_room true) game

-- The web service knows every token as the user 1.
abbrev somebody : Me
somebody = record { id = pos 1; name = 65 ∷ []; language = [] }

abbrev services : Services
services = record { env = env; fetch_me = λ token. success somebody; parse_language = λ text. 0 }

abbrev conn : ℕ → Conn
conn s = record {
  greeted = true;
  tx = s == 9;
  waiting_for_authenticate = s == 9;
  panicked = false;
  receiving = true;
  beating = true;
  last_recv = 0;
  user = if s == 9 then none else some s;
}

-- The connection 9 has not authenticated yet.
abbrev waiting : Server
waiting = record {
  world = world_in select_chart;
  conn_at = conn;
  opened = 9 ∷ 1 ∷ 0 ∷ [];
  sessions = 1 ∷ 0 ∷ [];
  lost_con = [];
  handling = true;
  timers = [];
  next_mark = 0;
  clock = 0;
  accepting = some 9;
}

waiting-OneSender : OneSender waiting
waiting-OneSender = record { only = λ t other. ground arith }

abbrev later : Server
later = record waiting { clock = 0 + 20 }

abbrev answered : Server
answered = collect (receive services 0 ClientCommand.ping later)

silent_client-Calm_example : (answered.accepting ≡ some 9) × (answered.sessions ≡ waiting.sessions)
unfolding step none_of is_of run
silent_client-Calm_example =
    silent_client-Calm services 9 (tick 20 ∷ packet 0 ClientCommand.ping ∷ []) waiting answered
      waiting-OneSender refl refl refl

receive-Untouched_example :
    Untouched waiting.world (receive services 9 (ClientCommand.create_room lobby) waiting).world
unfolding is_accepted
receive-Untouched_example =
    receive-Untouched services 9 (ClientCommand.create_room lobby) waiting refl refl

abbrev token : Bytes
token = 1 ∷ 2 ∷ 3 ∷ []

abbrev back : Server
back = receive services 9 (ClientCommand.authenticate (record { into_inner = token })) waiting

abbrev timer : Timer
timer = record { mark = 0; user = 1; due = 10 }

-- The user 1 has lost its connection, and the task sleeps.
abbrev dangling : Server
dangling = record waiting {
  world = set_user 1 (record (waiting.world.user_at 1) { dangle_mark = some 0 }) waiting.world;
  timers = timer ∷ [];
  next_mark = 1;
}

abbrev returned : Server
returned = receive services 9 (ClientCommand.authenticate (record { into_inner = token })) dangling

abbrev much_later : Server
much_later = record returned { clock = returned.clock + 20 }

-- The ids 0 and 1 are in use when 0, 1, 2 and so on are drawn.
vacant_entry-mem_example :
    (k : ℕ) × (k ≤ 2)
    × (vacant_entry (λ i. i) 3 0 (1 ∷ 0 ∷ []) ≡ some (drawn (λ i. i) (0 + k)))
    × (mem (drawn (λ i. i) (0 + k)) (1 ∷ 0 ∷ []) ≡ false)
    × (all_used (λ i. i) 0 k (1 ∷ 0 ∷ []) ≡ true)
unfolding drawn mem
vacant_entry-mem_example = vacant_entry-mem (λ i. i) 2 3 0 (1 ∷ 0 ∷ []) (omega arith) refl

waiting-Named : Named waiting.world
unfolding lookup new
waiting-Named = record {
  listed = λ k u h. ground (arith, h);
  roomy = record {
    capacity = λ rm. omega arith;
    listed = λ id rm h. ground (arith, h, beq→eq {j = lobby} {k = id});
  };
}

-- The connection 9 authenticates.
abbrev accepted : Server
accepted = collect back

accepted-Reach : Reach services waiting accepted
unfolding step
accepted-Reach =
    next (packet 9 (ClientCommand.authenticate (record { into_inner = token }))) here refl

Reach-OneSender_example : OneSender accepted
Reach-OneSender_example =
    Reach-OneSender services {start = waiting} {sv = accepted} waiting-OneSender accepted-Reach

Reach-Named_example : Named accepted.world
Reach-Named_example =
    Reach-Named services {start = waiting} {sv = accepted} waiting-Named accepted-Reach

-- The connection 1 is the next one that is lost.
abbrev losing : Server
losing = record waiting { accepting = none; lost_con = 1 ∷ [] }

dangle-stays_example :
    ((dangle services 2 waiting).world.users ≡ waiting.world.users)
    × (expire services (timer_of services 2 waiting) (dangle services 2 waiting)
        ≡ dangle services 2 waiting)
dangle-stays_example = dangle-stays services 2 waiting refl
