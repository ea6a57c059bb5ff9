-- ===== src/Server/Steps.antt =====
-- The server as a step relation: what the network, the clock and the tasks can do next.
use phira_mp.Common.{
  ℕ, ◌+◌, ◌≡◌, Bool, true, false, not, ◌&&◌, Option, none, some, List, [], ◌∷◌, leb, ◌==◌,
  if◌then◌else◌,
}
use phira_mp.Command.Types.{ClientCommand}
use phira_mp.Server.{Services, Conn, Timer, Server, update_conn, mem, collect, reject}
use phira_mp.Server.Authenticate.{receive}
use phira_mp.Server.Lost.{is_overdue, mark_lost, lose, expire}

-- A connection comes, and its id is drawn; its version comes; a packet comes that can be decoded; its
-- receive task ends. A heartbeat is overdue; a lost connection is handled; a timer expires; time passes.
pub data Event : Type 0 where
  connect hello gone beat : ℕ → Event
  packet : ℕ → ClientCommand → Event
  handle_lost : Event
  wake : ℕ → Event
  tick : ℕ → Event

abbrev pub new_conn : ℕ → Conn
new_conn now = record {
  greeted = false;
  tx = true;
  waiting_for_authenticate = true;
  panicked = false;
  receiving = false;
  beating = false;
  last_recv = now;
  user = none;
}

abbrev pub when : Bool → Server → Option Server
when true sv = some (collect sv)
when false sv = none

abbrev pub is_free : Option ℕ → Bool
is_free none = true
is_free (some s) = false

-- `Server::accept` and the start of `Session::new`: not while another connection is accepted. The
-- loop of `vacant_entry` draws an id that is not in use.
unfoldable pub accept : ℕ → Server → Option Server
accept s sv = when (is_free sv.accepting && not (mem s sv.opened)) (record sv {
  accepting = some s;
  opened = s ∷ sv.opened;
  conn_at = λ t. if t == s then new_conn sv.clock else sv.conn_at t;
})

-- `Stream::new` has read the version, and the tasks start.
unfoldable pub greet : ℕ → Server → Option Server
greet s sv =
    when (mem s sv.opened && ((sv.conn_at s).tx && not (sv.conn_at s).greeted))
      (update_conn s (λ c. record c { greeted = true; receiving = true; beating = true }) sv)

unfoldable pub take_packet : Services → ℕ → ClientCommand → Server → Option Server
unfolding receive
take_packet services s cmd sv = when (sv.conn_at s).receiving (receive services s cmd sv)

-- The receive task, or the wait for the version, ends; a sender that it has is dropped with it.
unfoldable pub hang_up : ℕ → Server → Option Server
hang_up s sv = when (mem s sv.opened) (
    if (sv.conn_at s).tx
    then reject s sv
    else update_conn s (λ c. record c { receiving = false }) sv)

unfoldable pub beat_late : ℕ → Server → Option Server
unfolding is_overdue mark_lost
beat_late s sv = when (is_overdue sv s) (mark_lost s sv)

-- The lock of `sessions` is needed.
unfoldable pub next_lost : Services → List ℕ → Server → Option Server
unfolding lose
next_lost services [] sv = none
next_lost services (s ∷ queue) sv =
    when (is_free sv.accepting && sv.handling) (lose services s (record sv { lost_con = queue }))

-- The timer of a mark is taken off the list, and runs.
unfoldable pub find_timer : ℕ → List Timer → Option (Timer × List Timer)
find_timer m [] = none
find_timer m (t ∷ ts) =
    let rest = find_timer m ts in
    if t.mark == m
    then some (t, ts)
    else elim rest [ none ↦ none | some (found, others) ↦ some (found, t ∷ others) ]

unfoldable pub wake_timer : Services → ℕ → Server → Option Server
unfolding expire find_timer
wake_timer services m sv = elim (find_timer m sv.timers) [
  | none ↦ none
  | some (t, others) ↦ when (leb t.due sv.clock) (expire services t (record sv { timers = others }))
]

-- `none` where the event cannot happen.
unfoldable pub step : Services → Event → Server → Option Server
unfolding accept greet take_packet hang_up beat_late next_lost wake_timer
step services (connect s) sv = accept s sv
step services (hello s) sv = greet s sv
step services (packet s cmd) sv = take_packet services s cmd sv
step services (gone s) sv = hang_up s sv
step services (beat s) sv = beat_late s sv
step services handle_lost sv = next_lost services sv.lost_con sv
step services (wake m) sv = wake_timer services m sv
step services (tick n) sv = some (record sv { clock = sv.clock + n })

pub data Reach (services : Services) (start : Server) : Server → Type 0 where
  here : Reach services start start
  next :
      {sv sv' : Server} (e : Event)
      → Reach services start sv
      → step services e sv ≡ some sv'
      → Reach services start sv'
