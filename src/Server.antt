-- ===== src/Server.antt =====
-- phira-mp-server/src/server.rs, and `Session::new` and `User::dangle` of session.rs: connections, how
-- they are accepted, authenticated and lost. A session's id is a number, and its address too.
pub mod Authenticate
pub mod Lost
pub mod Steps
pub mod Calm
pub mod Sender
pub mod Blocked
pub mod Gate
pub mod Reconnect
pub mod Returned
pub mod Vacant
pub mod Expiry
pub mod Named
pub mod Start
pub mod Outdated
use phira_mp.Common.{
  ℕ, zero, suc, ◌+◌, Bool, true, false, ◌&&◌, ◌||◌, Option, none, some, List, [], ◌∷◌, ◌++◌, ◌==◌,
  leb, if◌then◌else◌,
}
use phira_mp.Common.Int.{ℤ}
use phira_mp.Bin.Reader.{Bytes}
use phira_mp.Bin.Data.{Outcome}
use phira_mp.Command.Types.{ServerCommand}
use phira_mp.World.{User, World, Env}

-- The answer of the web service to a token.
pub record Me : Type 0 where
  pub id : ℤ
  pub name : Bytes
  pub language : Bytes

-- `parse_language` is `parse().map(Language).unwrap_or_default()`.
pub record Services : Type 0 where
  pub env : Env
  pub fetch_me : Bytes → Outcome Me Bytes
  pub parse_language : Bytes → ℕ

-- What the tasks of a connection share. `tx` says whether the callback still has the sender that
-- `Session::new` waits on, `user` is the user in `this`; `greeted` says that the version has come,
-- `receiving` and `beating` that the receive task and the heartbeat task are running.
pub record Conn : Type 0 where
  pub greeted : Bool
  pub tx : Bool
  pub waiting_for_authenticate : Bool
  pub panicked : Bool
  pub receiving : Bool
  pub beating : Bool
  pub last_recv : ℕ
  pub user : Option ℕ

-- The task that `dangle` spawns: it holds the user and its mark, and sleeps until `due`.
pub record Timer : Type 0 where
  pub mark : ℕ
  pub user : ℕ
  pub due : ℕ

-- `sessions` is the map's keys, `opened` the ids of all connections there have been, `lost_con` the
-- queue of `lost_con_tx`, and `accepting` the connection whose authentication `accept` waits for,
-- with the lock of `sessions` held. `handling` says that the task that handles lost connections is
-- running.
pub record Server : Type 0 where
  pub world : World
  pub conn_at : ℕ → Conn
  pub opened : List ℕ
  pub sessions : List ℕ
  pub lost_con : List ℕ
  pub handling : Bool
  pub timers : List Timer
  pub next_mark : ℕ
  pub clock : ℕ
  pub accepting : Option ℕ

-- Seconds.
abbrev pub heartbeat_disconnect_timeout : ℕ
heartbeat_disconnect_timeout = 10

abbrev pub update_conn : ℕ → (Conn → Conn) → Server → Server
update_conn s f sv = record sv { conn_at = λ t. if t == s then f (sv.conn_at t) else sv.conn_at t }

abbrev pub set_world : World → Server → Server
set_world w sv = record sv { world = w }

abbrev pub push_out : ℕ → ServerCommand → World → World
push_out s cmd w = record w { outbox = w.outbox ++ ((s, cmd) ∷ []) }

-- `Stream::send` of the connection itself.
abbrev pub reply : ℕ → ServerCommand → Server → Server
reply s cmd sv = set_world (push_out s cmd sv.world) sv

unfoldable pub mem : ℕ → List ℕ → Bool
mem x [] = false
mem x (y ∷ ys) = y == x || mem x ys

unfoldable pub remove_one : ℕ → List ℕ → List ℕ
remove_one x [] = []
remove_one x (y ∷ ys) = if y == x then remove_one x ys else y ∷ remove_one x ys

abbrev pub is_user : ℕ → Option ℕ → Bool
is_user u none = false
is_user u (some v) = v == u

-- A session is dropped when neither the map nor its connection's callback holds it.
unfoldable pub holds_session : Server → ℕ → Bool
unfolding mem
holds_session sv s =
    mem s sv.sessions
    || ((sv.conn_at s).receiving && elim (sv.conn_at s).user [ none ↦ false | some u ↦ true ])

unfoldable pub session_with : Server → ℕ → List ℕ → Bool
unfolding holds_session
session_with sv u [] = false
session_with sv u (s ∷ ss) =
    (holds_session sv s && is_user u (sv.conn_at s).user) || session_with sv u ss

unfoldable pub map_holds : ℕ → List (ℤ × ℕ) → Bool
map_holds u [] = false
map_holds u ((k, v) ∷ users) = v == u || map_holds u users

unfoldable pub timer_holds : ℕ → List Timer → Bool
timer_holds u [] = false
timer_holds u (t ∷ ts) = t.user == u || timer_holds u ts

-- A user is dropped when neither the map, nor a session, nor a timer holds it.
unfoldable pub holds_user : Server → ℕ → Bool
unfolding session_with map_holds timer_holds
holds_user sv u =
    map_holds u sv.world.users || session_with sv u sv.opened || timer_holds u sv.timers

-- What is dropped at the end of a step cannot be upgraded any more.
unfoldable pub collect : Server → Server
unfolding holds_user
collect sv =
    set_world (record sv.world { alive = holds_user sv; session_alive = holds_session sv }) sv

-- `accept` fails where `Session::new` does: the lock is released, and the connection's tasks end.
unfoldable pub reject : ℕ → Server → Server
reject s sv =
    update_conn s (λ c. record c { tx = false; receiving = false }) (record sv { accepting = none })
