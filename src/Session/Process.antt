-- ===== src/Session/Process.antt =====
-- session.rs: `process`, which answers each command of an authenticated user.
use phira_mp.Common.{ℕ, Option, none, some}
use phira_mp.Common.Eq.{int_eq}
use phira_mp.Bin.Data.{failure}
use phira_mp.Command.Types.{room_id_eq, ClientCommand, ServerCommand}
use phira_mp.World.{Env, returns, panics, M}
use phira_mp.Session.Handler.{codes, answer}
use phira_mp.Session.Rooms.{
  chat, touches, judges, create_room, join_room, leave_room, lock_room, cycle_room,
}
use phira_mp.Session.Game.{select_chart_of, request_start, ready, cancel_ready, played, abort}

module _ (env : Env) where
  unfoldable pub process : ℕ → ClientCommand → M (Option ServerCommand)
  process u ClientCommand.ping w = panics w
  process u (ClientCommand.authenticate token) w =
      returns (some (ServerCommand.authenticate (failure (codes "repeated authenticate")))) w
  process u (ClientCommand.chat message) w =
      answer env u ServerCommand.chat (chat u message.into_inner) w
  process u (ClientCommand.touches frames) w = returns none (touches u frames w)
  process u (ClientCommand.judges events) w = returns none (judges u events w)
  process u (ClientCommand.create_room id) w =
      answer env u ServerCommand.create_room (create_room u id) w
  process u (ClientCommand.join_room id monitor) w =
      answer env u ServerCommand.join_room (join_room u id monitor) w
  process u ClientCommand.leave_room w = answer env u ServerCommand.leave_room (leave_room env u) w
  process u (ClientCommand.lock_room lock) w =
      answer env u ServerCommand.lock_room (lock_room u lock) w
  process u (ClientCommand.cycle_room cycle) w =
      answer env u ServerCommand.cycle_room (cycle_room u cycle) w
  process u (ClientCommand.select_chart id) w =
      answer env u ServerCommand.select_chart (select_chart_of env u id) w
  process u ClientCommand.request_start w =
      answer env u ServerCommand.request_start (request_start u) w
  process u ClientCommand.ready w = answer env u ServerCommand.ready (ready u) w
  process u ClientCommand.cancel_ready w =
      answer env u ServerCommand.cancel_ready (cancel_ready u) w
  process u (ClientCommand.played id) w = answer env u ServerCommand.played (played env u id) w
  process u ClientCommand.abort w = answer env u ServerCommand.abort (abort u) w
