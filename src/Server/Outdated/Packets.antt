-- ===== src/Server/Outdated/Packets.antt =====
-- The handling of a packet gives no mark.
use phira_mp.Common.{
  ℕ, refl, Bool, true, false, Option, none, some, ltb, length, Bool-cases, Option-cases, inl, inr,
  ◌==◌,
}
use phira_mp.Common.Eq.{int_eq}
use phira_mp.Common.Maps.{lookup}
use phira_mp.Bin.Reader.{Bytes}
use phira_mp.Bin.Data.{Outcome, success, failure}
use phira_mp.Command.Types.{ClientCommand, ServerCommand}
use phira_mp.World.{World, Run, returns, panics}
use phira_mp.Session.Handler.{codes}
use phira_mp.Session.Process.{process}
use phira_mp.Session.Tame.{final}
use phira_mp.Session.Tame.Whole.{process-Tame}
use phira_mp.Server.{Me, Services, Server, update_conn, set_world, push_out, reply, reject}
use phira_mp.Server.Authenticate.{
  new_user, set_session, find_user, admit, refuse, authenticate, before_authenticate, run_process,
  after_authenticate, receive, is_ping, drop_tx,
}
use phira_mp.Server.Outdated.{Free, Outdated, Tame-Free, set_user-Free}

module _ (services : Services) (s m v : ℕ) where
  find_user-Free : (me : Me) (w : World) → Free m v w → Free m v (find_user services me s w).1
  unfolding find_user set_session new_user
  find_user-Free me w f = elim (Option-cases (lookup me.id w.users)) [
    | inr (u, e) ↦ rw (e, find_user) (set_user-Free m v u _ w refl f)
    | inl e ↦
        rw (e, find_user)
          (elim (Bool-cases (v == w.fresh)) [ inl here ↦ rw here refl | inr apart ↦ rw apart f ])
  ]

  admit-Outdated : (me : Me) (sv : Server) → Outdated m v sv → Outdated m v (admit services s me sv)
  unfolding admit
  admit-Outdated me sv n = (n.0, find_user-Free me sv.world n.1)

  authenticate-Outdated :
      (token : Bytes) (sv : Server)
      → Outdated m v sv
      → Outdated m v (authenticate services s token sv)
  unfolding authenticate refuse reject
  authenticate-Outdated token sv n = elim (Bool-cases (ltb 32 (length token))) [
    | inl long ↦ rw (long, authenticate) (n)
    | inr short ↦ rw (short, authenticate) (answered (services.fetch_me token))
  ]
    where
      answered :
          (o : Outcome Me Bytes)
          → Outdated m v (elim o as (λ _. Server) [
            | failure e ↦ refuse s (codes "failed to fetch info") sv
            | success me ↦ admit services s me sv
          ])
      answered (success me) = admit-Outdated me sv n
      answered (failure e) = n

  dropped-Outdated : (had : Bool) (sv : Server) → Outdated m v sv → Outdated m v (drop_tx had s sv)
  unfolding reject
  dropped-Outdated true sv n = n
  dropped-Outdated false sv n = n

  before-Outdated :
      (had : Bool) (cmd : ClientCommand) (sv : Server)
      → Outdated m v sv
      → Outdated m v (before_authenticate services s had cmd sv)
  unfolding before_authenticate
  before-Outdated true (ClientCommand.authenticate token) sv n =
      authenticate-Outdated token.into_inner sv n
  before-Outdated false (ClientCommand.authenticate token) sv n = n
  before-Outdated had _ sv n = dropped-Outdated had sv n

  run_process-Outdated :
      (u : ℕ) (cmd : ClientCommand) (sv : Server)
      → Outdated m v sv
      → Outdated m v (run_process services s u cmd sv)
  unfolding run_process
  run_process-Outdated u cmd sv n =
      ended (process services.env u cmd sv.world)
        (Tame-Free m v (process-Tame services.env u cmd sv.world) n.1)
    where
      ended :
          (r : Run (Option ServerCommand))
          → Free m v (final r)
          → Outdated m v (elim r as (λ _. Server) [
            | returns resp w ↦ elim resp [
              | none ↦ set_world w sv
              | some x ↦ set_world (push_out s x w) sv
            ]
            | panics w ↦ update_conn s (λ c. record c { receiving = false }) (set_world w sv)
          ])
      ended (returns none w) f = (n.0, f)
      ended (returns (some x) w) f = (n.0, f)
      ended (panics w) f = (n.0, f)

  after-Outdated :
      (cmd : ClientCommand) (sv : Server)
      → Outdated m v sv
      → Outdated m v (after_authenticate services s cmd sv)
  unfolding after_authenticate
  after-Outdated cmd sv n = elim (Option-cases (sv.conn_at s).user) [
    | inl e ↦ rw (e, after_authenticate) n
    | inr (u, e) ↦ rw (e, after_authenticate) (run_process-Outdated u cmd sv n)
  ]

  abbrev taken : Server → Server
  taken sv = update_conn s (λ d. record d { last_recv = sv.clock; tx = false }) sv

  pub receive-Outdated :
      (cmd : ClientCommand) (sv : Server)
      → Outdated m v sv
      → Outdated m v (receive services s cmd sv)
  unfolding receive
  receive-Outdated cmd sv n = elim (Bool-cases (sv.conn_at s).panicked) [
    | inl p ↦ rw p (dropped-Outdated (sv.conn_at s).tx (taken sv) n)
    | inr p ↦ elim (Bool-cases (is_ping cmd)) [
      | inl ping ↦
          rw (p, ping)
            (dropped-Outdated (sv.conn_at s).tx (reply s ServerCommand.pong (taken sv)) (n))
      | inr other ↦ elim (Bool-cases (sv.conn_at s).waiting_for_authenticate) [
        | inl w ↦ rw (p, other, w) (before-Outdated (sv.conn_at s).tx cmd (taken sv) n)
        | inr w ↦ rw (p, other, w) (after-Outdated cmd (taken sv) n)
      ]
    ]
  ]
