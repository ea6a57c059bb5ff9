-- ===== src/Server/Named/Packets.antt =====
-- The handling of a packet keeps each user under its own id.
use phira_mp.Common.{
  ℕ, ◌≡◌, refl, Bool, true, false, Option, none, some, ltb, length, arith, Bool-cases, Option-cases,
  inl, inr,
}
use phira_mp.Common.Eq.{int_eq}
use phira_mp.Common.Maps.{lookup}
use phira_mp.Bin.Reader.{Bytes}
use phira_mp.Bin.Data.{Outcome, success, failure}
use phira_mp.Command.Types.{ClientCommand, ServerCommand}
use phira_mp.World.{World, Run, returns, panics}
use phira_mp.Session.Handler.{codes}
use phira_mp.Session.Process.{process}
use phira_mp.Session.Tame.{Roomy-same, final}
use phira_mp.Session.Tame.Whole.{process-Tame}
use phira_mp.Server.{Me, Services, Server, update_conn, set_world, push_out, reply, reject}
use phira_mp.Server.Authenticate.{
  new_user, set_session, find_user, admit, refuse, authenticate, before_authenticate, run_process,
  after_authenticate, receive, is_ping, drop_tx,
}
use phira_mp.Server.Named.{Named, Named-same, Tame-Named, set_user-Named, insert-Named}

-- What is sent and who is alive does not count.
pub Named-eta :
    {w w' : World}
    → w'.users ≡ w.users
    → w'.user_at ≡ w.user_at
    → w'.fresh ≡ w.fresh
    → w'.room_at ≡ w.room_at
    → w'.rooms ≡ w.rooms
    → Named w
    → Named w'
Named-eta {w} {w'} a b c d e n =
    Named-same {w = w} {w' = w'} a (λ v. cc b) (omega (arith, c))
      (Roomy-same w w' d e (omega (arith, c))) n

module _ (services : Services) (s : ℕ) where
  find_user-Named : (me : Me) (w : World) → Named w → Named (find_user services me s w).1
  unfolding find_user set_session new_user
  find_user-Named me w n = elim (Option-cases (lookup me.id w.users)) [
    | inr (u, e) ↦ rw (e, find_user) (set_user-Named u _ w refl n)
    | inl e ↦
        rw (e, find_user)
          (insert-Named
            (record (new_user me.id me.name (services.parse_language me.language)) {
              session = some s;
            })
            w _ (ground arith) (ground arith) (λ v small. ground (arith, small)) refl
            (Roomy-same w _ refl refl (omega arith)) n)
  ]

  admit-Named : (me : Me) (sv : Server) → Named sv.world → Named (admit services s me sv).world
  unfolding admit
  admit-Named me sv n = Named-eta refl refl refl refl refl (find_user-Named me sv.world n)

  authenticate-Named :
      (token : Bytes) (sv : Server)
      → Named sv.world
      → Named (authenticate services s token sv).world
  unfolding authenticate refuse reject
  authenticate-Named token sv n = elim (Bool-cases (ltb 32 (length token))) [
    | inl long ↦ rw (long, authenticate) (Named-eta refl refl refl refl refl n)
    | inr short ↦ rw (short, authenticate) (answered (services.fetch_me token))
  ]
    where
      answered :
          (o : Outcome Me Bytes)
          → Named
              (elim o as (λ _. Server) [
                | failure e ↦ refuse s (codes "failed to fetch info") sv
                | success me ↦ admit services s me sv
              ]).world
      answered (success me) = admit-Named me sv n
      answered (failure e) = Named-eta refl refl refl refl refl n

  dropped-Named : (had : Bool) (sv : Server) → Named sv.world → Named (drop_tx had s sv).world
  unfolding reject
  dropped-Named true sv n = n
  dropped-Named false sv n = n

  before-Named :
      (had : Bool) (cmd : ClientCommand) (sv : Server)
      → Named sv.world
      → Named (before_authenticate services s had cmd sv).world
  unfolding before_authenticate
  before-Named true (ClientCommand.authenticate token) sv n =
      authenticate-Named token.into_inner sv n
  before-Named false (ClientCommand.authenticate token) sv n = n
  before-Named had _ sv n = dropped-Named had sv n

  run_process-Named :
      (u : ℕ) (cmd : ClientCommand) (sv : Server)
      → Named sv.world
      → Named (run_process services s u cmd sv).world
  unfolding run_process
  run_process-Named u cmd sv n =
      ended (process services.env u cmd sv.world)
        (Tame-Named (process-Tame services.env u cmd sv.world) n)
    where
      ended :
          (r : Run (Option ServerCommand))
          → Named (final r)
          → Named
              (elim r as (λ _. Server) [
                | returns resp w ↦ elim resp [
                  | none ↦ set_world w sv
                  | some x ↦ set_world (push_out s x w) sv
                ]
                | panics w ↦ update_conn s (λ c. record c { receiving = false }) (set_world w sv)
              ]).world
      ended (returns none w) m = m
      ended (returns (some x) w) m = Named-eta refl refl refl refl refl m
      ended (panics w) m = m

  after-Named :
      (cmd : ClientCommand) (sv : Server)
      → Named sv.world
      → Named (after_authenticate services s cmd sv).world
  unfolding after_authenticate
  after-Named cmd sv n = elim (Option-cases (sv.conn_at s).user) [
    | inl e ↦ rw (e, after_authenticate) n
    | inr (u, e) ↦ rw (e, after_authenticate) (run_process-Named u cmd sv n)
  ]

  abbrev taken : Server → Server
  taken sv = update_conn s (λ d. record d { last_recv = sv.clock; tx = false }) sv

  pub receive-Named :
      (cmd : ClientCommand) (sv : Server) → Named sv.world → Named (receive services s cmd sv).world
  unfolding receive
  receive-Named cmd sv n = elim (Bool-cases (sv.conn_at s).panicked) [
    | inl p ↦ rw p (dropped-Named (sv.conn_at s).tx (taken sv) n)
    | inr p ↦ elim (Bool-cases (is_ping cmd)) [
      | inl ping ↦
          rw (p, ping)
            (dropped-Named (sv.conn_at s).tx (reply s ServerCommand.pong (taken sv))
              (Named-eta refl refl refl refl refl n))
      | inr other ↦ elim (Bool-cases (sv.conn_at s).waiting_for_authenticate) [
        | inl w ↦ rw (p, other, w) (before-Named (sv.conn_at s).tx cmd (taken sv) n)
        | inr w ↦ rw (p, other, w) (after-Named cmd (taken sv) n)
      ]
    ]
  ]
