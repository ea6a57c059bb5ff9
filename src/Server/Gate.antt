-- ===== src/Server/Gate.antt =====
-- What a connection can do before it is authenticated.
use phira_mp.Common.{ℕ, ◌≡◌, refl, Bool, true, false, not, ◌&&◌, ltb, length, Bool-cases, inl, inr}
use phira_mp.Bin.Reader.{Bytes}
use phira_mp.Bin.Data.{Outcome, success, failure}
use phira_mp.Command.Types.{ClientCommand, ServerCommand}
use phira_mp.Session.Handler.{codes}
use phira_mp.World.{World}
use phira_mp.Server.{Services, Server, reject, reply, update_conn}
use phira_mp.Server.Authenticate.{
  refuse, authenticate, before_authenticate, receive, is_ping, drop_tx,
}

-- At most the outbox differs, and who is alive.
pub record Untouched (w w' : World) : Type 0 where
  pub user_at : w'.user_at ≡ w.user_at
  pub room_at : w'.room_at ≡ w.room_at
  pub users : w'.users ≡ w.users
  pub rooms : w'.rooms ≡ w.rooms
  pub fresh : w'.fresh ≡ w.fresh

abbrev is_success {ℓ k} : {A : Type ℓ} {E : Type k} → Outcome A E → Bool
is_success (success a) = true
is_success (failure e) = false

-- An authentication by a token that is short enough and that the web service knows.
unfoldable pub is_accepted : Services → ClientCommand → Bool
is_accepted services (ClientCommand.authenticate token) =
    not (ltb 32 (length token.into_inner)) && is_success (services.fetch_me token.into_inner)
is_accepted services _ = false

Untouched-refl : (w : World) → Untouched w w
Untouched-refl w = record {
  user_at = refl;
  room_at = refl;
  users = refl;
  rooms = refl;
  fresh = refl;
}

failed {ℓ k} :
    {A : Type ℓ} {E : Type k} (o : Outcome A E) → is_success o ≡ false → (e : E) × (o ≡ failure e)
failed (success a) h = cc
failed (failure e) h = (e, refl)

module _ (services : Services) (s : ℕ) where
  refuse-Untouched : (text : Bytes) (sv : Server) → Untouched sv.world (refuse s text sv).world
  unfolding refuse reject
  refuse-Untouched text sv = record {
    user_at = refl;
    room_at = refl;
    users = refl;
    rooms = refl;
    fresh = refl;
  }

  authenticate-Untouched :
      (token : Bytes) (sv : Server)
      → (not (ltb 32 (length token)) && is_success (services.fetch_me token)) ≡ false
      → Untouched sv.world (authenticate services s token sv).world
  unfolding authenticate
  authenticate-Untouched token sv h = elim (Bool-cases (ltb 32 (length token))) [
    | inl long ↦ rw long (refuse-Untouched (codes "invalid token") sv)
    | inr short ↦
        let (e, q) = failed (services.fetch_me token) (rw short at h) in
        rw (short, q, authenticate) (refuse-Untouched (codes "failed to fetch info") sv)
  ]

  dropped-Untouched : (had : Bool) (sv : Server) → Untouched sv.world (drop_tx had s sv).world
  unfolding reject
  dropped-Untouched true sv = Untouched-refl sv.world
  dropped-Untouched false sv = Untouched-refl sv.world

  before-Untouched :
      (had : Bool) (cmd : ClientCommand) (sv : Server)
      → (had && is_accepted services cmd) ≡ false
      → Untouched sv.world (before_authenticate services s had cmd sv).world
  unfolding before_authenticate is_accepted
  before-Untouched true (ClientCommand.authenticate token) sv h =
      authenticate-Untouched token.into_inner sv h
  before-Untouched false (ClientCommand.authenticate token) sv h = Untouched-refl sv.world
  before-Untouched had _ sv h = dropped-Untouched had sv

  abbrev taken : Server → Server
  taken sv = update_conn s (λ d. record d { last_recv = sv.clock; tx = false }) sv

  pong-Untouched :
      (had : Bool) (sv : Server)
      → Untouched sv.world (drop_tx had s (reply s ServerCommand.pong (taken sv))).world
  unfolding reject
  pong-Untouched true sv = record {
    user_at = refl;
    room_at = refl;
    users = refl;
    rooms = refl;
    fresh = refl;
  }
  pong-Untouched false sv = record {
    user_at = refl;
    room_at = refl;
    users = refl;
    rooms = refl;
    fresh = refl;
  }

  -- A packet that comes on a connection that waits for authentication changes no user and no room,
  -- nor their maps, unless the callback still has the sender and the packet is an authentication by
  -- a token of at most 32 bytes that the web service answers for.
  pub receive-Untouched :
      (cmd : ClientCommand) (sv : Server)
      → (sv.conn_at s).waiting_for_authenticate ≡ true
      → ((sv.conn_at s).tx && is_accepted services cmd) ≡ false
      → Untouched sv.world (receive services s cmd sv).world
  unfolding receive
  receive-Untouched cmd sv waits h = elim (Bool-cases (sv.conn_at s).panicked) [
    | inl p ↦ rw p (dropped-Untouched (sv.conn_at s).tx (taken sv))
    | inr p ↦ elim (Bool-cases (is_ping cmd)) [
      | inl ping ↦ rw (p, ping) (pong-Untouched (sv.conn_at s).tx sv)
      | inr other ↦ rw (p, other, waits) (before-Untouched (sv.conn_at s).tx cmd (taken sv) h)
    ]
  ]
