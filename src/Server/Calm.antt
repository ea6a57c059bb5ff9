-- ===== src/Server/Calm.antt =====
-- What leaves the lock of `sessions` and the senders of users alone, and who has such a sender.
pub mod Lost
use phira_mp.Common.{
  ℕ, ◌+◌, ◌≡◌, ◌≢◌, refl, sym, ap, ◌∙◌, Bool, true, false, not, ◌&&◌, ◌||◌, Option, none, some,
  List, [], ◌∷◌, ◌++◌, arith, ltb, leb, length, ◌==◌, ==_iff, if◌then◌else◌, Bool-cases,
  Option-cases, ◌⊎◌, inl, inr,
}
use phira_mp.Bin.Reader.{Bytes}
use phira_mp.Bin.Data.{Outcome, success, failure}
use phira_mp.Command.Types.{ClientCommand, ServerCommand, Varchar}
use phira_mp.World.{World, Run, returns, panics}
use phira_mp.Session.Handler.{codes}
use phira_mp.Session.Process.{process}
use phira_mp.Server.{
  Me, Services, Conn, Timer, Server, update_conn, set_world, push_out, reply, mem, is_user, collect,
  reject,
}
use phira_mp.Server.Authenticate.{
  admit, refuse, authenticate, before_authenticate, run_process, after_authenticate, receive,
  is_ping, drop_tx,
}
use phira_mp.Server.Lost.{mark_lost, is_overdue, lose, expire}
use phira_mp.Server.Steps.{
  Event, connect, hello, gone, beat, packet, handle_lost, wake, tick, when, is_free, accept, greet,
  take_packet, hang_up, beat_late, next_lost, find_timer, wake_timer, step, Reach, here, next,
}

-- Nobody takes or releases the lock, no session comes or goes, and no callback gets a sender.
pub record Calm (sv sv' : Server) : Type 0 where
  pub accepting : sv'.accepting ≡ sv.accepting
  pub sessions : sv'.sessions ≡ sv.sessions
  pub no_tx : (t : ℕ) → (sv.conn_at t).tx ≡ false → (sv'.conn_at t).tx ≡ false

pub Calm-refl : (sv : Server) → Calm sv sv
Calm-refl sv = record { accepting = refl; sessions = refl; no_tx = λ t h. h }

pub Calm-trans : {a b c : Server} → Calm a b → Calm b c → Calm a c
Calm-trans p q = record {
  accepting = q.accepting ∙ p.accepting;
  sessions = q.sessions ∙ p.sessions;
  no_tx = λ t h. q.no_tx t (p.no_tx t h);
}

pub Calm-update_conn :
    (s : ℕ) (f : Conn → Conn) (sv : Server)
    → ((c : Conn) → c.tx ≡ false → (f c).tx ≡ false)
    → Calm sv (update_conn s f sv)
Calm-update_conn s f sv keeps = record {
  accepting = refl;
  sessions = refl;
  no_tx = λ t h. elim (Bool-cases (t == s)) [
    | inl same ↦ rw same (keeps (sv.conn_at t) h)
    | inr other ↦ rw other h
  ];
}

pub Calm-set_world : (w : World) (sv : Server) → Calm sv (set_world w sv)
Calm-set_world w sv = record { accepting = refl; sessions = refl; no_tx = λ t h. h }

pub Calm-collect : (sv : Server) → Calm sv (collect sv)
unfolding collect
Calm-collect sv = record { accepting = refl; sessions = refl; no_tx = λ t h. h }

-- No callback has the sender of a user.
abbrev pub NoSender : Server → Type 0
NoSender sv = (t : ℕ) → (sv.conn_at t).tx ≡ false

-- A callback that has the sender of a user is the one of the connection that `accept` waits for.
pub record OneSender (sv : Server) : Type 0 where
  pub only : (t : ℕ) → is_user t sv.accepting ≡ false → (sv.conn_at t).tx ≡ false

pub Calm-OneSender : {sv sv' : Server} → Calm sv sv' → OneSender sv → OneSender sv'
Calm-OneSender {sv} c one = record {
  only = λ t h. c.no_tx t (one.only t (ap (is_user t) (sym c.accepting) ∙ h));
}

pub Calm-NoSender : {sv sv' : Server} → Calm sv sv' → NoSender sv → NoSender sv'
Calm-NoSender c none_has t = c.no_tx t (none_has t)

pub NoSender-OneSender : {sv : Server} → NoSender sv → OneSender sv
NoSender-OneSender none_has = record { only = λ t h. none_has t }

module _ (services : Services) (s : ℕ) where
  run_process-Calm :
      (u : ℕ) (cmd : ClientCommand) (sv : Server) → Calm sv (run_process services s u cmd sv)
  unfolding run_process
  run_process-Calm u cmd sv = ended (process services.env u cmd sv.world)
    where
      ended :
          (r : Run (Option ServerCommand))
          → Calm sv (elim r [
            | returns resp w ↦ elim resp [
              | none ↦ set_world w sv
              | some x ↦ set_world (push_out s x w) sv
            ]
            | panics w ↦ update_conn s (λ c. record c { receiving = false }) (set_world w sv)
          ])
      ended (returns none w) = Calm-set_world w sv
      ended (returns (some x) w) = Calm-set_world (push_out s x w) sv
      ended (panics w) =
          Calm-trans (Calm-set_world w sv)
            (Calm-update_conn s (λ c. record c { receiving = false }) (set_world w sv) (λ c h. h))

  after_authenticate-Calm :
      (cmd : ClientCommand) (sv : Server) → Calm sv (after_authenticate services s cmd sv)
  unfolding after_authenticate
  after_authenticate-Calm cmd sv = elim (Option-cases (sv.conn_at s).user) [
    | inl e ↦
        rw (e, after_authenticate)
          (Calm-update_conn s (λ c. record c { receiving = false }) sv (λ c h. h))
    | inr (u, e) ↦ rw (e, after_authenticate) (run_process-Calm u cmd sv)
  ]

  -- Without the sender, a packet that comes before authentication does nothing.
  before_authenticate_idle :
      (cmd : ClientCommand) (sv : Server) → before_authenticate services s false cmd sv ≡ sv
  unfolding before_authenticate
  before_authenticate_idle ClientCommand.ping sv = refl
  before_authenticate_idle (ClientCommand.authenticate token) sv = refl
  before_authenticate_idle _ sv = refl

  taken : Server → Server
  taken sv = update_conn s (λ d. record d { last_recv = sv.clock; tx = false }) sv

  taken-Calm : (sv : Server) → Calm sv (taken sv)
  unfolding taken
  taken-Calm sv =
      Calm-update_conn s (λ d. record d { last_recv = sv.clock; tx = false }) sv (λ c h. refl)

  pub receive-Calm :
      (cmd : ClientCommand) (sv : Server)
      → (sv.conn_at s).tx ≡ false
      → Calm sv (receive services s cmd sv)
  unfolding receive taken
  receive-Calm cmd sv idle = elim (Bool-cases (sv.conn_at s).panicked) [
    | inl p ↦ rw (p, idle) (taken-Calm sv)
    | inr p ↦ elim (Bool-cases (is_ping cmd)) [
      | inl ping ↦ rw (p, ping, idle) (Calm-trans (taken-Calm sv) (Calm-set_world _ (taken sv)))
      | inr other ↦ elim (Bool-cases (sv.conn_at s).waiting_for_authenticate) [
        | inl w ↦
            rw (p, other, w, idle) (rw (before_authenticate_idle cmd (taken sv)) (taken-Calm sv))
        | inr w ↦
            rw (p, other, w) (Calm-trans (taken-Calm sv) (after_authenticate-Calm cmd (taken sv)))
      ]
    ]
  ]

  pub reject-NoSender : (sv : Server) → NoSender sv → NoSender (reject s sv)
  unfolding reject
  reject-NoSender sv none_has t = ground (arith, none_has t)

  drop_tx-NoSender : (had : Bool) (sv : Server) → NoSender sv → NoSender (drop_tx had s sv)
  drop_tx-NoSender true sv h = reject-NoSender sv h
  drop_tx-NoSender false sv h = h

  refuse-NoSender : (text : Bytes) (sv : Server) → NoSender sv → NoSender (refuse s text sv)
  unfolding refuse
  refuse-NoSender text sv h = reject-NoSender _ (λ t. ground (arith, h t))

  admit-NoSender : (me : Me) (sv : Server) → NoSender sv → NoSender (admit services s me sv)
  unfolding admit
  admit-NoSender me sv h t = ground (arith, h t)

  authenticate-NoSender :
      (token : Bytes) (sv : Server) → NoSender sv → NoSender (authenticate services s token sv)
  unfolding authenticate
  authenticate-NoSender token sv h = elim (Bool-cases (ltb 32 (length token))) [
    | inl long ↦ rw long (refuse-NoSender (codes "invalid token") sv h)
    | inr short ↦ rw short (fetched (services.fetch_me token) refl)
  ]
    where
      fetched :
          (r : Outcome Me Bytes)
          → services.fetch_me token ≡ r
          → NoSender (elim (services.fetch_me token) [
            | failure e ↦ refuse s (codes "failed to fetch info") sv
            | success me ↦ admit services s me sv
          ])
      fetched (failure e) q = rw q (refuse-NoSender (codes "failed to fetch info") sv h)
      fetched (success me) q = rw q (admit-NoSender me sv h)

  before_authenticate-NoSender :
      (had : Bool) (cmd : ClientCommand) (sv : Server)
      → NoSender sv
      → NoSender (before_authenticate services s had cmd sv)
  unfolding before_authenticate
  before_authenticate-NoSender true (ClientCommand.authenticate token) sv h =
      authenticate-NoSender token.into_inner sv h
  before_authenticate-NoSender false (ClientCommand.authenticate token) sv h = h
  before_authenticate-NoSender had ClientCommand.ping sv h = drop_tx-NoSender had sv h
  before_authenticate-NoSender had _ sv h = drop_tx-NoSender had sv h

  -- If this connection has the sender, no other has.
  pub others-NoSender :
      (sv : Server)
      → OneSender sv
      → (sv.conn_at s).tx ≡ true
      → (t : ℕ) → (t == s) ≡ false
      → (sv.conn_at t).tx ≡ false
  others-NoSender sv one has t differ = one.only t (held sv.accepting refl)
    where
      held : (a : Option ℕ) → sv.accepting ≡ a → is_user t sv.accepting ≡ false
      held none e = rw e refl
      held (some v) e = elim (Bool-cases (v == s)) [
        | inl same ↦ rw e (ground arith)
        | inr apart ↦ cc (has, one.only s (rw e apart))
      ]

  taken-NoSender : (sv : Server) → OneSender sv → (sv.conn_at s).tx ≡ true → NoSender (taken sv)
  unfolding taken
  taken-NoSender sv one has t = ground (arith, others-NoSender sv one has t)

  pub reject_sender-NoSender :
      (sv : Server) → OneSender sv → (sv.conn_at s).tx ≡ true → NoSender (reject s sv)
  unfolding reject
  reject_sender-NoSender sv one has t = ground (arith, others-NoSender sv one has t)

  pub receive-NoSender :
      (cmd : ClientCommand) (sv : Server)
      → OneSender sv
      → (sv.conn_at s).tx ≡ true
      → NoSender (receive services s cmd sv)
  unfolding receive taken
  receive-NoSender cmd sv one has = elim (Bool-cases (sv.conn_at s).panicked) [
    | inl p ↦ rw (p, has) (reject-NoSender (taken sv) (taken-NoSender sv one has))
    | inr p ↦ elim (Bool-cases (is_ping cmd)) [
      | inl ping ↦ rw (p, ping, has) (reject-NoSender _ (taken-NoSender sv one has))
      | inr other ↦ elim (Bool-cases (sv.conn_at s).waiting_for_authenticate) [
        | inl w ↦
            rw (p, other, w, has)
              (before_authenticate-NoSender true cmd (taken sv) (taken-NoSender sv one has))
        | inr w ↦
            rw (p, other, w)
              (Calm-NoSender (after_authenticate-Calm cmd (taken sv)) (taken-NoSender sv one has))
      ]
    ]
  ]
