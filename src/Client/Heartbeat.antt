-- ===== src/Client/Heartbeat.antt =====
-- The heartbeat task of `Client::new`, and `ping`. A permit of `ping_notify` that is stored ends the
-- next wait at once. `elapsed` is the time that a round took, `sending` whether the send succeeded.
use phira_mp.Common.{
  ℕ, ◌+◌, ◌%◌, ◌^◌, ◌<◌, ◌≡◌, refl, ap, ◌∙◌, Bool, true, false, some, List, [], ◌∷◌, length, arith,
}
use phira_mp.Bin.Data.{success, failure}
use phira_mp.Command.Types.{ClientCommand, ServerCommand}
use phira_mp.Client.{State, returns, panics, M, ◌>>=◌, ◌>>◌, pure, modify}
use phira_mp.Client.Process.{process, process_all}
use phira_mp.Client.Calls.{timeout, Reply, send}

-- `timeout(HEARTBEAT_TIMEOUT, ping_notify.notified())`, during which the receive task processes
-- commands; whether the wait ended by a permit, and the commands that are left then.
unfoldable pub notified : List ServerCommand → M (Bool × List ServerCommand)
notified [] st = returns (st.permit, []) (record st { permit = false })
notified (cmd ∷ cmds) st = elim st.permit [
  | true ↦ returns (true, cmd ∷ cmds) (record st { permit = false })
  | false ↦ elim (process cmd st) [ returns _ st' ↦ notified cmds st' | panics st' ↦ panics st' ]
]

-- `AtomicU8::fetch_add` wraps around.
unfoldable pub count_failure : ℕ → ℕ
count_failure n = (n + 1) % 2 ^ 8

abbrev pub set_delay : ℕ → State → State
set_delay elapsed st = record st { delay = some elapsed }

-- One round of the task: the new `ping_fail_count`, and the commands that are left.
unfoldable pub heartbeat : Bool → List ServerCommand → ℕ → ℕ → M (ℕ × List ServerCommand)
unfolding notified count_failure
heartbeat false cmds elapsed fails = do modify (set_delay elapsed); pure (fails, cmds)
heartbeat true cmds elapsed fails = do
  modify (send ClientCommand.ping)
  r ← notified cmds
  modify (set_delay elapsed)
  pure (elim r.0 [ true ↦ 0 | false ↦ count_failure fails ], r.1)

-- Rounds one after the other, each with the commands that come in its wait and its time. A command
-- that is left when a wait ends is processed before the next round.
unfoldable pub heartbeats : List (List ServerCommand × ℕ) → ℕ → M ℕ
heartbeats [] fails = pure fails
heartbeats ((cmds, elapsed) ∷ rounds) fails = do
  r ← heartbeat true cmds elapsed fails
  process_all r.1
  heartbeats rounds r.0

-- `Client::ping`
unfoldable pub ping : List ServerCommand → ℕ → M (Reply ℕ × List ServerCommand)
unfolding notified
ping cmds elapsed = do
  modify (send ClientCommand.ping)
  r ← notified cmds
  elim r.0 [
    | true ↦ (do modify (set_delay elapsed); pure (success elapsed, r.1))
    | false ↦ pure (failure timeout, r.1)
  ]

-- The times of rounds in which no command comes.
abbrev pub silent : List ℕ → List (List ServerCommand × ℕ)
silent [] = []
silent (t ∷ ts) = ([], t) ∷ silent ts

-- After rounds without an answer, on a client that holds no permit, the count of failures is the
-- old count and the number of rounds, modulo 256: after 256 of them it is what it was.
pub heartbeats-silent :
    (times : List ℕ) (fails : ℕ) (st : State)
    → fails < 2 ^ 8
    → st.permit ≡ false
    → (st' : State) × (heartbeats (silent times) fails st
        ≡ returns ((fails + length times) % 2 ^ 8) st')
      × (st'.permit ≡ false)
unfolding heartbeats heartbeat process_all count_failure notified
heartbeats-silent [] fails st small idle = (st, ap (λ n. returns n st) (omega arith), idle)
heartbeats-silent (t ∷ times) fails st small idle =
    let st0 = set_delay t (record (send ClientCommand.ping st) { permit = false }) in
    let (st', run, still) = heartbeats-silent times (count_failure fails) st0 (omega arith) refl in
    (st', rw idle (run ∙ ap (λ n. returns n st') (omega arith)), still)
