-- ===== src/Session/Tame/Whole.antt =====
-- `process` is tame.
use phira_mp.Common.{ℕ, ◌≡◌, ◌⊎◌, inl, inr, refl, subst, Option-cases}
use phira_mp.Command.Types.{SResult, ServerCommand, ClientCommand}
use phira_mp.World.{World, Env, Run, returns, panics}
use phira_mp.Session.Handler.{H, answer, err_to_str}
use phira_mp.Session.Process.{process}
use phira_mp.Session.Tame.{Tame, Tame-refl, final}
use phira_mp.Session.Tame.Commands.{
  chat-Tame, touches-Tame, judges-Tame, create_room-Tame, join_room-Tame, leave_room-Tame,
  lock_room-Tame, cycle_room-Tame,
}
use phira_mp.Session.Tame.Games.{
  select_chart_of-Tame, request_start-Tame, ready-Tame, cancel_ready-Tame, played-Tame, abort-Tame,
}

pub Run-cases :
    {A : Type 0} (r : Run A)
    → ((a : A) × (w : World) × (r ≡ returns a w)) ⊎ ((w : World) × (r ≡ panics w))
Run-cases (returns a w) = inl (a, w, refl)
Run-cases (panics w) = inr (w, refl)

module _ (env : Env) (u : ℕ) where
  answer-Tame :
      {A : Type 0} (reply : SResult A → ServerCommand) (m : H A) (w : World)
      → Tame w (final (m w))
      → Tame w (final (answer env u reply m w))
  unfolding answer
  answer-Tame reply m w h = elim (Run-cases (m w)) [
    | inl (o, w', e) ↦ elim (Option-cases (err_to_str env (w.user_at u).lang o)) [
      | inl untold ↦ rw (answer, e) (rw untold (subst (λ r. Tame w (final r)) e h))
      | inr (s, told) ↦ rw (answer, e) (rw told (subst (λ r. Tame w (final r)) e h))
    ]
    | inr (w', e) ↦ rw (answer, e) (subst (λ r. Tame w (final r)) e h)
  ]

  -- Whatever command a user sends and however its answer ends, a panic included, no user's id,
  -- name, language, session or dangling mark changes, nor the map of users, nor which users and
  -- sessions are alive, nor who may monitor; and what address was in use still is.
  -- If before no room lists more than eight users, and the map of rooms has each room under its own
  -- id, that is so afterwards.
  pub process-Tame : (cmd : ClientCommand) (w : World) → Tame w (final (process env u cmd w))
  unfolding process
  process-Tame ClientCommand.ping w = Tame-refl w
  process-Tame (ClientCommand.authenticate token) w = Tame-refl w
  process-Tame (ClientCommand.chat message) w = answer-Tame _ _ w (chat-Tame u message.into_inner w)
  process-Tame (ClientCommand.touches frames) w = touches-Tame u frames w
  process-Tame (ClientCommand.judges events) w = judges-Tame u events w
  process-Tame (ClientCommand.create_room id) w = answer-Tame _ _ w (create_room-Tame u id w)
  process-Tame (ClientCommand.join_room id monitor) w =
      answer-Tame _ _ w (join_room-Tame u id monitor w)
  process-Tame ClientCommand.leave_room w = answer-Tame _ _ w (leave_room-Tame u env w)
  process-Tame (ClientCommand.lock_room lock) w = answer-Tame _ _ w (lock_room-Tame u lock w)
  process-Tame (ClientCommand.cycle_room cycle) w = answer-Tame _ _ w (cycle_room-Tame u cycle w)
  process-Tame (ClientCommand.select_chart id) w =
      answer-Tame _ _ w (select_chart_of-Tame u env id w)
  process-Tame ClientCommand.request_start w = answer-Tame _ _ w (request_start-Tame u w)
  process-Tame ClientCommand.ready w = answer-Tame _ _ w (ready-Tame u w)
  process-Tame ClientCommand.cancel_ready w = answer-Tame _ _ w (cancel_ready-Tame u w)
  process-Tame (ClientCommand.played id) w = answer-Tame _ _ w (played-Tame u env id w)
  process-Tame ClientCommand.abort w = answer-Tame _ _ w (abort-Tame u w)
