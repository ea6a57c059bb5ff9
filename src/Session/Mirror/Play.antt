-- ===== src/Session/Mirror/Play.antt =====
-- The touches and judges of a player, on the server and on a client that monitors the room.
use phira_mp.Common.{
  Bool, Option, ℕ, zero, suc, ◌≡◌, ◌≢◌, refl, sym, ap, ◌∙◌, true, none, some, List, [], ◌∷◌, ◌++◌,
  ◌==◌, Bool-cases, inl, inr, ==_iff, if◌then◌else◌, append-nil,
}
use phira_mp.Common.Int.{ℤ}
use phira_mp.Common.Eq.{int_eq}
use phira_mp.Common.Maps.{lookup-insert_self, lookup-insert_ne}
use phira_mp.Command.Types.{TouchFrame, JudgeEvent, ServerCommand, ClientCommand}
use phira_mp.World.{World, Env, returns}
use phira_mp.Room.Frame.{upgrade_all-alive}
use phira_mp.Room.{upgrade_all, monitors, broadcast_monitors}
use phira_mp.Session.Rooms.{id_of, store_time, touches, judges}
use phira_mp.Session.Process.{process}
use phira_mp.Session.Mirror.{
  commands_for, all_sent, sent, copies, repeat, send_all-sent, commands_for-all_sent,
}
use phira_mp.Client as Client
use phira_mp.Client.{LivePlayer, no_events}
use phira_mp.Client.Process.{
  process as client_process, process_all, live_player, extend_touches, extend_judges,
  set_live_player,
}
use phira_mp.Client.View.{bind_returns}

-- Storing a frame's time leaves sessions and the outbox alone.
record Timed (w w' : World) : Type 0 where
  pub session : (v : ℕ) → (w'.user_at v).session ≡ (w.user_at v).session
  pub session_alive : w'.session_alive ≡ w.session_alive
  pub alive : w'.alive ≡ w.alive
  pub room_at : w'.room_at ≡ w.room_at
  pub outbox : w'.outbox ≡ w.outbox

store_time-Timed : (u : ℕ) (frames : List TouchFrame) (w : World) → Timed w (store_time u frames w)
unfolding store_time
store_time-Timed u [] w = record {
  session = λ v. refl;
  session_alive = refl;
  alive = refl;
  room_at = refl;
  outbox = refl;
}
store_time-Timed u (f ∷ []) w = record {
  session = λ v. elim (Bool-cases (v == u)) [
    | inl here ↦ rw here (ap (λ x. (w.user_at x).session) (sym ((==_iff v u).0 here)))
    | inr apart ↦ rw apart refl
  ];
  session_alive = refl;
  alive = refl;
  room_at = refl;
  outbox = refl;
}
store_time-Timed u (f ∷ g ∷ fs) w = store_time-Timed u (g ∷ fs) w

Timed-refl : (w : World) → Timed w w
Timed-refl w = record {
  session = λ v. refl;
  session_alive = refl;
  alive = refl;
  room_at = refl;
  outbox = refl;
}

monitors-Timed : {w w' : World} → Timed w w' → (rm : ℕ) → monitors w' rm ≡ monitors w rm
unfolding monitors
monitors-Timed {w} {w'} t rm =
    upgrade_all-alive w w' (w'.room_at rm).monitors t.alive
    ∙ ap (λ f. upgrade_all w (f rm).monitors) t.room_at

sent-Timed :
    {w w' : World} → Timed w w' → (cmd : ServerCommand) (u : ℕ) → sent w' cmd u ≡ sent w cmd u
unfolding sent
sent-Timed {w} {w'} t cmd u =
    ap
      (λ (x : Option ℕ). elim x as (λ _. List (ℕ × ServerCommand)) [
        | none ↦ []
        | some s ↦ if w'.session_alive s then (s, cmd) ∷ [] else []
      ])
      (t.session u)
    ∙ ap
        (λ (live : ℕ → Bool). elim (w.user_at u).session as (λ _. List (ℕ × ServerCommand)) [
          | none ↦ []
          | some s ↦ if live s then (s, cmd) ∷ [] else []
        ])
        t.session_alive

all_sent-Timed :
    {w w' : World}
    → Timed w w'
    → (cmd : ServerCommand) (us : List ℕ) → all_sent w' cmd us ≡ all_sent w cmd us
unfolding all_sent
all_sent-Timed t cmd [] = refl
all_sent-Timed t cmd (u ∷ us) = rw (sent-Timed t cmd u, all_sent-Timed t cmd us) refl

module _ (player : ℤ) (st : Client.State) where
  live_player-same : (p : LivePlayer) → live_player player (set_live_player player p st) ≡ p
  unfolding live_player
  live_player-same p = rw (lookup-insert_self player p st.live_players, live_player) refl

  live_player-other :
      (p : LivePlayer) (other : ℤ)
      → player ≢ other
      → live_player other (set_live_player player p st) ≡ live_player other st
  unfolding live_player
  live_player-other p other apart =
      rw (lookup-insert_ne player other p st.live_players apart, live_player) refl

-- A player of a live room, and the client of a session which as many monitors of the room have as
-- `n` says.
module _ (env : Env) (u rm s : ℕ) (w : World) (st : Client.State) where
  -- What was sent to the monitors of the room, and what the client makes of its part of it.
  abbrev pub Watches : ClientCommand → ServerCommand → ℕ → (Client.State → Type 0) → Type 0
  Watches said heard n Then =
      (w' : World) × (out : List (ℕ × ServerCommand)) × (st' : Client.State) × (process env u said w
        ≡ returns none w')
      × (w'.outbox ≡ w.outbox ++ out)
      × (commands_for s out ≡ repeat n heard)
      × (process_all (commands_for s out) st ≡ Client.returns tt st')
      × Then st'

  -- The client's player has got more, and another player has not.
  abbrev pub Extends : ℤ → ℤ → List TouchFrame → List JudgeEvent → Client.State → Type 0
  Extends player other frames events st' =
      ((live_player player st').touch_frames ≡ (live_player player st).touch_frames ++ frames)
      × ((live_player player st').judge_events ≡ (live_player player st).judge_events ++ events)
      × (live_player other st' ≡ live_player other st)

  told_once :
      (cmd : ServerCommand)
      → copies w s (monitors w rm) ≡ suc zero
      → commands_for s (all_sent w cmd (monitors w rm)) ≡ cmd ∷ []
  told_once cmd one = commands_for-all_sent s cmd (monitors w rm) w ∙ ap (λ n. repeat n cmd) one

  -- The monitors of the room are told of what a player said, and the client makes `Then` true of it.
  watched :
      {Then : Client.State → Type 0} (said : ClientCommand) (cmd : ServerCommand) (w1 : World)
      (st' : Client.State)
      → Timed w w1
      → process env u said w ≡ returns none (broadcast_monitors rm cmd w1)
      → client_process cmd st ≡ Client.returns tt st'
      → copies w s (monitors w rm) ≡ suc zero
      → Then st'
      → Watches said cmd 1 Then
  unfolding broadcast_monitors monitors process_all
  watched said cmd w1 st' t run made one made_true =
      let out = all_sent w cmd (monitors w rm) in
      let same : all_sent w1 cmd (monitors w1 rm) ≡ out =
        all_sent-Timed t cmd (monitors w1 rm) ∙ ap (all_sent w cmd) (monitors-Timed t rm) in
      let got = told_once cmd one in
      (
        broadcast_monitors rm cmd w1,
        out,
        st',
        run,
        ap (λ (x : World). x.outbox) (send_all-sent (monitors w1 rm) cmd w1)
            ∙ ap (λ o. w1.outbox ++ o) same
            ∙ ap (λ o. o ++ out) t.outbox,
        got,
        ap (λ cmds. process_all cmds st) got
            ∙ bind_returns (client_process cmd) (λ _. process_all []) made,
        made_true,
      )

  -- A player of a live room sends frames of touches, or judge events, and one monitor of the room
  -- has the session `s`. Then this session is sent them once, and a client that takes them puts
  -- them behind those of the player that it has, and changes nothing of any other player.
  pub play-watched :
      (frames : List TouchFrame) (events : List JudgeEvent) (other : ℤ)
      → id_of u w ≢ other
      → (w.user_at u).room ≡ some rm
      → (w.room_at rm).live ≡ true
      → copies w s (monitors w rm) ≡ suc zero
      → Watches
          (ClientCommand.touches frames)
          (ServerCommand.touches (id_of u w) frames)
          1
          (Extends (id_of u w) other frames [])
        × Watches
            (ClientCommand.judges events)
            (ServerCommand.judges (id_of u w) events)
            1
            (Extends (id_of u w) other [] events)
  unfolding process touches judges client_process extend_touches extend_judges
  play-watched frames events other apart housed live one =
      let player = id_of u w in
      let p = live_player player st in
      let p1 = record p { touch_frames = p.touch_frames ++ frames } in
      let p2 = record p { judge_events = p.judge_events ++ events } in
      (
        watched (ClientCommand.touches frames) (ServerCommand.touches player frames)
            (store_time u frames w) (set_live_player player p1 st) (store_time-Timed u frames w)
            (rw (housed, touches, live) refl) refl one
            (
              ap (λ (q : LivePlayer). q.touch_frames) (live_player-same player st p1),
              ap (λ (q : LivePlayer). q.judge_events) (live_player-same player st p1)
                  ∙ sym (append-nil p.judge_events),
              live_player-other player st p1 other apart,
            ),
        watched (ClientCommand.judges events) (ServerCommand.judges player events) w
            (set_live_player player p2 st) (Timed-refl w) (rw (housed, judges, live) refl) refl one
            (
              ap (λ (q : LivePlayer). q.touch_frames) (live_player-same player st p2)
                  ∙ sym (append-nil p.touch_frames),
              ap (λ (q : LivePlayer). q.judge_events) (live_player-same player st p2),
              live_player-other player st p2 other apart,
            ),
      )
