-- ===== src/Session/Hosted/Games.antt =====
-- The commands that a game goes by return in a room with a host, and keep the hosts.
use phira_mp.Common.{
  refl, ℕ, ◌≡◌, inl, inr, Bool, true, false, not, some, [], ◌∷◌, Bool-cases, Option-cases,
}
use phira_mp.Common.Int.{ℤ}
use phira_mp.Common.Eq.{◌==◌, int_eq}
use phira_mp.Common.Maps.{insert}
use phira_mp.Bin.Reader.{Bytes}
use phira_mp.Bin.Data.{Outcome, success, failure}
use phira_mp.Command.Types.{Message}
use phira_mp.World.{
  InternalRoomState, select_chart, wait_for_ready, playing, Record, World, Env, Key,
}
use phira_mp.Room.{
  contains, contains_key, send, check_host, on_state_change, set_state, reset_game_time,
}
use phira_mp.Room.Turn.{check_all_ready}
use phira_mp.Room.Frame.{on_state_change-Quiet}
use phira_mp.Room.Host.{HasHost}
use phira_mp.Room.Hosting.{check_all_ready-Keeps}
use phira_mp.Session.Handler.{
  Failure, no_room, invalid_state, only_host, already_ready, not_ready, invalid_record, aborted,
  already_uploaded, service, localized, H, ◌>>=◌, lift, from_service, get_room,
}
use phira_mp.Session.Rooms.{id_of, is_none, is_select_chart, require_host}
use phira_mp.Session.Game.{
  get_idle_room, select_chart_of, request_start, ready_in, ready, remove_id, cancel_as,
  cancel_ready_in, cancel_ready, upload_in, played, abort_in, abort,
}
use phira_mp.Session.Hosted.{
  Steady, Steady-refl, Steady-trans, Local-Steady, set_room-Steady, Quiet-Steady,
  reset_game_time-Steady, Serves, ended, required, room_step,
}
use phira_mp.Session.Hosted.Rooms.{send-Steady}

abbrev set_state-Steady :
    (rm : ℕ) (state : InternalRoomState) (w : World) → Steady w (set_state rm state w)
set_state-Steady rm state w = set_room-Steady rm _ w refl refl

on_state_change-Steady : (rm : ℕ) (w : World) → Steady w (on_state_change rm w)
on_state_change-Steady rm w = Quiet-Steady (on_state_change-Quiet rm w)

served :
    {A B : Type 0} (w : World) (o : Outcome A Bytes) (k : A → H B)
    → ((a : A) → Serves w (k a w))
    → Serves w ((from_service o >>= k) w)
served w (success a) k h = h a
served w (failure e) k h = ended w w (failure (service e)) (Steady-refl w)

-- The last step of most of them.
checked :
    (rm : ℕ) (w w1 : World) → HasHost w rm → Steady w w1 → Serves w (lift (check_all_ready rm) w1)
checked rm w w1 h s =
    let (w', run, k) = check_all_ready-Keeps rm w1 (s.hosts rm h) in
    (success tt, w', rw (run, lift) refl, Steady-trans s (Local-Steady k.local (λ _. k.hosted)))

-- The user's room, if it is in one, has a host.
abbrev pub Settled : ℕ → World → Type 0
Settled u w = (rm : ℕ) → (w.user_at u).room ≡ some rm → HasHost w rm

module _ (u : ℕ) (w : World) (hosted : Settled u w) where
  in_room :
      {A : Type 0} (k : ℕ → H A)
      → ((rm : ℕ) → HasHost w rm → Serves w (k rm w))
      → Serves w ((get_room u >>= k) w)
  in_room k h = room_step w w u k (Steady-refl w) (λ rm e. h rm (hosted rm e))

  in_idle_room :
      {A : Type 0} (k : ℕ → H A)
      → ((rm : ℕ) → HasHost w rm → Serves w (k rm w))
      → Serves w ((get_idle_room u >>= k) w)
  unfolding get_idle_room get_room
  in_idle_room {A} k h = elim (Option-cases (w.user_at u).room) [
    | inl e ↦
        rw (e, get_idle_room, get_room, ◌>>=◌)
          (ended {A = Outcome A Failure} w w (failure no_room) (Steady-refl w))
    | inr (rm, e) ↦ elim (Bool-cases (is_select_chart (w.room_at rm).state)) [
      | inl idle ↦ rw (e, get_idle_room, get_room, ◌>>=◌) (rw idle (h rm (hosted rm e)))
      | inr busy ↦
          rw (e, get_idle_room, get_room, ◌>>=◌)
            (rw busy (ended {A = Outcome A Failure} w w (failure invalid_state) (Steady-refl w)))
    ]
  ]

  pub request_start-Serves : Serves w (request_start u w)
  unfolding request_start require_host
  request_start-Serves = in_idle_room _ (λ rm h.
      let w1 = reset_game_time rm w in
      let w2 = send rm (Message.game_start (id_of u w1)) w1 in
      let w3 = set_state rm (wait_for_ready (id_of u w2 ∷ [])) w2 in
      required w w (check_host w rm u) only_host _ (Steady-refl w) (
        required w w (not (is_none (w.room_at rm).chart)) (localized Key.start_no_chart_selected) _
          (Steady-refl w)
          (checked rm w (on_state_change rm w3) h (
            Steady-trans (reset_game_time-Steady rm w) (
              Steady-trans (send-Steady rm _ w1)
                (Steady-trans (set_state-Steady rm _ w2) (on_state_change-Steady rm w3)))))))

  ready_in-Serves :
      (rm : ℕ) (state : InternalRoomState) → HasHost w rm → Serves w (ready_in rm u state w)
  unfolding ready_in
  ready_in-Serves rm (wait_for_ready started) h =
      let k = id_of u w in
      let w1 = set_state rm (wait_for_ready (k ∷ started)) w in
      required w w (not (contains k started)) already_ready _ (Steady-refl w) (
        checked rm w (send rm (Message.ready k) w1) h
          (Steady-trans (set_state-Steady rm _ w) (send-Steady rm _ w1)))
  ready_in-Serves rm select_chart h = ended w w (success tt) (Steady-refl w)
  ready_in-Serves rm (playing results out) h = ended w w (success tt) (Steady-refl w)

  pub ready-Serves : Serves w (ready u w)
  unfolding ready
  ready-Serves = in_room _ (λ rm h. ready_in-Serves rm (w.room_at rm).state h)

  cancel_as-Steady : (host : Bool) (rm : ℕ) (k : ℤ) (v : World) → Steady v (cancel_as host rm k v)
  unfolding cancel_as
  cancel_as-Steady true rm k v =
      let w1 = send rm (Message.cancel_game k) v in
      Steady-trans (send-Steady rm _ v)
        (Steady-trans (set_state-Steady rm select_chart w1) (on_state_change-Steady rm _))
  cancel_as-Steady false rm k v = send-Steady rm _ v

  cancel_ready_in-Serves :
      (rm : ℕ) (state : InternalRoomState) → Serves w (cancel_ready_in rm u state w)
  unfolding cancel_ready_in
  cancel_ready_in-Serves rm (wait_for_ready started) =
      let k = id_of u w in
      let w1 = set_state rm (wait_for_ready (remove_id k started)) w in
      required w w (contains k started) not_ready _ (Steady-refl w) (
        ended w _ (success tt)
          (Steady-trans (set_state-Steady rm _ w) (cancel_as-Steady (check_host w1 rm u) rm k w1)))
  cancel_ready_in-Serves rm select_chart = ended w w (success tt) (Steady-refl w)
  cancel_ready_in-Serves rm (playing results out) = ended w w (success tt) (Steady-refl w)

  pub cancel_ready-Serves : Serves w (cancel_ready u w)
  unfolding cancel_ready
  cancel_ready-Serves = in_room _ (λ rm h. cancel_ready_in-Serves rm (w.room_at rm).state)

  -- From a later state than the handler's first.
  upload_in-Serves :
      (rm : ℕ) (res : Record) (state : InternalRoomState) (v : World)
      → Steady w v
      → HasHost w rm
      → Serves w (upload_in rm u res state v)
  unfolding upload_in
  upload_in-Serves rm res (playing results out) v s h =
      let k = id_of u v in
      let v1 = set_state rm (playing (insert k res results) out) v in
      let s1 = Steady-trans s (set_state-Steady rm _ v) in
      required w v (not (contains k out)) aborted _ s
        (required w v1 (not (contains_key k results)) already_uploaded _ s1 (checked rm w v1 h s1))
  upload_in-Serves rm res select_chart v s h = ended w v (success tt) s
  upload_in-Serves rm res (wait_for_ready started) v s h = ended w v (success tt) s

  abort_in-Serves :
      (rm : ℕ) (state : InternalRoomState) → HasHost w rm → Serves w (abort_in rm u state w)
  unfolding abort_in
  abort_in-Serves rm (playing results out) h =
      let k = id_of u w in
      let w1 = set_state rm (playing results (k ∷ out)) w in
      required w w (not (contains_key k results)) already_uploaded _ (Steady-refl w) (
        required w w (not (contains k out)) aborted _ (Steady-refl w) (
          checked rm w (send rm (Message.abort k) w1) h
            (Steady-trans (set_state-Steady rm _ w) (send-Steady rm _ w1))))
  abort_in-Serves rm select_chart h = ended w w (success tt) (Steady-refl w)
  abort_in-Serves rm (wait_for_ready started) h = ended w w (success tt) (Steady-refl w)

  pub abort-Serves : Serves w (abort u w)
  unfolding abort
  abort-Serves = in_room _ (λ rm h. abort_in-Serves rm (w.room_at rm).state h)

  module _ (env : Env) (id : ℤ) where
    pub select_chart_of-Serves : Serves w (select_chart_of env u id w)
    unfolding select_chart_of require_host
    select_chart_of-Serves = in_idle_room _ (λ rm h.
        required w w (check_host w rm u) only_host _ (Steady-refl w) (
          served w (env.fetch_chart id) _ (λ chart.
            let w1 = send rm (Message.select_chart (id_of u w) chart.name chart.id) w in
            ended w _ (success tt) (
              Steady-trans (send-Steady rm _ w)
                (Steady-trans (set_room-Steady rm _ w1 refl refl) (on_state_change-Steady rm _))))))

    pub played-Serves : Serves w (played env u id w)
    unfolding played
    played-Serves = in_room _ (λ rm h. served w (env.fetch_record id) _ (λ res.
        let w1 = send rm (Message.played (id_of u w) res.score res.accuracy res.full_combo) w in
        required w w (res.player == id_of u w) invalid_record _ (Steady-refl w)
          (upload_in-Serves rm res (w1.room_at rm).state w1 (send-Steady rm _ w) h)))
