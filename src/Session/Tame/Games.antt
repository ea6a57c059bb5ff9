-- ===== src/Session/Tame/Games.antt =====
-- The commands that a game goes by are tame.
use phira_mp.Common.{refl, ℕ, inl, inr, Bool, true, false, not, [], ◌∷◌, Bool-cases, Option-cases}
use phira_mp.Common.Int.{ℤ}
use phira_mp.Common.Eq.{◌==◌, int_eq}
use phira_mp.Common.Maps.{insert}
use phira_mp.Bin.Reader.{Bytes}
use phira_mp.Bin.Data.{Outcome, success, failure}
use phira_mp.Command.Types.{Message}
use phira_mp.World.{
  InternalRoomState, select_chart, wait_for_ready, playing, Record, World, Env, Key,
}
use phira_mp.Room.{
  contains, contains_key, send, check_host, on_state_change, set_state, reset_game_time,
}
use phira_mp.Room.Turn.{check_all_ready}
use phira_mp.Session.Handler.{
  only_host, already_ready, not_ready, invalid_record, aborted, already_uploaded, localized, H,
  ◌>>=◌, lift, from_service, get_room,
}
use phira_mp.Session.Rooms.{id_of, is_none, is_select_chart, require_host}
use phira_mp.Session.Game.{
  get_idle_room, select_chart_of, request_start, ready_in, ready, remove_id, cancel_as,
  cancel_ready_in, cancel_ready, upload_in, played, abort_in, abort,
}
use phira_mp.Session.Tame.{
  Tame, Tame-refl, Tame-trans, set_room-Tame, reset_game_time-Tame, final, room_step, required,
  lifted_last,
}
use phira_mp.Session.Tame.Rooms.{send-Tame, on_state_change-Tame, check_all_ready-Tame}

abbrev set_state-Tame :
    (rm : ℕ) (state : InternalRoomState) (w : World) → Tame w (set_state rm state w)
set_state-Tame rm state w = set_room-Tame rm _ w refl (λ h. h)

served :
    {A B : Type 0} (o : Outcome A Bytes) (k : A → H B) (w : World)
    → ((a : A) → Tame w (final (k a w)))
    → Tame w (final ((from_service o >>= k) w))
served (success a) k w h = h a
served (failure e) k w h = Tame-refl w

checked-Tame : (rm : ℕ) (w w' : World) → Tame w w' → Tame w (final (lift (check_all_ready rm) w'))
checked-Tame rm w w' t =
    Tame-trans t (lifted_last w' (check_all_ready rm) (check_all_ready-Tame rm w'))

module _ (u : ℕ) where
  idle_room_step :
      {A : Type 0} (w : World) (k : ℕ → H A)
      → ((rm : ℕ) → Tame w (final (k rm w)))
      → Tame w (final ((get_idle_room u >>= k) w))
  unfolding get_idle_room get_room
  idle_room_step w k h = elim (Option-cases (w.user_at u).room) [
    | inl e ↦ rw (e, get_idle_room, get_room, ◌>>=◌) (Tame-refl w)
    | inr (rm, e) ↦ elim (Bool-cases (is_select_chart (w.room_at rm).state)) [
      | inl idle ↦ rw (e, get_idle_room, get_room, ◌>>=◌) (rw idle (h rm))
      | inr busy ↦ rw (e, get_idle_room, get_room, ◌>>=◌) (rw busy (Tame-refl w))
    ]
  ]

  pub request_start-Tame : (w : World) → Tame w (final (request_start u w))
  unfolding request_start require_host
  request_start-Tame w = idle_room_step w _ (λ rm.
      let w1 = reset_game_time rm w in
      let w2 = send rm (Message.game_start (id_of u w1)) w1 in
      let w3 = set_state rm (wait_for_ready (id_of u w2 ∷ [])) w2 in
      required w (check_host w rm u) only_host _ (
        required w (not (is_none (w.room_at rm).chart)) (localized Key.start_no_chart_selected) _ (
          checked-Tame rm w (on_state_change rm w3) (
            Tame-trans (reset_game_time-Tame rm w) (
              Tame-trans (send-Tame rm _ w1)
                (Tame-trans (set_state-Tame rm _ w2) (on_state_change-Tame rm w3)))))))

  ready_in-Tame :
      (rm : ℕ) (state : InternalRoomState) (w : World) → Tame w (final (ready_in rm u state w))
  unfolding ready_in
  ready_in-Tame rm (wait_for_ready started) w =
      let k = id_of u w in
      let w1 = set_state rm (wait_for_ready (k ∷ started)) w in
      required w (not (contains k started)) already_ready _ (
        checked-Tame rm w (send rm (Message.ready k) w1)
          (Tame-trans (set_state-Tame rm _ w) (send-Tame rm _ w1)))
  ready_in-Tame rm select_chart w = Tame-refl w
  ready_in-Tame rm (playing results out) w = Tame-refl w

  pub ready-Tame : (w : World) → Tame w (final (ready u w))
  unfolding ready
  ready-Tame w = room_step w u _ (λ rm. ready_in-Tame rm (w.room_at rm).state w)

  cancel_as-Tame : (host : Bool) (rm : ℕ) (k : ℤ) (w : World) → Tame w (cancel_as host rm k w)
  unfolding cancel_as
  cancel_as-Tame true rm k w =
      let w1 = send rm (Message.cancel_game k) w in
      Tame-trans (send-Tame rm _ w)
        (Tame-trans (set_state-Tame rm select_chart w1) (on_state_change-Tame rm _))
  cancel_as-Tame false rm k w = send-Tame rm _ w

  cancel_ready_in-Tame :
      (rm : ℕ) (state : InternalRoomState) (w : World)
      → Tame w (final (cancel_ready_in rm u state w))
  unfolding cancel_ready_in
  cancel_ready_in-Tame rm (wait_for_ready started) w =
      let k = id_of u w in
      let w1 = set_state rm (wait_for_ready (remove_id k started)) w in
      required w (contains k started) not_ready _
        (Tame-trans (set_state-Tame rm _ w) (cancel_as-Tame (check_host w1 rm u) rm k w1))
  cancel_ready_in-Tame rm select_chart w = Tame-refl w
  cancel_ready_in-Tame rm (playing results out) w = Tame-refl w

  pub cancel_ready-Tame : (w : World) → Tame w (final (cancel_ready u w))
  unfolding cancel_ready
  cancel_ready-Tame w = room_step w u _ (λ rm. cancel_ready_in-Tame rm (w.room_at rm).state w)

  upload_in-Tame :
      (rm : ℕ) (res : Record) (state : InternalRoomState) (w : World)
      → Tame w (final (upload_in rm u res state w))
  unfolding upload_in
  upload_in-Tame rm res (playing results out) w =
      let k = id_of u w in
      let w1 = set_state rm (playing (insert k res results) out) w in
      required w (not (contains k out)) aborted _ (
        Tame-trans (set_state-Tame rm _ w) (
          required w1 (not (contains_key k results)) already_uploaded _
            (checked-Tame rm w1 w1 (Tame-refl w1))))
  upload_in-Tame rm res select_chart w = Tame-refl w
  upload_in-Tame rm res (wait_for_ready started) w = Tame-refl w

  abort_in-Tame :
      (rm : ℕ) (state : InternalRoomState) (w : World) → Tame w (final (abort_in rm u state w))
  unfolding abort_in
  abort_in-Tame rm (playing results out) w =
      let k = id_of u w in
      let w1 = set_state rm (playing results (k ∷ out)) w in
      required w (not (contains_key k results)) already_uploaded _ (
        required w (not (contains k out)) aborted _ (
          checked-Tame rm w (send rm (Message.abort k) w1)
            (Tame-trans (set_state-Tame rm _ w) (send-Tame rm _ w1))))
  abort_in-Tame rm select_chart w = Tame-refl w
  abort_in-Tame rm (wait_for_ready started) w = Tame-refl w

  pub abort-Tame : (w : World) → Tame w (final (abort u w))
  unfolding abort
  abort-Tame w = room_step w u _ (λ rm. abort_in-Tame rm (w.room_at rm).state w)

  module _ (env : Env) (id : ℤ) where
    pub select_chart_of-Tame : (w : World) → Tame w (final (select_chart_of env u id w))
    unfolding select_chart_of require_host
    select_chart_of-Tame w = idle_room_step w _ (λ rm. required w (check_host w rm u) only_host _ (
        served (env.fetch_chart id) _ w (λ chart.
          let w1 = send rm (Message.select_chart (id_of u w) chart.name chart.id) w in
          Tame-trans (send-Tame rm _ w)
            (Tame-trans (set_room-Tame rm _ w1 refl (λ h. h)) (on_state_change-Tame rm _)))))

    pub played-Tame : (w : World) → Tame w (final (played env u id w))
    unfolding played
    played-Tame w = room_step w u _ (λ rm. served (env.fetch_record id) _ w (λ res.
        let w1 = send rm (Message.played (id_of u w) res.score res.accuracy res.full_combo) w in
        required w (res.player == id_of u w) invalid_record _
          (Tame-trans (send-Tame rm _ w) (upload_in-Tame rm res (w1.room_at rm).state w1))))
