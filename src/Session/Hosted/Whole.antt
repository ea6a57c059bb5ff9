-- ===== src/Session/Hosted/Whole.antt =====
-- `process` returns, and every room on the map has a host among its live users.
use phira_mp.Common.{
  ℕ, ◌≡◌, inl, inr, refl, sym, ap, ◌∙◌, subst, Bool, true, false, Option, some, ◌==◌ as nat_beq,
  ==_iff, Bool-cases, Option-cases, arith,
}
use phira_mp.Common.Eq.{int_eq, ◌==◌, beq→eq, beq_false→ne}
use phira_mp.Common.Maps.{
  lookup, insert, remove, lookup-insert_self, lookup-insert_ne, lookup-remove_self,
  lookup-remove_ne,
}
use phira_mp.Bin.Reader.{Bytes}
use phira_mp.Bin.Data.{Outcome, success, failure}
use phira_mp.Command.Types.{RoomId, room_id_eq, SResult, ServerCommand, ClientCommand}
use phira_mp.World.{World, Env, Key, Run, returns}
use phira_mp.Room.{new}
use phira_mp.Room.Turn.{on_user_leave}
use phira_mp.Room.Frame.{Local, Local-trans, Becomes-Local, update_other}
use phira_mp.Room.Host.{HasHost}
use phira_mp.Room.Leaving.{IsChoice, detach-Becomes}
use phira_mp.Room.Hosting.{on_user_leave-Leaves}
use phira_mp.Session.Handler.{
  no_room, already_in_room, localized, H, lift, err_to_str, answer, tl, text, Failure, get_room,
}
use phira_mp.Session.Rooms.{open_room, create_room, drop_room, leave_room}
use phira_mp.Session.Effects.{
  open_room-Becomes, rooms-open_room, HasHost-open_room, create_room-open_room,
}
use phira_mp.Session.Guards.{bind_succeeds, bind_fails, get_room-none, get_room-some}
use phira_mp.Session.Process.{process}
use phira_mp.Session.Tame.{Roomy, final}
use phira_mp.Session.Tame.Rooms.{on_user_leave-Tame}
use phira_mp.Session.Tame.Whole.{process-Tame}
use phira_mp.Session.Hosted.{Steady, HasHost-apart, HasHost-elsewhere, Serves}
use phira_mp.Session.Hosted.Rooms.{
  chat-Serves, lock_room-Serves, cycle_room-Serves, touches-Steady, judges-Steady, join_room-Serves,
}
use phira_mp.Session.Hosted.Games.{
  Settled, request_start-Serves, ready-Serves, cancel_ready-Serves, abort-Serves,
  select_chart_of-Serves, played-Serves,
}

-- Every room on the map has its host among its live users.
pub record Hosted (w : World) : Type 0 where
  pub has_host : (id : RoomId) (rm : ℕ) → lookup id w.rooms ≡ some rm → HasHost w rm

-- The room that the user is in, if any, is on the map under its id.
abbrev pub OnMap : ℕ → World → Type 0
OnMap u w = (rm : ℕ) → (w.user_at u).room ≡ some rm → lookup (w.room_at rm).id w.rooms ≡ some rm

-- A run returns to a state in which every room on the map is hosted.
abbrev pub Housekeeps : {A : Type 0} → Run A → Type 0
Housekeeps {A} r = (a : A) × (w' : World) × (r ≡ returns a w') × Hosted w'

Steady-Hosted : {w w' : World} → Steady w w' → Hosted w → Hosted w'
Steady-Hosted s h = record {
  has_host = λ id rm e. s.hosts rm (h.has_host id rm (ap (lookup id) (sym s.rooms) ∙ e));
}

kept : {A : Type 0} {w : World} (r : Run A) → Hosted w → Serves w r → Housekeeps r
kept r h (a, w', run, s) = (a, w', run, Steady-Hosted s h)

module _ (u : ℕ) (w : World) (h : Hosted w) (roomy : Roomy w) where
  Hosted-open_room : (id : RoomId) → w.alive u ≡ true → Hosted (open_room u id w)
  Hosted-open_room id here = record {
    has_host = λ j q e.
        let e1 = ap (lookup j) (sym (rooms-open_room u id w)) ∙ e in
        elim (Bool-cases (id == j)) [
          | inl t ↦
              let same = beq→eq {j = id} {k = j} t in
              let found =
                ap (λ i. lookup i (insert id w.fresh w.rooms)) (sym same)
                ∙ lookup-insert_self id w.fresh w.rooms in
              let at_fresh : w.fresh ≡ q = cc (found, e1) in
              subst (HasHost (open_room u id w)) at_fresh (HasHost-open_room u id w here)
          | inr f ↦
              let old = sym (lookup-insert_ne id j w.fresh w.rooms (beq_false→ne f)) ∙ e1 in
              let below = (roomy.listed j q old).1 in
              let apart : nat_beq q w.fresh ≡ false = ground (arith, below) in
              let b = open_room-Becomes u id w in
              HasHost-apart q
                (b.elsewhere q apart ∙ update_other w.room_at w.fresh q (new id u) apart) b.alive
                (h.has_host j q old)
        ];
  }

  create_room-Housekeeps : (id : RoomId) → w.alive u ≡ true → Housekeeps (create_room u id w)
  unfolding create_room
  create_room-Housekeeps id here = elim (Option-cases (w.user_at u).room) [
    | inr (rm, e) ↦ (failure already_in_room, w, rw e refl, h)
    | inl e ↦ elim (Option-cases (lookup id w.rooms)) [
      | inr (rm, taken) ↦ (failure (localized Key.create_id_occupied), w, rw (e, taken) refl, h)
      | inl free ↦ (
        success tt,
        open_room u id w,
        create_room-open_room u id w e free,
        Hosted-open_room id here,
      )
    ]
  ]

  -- A leave that did not drop the room.
  Hosted-stays : (rm : ℕ) (w1 : World) → Local w w1 rm → HasHost w1 rm → Hosted w1
  Hosted-stays rm w1 l hosted = record {
    has_host = λ j q e.
        let before = h.has_host j q (ap (lookup j) (sym l.rooms) ∙ e) in
        elim (Bool-cases (nat_beq q rm)) [
          | inl here ↦ subst (HasHost w1) (sym ((==_iff q rm).0 here)) hosted
          | inr apart ↦ HasHost-elsewhere l q apart before
        ];
  }

  -- A room that is dropped is on the map no more.
  Hosted-dropped : (rm : ℕ) (w1 : World) → Local w w1 rm → Roomy w1 → Hosted (drop_room rm true w1)
  unfolding drop_room
  Hosted-dropped rm w1 l roomy1 = record {
    has_host = λ j q e.
        let k = (w1.room_at rm).id in
        elim (Bool-cases (k == j)) [
          | inl t ↦
              let gone =
                ap (λ i. lookup i (remove k w1.rooms)) (sym (beq→eq {j = k} {k = j} t))
                ∙ lookup-remove_self k w1.rooms in
              absurd (cc (gone, e))
          | inr f ↦
              let ne = beq_false→ne f in
              let old = sym (lookup-remove_ne k j w1.rooms ne) ∙ e in
              elim (Bool-cases (nat_beq q rm)) [
                | inl here ↦ absurd (
                    ne (
                      ap (λ x. (w1.room_at x).id) (sym ((==_iff q rm).0 here))
                      ∙ (roomy1.listed j q old).0))
                | inr apart ↦
                    HasHost-apart {w = w} q (l.elsewhere q apart) l.alive
                      (h.has_host j q (ap (lookup j) (sym l.rooms) ∙ old))
              ]
        ];
  }

  Hosted-drop_room :
      (rm : ℕ) (drop : Bool) (w1 : World)
      → Local w w1 rm
      → Roomy w1
      → (drop ≡ false → HasHost w1 rm)
      → Hosted (drop_room rm drop w1)
  unfolding drop_room
  Hosted-drop_room rm true w1 l roomy1 hosted = Hosted-dropped rm w1 l roomy1
  Hosted-drop_room rm false w1 l roomy1 hosted = Hosted-stays rm w1 l (hosted refl)

  left :
      (env : Env) (rm : ℕ) {drop : Bool} {w1 : World}
      → on_user_leave env rm u w ≡ returns drop w1
      → lift (on_user_leave env rm u) w ≡ returns (success drop) w1
  left env rm run = rw (run, lift) refl

  leave_room-Housekeeps : (env : Env) → IsChoice env → Settled u w → Housekeeps (leave_room env u w)
  unfolding leave_room
  leave_room-Housekeeps env choice settled = elim (Option-cases (w.user_at u).room) [
    | inl e ↦ (failure no_room, w, bind_fails (get_room u) _ (get_room-none u w e), h)
    | inr (rm, e) ↦
        let (drop, w1, run, same, local, gone, hosted) =
          on_user_leave-Leaves env choice rm u w (settled rm e) in
        let l = Local-trans (Becomes-Local (detach-Becomes rm u w)) local in
        let roomy1 : Roomy w1 =
          subst (λ r. Roomy (final r)) run ((on_user_leave-Tame env rm u w).roomy roomy) in
        (
          success tt,
          drop_room rm drop w1,
          bind_succeeds (get_room u) _ (get_room-some u rm w e)
              ∙ bind_succeeds (lift (on_user_leave env rm u)) _ (left env rm run),
          Hosted-drop_room rm drop w1 l roomy1 hosted,
        )
  ]

-- The commands that a client can send to its handler: `Ping` is answered before it.
abbrev pub is_ping : ClientCommand → Bool
is_ping ClientCommand.ping = true
is_ping _ = false

-- Every text that `tl!` is asked for has a translation in this language.
abbrev pub Speaks : Env → ℕ → Type 0
Speaks env lang = (key : Key) → (s : Bytes) × (tl env lang key ≡ some s)

told :
    {A : Type 0} (env : Env) (lang : ℕ)
    → Speaks env lang
    → (o : Outcome A Failure) → (r : SResult A) × (err_to_str env lang o ≡ some r)
unfolding err_to_str text
told env lang speaks (success a) = (success a, refl)
told env lang speaks (failure (localized key)) =
    let (s, e) = speaks key in (failure s, rw (e, text, err_to_str) refl)
told env lang speaks (failure _) = (_, refl)

module _ (env : Env) (choice : IsChoice env) (u : ℕ) (w : World) (h : Hosted w) (roomy : Roomy w)
    (here : w.alive u ≡ true) (on_map : OnMap u w) (speaks : Speaks env (w.user_at u).lang) where
  settled : Settled u w
  settled rm e = h.has_host (w.room_at rm).id rm (on_map rm e)

  answered :
      {A : Type 0} (reply : SResult A → ServerCommand) (m : H A)
      → Housekeeps (m w)
      → Housekeeps (answer env u reply m w)
  unfolding answer
  answered reply m (o, w', run, hosted) =
      let (r, said) = told env (w.user_at u).lang speaks o in
      (some (reply r), w', rw (answer, run) (rw said refl), hosted)

  served :
      {A : Type 0} (reply : SResult A → ServerCommand) (m : H A)
      → Serves w (m w)
      → Housekeeps (answer env u reply m w)
  served reply m s = answered reply m (kept (m w) h s)

  process-Housekeeps :
      (cmd : ClientCommand) → is_ping cmd ≡ false → Housekeeps (process env u cmd w)
  unfolding process
  process-Housekeeps ClientCommand.ping e = cc
  process-Housekeeps (ClientCommand.authenticate token) e = (_, w, refl, h)
  process-Housekeeps (ClientCommand.chat message) e =
      served _ _ (chat-Serves u w message.into_inner)
  process-Housekeeps (ClientCommand.touches frames) e =
      (_, _, refl, Steady-Hosted (touches-Steady u w frames) h)
  process-Housekeeps (ClientCommand.judges events) e =
      (_, _, refl, Steady-Hosted (judges-Steady u w events) h)
  process-Housekeeps (ClientCommand.create_room id) e =
      answered _ _ (create_room-Housekeeps u w h roomy id here)
  process-Housekeeps (ClientCommand.join_room id monitor) e =
      served _ _ (join_room-Serves u w id monitor)
  process-Housekeeps ClientCommand.leave_room e =
      answered _ _ (leave_room-Housekeeps u w h roomy env choice settled)
  process-Housekeeps (ClientCommand.lock_room lock) e = served _ _ (lock_room-Serves u w lock)
  process-Housekeeps (ClientCommand.cycle_room cycle) e = served _ _ (cycle_room-Serves u w cycle)
  process-Housekeeps (ClientCommand.select_chart id) e =
      served _ _ (select_chart_of-Serves u w settled env id)
  process-Housekeeps ClientCommand.request_start e = served _ _ (request_start-Serves u w settled)
  process-Housekeeps ClientCommand.ready e = served _ _ (ready-Serves u w settled)
  process-Housekeeps ClientCommand.cancel_ready e = served _ _ (cancel_ready-Serves u w settled)
  process-Housekeeps (ClientCommand.played id) e = served _ _ (played-Serves u w settled env id)
  process-Housekeeps ClientCommand.abort e = served _ _ (abort-Serves u w settled)

  -- The random choice picks a member of every list that is not empty.
  -- Every room on the map has its host among its live users, no room lists more than eight users,
  -- and the map has each room under its own id. A live user, whose room if any is on the map and
  -- whose language has every translation that is asked for, sends any command but a ping. Then the handler does not panic, and all of this holds afterwards.
  pub process-Hosted :
      (cmd : ClientCommand)
      → is_ping cmd ≡ false
      → (reply : Option ServerCommand) × (w' : World) × (process env u cmd w ≡ returns reply w')
        × Hosted w'
        × Roomy w'
  process-Hosted cmd e =
      let (reply, w', run, hosted) = process-Housekeeps cmd e in
      (
        reply,
        w',
        run,
        hosted,
        subst (λ r. Roomy (final r)) run ((process-Tame env u cmd w).roomy roomy),
      )
