-- ===== src/Session/Mirror/Joining.antt =====
-- Joining a room, on the server and on the client that asks for it.
pub mod Server
use phira_mp.Common.{
  subst, ℕ, ◌≡◌, refl, sym, ap, ◌∙◌, Bool, true, false, not, Option, none, some, List, [], ◌∷◌,
  ◌++◌, map, Bool-cases, Option-cases, inl, inr, if◌then◌else◌,
}
use phira_mp.Common.Int.{ℤ}
use phira_mp.Common.Eq.{int_eq}
use phira_mp.Common.Maps.{lookup, insert_all}
use phira_mp.Bin.Data.{success}
use phira_mp.Command.Types.{
  RoomId, room_id_eq, UserInfo, JoinRoomResponse, ServerCommand, ClientCommand,
}
use phira_mp.World.{InternalRoomState, select_chart, wait_for_ready, playing, World, Env, returns}
use phira_mp.Room.{client_state, check_host, to_info, is_started, users, monitors, contains}
use phira_mp.Session.Rooms.{is_select_chart, join_room, join_response}
use phira_mp.Session.Process.{process}
use phira_mp.Session.Tame.{Roomy}
use phira_mp.Session.Mirror.{commands_for}
use phira_mp.Session.Mirror.Entering.{answer_success}
use phira_mp.Session.Mirror.Joining.Server.{
  Joined, join_room-Joined, Kept, Kept-trans, add_user-Kept, enter_room-Kept, check_host-joined,
  told, outbox-enter_room, outbox-add_user, harmless-told,
}
use phira_mp.Session.Rooms.{enter_room}
use phira_mp.Room.{add_user}
use phira_mp.Client as Client
use phira_mp.Client.Calls as Calls
use phira_mp.Client.Calls.{joined_room, received, join_reply}
use phira_mp.Client.View.{bind_returns}
use phira_mp.Client.Answers.{answer_of}
use phira_mp.Client.Outside.{all_harmless, rcall-Outside}

idle_unready :
    (state : InternalRoomState) (w : World) (u : ℕ)
    → is_select_chart state ≡ true
    → is_started state (w.user_at u).id ≡ false
unfolding is_started
idle_unready select_chart w u h = refl
idle_unready (wait_for_ready started) w u h = cc
idle_unready (playing results out) w u h = refl

-- A client keys the infos by their ids, as the server does.
keyed :
    (w : World) (us : List ℕ)
    → map {B = ℤ × UserInfo} (λ (i : UserInfo). (i.id, i)) (map (λ v. to_info (w.user_at v)) us)
      ≡ map {B = ℤ × UserInfo} (λ v. ((w.user_at v).id, to_info (w.user_at v))) us
unfolding to_info
keyed w [] = refl
keyed w (u ∷ us) = ap (λ xs. ((w.user_at u).id, to_info (w.user_at u)) ∷ xs) (keyed w us)

-- What a client makes of the answer, and what the server would tell it, differ in the cycle at most.
joined_room-client_state :
    (w : World) (rm u : ℕ) (id : RoomId)
    → (w.room_at rm).id ≡ id
    → (w.room_at rm).locked ≡ false
    → check_host w rm u ≡ false
    → is_select_chart (w.room_at rm).state ≡ true
    → joined_room id (join_response rm w) ≡ record (client_state w rm u) { cycle = false }
unfolding joined_room join_response client_state
joined_room-client_state w rm u id named unlocked guest idle =
    rw
      (
        named,
        unlocked,
        guest,
        idle_unready (w.room_at rm).state w u idle,
        keyed w (users w rm ++ monitors w rm),
      )
      refl

same_some : {A : Type 0} (a b : A) → some a ≡ some b → a ≡ b
same_some a b e = cc e

module _ (u : ℕ) (id : RoomId) (monitor : Bool) (w w' : World) (resp : JoinRoomResponse) where
  -- What the new member is told before the answer.
  abbrev before_answer : ℕ → List (ℕ × ServerCommand)
  before_answer rm = told rm u monitor (add_user rm u monitor w).1

  outbox-Joined : (j : Joined u id monitor w w' resp) → w'.outbox ≡ w.outbox ++ before_answer j.rm
  outbox-Joined j =
      ap (λ (x : World). x.outbox) (sym j.done)
      ∙ outbox-enter_room j.rm u monitor (add_user j.rm u monitor w).1
      ∙ ap (λ o. o ++ before_answer j.rm) (outbox-add_user j.rm u monitor w)

  Kept-Joined : (j : Joined u id monitor w w' resp) → Kept (w.room_at j.rm) (w'.room_at j.rm)
  Kept-Joined j =
      subst (λ (x : World). Kept (w.room_at j.rm) (x.room_at j.rm)) j.done
        (Kept-trans (add_user-Kept j.rm u monitor w)
          (enter_room-Kept j.rm u monitor (add_user j.rm u monitor w).1))

  mirrored-Joined :
      (j : Joined u id monitor w w' resp)
      → Roomy w
      → check_host w j.rm u ≡ false
      → joined_room id resp ≡ record (client_state w' j.rm u) { cycle = false }
  mirrored-Joined j r guest =
      let k = Kept-Joined j in
      ap (joined_room id) (sym j.said)
      ∙ joined_room-client_state w' j.rm u id (k.id ∙ (r.listed id j.rm j.found).0)
          (k.locked ∙ j.unlocked)
          (ap (λ (x : World). check_host x j.rm u) (sym j.done)
            ∙ check_host-joined j.rm u monitor w
            ∙ guest)
          (ap is_select_chart k.state ∙ j.idle)

  -- A user asks to join the room of an id, and the server grants it, where what is listed under an id
  -- is a room of that id and the host of this one has another user id. The client of the user is in
  -- no room, no answer stands on its next channel, and all that the server sends to its session
  -- until it has answered, and the answer, comes after the callback was entered. Then the client's
  -- call succeeds, and leaves it with what the server would tell the user of the room, but that the
  -- client takes the room not to cycle.
  pub join_room-mirrored :
      (env : Env) (s rm : ℕ) (st : Client.State)
      → join_room u id monitor w ≡ returns (success resp) w'
      → Roomy w
      → lookup id w.rooms ≡ some rm
      → check_host w rm u ≡ false
      → st.room ≡ none
      → received st.fresh st.answered ≡ none
      → (out : List (ℕ × ServerCommand)) × (st' : Client.State) × (process env u
            (ClientCommand.join_room id monitor)
            w
          ≡ returns (some (ServerCommand.join_room (success resp))) w')
        × (w'.outbox ≡ w.outbox ++ out)
        × (Calls.join_room id monitor
              (record {
                early = [];
                later = commands_for s out ++ (ServerCommand.join_room (success resp) ∷ []);
              })
              st
            ≡ Client.returns (success tt) st')
        × (st'.room ≡ some (record (client_state w' rm u) { cycle = false }))
  unfolding process Calls.join_room join_reply answer_of
  join_room-mirrored env s rm st granted r listed guest outside unused =
      let j = join_room-Joined u id monitor w w' resp granted in
      let here : j.rm ≡ rm = same_some j.rm rm (sym j.found ∙ listed) in
      let out = before_answer j.rm in
      let (st1, run, same) =
        rcall-Outside Client.Slot.join_room (ClientCommand.join_room id monitor)
          (Client.joined (success resp)) (ServerCommand.join_room (success resp)) st refl
          (commands_for s out) outside
          (harmless-told j.rm u monitor (add_user j.rm u monitor w).1 s) unused in
      (
        out,
        record st1 { room = some (joined_room id resp) },
        answer_success env u ServerCommand.join_room (join_room u id monitor) w w' resp granted,
        outbox-Joined j,
        bind_returns (Calls.rcall Client.Slot.join_room _ _) _ run,
        ap some (
            mirrored-Joined j r (ap (λ x. check_host w x u) here ∙ guest)
            ∙ ap (λ x. record (client_state w' x u) { cycle = false }) here),
      )
