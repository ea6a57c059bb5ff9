-- ===== src/Session/Mirror/Entering.antt =====
-- Creating a room, on the server and on the client that asks for it.
use phira_mp.Common.{ℕ, zero, suc, ◌≡◌, refl, sym, ap, ◌∙◌, true, none, some, List, [], ◌∷◌, ◌++◌}
use phira_mp.Common.Eq.{int_eq, beq_self}
use phira_mp.Common.Maps.{lookup, insert, insert_all}
use phira_mp.Bin.Data.{success}
use phira_mp.Command.Types.{
  SResult, RoomId, room_id_eq, UserInfo, ServerCommand, ClientCommand, Message,
}
use phira_mp.World.{User, World, Env, returns}
use phira_mp.Room.{
  new, users, monitors, upgrade_all, client_state, client_room_state, check_host, to_info,
  is_started, to_client, send,
}
use phira_mp.Room.Frame.{update_self, send-Quiet}
use phira_mp.Session.Handler.{H, answer, err_to_str}
use phira_mp.Session.Rooms.{id_of, create_room, open_room}
use phira_mp.Session.Process.{process}
use phira_mp.Session.Effects.{entered, announced, open_room-Becomes, create_room-open_room}
use phira_mp.Session.Mirror.{
  commands_for, all_sent, copies, repeat, members, broadcast-sent, commands_for-all_sent,
}
use phira_mp.Client as Client
use phira_mp.Client.Calls as Calls
use phira_mp.Client.Calls.{own_room, received, unit_reply}
use phira_mp.Client.View.{bind_returns}
use phira_mp.Client.Answers.{answer_of}
use phira_mp.Client.Outside.{is_harmless, all_harmless, rcall-Outside}

pub harmless-repeat :
    (n : ℕ) (cmd : ServerCommand) → is_harmless cmd ≡ true → all_harmless (repeat n cmd) ≡ true
unfolding all_harmless
harmless-repeat zero cmd h = refl
harmless-repeat (suc n) cmd h = rw (h, harmless-repeat n cmd h) refl

pub harmless-all_sent :
    (s : ℕ) (cmd : ServerCommand) (us : List ℕ) (w : World)
    → is_harmless cmd ≡ true
    → all_harmless (commands_for s (all_sent w cmd us)) ≡ true
harmless-all_sent s cmd us w h =
    ap all_harmless (commands_for-all_sent s cmd us w) ∙ harmless-repeat (copies w s us) cmd h

-- What the server tells the host of a new room of it is what the client of the host makes of it.
own_room-client_state :
    (w : World) (rm u : ℕ) (id : RoomId) (me : UserInfo)
    → w.room_at rm ≡ new id u
    → w.alive u ≡ true
    → to_info (w.user_at u) ≡ me
    → client_state w rm u ≡ own_room id me
unfolding client_state client_room_state check_host users monitors upgrade_all to_info is_started
    to_client own_room new insert_all insert
own_room-client_state w rm u id me e here info =
    rw (e, here, beq_self (w.user_at u).id, ← info) refl

pub answer_success :
    {A : Type 0} (env : Env) (u : ℕ) (reply : SResult A → ServerCommand) (m : H A) (w w' : World)
    (a : A)
    → m w ≡ returns (success a) w'
    → answer env u reply m w ≡ returns (some (reply (success a))) w'
unfolding answer err_to_str
answer_success env u reply m w w' a h = rw (h, answer)

client_opens :
    (id : RoomId) (me : UserInfo) (st : Client.State)
    → st.me ≡ some me
    → Calls.open_room id st ≡ Client.returns tt (record st { room = some (own_room id me) })
unfolding Calls.open_room
client_opens id me st e =
    rw (e, Calls.open_room)
      (ap (λ m. Client.returns tt (record st { me = m; room = some (own_room id me) })) e)

module _ (u : ℕ) (id : RoomId) (w : World) where
  info-open_room : to_info ((open_room u id w).user_at u) ≡ to_info (w.user_at u)
  unfolding open_room to_info
  info-open_room =
      let v = announced u id w in
      ap to_info (update_self v.user_at u (record (v.user_at u) { room = some w.fresh }))
      ∙ ap (λ (f : ℕ → User). to_info (record (f u) { room = some w.fresh }))
          (send-Quiet w.fresh (Message.create_room (id_of u (entered u id w)))
            (entered u id w)).user_at

  outbox-open_room :
      (open_room u id w).outbox
      ≡ w.outbox
        ++ all_sent
            (entered u id w)
            (ServerCommand.message (Message.create_room (id_of u (entered u id w))))
            (members (entered u id w) w.fresh)
  unfolding open_room send
  outbox-open_room = ap (λ (x : World). x.outbox) (broadcast-sent w.fresh _ (entered u id w))

  -- A live user who is in no room asks for a room by an id that no room has. Its client is in no
  -- room, knows the user as the server does, and no answer stands on the next channel; and all that
  -- the server sends to a session until it has answered, and the answer, comes after the callback
  -- was entered. Then the server opens the room and answers with a success, and the client's call
  -- succeeds and leaves it with what the server would tell the host of the room.
  pub create_room-mirrored :
      (env : Env) (s : ℕ) (st : Client.State)
      → w.alive u ≡ true
      → (w.user_at u).room ≡ none
      → lookup id w.rooms ≡ none
      → st.room ≡ none
      → st.me ≡ some (to_info (w.user_at u))
      → received st.fresh st.answered ≡ none
      → (w' : World) × (out : List (ℕ × ServerCommand)) × (st' : Client.State) × (process env u
            (ClientCommand.create_room id)
            w
          ≡ returns (some (ServerCommand.create_room (success tt))) w')
        × (w'.outbox ≡ w.outbox ++ out)
        × (Calls.create_room id
              (record {
                early = [];
                later = commands_for s out ++ (ServerCommand.create_room (success tt) ∷ []);
              })
              st
            ≡ Client.returns (success tt) st')
        × (st'.room ≡ some (client_state w' w.fresh u))
  unfolding process Calls.create_room unit_reply answer_of is_harmless
  create_room-mirrored env s st here homeless free outside me unused =
      let w' = open_room u id w in
      let cmd = ServerCommand.message (Message.create_room (id_of u (entered u id w))) in
      let us = members (entered u id w) w.fresh in
      let out = all_sent (entered u id w) cmd us in
      let (st1, run, same) =
        rcall-Outside Client.Slot.create_room (ClientCommand.create_room id)
          (Client.done (success tt)) (ServerCommand.create_room (success tt)) st refl
          (commands_for s out) outside (harmless-all_sent s cmd us (entered u id w) refl) unused in
      let b = open_room-Becomes u id w in
      (
        w',
        out,
        record st1 { room = some (own_room id (to_info (w.user_at u))) },
        answer_success env u ServerCommand.create_room (create_room u id) w w' tt
            (create_room-open_room u id w homeless free),
        outbox-open_room,
        bind_returns (Calls.rcall Client.Slot.create_room _ _) _ run
            ∙ bind_returns (Calls.open_room id) (λ _. Client.pure (success tt))
                (client_opens id (to_info (w.user_at u)) st1 (same ∙ me)),
        ap some (
            sym (
              own_room-client_state w' w.fresh u id (to_info (w.user_at u)) b.room_is
                (ap (λ f. f u) b.alive ∙ here) info-open_room)),
      )
