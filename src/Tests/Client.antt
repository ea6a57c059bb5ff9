-- ===== src/Tests/Client.antt =====
-- A client in a room, and what it does with the commands of the server.
use phira_mp.Common.{
  ℕ, ◌+◌, ◌%◌, ◌^◌, ◌≡◌, refl, true, false, none, some, List, [], ◌∷◌, ◌++◌, arith, length,
}
use phira_mp.Common.Int.{pos}
use phira_mp.Bin.Data.{success, failure}
use phira_mp.Command.Types.{ClientCommand, Message, RoomState, ClientRoomState, ServerCommand}
use phira_mp.Client.{Slot, done, State, returns, panics}
use phira_mp.Client.Process.{process_all}
use phira_mp.Client.Calls.{arrived, too_late, received, rcall}
use phira_mp.Client.Heartbeat.{heartbeats, silent, heartbeats-silent}
use phira_mp.Client.View.{is_reply, follow_all, messages_of}
use phira_mp.Client.Answers.{answer_of, rcall-arrived, rcall_early-panics}
use phira_mp.Client.Seen.{seen, learn_all, process_all-learn_all}
use phira_mp.Client.Stale.{rcall_late-arrived}
use phira_mp.Tests.Rooms.{lobby}

abbrev room : ClientRoomState
room = record {
  id = lobby;
  state = RoomState.select_chart none;
  live = false;
  locked = false;
  cycle = false;
  is_host = true;
  is_ready = true;
  users = [];
}

abbrev client : State
client = record {
  delay = none;
  permit = false;
  me = none;
  room = some room;
  callback = λ s. none;
  answered = [];
  live_players = [];
  messages = [];
  sent = [];
  fresh = 0;
}

abbrev locked : List ServerCommand
locked =
    ServerCommand.message (Message.lock_room true)
    ∷ ServerCommand.message (Message.chat (pos 3) (104 ∷ 105 ∷ []))
    ∷ ServerCommand.change_state RoomState.waiting_for_ready
    ∷ []

abbrev ok : ServerCommand
ok = ServerCommand.lock_room (success tt)

abbrev ask : ClientCommand
ask = ClientCommand.lock_room true

process_all-learn_all_example :
    (st' : State) × (room' : ClientRoomState) × (process_all locked client ≡ returns tt st')
    × (st'.room ≡ some room')
    × (seen room' ≡ learn_all locked (seen room))
    × (st'.messages ≡ [] ++ messages_of locked)
    × (st'.callback ≡ client.callback)
unfolding is_reply
process_all-learn_all_example = process_all-learn_all locked client room refl refl

rcall-arrived_example :
    (st' : State) × (rcall Slot.lock_room ask
        (record { early = locked; later = locked ++ (ok ∷ []) })
        client
      ≡ returns (arrived (done (success tt))) st')
    × (st'.callback Slot.lock_room ≡ none)
    × (st'.room ≡ some (follow_all locked (follow_all locked room)))
unfolding is_reply answer_of received
rcall-arrived_example =
    rcall-arrived Slot.lock_room ask (done (success tt)) ok client room refl refl locked locked refl
      refl refl

rcall_early-panics_example :
    (st' : State) × (rcall Slot.lock_room ask
        (record { early = locked ++ (ok ∷ []); later = [] })
        client
      ≡ panics st')
unfolding is_reply answer_of
rcall_early-panics_example =
    rcall_early-panics Slot.lock_room ask (done (success tt)) ok client room refl refl locked []
      refl refl

heartbeats-silent_example :
    (st' : State) × (heartbeats (silent (3 ∷ 4 ∷ [])) 255 client
      ≡ returns ((255 + length {A = ℕ} (3 ∷ 4 ∷ [])) % 2 ^ 8) st')
    × (st'.permit ≡ false)
heartbeats-silent_example = heartbeats-silent (3 ∷ 4 ∷ []) 255 client (omega arith) refl

-- The first call's answer, an error, comes during the second call.
abbrev denied : ServerCommand
denied = ServerCommand.lock_room (failure (110 ∷ 111 ∷ []))

rcall_late-arrived_example :
    (st1 : State) × (st2 : State) × (rcall Slot.lock_room ask
        (record { early = []; later = locked })
        client
      ≡ returns too_late st1)
    × (rcall Slot.lock_room
          (ClientCommand.lock_room false)
          (record { early = []; later = locked ++ (denied ∷ []) })
          st1
        ≡ returns (arrived (done (failure (110 ∷ 111 ∷ [])))) st2)
unfolding is_reply answer_of received
rcall_late-arrived_example =
    rcall_late-arrived Slot.lock_room ask client room refl (λ c h. refl)
      (ClientCommand.lock_room false) (done (failure (110 ∷ 111 ∷ []))) denied refl [] locked []
      locked refl refl refl refl
