-- ===== src/Client/Process.antt =====
-- `process` of the client: what it does with a command of the server.
use phira_mp.Common.{true, ◌||◌, none, some, List, [], ◌∷◌, ◌++◌}
use phira_mp.Common.Int.{ℤ}
use phira_mp.Common.Eq.{int_eq}
use phira_mp.Common.Maps.{lookup, insert, remove}
use phira_mp.Command.Types.{
  TouchFrame, JudgeEvent, Message, UserInfo, RoomState, ClientRoomState, ServerCommand,
}
use phira_mp.Client.{
  LivePlayer, no_events, Slot, Answer, me_and_room, joined, done, Answered, State, set_callback,
  returns, panics, M, ◌>>◌, pure, modify,
}

-- `entry(player).or_insert_with(..)`
unfoldable pub live_player : ℤ → State → LivePlayer
live_player player st = elim (lookup player st.live_players) [ none ↦ no_events | some p ↦ p ]

abbrev pub set_live_player : ℤ → LivePlayer → State → State
set_live_player player p st = record st { live_players = insert player p st.live_players }

unfoldable pub extend_touches : ℤ → List TouchFrame → State → State
unfolding live_player
extend_touches player frames st =
    let p = live_player player st in
    set_live_player player (record p { touch_frames = p.touch_frames ++ frames }) st

unfoldable pub extend_judges : ℤ → List JudgeEvent → State → State
unfolding live_player
extend_judges player judges st =
    let p = live_player player st in
    set_live_player player (record p { judge_events = p.judge_events ++ judges }) st

-- The inner function `cb`: `take().unwrap()` panics where nobody waits for the answer.
unfoldable pub cb : Slot → Answer → M (Unit {0})
cb s res st = elim (st.callback s) [
  | none ↦ panics st
  | some c ↦
      let answer : Answered = record { channel = c; answer = res } in
      returns tt (record (set_callback s none st) { answered = st.answered ++ (answer ∷ []) })
]

-- `state.room.write().await.as_mut().unwrap()`
unfoldable pub in_room : (ClientRoomState → ClientRoomState) → M (Unit {0})
in_room f st = elim st.room [
  | none ↦ panics st
  | some room ↦ returns tt (record st { room = some (f room) })
]

-- What the room's state is when a message has come, for the three messages that change it.
unfoldable pub on_message : Message → M (Unit {0})
unfolding in_room
on_message (Message.lock_room lock) = in_room (λ room. record room { locked = lock })
on_message (Message.cycle_room cycle) = in_room (λ room. record room { cycle = cycle })
on_message (Message.leave_room user name) =
    in_room (λ room. record room { users = remove user room.users })
on_message _ = pure tt

abbrev pub push_message : Message → State → State
push_message msg st = record st { messages = st.messages ++ (msg ∷ []) }

unfoldable pub change_state : RoomState → ClientRoomState → ClientRoomState
change_state state room = record room { state = state; is_ready = room.is_host }

unfoldable pub add_info : UserInfo → ClientRoomState → ClientRoomState
add_info user room = record room {
  live = room.live || user.monitor;
  users = insert user.id user room.users;
}

-- Only `OnJoinRoom` tests whether there is a room.
unfoldable pub if_room : (ClientRoomState → ClientRoomState) → State → State
if_room f st = elim st.room [ none ↦ st | some room ↦ record st { room = some (f room) } ]

unfoldable pub process : ServerCommand → M (Unit {0})
unfolding extend_touches extend_judges cb in_room on_message change_state add_info if_room
process ServerCommand.pong = modify (λ st. record st { permit = true })
process (ServerCommand.authenticate res) = cb Slot.authenticate (me_and_room res)
process (ServerCommand.chat res) = cb Slot.chat (done res)
process (ServerCommand.touches player frames) = modify (extend_touches player frames)
process (ServerCommand.judges player judges) = modify (extend_judges player judges)
process (ServerCommand.message msg) = do on_message msg; modify (push_message msg)
process (ServerCommand.change_state state) = do
  modify (λ st. record st { live_players = [] })
  in_room (change_state state)
process (ServerCommand.change_host is_host) = in_room (λ room. record room { is_host = is_host })
process (ServerCommand.create_room res) = cb Slot.create_room (done res)
process (ServerCommand.join_room res) = cb Slot.join_room (joined res)
process (ServerCommand.on_join_room user) = modify (if_room (add_info user))
process (ServerCommand.leave_room res) = cb Slot.leave_room (done res)
process (ServerCommand.lock_room res) = cb Slot.lock_room (done res)
process (ServerCommand.cycle_room res) = cb Slot.cycle_room (done res)
process (ServerCommand.select_chart res) = cb Slot.select_chart (done res)
process (ServerCommand.request_start res) = cb Slot.request_start (done res)
process (ServerCommand.ready res) = cb Slot.ready (done res)
process (ServerCommand.cancel_ready res) = cb Slot.cancel_ready (done res)
process (ServerCommand.played res) = cb Slot.played (done res)
process (ServerCommand.abort res) = cb Slot.abort (done res)

-- The receive task: one command after the other, until one panics.
unfoldable pub process_all : List ServerCommand → M (Unit {0})
process_all [] = pure tt
process_all (cmd ∷ cmds) = do process cmd; process_all cmds
