-- ===== src/Client/View.antt =====
-- How the client's picture of its room follows the server's commands.
use phira_mp.Common.{
  ◌≡◌, refl, sym, ap, ◌∙◌, Bool, true, false, ◌||◌, some, List, [], ◌∷◌, ◌++◌, arith, append_assoc,
  append-nil, Bool-cases,
}
use phira_mp.Common.Eq.{int_eq}
use phira_mp.Common.Maps.{insert, remove}
use phira_mp.Command.Types.{Message, ClientRoomState, ServerCommand}
use phira_mp.Client.{State, returns, M, ◌>>=◌, ◌>>◌, modify}
use phira_mp.Client.Process.{
  process, push_message, process_all, if_room, in_room, on_message, change_state, add_info,
}

-- A command that answers a call.
unfoldable pub is_reply : ServerCommand → Bool
is_reply ServerCommand.pong = false
is_reply (ServerCommand.touches player frames) = false
is_reply (ServerCommand.judges player judges) = false
is_reply (ServerCommand.message msg) = false
is_reply (ServerCommand.change_state state) = false
is_reply (ServerCommand.change_host b) = false
is_reply (ServerCommand.on_join_room user) = false
is_reply _ = true

abbrev pub no_reply : List ServerCommand → Bool
no_reply [] = true
no_reply (cmd ∷ cmds) = elim (is_reply cmd) [ true ↦ false | false ↦ no_reply cmds ]

-- What a command says of the room.
unfoldable pub follow : ServerCommand → ClientRoomState → ClientRoomState
follow (ServerCommand.message (Message.lock_room lock)) room = record room { locked = lock }
follow (ServerCommand.message (Message.cycle_room cycle)) room = record room { cycle = cycle }
follow (ServerCommand.message (Message.leave_room user name)) room = record room {
  users = remove user room.users;
}
follow (ServerCommand.change_state state) room = record room {
  state = state;
  is_ready = room.is_host;
}
follow (ServerCommand.change_host b) room = record room { is_host = b }
follow (ServerCommand.on_join_room user) room = record room {
  live = room.live || user.monitor;
  users = insert user.id user room.users;
}
follow _ room = room

unfoldable pub follow_all : List ServerCommand → ClientRoomState → ClientRoomState
follow_all [] room = room
follow_all (cmd ∷ cmds) room = follow_all cmds (follow cmd room)

-- The messages among the commands.
unfoldable pub messages_of : List ServerCommand → List Message
messages_of [] = []
messages_of (ServerCommand.message msg ∷ cmds) = msg ∷ messages_of cmds
messages_of (cmd ∷ cmds) = messages_of cmds

abbrev Follows : ServerCommand → State → ClientRoomState → Type 0
Follows cmd st room =
    (st' : State) × (process cmd st ≡ returns tt st')
    × (st'.room ≡ some (follow cmd room))
    × (st'.messages ≡ st.messages ++ messages_of (cmd ∷ []))
    × (st'.callback ≡ st.callback)
    × (st'.answered ≡ st.answered)
    × (st'.fresh ≡ st.fresh)

in_room-some :
    (f : ClientRoomState → ClientRoomState) (st : State) (room : ClientRoomState)
    → st.room ≡ some room
    → in_room f st ≡ returns tt (record st { room = some (f room) })
unfolding in_room
in_room-some f st room e = rw (e, in_room)

pub bind_returns {ℓ κ} :
    {A : Type ℓ} {B : Type κ} (m : M A) (f : A → M B) {st st' : State} {a : A}
    → m st ≡ returns a st'
    → (m >>= f) st ≡ f a st'
bind_returns m f h = rw (h, ◌>>=◌)

room_message_runs :
    (f : ClientRoomState → ClientRoomState) (msg : Message) (st : State) (room : ClientRoomState)
    → st.room ≡ some room
    → (in_room f >> modify (push_message msg)) st
      ≡ returns tt (push_message msg (record st { room = some (f room) }))
room_message_runs f msg st room e =
    bind_returns (in_room f) (λ _. modify (push_message msg)) (in_room-some f st room e)

message-Follows :
    (msg : Message) (st : State) (room : ClientRoomState)
    → st.room ≡ some room
    → Follows (ServerCommand.message msg) st room
unfolding process follow messages_of on_message
message-Follows (Message.lock_room lock) st room e = (
  _,
  room_message_runs (λ r. record r { locked = lock }) _ st room e,
  refl,
  refl,
  refl,
  refl,
  refl,
)
message-Follows (Message.cycle_room cycle) st room e = (
  _,
  room_message_runs (λ r. record r { cycle = cycle }) _ st room e,
  refl,
  refl,
  refl,
  refl,
  refl,
)
message-Follows (Message.leave_room user name) st room e = (
  _,
  room_message_runs (λ r. record r { users = remove user r.users }) _ st room e,
  refl,
  refl,
  refl,
  refl,
  refl,
)
message-Follows (Message.chat user content) st room e = (_, refl, e, refl, refl, refl, refl)
message-Follows _ st room e = (_, refl, e, refl, refl, refl, refl)

process-Follows :
    (cmd : ServerCommand) (st : State) (room : ClientRoomState)
    → st.room ≡ some room
    → is_reply cmd ≡ false
    → Follows cmd st room
unfolding process follow is_reply messages_of
process-Follows ServerCommand.pong st room e h = (_, refl, e, sym (append-nil _), refl, refl, refl)
process-Follows (ServerCommand.touches player frames) st room e h =
    (_, refl, e, sym (append-nil _), refl, refl, refl)
process-Follows (ServerCommand.judges player judges) st room e h =
    (_, refl, e, sym (append-nil _), refl, refl, refl)
process-Follows (ServerCommand.change_state state) st room e h = (
  _,
  in_room-some (change_state state) (record st { live_players = [] }) room e,
  refl,
  sym (append-nil _),
  refl,
  refl,
  refl,
)
process-Follows (ServerCommand.change_host b) st room e h = (
  _,
  in_room-some (λ r. record r { is_host = b }) st room e,
  refl,
  sym (append-nil _),
  refl,
  refl,
  refl,
)
process-Follows (ServerCommand.on_join_room user) st room e h = (
  record st { room = some (add_info user room) },
  unfold if_room in (rw e),
  refl,
  sym (append-nil _),
  refl,
  refl,
  refl,
)
process-Follows (ServerCommand.message msg) st room e h = message-Follows msg st room e
process-Follows _ st room e h = cc

no_reply-cons :
    (cmd : ServerCommand) (cmds : List ServerCommand)
    → no_reply (cmd ∷ cmds) ≡ true
    → (is_reply cmd ≡ false) × (no_reply cmds ≡ true)
no_reply-cons cmd cmds h = ground (arith, Bool-cases (is_reply cmd))

pub messages_of-cons :
    (cmd : ServerCommand) (cmds : List ServerCommand)
    → messages_of (cmd ∷ cmds) ≡ messages_of (cmd ∷ []) ++ messages_of cmds
unfolding messages_of
messages_of-cons (ServerCommand.message msg) cmds = refl
messages_of-cons ServerCommand.pong cmds = refl
messages_of-cons _ cmds = refl

-- A run of commands, with what it leaves as it was.
abbrev pub FollowsAll : List ServerCommand → State → ClientRoomState → Type 0
FollowsAll cmds st room =
    (st' : State) × (process_all cmds st ≡ returns tt st')
    × (st'.room ≡ some (follow_all cmds room))
    × (st'.messages ≡ st.messages ++ messages_of cmds)
    × (st'.callback ≡ st.callback)
    × (st'.answered ≡ st.answered)
    × (st'.fresh ≡ st.fresh)

pub process_all-FollowsAll :
    (cmds : List ServerCommand) (st : State) (room : ClientRoomState)
    → st.room ≡ some room
    → no_reply cmds ≡ true
    → FollowsAll cmds st room
unfolding process_all follow_all
process_all-FollowsAll [] st room e h =
    (st, refl, e, unfold messages_of in (sym (append-nil _)), refl, refl, refl)
process_all-FollowsAll (cmd ∷ cmds) st room e h =
    let (one, others) = no_reply-cons cmd cmds h in
    let (st1, run1, room1, msgs1, cbs1, ans1, fresh1) = process-Follows cmd st room e one in
    let (st2, run2, room2, msgs2, cbs2, ans2, fresh2) =
      process_all-FollowsAll cmds st1 (follow cmd room) room1 others in
    (
      st2,
      bind_returns (process cmd) (λ _. process_all cmds) run1 ∙ run2,
      room2,
      msgs2
          ∙ ap (λ m. m ++ messages_of cmds) msgs1
          ∙ append_assoc st.messages (messages_of (cmd ∷ [])) (messages_of cmds)
          ∙ ap (λ m. st.messages ++ m) (sym (messages_of-cons cmd cmds)),
      cbs2 ∙ cbs1,
      ans2 ∙ ans1,
      fresh2 ∙ fresh1,
    )

-- On a client that knows its room, a list of commands of the server none of which answers a call is
-- processed without a panic. Afterwards the room is what the commands say of it, one after the
-- other, the messages among them stand behind those that were there, in order, and the callbacks
-- are what they were.
pub process_all-follow_all :
    (cmds : List ServerCommand) (st : State) (room : ClientRoomState)
    → st.room ≡ some room
    → no_reply cmds ≡ true
    → (st' : State) × (process_all cmds st ≡ returns tt st')
      × (st'.room ≡ some (follow_all cmds room))
      × (st'.messages ≡ st.messages ++ messages_of cmds)
      × (st'.callback ≡ st.callback)
process_all-follow_all cmds st room e h =
    let (st', run, room', msgs, cbs, ans, fresh) = process_all-FollowsAll cmds st room e h in
    (st', run, room', msgs, cbs)
