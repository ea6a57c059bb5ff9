-- ===== src/Client/Seen.antt =====
-- What a client knows of its room, whatever the order in which it keeps the users.
use phira_mp.Common.{
  ◌≡◌, refl, sym, ap, ◌∙◌, Bool, true, ◌||◌, Option, none, some, List, [], ◌∷◌, ◌++◌, if◌then◌else◌,
  Bool-cases, inl, inr,
}
use mathlib.Core.Path.{fun_ext}
use phira_mp.Common.Int.{ℤ}
use phira_mp.Common.Eq.{◌==◌, int_eq, beq→eq, beq_false→ne}
use phira_mp.Common.Maps.{
  lookup, insert, remove, lookup-insert_self, lookup-insert_ne, lookup-remove_self,
  lookup-remove_ne,
}
use phira_mp.Command.Types.{RoomId, RoomState, Message, UserInfo, ClientRoomState, ServerCommand}
use phira_mp.Client.{State, returns}
use phira_mp.Client.Process.{process_all}
use phira_mp.Client.View.{no_reply, follow, follow_all, messages_of, process_all-follow_all}

-- A room, whose users are a function of their ids.
pub record Seen : Type 0 where
  pub id : RoomId
  pub state : RoomState
  pub live : Bool
  pub locked : Bool
  pub cycle : Bool
  pub is_host : Bool
  pub is_ready : Bool
  pub user : ℤ → Option UserInfo

unfoldable pub seen : ClientRoomState → Seen
seen room = record {
  id = room.id;
  state = room.state;
  live = room.live;
  locked = room.locked;
  cycle = room.cycle;
  is_host = room.is_host;
  is_ready = room.is_ready;
  user = λ k. lookup k room.users;
}

-- What a command tells of the room: a user came or left, who is host, what was set. In a new state
-- the host is ready and nobody else is.
unfoldable pub learn : ServerCommand → Seen → Seen
learn (ServerCommand.message (Message.lock_room lock)) v = record v { locked = lock }
learn (ServerCommand.message (Message.cycle_room cycle)) v = record v { cycle = cycle }
learn (ServerCommand.message (Message.leave_room user name)) v = record v {
  user = λ k. if user == k then none else v.user k;
}
learn (ServerCommand.change_state state) v = record v { state = state; is_ready = v.is_host }
learn (ServerCommand.change_host b) v = record v { is_host = b }
learn (ServerCommand.on_join_room info) v = record v {
  live = v.live || info.monitor;
  user = λ k. if info.id == k then some info else v.user k;
}
learn _ v = v

unfoldable pub learn_all : List ServerCommand → Seen → Seen
unfolding learn
learn_all [] v = v
learn_all (cmd ∷ cmds) v = learn_all cmds (learn cmd v)

lookup-insert :
    (k j : ℤ) (info : UserInfo) (m : List (ℤ × UserInfo))
    → lookup j (insert k info m) ≡ (if k == j then some info else lookup j m)
lookup-insert k j info m = elim (Bool-cases (k == j)) [
  | inl t ↦ rw t (
      ap (λ i. lookup i (insert k info m)) (sym (beq→eq {j = k} {k = j} t))
      ∙ lookup-insert_self k info m)
  | inr f ↦ rw f (lookup-insert_ne k j info m (beq_false→ne f))
]

lookup-remove :
    (k j : ℤ) (m : List (ℤ × UserInfo))
    → lookup j (remove k m) ≡ (if k == j then none else lookup j m)
lookup-remove k j m = elim (Bool-cases (k == j)) [
  | inl t ↦
      rw t
        (ap (λ i. lookup i (remove k m)) (sym (beq→eq {j = k} {k = j} t)) ∙ lookup-remove_self k m)
  | inr f ↦ rw f (lookup-remove_ne k j m (beq_false→ne f))
]

seen-message :
    (msg : Message) (room : ClientRoomState)
    → seen (follow (ServerCommand.message msg) room) ≡ learn (ServerCommand.message msg) (seen room)
unfolding seen learn follow
seen-message (Message.lock_room lock) room = refl
seen-message (Message.cycle_room cycle) room = refl
seen-message (Message.leave_room user name) room =
    ap (λ f. record (seen room) { user = f }) (fun_ext (λ j. lookup-remove user j room.users))
seen-message (Message.chat user content) room = refl
seen-message _ room = refl

seen-follow :
    (cmd : ServerCommand) (room : ClientRoomState) → seen (follow cmd room) ≡ learn cmd (seen room)
unfolding seen learn follow
seen-follow (ServerCommand.message msg) room = seen-message msg room
seen-follow (ServerCommand.on_join_room info) room =
    ap (λ f. record (seen room) { live = room.live || info.monitor; user = f })
      (fun_ext (λ j. lookup-insert info.id j info room.users))
seen-follow (ServerCommand.change_state state) room = refl
seen-follow (ServerCommand.change_host b) room = refl
seen-follow _ room = refl

seen-follow_all :
    (cmds : List ServerCommand) (room : ClientRoomState)
    → seen (follow_all cmds room) ≡ learn_all cmds (seen room)
unfolding follow_all learn_all
seen-follow_all [] room = refl
seen-follow_all (cmd ∷ cmds) room =
    seen-follow_all cmds (follow cmd room) ∙ ap (learn_all cmds) (seen-follow cmd room)

-- On a client that knows its room, a list of commands of the server none of which answers a call is
-- processed without a panic. Afterwards what the client sees of the room, in whatever order it keeps
-- the users, is what the commands tell one after the other; the messages among them stand behind
-- those that were there, in order, and the callbacks are what they were.
pub process_all-learn_all :
    (cmds : List ServerCommand) (st : State) (room : ClientRoomState)
    → st.room ≡ some room
    → no_reply cmds ≡ true
    → (st' : State) × (room' : ClientRoomState) × (process_all cmds st ≡ returns tt st')
      × (st'.room ≡ some room')
      × (seen room' ≡ learn_all cmds (seen room))
      × (st'.messages ≡ st.messages ++ messages_of cmds)
      × (st'.callback ≡ st.callback)
process_all-learn_all cmds st room e h =
    let (st', run, here, msgs, cbs) = process_all-follow_all cmds st room e h in
    (st', follow_all cmds room, run, here, seen-follow_all cmds room, msgs, cbs)
