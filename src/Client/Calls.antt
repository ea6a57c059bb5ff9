-- ===== src/Client/Calls.antt =====
-- The calls of `Client`. The schedule of the two tasks is explicit: `early` are the server's commands
-- that the receive task processes between the sending of the call and the entry of its callback,
-- `later` those that it processes until the answer is there or the time is over.
use phira_mp.Common.{
  ℕ, ◌+◌, Bool, true, false, Option, none, some, List, [], ◌∷◌, ◌++◌, map, ◌==◌, if◌then◌else◌,
}
use phira_mp.Common.Int.{ℤ}
use phira_mp.Common.Eq.{int_eq}
use phira_mp.Common.Maps.{lookup, insert_all}
use mathlib.Core.Option
use phira_mp.Bin.Reader.{Bytes, Error, ok, err}
use phira_mp.Bin.Data.{Outcome, success, failure}
use phira_mp.Command.Types.{
  SResult, varchar_try_from, RoomId, ClientCommand, Message, RoomState, UserInfo, ClientRoomState,
  JoinRoomResponse, ServerCommand,
}
use phira_mp.Client.{
  Slot, Answer, me_and_room, joined, done, Answered, State, set_callback, returns, panics, M, ◌>>=◌,
  ◌>>◌, pure, modify,
}
use phira_mp.Client.Process.{in_room, process_all}

-- Why a call fails: its argument is refused by `try_into`, no answer came in time, the channel's
-- sender was dropped, or the server answered with an error.
pub data CallError : Type 0 where
  invalid : Error → CallError
  timeout dropped : CallError
  refused : Bytes → CallError

pub data Wait {ℓ} (A : Type ℓ) : Type ℓ where
  arrived : A → Wait A
  too_late sender_dropped : Wait A

-- What stands on the channel `c`.
unfoldable pub received : ℕ → List Answered → Option Answer
received c [] = none
received c (a ∷ rest) = if a.channel == c then some a.answer else received c rest

-- The sender of a channel is dropped when another call's takes its place.
unfoldable pub is_pending : Slot → ℕ → State → Bool
is_pending s c st = elim (st.callback s) [ none ↦ false | some d ↦ d == c ]

unfoldable pub wait : Slot → ℕ → State → Wait Answer
unfolding received is_pending
wait s c st = elim (received c st.answered) [
  | some a ↦ arrived a
  | none ↦ if is_pending s c st then too_late else sender_dropped
]

abbrev pub send : ClientCommand → State → State
send payload st = record st { sent = st.sent ++ (payload ∷ []) }

-- A new channel, whose sender is the slot's callback from here on.
abbrev pub register : Slot → M ℕ
register s st =
    returns st.fresh (set_callback s (some st.fresh) (record st { fresh = st.fresh + 1 }))

-- What the receive task does around a call.
pub record Schedule : Type 0 where
  pub early : List ServerCommand
  pub later : List ServerCommand

-- `rcall`
unfoldable pub rcall : Slot → ClientCommand → Schedule → M (Wait Answer)
unfolding wait
rcall s payload sch = do
  modify (send payload)
  process_all sch.early
  c ← register s
  process_all sch.later
  λ st. returns (wait s c st) st

abbrev pub Reply : Type 0 → Type 0
Reply A = Outcome A CallError

-- `.context("timeout")??.map_err(Error::msg)`
abbrev pub of_result : {A : Type 0} → SResult A → Reply A
of_result (success a) = success a
of_result (failure e) = failure (refused e)

-- An answer of another kind never stands on the call's channel.
unfoldable pub unit_reply : Wait Answer → Reply Unit
unit_reply (arrived (done res)) = of_result res
unit_reply (arrived (me_and_room res)) = failure dropped
unit_reply (arrived (joined res)) = failure dropped
unit_reply too_late = failure timeout
unit_reply sender_dropped = failure dropped

unfoldable pub me_reply : Wait Answer → Reply (UserInfo × Option ClientRoomState)
me_reply (arrived (me_and_room res)) = of_result res
me_reply (arrived (done res)) = failure dropped
me_reply (arrived (joined res)) = failure dropped
me_reply too_late = failure timeout
me_reply sender_dropped = failure dropped

unfoldable pub join_reply : Wait Answer → Reply JoinRoomResponse
join_reply (arrived (joined res)) = of_result res
join_reply (arrived (done res)) = failure dropped
join_reply (arrived (me_and_room res)) = failure dropped
join_reply too_late = failure timeout
join_reply sender_dropped = failure dropped

-- `?`: what follows is done for an answer that is no error.
abbrev pub on_success : {A : Type 0} → (A → M (Unit {0})) → Reply A → M (Reply Unit)
on_success f (success a) = do f a; pure (success tt)
on_success f (failure e) = pure (failure e)

abbrev pub call : Slot → ClientCommand → Schedule → (Unit {0} → M (Unit {0})) → M (Reply Unit)
call s payload sch after = do w ← rcall s payload sch; on_success after (unit_reply w)

abbrev pub nothing : Unit {0} → M (Unit {0})
nothing _ = pure tt

unfoldable pub enter : UserInfo × Option ClientRoomState → M (Unit {0})
enter p = modify (λ st. record st { me = some p.0; room = p.1 })

-- `token.into().try_into()?` and `message.try_into()?`
unfoldable pub authenticate : Bytes → Schedule → M (Reply Unit)
unfolding rcall me_reply enter
authenticate token sch = elim (varchar_try_from 32 token) [
  | err e ↦ pure (failure (invalid e))
  | ok t ↦ (do
    w ← rcall Slot.authenticate (ClientCommand.authenticate t) sch
    on_success enter (me_reply w))
]

unfoldable pub chat : Bytes → Schedule → M (Reply Unit)
unfolding rcall unit_reply
chat message sch = elim (varchar_try_from 200 message) [
  | err e ↦ pure (failure (invalid e))
  | ok m ↦ call Slot.chat (ClientCommand.chat m) sch nothing
]

-- `RoomState::default()` is `SelectChart(None)`.
unfoldable pub own_room : RoomId → UserInfo → ClientRoomState
own_room id me = record {
  id = id;
  state = RoomState.select_chart none;
  live = false;
  locked = false;
  cycle = false;
  is_host = true;
  is_ready = false;
  users = (me.id, me) ∷ [];
}

-- `me.clone().unwrap()` panics before authentication.
unfoldable pub open_room : RoomId → M (Unit {0})
unfolding own_room
open_room id st = elim st.me [
  | none ↦ panics st
  | some me ↦ returns tt (record st { room = some (own_room id me) })
]

unfoldable pub create_room : RoomId → Schedule → M (Reply Unit)
unfolding rcall unit_reply open_room
create_room id sch = call Slot.create_room (ClientCommand.create_room id) sch (λ _. open_room id)

unfoldable pub joined_room : RoomId → JoinRoomResponse → ClientRoomState
joined_room id resp = record {
  id = id;
  state = resp.state;
  live = resp.live;
  locked = false;
  cycle = false;
  is_host = false;
  is_ready = false;
  users = insert_all [] (map (λ (u : UserInfo). (u.id, u)) resp.users);
}

unfoldable pub join_room : RoomId → Bool → Schedule → M (Reply Unit)
unfolding rcall join_reply joined_room
join_room id monitor sch = do
  w ← rcall Slot.join_room (ClientCommand.join_room id monitor) sch
  on_success (λ resp. modify (λ st. record st { room = some (joined_room id resp) })) (join_reply w)

unfoldable pub leave_room : Schedule → M (Reply Unit)
unfolding rcall unit_reply
leave_room sch =
    call Slot.leave_room ClientCommand.leave_room sch
      (λ _. modify (λ st. record st { room = none }))

unfoldable pub lock_room : Bool → Schedule → M (Reply Unit)
unfolding rcall unit_reply
lock_room lock sch = call Slot.lock_room (ClientCommand.lock_room lock) sch nothing

unfoldable pub cycle_room : Bool → Schedule → M (Reply Unit)
unfolding rcall unit_reply
cycle_room cycle sch = call Slot.cycle_room (ClientCommand.cycle_room cycle) sch nothing

unfoldable pub select_chart : ℤ → Schedule → M (Reply Unit)
unfolding rcall unit_reply
select_chart id sch = call Slot.select_chart (ClientCommand.select_chart id) sch nothing

-- `room.as_mut().unwrap().is_ready = ..`
unfoldable pub set_ready : Bool → M (Unit {0})
unfolding in_room
set_ready b = in_room (λ room. record room { is_ready = b })

unfoldable pub request_start : Schedule → M (Reply Unit)
unfolding rcall unit_reply set_ready
request_start sch = call Slot.request_start ClientCommand.request_start sch (λ _. set_ready true)

unfoldable pub ready : Schedule → M (Reply Unit)
unfolding rcall unit_reply set_ready
ready sch = call Slot.ready ClientCommand.ready sch (λ _. set_ready true)

unfoldable pub cancel_ready : Schedule → M (Reply Unit)
unfolding rcall unit_reply set_ready
cancel_ready sch = call Slot.cancel_ready ClientCommand.cancel_ready sch (λ _. set_ready false)

unfoldable pub played : ℤ → Schedule → M (Reply Unit)
unfolding rcall unit_reply
played id sch = call Slot.played (ClientCommand.played id) sch nothing

unfoldable pub abort : Schedule → M (Reply Unit)
unfolding rcall unit_reply
abort sch = call Slot.abort ClientCommand.abort sch nothing

-- `blocking_take_messages`
unfoldable pub take_messages : M (List Message)
take_messages st = returns st.messages (record st { messages = [] })

-- `user_name_opt`, and `user_name` with its "?".
unfoldable pub user_name_opt : ℤ → State → Option Bytes
user_name_opt id st = elim st.room [
  | none ↦ none
  | some room ↦ Option.map (λ (u : UserInfo). u.name) (lookup id room.users)
]

unfoldable pub user_name : ℤ → State → Bytes
unfolding user_name_opt
user_name id st = elim (user_name_opt id st) [ none ↦ b'?' ∷ [] | some name ↦ name ]

-- `blocking_is_host` and `blocking_is_ready`
unfoldable pub is_host : State → Option Bool
is_host st = Option.map (λ (r : ClientRoomState). r.is_host) st.room

unfoldable pub is_ready : State → Option Bool
is_ready st = Option.map (λ (r : ClientRoomState). r.is_ready) st.room

unfoldable pub room_state : State → Option RoomState
room_state st = Option.map (λ (r : ClientRoomState). r.state) st.room

unfoldable pub room_id : State → Option RoomId
room_id st = Option.map (λ (r : ClientRoomState). r.id) st.room
