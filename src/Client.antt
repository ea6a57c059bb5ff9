-- ===== src/Client.antt =====
-- phira-mp-client/src/lib.rs: the state that a client shares with the tasks of its connection. A
-- channel for one answer (`oneshot`) is an address; what was sent on it stands in `answered`.
pub mod Process
pub mod Calls
pub mod Heartbeat
pub mod Answers
pub mod View
pub mod Outside
pub mod Stale
pub mod Seen
use phira_mp.Common.{ℕ, Bool, true, false, Option, none, some, List, [], ◌∷◌, ◌==◌, if◌then◌else◌}
use phira_mp.Common.Int.{ℤ}
use phira_mp.Command.Types.{
  SResult, TouchFrame, JudgeEvent, ClientCommand, Message, UserInfo, ClientRoomState,
  JoinRoomResponse,
}

pub record LivePlayer : Type 0 where
  pub touch_frames : List TouchFrame
  pub judge_events : List JudgeEvent

abbrev pub no_events : LivePlayer
no_events = record { touch_frames = []; judge_events = [] }

-- The fields `cb_authenticate` to `cb_abort`.
pub data Slot : Type 0 where
  authenticate chat create_room join_room leave_room lock_room cycle_room : Slot
  select_chart request_start ready cancel_ready played abort : Slot

abbrev pub slot_index : Slot → ℕ
slot_index authenticate = 0
slot_index chat = 1
slot_index create_room = 2
slot_index join_room = 3
slot_index leave_room = 4
slot_index lock_room = 5
slot_index cycle_room = 6
slot_index select_chart = 7
slot_index request_start = 8
slot_index ready = 9
slot_index cancel_ready = 10
slot_index played = 11
slot_index abort = 12

-- What is sent on a slot's channel: the answer to `Authenticate`, to `JoinRoom`, or to any other.
pub data Answer : Type 0 where
  me_and_room : SResult (UserInfo × Option ClientRoomState) → Answer
  joined : SResult JoinRoomResponse → Answer
  done : SResult Unit → Answer

pub record Answered : Type 0 where
  pub channel : ℕ
  pub answer : Answer

-- `permit` is the permit that `ping_notify` stores; `sent` is what was given to the stream.
pub record State : Type 0 where
  pub delay : Option ℕ
  pub permit : Bool
  pub me : Option UserInfo
  pub room : Option ClientRoomState
  pub callback : Slot → Option ℕ
  pub answered : List Answered
  pub live_players : List (ℤ × LivePlayer)
  pub messages : List Message
  pub sent : List ClientCommand
  pub fresh : ℕ

-- `Client::new`
unfoldable pub new : State
new = record {
  delay = none;
  permit = false;
  me = none;
  room = none;
  callback = λ s. none;
  answered = [];
  live_players = [];
  messages = [];
  sent = [];
  fresh = 0;
}

abbrev pub set_callback : Slot → Option ℕ → State → State
set_callback s c st = record st {
  callback = λ t. if slot_index t == slot_index s then c else st.callback t;
}

-- A task goes on with a value, or panics on an `unwrap`; what it did before stays done.
pub data Run {ℓ} (A : Type ℓ) : Type ℓ where
  returns : A → State → Run A
  panics : State → Run A

abbrev pub M {ℓ} : Type ℓ → Type ℓ
M A = State → Run A

infixl 5 ◌>>=◌ ◌>>◌
abbrev pub ◌>>=◌ {ℓ κ} : {A : Type ℓ} {B : Type κ} → M A → (A → M B) → M B
◌>>=◌ m f st = elim (m st) [ returns a st' ↦ f a st' | panics st' ↦ panics st' ]

abbrev pub ◌>>◌ {ℓ} : {B : Type ℓ} → M (Unit {0}) → M B → M B
m >> k = m >>= λ _. k

abbrev pub pure {ℓ} : {A : Type ℓ} → A → M A
pure a st = returns a st

abbrev pub modify : (State → State) → M (Unit {0})
modify f st = returns tt (f st)
