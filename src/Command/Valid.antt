-- ===== src/Command/Valid.antt =====
-- The values that the Rust types of command.rs can hold: words in range, strings of valid UTF-8,
-- lengths that a `u64` counts, room names that passed `validate`.
use phira_mp.Common.{ℕ, ◌^◌, ◌<◌, ◌≤◌, ◌≡◌, Option, none, some, List, length, All}
use phira_mp.Common.Int.{ℤ, IsSigned}
use phira_mp.Common.Maps.{IsMap}
use phira_mp.Common.Eq.{int_eq}
use phira_mp.Bin.Reader.{Bytes, ok}
use phira_mp.Bin.Utf8.Chars.{IsUtf8}
use phira_mp.Bin.Data.{success, failure}
use phira_mp.Command.Types.{
  SResult, CompactPos, Varchar, RoomId, validate, TouchFrame, JudgeEvent, ClientCommand, Message,
  RoomState, UserInfo, ClientRoomState, JoinRoomResponse, ServerCommand,
}

pub record IsText (s : Bytes) : Type 0 where
  pub utf8 : IsUtf8 s
  pub short : length s < 2 ^ 64

pub record IsVarchar (n : ℕ) (v : Varchar n) : Type 0 where
  pub utf8 : IsUtf8 v.into_inner
  pub short : length v.into_inner ≤ n

pub record IsRoomId (id : RoomId) : Type 0 where
  pub allowed : validate id ≡ ok id
  pub short : length id.name.into_inner ≤ 20

abbrev pub IsI32 : ℤ → Type 0
IsI32 = IsSigned 32

abbrev pub IsVec {ℓ} : {A : Type 0} → (A → Type ℓ) → List A → Type ℓ
IsVec P xs = (length xs < 2 ^ 64) × All P xs

abbrev pub IsCompactPos : CompactPos → Type 0
IsCompactPos p = (p.x < 2 ^ 16) × (p.y < 2 ^ 16)

abbrev pub IsPoint : ℤ × CompactPos → Type 0
IsPoint p = IsSigned 8 p.0 × IsCompactPos p.1

abbrev pub IsTouchFrame : TouchFrame → Type 0
IsTouchFrame f = (f.time < 2 ^ 32) × IsVec IsPoint f.points

abbrev pub IsJudgeEvent : JudgeEvent → Type 0
IsJudgeEvent e = (e.time < 2 ^ 32) × (e.line_id < 2 ^ 32) × (e.note_id < 2 ^ 32)

abbrev pub IsClientCommand : ClientCommand → Type 0
IsClientCommand (ClientCommand.authenticate token) = IsVarchar 32 token
IsClientCommand (ClientCommand.chat message) = IsVarchar 200 message
IsClientCommand (ClientCommand.touches frames) = IsVec IsTouchFrame frames
IsClientCommand (ClientCommand.judges events) = IsVec IsJudgeEvent events
IsClientCommand (ClientCommand.create_room id) = IsRoomId id
IsClientCommand (ClientCommand.join_room id monitor) = IsRoomId id
IsClientCommand (ClientCommand.select_chart id) = IsI32 id
IsClientCommand (ClientCommand.played id) = IsI32 id
IsClientCommand _ = Unit {0}

abbrev pub IsMessage : Message → Type 0
IsMessage (Message.chat user content) = IsI32 user × IsText content
IsMessage (Message.create_room user) = IsI32 user
IsMessage (Message.join_room user name) = IsI32 user × IsText name
IsMessage (Message.leave_room user name) = IsI32 user × IsText name
IsMessage (Message.new_host user) = IsI32 user
IsMessage (Message.select_chart user name id) = IsI32 user × IsText name × IsI32 id
IsMessage (Message.game_start user) = IsI32 user
IsMessage (Message.ready user) = IsI32 user
IsMessage (Message.cancel_ready user) = IsI32 user
IsMessage (Message.cancel_game user) = IsI32 user
IsMessage (Message.played user score accuracy full_combo) =
    IsI32 user × IsI32 score × (accuracy < 2 ^ 32)
IsMessage (Message.abort user) = IsI32 user
IsMessage _ = Unit {0}

abbrev pub IsOption : {A : Type 0} → (A → Type 0) → Option A → Type 0
IsOption P none = Unit {0}
IsOption P (some a) = P a

abbrev pub IsRoomState : RoomState → Type 0
IsRoomState (RoomState.select_chart chart) = IsOption IsI32 chart
IsRoomState _ = Unit {0}

abbrev pub IsUserInfo : UserInfo → Type 0
IsUserInfo u = IsI32 u.id × IsText u.name

abbrev pub IsClientRoomState : ClientRoomState → Type 0
IsClientRoomState s =
    IsRoomId s.id
    × IsRoomState s.state
    × (length s.users < 2 ^ 64)
    × IsMap s.users
    × All (λ e. IsI32 e.0 × IsUserInfo e.1) s.users

abbrev pub IsJoinRoomResponse : JoinRoomResponse → Type 0
IsJoinRoomResponse r = IsRoomState r.state × IsVec IsUserInfo r.users

abbrev pub IsSResult : {A : Type 0} → (A → Type 0) → SResult A → Type 0
IsSResult P (success a) = P a
IsSResult P (failure e) = IsText e

abbrev pub IsDone : SResult Unit → Type 0
IsDone = IsSResult (λ _. Unit {0})

abbrev pub IsServerCommand : ServerCommand → Type 0
IsServerCommand ServerCommand.pong = Unit {0}
IsServerCommand (ServerCommand.authenticate res) =
    IsSResult (λ p. IsUserInfo p.0 × IsOption IsClientRoomState p.1) res
IsServerCommand (ServerCommand.touches player frames) = IsI32 player × IsVec IsTouchFrame frames
IsServerCommand (ServerCommand.judges player events) = IsI32 player × IsVec IsJudgeEvent events
IsServerCommand (ServerCommand.message msg) = IsMessage msg
IsServerCommand (ServerCommand.change_state state) = IsRoomState state
IsServerCommand (ServerCommand.change_host is_host) = Unit {0}
IsServerCommand (ServerCommand.join_room res) = IsSResult IsJoinRoomResponse res
IsServerCommand (ServerCommand.on_join_room user) = IsUserInfo user
IsServerCommand (ServerCommand.chat res) = IsDone res
IsServerCommand (ServerCommand.create_room res) = IsDone res
IsServerCommand (ServerCommand.leave_room res) = IsDone res
IsServerCommand (ServerCommand.lock_room res) = IsDone res
IsServerCommand (ServerCommand.cycle_room res) = IsDone res
IsServerCommand (ServerCommand.select_chart res) = IsDone res
IsServerCommand (ServerCommand.request_start res) = IsDone res
IsServerCommand (ServerCommand.ready res) = IsDone res
IsServerCommand (ServerCommand.cancel_ready res) = IsDone res
IsServerCommand (ServerCommand.played res) = IsDone res
IsServerCommand (ServerCommand.abort res) = IsDone res
