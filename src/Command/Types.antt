-- ===== src/Command/Types.antt =====
-- The types of command.rs. A `f32` or `f16` stands as its bit pattern, a string as its bytes, an
-- `Arc` as what it points to, and a `HashMap` as its entries in iteration order.
use phira_mp.Common.{
  ℕ, ◌≡◌, ◌↔◌, ap, Bool, true, false, Option, List, [], ◌∷◌, ◌&&◌, ◌||◌, not, length, ltb, leb,
  ◌==◌, if◌then◌else◌,
}
use phira_mp.Common.Int.{ℤ}
use phira_mp.Common.Eq.{Eq, bytes_beq, bytes_beq_iff}
use phira_mp.Bin.Reader.{Bytes, Result, ok, err, string_too_long, invalid_room_id}
use phira_mp.Bin.Data.{Outcome}

-- `SResult<T>`
abbrev pub SResult : Type 0 → Type 0
SResult A = Outcome A Bytes

pub record CompactPos : Type 0 where
  pub x : ℕ
  pub y : ℕ

-- `Varchar<N>(String)`
pub record Varchar (n : ℕ) : Type 0 where
  pub into_inner : Bytes

unfoldable pub varchar_try_from : (n : ℕ) → Bytes → Result (Varchar n)
varchar_try_from n value =
    if ltb n (length value) then err string_too_long else ok (record { into_inner = value })

-- `RoomId(Varchar<20>)`
pub record RoomId : Type 0 where
  pub name : Varchar 20

abbrev pub is_ascii_alphanumeric : ℕ → Bool
is_ascii_alphanumeric c =
    (leb b'0' c && leb c b'9') || ((leb b'A' c && leb c b'Z') || (leb b'a' c && leb c b'z'))

-- Every character of an allowed name is one byte, so the test of the characters is one of the bytes.
unfoldable pub all_allowed : Bytes → Bool
all_allowed [] = true
all_allowed (c ∷ cs) = (c == b'-' || (c == b'_' || is_ascii_alphanumeric c)) && all_allowed cs

abbrev pub is_empty : Bytes → Bool
is_empty [] = true
is_empty (c ∷ cs) = false

unfoldable pub validate : RoomId → Result RoomId
unfolding all_allowed
validate id =
    if is_empty id.name.into_inner || not (all_allowed id.name.into_inner)
    then err invalid_room_id
    else ok id

unfoldable pub room_id_try_from : Bytes → Result RoomId
unfolding varchar_try_from validate
room_id_try_from value = elim (varchar_try_from 20 value) [
  | ok v ↦ validate (record { name = v })
  | err e ↦ err e
]

abbrev pub room_id_beq : RoomId → RoomId → Bool
room_id_beq a b = bytes_beq a.name.into_inner b.name.into_inner

pub room_id_beq_iff : (a b : RoomId) → (room_id_beq a b ≡ true) ↔ (a ≡ b)
room_id_beq_iff a b =
    let same = bytes_beq_iff a.name.into_inner b.name.into_inner in
    (
      λ h. ap (λ s. record { name = record { into_inner = s } }) (same.0 h),
      λ h. same.1 (ap (λ r. r.name.into_inner) h),
    )

instance abbrev pub room_id_eq : Eq RoomId
room_id_eq = record { beq = room_id_beq; beq_iff = room_id_beq_iff }

pub record TouchFrame : Type 0 where
  pub time : ℕ
  pub points : List (ℤ × CompactPos)

pub data Judgement : Type 0 where
  perfect good bad miss hold_perfect hold_good : Judgement

pub record JudgeEvent : Type 0 where
  pub time : ℕ
  pub line_id : ℕ
  pub note_id : ℕ
  pub judgement : Judgement

pub data ClientCommand : Type 0 where
  ping : ClientCommand
  authenticate : Varchar 32 → ClientCommand
  chat : Varchar 200 → ClientCommand
  touches : List TouchFrame → ClientCommand
  judges : List JudgeEvent → ClientCommand
  create_room : RoomId → ClientCommand
  join_room : RoomId → Bool → ClientCommand
  leave_room : ClientCommand
  lock_room : Bool → ClientCommand
  cycle_room : Bool → ClientCommand
  select_chart : ℤ → ClientCommand
  request_start : ClientCommand
  ready : ClientCommand
  cancel_ready : ClientCommand
  played : ℤ → ClientCommand
  abort : ClientCommand

pub data Message : Type 0 where
  chat : ℤ → Bytes → Message
  create_room : ℤ → Message
  join_room : ℤ → Bytes → Message
  leave_room : ℤ → Bytes → Message
  new_host : ℤ → Message
  select_chart : ℤ → Bytes → ℤ → Message
  game_start : ℤ → Message
  ready : ℤ → Message
  cancel_ready : ℤ → Message
  cancel_game : ℤ → Message
  start_playing : Message
  -- the user, the score, the accuracy and whether the combo is full
  played : ℤ → ℤ → ℕ → Bool → Message
  game_end : Message
  abort : ℤ → Message
  lock_room : Bool → Message
  cycle_room : Bool → Message

pub data RoomState : Type 0 where
  select_chart : Option ℤ → RoomState
  waiting_for_ready : RoomState
  playing : RoomState

pub record UserInfo : Type 0 where
  pub id : ℤ
  pub name : Bytes
  pub monitor : Bool

pub record ClientRoomState : Type 0 where
  pub id : RoomId
  pub state : RoomState
  pub live : Bool
  pub locked : Bool
  pub cycle : Bool
  pub is_host : Bool
  pub is_ready : Bool
  pub users : List (ℤ × UserInfo)

pub record JoinRoomResponse : Type 0 where
  pub state : RoomState
  pub users : List UserInfo
  pub live : Bool

pub data ServerCommand : Type 0 where
  pong : ServerCommand
  authenticate : SResult (UserInfo × Option ClientRoomState) → ServerCommand
  chat : SResult Unit → ServerCommand
  touches : ℤ → List TouchFrame → ServerCommand
  judges : ℤ → List JudgeEvent → ServerCommand
  message : Message → ServerCommand
  change_state : RoomState → ServerCommand
  change_host : Bool → ServerCommand
  create_room : SResult Unit → ServerCommand
  join_room : SResult JoinRoomResponse → ServerCommand
  on_join_room : UserInfo → ServerCommand
  leave_room : SResult Unit → ServerCommand
  lock_room : SResult Unit → ServerCommand
  cycle_room : SResult Unit → ServerCommand
  select_chart : SResult Unit → ServerCommand
  request_start : SResult Unit → ServerCommand
  ready : SResult Unit → ServerCommand
  cancel_ready : SResult Unit → ServerCommand
  played : SResult Unit → ServerCommand
  abort : SResult Unit → ServerCommand
