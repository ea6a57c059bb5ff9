-- ===== src/Tests/Wire.antt =====
-- Commands, packets and connections.
use phira_mp.Common.{
  ℕ, ◌-◌, ◌==◌, if◌then◌else◌, ◌+◌, ◌^◌, ◌<◌, ◌≤◌, ◌≡◌, ◌≢◌, refl, Bool, true, false, Option, none,
  some, List, [], ◌∷◌, length, All, arith, inl, inr,
}
use phira_mp.Common.Int.{ℤ, pos, negsuc, IsSigned}
use phira_mp.Common.Eq.{int_eq}
use phira_mp.Bin.Reader.{Bytes, ok, ◌>>◌, done, extend, push, new, advance, uleb, write_uleb}
use phira_mp.Bin.Utf8.{from_utf8_lossy}
use phira_mp.Bin.Utf8.Chars.{from_utf8_lossy-IsUtf8, encode_text, IsScalar}
use phira_mp.Bin.Uleb.{uleb-write_uleb}
use phira_mp.Bin.Data.{
  bool, i8, u8, u16, u64, i64, i32, f32, pair, array, write_many, write_entries, to_le_bytes,
  string, hash_map,
}
use phira_mp.Bin.Laws.{i8-Sound, bool-Sound}
use phira_mp.Bin.Crates.{UuidCrate, Chrono, uuid, date_time}
use phira_mp.Command.Types.{
  Varchar, RoomId, TouchFrame, ClientCommand, ServerCommand, Message, validate,
}
use phira_mp.Command.Wire.Basic.{varchar}
use phira_mp.Command.Wire.Client.{client_command, write_client_command}
use phira_mp.Command.Wire.Server.{server_command, write_server_command}
use phira_mp.Command.Wire.Message.{message_data, write_message}
use phira_mp.Command.Wire.Parts.{touch_frame, compact_pos}
use phira_mp.Command.Valid.{IsVarchar, IsRoomId, IsClientCommand, IsServerCommand}
use phira_mp.Command.Laws.Basic.{ascii-IsUtf8}
use phira_mp.Command.Delivery.{
  IsPosted, server_gets, client_gets, decode-encode_client, decode-encode_server,
}
use phira_mp.Stream.{
  eof, out_of_fuel, got, max_packet, encode_packet, decode_packet, send_task, recv_task,
  send_version, stream_version, read_frame,
}
use phira_mp.Stream.Laws.{recv_task-ne-fuel, read_frame_bounds}
use phira_mp.Stream.RoundTrip.{decode-encode_map, decode-encode_uuid, decode-encode_time}
use phira_mp.Tests.Order.{order, order_laws}

abbrev hello : Varchar 200
hello = record { into_inner = 104 ∷ 105 ∷ [] }

hello-IsVarchar : IsVarchar 200 hello
hello-IsVarchar = record {
  utf8 = ascii-IsUtf8 (104 ∷ 105 ∷ []) (omega arith, (omega arith, tt));
  short = omega arith;
}

abbrev lobby : RoomId
lobby = record { name = record { into_inner = 97 ∷ 45 ∷ [] } }

lobby-IsRoomId : IsRoomId lobby
lobby-IsRoomId = record { allowed = unfold validate in refl; short = omega arith }

abbrev frames : List TouchFrame
frames = record { time = 0; points = (negsuc 0, record { x = 15360; y = 0 }) ∷ [] } ∷ []

abbrev commands : List ClientCommand
commands = ClientCommand.chat hello ∷ ClientCommand.touches frames ∷ []

chat_size : length (encode_packet (client_command order) (ClientCommand.chat hello) []) ≡ 4
unfolding encode_packet client_command write_client_command ◌>>◌ done varchar string extend
    write_uleb u8
chat_size = refl

touches_size : length (encode_packet (client_command order) (ClientCommand.touches frames) []) ≡ 12
unfolding encode_packet client_command write_client_command ◌>>◌ done extend write_uleb u8 array
    write_many touch_frame pair compact_pos u16 i8 f32 to_le_bytes push
touches_size = refl

chat-IsPosted : IsPosted order_laws (ClientCommand.chat hello)
chat-IsPosted = record { valid = hello-IsVarchar; small = omega (arith, chat_size) }

frames_valid : IsClientCommand (ClientCommand.touches frames)
frames_valid = (
  omega arith,
  ((omega arith, (omega arith, ((omega arith, (omega arith, omega arith)), tt))), tt),
)

touches-IsPosted : IsPosted order_laws (ClientCommand.touches frames)
touches-IsPosted = record { valid = frames_valid; small = omega (arith, touches_size) }

server_gets_example :
    (incoming : Bytes) × (stream_version none
        (send_task (client_command order) commands (send_version (some 1) []))
      ≡ got (1, incoming))
    × (recv_task (client_command order) incoming ≡ (commands, eof))
server_gets_example = server_gets order_laws 1 commands (chat-IsPosted, (touches-IsPosted, tt))

decode-encode_client_example :
    decode_packet
      (client_command order)
      (encode_packet (client_command order) (ClientCommand.touches frames) [])
    ≡ ok (ClientCommand.touches frames)
decode-encode_client_example =
    decode-encode_client order_laws (ClientCommand.touches frames) frames_valid
      (omega (arith, touches_size))

abbrev greeting : ServerCommand
greeting = ServerCommand.message (Message.chat (negsuc 0) (104 ∷ 105 ∷ []))

greeting_size : length (encode_packet (server_command order) greeting []) ≡ 9
unfolding encode_packet server_command ◌>>◌ done string extend write_uleb u8 write_server_command
    message_data write_message i32 to_le_bytes push
greeting_size = refl

greeting_valid : IsServerCommand greeting
greeting_valid = (omega arith, record { utf8 = hello-IsVarchar.utf8; short = omega arith })

client_gets_example :
    recv_task (server_command order) (send_task (server_command order) (greeting ∷ []) [])
    ≡ (greeting ∷ [], eof)
client_gets_example =
    client_gets order_laws (greeting ∷ [])
      (record { valid = greeting_valid; small = omega (arith, greeting_size) }, tt)

decode-encode_server_example :
    decode_packet (server_command order) (encode_packet (server_command order) greeting [])
    ≡ ok greeting
decode-encode_server_example =
    decode-encode_server order_laws greeting greeting_valid (omega (arith, greeting_size))

-- Garbage on the socket.
abbrev noise : Bytes
noise = 2 ∷ 99 ∷ 99 ∷ 1 ∷ []

recv_task-ne-fuel_example : (recv_task (client_command order) noise).1 ≢ out_of_fuel
recv_task-ne-fuel_example = recv_task-ne-fuel (client_command order) noise

read_noise : read_frame noise ≡ got (99 ∷ 99 ∷ [], 1 ∷ [])
unfolding read_frame
read_noise = refl

read_frame_bounds_example : (2 ≤ max_packet) × (2 + 1 < 4) × (4 ≤ 2 + 1 + 5)
read_frame_bounds_example = read_frame_bounds noise (99 ∷ 99 ∷ []) (1 ∷ []) read_noise

-- "aé€" and a character of four bytes.
abbrev text : List ℕ
text = 97 ∷ 233 ∷ 8364 ∷ 128512 ∷ []

text-IsScalar : All IsScalar text
text-IsScalar = (
  (omega arith, inl (omega arith)),
  (
    (omega arith, inl (omega arith)),
    ((omega arith, inl (omega arith)), ((omega arith, inr (omega arith)), tt)),
  ),
)

from_utf8_lossy-IsUtf8_example : from_utf8_lossy (encode_text text) ≡ encode_text text
from_utf8_lossy-IsUtf8_example =
    from_utf8_lossy-IsUtf8 (encode_text text)
      (record { chars = text; scalar = text-IsScalar; encoded = refl })

abbrev flags : List (ℤ × Bool)
flags = (negsuc 0, true) ∷ (pos 3, false) ∷ []

flags_size : length (encode_packet (hash_map i8 bool) flags []) ≡ 5
unfolding encode_packet hash_map ◌>>◌ write_entries pair done bool push i8 write_uleb
flags_size = refl

decode-encode_map_example :
    decode_packet (hash_map i8 bool) (encode_packet (hash_map i8 bool) flags []) ≡ ok flags
decode-encode_map_example =
    decode-encode_map i8 bool flags (omega arith) (((λ q. cc), tt), (tt, tt))
      (
        (i8-Sound (negsuc 0) (omega arith), bool-Sound true),
        ((i8-Sound (pos 3) (omega arith), bool-Sound false), tt),
      )
      (omega (arith, flags_size))

-- The nil UUID and the max UUID, and two times around the epoch.
data KnownUuid : Type 0 where
  nil max : KnownUuid

abbrev known_halves : KnownUuid → ℕ × ℕ
known_halves nil = (0, 0)
known_halves max = (2 ^ 64 - 1, 2 ^ 64 - 1)

known_bounds : (u : KnownUuid) → ((known_halves u).0 < 2 ^ 64) × ((known_halves u).1 < 2 ^ 64)
known_bounds nil = (omega arith, omega arith)
known_bounds max = (omega arith, omega arith)

abbrev from_halves : ℕ → ℕ → KnownUuid
from_halves high low = if high == 0 then nil else max

known_from_halves : (u : KnownUuid) → from_halves (known_halves u).0 (known_halves u).1 ≡ u
known_from_halves nil = refl
known_from_halves max = refl

abbrev uuids : UuidCrate
uuids = record {
  Uuid = KnownUuid;
  from_u64_pair = from_halves;
  as_u64_pair = known_halves;
  halves = known_bounds;
  from_as = known_from_halves;
}

data KnownTime : Type 0 where
  epoch before : KnownTime

abbrev known_millis : KnownTime → ℤ
known_millis epoch = pos 0
known_millis before = negsuc 999

abbrev from_millis : ℤ → Option KnownTime
from_millis (pos n) = if n == 0 then some epoch else none
from_millis (negsuc n) = if n == 999 then some before else none

known_range : (t : KnownTime) → IsSigned 64 (known_millis t)
known_range epoch = omega arith
known_range before = omega arith

abbrev times : Chrono
times = record {
  DateTime = KnownTime;
  timestamp_millis_opt = from_millis;
  timestamp_millis = known_millis;
  millis_range = known_range;
}

uuid_size : length (encode_packet (uuid order uuids) max []) ≡ 16
unfolding encode_packet uuid u64 ◌>>◌ done extend to_le_bytes
uuid_size = refl

time_size : length (encode_packet (date_time order times) before []) ≡ 8
unfolding encode_packet date_time i64 ◌>>◌ done extend to_le_bytes
time_size = refl

decode-encode_uuid_example :
    decode_packet (uuid order uuids) (encode_packet (uuid order uuids) max []) ≡ ok max
decode-encode_uuid_example = decode-encode_uuid order_laws uuids max (omega (arith, uuid_size))

decode-encode_time_example :
    decode_packet (date_time order times) (encode_packet (date_time order times) before [])
    ≡ ok before
decode-encode_time_example =
    decode-encode_time order_laws times before refl (omega (arith, time_size))

uleb-write_uleb_example :
    (uleb (new (write_uleb 300 []))
      ≡ ok (300, advance (new (write_uleb 300 [])) (length (write_uleb 300 []))))
    × (length (write_uleb 300 []) ≤ 10)
uleb-write_uleb_example = uleb-write_uleb 300 (omega arith)
