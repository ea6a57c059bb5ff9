-- ===== src/Stream.antt =====
-- phira-mp-common/src/lib.rs: packets, and the frames that `Stream` sends and receives. A socket is
-- the list of the bytes under way on it; the list's end is the end of the connection.
pub mod Header
pub mod Laws
pub mod RoundTrip
use phira_mp.Common.{
  ℕ, zero, suc, ◌+◌, ◌*◌, ◌/◌, ◌%◌, ◌^◌, bit_and, bit_or, Option, none, some, List, [], ◌∷◌, ◌++◌,
  length, take, drop, ltb, leb, ◌==◌, if◌then◌else◌,
}
use phira_mp.Bin.Reader.{Error, Result, ok, err, Bytes, new}
use phira_mp.Bin.Data.{BinaryData}

-- What ends a task: the socket's end, `bail!`, or a packet that cannot be decoded. `out_of_fuel` is
-- no value of the program.
pub data Ending : Type 0 where
  eof invalid_length packet_too_large : Ending
  invalid_packet : Error → Ending
  out_of_fuel : Ending

pub data Received {ℓ} (A : Type ℓ) : Type ℓ where
  got : A → Received A
  ended : Ending → Received A

abbrev pub max_packet : ℕ
max_packet = 2 * 1024 * 1024

module _ {ℓ} {A : Type ℓ} (d : BinaryData A) where
  -- `unwrap` cannot fail: a writer never does.
  unfoldable pub encode_packet : A → Bytes → Bytes
  encode_packet payload vec = d.write_binary payload vec

  unfoldable pub decode_packet : Bytes → Result A
  decode_packet bs = elim (d.read_binary (new bs)) [ ok (a, r) ↦ ok a | err e ↦ err e ]

-- The bytes of `len_buf` that a length fills; it has five, enough for a `u32`.
unfoldable pub length_loop : ℕ → ℕ → Bytes
length_loop zero x = []
length_loop (suc room) x =
    let b = bit_and x 0x7f % 256 in
    let x' = x / 128 in
    let more = length_loop room x' in if x' == 0 then b ∷ [] else bit_or b 0x80 ∷ more

unfoldable pub length_bytes : ℕ → Bytes
unfolding length_loop
length_bytes len = length_loop 5 (len % 2 ^ 32)

module _ {ℓ} {S : Type ℓ} (d : BinaryData S) where
  -- One round of the send task, for a socket that takes every byte.
  unfoldable pub send_one : S → Bytes → Bytes
  unfolding encode_packet length_bytes
  send_one payload socket =
      let buffer = encode_packet d payload [] in (socket ++ length_bytes (length buffer)) ++ buffer

  unfoldable pub send_task : List S → Bytes → Bytes
  unfolding send_one
  send_task [] socket = socket
  send_task (payload ∷ queue) socket = send_task queue (send_one payload socket)

-- The length in front of a packet. The test for `pos > 32` comes after the last byte's.
unfoldable pub read_length : ℕ → ℕ → Bytes → Received (ℕ × Bytes)
read_length len pos [] = ended eof
read_length len pos (b ∷ rest) =
    let len' = bit_or len (bit_and b 0x7f * 2 ^ (pos % 32) % 2 ^ 32) in
    let more = read_length len' (pos + 7) rest in
    if bit_and b 0x80 == 0
    then got (len', rest)
    else if ltb 32 (pos + 7)
    then ended invalid_length
    else more

-- A packet's bytes, after its length: `read_exact` wants all of them.
unfoldable pub read_body : ℕ → Bytes → Received (Bytes × Bytes)
read_body len rest =
    if ltb max_packet len
    then ended packet_too_large
    else if leb len (length rest)
    then got (take len rest, drop len rest)
    else ended eof

unfoldable pub read_frame : Bytes → Received (Bytes × Bytes)
unfolding read_length read_body
read_frame socket = elim (read_length 0 0 socket) [
  | got (len, rest) ↦ read_body len rest
  | ended e ↦ ended e
]

module _ {ℓ} {R : Type ℓ} (d : BinaryData R) where
  -- The receive task: the payloads that the handler is called with, in order, and what ends it.
  unfoldable pub recv_loop : ℕ → Bytes → List R × Ending
  unfolding read_frame decode_packet
  recv_loop zero socket = ([], out_of_fuel)
  recv_loop (suc fuel) socket = elim (read_frame socket) [
    | ended e ↦ ([], e)
    | got (buffer, rest) ↦ elim (decode_packet d buffer) [
      | err e ↦ ([], invalid_packet e)
      | ok payload ↦ let (more, e) = recv_loop fuel rest in (payload ∷ more, e)
    ]
  ]

  -- Each round takes a byte at least.
  unfoldable pub recv_task : Bytes → List R × Ending
  unfolding recv_loop
  recv_task socket = recv_loop (suc (length socket)) socket

-- `Stream::new`: the side that is given a version sends it, the other side reads it.
unfoldable pub send_version : Option ℕ → Bytes → Bytes
send_version (some version) socket = socket ++ (version ∷ [])
send_version none socket = socket

unfoldable pub stream_version : Option ℕ → Bytes → Received (ℕ × Bytes)
stream_version (some version) incoming = got (version, incoming)
stream_version none [] = ended eof
stream_version none (version ∷ incoming) = got (version, incoming)
