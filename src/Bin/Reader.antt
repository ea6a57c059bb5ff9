-- ===== src/Bin/Reader.antt =====
-- phira-mp-common/src/bin.rs: the reader and the writer. `usize` and `u64` are 64-bit words and
-- arithmetic wraps, as in the release profile.
use phira_mp.Common.{
  ℕ, zero, suc, ◌+◌, ◌-◌, ◌*◌, ◌/◌, ◌%◌, ◌^◌, bit_and, bit_or, ◌&&◌, none, some, List, [], ◌∷◌,
  ◌++◌, length, get_elem?, take as slice, drop, leb, ◌==◌, if◌then◌else◌,
}

-- The messages that `anyhow!` and `bail!` carry. `out_of_fuel` is no value of the program.
pub data Error : Type 0 where
  unexpected_eof string_too_long invalid_room_id invalid_timestamp : Error
  invalid_enum : ℕ → Error
  out_of_fuel : Error

pub data Result {ℓ} (A : Type ℓ) : Type ℓ where
  ok : A → Result A
  err : Error → Result A

-- A string or a buffer is the list of its bytes.
abbrev pub Bytes : Type 0
Bytes = List ℕ

-- `BinaryReader(&[u8], usize)`
pub record BinaryReader : Type 0 where
  pub bytes : Bytes
  pub pos : ℕ

abbrev pub Read {ℓ} : Type ℓ → Type ℓ
Read A = BinaryReader → Result (A × BinaryReader)

infixl 5 ◌>>=◌
unfoldable pub ◌>>=◌ {ℓ κ} : {A : Type ℓ} {B : Type κ} → Read A → (A → Read B) → Read B
◌>>=◌ m f r = elim (m r) [ ok (a, r') ↦ f a r' | err e ↦ err e ]

unfoldable pub pure {ℓ} : {A : Type ℓ} → A → Read A
pure a r = ok (a, r)

unfoldable pub bail {ℓ} : {A : Type ℓ} → Error → Read A
bail e r = err e

unfoldable pub new : Bytes → BinaryReader
new bs = record { bytes = bs; pos = 0 }

abbrev pub advance : BinaryReader → ℕ → BinaryReader
advance r n = record r { pos = r.pos + n }

unfoldable pub byte : Read ℕ
byte r = elim (get_elem? r.bytes r.pos) [ none ↦ err unexpected_eof | some b ↦ ok (b, advance r 1) ]

-- `self.0.get(self.1..(self.1 + n))`: no slice where the end lies before the start or past the end.
unfoldable pub take : ℕ → Read Bytes
take n r =
    let stop = (r.pos + n) % 2 ^ 64 in
    if leb r.pos stop && leb stop (length r.bytes)
    then ok (slice (stop - r.pos) (drop r.pos r.bytes), record r { pos = stop })
    else err unexpected_eof

-- `result |= ((byte & 0x7f) as u64) << shift`: the shift distance counts modulo 64.
abbrev pub join_group : ℕ → ℕ → ℕ → ℕ
join_group result shift b = bit_or result (bit_and b 0x7f * 2 ^ (shift % 64) % 2 ^ 64)

unfoldable pub uleb_loop : ℕ → ℕ → ℕ → Read ℕ
uleb_loop zero result shift r = err out_of_fuel
uleb_loop (suc fuel) result shift r = elim (byte r) [
  | err e ↦ err e
  | ok (b, r') ↦
      let result' = join_group result shift b in
      let more = uleb_loop fuel result' (shift + 7) r' in
      if bit_and b 0x80 == 0 then ok (result', r') else more
]

-- Each round takes a byte, so the bytes and one more round are enough.
unfoldable pub uleb : Read ℕ
unfolding uleb_loop
uleb r = uleb_loop (suc (length r.bytes)) 0 0 r

-- `BinaryWriter(&mut Vec<u8>)`: a writer maps the vector before to the vector after.
abbrev pub Write : Type 0
Write = Bytes → Bytes

-- One write after the other; a writer never fails. `done` is `Ok(())`.
infixl 5 ◌>>◌
unfoldable pub ◌>>◌ : Write → Write → Write
◌>>◌ f g w = g (f w)

unfoldable pub done : Write
done w = w

unfoldable pub extend : Bytes → Write
extend bs w = w ++ bs

unfoldable pub push : ℕ → Write
push b w = w ++ (b ∷ [])

-- Ten groups of seven bits hold a `u64`.
unfoldable pub write_uleb_loop : ℕ → ℕ → Write
unfolding push
write_uleb_loop zero v w = w
write_uleb_loop (suc fuel) v w =
    let b = bit_and v 0x7f % 256 in
    let v' = v / 128 in
    let w' = push (if v' == 0 then b else bit_or b 0x80) w in
    let more = write_uleb_loop fuel v' w' in if v' == 0 then w' else more

unfoldable pub write_uleb : ℕ → Write
unfolding write_uleb_loop
write_uleb v w = write_uleb_loop 10 v w
