-- ===== src/Stream/Header.antt =====
-- The length in front of a packet is read back.
use phira_mp.Common.{
  ℕ, zero, suc, ◌+◌, ◌*◌, ◌/◌, ◌%◌, ◌^◌, ◌≤◌, ◌<◌, bit_and, bit_or, ◌≡◌, ◌≢◌, ap, ◌∙◌, false, [],
  ◌∷◌, ◌++◌, length, arith, ltb, ◌==◌, Bool-cases, inl, inr,
}
use phira_mp.Common.Bits.{low_bits, top_bit, bit_or_high}
use phira_mp.Bin.Reader.{Bytes}
use phira_mp.Bin.Uleb.{
  groups, groups_last, groups_more, last_group, inner_group, split_shifted, below_next,
}
use phira_mp.Stream.{got, ended, out_of_fuel, length_loop, length_bytes, read_length}

length_loop-groups : (k room v : ℕ) → v < 128 ^ suc k → k < room → length_loop room v ≡ groups k v
unfolding length_loop groups
length_loop-groups k zero v h enough = absurd (omega arith)
length_loop-groups zero (suc room) v h enough = ground (arith, last_group v)
length_loop-groups (suc k) (suc room) v h enough = ground (
  arith,
  last_group v,
  inner_group v,
  length_loop-groups k room (v / 128) (omega arith) (omega arith),
)

pub length_bytes-groups : (v : ℕ) → v < 2 ^ 32 → length_bytes v ≡ groups 4 v
unfolding length_bytes
length_bytes-groups v h =
    let small : v % 2 ^ 32 ≡ v = omega arith in
    rw small (length_loop-groups 4 5 v (omega arith) (omega arith))

abbrev join32 : ℕ → ℕ → ℕ → ℕ
join32 len pos b = bit_or len (bit_and b 0x7f * 2 ^ (pos % 32) % 2 ^ 32)

join32_lem :
    (b len pos : ℕ)
    → b < 256
    → pos < 32
    → len < 2 ^ pos
    → len + b % 128 * 2 ^ pos < 2 ^ 32
    → join32 len pos b ≡ len + b % 128 * 2 ^ pos
join32_lem b len pos hb hp hl fits =
    let low : bit_and b 0x7f ≡ b % 128 = low_bits b hb in
    let same : pos % 32 ≡ pos = omega arith in
    let whole : b % 128 * 2 ^ pos % 2 ^ 32 ≡ b % 128 * 2 ^ pos = omega arith in
    rw (low, same, whole) (bit_or_high pos len (b % 128) hl)

last_length :
    (v len pos : ℕ) (rest : Bytes)
    → v < 128
    → pos < 32
    → len < 2 ^ pos
    → len + v * 2 ^ pos < 2 ^ 32
    → read_length len pos (v ∷ rest) ≡ got (len + v * 2 ^ pos, rest)
unfolding read_length
last_length v len pos rest hv hp hl fits =
    let small : v % 128 ≡ v = omega arith in ground (arith, small, top_bit v, join32_lem v len pos)

inner_length :
    (g len pos : ℕ) (rest : Bytes)
    → g < 128
    → pos + 7 ≤ 32
    → len < 2 ^ pos
    → len + g * 2 ^ pos < 2 ^ 32
    → read_length len pos ((g + 128) ∷ rest) ≡ read_length (len + g * 2 ^ pos) (pos + 7) rest
unfolding read_length
inner_length g len pos rest hg hp hl fits =
    let small : (g + 128) % 128 ≡ g = omega arith in
    let top : bit_and (g + 128) 0x80 ≡ 128 = omega (arith, top_bit (g + 128) (omega arith)) in
    let joined = join32_lem (g + 128) len pos (omega arith) (omega arith) hl (rw small fits) in
    let joined' : join32 len pos (g + 128) ≡ len + g * 2 ^ pos = rw small at joined in
    let inside : ltb 32 (pos + 7) ≡ false = ground arith in rw (top, joined', inside)

read_length-groups :
    (k v len pos : ℕ) (rest : Bytes)
    → v < 128 ^ suc k
    → pos + 7 * k < 32
    → len < 2 ^ pos
    → len + v * 2 ^ pos < 2 ^ 32
    → read_length len pos (groups k v ++ rest) ≡ got (len + v * 2 ^ pos, rest)
read_length-groups zero v len pos rest hv hp hl fits =
    unfold groups in last_length v len pos rest (omega arith) (omega arith) hl fits
read_length-groups (suc k) v len pos rest hv hp hl fits = elim (Bool-cases (v / 128 == 0)) [
  | inl end ↦
      rw (groups_last k v end) (last_length v len pos rest (ground arith) (omega arith) hl fits)
  | inr go ↦
      let whole : len + v * 2 ^ pos ≡ len + v % 128 * 2 ^ pos + v / 128 * 2 ^ (pos + 7) =
        omega (arith, split_shifted v pos) in
      rw (groups_more k v go, whole)
        (inner_length (v % 128) len pos (groups k (v / 128) ++ rest) (omega arith) (omega arith) hl
            (omega arith)
          ∙ read_length-groups k (v / 128) (len + v % 128 * 2 ^ pos) (pos + 7) rest (omega arith)
              (omega arith) (below_next v len pos hl) (omega arith))
]

-- The receiver reads the length that the sender wrote, and leaves what follows.
pub read_length-length_bytes :
    (v : ℕ) (rest : Bytes) → v < 2 ^ 32 → read_length 0 0 (length_bytes v ++ rest) ≡ got (v, rest)
read_length-length_bytes v rest h =
    let plain : 0 + v * 2 ^ 0 ≡ v = omega arith in
    rw (length_bytes-groups v h) (
      read_length-groups 4 v 0 0 rest (omega arith) (omega arith) (omega arith) (omega arith)
      ∙ ap (λ x. got (x, rest)) plain)

-- A length takes one byte at least and, with the position that it starts at, five at most.
pub read_length_takes :
    (socket : Bytes) (len pos v : ℕ) (rest : Bytes)
    → pos ≤ 32
    → read_length len pos socket ≡ got (v, rest)
    → (length rest < length socket) × (pos + 7 * length socket ≤ 7 * length rest + 39)
unfolding read_length
read_length_takes [] len pos v rest h e = cc
read_length_takes (b ∷ bs) len pos v rest h e =
    ground (arith, read_length_takes bs (join32 len pos b) (pos + 7) v rest)

pub read_length-ne-fuel :
    (socket : Bytes) (len pos : ℕ) → read_length len pos socket ≢ ended out_of_fuel
unfolding read_length
read_length-ne-fuel [] len pos e = cc
read_length-ne-fuel (b ∷ bs) len pos e =
    ground (arith, read_length-ne-fuel bs (join32 len pos b) (pos + 7))

pub length_bytes_pos : (v : ℕ) → 0 < length (length_bytes v)
unfolding length_bytes
length_bytes_pos v = at_least_one 4 (v % 2 ^ 32)
  where
    at_least_one : (room x : ℕ) → 0 < length (length_loop (suc room) x)
    at_least_one room x = unfold length_loop in ground arith
