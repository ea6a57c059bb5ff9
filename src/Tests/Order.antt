-- ===== src/Tests/Order.antt =====
-- A byte order that meets the documentation of byteorder.
use phira_mp.Common.{ℕ, zero, suc, ◌+◌, ◌*◌, ◌/◌, ◌^◌, ◌<◌, ◌≡◌, ◌∙◌, ap, [], ◌∷◌, arith}
use phira_mp.Common.Int.{ℤ, pos, negsuc, to_word, of_word, IsSigned}
use phira_mp.Bin.Reader.{Bytes}
use phira_mp.Bin.Data.{to_le_bytes, ByteOrder, IsLittleEndian}

unfoldable pub from_le_bytes : Bytes → ℕ
from_le_bytes [] = 0
from_le_bytes (b ∷ bs) = b + 256 * from_le_bytes bs

abbrev pub order : ByteOrder
order = record {
  read_u16 = from_le_bytes;
  read_u32 = from_le_bytes;
  read_u64 = from_le_bytes;
  read_i32 = λ bs. of_word 32 (from_le_bytes bs);
  read_i64 = λ bs. of_word 64 (from_le_bytes bs);
  read_f32 = from_le_bytes;
}

-- The numbers that `w` bytes hold.
unfoldable size : ℕ → ℕ
size zero = 1
size (suc w) = 256 * size w

from_le_bytes-to_le_bytes : (w v : ℕ) → v < size w → from_le_bytes (to_le_bytes w v) ≡ v
unfolding from_le_bytes to_le_bytes size
from_le_bytes-to_le_bytes zero v h = omega arith
from_le_bytes-to_le_bytes (suc w) v h =
    let e = from_le_bytes-to_le_bytes w (v / 256) (omega arith) in omega (arith, e)

of_word-to_word32 : (z : ℤ) → IsSigned 32 z → of_word 32 (to_word 32 z) ≡ z
of_word-to_word32 (pos n) h = ground arith
of_word-to_word32 (negsuc n) h = ground arith

of_word-to_word64 : (z : ℤ) → IsSigned 64 z → of_word 64 (to_word 64 z) ≡ z
of_word-to_word64 (pos n) h = ground arith
of_word-to_word64 (negsuc n) h = ground arith

word_lt32 : (z : ℤ) → IsSigned 32 z → to_word 32 z < 2 ^ 32
word_lt32 (pos n) h = omega arith
word_lt32 (negsuc n) h = omega arith

word_lt64 : (z : ℤ) → IsSigned 64 z → to_word 64 z < 2 ^ 64
word_lt64 (pos n) h = omega arith
word_lt64 (negsuc n) h = omega arith

pub order_laws : IsLittleEndian order
unfolding size
order_laws = record {
  u16_law = λ v h. from_le_bytes-to_le_bytes 2 v h;
  u32_law = λ v h. from_le_bytes-to_le_bytes 4 v h;
  u64_law = λ v h. from_le_bytes-to_le_bytes 8 v h;
  i32_law = λ z h.
      ap (of_word 32) (from_le_bytes-to_le_bytes 4 (to_word 32 z) (word_lt32 z h))
      ∙ of_word-to_word32 z h;
  i64_law = λ z h.
      ap (of_word 64) (from_le_bytes-to_le_bytes 8 (to_word 64 z) (word_lt64 z h))
      ∙ of_word-to_word64 z h;
  f32_law = λ v h. from_le_bytes-to_le_bytes 4 v h;
}
