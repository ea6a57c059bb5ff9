-- ===== src/Common/Int.antt =====
-- Signed integers over the native numbers, and their two's complement words.
use Prim.Native.Nat.{ℕ, suc, ◌-◌, ◌^◌, ◌<◌}
use mathlib.Core.Path.{◌≡◌}
use native.Mathlib.Omega.{arith}
use phira_mp.Common.Tests.{ltb, if◌then◌else◌}

-- `negsuc n` is -(n + 1).
pub data ℤ : Type 0 where
  pos : ℕ → ℤ
  negsuc : ℕ → ℤ

-- The word of `w` bits that stands for an integer, and back.
abbrev pub to_word : ℕ → ℤ → ℕ
to_word w (pos n) = n
to_word w (negsuc n) = 2 ^ w - suc n

abbrev pub of_word : ℕ → ℕ → ℤ
of_word w v = if ltb v (2 ^ (w - 1)) then pos v else negsuc (2 ^ w - suc v)

-- The integers that a signed word of `w` bits can hold.
abbrev pub IsSigned : ℕ → ℤ → Type 0
IsSigned w (pos n) = n < 2 ^ (w - 1)
IsSigned w (negsuc n) = n < 2 ^ (w - 1)

pub to_word_lt8 : (z : ℤ) → IsSigned 8 z → to_word 8 z < 256
to_word_lt8 (pos n) h = omega arith
to_word_lt8 (negsuc n) h = omega arith

pub of_word-to_word8 : (z : ℤ) → IsSigned 8 z → of_word 8 (to_word 8 z) ≡ z
of_word-to_word8 (pos n) h = ground arith
of_word-to_word8 (negsuc n) h = ground arith
