-- ===== src/Bin/Data.antt =====
-- The trait `BinaryData` of bin.rs and its implementations for the standard types. A `f32` stands as
-- its bit pattern. The crate byteorder is the parameter `ByteOrder`.
use phira_mp.Common.{
  ℕ, zero, suc, ◌/◌, ◌%◌, ◌^◌, ◌<◌, ◌≡◌, Bool, true, false, Option, none, some, List, [], ◌∷◌,
  length, ◌==◌,
}
use phira_mp.Common.Eq.{Eq}
use phira_mp.Common.Int.{ℤ, to_word, of_word, IsSigned}
use phira_mp.Common.Maps.{insert}
use phira_mp.Bin.Reader.{
  Bytes, Read, ◌>>=◌, pure, byte, take, uleb, Write, ◌>>◌, done, push, extend, write_uleb,
}
use phira_mp.Bin.Utf8.{from_utf8_lossy}

pub record BinaryData {ℓ} (A : Type ℓ) : Type ℓ where
  pub read_binary : Read A
  pub write_binary : A → Write

-- `to_le_bytes` of a word of `w` bytes.
unfoldable pub to_le_bytes : ℕ → ℕ → Bytes
to_le_bytes zero v = []
to_le_bytes (suc w) v = (v % 256) ∷ to_le_bytes w (v / 256)

-- `byteorder::LittleEndian`.
pub record ByteOrder : Type 0 where
  pub read_u16 : Bytes → ℕ
  pub read_u32 : Bytes → ℕ
  pub read_u64 : Bytes → ℕ
  pub read_i32 : Bytes → ℤ
  pub read_i64 : Bytes → ℤ
  pub read_f32 : Bytes → ℕ

-- Its documentation: each function reads the number whose little-endian bytes it is given.
pub record IsLittleEndian (le : ByteOrder) : Type 0 where
  pub u16_law : (v : ℕ) → v < 2 ^ 16 → le.read_u16 (to_le_bytes 2 v) ≡ v
  pub u32_law : (v : ℕ) → v < 2 ^ 32 → le.read_u32 (to_le_bytes 4 v) ≡ v
  pub u64_law : (v : ℕ) → v < 2 ^ 64 → le.read_u64 (to_le_bytes 8 v) ≡ v
  pub i32_law : (z : ℤ) → IsSigned 32 z → le.read_i32 (to_le_bytes 4 (to_word 32 z)) ≡ z
  pub i64_law : (z : ℤ) → IsSigned 64 z → le.read_i64 (to_le_bytes 8 (to_word 64 z)) ≡ z
  pub f32_law : (v : ℕ) → v < 2 ^ 32 → le.read_f32 (to_le_bytes 4 v) ≡ v

unfoldable pub unit : BinaryData (Unit {0})
unit = record { read_binary = pure tt; write_binary = λ _. done }

unfoldable pub i8 : BinaryData ℤ
i8 = record {
  read_binary = (do b ← byte; pure (of_word 8 b));
  write_binary = λ z. push (to_word 8 z);
}

unfoldable pub u8 : BinaryData ℕ
u8 = record { read_binary = byte; write_binary = push }

module _ (le : ByteOrder) where
  unfoldable pub u16 : BinaryData ℕ
  u16 = record {
    read_binary = (do bs ← take 2; pure (le.read_u16 bs));
    write_binary = λ v. extend (to_le_bytes 2 v);
  }

  unfoldable pub u32 : BinaryData ℕ
  u32 = record {
    read_binary = (do bs ← take 4; pure (le.read_u32 bs));
    write_binary = λ v. extend (to_le_bytes 4 v);
  }

  unfoldable pub u64 : BinaryData ℕ
  u64 = record {
    read_binary = (do bs ← take 8; pure (le.read_u64 bs));
    write_binary = λ v. extend (to_le_bytes 8 v);
  }

  unfoldable pub i32 : BinaryData ℤ
  i32 = record {
    read_binary = (do bs ← take 4; pure (le.read_i32 bs));
    write_binary = λ z. extend (to_le_bytes 4 (to_word 32 z));
  }

  unfoldable pub i64 : BinaryData ℤ
  i64 = record {
    read_binary = (do bs ← take 8; pure (le.read_i64 bs));
    write_binary = λ z. extend (to_le_bytes 8 (to_word 64 z));
  }

  unfoldable pub f32 : BinaryData ℕ
  f32 = record {
    read_binary = (do bs ← take 4; pure (le.read_f32 bs));
    write_binary = λ v. extend (to_le_bytes 4 v);
  }

abbrev pub bool_byte : Bool → ℕ
bool_byte true = 1
bool_byte false = 0

unfoldable pub bool : BinaryData Bool
bool = record { read_binary = (do b ← byte; pure (b == 1)); write_binary = λ b. push (bool_byte b) }

unfoldable pub string : BinaryData Bytes
string = record {
  read_binary = (do len ← uleb; bs ← take len; pure (from_utf8_lossy bs));
  write_binary = λ s. write_uleb (length s) >> extend s;
}

module _ {ℓ κ} {A : Type ℓ} {B : Type κ} (a : BinaryData A) (b : BinaryData B) where
  unfoldable pub pair : BinaryData (A × B)
  pair = record {
    read_binary = (do x ← a.read_binary; y ← b.read_binary; pure (x, y));
    write_binary = λ p. a.write_binary p.0 >> (b.write_binary p.1 >> done);
  }

-- Rust's `Result<A, B>` as a value that is sent.
pub data Outcome {ℓ κ} (A : Type ℓ) (B : Type κ) : Type (ℓ ⊔ κ) where
  success : A → Outcome A B
  failure : B → Outcome A B

module _ {ℓ} {A : Type ℓ} (a : BinaryData A) where
  unfoldable pub read_some : Bool → Read (Option A)
  read_some true = do x ← a.read_binary; pure (some x)
  read_some false = pure none

  unfoldable pub write_option : Option A → Write
  unfolding bool
  write_option (some x) = bool.write_binary true >> (a.write_binary x >> done)
  write_option none = bool.write_binary false >> done

  unfoldable pub option : BinaryData (Option A)
  unfolding bool
  option = record {
    read_binary = (do present ← bool.read_binary; read_some present);
    write_binary = write_option;
  }

module _ {ℓ κ} {A : Type ℓ} {B : Type κ} (a : BinaryData A) (b : BinaryData B) where
  unfoldable pub read_outcome : Bool → Read (Outcome A B)
  read_outcome true = do x ← a.read_binary; pure (success x)
  read_outcome false = do y ← b.read_binary; pure (failure y)

  unfoldable pub write_outcome : Outcome A B → Write
  unfolding bool
  write_outcome (success x) = bool.write_binary true >> (a.write_binary x >> done)
  write_outcome (failure y) = bool.write_binary false >> (b.write_binary y >> done)

  unfoldable pub outcome : BinaryData (Outcome A B)
  unfolding bool
  outcome = record {
    read_binary = (do good ← bool.read_binary; read_outcome good);
    write_binary = write_outcome;
  }

module _ {ℓ} {A : Type ℓ} (a : BinaryData A) where
  -- `(0..n).map(|_| self.read()).collect()`: the first error ends it.
  unfoldable pub read_many : ℕ → Read (List A)
  read_many zero = pure []
  read_many (suc n) = do x ← a.read_binary; xs ← read_many n; pure (x ∷ xs)

  unfoldable pub write_many : List A → Write
  write_many [] = done
  write_many (x ∷ xs) = a.write_binary x >> write_many xs

  unfoldable pub array : BinaryData (List A)
  array = record {
    read_binary = (do n ← uleb; read_many n);
    write_binary = λ xs. write_uleb (length xs) >> write_many xs;
  }

module _ {ℓ κ} {K : Type ℓ} {V : Type κ} ⦃e : Eq K⦄ (k : BinaryData K) (v : BinaryData V) where
  unfoldable pub read_entries : ℕ → List (K × V) → Read (List (K × V))
  unfolding pair
  read_entries zero m = pure m
  read_entries (suc n) m = do p ← (pair k v).read_binary; read_entries n (insert p.0 p.1 m)

  unfoldable pub write_entries : List (K × V) → Write
  write_entries [] = done
  write_entries ((x, y) ∷ m) = k.write_binary x >> (v.write_binary y >> write_entries m)

  unfoldable pub hash_map : BinaryData (List (K × V))
  hash_map = record {
    read_binary = (do n ← uleb; read_entries n []);
    write_binary = λ m. write_uleb (length m) >> write_entries m;
  }
