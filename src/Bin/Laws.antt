-- ===== src/Bin/Laws.antt =====
-- The implementations of `BinaryData` in bin.rs read back what they write.
use phira_mp.Common.{
  ℕ, zero, suc, ◌+◌, ◌-◌, ◌/◌, ◌%◌, ◌^◌, ◌<◌, ◌≡◌, refl, ap, ◌&&◌, Bool, true, false, none, some,
  List, [], ◌∷◌, ◌++◌, length, ◌==◌, leb, All, arith, length-append, take-append, take as slice,
  drop,
}
use phira_mp.Common.Int.{ℤ, to_word, of_word, IsSigned, of_word-to_word8}
use phira_mp.Bin.Reader.{ok, Bytes, Read, ◌>>=◌, pure, byte, take, Write, push, extend, advance}
use phira_mp.Bin.Utf8.{from_utf8_lossy}
use phira_mp.Bin.Utf8.Chars.{IsUtf8, from_utf8_lossy-IsUtf8}
use phira_mp.Bin.Faithful.{
  Left-room, Reads, Writes, Faithful, Faithful-pure, Faithful-bind, Faithful-end,
}
use phira_mp.Bin.Uleb.{byte-Reads, uleb-Faithful}
use phira_mp.Bin.Data.{
  BinaryData, to_le_bytes, ByteOrder, IsLittleEndian, unit, i8, u8, u16, u32, u64, i32, i64, f32,
  bool, bool_byte, string, pair, success, failure, option, read_some, write_option, outcome,
  read_outcome, write_outcome, array, read_many, write_many,
}

-- The value is read back from what was written for it.
pub record Sound {ℓ} {A : Type ℓ} (d : BinaryData A) (a : A) : Type ℓ where
  pub faithful : Faithful d.read_binary (d.write_binary a) a

in_bounds : (p n m k : ℕ) → p + (n + k) ≡ m → (leb p (p + n) && leb (p + n) m) ≡ true
in_bounds p n m k h = ground arith

take-Reads : (xs : Bytes) → Reads (take (length xs)) xs xs
unfolding take
take-Reads xs r rest l =
    rw (stop, in_bounds r.pos (length xs) (length r.bytes) (length rest) room)
      (ap (λ b. ok (b, advance r (length xs))) piece)
  where
    room : r.pos + (length xs + length rest) ≡ length r.bytes
    room = rw (← length-append xs rest) (Left-room r (xs ++ rest) l)

    stop : (r.pos + length xs) % 2 ^ 64 ≡ r.pos + length xs
    stop = let f = l.fits in omega (arith, room)

    piece : slice (r.pos + length xs - r.pos) (drop r.pos r.bytes) ≡ xs
    piece =
        let n : r.pos + length xs - r.pos ≡ length xs = omega arith in
        rw (n, l.left) (take-append xs rest)

extend-Writes : (xs : Bytes) → Writes (extend xs) xs
unfolding extend
extend-Writes xs w = refl

pub take-Faithful : (n : ℕ) (xs : Bytes) → length xs ≡ n → Faithful (take n) (extend xs) xs
take-Faithful n xs h = record {
  image = xs;
  writes = extend-Writes xs;
  reads = rw (← h) (take-Reads xs);
}

-- A reader's result passed through a function, as in `Ok(f(r.take(n)?))`.
pub Faithful-map {ℓ κ} :
    {A : Type ℓ} {B : Type κ} {m : Read A} {f : Write} {a : A} {b : B} (k : A → B)
    → Faithful m f a
    → k a ≡ b
    → Faithful (do x ← m; pure (k x)) f b
Faithful-map k x e = Faithful-end (λ y. pure (k y)) x (ap pure e)

push-Faithful : (b : ℕ) → Faithful byte (push b) b
unfolding push
push-Faithful b = record { image = b ∷ []; writes = λ w. refl; reads = byte-Reads b }

length-to_le_bytes : (w v : ℕ) → length (to_le_bytes w v) ≡ w
unfolding to_le_bytes
length-to_le_bytes zero v = refl
length-to_le_bytes (suc w) v = ap suc (length-to_le_bytes w (v / 256))

pub unit-Sound : Sound unit tt
unfolding unit
unit-Sound = record { faithful = Faithful-pure tt }

pub u8-Sound : (v : ℕ) → Sound u8 v
unfolding u8
u8-Sound v = record { faithful = push-Faithful v }

pub i8-Sound : (z : ℤ) → IsSigned 8 z → Sound i8 z
unfolding i8
i8-Sound z h = record {
  faithful = Faithful-map (of_word 8) (push-Faithful (to_word 8 z)) (of_word-to_word8 z h);
}

pub bool-Sound : (b : Bool) → Sound bool b
unfolding bool
bool-Sound b = record {
  faithful = Faithful-map (λ c. c == 1) (push-Faithful (bool_byte b)) (flag b);
}
  where
    flag : (b : Bool) → (bool_byte b == 1) ≡ b
    flag true = refl
    flag false = refl

module _ {le : ByteOrder} (laws : IsLittleEndian le) where
  pub u16-Sound : (v : ℕ) → v < 2 ^ 16 → Sound (u16 le) v
  unfolding u16
  u16-Sound v h = record {
    faithful =
        Faithful-map le.read_u16 (take-Faithful 2 _ (length-to_le_bytes 2 v)) (laws.u16_law v h);
  }

  pub u32-Sound : (v : ℕ) → v < 2 ^ 32 → Sound (u32 le) v
  unfolding u32
  u32-Sound v h = record {
    faithful =
        Faithful-map le.read_u32 (take-Faithful 4 _ (length-to_le_bytes 4 v)) (laws.u32_law v h);
  }

  pub u64-Sound : (v : ℕ) → v < 2 ^ 64 → Sound (u64 le) v
  unfolding u64
  u64-Sound v h = record {
    faithful =
        Faithful-map le.read_u64 (take-Faithful 8 _ (length-to_le_bytes 8 v)) (laws.u64_law v h);
  }

  pub i32-Sound : (z : ℤ) → IsSigned 32 z → Sound (i32 le) z
  unfolding i32
  i32-Sound z h = record {
    faithful =
        Faithful-map le.read_i32 (take-Faithful 4 _ (length-to_le_bytes 4 (to_word 32 z)))
          (laws.i32_law z h);
  }

  pub i64-Sound : (z : ℤ) → IsSigned 64 z → Sound (i64 le) z
  unfolding i64
  i64-Sound z h = record {
    faithful =
        Faithful-map le.read_i64 (take-Faithful 8 _ (length-to_le_bytes 8 (to_word 64 z)))
          (laws.i64_law z h);
  }

  pub f32-Sound : (v : ℕ) → v < 2 ^ 32 → Sound (f32 le) v
  unfolding f32
  f32-Sound v h = record {
    faithful =
        Faithful-map le.read_f32 (take-Faithful 4 _ (length-to_le_bytes 4 v)) (laws.f32_law v h);
  }

module _ {ℓ κ} {A : Type ℓ} {B : Type κ} {a : BinaryData A} {b : BinaryData B} where
  pub pair-Sound : {x : A} {y : B} → Sound a x → Sound b y → Sound (pair a b) (x, y)
  unfolding pair
  pair-Sound sx sy = record {
    faithful = Faithful-bind _ sx.faithful (Faithful-bind _ sy.faithful (Faithful-pure _));
  }

module _ {ℓ κ} {A : Type ℓ} {B : Type κ} (a : BinaryData A) (b : BinaryData B) where
  pub success-Sound : {x : A} → Sound a x → Sound (outcome a b) (success x)
  unfolding outcome read_outcome write_outcome
  success-Sound sx = record {
    faithful =
        Faithful-bind (read_outcome a b) (bool-Sound true).faithful
          (Faithful-bind _ sx.faithful (Faithful-pure _));
  }

  pub failure-Sound : {y : B} → Sound b y → Sound (outcome a b) (failure y)
  unfolding outcome read_outcome write_outcome
  failure-Sound sy = record {
    faithful =
        Faithful-bind (read_outcome a b) (bool-Sound false).faithful
          (Faithful-bind _ sy.faithful (Faithful-pure _));
  }

module _ {ℓ} {A : Type ℓ} (a : BinaryData A) where
  pub some-Sound : {x : A} → Sound a x → Sound (option a) (some x)
  unfolding option read_some write_option
  some-Sound sx = record {
    faithful =
        Faithful-bind (read_some a) (bool-Sound true).faithful
          (Faithful-bind _ sx.faithful (Faithful-pure _));
  }

  pub none-Sound : Sound (option a) none
  unfolding option read_some write_option
  none-Sound = record {
    faithful = Faithful-bind (read_some a) (bool-Sound false).faithful (Faithful-pure _);
  }

  many-Faithful :
      (xs : List A) → All (Sound a) xs → Faithful (read_many a (length xs)) (write_many a xs) xs
  unfolding read_many write_many
  many-Faithful [] h = Faithful-pure []
  many-Faithful (x ∷ xs) h =
      Faithful-bind _ (h.0).faithful (Faithful-map (λ ys. x ∷ ys) (many-Faithful xs h.1) refl)

  pub array-Sound : (xs : List A) → length xs < 2 ^ 64 → All (Sound a) xs → Sound (array a) xs
  unfolding array
  array-Sound xs fits h = record {
    faithful = Faithful-bind (read_many a) (uleb-Faithful _ fits) (many-Faithful xs h);
  }

-- The bytes of a string, after its length.
pub text-Faithful :
    (s : Bytes)
    → IsUtf8 s
    → Faithful (do bs ← take (length s); pure (from_utf8_lossy bs)) (extend s) s
text-Faithful s text =
    Faithful-map from_utf8_lossy (take-Faithful (length s) s refl) (from_utf8_lossy-IsUtf8 s text)

pub string-Sound : (s : Bytes) → IsUtf8 s → length s < 2 ^ 64 → Sound string s
unfolding string
string-Sound s text fits = record {
  faithful = Faithful-bind _ (uleb-Faithful (length s) fits) (text-Faithful s text);
}
