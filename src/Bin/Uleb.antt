-- ===== src/Bin/Uleb.antt =====
-- The variable-length integers of bin.rs: ten groups of seven bits, and what reading them gives.
use phira_mp.Common.{
  ℕ, zero, suc, ◌+◌, ◌*◌, ◌/◌, ◌%◌, ◌^◌, ◌≤◌, ◌<◌, bit_and, bit_or, ◌≡◌, true, false, ap, ◌∙◌, [],
  ◌∷◌, ◌++◌, length, append_assoc, arith, ◌==◌, if◌then◌else◌, get_elem?-drop, length-append,
  Bool-cases, inl, inr,
}
use phira_mp.Common.Bits.{low_bits, top_bit, set_top_bit, bit_and_group, bit_or_high, shift_seven}
use native.Mathlib.Nat.{div-add-mod}
use phira_mp.Bin.Reader.{
  ok, Bytes, BinaryReader, new, advance, byte, uleb_loop, uleb, join_group, write_uleb_loop,
  write_uleb,
}
use phira_mp.Bin.Faithful.{
  Left, Left-room, Left-advance, advance-append, Reads, Writes, Faithful, Faithful-new,
}

-- The groups of `v`, lowest first, when `k + 1` of them are enough.
unfoldable pub groups : ℕ → ℕ → Bytes
groups zero v = v ∷ []
groups (suc k) v =
    let more = groups k (v / 128) in if v / 128 == 0 then v ∷ [] else (v % 128 + 128) ∷ more

pub byte-Reads : (b : ℕ) → Reads byte b (b ∷ [])
unfolding byte
byte-Reads b r rest l = rw (get_elem?-drop r.pos r.bytes l.left, byte)

pub last_group : (v : ℕ) → v < 128 → bit_and v 0x7f % 256 ≡ v
last_group v h = omega (arith, bit_and_group v)

pub inner_group : (v : ℕ) → bit_or (bit_and v 0x7f % 256) 0x80 ≡ v % 128 + 128
inner_group v =
    let e : bit_and v 0x7f % 256 ≡ v % 128 = omega (arith, bit_and_group v) in
    rw e (set_top_bit (v % 128) (omega arith))

write_uleb_loop-groups :
    (k fuel v : ℕ) → v < 128 ^ suc k → k < fuel → Writes (write_uleb_loop fuel v) (groups k v)
unfolding write_uleb_loop groups
write_uleb_loop-groups k zero v h enough w = absurd (omega arith)
write_uleb_loop-groups zero (suc fuel) v h enough w = ground (arith, last_group v)
write_uleb_loop-groups (suc k) (suc fuel) v h enough w = ground (
  arith,
  last_group v,
  inner_group v,
  write_uleb_loop-groups k fuel (v / 128) (omega arith) (omega arith) (w ++ ((v % 128 + 128) ∷ [])),
  append_assoc w ((v % 128 + 128) ∷ []) (groups k (v / 128)),
)

-- One group joined to the bits already read.
join_group_lem :
    (b acc shift : ℕ)
    → b < 256
    → shift < 64
    → acc < 2 ^ shift
    → acc + b % 128 * 2 ^ shift < 2 ^ 64
    → join_group acc shift b ≡ acc + b % 128 * 2 ^ shift
join_group_lem b acc shift hb hs ha fits =
    let low : bit_and b 0x7f ≡ b % 128 = low_bits b hb in
    let same : shift % 64 ≡ shift = omega arith in
    let whole : b % 128 * 2 ^ shift % 2 ^ 64 ≡ b % 128 * 2 ^ shift = omega arith in
    rw (low, same, whole) (bit_or_high shift acc (b % 128) ha)

last_round :
    (fuel v acc shift : ℕ)
    → v < 128
    → shift < 64
    → acc < 2 ^ shift
    → acc + v * 2 ^ shift < 2 ^ 64
    → Reads (uleb_loop (suc fuel) acc shift) (acc + v * 2 ^ shift) (v ∷ [])
unfolding uleb_loop
last_round fuel v acc shift hv hs ha fits r rest l =
    let small : v % 128 ≡ v = omega arith in
    rw (byte-Reads v r rest l, uleb_loop)
      (ground (arith, small, top_bit v, join_group_lem v acc shift))

inner_round :
    (fuel g acc shift : ℕ) (r : BinaryReader) (rest : Bytes)
    → g < 128
    → shift < 64
    → acc < 2 ^ shift
    → acc + g * 2 ^ shift < 2 ^ 64
    → Left r ((g + 128) ∷ rest)
    → uleb_loop (suc fuel) acc shift r
      ≡ uleb_loop fuel (acc + g * 2 ^ shift) (shift + 7) (advance r 1)
unfolding uleb_loop
inner_round fuel g acc shift r rest hg hs ha fits l =
    let small : (g + 128) % 128 ≡ g = omega arith in
    let top : bit_and (g + 128) 0x80 ≡ 128 = omega (arith, top_bit (g + 128) (omega arith)) in
    let joined = join_group_lem (g + 128) acc shift (omega arith) hs ha (rw small fits) in
    let joined' : join_group acc shift (g + 128) ≡ acc + g * 2 ^ shift = rw small at joined in
    rw (byte-Reads (g + 128) r rest l, uleb_loop) (rw (top, joined'))

more_rounds :
    (fuel g acc shift x : ℕ) (xs : Bytes)
    → g < 128
    → shift < 64
    → acc < 2 ^ shift
    → acc + g * 2 ^ shift < 2 ^ 64
    → Reads (uleb_loop fuel (acc + g * 2 ^ shift) (shift + 7)) x xs
    → Reads (uleb_loop (suc fuel) acc shift) x ((g + 128) ∷ xs)
more_rounds fuel g acc shift x xs hg hs ha fits reads r rest l =
    inner_round fuel g acc shift r (xs ++ rest) hg hs ha fits l
    ∙ reads (advance r 1) rest (Left-advance r ((g + 128) ∷ []) (xs ++ rest) l)
    ∙ ap (λ p. ok (x, p)) (advance-append r ((g + 128) ∷ []) xs)

pub groups_last : (k v : ℕ) → (v / 128 == 0) ≡ true → groups (suc k) v ≡ v ∷ []
unfolding groups
groups_last k v h = rw h

pub groups_more :
    (k v : ℕ) → (v / 128 == 0) ≡ false → groups (suc k) v ≡ (v % 128 + 128) ∷ groups k (v / 128)
unfolding groups
groups_more k v h = rw h

-- The lowest group of `v` and the groups above it, shifted by `s`.
pub split_shifted : (v s : ℕ) → v * 2 ^ s ≡ v % 128 * 2 ^ s + v / 128 * 2 ^ (s + 7)
split_shifted v s = omega (
  arith,
  ap (λ (t : ℕ). t * 2 ^ s) (div-add-mod v 128),
  ap (λ (t : ℕ). v / 128 * t) (shift_seven s),
)

group_times : (m p : ℕ) → m < 128 → m * p ≤ 127 * p
group_times m p h = grind arith

pub below_next : (v acc shift : ℕ) → acc < 2 ^ shift → acc + v % 128 * 2 ^ shift < 2 ^ (shift + 7)
below_next v acc shift h =
    omega (arith, group_times (v % 128) (2 ^ shift) (omega arith), shift_seven shift)

uleb_loop-groups :
    (k fuel v acc shift : ℕ)
    → v < 128 ^ suc k
    → shift + 7 * k < 64
    → acc < 2 ^ shift
    → acc + v * 2 ^ shift < 2 ^ 64
    → length (groups k v) ≤ fuel
    → Reads (uleb_loop fuel acc shift) (acc + v * 2 ^ shift) (groups k v)
uleb_loop-groups zero zero v acc shift hv hs ha fits hf = absurd (unfold groups in omega arith)
uleb_loop-groups zero (suc fuel) v acc shift hv hs ha fits hf =
    unfold groups in last_round fuel v acc shift (omega arith) (omega arith) ha fits
uleb_loop-groups (suc k) zero v acc shift hv hs ha fits hf = elim (Bool-cases (v / 128 == 0)) [
  | inl end ↦ absurd (omega (arith, ap length (groups_last k v end)))
  | inr go ↦ absurd (omega (arith, ap length (groups_more k v go)))
]
uleb_loop-groups (suc k) (suc fuel) v acc shift hv hs ha fits hf =
    elim (Bool-cases (v / 128 == 0)) [
      | inl end ↦
          rw (groups_last k v end)
            (last_round fuel v acc shift (ground arith) (omega arith) ha fits)
      | inr go ↦
          let whole : acc + v * 2 ^ shift ≡ acc + v % 128 * 2 ^ shift + v / 128 * 2 ^ (shift + 7) =
            omega (arith, split_shifted v shift) in
          rw (groups_more k v go, whole)
            (more_rounds fuel (v % 128) acc shift _ (groups k (v / 128)) (omega arith) (omega arith)
              ha (omega arith)
              (uleb_loop-groups k fuel (v / 128) (acc + v % 128 * 2 ^ shift) (shift + 7)
                (omega arith) (omega arith) (below_next v acc shift ha) (omega arith)
                (omega (arith, ap length (groups_more k v go)))))
    ]

pub uleb-Faithful : (v : ℕ) → v < 2 ^ 64 → Faithful uleb (write_uleb v) v
unfolding uleb write_uleb
uleb-Faithful v h = record {
  image = groups 9 v;
  writes = write_uleb_loop-groups 9 10 v (omega arith) (omega arith);
  reads = λ r rest l.
      let plain : 0 + v * 2 ^ 0 ≡ v = omega arith in
      let room = Left-room r (groups 9 v ++ rest) l in
      let start =
        uleb_loop-groups 9 (suc (length r.bytes)) v 0 0 (omega arith) (omega arith) (omega arith)
          (omega arith) (omega (arith, room, length-append (groups 9 v) rest)) r rest l in
      start ∙ ap (λ x. ok (x, advance r (length (groups 9 v)))) plain;
}

write_uleb-groups : (v : ℕ) → v < 2 ^ 64 → write_uleb v [] ≡ groups 9 v
unfolding write_uleb
write_uleb-groups v h = write_uleb_loop-groups 9 10 v (omega arith) (omega arith) []

groups_short : (k v : ℕ) → length (groups k v) ≤ k + 1
unfolding groups
groups_short zero v = omega arith
groups_short (suc k) v = ground (arith, groups_short k (v / 128))

-- A number below 2^64 is written in at most ten bytes, and `uleb` reads it back from them and stops
-- behind the last one.
pub uleb-write_uleb :
    (v : ℕ)
    → v < 2 ^ 64
    → (uleb (new (write_uleb v []))
        ≡ ok (v, advance (new (write_uleb v [])) (length (write_uleb v []))))
      × (length (write_uleb v []) ≤ 10)
uleb-write_uleb v h =
    (Faithful-new uleb (write_uleb v) v (uleb-Faithful v h) (omega (arith, short)), short)
  where
    short : length (write_uleb v []) ≤ 10
    short = omega (arith, ap length (write_uleb-groups v h), groups_short 9 v)
