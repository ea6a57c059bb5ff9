-- ===== src/Bin/Utf8/Chars.antt =====
-- UTF-8 as an encoding of characters, and that valid text passes `from_utf8_lossy` unchanged.
use phira_mp.Common.{
  ℕ, suc, ◌+◌, ◌/◌, ◌%◌, ◌≤◌, ◌<◌, ◌≡◌, ◌⊎◌, inl, inr, refl, ap, ◌∙◌, List, [], ◌∷◌, ◌++◌, ltb,
  ◌==◌, if◌then◌else◌, All, Bool-cases, arith,
}
use phira_mp.Bin.Reader.{Bytes}
use phira_mp.Bin.Utf8.{Decoder, idle, await, start, feed, lossy, from_utf8_lossy}

-- A Unicode scalar value: no surrogate.
abbrev pub IsScalar : ℕ → Type 0
IsScalar c = (c < 0x110000) × ((c < 0xd800) ⊎ (0xe000 ≤ c))

unfoldable pub encode_char : ℕ → Bytes
encode_char c =
    if ltb c 0x80
    then c ∷ []
    else if ltb c 0x800
    then (0xc0 + c / 64) ∷ (0x80 + c % 64) ∷ []
    else if ltb c 0x10000
    then (0xe0 + c / 4096) ∷ (0x80 + c / 64 % 64) ∷ (0x80 + c % 64) ∷ []
    else (0xf0 + c / 262144) ∷ (0x80 + c / 4096 % 64) ∷ (0x80 + c / 64 % 64) ∷ (0x80 + c % 64) ∷ []

unfoldable pub encode_text : List ℕ → Bytes
encode_text [] = []
encode_text (c ∷ cs) = encode_char c ++ encode_text cs

-- The contents of a Rust `String`.
pub record IsUtf8 (s : Bytes) : Type 0 where
  pub chars : List ℕ
  pub scalar : All IsScalar chars
  pub encoded : s ≡ encode_text chars

-- One byte is missing.
abbrev last_one : Bytes → Decoder
last_one bs = record { pending = bs; missing = 1; low = 0x80; high = 0xbf }

feed_last :
    (bs : Bytes) (b : ℕ) (rest : Bytes)
    → 0x80 ≤ b
    → b ≤ 0xbf
    → lossy (last_one bs) (b ∷ rest) ≡ (bs ++ (b ∷ [])) ++ lossy idle rest
unfolding lossy feed
feed_last bs b rest lo hi = ground arith

feed_middle :
    (bs : Bytes) (b : ℕ) (rest : Bytes)
    → 0x80 ≤ b
    → b ≤ 0xbf
    → lossy (record { pending = bs; missing = 2; low = 0x80; high = 0xbf }) (b ∷ rest)
      ≡ lossy (last_one (bs ++ (b ∷ []))) rest
unfolding lossy feed
feed_middle bs b rest lo hi = ground arith

start_ascii : (b : ℕ) → b < 0x80 → start b ≡ (b ∷ [], idle)
unfolding start
start_ascii b h = ground arith

start_two : (b : ℕ) → 0xc2 ≤ b → b ≤ 0xdf → start b ≡ ([], await b 1 0x80 0xbf)
unfolding start
start_two b lo hi = ground arith

abbrev low3 : ℕ → ℕ
low3 b = if b == 0xe0 then 0xa0 else 0x80

abbrev high3 : ℕ → ℕ
high3 b = if b == 0xed then 0x9f else 0xbf

abbrev low4 : ℕ → ℕ
low4 b = if b == 0xf0 then 0x90 else 0x80

abbrev high4 : ℕ → ℕ
high4 b = if b == 0xf4 then 0x8f else 0xbf

start_three : (b : ℕ) → 0xe0 ≤ b → b ≤ 0xef → start b ≡ ([], await b 2 (low3 b) (high3 b))
unfolding start
start_three b lo hi = ground arith

start_four : (b : ℕ) → 0xf0 ≤ b → b ≤ 0xf4 → start b ≡ ([], await b 3 (low4 b) (high4 b))
unfolding start
start_four b lo hi = ground arith

feed_second :
    (b m lo hi n : ℕ)
    → lo ≤ n
    → n ≤ hi
    → feed (await b (suc (suc m)) lo hi) n
      ≡ ([], record { pending = b ∷ n ∷ []; missing = suc m; low = 0x80; high = 0xbf })
unfolding feed
feed_second b m lo hi n h k = ground arith

lossy_two :
    (b n : ℕ) (rest : Bytes)
    → 0xc2 ≤ b
    → b ≤ 0xdf
    → 0x80 ≤ n
    → n ≤ 0xbf
    → lossy idle (b ∷ n ∷ rest) ≡ b ∷ n ∷ lossy idle rest
lossy_two b n rest bl bh nl nh = rw start_two_step (feed_last (b ∷ []) n rest nl nh)
  where
    start_two_step : lossy idle (b ∷ n ∷ rest) ≡ lossy (last_one (b ∷ [])) (n ∷ rest)
    start_two_step = unfold lossy feed in (rw (start_two b bl bh))

lossy_three :
    (b n k : ℕ) (rest : Bytes)
    → 0xe0 ≤ b
    → b ≤ 0xef
    → low3 b ≤ n
    → n ≤ high3 b
    → 0x80 ≤ k
    → k ≤ 0xbf
    → lossy idle (b ∷ n ∷ k ∷ rest) ≡ b ∷ n ∷ k ∷ lossy idle rest
lossy_three b n k rest bl bh nl nh kl kh = rw step (feed_last (b ∷ n ∷ []) k rest kl kh)
  where
    step : lossy idle (b ∷ n ∷ k ∷ rest) ≡ lossy (last_one (b ∷ n ∷ [])) (k ∷ rest)
    step = unfold lossy in (rw (start_three b bl bh, feed_second b 0 (low3 b) (high3 b) n nl nh))

lossy_four :
    (b n k j : ℕ) (rest : Bytes)
    → 0xf0 ≤ b
    → b ≤ 0xf4
    → low4 b ≤ n
    → n ≤ high4 b
    → 0x80 ≤ k
    → k ≤ 0xbf
    → 0x80 ≤ j
    → j ≤ 0xbf
    → lossy idle (b ∷ n ∷ k ∷ j ∷ rest) ≡ b ∷ n ∷ k ∷ j ∷ lossy idle rest
lossy_four b n k j rest bl bh nl nh kl kh jl jh =
    rw step
      (rw (feed_middle (b ∷ n ∷ []) k (j ∷ rest) kl kh) (feed_last (b ∷ n ∷ k ∷ []) j rest jl jh))
  where
    step :
        lossy idle (b ∷ n ∷ k ∷ j ∷ rest)
        ≡ lossy
            (record { pending = b ∷ n ∷ []; missing = 2; low = 0x80; high = 0xbf })
            (k ∷ j ∷ rest)
    step = unfold lossy in (rw (start_four b bl bh, feed_second b 1 (low4 b) (high4 b) n nl nh))

lossy_one : (b : ℕ) (rest : Bytes) → b < 0x80 → lossy idle (b ∷ rest) ≡ b ∷ lossy idle rest
lossy_one b rest h = unfold lossy feed in (rw (start_ascii b h))

second_of_three :
    (c : ℕ)
    → IsScalar c
    → 0x800 ≤ c
    → (low3 (0xe0 + c / 4096) ≤ 0x80 + c / 64 % 64) × (0x80 + c / 64 % 64 ≤ high3 (0xe0 + c / 4096))
second_of_three c real h = ground arith

second_of_four :
    (c : ℕ)
    → c < 0x110000
    → 0x10000 ≤ c
    → (low4 (0xf0 + c / 262144) ≤ 0x80 + c / 4096 % 64)
      × (0x80 + c / 4096 % 64 ≤ high4 (0xf0 + c / 262144))
second_of_four c h k = ground arith

lossy-encode_char :
    (c : ℕ) (rest : Bytes)
    → IsScalar c
    → lossy idle (encode_char c ++ rest) ≡ encode_char c ++ lossy idle rest
unfolding encode_char
lossy-encode_char c rest real = elim (Bool-cases (ltb c 0x80)) [
  | inl one ↦ rw one (lossy_one c rest (ground arith))
  | inr more ↦ elim (Bool-cases (ltb c 0x800)) [
    | inl two ↦
        rw (more, two)
          (lossy_two _ _ rest (ground arith) (ground arith) (ground arith) (ground arith))
    | inr more2 ↦ elim (Bool-cases (ltb c 0x10000)) [
      | inl three ↦
          let (lo, hi) = second_of_three c real (ground arith) in
          rw (more, more2, three)
            (lossy_three _ _ _ rest (ground arith) (ground arith) lo hi (ground arith)
              (ground arith))
      | inr four ↦
          let (lo, hi) = second_of_four c (real.0) (ground arith) in
          rw (more, more2, four)
            (lossy_four _ _ _ _ rest (ground arith) (ground arith) lo hi (ground arith)
              (ground arith) (ground arith) (ground arith))
    ]
  ]
]

lossy-encode_text : (cs : List ℕ) → All IsScalar cs → lossy idle (encode_text cs) ≡ encode_text cs
unfolding encode_text
lossy-encode_text [] h = unfold lossy in refl
lossy-encode_text (c ∷ cs) h =
    lossy-encode_char c (encode_text cs) h.0 ∙ ap (◌++◌ (encode_char c)) (lossy-encode_text cs h.1)

-- A valid string comes through unchanged.
pub from_utf8_lossy-IsUtf8 : (s : Bytes) → IsUtf8 s → from_utf8_lossy s ≡ s
unfolding from_utf8_lossy
from_utf8_lossy-IsUtf8 s t = rw t.encoded (lossy-encode_text t.chars t.scalar)
