-- ===== src/Bin/Utf8.antt =====
-- The standard library's UTF-8, as far as bin.rs uses it: `String::from_utf8_lossy`.
pub mod Chars
use phira_mp.Common.{
  ℕ, zero, suc, ◌-◌, Bool, ◌&&◌, List, [], ◌∷◌, ◌++◌, ltb, leb, ◌==◌, if◌then◌else◌,
}
use phira_mp.Bin.Reader.{Bytes}

-- U+FFFD, which stands in for each longest piece that cannot be completed.
abbrev pub replacement : Bytes
replacement = 0xef ∷ 0xbf ∷ 0xbd ∷ []

-- A character under way: its bytes, how many are missing, and the range of the next one.
pub record Decoder : Type 0 where
  pub pending : Bytes
  pub missing : ℕ
  pub low : ℕ
  pub high : ℕ

abbrev pub idle : Decoder
idle = record { pending = []; missing = 0; low = 0; high = 0 }

abbrev pub await : ℕ → ℕ → ℕ → ℕ → Decoder
await b n lo hi = record { pending = b ∷ []; missing = n; low = lo; high = hi }

-- A first byte: what it puts out, and what it leaves under way.
unfoldable pub start : ℕ → Bytes × Decoder
start b =
    if ltb b 0x80
    then (b ∷ [], idle)
    else if leb 0xc2 b && leb b 0xdf
    then ([], await b 1 0x80 0xbf)
    else if b == 0xe0
    then ([], await b 2 0xa0 0xbf)
    else if b == 0xed
    then ([], await b 2 0x80 0x9f)
    else if leb 0xe1 b && leb b 0xef
    then ([], await b 2 0x80 0xbf)
    else if b == 0xf0
    then ([], await b 3 0x90 0xbf)
    else if leb 0xf1 b && leb b 0xf3
    then ([], await b 3 0x80 0xbf)
    else if b == 0xf4
    then ([], await b 3 0x80 0x8f)
    else (replacement, idle)

-- A byte that cannot follow ends the character under way, and is read as a first byte.
unfoldable pub feed : Decoder → ℕ → Bytes × Decoder
unfolding start
feed d b =
    if d.missing == 0
    then start b
    else if leb d.low b && leb b d.high
    then (if d.missing == 1 then (d.pending ++ (b ∷ []), idle) else (
      [],
      record { pending = d.pending ++ (b ∷ []); missing = d.missing - 1; low = 0x80; high = 0xbf },
    ))
    else (let (out, d') = start b in (replacement ++ out, d'))

unfoldable pub lossy : Decoder → Bytes → Bytes
unfolding feed
lossy d [] = if d.missing == 0 then [] else replacement
lossy d (b ∷ bs) = let (out, d') = feed d b in out ++ lossy d' bs

unfoldable pub from_utf8_lossy : Bytes → Bytes
unfolding lossy
from_utf8_lossy bs = lossy idle bs
