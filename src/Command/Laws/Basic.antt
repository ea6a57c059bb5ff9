-- ===== src/Command/Laws/Basic.antt =====
-- `Varchar` and `RoomId` on the wire, and what a length limit on bytes does not give.
use phira_mp.Common.{
  ℕ, ◌^◌, ◌<◌, ◌≡◌, refl, ap, Option, none, some, true, false, List, [], ◌∷◌, length, All, arith,
  ltb, inl,
}
use phira_mp.Bin.Reader.{Bytes, ok}
use phira_mp.Bin.Utf8.{from_utf8_lossy}
use phira_mp.Bin.Utf8.Chars.{IsUtf8, from_utf8_lossy-IsUtf8, IsScalar, encode_char, encode_text}
use phira_mp.Bin.Faithful.{Faithful-bind, Faithful-end}
use phira_mp.Bin.Uleb.{uleb-Faithful}
use phira_mp.Bin.Data.{BinaryData, string, array, option}
use phira_mp.Bin.Laws.{
  Sound, string-Sound, array-Sound, none-Sound, some-Sound, take-Faithful, Faithful-map,
  success-Sound, failure-Sound,
}
use phira_mp.Command.Types.{SResult, Varchar, RoomId, validate, all_allowed}
use phira_mp.Command.Wire.Basic.{sresult, read_varchar, varchar, from_result, room_id}
use phira_mp.Command.Valid.{IsText, IsVarchar, IsRoomId, IsSResult, IsVec, IsOption}
use phira_mp.Bin.Data.{success, failure}

pub text-Sound : (s : Bytes) → IsText s → Sound string s
text-Sound s t = string-Sound s t.utf8 t.short

pub varchar-Sound : (n : ℕ) (v : Varchar n) → n < 2 ^ 64 → IsVarchar n v → Sound (varchar n) v
unfolding varchar read_varchar string
varchar-Sound n v small h = record {
  faithful =
      let inside : ltb n (length v.into_inner) ≡ false = ground (arith, h.short) in
      Faithful-bind (read_varchar n) (uleb-Faithful (length v.into_inner) (omega (arith, h.short)))
        (rw inside (
          Faithful-map (λ bs. record { into_inner = from_utf8_lossy bs })
            (take-Faithful (length v.into_inner) v.into_inner refl)
            (ap (λ s. record { into_inner = s }) (from_utf8_lossy-IsUtf8 v.into_inner h.utf8))));
}

-- Text of one-byte characters is valid UTF-8.
ascii-encode_text : (s : Bytes) → All (λ c. c < 128) s → s ≡ encode_text s
unfolding encode_text encode_char
ascii-encode_text [] h = refl
ascii-encode_text (c ∷ s) h = ground (arith, ascii-encode_text s h.1)

ascii-IsScalar : (s : Bytes) → All (λ c. c < 128) s → All IsScalar s
ascii-IsScalar [] h = tt
ascii-IsScalar (c ∷ s) h = ((omega arith, inl (omega arith)), ascii-IsScalar s h.1)

pub ascii-IsUtf8 : (s : Bytes) → All (λ c. c < 128) s → IsUtf8 s
ascii-IsUtf8 s h = record {
  chars = s;
  scalar = ascii-IsScalar s h;
  encoded = ascii-encode_text s h;
}

all_allowed-ascii : (s : Bytes) → all_allowed s ≡ true → All (λ c. c < 128) s
unfolding all_allowed
all_allowed-ascii [] h = tt
all_allowed-ascii (c ∷ s) h = ground (arith, all_allowed-ascii s)

validate-ascii : (id : RoomId) → validate id ≡ ok id → All (λ c. c < 128) id.name.into_inner
unfolding validate
validate-ascii id h = all_allowed-ascii id.name.into_inner (ground arith)

pub room_id-Sound : (id : RoomId) → IsRoomId id → Sound room_id id
unfolding room_id
room_id-Sound id h = record {
  faithful =
      Faithful-end _ (varchar-Sound 20 id.name (omega arith) valid).faithful
        (ap from_result h.allowed);
}
  where
    valid : IsVarchar 20 id.name
    valid = record { utf8 = ascii-IsUtf8 _ (validate-ascii id h.allowed); short = h.short }

module _ {A : Type 0} (d : BinaryData A) {P : A → Type 0} (sound : (a : A) → P a → Sound d a) where
  pub sresult-Sound : (r : SResult A) → IsSResult P r → Sound (sresult d) r
  sresult-Sound (success a) h = success-Sound d string (sound a h)
  sresult-Sound (failure e) h = failure-Sound d string (text-Sound e h)

module _ {A : Type 0} (d : BinaryData A) {P : A → Type 0} (sound : (a : A) → P a → Sound d a) where
  All-Sound : (xs : List A) → All P xs → All (Sound d) xs
  All-Sound [] h = tt
  All-Sound (x ∷ xs) h = (sound x h.0, All-Sound xs h.1)

  pub vec-Sound : (xs : List A) → IsVec P xs → Sound (array d) xs
  vec-Sound xs h = array-Sound d xs h.0 (All-Sound xs h.1)

  pub option-Sound : (o : Option A) → IsOption P o → Sound (option d) o
  option-Sound none h = none-Sound d
  option-Sound (some a) h = some-Sound d (sound a h)
