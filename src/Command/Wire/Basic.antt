-- ===== src/Command/Wire/Basic.antt =====
-- command.rs: `Varchar` and `RoomId` on the wire, by their hand-written implementations.
use phira_mp.Common.{ℕ, ltb, if◌then◌else◌}
use phira_mp.Common.Eq.{int_eq}
use phira_mp.Bin.Reader.{Result, ok, err, string_too_long, Read, ◌>>=◌, pure, bail, take, uleb}
use phira_mp.Bin.Utf8.{from_utf8_lossy}
use phira_mp.Bin.Data.{BinaryData, string, outcome}
use phira_mp.Command.Types.{SResult, Varchar, RoomId, validate}

abbrev pub sresult : {A : Type 0} → BinaryData A → BinaryData (SResult A)
sresult d = outcome d string

unfoldable pub read_varchar : (n len : ℕ) → Read (Varchar n)
read_varchar n len =
    if ltb n len
    then bail string_too_long
    else (do bs ← take len; pure (record { into_inner = from_utf8_lossy bs }))

unfoldable pub varchar : (n : ℕ) → BinaryData (Varchar n)
varchar n = record {
  read_binary = (do len ← uleb; read_varchar n len);
  write_binary = λ v. string.write_binary v.into_inner;
}

abbrev pub from_result {ℓ} : {A : Type ℓ} → Result A → Read A
from_result (ok a) = pure a
from_result (err e) = bail e

unfoldable pub room_id : BinaryData RoomId
room_id = record {
  read_binary = (do v ← (varchar 20).read_binary; from_result (validate (record { name = v })));
  write_binary = λ id. (varchar 20).write_binary id.name;
}
