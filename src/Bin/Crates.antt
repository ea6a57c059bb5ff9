-- ===== src/Bin/Crates.antt =====
-- The implementations of `BinaryData` in bin.rs for types of the crates uuid and chrono, which are
-- parameters with what their documentation says of the functions that bin.rs calls.
use phira_mp.Common.{subst, ℕ, ◌^◌, ◌<◌, ◌≡◌, Option, none, some}
use phira_mp.Common.Int.{ℤ, IsSigned}
use phira_mp.Bin.Reader.{invalid_timestamp, Read, ◌>>=◌, pure, bail, ◌>>◌, done}
use phira_mp.Bin.Faithful.{Faithful, Faithful-pure, Faithful-bind}
use phira_mp.Bin.Data.{BinaryData, ByteOrder, IsLittleEndian, u64, i64}
use phira_mp.Bin.Laws.{Sound, u64-Sound, i64-Sound}

-- `from_u64_pair` takes the high half first, and undoes `as_u64_pair`.
pub record UuidCrate : Type 1 where
  pub Uuid : Type 0
  pub from_u64_pair : ℕ → ℕ → Uuid
  pub as_u64_pair : Uuid → ℕ × ℕ
  pub halves : (u : Uuid) → ((as_u64_pair u).0 < 2 ^ 64) × ((as_u64_pair u).1 < 2 ^ 64)
  pub from_as : (u : Uuid) → from_u64_pair (as_u64_pair u).0 (as_u64_pair u).1 ≡ u

-- `timestamp_millis_opt(z).single()` and `timestamp_millis`.
pub record Chrono : Type 1 where
  pub DateTime : Type 0
  pub timestamp_millis_opt : ℤ → Option DateTime
  pub timestamp_millis : DateTime → ℤ
  pub millis_range : (t : DateTime) → IsSigned 64 (timestamp_millis t)

module _ (le : ByteOrder) (c : UuidCrate) where
  open c use {Uuid, from_u64_pair, as_u64_pair, from_as, halves}

  unfoldable pub uuid : BinaryData Uuid
  uuid = record {
    read_binary = (do
      low ← (u64 le).read_binary
      high ← (u64 le).read_binary
      pure (from_u64_pair high low));
    write_binary = λ u.
        (u64 le).write_binary (as_u64_pair u).1
        >> ((u64 le).write_binary (as_u64_pair u).0 >> done);
  }

  -- A UUID is read back from its two halves, the low one first.
  pub uuid-Sound : IsLittleEndian le → (u : Uuid) → Sound uuid u
  unfolding uuid
  uuid-Sound laws u = record {
    faithful = Faithful-bind _ (u64-Sound laws _ (halves u).1).faithful (
        Faithful-bind _ (u64-Sound laws _ (halves u).0).faithful (
          subst (λ x. Faithful (pure (from_u64_pair (as_u64_pair u).0 (as_u64_pair u).1)) done x)
            (from_as u) (Faithful-pure _)));
  }

module _ (le : ByteOrder) (c : Chrono) where
  open c use {DateTime, timestamp_millis_opt, timestamp_millis, millis_range}

  unfoldable pub or_invalid : Option DateTime → Read DateTime
  or_invalid none = bail invalid_timestamp
  or_invalid (some t) = pure t

  unfoldable pub date_time : BinaryData DateTime
  unfolding or_invalid
  date_time = record {
    read_binary = (do z ← (i64 le).read_binary; or_invalid (timestamp_millis_opt z));
    write_binary = λ t. (i64 le).write_binary (timestamp_millis t) >> done;
  }

  -- A time of whole milliseconds is read back.
  pub date_time-Sound :
      IsLittleEndian le
      → (t : DateTime) → timestamp_millis_opt (timestamp_millis t) ≡ some t
      → Sound date_time t
  unfolding date_time
  date_time-Sound laws t whole = record {
    faithful =
        Faithful-bind _ (i64-Sound laws _ (millis_range t)).faithful (rw whole (Faithful-pure t));
  }
