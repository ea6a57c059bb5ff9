-- ===== src/Stream/RoundTrip.antt =====
-- The codecs of bin.rs under `encode_packet` and `decode_packet`.
use phira_mp.Common.{◌^◌, ◌<◌, ◌≡◌, some, List, [], length, All}
use phira_mp.Common.Eq.{Eq}
use phira_mp.Common.Maps.{IsMap}
use phira_mp.Bin.Reader.{ok}
use phira_mp.Bin.Data.{BinaryData, ByteOrder, IsLittleEndian, hash_map}
use phira_mp.Bin.Laws.{Sound}
use phira_mp.Bin.MapLaws.{hash_map-Sound}
use phira_mp.Bin.Crates.{UuidCrate, Chrono, uuid, date_time, uuid-Sound, date_time-Sound}
use phira_mp.Stream.{encode_packet, decode_packet}
use phira_mp.Stream.Laws.{decode_packet-encode_packet}

-- A map whose keys are distinct, and whose keys and values are each read back from what was written
-- for them, is decoded with its entries in the order in which they were encoded; the number of
-- entries and the packet's length are below 2^64.
pub decode-encode_map {ℓ κ} :
    {K : Type ℓ} {V : Type κ} ⦃e : Eq K⦄ (k : BinaryData K) (v : BinaryData V) (m : List (K × V))
    → length m < 2 ^ 64
    → IsMap m
    → All (λ p. Sound k p.0 × Sound v p.1) m
    → length (encode_packet (hash_map k v) m []) < 2 ^ 64
    → decode_packet (hash_map k v) (encode_packet (hash_map k v) m []) ≡ ok m
decode-encode_map k v m few distinct each fits =
    decode_packet-encode_packet (hash_map k v) m (hash_map-Sound k v m few distinct each) fits

module _ {le : ByteOrder} (laws : IsLittleEndian le) where
  -- With the little-endian laws for the byte order and the laws of uuid, a UUID is decoded from its
  -- packet, provided that the packet's length is below 2^64.
  pub decode-encode_uuid :
      (c : UuidCrate) (u : c.Uuid)
      → length (encode_packet (uuid le c) u []) < 2 ^ 64
      → decode_packet (uuid le c) (encode_packet (uuid le c) u []) ≡ ok u
  decode-encode_uuid c u fits =
      decode_packet-encode_packet (uuid le c) u (uuid-Sound le c laws u) fits

  -- With the little-endian laws for the byte order and the laws of chrono, a time that chrono gives
  -- back for its own milliseconds is decoded from its packet, provided that the packet's length is
  -- below 2^64.
  pub decode-encode_time :
      (c : Chrono) (t : c.DateTime)
      → c.timestamp_millis_opt (c.timestamp_millis t) ≡ some t
      → length (encode_packet (date_time le c) t []) < 2 ^ 64
      → decode_packet (date_time le c) (encode_packet (date_time le c) t []) ≡ ok t
  decode-encode_time c t whole fits =
      decode_packet-encode_packet (date_time le c) t (date_time-Sound le c laws t whole) fits
