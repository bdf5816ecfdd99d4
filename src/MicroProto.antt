-- ===== src/MicroProto.antt =====
-- embedded.py, `CompactBinaryProtocolCodec`: the 26-byte telemetry frame, its CRC-16 and the codec.
-- The float operations, and the builtin `round` to an integer (no value where it raises), are
-- parameters; `struct` is the file Struct.antt. An exception is `none`.
mod Bits
mod Crc
mod Frames
mod Detection
mod Examples
use continuityos.Prelude.{
  false, not, ℕ, zero, suc, ◌+◌, ◌-◌, ◌*◌, ◌/◌, ◌==◌, ℤ, pos, negsuc, leb_ℤ, List, [], ◌∷◌, ◌++◌,
  Bool, Option, none, some, length, if◌then◌else◌,
}
use Prim.Native.Nat.{bit_and, bit_xor}
use continuityos.Float.{Float, dec, minimum, maximum}
use continuityos.Struct.{Code, Values, pack, unpack, calcsize, ◌>>=◌}
use continuityos.Struct.Code.{unsigned, signed}

-- `"<HIIiihBBbB"`, and the checksum's `"<H"`
abbrev pub header_format : List Code
header_format =
    unsigned 2
    ∷ unsigned 4
    ∷ unsigned 4
    ∷ signed 4
    ∷ signed 4
    ∷ signed 2
    ∷ unsigned 1
    ∷ unsigned 1
    ∷ signed 1
    ∷ unsigned 1
    ∷ []

abbrev pub crc_format : List Code
crc_format = unsigned 2 ∷ []

abbrev pub pack_format : List Code
pack_format =
    unsigned 2
    ∷ unsigned 4
    ∷ unsigned 4
    ∷ signed 4
    ∷ signed 4
    ∷ signed 2
    ∷ unsigned 1
    ∷ unsigned 1
    ∷ signed 1
    ∷ unsigned 1
    ∷ unsigned 2
    ∷ []

abbrev pub frame_size : ℕ
frame_size = calcsize pack_format

-- one of the eight rounds on a bit
unfoldable pub crc_bit : ℕ → ℕ
crc_bit crc = if bit_and crc 0x0001 == 0 then crc / 2 else bit_xor (crc / 2) 0xA001

unfoldable pub crc_bits : ℕ → ℕ → ℕ
crc_bits zero crc = crc
crc_bits (suc k) crc = crc_bits k (crc_bit crc)

unfoldable pub crc_byte : ℕ → ℕ → ℕ
crc_byte crc byte = crc_bits 8 (bit_xor crc byte)

unfoldable pub crc_bytes : ℕ → List ℕ → ℕ
crc_bytes crc [] = crc
crc_bytes crc (byte ∷ data') = crc_bytes (crc_byte crc byte) data'

unfoldable pub compute_crc16 : List ℕ → ℕ
compute_crc16 data' = bit_and (crc_bytes 0xFFFF data') 0xFFFF

-- the slices `b[:n]` and `b[n:]`
abbrev pub take : ℕ → List ℕ → List ℕ
take zero bs = []
take (suc n) [] = []
take (suc n) (b ∷ bs) = b ∷ take n bs

abbrev pub drop : ℕ → List ℕ → List ℕ
drop zero bs = bs
drop (suc n) [] = []
drop (suc n) (b ∷ bs) = drop n bs

-- the keyword arguments of `encode`
pub record Telemetry (F : Type 0) : Type 0 where
  pub node_id : ℤ
  pub sequence_id : ℤ
  pub timestamp_unix : ℤ
  pub latitude : F
  pub longitude : F
  pub altitude_m : ℤ
  pub threat_flags : ℤ
  pub risk_score : F
  pub rssi_dbm : ℤ
  pub battery_pct : ℤ

pub record MicroTelemetryPacket (F : Type 0) : Type 0 where
  pub node_id : ℤ
  pub sequence_id : ℤ
  pub timestamp_unix : ℤ
  pub latitude : F
  pub longitude : F
  pub altitude_m : ℤ
  pub threat_factor_flags : ℤ
  pub risk_score_byte : ℤ
  pub link_quality_rssi_dbm : ℤ
  pub battery_level_pct : ℤ
  pub crc_valid : Bool

-- `max(0, min(100, n))`
abbrev pub clamp_pct : ℤ → ℤ
clamp_pct n = if leb_ℤ n (pos 0) then pos 0 else if leb_ℤ (pos 100) n then pos 100 else n

module _ {F : Type 0} ⦃fl : Float F⦄ (round_int : F → Option ℤ) where
  -- the integers that `encode` packs
  unfoldable pub header_values : Telemetry F → Option (Values header_format)
  header_values t = do
    lat_scaled ← round_int (fl.mul t.latitude (fl.of_int (pos 1000000)))
    lon_scaled ← round_int (fl.mul t.longitude (fl.of_int (pos 1000000)))
    risk_byte ←
        round_int
          (fl.mul (maximum (dec 0 1) (minimum (dec 10 1) t.risk_score)) (fl.of_int (pos 255)))
    some (
      t.node_id,
      (
        t.sequence_id,
        (
          t.timestamp_unix,
          (
            lat_scaled,
            (
              lon_scaled,
              (
                t.altitude_m,
                (t.threat_flags, (risk_byte, (t.rssi_dbm, (clamp_pct t.battery_pct, tt)))),
              ),
            ),
          ),
        ),
      ),
    )

  unfoldable pub encode : Telemetry F → Option (List ℕ)
  encode t = do
    values ← header_values t
    header_bytes ← pack header_format values
    crc ← pack crc_format (pos (compute_crc16 header_bytes), tt)
    some (header_bytes ++ crc)

unfoldable pub packet :
    {F : Type 0} ⦃fl : Float F⦄ → Values pack_format → Bool → MicroTelemetryPacket F
packet ⦃fl⦄
      (
        node_id,
        (
          seq_id,
          (ts, (lat_scaled, (lon_scaled, (alt, (flags, (risk_byte, (rssi, (bat, (crc, _))))))))),
        ),
      )
      ok =
    record {
      node_id = node_id;
      sequence_id = seq_id;
      timestamp_unix = ts;
      latitude = fl.div (fl.of_int lat_scaled) (dec 10000000 1);
      longitude = fl.div (fl.of_int lon_scaled) (dec 10000000 1);
      altitude_m = alt;
      threat_factor_flags = flags;
      risk_score_byte = risk_byte;
      link_quality_rssi_dbm = rssi;
      battery_level_pct = bat;
      crc_valid = ok;
    }

-- `expected_crc == actual_crc`
abbrev pub crc_matches : ℕ → Values crc_format → Bool
crc_matches expected (pos n, _) = expected == n
crc_matches expected (negsuc n, _) = false

unfoldable pub decode : {F : Type 0} ⦃fl : Float F⦄ → List ℕ → Option (MicroTelemetryPacket F)
decode frame_bytes = if not (length frame_bytes == frame_size) then none else do
  let payload = take (length frame_bytes - 2) frame_bytes
  actual_crc ← unpack crc_format (drop (length frame_bytes - 2) frame_bytes)
  values ← unpack pack_format frame_bytes
  some (packet values (crc_matches (compute_crc16 payload) actual_crc))
