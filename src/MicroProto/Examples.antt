-- ===== src/MicroProto/Examples.antt =====
-- Frames for readings over millionths, and a frame on which a bit has flipped.
use continuityos.Prelude.{
  All, false, length, true, ℕ, ℤ, pos, negsuc, List, [], ◌∷◌, Option, none, some, ◌≡◌, refl, arith,
  ◌/◌,
}
use continuityos.Float.Micro.{micro}
use continuityos.Struct.{pack, to_code, Byte}
use continuityos.Struct.RoundTrip.{FitAll}
use continuityos.MicroProto.Frames.{decode-encode, encode_iff, decode_iff, Carries}
use continuityos.MicroProto.Detection.{decode-Garbled}
use continuityos.MicroProto.Crc.{Garbled}
use continuityos.MicroProto.Crc.Garbled.{here, there}
use continuityos.MicroProto.{
  header_format, Values, header_values, compute_crc16, crc_bytes, crc_byte, crc_bits, crc_bit, pack,
  header_values, Telemetry, MicroTelemetryPacket, encode, decode,
}

-- `round` of a number of millionths
abbrev nearest : ℕ → Option ℤ
nearest n = some (pos (n / 1000000))

abbrev reading : Telemetry ℕ
reading = record {
  node_id = pos 1042;
  sequence_id = pos 8891;
  timestamp_unix = pos 1700000000;
  latitude = 45421500;
  longitude = 75697200;
  altitude_m = negsuc 11;
  threat_flags = pos 3;
  risk_score = 800000;
  rssi_dbm = negsuc 71;
  battery_pct = pos 140;
}

abbrev frame : List ℕ
frame =
    18 ∷ 4 ∷ 187 ∷ 34 ∷ 0 ∷ 0 ∷ 0 ∷ 241 ∷ 83 ∷ 101 ∷ 188 ∷ 19 ∷ 181 ∷ 2 ∷ 48 ∷ 12 ∷ 131 ∷ 4 ∷ 244
    ∷ 255 ∷ 3 ∷ 204 ∷ 184 ∷ 100 ∷ 156 ∷ 237 ∷ []

frame_test : encode nearest reading ≡ some frame
unfolding encode header_values pack to_code compute_crc16 crc_bytes crc_byte crc_bits crc_bit
frame_test = refl

decode-encode_example :
    (p : MicroTelemetryPacket ℕ) × (decode frame ≡ some p)
    × (p.crc_valid ≡ true)
    × Carries nearest reading p
decode-encode_example = decode-encode nearest reading frame frame_test

-- a node identifier above two bytes has no frame
abbrev unknown_node : Telemetry ℕ
unknown_node = record reading { node_id = pos 65536 }

unknown_node_test : encode nearest unknown_node ≡ none
unfolding encode header_values pack to_code
unknown_node_test = refl

-- the altitude's low byte with its lowest bit changed
abbrev flipped : List ℕ
flipped =
    18 ∷ 4 ∷ 187 ∷ 34 ∷ 0 ∷ 0 ∷ 0 ∷ 241 ∷ 83 ∷ 101 ∷ 188 ∷ 19 ∷ 181 ∷ 2 ∷ 48 ∷ 12 ∷ 131 ∷ 4 ∷ 245
    ∷ 255 ∷ 3 ∷ 204 ∷ 184 ∷ 100 ∷ 156 ∷ 237 ∷ []

frame-flipped : Garbled frame flipped
frame-flipped = there (
    there (
      there (
        there (
          there (
            there (
              there (
                there (
                  there (
                    there (
                      there (
                        there (
                          there (
                            there (
                              there (
                                there (
                                  there (
                                    there (
                                      here (omega arith)
                                        (λ e. absurd (omega arith))))))))))))))))))))

decode-Garbled_example :
    (p : MicroTelemetryPacket ℕ) × (decode flipped ≡ some p) × (p.crc_valid ≡ false)
decode-Garbled_example = decode-Garbled nearest reading frame flipped frame_test frame-flipped

abbrev header : Values header_format
header = (
  pos 1042,
  (
    pos 8891,
    (
      pos 1700000000,
      (pos 45421500, (pos 75697200, (negsuc 11, (pos 3, (pos 204, (negsuc 71, (pos 100, tt))))))),
    ),
  ),
)

header_test : header_values nearest reading ≡ some header
unfolding header_values
header_test = refl

header-FitAll : FitAll header_format header
header-FitAll = (
  omega arith,
  (
    omega arith,
    (
      omega arith,
      (
        omega arith,
        (
          omega arith,
          (omega arith, (omega arith, (omega arith, (omega arith, (omega arith, tt))))),
        ),
      ),
    ),
  ),
)

encode_iff_example :
    (frame : List ℕ) × (encode nearest reading ≡ some frame) × (length frame ≡ 26) × All Byte frame
encode_iff_example = (encode_iff nearest reading).0 (header, header_test, header-FitAll)

decode_iff_example : decode {F = ℕ} [] ≡ none
decode_iff_example = (decode_iff []).1 (λ e. absurd (omega arith))
