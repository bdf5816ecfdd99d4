-- ===== src/MicroProto/Frames.antt =====
-- `encode` and `decode` as one: which arguments have a frame, which byte sequences are read, and what
-- comes back.
use continuityos.Prelude.{
  All-append, ℕ, zero, suc, ◌-◌, ◌==◌, ℤ, pos, List, [], ◌∷◌, ◌++◌, Bool, true, false, Option, none,
  some, length, length-append, All, ◌≡◌, ◌≢◌, ◌↔◌, refl, ap, sym, subst, ◌∙◌, arith, inl, inr,
  Option-cases,
}
use continuityos.Float.{Float, dec, minimum, maximum}
use continuityos.Struct.{Byte, Values, pack, unpack, ◌>>=◌}
use continuityos.Struct.RoundTrip.{
  FitAll, FitAll-pack, pack-FitAll, pack-bytes, pack-join, unpack-pack, unpack-some, join,
}
use continuityos.MicroProto.{
  header_format, crc_format, pack_format, compute_crc16, take, drop, Telemetry,
  MicroTelemetryPacket, clamp_pct, header_values, encode, packet, crc_matches, decode,
}
use continuityos.MicroProto.Crc.{compute_crc16-Word}

take-append : (xs ys : List ℕ) → take (length xs) (xs ++ ys) ≡ xs
take-append [] ys = refl
take-append (x ∷ xs) ys = ap (λ zs. x ∷ zs) (take-append xs ys)

drop-append : (xs ys : List ℕ) → drop (length xs) (xs ++ ys) ≡ ys
drop-append [] ys = refl
drop-append (x ∷ xs) ys = drop-append xs ys

length-drop : (n : ℕ) (xs : List ℕ) → length (drop n xs) ≡ length xs - n
length-drop zero xs = omega arith
length-drop (suc n) [] = omega arith
length-drop (suc n) (x ∷ xs) = omega (arith, length-drop n xs)

==_refl : (n : ℕ) → (n == n) ≡ true
==_refl n = ground arith

pub ==_false : (n m : ℕ) → n ≢ m → (n == m) ≡ false
==_false n m ne = ground arith

module _ {F : Type 0} ⦃fl : Float F⦄ where
  -- past the test of the length
  decode-fields :
      (bs : List ℕ)
      → length bs ≡ 26
      → decode {F = F} bs ≡ (
          unpack crc_format (drop 24 bs) >>= λ actual_crc. unpack pack_format bs >>= λ values.
          some (packet values (crc_matches (compute_crc16 (take 24 bs)) actual_crc)))
  unfolding decode
  decode-fields bs l = rw l refl

  -- What `decode` reads from a header of 24 bytes and a checksum of two.
  pub decode-append :
      (hs cs : List ℕ) (values : Values pack_format) (crc : Values crc_format)
      → length hs ≡ 24
      → length cs ≡ 2
      → unpack pack_format (hs ++ cs) ≡ some values
      → unpack crc_format cs ≡ some crc
      → decode {F = F} (hs ++ cs) ≡ some (packet values (crc_matches (compute_crc16 hs) crc))
  decode-append hs cs values crc l m p q =
      let front = ap (λ n. take n (hs ++ cs)) (sym l) ∙ take-append hs cs in
      let back = ap (λ n. drop n (hs ++ cs)) (sym l) ∙ drop-append hs cs in
      decode-fields (hs ++ cs) (omega (arith, length-append hs cs)) ∙ simp (front, back, p, q) refl

  module _ (round_int : F → Option ℤ) where
    pub encode-parts :
        (t : Telemetry F) (frame : List ℕ)
        → encode round_int t ≡ some frame
        → (vs : Values header_format) × (hs : List ℕ) × (cs : List ℕ) × (header_values round_int t
            ≡ some vs)
          × (pack header_format vs ≡ some hs)
          × (pack crc_format (pos (compute_crc16 hs), tt) ≡ some cs)
          × (frame ≡ hs ++ cs)
    unfolding encode
    encode-parts t frame e = elim (Option-cases (header_values round_int t)) [
      | inl p ↦ absurd (cc)
      | inr (vs, p) ↦ elim (Option-cases (pack header_format vs)) [
        | inl q ↦ absurd (cc)
        | inr (hs, q) ↦ elim (Option-cases (pack crc_format (pos (compute_crc16 hs), tt))) [
          | inl r ↦ absurd (cc)
          | inr (cs, r) ↦ (vs, hs, cs, p, q, r, cc)
        ]
      ]
    ]

    -- `p` holds what a receiver is to learn of `t`.
    pub record Carries (t : Telemetry F) (p : MicroTelemetryPacket F) : Type 0 where
      pub node_id : p.node_id ≡ t.node_id
      pub sequence_id : p.sequence_id ≡ t.sequence_id
      pub timestamp_unix : p.timestamp_unix ≡ t.timestamp_unix
      pub latitude :
          (n : ℤ) × (round_int (fl.mul t.latitude (fl.of_int (pos 1000000))) ≡ some n)
          × (p.latitude ≡ fl.div (fl.of_int n) (dec 10000000 1))
      pub longitude :
          (n : ℤ) × (round_int (fl.mul t.longitude (fl.of_int (pos 1000000))) ≡ some n)
          × (p.longitude ≡ fl.div (fl.of_int n) (dec 10000000 1))
      pub altitude_m : p.altitude_m ≡ t.altitude_m
      pub threat_flags : p.threat_factor_flags ≡ t.threat_flags
      pub risk_score :
          round_int
            (fl.mul (maximum (dec 0 1) (minimum (dec 10 1) t.risk_score)) (fl.of_int (pos 255)))
          ≡ some p.risk_score_byte
      pub rssi_dbm : p.link_quality_rssi_dbm ≡ t.rssi_dbm
      pub battery_pct : p.battery_level_pct ≡ clamp_pct t.battery_pct

    header_values-parts :
        (t : Telemetry F) (vs : Values header_format)
        → header_values round_int t ≡ some vs
        → (lat : ℤ) × (lon : ℤ) × (risk : ℤ) × (round_int
              (fl.mul t.latitude (fl.of_int (pos 1000000)))
            ≡ some lat)
          × (round_int (fl.mul t.longitude (fl.of_int (pos 1000000))) ≡ some lon)
          × (round_int
                (fl.mul (maximum (dec 0 1) (minimum (dec 10 1) t.risk_score)) (fl.of_int (pos 255)))
              ≡ some risk)
          × (vs ≡ (
            t.node_id,
            (
              t.sequence_id,
              (
                t.timestamp_unix,
                (
                  lat,
                  (
                    lon,
                    (
                      t.altitude_m,
                      (t.threat_flags, (risk, (t.rssi_dbm, (clamp_pct t.battery_pct, tt)))),
                    ),
                  ),
                ),
              ),
            ),
          ))
    unfolding header_values
    header_values-parts t vs e =
        elim (Option-cases (round_int (fl.mul t.latitude (fl.of_int (pos 1000000))))) [
          | inl p ↦ absurd (cc)
          | inr (lat, p) ↦
              elim (Option-cases (round_int (fl.mul t.longitude (fl.of_int (pos 1000000))))) [
                | inl q ↦ absurd (cc)
                | inr (lon, q) ↦
                    elim (Option-cases (
                      round_int (
                        fl.mul (maximum (dec 0 1) (minimum (dec 10 1) t.risk_score))
                          (fl.of_int (pos 255))))) [
                            | inl r ↦ absurd (cc)
                            | inr (risk, r) ↦ (lat, lon, risk, p, q, r, cc)
                          ]
              ]
        ]

    header_values-Carries :
        (t : Telemetry F) (vs : Values header_format) (ws : Values crc_format) (ok : Bool)
        → header_values round_int t ≡ some vs
        → Carries t (packet (join header_format crc_format vs ws) ok)
    unfolding packet
    header_values-Carries t vs ws ok e =
        let (lat, lon, risk, p, q, r, eq) = header_values-parts t vs e in
        subst (λ us. Carries t (packet (join header_format crc_format us ws) ok)) (sym eq)
          (record {
            node_id = refl;
            sequence_id = refl;
            timestamp_unix = refl;
            latitude = (lat, p, refl);
            longitude = (lon, q, refl);
            altitude_m = refl;
            threat_flags = refl;
            risk_score = r;
            rssi_dbm = refl;
            battery_pct = refl;
          })

    -- A frame that `encode` made is decoded, with a valid checksum, to a packet that holds what was sent.
    pub decode-encode :
        (t : Telemetry F) (frame : List ℕ)
        → encode round_int t ≡ some frame
        → (p : MicroTelemetryPacket F) × (decode frame ≡ some p)
          × (p.crc_valid ≡ true)
          × Carries t p
    unfolding packet
    decode-encode t frame e =
        let (vs, hs, cs, values, header, crc, eq) = encode-parts t frame e in
        let ws : Values crc_format = (pos (compute_crc16 hs), tt) in
        (
          packet (join header_format crc_format vs ws) true,
          ap (decode {F = F}) eq
              ∙ decode-append hs cs (join header_format crc_format vs ws) ws
                  (pack-bytes header_format vs hs header).0 (pack-bytes crc_format ws cs crc).0
                  (unpack-pack pack_format (join header_format crc_format vs ws) (hs ++ cs)
                    (pack-join header_format crc_format vs ws hs cs header crc))
                  (unpack-pack crc_format ws cs crc)
              ∙ ap (λ ok. some (packet (join header_format crc_format vs ws) ok))
                  (==_refl (compute_crc16 hs)),
          refl,
          header_values-Carries t vs ws true values,
        )

    -- There is a frame exactly when the three roundings have a value and each integer fits its code,
    -- and it has 26 bytes.
    pub encode_iff :
        (t : Telemetry F)
        → ((vs : Values header_format) × (header_values round_int t ≡ some vs)
            × FitAll header_format vs)
          ↔ ((frame : List ℕ) × (encode round_int t ≡ some frame)
              × (length frame ≡ 26)
              × All Byte frame)
    unfolding encode
    encode_iff t = (
      λ (vs, p, fits).
          let (hs, header) = FitAll-pack header_format vs fits in
          let (l, bytes) = pack-bytes header_format vs hs header in
          let ws : Values crc_format = (pos (compute_crc16 hs), tt) in
          let (cs, crc) = FitAll-pack crc_format ws (compute_crc16-Word hs bytes, tt) in
          let (k, bytes') = pack-bytes crc_format ws cs crc in
          (
            hs ++ cs,
            simp (p, header, crc) refl,
            omega (arith, length-append hs cs),
            (All-append Byte hs cs).1 (bytes, bytes'),
          ),
      λ (frame, e, l, bytes).
          let (vs, hs, cs, values, header, crc, eq) = encode-parts t frame e in
          (vs, values, pack-FitAll header_format vs hs header),
    )

  pub decode-some :
      (bs : List ℕ) → length bs ≡ 26 → (p : MicroTelemetryPacket F) × (decode {F = F} bs ≡ some p)
  decode-some bs l =
      let (crc, q) = unpack-some crc_format (drop 24 bs) (omega (arith, length-drop 24 bs)) in
      let (values, p) = unpack-some pack_format bs l in
      (
        packet values (crc_matches (compute_crc16 (take 24 bs)) crc),
        decode-fields bs l ∙ simp (q, p) refl,
      )

  -- A byte sequence is refused exactly when it does not have 26 bytes.
  pub decode_iff : (bs : List ℕ) → (decode {F = F} bs ≡ none) ↔ (length bs ≢ 26)
  unfolding decode
  decode_iff bs = (
    λ e l. let (p, r) = decode-some bs l in absurd (cc),
    λ ne. simp (==_false (length bs) 26 ne) refl,
  )
