-- ===== src/MicroProto/Detection.antt =====
-- A frame in which one byte has become another: the receiver sees it in `crc_valid`.
use continuityos.Prelude.{
  some_injective, pos_part, ℕ, ◌+◌, ◌*◌, ℤ, pos, List, [], ◌∷◌, ◌++◌, false, Option, some, length,
  length-append, ◌≡◌, ◌≢◌, ◌⊎◌, inl, inr, refl, ap, sym, subst, ◌∙◌, arith,
}
use continuityos.Float.{Float}
use continuityos.Struct.{from_code, split, Values, unpack}
use continuityos.Struct.RoundTrip.{pack-bytes, unpack-pack, unpack-some}
use continuityos.MicroProto.{
  crc_format, header_format, pack_format, compute_crc16, Telemetry, MicroTelemetryPacket, encode,
  decode, crc_matches, packet,
}
use continuityos.MicroProto.Crc.{Garbled, compute_crc16-Garbled}
use continuityos.MicroProto.Crc.Garbled.{here, there}
use continuityos.MicroProto.Frames.{encode-parts, decode-append, ==_false}

-- Either part of a sequence may hold the changed byte.
Garbled-append :
    (xs ys zs : List ℕ)
    → Garbled (xs ++ ys) zs
    → ((ws : List ℕ) × Garbled xs ws × (zs ≡ ws ++ ys))
      ⊎ ((ws : List ℕ) × Garbled ys ws × (zs ≡ xs ++ ws))
Garbled-append [] ys zs g = inr (zs, g, refl)
Garbled-append (x ∷ xs) ys [] g = elim g [ ]
Garbled-append (x ∷ xs) ys (z ∷ _) (here small ne) = inl (z ∷ xs, here small ne, refl)
Garbled-append (x ∷ xs) ys (_ ∷ zs) (there g) = elim (Garbled-append xs ys zs g) [
  | inl (ws, h, e) ↦ inl (x ∷ ws, there h, ap (λ l. x ∷ l) e)
  | inr (ws, h, e) ↦ inr (ws, h, ap (λ l. x ∷ l) e)
]

Garbled-length : (xs ys : List ℕ) → Garbled xs ys → length ys ≡ length xs
Garbled-length [] ys g = elim g [ ]
Garbled-length (x ∷ xs) [] g = elim g [ ]
Garbled-length (x ∷ xs) (y ∷ _) (here small ne) = refl
Garbled-length (x ∷ xs) (_ ∷ ys) (there g) = omega (arith, Garbled-length xs ys g)

-- Two bytes as the checksum that they hold.
unpack-crc : (a b : ℕ) → unpack crc_format (a ∷ b ∷ []) ≡ some (pos (a + 256 * (b + 256 * 0)), tt)
unfolding unpack split from_code
unpack-crc a b = refl

Garbled-code :
    (a b c d : ℕ)
    → Garbled (a ∷ b ∷ []) (c ∷ d ∷ [])
    → a + 256 * (b + 256 * 0) ≢ c + 256 * (d + 256 * 0)
Garbled-code a b c _ (here small ne) e = ne (omega arith)
Garbled-code a b _ d (there (here small ne)) e = ne (omega arith)
Garbled-code a b _ d (there (there g)) e = elim g [ ]

crc_matches-Garbled :
    (cs ds : List ℕ) (n : ℕ) (crc : Values crc_format)
    → Garbled cs ds
    → length cs ≡ 2
    → length ds ≡ 2
    → unpack crc_format cs ≡ some (pos n, tt)
    → unpack crc_format ds ≡ some crc
    → crc_matches n crc ≡ false
crc_matches-Garbled (a ∷ b ∷ []) (c ∷ d ∷ []) n crc g l k p q =
    let sent = ap (λ v. pos_part v.0) (some_injective (sym p ∙ unpack-crc a b)) in
    let got = some_injective (sym q ∙ unpack-crc c d) in
    ap (crc_matches n) got ∙ ==_false n _ (λ e. Garbled-code a b c d g (sym sent ∙ e))
crc_matches-Garbled [] ds n crc g l k p q = absurd (omega arith)
crc_matches-Garbled (a ∷ []) ds n crc g l k p q = absurd (omega arith)
crc_matches-Garbled (a ∷ b ∷ x ∷ cs) ds n crc g l k p q = absurd (omega arith)
crc_matches-Garbled (a ∷ b ∷ []) [] n crc g l k p q = absurd (omega arith)
crc_matches-Garbled (a ∷ b ∷ []) (c ∷ []) n crc g l k p q = absurd (omega arith)
crc_matches-Garbled (a ∷ b ∷ []) (c ∷ d ∷ x ∷ ds) n crc g l k p q = absurd (omega arith)

-- What is read when the two parts do not match.
decode-mismatch :
    {F : Type 0} ⦃fl : Float F⦄ (hs cs : List ℕ) (crc : Values crc_format)
    → length hs ≡ 24
    → length cs ≡ 2
    → unpack crc_format cs ≡ some crc
    → crc_matches (compute_crc16 hs) crc ≡ false
    → (p : MicroTelemetryPacket F) × (decode (hs ++ cs) ≡ some p) × (p.crc_valid ≡ false)
unfolding packet
decode-mismatch {F} hs cs crc l k q bad =
    let (values, p) = unpack-some pack_format (hs ++ cs) (omega (arith, length-append hs cs)) in
    (
      packet values (crc_matches (compute_crc16 hs) crc),
      decode-append {F = F} hs cs values crc l k p q,
      bad,
    )

module _ {F : Type 0} ⦃fl : Float F⦄ (round_int : F → Option ℤ) where
  -- When one byte of a frame that `encode` made has become another byte, `decode` still returns a
  -- packet, and the packet says that its checksum is not valid.
  pub decode-Garbled :
      (t : Telemetry F) (frame received : List ℕ)
      → encode round_int t ≡ some frame
      → Garbled frame received
      → (p : MicroTelemetryPacket F) × (decode received ≡ some p) × (p.crc_valid ≡ false)
  decode-Garbled t frame received e g =
      let (vs, hs, cs, values, header, crc, eq) = encode-parts round_int t frame e in
      let ws : Values crc_format = (pos (compute_crc16 hs), tt) in
      let (l, bytes) = pack-bytes header_format vs hs header in
      let (k, _) = pack-bytes crc_format ws cs crc in
      let sent = unpack-pack crc_format ws cs crc in
      elim (Garbled-append hs cs received (subst (λ f. Garbled f received) eq g)) [
        | inl (hs', h, r) ↦
            subst (λ f. (p : MicroTelemetryPacket F) × (decode f ≡ some p) × (p.crc_valid ≡ false))
              (sym r)
              (decode-mismatch hs' cs ws (omega (arith, Garbled-length hs hs' h)) k sent
                (==_false _ _ (λ same. compute_crc16-Garbled hs hs' bytes h (sym same))))
        | inr (cs', h, r) ↦
            let two : length cs' ≡ 2 = omega (arith, Garbled-length cs cs' h) in
            let (crc', got) = unpack-some crc_format cs' two in
            subst (λ f. (p : MicroTelemetryPacket F) × (decode f ≡ some p) × (p.crc_valid ≡ false))
              (sym r)
              (decode-mismatch hs cs' crc' l two got
                (crc_matches-Garbled cs cs' _ crc' h k two sent got))
      ]
