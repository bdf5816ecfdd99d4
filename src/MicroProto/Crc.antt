-- ===== src/MicroProto/Crc.antt =====
-- The checksum as a function of its register: each round keeps 16 bits and loses nothing, so two
-- inputs that differ in one byte have different checksums.
use continuityos.Prelude.{sym, ◌∙◌, ℕ, zero, suc, ◌/◌, ◌<◌, List, [], ◌∷◌, All, ◌≡◌, ◌≢◌, arith}
use Prim.Native.Nat.{bit_xor}
use continuityos.Struct.{Byte}
use continuityos.MicroProto.{crc_byte, crc_bit, crc_bits, crc_bytes, compute_crc16}
use continuityos.MicroProto.Bits.{xor_cancel, xor_comm, xor_bound, xor_top, and_one, and_0xFFFF}

-- The same bytes but for one, which is another byte.
pub data Garbled : List ℕ → List ℕ → Type 0 where
  here : {b c : ℕ} {bs : List ℕ} → Byte c → b ≢ c → Garbled (b ∷ bs) (c ∷ bs)
  there : {b : ℕ} {bs cs : List ℕ} → Garbled bs cs → Garbled (b ∷ bs) (b ∷ cs)

abbrev Word : ℕ → Type 0
Word n = n < 65536

crc_bit-Word : (c : ℕ) → Word c → Word (crc_bit c)
unfolding crc_bit
crc_bit-Word c h =
    ground (arith, and_one c, xor_bound 16 (c / 2) 0xA001 (omega arith) (omega arith))

crc_bit-injective : (c d : ℕ) → Word c → Word d → crc_bit c ≡ crc_bit d → c ≡ d
unfolding crc_bit
crc_bit-injective c d h k e = ground (
  arith,
  and_one c,
  and_one d,
  xor_top 15 (c / 2) 0xA001 (omega arith) (omega arith),
  xor_top 15 (d / 2) 0xA001 (omega arith) (omega arith),
  xor_comm (c / 2) 0xA001,
  xor_comm (d / 2) 0xA001,
  xor_cancel 0xA001 (c / 2) (d / 2),
)

crc_bits-Word : (k c : ℕ) → Word c → Word (crc_bits k c)
unfolding crc_bits
crc_bits-Word zero c h = h
crc_bits-Word (suc k) c h = crc_bits-Word k (crc_bit c) (crc_bit-Word c h)

crc_bits-injective : (k c d : ℕ) → Word c → Word d → crc_bits k c ≡ crc_bits k d → c ≡ d
unfolding crc_bits
crc_bits-injective zero c d h k e = e
crc_bits-injective (suc k) c d h i e =
    crc_bit-injective c d h i
      (crc_bits-injective k (crc_bit c) (crc_bit d) (crc_bit-Word c h) (crc_bit-Word d i) e)

xor-Word : (c b : ℕ) → Word c → Byte b → Word (bit_xor c b)
xor-Word c b h k = xor_bound 16 c b h (omega arith)

crc_byte-Word : (c b : ℕ) → Word c → Byte b → Word (crc_byte c b)
unfolding crc_byte
crc_byte-Word c b h k = crc_bits-Word 8 _ (xor-Word c b h k)

-- injective in the register and in the byte
crc_byte-bit_xor :
    (c d a b : ℕ)
    → Word c
    → Word d
    → Byte a
    → Byte b
    → crc_byte c a ≡ crc_byte d b
    → bit_xor c a ≡ bit_xor d b
unfolding crc_byte
crc_byte-bit_xor c d a b h k p q e =
    crc_bits-injective 8 _ _ (xor-Word c a h p) (xor-Word d b k q) e

crc_bytes-Word : (bs : List ℕ) (c : ℕ) → Word c → All Byte bs → Word (crc_bytes c bs)
unfolding crc_bytes
crc_bytes-Word [] c h bytes = h
crc_bytes-Word (b ∷ bs) c h (byte, bytes) =
    crc_bytes-Word bs (crc_byte c b) (crc_byte-Word c b h byte) bytes

crc_bytes-injective :
    (bs : List ℕ) (c d : ℕ)
    → Word c
    → Word d
    → All Byte bs
    → crc_bytes c bs ≡ crc_bytes d bs
    → c ≡ d
unfolding crc_bytes
crc_bytes-injective [] c d h k bytes e = e
crc_bytes-injective (b ∷ bs) c d h k (byte, bytes) e =
    let x = crc_byte-Word c b h byte in
    let y = crc_byte-Word d b k byte in
    let r = crc_bytes-injective bs (crc_byte c b) (crc_byte d b) x y bytes e in
    xor_cancel b c d (xor_comm b c ∙ crc_byte-bit_xor c d b b h k byte byte r ∙ xor_comm d b)

crc_bytes-Garbled :
    (bs cs : List ℕ)
    → Garbled bs cs
    → (r : ℕ) → Word r
    → All Byte bs
    → crc_bytes r bs ≢ crc_bytes r cs
unfolding crc_bytes
crc_bytes-Garbled [] cs g r h bytes e = elim g [ ]
crc_bytes-Garbled (b ∷ bs) [] g r h bytes e = elim g [ ]
crc_bytes-Garbled (b ∷ bs) (c ∷ _) (here small ne) r h (byte, bytes) e =
    let x = crc_byte-Word r b h byte in
    let y = crc_byte-Word r c h small in
    let same = crc_bytes-injective bs (crc_byte r b) (crc_byte r c) x y bytes e in
    ne (xor_cancel r b c (crc_byte-bit_xor r r b c h h byte small same))
crc_bytes-Garbled (b ∷ bs) (_ ∷ cs) (there g) r h (byte, bytes) e =
    crc_bytes-Garbled bs cs g (crc_byte r b) (crc_byte-Word r b h byte) bytes e

pub Garbled-Byte : (bs cs : List ℕ) → Garbled bs cs → All Byte bs → All Byte cs
Garbled-Byte [] cs g bytes = elim g [ ]
Garbled-Byte (b ∷ bs) [] g bytes = elim g [ ]
Garbled-Byte (b ∷ bs) (c ∷ _) (here small ne) (byte, bytes) = (small, bytes)
Garbled-Byte (b ∷ bs) (_ ∷ cs) (there g) (byte, bytes) = (byte, Garbled-Byte bs cs g bytes)

compute_crc16-crc_bytes : (bs : List ℕ) → All Byte bs → compute_crc16 bs ≡ crc_bytes 0xFFFF bs
unfolding compute_crc16
compute_crc16-crc_bytes bs bytes = and_0xFFFF _ (crc_bytes-Word bs 0xFFFF (omega arith) bytes)

pub compute_crc16-Word : (bs : List ℕ) → All Byte bs → compute_crc16 bs < 65536
compute_crc16-Word bs bytes =
    omega (arith, compute_crc16-crc_bytes bs bytes, crc_bytes-Word bs 0xFFFF (omega arith) bytes)

pub compute_crc16-Garbled :
    (bs cs : List ℕ) → All Byte bs → Garbled bs cs → compute_crc16 bs ≢ compute_crc16 cs
compute_crc16-Garbled bs cs bytes g e = crc_bytes-Garbled bs cs g 0xFFFF (omega arith) bytes (
    sym (compute_crc16-crc_bytes bs bytes)
    ∙ e
    ∙ compute_crc16-crc_bytes cs (Garbled-Byte bs cs g bytes))
