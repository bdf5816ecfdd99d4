-- ===== src/Struct/RoundTrip.antt =====
-- What is packed comes back, byte sequences have the format's length, and packing fails exactly on
-- an integer outside its code's range.
use continuityos.Prelude.{
  ◌∙◌, subst, ℕ, zero, suc, ◌+◌, ◌-◌, ◌*◌, ◌/◌, ◌<◌, ◌≤◌, ℤ, pos, negsuc, List, [], ◌∷◌, ◌++◌, some,
  All, All-append, length, length-append, ◌≡◌, refl, ap, sym, arith, Option-cases, inl, inr,
}
use continuityos.Struct.{
  Byte, to_bytes, Code, width, to_code, from_code, Values, calcsize, pack, split, unpack,
}
use continuityos.Struct.Code.{unsigned, signed}
use Prim.Native.Nat.{◌^◌}
use mathlib.Core.List.{append_assoc}
use native.Mathlib.Nat.{pow-suc}

-- The integers that a code holds.
abbrev pub Fits : Code → ℤ → Type 0
Fits (unsigned w) (pos n) = n < 256 ^ w
Fits (unsigned w) (negsuc n) = ⊥
Fits (signed w) (pos n) = n < 256 ^ w / 2
Fits (signed w) (negsuc n) = n < 256 ^ w / 2

abbrev pub FitAll : (cs : List Code) → Values cs → Type 0
FitAll [] vs = Unit
FitAll (c ∷ cs) (v, vs) = Fits c v × FitAll cs vs

to_code-bound : (c : Code) (v : ℤ) (m : ℕ) → to_code c v ≡ some m → m < 256 ^ width c
unfolding to_code
to_code-bound (unsigned w) (pos n) m e = ground arith
to_code-bound (unsigned w) (negsuc n) m e = absurd (ground arith)
to_code-bound (signed w) (pos n) m e = ground arith
to_code-bound (signed w) (negsuc n) m e = ground arith

from_code-to_code : (c : Code) (v : ℤ) (m : ℕ) → to_code c v ≡ some m → from_code c m ≡ v
unfolding to_code from_code
from_code-to_code (unsigned w) (pos n) m e = ground arith
from_code-to_code (unsigned w) (negsuc n) m e = absurd (ground arith)
from_code-to_code (signed w) (pos n) m e = ground arith
from_code-to_code (signed w) (negsuc n) m e = ground arith

to_code-Fits : (c : Code) (v : ℤ) (m : ℕ) → to_code c v ≡ some m → Fits c v
unfolding to_code
to_code-Fits (unsigned w) (pos n) m e = ground arith
to_code-Fits (unsigned w) (negsuc n) m e = ground arith
to_code-Fits (signed w) (pos n) m e = ground arith
to_code-Fits (signed w) (negsuc n) m e = ground arith

Fits-to_code : (c : Code) (v : ℤ) → Fits c v → (m : ℕ) × (to_code c v ≡ some m)
unfolding to_code
Fits-to_code (unsigned w) (pos n) h = (n, ground arith)
Fits-to_code (unsigned w) (negsuc n) h = absurd h
Fits-to_code (signed w) (pos n) h = (n, ground arith)
Fits-to_code (signed w) (negsuc n) h = (256 ^ w - 1 - n, ground arith)

split-to_bytes :
    (w n : ℕ) (rest : List ℕ) → n < 256 ^ w → split w (to_bytes w n ++ rest) ≡ some (n, rest)
unfolding split
split-to_bytes zero n rest h = ground arith
split-to_bytes (suc w) n rest h =
    rw (split-to_bytes w (n / 256) rest (omega (arith, pow-suc 256 w)))
      (ap (λ k. some (k, rest)) (omega arith))

pack-cons :
    (c : Code) (cs : List Code) (v : ℤ) (vs : Values cs) (bs : List ℕ)
    → pack (c ∷ cs) (v, vs) ≡ some bs
    → (m : ℕ) × (ds : List ℕ) × (to_code c v ≡ some m)
      × (pack cs vs ≡ some ds)
      × (bs ≡ to_bytes (width c) m ++ ds)
unfolding pack
pack-cons c cs v vs bs e = elim (Option-cases (to_code c v)) [
  | inl p ↦ absurd (cc)
  | inr (m, p) ↦ elim (Option-cases (pack cs vs)) [
    | inl q ↦ absurd (cc)
    | inr (ds, q) ↦ (m, ds, p, q, cc)
  ]
]

pub unpack-pack :
    (cs : List Code) (vs : Values cs) (bs : List ℕ) → pack cs vs ≡ some bs → unpack cs bs ≡ some vs
unfolding pack unpack
unpack-pack [] _ [] e = refl
unpack-pack [] _ (b ∷ bs) e = absurd (cc)
unpack-pack (c ∷ cs) (v, vs) bs e =
    let (m, ds, code, packed, eq) = pack-cons c cs v vs bs e in
    ap (unpack (c ∷ cs)) eq
    ∙ simp
        (
          split-to_bytes (width c) m ds (to_code-bound c v m code),
          unpack-pack cs vs ds packed,
          from_code-to_code c v m code,
        )
        refl

-- Packing to the end of a longer format.
abbrev pub join : (cs ds : List Code) → Values cs → Values ds → Values (cs ++ ds)
join [] ds vs ws = ws
join (c ∷ cs) ds (v, vs) ws = (v, join cs ds vs ws)

pub pack-join :
    (cs ds : List Code) (vs : Values cs) (ws : Values ds) (xs ys : List ℕ)
    → pack cs vs ≡ some xs
    → pack ds ws ≡ some ys
    → pack (cs ++ ds) (join cs ds vs ws) ≡ some (xs ++ ys)
unfolding pack
pack-join [] ds vs ws xs ys p q = cc
pack-join (c ∷ cs) ds (v, vs) ws xs ys p q =
    let (m, es, code, packed, eq) = pack-cons c cs v vs xs p in
    simp (code, pack-join cs ds vs ws es ys packed q)
      (ap some (sym (append_assoc _ es ys) ∙ ap (λ zs. zs ++ ys) (sym eq)))

length-to_bytes : (w n : ℕ) → length (to_bytes w n) ≡ w
length-to_bytes zero n = refl
length-to_bytes (suc w) n = ap suc (length-to_bytes w (n / 256))

to_bytes-Byte : (w n : ℕ) → All Byte (to_bytes w n)
to_bytes-Byte zero n = tt
to_bytes-Byte (suc w) n = (omega arith, to_bytes-Byte w (n / 256))

pub pack-bytes :
    (cs : List Code) (vs : Values cs) (bs : List ℕ)
    → pack cs vs ≡ some bs
    → (length bs ≡ calcsize cs) × All Byte bs
unfolding pack
pack-bytes [] vs [] e = (refl, tt)
pack-bytes [] vs (b ∷ bs) e = absurd (cc)
pack-bytes (c ∷ cs) (v, vs) bs e =
    let (m, ds, code, packed, eq) = pack-cons c cs v vs bs e in
    let front = to_bytes (width c) m in
    let (l, bytes) = pack-bytes cs vs ds packed in
    subst (λ xs. (length xs ≡ width c + calcsize cs) × All Byte xs) (sym eq)
      (
        length-append front ds ∙ omega (arith, length-to_bytes (width c) m),
        (All-append Byte front ds).1 (to_bytes-Byte (width c) m, bytes),
      )

pub FitAll-pack :
    (cs : List Code) (vs : Values cs) → FitAll cs vs → (bs : List ℕ) × (pack cs vs ≡ some bs)
unfolding pack
FitAll-pack [] vs h = ([], refl)
FitAll-pack (c ∷ cs) (v, vs) (h, hs) =
    let (m, code) = Fits-to_code c v h in
    let (bs, packed) = FitAll-pack cs vs hs in
    (to_bytes (width c) m ++ bs, simp (code, packed) refl)

pub pack-FitAll :
    (cs : List Code) (vs : Values cs) (bs : List ℕ) → pack cs vs ≡ some bs → FitAll cs vs
pack-FitAll [] vs bs e = tt
pack-FitAll (c ∷ cs) (v, vs) bs e =
    let (m, ds, code, packed, eq) = pack-cons c cs v vs bs e in
    (to_code-Fits c v m code, pack-FitAll cs vs ds packed)

split-some :
    (w : ℕ) (bs : List ℕ)
    → w ≤ length bs
    → (n : ℕ) × (more : List ℕ) × (split w bs ≡ some (n, more)) × (length bs ≡ w + length more)
unfolding split
split-some zero bs h = (0, bs, refl, omega arith)
split-some (suc w) [] h = absurd (omega arith)
split-some (suc w) (b ∷ bs) h =
    let (n, more, e, l) = split-some w bs (omega arith) in
    (b + 256 * n, more, rw e refl, omega arith)

pub unpack-some :
    (cs : List Code) (bs : List ℕ)
    → length bs ≡ calcsize cs
    → (vs : Values cs) × (unpack cs bs ≡ some vs)
unfolding unpack
unpack-some [] [] h = (tt, refl)
unpack-some [] (b ∷ bs) h = absurd (omega arith)
unpack-some (c ∷ cs) bs h =
    let (m, more, e, l) = split-some (width c) bs (omega arith) in
    let (vs, r) = unpack-some cs more (omega arith) in ((from_code c m, vs), simp (e, r) refl)
