-- ===== src/SnapshotCache/Newest.antt =====
-- The choice of `latest`: no match is newer.
use continuityos.Prelude.{
  String, str_lt, str_lt_trans, str_lt_irrefl, List, [], ◌∷◌, true, false, ◌≡◌, ◌⊎◌, inl, inr, refl,
  ap, sym, subst, ◌∙◌, Bool-cases, All,
}
use continuityos.SnapshotCache.{SnapshotMetadata, newest, later_of}

later_of-cases :
    (m c : SnapshotMetadata)
    → ((later_of m c ≡ c) × (str_lt m.retrieved_at c.retrieved_at ≡ true))
      ⊎ ((later_of m c ≡ m) × (str_lt m.retrieved_at c.retrieved_at ≡ false))
later_of-cases m c = elim (Bool-cases (str_lt m.retrieved_at c.retrieved_at)) [
  | inl lt ↦ inl (cc, lt)
  | inr ge ↦ inr (cc, ge)
]

-- The chosen snapshot is the first, or a later one with a greater timestamp.
newest-cases :
    (m : SnapshotMetadata) (later : List SnapshotMetadata)
    → (newest m later ≡ m) ⊎ (str_lt m.retrieved_at (newest m later).retrieved_at ≡ true)
newest-cases m [] = inl refl
newest-cases m (c ∷ later) =
    let r = newest (later_of m c) later in
    elim (later_of-cases m c) [
      | inl (k, lt) ↦ inr (elim (newest-cases (later_of m c) later) [
        | inl e ↦ ap (λ x. str_lt m.retrieved_at x.retrieved_at) (e ∙ k) ∙ lt
        | inr h ↦ str_lt_trans m.retrieved_at c.retrieved_at r.retrieved_at lt (cc (h, k))
      ])
      | inr (k, ge) ↦ elim (newest-cases (later_of m c) later) [
        | inl e ↦ inl (e ∙ k)
        | inr h ↦ inr (cc (h, k))
      ]
    ]

str_lt-false : (s t u : String) → str_lt t u ≡ true → str_lt s u ≡ false → str_lt s t ≡ false
str_lt-false s t u p q = elim (Bool-cases (str_lt s t)) [
  | inl r ↦ absurd (cc (str_lt_trans s t u r p))
  | inr r ↦ r
]

pub newest-max :
    (m : SnapshotMetadata) (later : List SnapshotMetadata)
    → All (λ c. str_lt (newest m later).retrieved_at c.retrieved_at ≡ false) (m ∷ later)
newest-max m [] = (str_lt_irrefl m.retrieved_at, tt)
newest-max m (c ∷ later) =
    let r = newest (later_of m c) later in
    let (high, rest) = newest-max (later_of m c) later in
    elim (later_of-cases m c) [
      | inl (k, lt) ↦
          let top : str_lt r.retrieved_at c.retrieved_at ≡ false = cc (high, k) in
          (str_lt-false r.retrieved_at m.retrieved_at c.retrieved_at lt top, (top, rest))
      | inr (k, ge) ↦ (
        cc (high, k),
        (
          elim (newest-cases (later_of m c) later) [
            | inl e ↦ ap (λ x. str_lt x.retrieved_at c.retrieved_at) (e ∙ k) ∙ ge
            | inr h ↦ elim (Bool-cases (str_lt r.retrieved_at c.retrieved_at)) [
              | inl s ↦
                  absurd (
                    cc
                      (str_lt_trans m.retrieved_at r.retrieved_at c.retrieved_at (cc (h, k)) s, ge))
              | inr s ↦ s
            ]
          ],
          rest,
        ),
      )
    ]

pub newest-All :
    (P : SnapshotMetadata → Type 0) (m : SnapshotMetadata) (later : List SnapshotMetadata)
    → P m
    → All P later
    → P (newest m later)
newest-All P m [] h hs = h
newest-All P m (c ∷ later) h (k, hs) =
    newest-All P (later_of m c) later
      (elim (later_of-cases m c) [
        | inl (e, lt) ↦ subst P (sym e) k
        | inr (e, ge) ↦ subst P (sym e) h
      ])
      hs
