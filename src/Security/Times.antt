-- ===== src/Security/Times.antt =====
-- The recorded times of security.py: what trimming leaves of them, in whatever order they stand.
use continuityos.Prelude.{
  subst, ℕ, ◌+◌, ◌≤◌, ◌≡◌, refl, ap, String, str_eq, eq_iff, List, [], ◌∷◌, ◌++◌, true, false, some,
  length, All, arith, if◌then◌else◌, Bool-cases, inl, inr,
}
use continuityos.Float.{Float, IsOrdered, ◌<=◌}
use continuityos.Security.{events_of, set_events, drop_events, trim}

module _ {F : Type 0} ⦃fl : Float F⦄ where
  -- How many of the times lie in the window after the cutoff, wherever they stand.
  abbrev pub recent : F → List F → ℕ
  recent cutoff [] = 0
  recent cutoff (t ∷ times) =
      let rest = recent cutoff times in if t <= cutoff then rest else rest + 1

  -- Each time is at or before the later ones.
  abbrev pub Ascending : List F → Type 0
  Ascending [] = Unit
  Ascending (t ∷ times) = All (λ u. (t <= u) ≡ true) times × Ascending times

  -- The times are none, or the first of them lies after the cutoff.
  abbrev pub StartsAfter : F → List F → Type 0
  StartsAfter cutoff [] = Unit
  StartsAfter cutoff (t ∷ times) = (t <= cutoff) ≡ false

  -- Trimming drops times at the front, all at or before the cutoff, until one is after it.
  pub trim-split :
      (cutoff : F) (times : List F)
      → (dropped : List F) × (times ≡ dropped ++ trim cutoff times)
        × All (λ t. (t <= cutoff) ≡ true) dropped
        × StartsAfter cutoff (trim cutoff times)
  unfolding trim
  trim-split cutoff [] = ([], refl, tt, tt)
  trim-split cutoff (t ∷ times) = elim (Bool-cases (t <= cutoff)) [
    | inl e ↦
        let (dropped, same, old, starts) = trim-split cutoff times in
        rw e (t ∷ dropped, ap (λ x. t ∷ x) same, (e, old), starts)
    | inr e ↦ rw e ([], refl, tt, e)
  ]

  pub length-trim-le : (cutoff : F) (times : List F) → length (trim cutoff times) ≤ length times
  unfolding trim
  length-trim-le cutoff [] = omega arith
  length-trim-le cutoff (t ∷ times) = ground (arith, length-trim-le cutoff times)

  recent-le-length : (cutoff : F) (times : List F) → recent cutoff times ≤ length times
  recent-le-length cutoff [] = omega arith
  recent-le-length cutoff (t ∷ times) = ground (arith, recent-le-length cutoff times)

  -- What trimming leaves has every time of the window, and perhaps older ones behind them.
  pub recent-le-trim :
      (cutoff : F) (times : List F) → recent cutoff times ≤ length (trim cutoff times)
  unfolding trim
  recent-le-trim cutoff [] = omega arith
  recent-le-trim cutoff (t ∷ times) =
      ground (arith, recent-le-trim cutoff times, recent-le-length cutoff times)

  -- In ascending order nothing older stands behind a time of the window.
  recent-length :
      IsOrdered fl
      → (cutoff t : F) (times : List F) → (t <= cutoff) ≡ false
      → All (λ u. (t <= u) ≡ true) times
      → recent cutoff times ≡ length times
  recent-length o cutoff t [] h a = refl
  recent-length o cutoff t (u ∷ times) h a = elim (Bool-cases (u <= cutoff)) [
    | inl e ↦ absurd (cc (o.trans t u cutoff a.0 e, h))
    | inr e ↦ ground (arith, recent-length o cutoff t times h a.1)
  ]

  pub length-trim :
      IsOrdered fl
      → (cutoff : F) (times : List F) → Ascending times
      → length (trim cutoff times) ≡ recent cutoff times
  unfolding trim
  length-trim o cutoff [] a = refl
  length-trim o cutoff (t ∷ times) a = elim (Bool-cases (t <= cutoff)) [
    | inl e ↦ rw e (length-trim o cutoff times a.1)
    | inr e ↦ ground (arith, recent-length o cutoff t times e a.0)
  ]

module _ {F : Type 0} (Q : List F → Type 0) where
  pub All-set_events :
      (key : String) (times : List F) (d : List (String × List F))
      → Q times
      → All (λ e. Q e.1) d
      → All (λ e. Q e.1) (set_events key times d)
  unfolding set_events
  All-set_events key times [] q h = (q, tt)
  All-set_events key times ((k, old) ∷ d) q h = ground (arith, All-set_events key times d q h.1)

  pub All-drop_events :
      (key : String) (d : List (String × List F))
      → All (λ e. Q e.1) d
      → All (λ e. Q e.1) (drop_events key d)
  unfolding drop_events
  All-drop_events key [] h = tt
  All-drop_events key ((k, old) ∷ d) h = ground (arith, All-drop_events key d h.1)

  pub All-events_of :
      (key : String) (times : List F) (d : List (String × List F))
      → events_of key d ≡ some times
      → All (λ e. Q e.1) d
      → Q times
  unfolding events_of
  All-events_of key times [] e h = cc
  All-events_of key times ((k, old) ∷ d) e h = elim (Bool-cases (str_eq k key)) [
    | inl s ↦ subst Q (ground arith) h.0
    | inr s ↦ All-events_of key times d (rw (s, if◌then◌else◌) at e) h.1
  ]

pub events_of-set_events :
    {F : Type 0} (key : String) (times : List F) (d : List (String × List F))
    → events_of key (set_events key times d) ≡ some times
unfolding events_of set_events
events_of-set_events key times [] = ground (arith, eq_iff key key)
events_of-set_events key times ((k, old) ∷ d) = ground (arith, events_of-set_events key times d)
