-- ===== src/Readiness/Rating.antt =====
-- readiness.py: how the rating follows the continuity and the reserve.
use continuityos.Prelude.{ℕ, ◌≤◌, String, Bool, true, ◌||◌, Option, ◌≡◌, arith, if◌then◌else◌}
use continuityos.Float.{Float, IsOrdered, ◌<=◌, ◌<<◌}
use continuityos.Domain.{CorridorState}
use continuityos.Reconcile.{ReconciliationResult}
use continuityos.Readiness.{
  CLevelRating, c1_fully_mission_capable, c2_substantially_capable, c3_marginally_capable,
  c4_not_mission_capable, c5_regeneration_underway, corridor_score, is_failing, rate,
  evaluate_readiness,
}

-- The number in a rating's name: the lower, the better.
abbrev pub rating_number : CLevelRating → ℕ
rating_number c1_fully_mission_capable = 1
rating_number c2_substantially_capable = 2
rating_number c3_marginally_capable = 3
rating_number c4_not_mission_capable = 4
rating_number c5_regeneration_underway = 5

chosen : Bool → Bool → Bool → CLevelRating
chosen x y z =
    if x
    then c4_not_mission_capable
    else if y
    then c3_marginally_capable
    else if z
    then c2_substantially_capable
    else c1_fully_mission_capable

chosen_mono :
    (x y z x' y' z' : Bool)
    → (x' ≡ true → x ≡ true)
    → (y' ≡ true → y ≡ true)
    → (z' ≡ true → z ≡ true)
    → rating_number (chosen x' y' z') ≤ rating_number (chosen x y z)
unfolding chosen
chosen_mono x y z x' y' z' f g h = ground (arith, f, g, h)

either_mono :
    (a b a' b' : Bool)
    → (a' ≡ true → a ≡ true)
    → (b' ≡ true → b ≡ true)
    → (a' || b') ≡ true
    → (a || b) ≡ true
either_mono a b a' b' f g h = ground (arith, f, g)

module _ {F : Type 0} ⦃fl : Float F⦄ (ord : IsOrdered fl) where
  below_mono : (a b t : F) → (a <= b) ≡ true → (b << t) ≡ true → (a << t) ≡ true
  below_mono a b t h k = grind (arith, ord.lt-le, ord.trans, ord.total)

  rate_mono :
      (score days days' continuity continuity' : F) (failing failing' : Bool)
      → (days <= days') ≡ true
      → (continuity <= continuity') ≡ true
      → (failing' ≡ true → failing ≡ true)
      → rating_number (rate score days' continuity' failing')
        ≤ rating_number (rate score days continuity failing)
  unfolding rate chosen
  rate_mono score days days' continuity continuity' failing failing' d c f =
      let m = either_mono in
      chosen_mono _ _ _ _ _ _
        (m _ _ _ _ (λ e. e)
          (m _ _ _ _ (below_mono days days' _ d) (below_mono continuity continuity' _ c)))
        (m _ _ _ _ (λ e. e)
          (m _ _ _ _ (below_mono days days' _ d)
            (m _ _ _ _ (below_mono continuity continuity' _ c) f)))
        (m _ _ _ _ (below_mono days days' _ d) (below_mono continuity continuity' _ c))

  -- With more reserve, more continuity and no new failure of a reconciliation, the corridor's state
  -- being the same, a theater is never rated worse.
  pub evaluate_readiness_mono :
      (theater_id : String) (continuity continuity' days days' : F) (state : CorridorState)
      (reconciliation reconciliation' : Option (ReconciliationResult F))
      → (days <= days') ≡ true
      → (continuity <= continuity') ≡ true
      → (is_failing reconciliation' ≡ true → is_failing reconciliation ≡ true)
      → rating_number
          (evaluate_readiness theater_id continuity' days' state reconciliation').c_rating
        ≤ rating_number
            (evaluate_readiness theater_id continuity days state reconciliation).c_rating
  unfolding evaluate_readiness
  evaluate_readiness_mono theater_id continuity continuity' days days' state reconciliation
        reconciliation' d c f =
      rate_mono (corridor_score state) days days' continuity continuity' _ _ d c f
