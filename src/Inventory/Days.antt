-- ===== src/Inventory/Days.antt =====
-- The loop of inventory.py against a stock that is computed for each day on its own.
use continuityos.Prelude.{
  ℕ, zero, suc, List, [], ◌∷◌, Bool, true, false, Option, none, some, ◌≡◌, refl, ap, sym, ◌∙◌,
  if◌then◌else◌,
}
use continuityos.Float.{Float, dec, ◌<=◌, ◌<<◌}
use continuityos.Inventory.{
  InventoryProfile, InventoryDay, Event, Stock, first, warning_level, replenishment_on,
  next_quantity, pass_day, log_entry, pass_days, starting_stock, simulate_inventory,
}

-- The first day of `left` days from `day` on that passes the test.
unfoldable pub first_day : (ℕ → Bool) → ℕ → ℕ → Option ℕ
first_day test day zero = none
first_day test day (suc left) =
    let rest = first_day test (suc day) left in if test day then some day else rest

abbrev keep : Option ℕ → Option ℕ → Option ℕ
keep none later = later
keep (some d) later = some d

keep-none : (o : Option ℕ) → keep o none ≡ o
keep-none none = refl
keep-none (some d) = refl

keep-first :
    (o : Option ℕ) (b : Bool) (day : ℕ) (later : Option ℕ)
    → keep (first o b day) later ≡ keep o (if b then some day else later)
keep-first none true day later = refl
keep-first none false day later = refl
keep-first (some d) b day later = refl

module _ {F : Type 0} ⦃fl : Float F⦄ (p : InventoryProfile F) (e : Event) where
  -- The stock after `n` days.
  unfoldable pub quantity_after : ℕ → F
  quantity_after zero = p.starting_quantity
  quantity_after (suc n) = next_quantity p e n (quantity_after n)

  unfoldable pub log_from : ℕ → ℕ → List (InventoryDay F)
  log_from day zero = []
  log_from day (suc left) = log_entry p e day (quantity_after (suc day)) ∷ log_from (suc day) left

  start-quantity : (starting_stock p e).quantity ≡ quantity_after 0
  unfolding quantity_after
  start-quantity = refl

  pass_day-quantity :
      (day : ℕ) (s : Stock F)
      → s.quantity ≡ quantity_after day
      → (pass_day p e day s).quantity ≡ quantity_after (suc day)
  unfolding quantity_after pass_day
  pass_day-quantity day s h = ap (next_quantity p e day) h

  -- A variable of the loop that is set on the first day that passes a test.
  first-pass_days :
      (field : Stock F → Option ℕ) (test : ℕ → Bool)
      → ((d : ℕ) (s : Stock F)
          → s.quantity ≡ quantity_after d
          → field (pass_day p e d s) ≡ first (field s) (test d) d)
      → (left day : ℕ) (s : Stock F) → s.quantity ≡ quantity_after day
      → field (pass_days p e left day s).1 ≡ keep (field s) (first_day test day left)
  unfolding pass_days first_day
  first-pass_days field test step zero day s h = sym (keep-none (field s))
  first-pass_days field test step (suc left) day s h =
      first-pass_days field test step left (suc day) (pass_day p e day s)
        (pass_day-quantity day s h)
      ∙ ap (λ o. keep o (first_day test (suc day) left)) (step day s h)
      ∙ keep-first (field s) (test day) day (first_day test (suc day) left)

  pass_days-log :
      (left day : ℕ) (s : Stock F)
      → s.quantity ≡ quantity_after day
      → (pass_days p e left day s).0 ≡ log_from day left
  unfolding pass_days log_from
  pass_days-log zero day s h = refl
  pass_days-log (suc left) day s h =
      let q = pass_day-quantity day s h in
      cc (q, pass_days-log left (suc day) (pass_day p e day s) q)

  -- Whether the stock at the end of a day is at or below a level.
  unfoldable pub is_below : F → ℕ → Bool
  unfolding quantity_after
  is_below level d = quantity_after (suc d) <= level

  -- The run of a simulation is the one that each day's stock gives: the log has an entry for every
  -- day with that day's stock, and each of the four counts of days is the first day on which the
  -- stock is at or below its level, or on which something is replenished.
  pub simulate_inventory-first_day :
      (n : ℕ)
      → let result = simulate_inventory p e n in
        (result.daily_log ≡ log_from 0 n)
        × (result.days_to_warning ≡ first_day (is_below (warning_level p e)) 0 n)
        × (result.days_to_critical ≡ first_day (is_below p.critical_threshold) 0 n)
        × (result.days_to_exhaustion ≡ first_day (is_below (dec 0 0)) 0 n)
        × (result.days_to_replenishment ≡ first_day (λ d. dec 0 0 << replenishment_on p e d) 0 n)
  unfolding simulate_inventory is_below
  simulate_inventory-first_day n =
      let start = starting_stock p e in
      let at =
        λ (level : F) (d : ℕ) (q : F) (o : Option ℕ). first o (next_quantity p e d q <= level) d in
      (
        pass_days-log n 0 start start-quantity,
        first-pass_days (λ s. s.days_to_warning) _
            (λ d s h. ap (λ q. at (warning_level p e) d q s.days_to_warning) h) n 0 start
            start-quantity,
        first-pass_days (λ s. s.days_to_critical) _
            (λ d s h. ap (λ q. at p.critical_threshold d q s.days_to_critical) h) n 0 start
            start-quantity,
        first-pass_days (λ s. s.days_to_exhaustion) _
            (λ d s h. ap (λ q. at (dec 0 0) d q s.days_to_exhaustion) h) n 0 start start-quantity,
        first-pass_days (λ s. s.days_to_replenishment) _ (λ d s h. refl) n 0 start start-quantity,
      )
