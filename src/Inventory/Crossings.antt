-- ===== src/Inventory/Crossings.antt =====
-- What a simulation of inventory.py says of levels, limits and deliveries.
use continuityos.Prelude.{
  ℕ, zero, suc, ◌≤◌, Bool, true, false, none, some, ◌≡◌, refl, sym, ◌∙◌, arith, Bool-cases, inl,
  inr,
}
use continuityos.Float.{Float, IsOrdered, dec, ◌<=◌, ◌<<◌}
use continuityos.Inventory.{
  InventoryProfile, Event, warning_level, replenishment_on, next_quantity, simulate_inventory,
}
use continuityos.Inventory.Days.{first_day, quantity_after, is_below, simulate_inventory-first_day}

first_day-le : (t : ℕ → Bool) (day left d : ℕ) → first_day t day left ≡ some d → day ≤ d
unfolding first_day
first_day-le t day zero d e = absurd (cc)
first_day-le t day (suc left) d e = ground (arith, first_day-le t (suc day) left d)

-- A test that holds wherever another does is first passed on the same day or before.
first_day_mono :
    (t u : ℕ → Bool)
    → ((d : ℕ) → t d ≡ true → u d ≡ true)
    → (day left d : ℕ) → first_day t day left ≡ some d
    → (d' : ℕ) × (first_day u day left ≡ some d') × (d' ≤ d)
unfolding first_day
first_day_mono t u h day zero d e = absurd (cc)
first_day_mono t u h day (suc left) d e = elim (Bool-cases (u day)) [
  | inl now ↦ (day, rw now refl, first_day-le t day (suc left) d e)
  | inr later ↦ rw later (first_day_mono t u h (suc day) left d (ground (arith, h day)))
]

first_day-none :
    (t : ℕ → Bool) → ((d : ℕ) → t d ≡ false) → (day left : ℕ) → first_day t day left ≡ none
unfolding first_day
first_day-none t h day zero = refl
first_day-none t h day (suc left) = rw (h day) (first_day-none t h (suc day) left)

module _ {F : Type 0} ⦃fl : Float F⦄ (p : InventoryProfile F) (e : Event) where
  -- Where the alternate supplier could deliver but nothing disrupts a primary supply that delivers
  -- nothing, the simulation never sees a delivery, on any day, and still assures one after the alternate
  -- supplier's delay.
  assured_never_arrives :
      (n : ℕ)
      → e.disrupted_replenishment ≡ false
      → (dec 0 0 << p.replenishment_per_day) ≡ false
      → (dec 0 0 << p.alternate_supplier_daily_rate) ≡ true
      → (dec 0 0 << fl.decimal 0 0) ≡ false
      → let result = simulate_inventory p e n in
        (result.days_to_replenishment ≡ none)
        × (result.assured_replenishment_days ≡ p.alternate_supplier_delay_days)
  unfolding simulate_inventory replenishment_on
  assured_never_arrives n d r a z = (
    (simulate_inventory-first_day p e n).4 ∙ first_day-none _ (λ day. ground arith) 0 n,
    ground arith,
  )

module _ {F : Type 0} ⦃fl : Float F⦄ (ord : IsOrdered fl) (p : InventoryProfile F) (e : Event) where
  le_below :
      (low high : F) (d : ℕ)
      → (low <= high) ≡ true
      → is_below p e low d ≡ true
      → is_below p e high d ≡ true
  unfolding is_below
  le_below low high d h b = ord.trans _ _ _ b h

  -- A stock is never exhausted before it is critical, and never critical before the warning, if the
  -- levels stand in that order.
  pub warned_in_time :
      (n d : ℕ)
      → (dec 0 0 <= p.critical_threshold) ≡ true
      → (p.critical_threshold <= warning_level p e) ≡ true
      → (simulate_inventory p e n).days_to_exhaustion ≡ some d
      → (c : ℕ) × (w : ℕ) × ((simulate_inventory p e n).days_to_critical ≡ some c)
        × ((simulate_inventory p e n).days_to_warning ≡ some w)
        × (w ≤ c)
        × (c ≤ d)
  warned_in_time n d h k x =
      let (_, fw, fc, fe, _) = simulate_inventory-first_day p e n in
      let (c, ec, lc) =
        first_day_mono _ _ (λ day. le_below (dec 0 0) p.critical_threshold day h) 0 n d
          (sym fe ∙ x) in
      let (w, ew, lw) =
        first_day_mono _ _ (λ day. le_below p.critical_threshold (warning_level p e) day k) 0 n c
          ec in
      (c, w, fc ∙ ec, fw ∙ ew, lw, lc)

  -- At the end of every day the stock is at least zero, and within the storage limit, if there is
  -- one that is not negative.
  quantity_bounds :
      (n : ℕ) (limit : F)
      → (dec 0 0 <= limit) ≡ true
      → p.storage_capacity_limit ≡ some limit
      → ((dec 0 0 <= quantity_after p e (suc n)) ≡ true)
        × ((quantity_after p e (suc n) <= limit) ≡ true)
  unfolding quantity_after next_quantity
  quantity_bounds n limit z l =
      rw l (
        grind (arith, ord.lt-le, ord.total, ord.refl),
        grind (arith, ord.lt-le, ord.total, ord.refl),
      )
