-- ===== src/Inventory.antt =====
-- inventory.py: the depletion of a stock, day by day. The summary line is left out. The loop is a
-- recursion on the days left, with the variables that it carries as a record; the log is built in
-- its order. The proofs are in the modules below.
mod Days
mod Crossings
mod Examples
use continuityos.Prelude.{
  ℕ, zero, suc, ◌+◌, String, List, [], ◌∷◌, Bool, true, false, not, ◌&&◌, Option, none, some, leb,
  is_some, if◌then◌else◌,
}
use continuityos.Float.{Float, dec, ◌<=◌, ◌<<◌, minimum, maximum}

pub record InventoryProfile (F : Type 0) : Type 0 where
  pub resource_id : String
  pub name : String
  pub starting_quantity : F
  pub unit : String
  pub normal_consumption_per_day : F
  pub degraded_consumption_per_day : Option F
  pub emergency_consumption_per_day : Option F
  pub replenishment_per_day : F
  pub replenishment_delay_days : ℕ
  pub shipment_delay_days : ℕ
  pub route_capacity_factor : F
  pub substitution_factor : F
  pub minimum_reserve : F
  pub critical_threshold : F
  pub warning_threshold : Option F
  pub storage_capacity_limit : Option F
  pub alternate_supplier_daily_rate : F
  pub alternate_supplier_delay_days : ℕ

pub data Status : Type 0 where
  normal warning critical exhausted : Status

pub record InventoryDay (F : Type 0) : Type 0 where
  pub day : ℕ
  pub quantity : F
  pub consumption : F
  pub replenishment : F
  pub status : Status

pub record InventoryResult (F : Type 0) : Type 0 where
  pub resource_id : String
  pub name : String
  pub starting_quantity : F
  pub unit : String
  pub days_to_warning : Option ℕ
  pub days_to_critical : Option ℕ
  pub days_to_exhaustion : Option ℕ
  pub days_to_replenishment : Option ℕ
  pub minimum_inventory_during_event : F
  pub time_to_restore_reserve : Option ℕ
  pub assured_replenishment_days : ℕ
  pub final_quantity : F
  pub final_status : Status
  pub daily_log : List (InventoryDay F)

-- The keyword arguments of `simulate_inventory`.
pub record Event : Type 0 where
  pub degraded : Bool
  pub emergency : Bool
  pub disrupted_replenishment : Bool

-- What the loop carries from day to day.
pub record Stock (F : Type 0) : Type 0 where
  pub quantity : F
  pub min_inventory : F
  pub dropped_below_reserve : Bool
  pub time_to_restore_reserve : Option ℕ
  pub days_to_warning : Option ℕ
  pub days_to_critical : Option ℕ
  pub days_to_exhaustion : Option ℕ
  pub days_to_replenishment : Option ℕ

-- `x = day` if the condition holds and `x` is None.
abbrev pub first : Option ℕ → Bool → ℕ → Option ℕ
first (some d) condition day = some d
first none condition day = if condition then some day else none

abbrev pub or_else : {F : Type 0} → Option F → F → F
or_else none x = x
or_else (some y) x = y

module _ {F : Type 0} ⦃fl : Float F⦄ (p : InventoryProfile F) (e : Event) where
  abbrev pub normal_or_degraded : F
  normal_or_degraded =
      if e.degraded
      then or_else p.degraded_consumption_per_day p.normal_consumption_per_day
      else p.normal_consumption_per_day

  abbrev pub consumption_rate : F
  consumption_rate =
      if e.emergency
      then or_else p.emergency_consumption_per_day normal_or_degraded
      else normal_or_degraded

  abbrev pub warning_level : F
  warning_level = or_else p.warning_threshold (fl.mul p.minimum_reserve (dec 15 1))

  abbrev pub assured_replenishment : ℕ → ℕ
  assured_replenishment simulation_days =
      if not e.disrupted_replenishment && (dec 0 0 << p.replenishment_per_day)
      then p.replenishment_delay_days + p.shipment_delay_days
      else if dec 0 0 << p.alternate_supplier_daily_rate
      then p.alternate_supplier_delay_days
      else simulation_days

  -- replenishment += ..., twice
  unfoldable pub replenishment_on : ℕ → F
  replenishment_on day =
      let primary =
        if not e.disrupted_replenishment
          && (leb (p.replenishment_delay_days + p.shipment_delay_days) day
              && (dec 0 0 << p.replenishment_per_day))
        then fl.add (dec 0 0) (fl.mul p.replenishment_per_day p.route_capacity_factor)
        else dec 0 0 in
      if e.disrupted_replenishment
        && ((dec 0 0 << p.alternate_supplier_daily_rate) && leb p.alternate_supplier_delay_days day)
      then fl.add primary p.alternate_supplier_daily_rate
      else primary

  abbrev pub effective_consumption : F
  effective_consumption = fl.mul consumption_rate (fl.sub (dec 1 0) p.substitution_factor)

  abbrev pub within_storage : F → F
  within_storage quantity = elim p.storage_capacity_limit [
    | none ↦ quantity
    | some limit ↦ minimum quantity limit
  ]

  unfoldable pub next_quantity : ℕ → F → F
  unfolding replenishment_on
  next_quantity day quantity =
      maximum (dec 0 0)
        (within_storage (fl.add (fl.sub quantity effective_consumption) (replenishment_on day)))

  unfoldable pub status_of : F → Status
  status_of quantity =
      if quantity <= dec 0 0
      then exhausted
      else if quantity <= p.critical_threshold
      then critical
      else if quantity <= warning_level
      then warning
      else normal

  -- The body of the loop.
  unfoldable pub pass_day : ℕ → Stock F → Stock F
  pass_day day s =
      let quantity = next_quantity day s.quantity in
      record {
        quantity = quantity;
        min_inventory = if quantity << s.min_inventory then quantity else s.min_inventory;
        dropped_below_reserve =
            if quantity << p.minimum_reserve then true else s.dropped_below_reserve;
        time_to_restore_reserve =
            if quantity << p.minimum_reserve
            then s.time_to_restore_reserve
            else first s.time_to_restore_reserve
                (s.dropped_below_reserve && (p.minimum_reserve <= quantity)) day;
        days_to_warning = first s.days_to_warning (quantity <= warning_level) day;
        days_to_critical = first s.days_to_critical (quantity <= p.critical_threshold) day;
        days_to_exhaustion = first s.days_to_exhaustion (quantity <= dec 0 0) day;
        days_to_replenishment = first s.days_to_replenishment (dec 0 0 << replenishment_on day) day;
      }

  unfoldable pub log_entry : ℕ → F → InventoryDay F
  log_entry day quantity = record {
    day = day;
    quantity = fl.round quantity 2;
    consumption = fl.round effective_consumption 2;
    replenishment = fl.round (replenishment_on day) 2;
    status = status_of quantity;
  }

  -- The loop over the days from `day` on, with `left` days left.
  unfoldable pub pass_days : ℕ → ℕ → Stock F → List (InventoryDay F) × Stock F
  unfolding pass_day log_entry
  pass_days zero day s = ([], s)
  pass_days (suc left) day s =
      let s' = pass_day day s in
      let (entries, last) = pass_days left (suc day) s' in
      (log_entry day s'.quantity ∷ entries, last)

  abbrev pub starting_stock : Stock F
  starting_stock = record {
    quantity = p.starting_quantity;
    min_inventory = p.starting_quantity;
    dropped_below_reserve = p.starting_quantity << p.minimum_reserve;
    time_to_restore_reserve = none;
    days_to_warning = none;
    days_to_critical = none;
    days_to_exhaustion = none;
    days_to_replenishment = none;
  }

  -- daily_log[-1], or a day of its own for an empty log
  abbrev pub final_day : F → List (InventoryDay F) → InventoryDay F
  final_day quantity [] = record {
    day = 0;
    quantity = quantity;
    consumption = dec 0 0;
    replenishment = dec 0 0;
    status = normal;
  }
  final_day quantity (d ∷ []) = d
  final_day quantity (d ∷ d' ∷ ds) = final_day quantity (d' ∷ ds)

  unfoldable pub simulate_inventory : ℕ → InventoryResult F
  unfolding pass_days
  simulate_inventory simulation_days =
      let (daily_log, s) = pass_days simulation_days 0 starting_stock in
      let final = final_day s.quantity daily_log in
      record {
        resource_id = p.resource_id;
        name = p.name;
        starting_quantity = p.starting_quantity;
        unit = p.unit;
        days_to_warning = s.days_to_warning;
        days_to_critical = s.days_to_critical;
        days_to_exhaustion = s.days_to_exhaustion;
        days_to_replenishment = s.days_to_replenishment;
        minimum_inventory_during_event = fl.round s.min_inventory 2;
        time_to_restore_reserve = s.time_to_restore_reserve;
        assured_replenishment_days = assured_replenishment simulation_days;
        final_quantity = fl.round final.quantity 2;
        final_status = final.status;
        daily_log = daily_log;
      }
