-- ===== src/Inventory/Examples.antt =====
-- Simulations of a tank of fuel, in millionths.
use continuityos.Prelude.{ℕ, ◌≤◌, none, some, false, ◌≡◌, refl}
use continuityos.Float.{dec, ◌<<◌}
use continuityos.Float.Micro.{micro, micro-IsOrdered}
use continuityos.Inventory.{
  InventoryProfile, Event, simulate_inventory, warning_level, next_quantity, replenishment_on,
}
use continuityos.Inventory.Days.{first_day, log_from, is_below, simulate_inventory-first_day}
use continuityos.Inventory.Crossings.{warned_in_time}

-- A tank without a primary supply, and with an alternate supplier who needs four days.
abbrev tank : InventoryProfile ℕ
tank = record {
  resource_id = "fuel";
  name = "Fuel";
  starting_quantity = 100000000;
  unit = "liters";
  normal_consumption_per_day = 30000000;
  degraded_consumption_per_day = none;
  emergency_consumption_per_day = some 60000000;
  replenishment_per_day = 0;
  replenishment_delay_days = 0;
  shipment_delay_days = 0;
  route_capacity_factor = 1000000;
  substitution_factor = 0;
  minimum_reserve = 50000000;
  critical_threshold = 20000000;
  warning_threshold = none;
  storage_capacity_limit = some 200000000;
  alternate_supplier_daily_rate = 10000000;
  alternate_supplier_delay_days = 4;
}

abbrev quiet : Event
quiet = record { degraded = false; emergency = false; disrupted_replenishment = false }

simulate_inventory-first_day_example :
    let result = simulate_inventory tank quiet 6 in
    (result.daily_log ≡ log_from tank quiet 0 6)
    × (result.days_to_warning ≡ first_day (is_below tank quiet (warning_level tank quiet)) 0 6)
    × (result.days_to_critical ≡ first_day (is_below tank quiet tank.critical_threshold) 0 6)
    × (result.days_to_exhaustion ≡ first_day (is_below tank quiet (dec 0 0)) 0 6)
    × (result.days_to_replenishment ≡ first_day (λ d. dec 0 0 << replenishment_on tank quiet d) 0 6)
simulate_inventory-first_day_example = simulate_inventory-first_day tank quiet 6

exhausted_on_day_three : (simulate_inventory tank quiet 6).days_to_exhaustion ≡ some 3
unfolding simulate_inventory next_quantity
exhausted_on_day_three = refl

warned_in_time_example :
    (c : ℕ) × (w : ℕ) × ((simulate_inventory tank quiet 6).days_to_critical ≡ some c)
    × ((simulate_inventory tank quiet 6).days_to_warning ≡ some w)
    × (w ≤ c)
    × (c ≤ 3)
warned_in_time_example =
    warned_in_time micro-IsOrdered tank quiet 6 3 refl refl exhausted_on_day_three
