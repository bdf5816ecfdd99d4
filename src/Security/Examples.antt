-- ===== src/Security/Examples.antt =====
-- The limiter of security.py under a few requests, with times in millionths of a second.
use continuityos.Prelude.{
  is_some, ℕ, ◌≤◌, ◌<◌, ◌≡◌, ◌≢◌, ◌⊎◌, ◌↔◌, refl, List, [], ◌∷◌, ◌++◌, true, none, some, pos,
  length, All,
}
use continuityos.Float.{◌<=◌}
use continuityos.Float.Micro.{micro, micro-IsOrdered}
use continuityos.Security.{
  FixedWindowLimiter, Settings, admitted, retry_after, new_limiter, events_of, check, make_room,
  admit, trim, wait_for, set_events, evict_first, drop_events,
}
use continuityos.Security.Times.{recent, StartsAfter}
use continuityos.Security.Window.{
  IsBounded, run_checks, run-IsBounded, check-windowed, admitted_iff,
}

-- Two keys of at most two; `a` was admitted twice, and the later reading of `b` came first.
abbrev busy : FixedWindowLimiter ℕ
busy = record {
  events = ("a", 100000000 ∷ 101000000 ∷ []) ∷ ("b", 100001000 ∷ 100000000 ∷ []) ∷ [];
  access_order = "a" ∷ "a" ∷ "b" ∷ "b" ∷ [];
  max_keys = 2;
}

-- The same limiter after `c` came and `a` was evicted: its second admission is stale.
abbrev stale : FixedWindowLimiter ℕ
stale = record {
  events = ("b", 100001000 ∷ 100000000 ∷ []) ∷ ("c", 104000000 ∷ []) ∷ [];
  access_order = "a" ∷ "b" ∷ "b" ∷ "c" ∷ [];
  max_keys = 2;
}

evicted_once : (check "c" 2 60 104000000 busy).0 ≡ stale
unfolding check make_room admit trim set_events events_of evict_first drop_events
evicted_once = refl

run-IsBounded_example : IsBounded {F = ℕ} 2 (
    run_checks 2 60
      (("a", 101000000) ∷ ("a", 100000000) ∷ ("a", 102000000) ∷ [])
      (new_limiter 10000))
run-IsBounded_example =
    run-IsBounded 2 60 10000 (("a", 101000000) ∷ ("a", 100000000) ∷ ("a", 102000000) ∷ [])

busy_a : events_of "a" busy.events ≡ some (100000000 ∷ 101000000 ∷ [])
unfolding events_of
busy_a = refl

busy_b : events_of "b" busy.events ≡ some (100001000 ∷ 100000000 ∷ [])
unfolding events_of
busy_b = refl

admitted_iff_example :
    ((check "a" 2 60 160500000 busy).1 ≡ admitted)
    ↔ (recent {F = ℕ} 100500000 (100000000 ∷ 101000000 ∷ []) < 2)
admitted_iff_example =
    admitted_iff "a" 2 60 160500000 busy (100000000 ∷ 101000000 ∷ []) busy_a micro-IsOrdered
      ((refl, tt), (tt, tt))

check-windowed_example :
    (dropped kept : List ℕ) × (100001000 ∷ 100000000 ∷ [] ≡ dropped ++ kept)
    × All (λ t. (t <= 100000500) ≡ true) dropped
    × StartsAfter 100000500 kept
    × (((check "b" 2 60 160000500 busy).1 ≡ admitted)
          × (length kept < 2)
          × (recent {F = ℕ} 100000500 (100001000 ∷ 100000000 ∷ []) < 2)
          × (events_of "b" (check "b" 2 60 160000500 busy).0.events ≡ some (kept ++ 160000500 ∷ []))
        ⊎ (((check "b" 2 60 160000500 busy).1 ≢ admitted)
            × (2 ≤ length kept)
            × (events_of "b" (check "b" 2 60 160000500 busy).0.events ≡ some kept)))
check-windowed_example = check-windowed "b" 2 60 160000500 busy (100001000 ∷ 100000000 ∷ []) busy_b

-- One of the two times of `b` lies in the window, and the other is counted behind it.
told : (check "b" 2 60 160000500 busy).1 ≡ retry_after (pos 1)
unfolding check make_room admit trim set_events events_of wait_for
told = refl

new_to_busy : events_of "c" busy.events ≡ none
unfolding events_of
new_to_busy = refl

known_to_busy : is_some (events_of "a" busy.events) ≡ true
unfolding events_of
known_to_busy = refl

new_to_stale : events_of "d" stale.events ≡ none
unfolding events_of
new_to_stale = refl

gone_from_stale : events_of "a" stale.events ≡ none
unfolding events_of
gone_from_stale = refl

abbrev production : Settings
production = record { api_key = some "k"; environment = "production"; rate_limit_per_minute = 60 }
