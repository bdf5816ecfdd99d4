-- ===== src/Security.antt =====
-- security.py: the API key check and the rate limiter. A check reads the monotonic clock before it
-- takes the lock, so the parts under the lock come one after the other, and their readings, floats of
-- seconds, may come in any order. The reading is an argument of a check, and what
-- `enforce_rate_limit` hashes into a key is a parameter. The proofs are in the modules below.
mod Access
mod Times
mod Window
mod Eviction
mod Examples
use continuityos.Prelude.{
  ℕ, ℤ, pos, ◌+ℤ◌, ltb_ℤ, String, str_eq, List, [], ◌∷◌, ◌++◌, Bool, true, false, not, ◌&&◌, Option,
  none, some, leb, length, if◌then◌else◌, is_some,
}
use continuityos.Float.{Float, ◌<=◌}

-- The limiter's state: the admitted times of each key, oldest first, and the keys in the order of
-- their admissions.
pub record FixedWindowLimiter (F : Type 0) : Type 0 where
  pub events : List (String × List F)
  pub access_order : List String
  pub max_keys : ℕ

abbrev pub new_limiter : {F : Type 0} → ℕ → FixedWindowLimiter F
new_limiter max_keys = record { events = []; access_order = []; max_keys = max_keys }

pub data Verdict : Type 0 where
  admitted : Verdict
  retry_after : ℤ → Verdict
  -- Python's IndexError, from an empty deque
  index_error : Verdict

unfoldable pub events_of : {F : Type 0} → String → List (String × List F) → Option (List F)
events_of key [] = none
events_of key ((k, times) ∷ rest) = if str_eq k key then some times else events_of key rest

-- self._events[key] = times, in place or as a new entry
unfoldable pub set_events :
    {F : Type 0} → String → List F → List (String × List F) → List (String × List F)
set_events key times [] = (key, times) ∷ []
set_events key times ((k, old) ∷ rest) =
    if str_eq k key then (k, times) ∷ rest else (k, old) ∷ set_events key times rest

-- self._events.pop(key, None)
unfoldable pub drop_events : {F : Type 0} → String → List (String × List F) → List (String × List F)
drop_events key [] = []
drop_events key ((k, times) ∷ rest) =
    if str_eq k key then rest else (k, times) ∷ drop_events key rest

-- The eviction of the key at the head of the order: `none` is the IndexError of `popleft` on an
-- empty deque.
unfoldable pub evict_first :
    {F : Type 0} → List String → FixedWindowLimiter F → Option (FixedWindowLimiter F)
evict_first [] l = none
evict_first (k ∷ order) l =
    some (record { events = drop_events k l.events; access_order = order; max_keys = l.max_keys })

unfoldable pub make_room :
    {F : Type 0} → String → FixedWindowLimiter F → Option (FixedWindowLimiter F)
make_room key l =
    if not (is_some (events_of key l.events)) && leb l.max_keys (length l.events)
    then evict_first l.access_order l
    else some l

abbrev pub or_no_events : {F : Type 0} → Option (List F) → List F
or_no_events none = []
or_no_events (some times) = times

-- The numbers that a check computes on. `max(1, n)` of the builtin.
abbrev pub at_least_one : ℤ → ℤ
at_least_one n = if ltb_ℤ (pos 1) n then n else pos 1

module _ {F : Type 0} ⦃fl : Float F⦄ where
  -- The loop that drops the times at the front that are at or before the cutoff.
  unfoldable pub trim : F → List F → List F
  trim cutoff [] = []
  trim cutoff (t ∷ times) = let rest = trim cutoff times in if t <= cutoff then rest else t ∷ times

  -- max(1, int(events[0] + window_seconds - now) + 1)
  unfoldable pub wait_for : F → F → List F → Verdict
  wait_for now window [] = index_error
  wait_for now window (t ∷ times) =
      retry_after (at_least_one (fl.truncate (fl.sub (fl.add t window) now) +ℤ pos 1))

  unfoldable pub admit : String → ℕ → F → F → FixedWindowLimiter F → FixedWindowLimiter F × Verdict
  admit key limit window now l =
      let times = trim (fl.sub now window) (or_no_events (events_of key l.events)) in
      if leb limit (length times)
      then (record l { events = set_events key times l.events }, wait_for now window times)
      else (
        record l {
          events = set_events key (times ++ now ∷ []) l.events;
          access_order = l.access_order ++ key ∷ [];
        },
        admitted,
      )

  -- The rest of a check, once there is room for the key.
  unfoldable pub check_roomy :
      String
      → ℕ
      → F
      → F
      → FixedWindowLimiter F
      → Option (FixedWindowLimiter F)
      → FixedWindowLimiter F × Verdict
  check_roomy key limit window now l none = (l, index_error)
  check_roomy key limit window now l (some roomy) = admit key limit window now roomy

  -- Under the lock, with the time `now` that was read before it.
  unfoldable pub check : String → ℕ → ℕ → F → FixedWindowLimiter F → FixedWindowLimiter F × Verdict
  unfolding check_roomy
  check key limit window_seconds now l =
      check_roomy key limit (fl.of_int (pos window_seconds)) now l (make_room key l)

pub record Settings : Type 0 where
  pub api_key : Option String
  pub environment : String
  pub rate_limit_per_minute : ℕ

pub data ApiKeyOutcome : Type 0 where
  accepted unavailable unauthorized : ApiKeyOutcome

-- `hmac.compare_digest` and `sha256(...).hexdigest()` are the standard library's.
module _ (compare_digest : String → String → Bool) where
  unfoldable pub require_api_key : Settings → String → ApiKeyOutcome
  require_api_key settings supplied = elim settings.api_key [
    | none ↦ if str_eq settings.environment "production" then unavailable else accepted
    | some configured ↦
        if not (str_eq supplied "") && compare_digest supplied configured
        then accepted
        else unauthorized
  ]

-- The supplied key, or else the client's host, or else "unknown".
unfoldable pub identity_of : String → Option String → String
identity_of supplied host =
    if str_eq supplied "" then elim host [ none ↦ "unknown" | some h ↦ h ] else supplied

unfoldable pub enforce_rate_limit :
    {F : Type 0} ⦃fl : Float F⦄
    → (String → String)
    → Settings
    → String
    → Option String
    → F
    → FixedWindowLimiter F
    → FixedWindowLimiter F × Verdict
unfolding identity_of
enforce_rate_limit sha256_hex settings supplied host now l =
    check (sha256_hex (identity_of supplied host)) settings.rate_limit_per_minute 60 now l
