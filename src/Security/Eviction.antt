-- ===== src/Security/Eviction.antt =====
-- The bound on the limiter's keys in security.py: when an eviction makes room, and when not.
use continuityos.Prelude.{
  is_some, ℕ, suc, pos, ◌≤◌, ◌<◌, ◌≡◌, refl, String, List, [], ◌∷◌, true, none, some, length, arith,
  if◌then◌else◌,
}
use continuityos.Float.{Float}
use continuityos.Security.{
  FixedWindowLimiter, events_of, set_events, drop_events, make_room, evict_first, admit, check,
}

length-set_events :
    {F : Type 0} (key : String) (times : List F) (d : List (String × List F))
    → length (set_events key times d)
      ≡ (if is_some (events_of key d) then length d else suc (length d))
unfolding set_events events_of
length-set_events key times [] = refl
length-set_events key times ((k, old) ∷ d) = ground (arith, length-set_events key times d)

length-drop_events :
    {F : Type 0} (key : String) (d : List (String × List F))
    → suc (length (drop_events key d))
      ≡ (if is_some (events_of key d) then length d else suc (length d))
unfolding drop_events events_of
length-drop_events key [] = refl
length-drop_events key ((k, old) ∷ d) = ground (arith, length-drop_events key d)

drop_events-none :
    {F : Type 0} (key k : String) (d : List (String × List F))
    → events_of key d ≡ none
    → events_of key (drop_events k d) ≡ none
unfolding drop_events events_of
drop_events-none key k [] h = refl
drop_events-none key k ((j, old) ∷ d) h = ground (arith, drop_events-none key k d)

length-admit :
    {F : Type 0} ⦃fl : Float F⦄ (key : String) (limit : ℕ) (window now : F)
    (l : FixedWindowLimiter F)
    → length (admit key limit window now l).0.events
      ≡ (if is_some (events_of key l.events) then length l.events else suc (length l.events))
unfolding admit
length-admit key limit window now l = grind (arith, length-set_events)

-- What is left of a full limiter when the head of the order is evicted.
abbrev evicted : {F : Type 0} → String → List String → FixedWindowLimiter F → FixedWindowLimiter F
evicted head order l = record {
  events = drop_events head l.events;
  access_order = order;
  max_keys = l.max_keys;
}

module _ {F : Type 0} ⦃fl : Float F⦄ (key head : String) (order : List String) (limit window : ℕ)
    (now : F) (l : FixedWindowLimiter F) (o : l.access_order ≡ head ∷ order)
    (new : events_of key l.events ≡ none) (full : l.max_keys ≤ length l.events) where
  make_room-full : make_room key l ≡ some (evicted head order l)
  unfolding make_room evict_first
  make_room-full = rw (new, o) (ground arith)

  length-check-full :
      length (check key limit window now l).0.events ≡ suc (length (drop_events head l.events))
  unfolding check
  length-check-full = rw make_room-full (
      ground (
        arith,
        length-admit key limit (fl.of_int (pos window)) now (evicted head order l),
        drop_events-none key head l.events new,
      ))

-- Where the key at the head of the access order still has a window, a check of a new key on a full
-- limiter keeps the number of keys.
eviction_keeps_bound :
    {F : Type 0} ⦃fl : Float F⦄ (key head : String) (order : List String) (limit window : ℕ)
    (now : F) (l : FixedWindowLimiter F)
    → l.access_order ≡ head ∷ order
    → events_of key l.events ≡ none
    → is_some (events_of head l.events) ≡ true
    → l.max_keys ≤ length l.events
    → length (check key limit window now l).0.events ≡ length l.events
eviction_keeps_bound key head order limit window now l o new known full = ground (
  arith,
  length-check-full key head order limit window now l o new full,
  length-drop_events head l.events,
)

-- Where that key has no window any more, as after a second admission of a key that was evicted, the
-- eviction removes nothing and the number of keys grows past `max_keys`.
stale_eviction_grows :
    {F : Type 0} ⦃fl : Float F⦄ (key head : String) (order : List String) (limit window : ℕ)
    (now : F) (l : FixedWindowLimiter F)
    → l.access_order ≡ head ∷ order
    → events_of key l.events ≡ none
    → events_of head l.events ≡ none
    → l.max_keys ≤ length l.events
    → l.max_keys < length (check key limit window now l).0.events
stale_eviction_grows key head order limit window now l o new stale full = ground (
  arith,
  length-check-full key head order limit window now l o new full,
  length-drop_events head l.events,
)
