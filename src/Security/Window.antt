-- ===== src/Security/Window.antt =====
-- How many requests of a key the limiter of security.py admits.
use continuityos.Prelude.{
  ap, ◌≢◌, ◌⊎◌, some_injective, ◌&&◌, not, subst, Option-cases, ℕ, ◌≤◌, ◌<◌, ◌≡◌, ◌↔◌, pos, String,
  List, [], ◌∷◌, ◌++◌, true, false, some, leb, length, length-append, All, arith, if◌then◌else◌,
  is_some, Bool-cases, inl, inr,
}
use continuityos.Float.{Float, IsOrdered, ◌<=◌}
use continuityos.Security.{
  FixedWindowLimiter, Verdict, admitted, new_limiter, events_of, set_events, make_room, evict_first,
  or_no_events, trim, admit, check, wait_for,
}
use continuityos.Security.Times.{
  recent, Ascending, StartsAfter, trim-split, length-trim, length-trim-le, recent-le-trim,
  All-set_events, All-drop_events, All-events_of, events_of-set_events,
}

-- Every key has at most `limit` times.
abbrev pub IsBounded : {F : Type 0} → ℕ → FixedWindowLimiter F → Type 0
IsBounded limit l = All (λ e. length e.1 ≤ limit) l.events

evict_first-IsBounded :
    {F : Type 0} (order : List String) (limit : ℕ) (l r : FixedWindowLimiter F)
    → IsBounded limit l
    → evict_first order l ≡ some r
    → IsBounded limit r
unfolding evict_first
evict_first-IsBounded [] limit l r h e = cc
evict_first-IsBounded (k ∷ order) limit l r h e =
    subst (IsBounded limit) (some_injective e)
      (All-drop_events (λ times. length times ≤ limit) k l.events h)

make_room-IsBounded :
    {F : Type 0} (key : String) (limit : ℕ) (l r : FixedWindowLimiter F)
    → IsBounded limit l
    → make_room key l ≡ some r
    → IsBounded limit r
unfolding make_room
make_room-IsBounded key limit l r h e =
    elim (Bool-cases (not (is_some (events_of key l.events)) && leb l.max_keys (length l.events))) [
      | inl full ↦ evict_first-IsBounded l.access_order limit l r h (rw (full, if◌then◌else◌) at e)
      | inr room ↦ subst (IsBounded limit) (some_injective (rw (room, if◌then◌else◌) at e)) h
    ]

module _ {F : Type 0} ⦃fl : Float F⦄ where
  or_no_events-bounded :
      (key : String) (limit : ℕ) (l : FixedWindowLimiter F)
      → IsBounded limit l
      → length (or_no_events (events_of key l.events)) ≤ limit
  or_no_events-bounded key limit l h = elim (Option-cases (events_of key l.events)) [
    | inl e ↦ rw e (omega arith)
    | inr (times, e) ↦ rw e (All-events_of (λ times. length times ≤ limit) key times l.events e h)
  ]

  admit-IsBounded :
      (key : String) (limit : ℕ) (window now : F) (l : FixedWindowLimiter F)
      → IsBounded limit l
      → IsBounded limit (admit key limit window now l).0
  unfolding admit
  admit-IsBounded key limit window now l h =
      let old = or_no_events (events_of key l.events) in
      let times = trim (fl.sub now window) old in
      let b = or_no_events-bounded key limit l h in
      elim (Bool-cases (leb limit (length times))) [
        | inl full ↦ rw full (
            All-set_events (λ x. length x ≤ limit) key times l.events
              (omega (arith, b, length-trim-le (fl.sub now window) old)) h)
        | inr room ↦ rw room (
            All-set_events (λ x. length x ≤ limit) key (times ++ now ∷ []) l.events
              (ground (arith, length-append times (now ∷ []))) h)
      ]

  check-IsBounded :
      (key : String) (limit window : ℕ) (now : F) (l : FixedWindowLimiter F)
      → IsBounded limit l
      → IsBounded limit (check key limit window now l).0
  unfolding check
  check-IsBounded key limit window now l h = elim (Option-cases (make_room key l)) [
    | inl e ↦ rw e h
    | inr (r, e) ↦ rw e (
        admit-IsBounded key limit (fl.of_int (pos window)) now r
          (make_room-IsBounded key limit l r h e))
  ]

  -- The checks of requests, each with its key and the time that it read.
  unfoldable pub run_checks :
      ℕ → ℕ → List (String × F) → FixedWindowLimiter F → FixedWindowLimiter F
  run_checks limit window [] l = l
  run_checks limit window ((key, now) ∷ more) l =
      run_checks limit window more (check key limit window now l).0

  run_checks-IsBounded :
      (limit window : ℕ) (requests : List (String × F)) (l : FixedWindowLimiter F)
      → IsBounded limit l
      → IsBounded limit (run_checks limit window requests l)
  unfolding run_checks
  run_checks-IsBounded limit window [] l h = h
  run_checks-IsBounded limit window ((key, now) ∷ more) l h =
      run_checks-IsBounded limit window more (check key limit window now l).0
        (check-IsBounded key limit window now l h)

  -- After any checks of a new limiter under one limit, with whatever clock readings in whatever order,
  -- evictions and refusals included, no key has more than `limit` recorded times.
  pub run-IsBounded :
      (limit window max_keys : ℕ) (requests : List (String × F))
      → IsBounded limit (run_checks limit window requests (new_limiter max_keys))
  run-IsBounded limit window max_keys requests =
      run_checks-IsBounded limit window requests (new_limiter max_keys) tt

  wait_for-admitted : (now window : F) (times : List F) → wait_for now window times ≢ admitted
  unfolding wait_for
  wait_for-admitted now window [] h = cc
  wait_for-admitted now window (t ∷ times) h = cc

-- A check of a key that has a window, full or not.
module _ {F : Type 0} ⦃fl : Float F⦄ (key : String) (limit window : ℕ) (now : F)
    (l : FixedWindowLimiter F) (times : List F) (e : events_of key l.events ≡ some times) where
  abbrev pub cutoff : F
  cutoff = fl.sub now (fl.of_int (pos window))

  check-full :
      leb limit (length (trim cutoff times)) ≡ true
      → check key limit window now l ≡ (
        record l { events = set_events key (trim cutoff times) l.events },
        wait_for now (fl.of_int (pos window)) (trim cutoff times),
      )
  unfolding check make_room admit
  check-full full = rw e (ground arith)

  check-room :
      leb limit (length (trim cutoff times)) ≡ false
      → check key limit window now l ≡ (
        record l {
          events = set_events key (trim cutoff times ++ now ∷ []) l.events;
          access_order = l.access_order ++ key ∷ [];
        },
        admitted,
      )
  unfolding check make_room admit
  check-room room = rw e (ground arith)

  -- For a key that has recorded times, in whatever order: a check drops times at the front that are
  -- at or before the cutoff, until one is after it. If fewer than `limit` are left it admits the request,
  -- records its time behind them, and fewer than `limit` of the times were after the cutoff; else it
  -- does not admit it and keeps what is left.
  pub check-windowed :
      (dropped kept : List F) × (times ≡ dropped ++ kept)
      × All (λ t. (t <= cutoff) ≡ true) dropped
      × StartsAfter cutoff kept
      × (((check key limit window now l).1 ≡ admitted)
            × (length kept < limit)
            × (recent cutoff times < limit)
            × (events_of key (check key limit window now l).0.events ≡ some (kept ++ now ∷ []))
          ⊎ (((check key limit window now l).1 ≢ admitted)
              × (limit ≤ length kept)
              × (events_of key (check key limit window now l).0.events ≡ some kept)))
  check-windowed =
      let kept = trim cutoff times in
      let (dropped, same, old, starts) = trim-split cutoff times in
      (
        dropped,
        kept,
        same,
        old,
        starts,
        elim (Bool-cases (leb limit (length kept))) [
          | inl full ↦ inr (
            λ h.
                wait_for-admitted now (fl.of_int (pos window)) kept
                  (cc (ap (λ (x : FixedWindowLimiter F × Verdict). x.1) (check-full full), h)),
            ground arith,
            rw (check-full full) (events_of-set_events key kept l.events),
          )
          | inr room ↦ inl (
            ap (λ (x : FixedWindowLimiter F × Verdict). x.1) (check-room room),
            ground arith,
            ground (arith, recent-le-trim cutoff times),
            rw (check-room room) (events_of-set_events key (kept ++ now ∷ []) l.events),
          )
        ],
      )

  -- For a key whose recorded times ascend, among floats that are in order: a check admits the request
  -- exactly when fewer than `limit` of the times lie after the cutoff.
  pub admitted_iff :
      IsOrdered fl
      → Ascending times
      → ((check key limit window now l).1 ≡ admitted) ↔ (recent cutoff times < limit)
  admitted_iff o a =
      let n = length-trim o cutoff times a in
      elim (Bool-cases (leb limit (length (trim cutoff times)))) [
        | inl full ↦ (
          λ h. absurd (
              wait_for-admitted now (fl.of_int (pos window)) (trim cutoff times)
                (cc (ap (λ (x : FixedWindowLimiter F × Verdict). x.1) (check-full full), h))),
          λ h. absurd (ground (arith, n)),
        )
        | inr room ↦ (
          λ h. ground (arith, n),
          λ h. ap (λ (x : FixedWindowLimiter F × Verdict). x.1) (check-room room),
        )
      ]
