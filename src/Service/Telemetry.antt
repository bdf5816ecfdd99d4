-- ===== src/Service/Telemetry.antt =====
-- service.py: what telemetry is taken in, over any run of the two routes and of other writes.
use continuityos.Prelude.{
  inr, inl, Bool-cases, ℤ, ◌≤ℤ◌, String, List, [], ◌∷◌, ◌++◌, Bool, true, false, Option, none, some,
  ◌≡◌, refl, subst, ap, ◌∙◌, All,
}
use continuityos.PersistentState.{File, Result, ok, err, get_idempotent}
use continuityos.PersistentState.Values.{integer}
use continuityos.PersistentState.Idempotency.{get-save}
use continuityos.Evidence.{append, existing, last_hash, new_record}
use continuityos.Service.{
  Service, Message, AppState, accepted, http, raised, refused, claim, save_idempotency,
  accept_operator_payload, ledger_request, key_context, idempotency_context, answer,
  ingest_operator_observation, ingest_cloudevent, operator_observations, is_invalid, context_of,
}
use continuityos.Service.Calls.{Event, LeavesClaims, run}
use continuityos.Service.Refused.{refused_again, operator-unchanged, event-unchanged}
use continuityos.Service.Accepted.{
  reply_of-accepted, Observes, accept-observed, accept-Accepted, Accepted-state, append-some,
  append-none, record-claimed, respond-none,
}

module _ {M O P : Type 0} (service : Service M O P)
    (to_int-integer : (n : ℤ) → service.to_int (integer n) ≡ some n) where
  -- If `int` gives a JSON integer back: once a telemetry message was accepted past the look-up of
  -- its idempotency key, a message of the same tenant and asset with its sequence number or a
  -- lower one changes neither the state file nor the ledger, on whichever route and under whatever
  -- key it comes, and past the look-up of its key it is refused with a conflict, however many
  -- messages and other writes come in between, if none of these stores a value among the sequence
  -- numbers.
  pub never_recorded_again :
      (m m' : Message M) (key fingerprint key' fingerprint' : Option String) (o o' : O)
      (s : AppState) (es : List (Event M)) (is_supported : Bool) (event_id : String)
      → (accept_operator_payload service m key fingerprint s).0 ≡ accepted o
      → Observes service m' o'
      → service.tenant_id o ≡ service.tenant_id o'
      → service.asset_id o ≡ service.asset_id o'
      → service.sequence o' ≤ℤ service.sequence o
      → All LeavesClaims es
      → let after = run service es (accept_operator_payload service m key fingerprint s).1 in
        (accept_operator_payload service m' key' fingerprint' after ≡ (http 409, after))
        × ((ingest_operator_observation service m' after).1 ≡ after)
        × ((ingest_cloudevent service is_supported event_id m' after).1 ≡ after)
  never_recorded_again m m' key fingerprint key' fingerprint' o o' s es is_supported event_id h b' t
        a le l =
      let taken = accept-Accepted service m key fingerprint o s h in
      let after = run service es (accept_operator_payload service m key fingerprint s).1 in
      let refuses = λ (k p : Option String).
        refused_again service to_int-integer m m' key fingerprint k p o o' s es taken.observes
          taken.claimed b' t a le l in
      (
        refuses key' fingerprint',
        operator-unchanged service m' after refuses,
        event-unchanged service is_supported event_id m' after refuses,
      )

  -- If `int` gives a JSON integer back, and the ledger takes no record when a telemetry message
  -- comes whose sequence number is new, the route raises and the ledger's file stays as it was;
  -- and a message of the same tenant and asset with that sequence number or a lower one, as the
  -- same message sent again, is refused with a conflict past the look-up of its key and changes
  -- neither file on either route, however many messages and other writes come in between, if none
  -- of these stores a value among the sequence numbers.
  pub lost_after_failure :
      (m m' : Message M) (key fingerprint key' fingerprint' : Option String) (o o' : O)
      (s : AppState) (es : List (Event M)) (is_supported : Bool) (event_id : String)
      → Observes service m o
      → Observes service m' o'
      → service.tenant_id o ≡ service.tenant_id o'
      → service.asset_id o ≡ service.asset_id o'
      → service.sequence o' ≤ℤ service.sequence o
      → (claim service m o s.file).0 ≡ ok true
      → (append service.ledger m.append_written (ledger_request service m o) s.ledger_file).0 ≡ none
      → All LeavesClaims es
      → let (reply, s') = accept_operator_payload service m key fingerprint s in
        let after = run service es s' in
        (reply ≡ raised)
        × (s'.ledger_file ≡ s.ledger_file)
        × (accept_operator_payload service m' key' fingerprint' after ≡ (http 409, after))
        × ((ingest_operator_observation service m' after).1 ≡ after)
        × ((ingest_cloudevent service is_supported event_id m' after).1 ≡ after)
  lost_after_failure m m' key fingerprint key' fingerprint' o o' s es is_supported event_id b b' t a
        le c n l =
      let after = run service es (accept_operator_payload service m key fingerprint s).1 in
      let lost =
        accept-observed service m key fingerprint o s b
        ∙ record-claimed service m key fingerprint o _ s.ledger_file c
        ∙ respond-none service m key fingerprint o _ _ n in
      let refuses = λ (k p : Option String).
        refused_again service to_int-integer m m' key fingerprint k p o o' s es b c b' t a le l in
      (
        ap (λ r. r.0) lost,
        ap (λ r. r.1.ledger_file) lost
            ∙ append-none service.ledger m.append_written (ledger_request service m o) s.ledger_file
                n,
        refuses key' fingerprint',
        operator-unchanged service m' after refuses,
        event-unchanged service is_supported event_id m' after refuses,
      )

module _ {M O P : Type 0} (service : Service M O P) where
  -- An accepted telemetry message is in the ledger: its file has grown by the line of one record, which
  -- holds the observation and follows the last hash that the file had.
  pub accepted_recorded :
      (m : Message M) (key fingerprint : Option String) (o : O) (s : AppState)
      → (accept_operator_payload service m key fingerprint s).0 ≡ accepted o
      → let ledger = service.ledger in
        (h : String) × (last_hash ledger s.ledger_file ≡ some h)
        × ((accept_operator_payload service m key fingerprint s).1.ledger_file
            ≡ some (
                existing ledger s.ledger_file
                ++ (ledger.encode (new_record ledger (ledger_request service m o) h) ++ 10 ∷ [])))
  accepted_recorded m key fingerprint o s e =
      let a = accept-Accepted service m key fingerprint o s e in
      let (h, l, r, f) =
        append-some service.ledger m.append_written (ledger_request service m o) s.ledger_file
          a.entry a.appended in
      (
        h,
        l,
        ap (λ t. t.ledger_file) (Accepted-state service m key fingerprint o s a)
            ∙ f
            ∙ ap
                (λ x.
                  some
                    (existing service.ledger s.ledger_file ++ (service.ledger.encode x ++ 10 ∷ [])))
                r,
      )

  valid-context :
      (k p : String) (f : File) (r : Result (Option String))
      → is_invalid service k ≡ false
      → get_idempotent operator_observations k p f ≡ r
      → key_context service k p f ≡ context_of k p r
  unfolding key_context
  valid-context k p f r i e = rw (i, e) refl

  retry-context :
      (m m' : Message M) (k p : String) (o : O) (s : AppState) (r : Result (Option String))
      → ((x : O) → service.load (service.dump x) ≡ some x)
      → is_invalid service k ≡ false
      → get_idempotent operator_observations k p s.file ≡ r
      → (answer service m (context_of k p r) s).0 ≡ accepted o
      → let s' = (answer service m (context_of k p r) s).1 in
        answer service m' (key_context service k p s'.file) s' ≡ (accepted o, s')
  unfolding answer save_idempotency
  retry-context m m' k p o s (err e) c i g h = absurd (reply_of-accepted e o h)
  retry-context m m' k p o s (ok (some text)) c i g h =
      ap (λ x. answer service m' x s) (valid-context k p s.file _ i g) ∙ ap (λ y. (y, s)) h
  retry-context m m' k p o s (ok none) c i g h =
      let a = accept-Accepted service m (some k) (some p) o s h in
      let s' = (accept_operator_payload service m (some k) (some p) s).1 in
      let file = (claim service m o s.file).1 in
      let found : get_idempotent operator_observations k p s'.file ≡ ok (some (service.dump o)) =
        rw (Accepted-state service m (some k) (some p) o s a)
          (get-save m.save_written operator_observations k p (service.dump o) file a.saved) in
      ap (λ x. answer service m' x s') (valid-context k p s'.file _ i found) ∙ rw (c o) refl

  invalid-context :
      (k p : String) (f : File)
      → is_invalid service k ≡ true
      → key_context service k p f ≡ refused (http 400)
  unfolding key_context
  invalid-context k p f i = rw i refl

  retry-key :
      (m m' : Message M) (k p : String) (o : O) (s : AppState)
      → ((x : O) → service.load (service.dump x) ≡ some x)
      → (answer service m (key_context service k p s.file) s).0 ≡ accepted o
      → let s' = (answer service m (key_context service k p s.file) s).1 in
        answer service m' (key_context service k p s'.file) s' ≡ (accepted o, s')
  unfolding answer
  retry-key m m' k p o s c h = elim (Bool-cases (is_invalid service k)) [
    | inl i ↦ absurd (
        let bad =
          subst (λ x. (answer service m x s).0 ≡ accepted o) (invalid-context k p s.file i) h in
        cc)
    | inr i ↦
        let v = valid-context k p s.file _ i refl in
        let h' = subst (λ x. (answer service m x s).0 ≡ accepted o) v h in
        rw v (retry-context m m' k p o s _ c i refl h')
  ]

  -- A message that was accepted under an idempotency key, and is sent again under it with the same body
  -- and query, is answered the same and changes nothing, where a response is read back as it was written.
  pub retry_same :
      (m m' : Message M) (k : String) (o : O) (s : AppState)
      → ((x : O) → service.load (service.dump x) ≡ some x)
      → m.idempotency_key ≡ some k
      → m'.idempotency_key ≡ some k
      → m'.fingerprint ≡ m.fingerprint
      → (ingest_operator_observation service m s).0 ≡ accepted o
      → let s' = (ingest_operator_observation service m s).1 in
        ingest_operator_observation service m' s' ≡ (accepted o, s')
  unfolding ingest_operator_observation idempotency_context
  retry_same m m' k o s c e e' p h =
      let h' =
        subst
          (λ key.
            (answer service m (idempotency_context service key m.fingerprint s.file) s).0
            ≡ accepted o)
          e h in
      rw (e, e', p) (retry-key m m' k m.fingerprint o s c h')
