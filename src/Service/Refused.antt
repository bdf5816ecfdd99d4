-- ===== src/Service/Refused.antt =====
-- service.py: what a message does whose sequence number was claimed before.
use continuityos.Prelude.{
  ℤ, ◌≤ℤ◌, String, List, Bool, true, false, Option, some, ◌≡◌, refl, sym, subst, ap, ◌∙◌, All,
}
use continuityos.PersistentState.{ok}
use continuityos.PersistentState.Values.{integer}
use continuityos.PersistentState.Replay.{claimed_never_again}
use continuityos.Service.{
  Service, Message, AppState, Context, http, refused, cached, proceed, claim, record_observation,
  accept_operator_payload, answer, ingest_operator_observation, ingest_cloudevent,
}
use continuityos.Service.Calls.{
  Event, LeavesClaims, run, Follows, run-Follows, record-Follows, Follows-trans,
}
use continuityos.Service.Accepted.{Observes, accept-observed}

module _ {M O P : Type 0} (service : Service M O P)
    (to_int-integer : (n : ℤ) → service.to_int (integer n) ≡ some n) where
  refused-claim :
      (m : Message M) (key fingerprint : Option String) (o : O) (s : AppState)
      → Observes service m o
      → claim service m o s.file ≡ (ok false, s.file)
      → accept_operator_payload service m key fingerprint s ≡ (http 409, s)
  unfolding record_observation
  refused-claim m key fingerprint o s b c =
      accept-observed service m key fingerprint o s b ∙ rw c refl

  -- Once a message's sequence number is claimed, that message, or one of the same tenant and asset
  -- with the same or a lower number, is refused.
  pub refused_again :
      (m m' : Message M) (key fingerprint key' fingerprint' : Option String) (o o' : O)
      (s : AppState) (es : List (Event M))
      → Observes service m o
      → (claim service m o s.file).0 ≡ ok true
      → Observes service m' o'
      → service.tenant_id o ≡ service.tenant_id o'
      → service.asset_id o ≡ service.asset_id o'
      → service.sequence o' ≤ℤ service.sequence o
      → All LeavesClaims es
      → let after = run service es (accept_operator_payload service m key fingerprint s).1 in
        accept_operator_payload service m' key' fingerprint' after ≡ (http 409, after)
  refused_again m m' key fingerprint key' fingerprint' o o' s es b c b' t a le l =
      let start = accept_operator_payload service m key fingerprint s in
      let taken =
        record-Follows service m key fingerprint o (claim service m o s.file) s.ledger_file in
      let first =
        subst (λ r. Follows service (claim service m o s.file).1 r.1.file)
          (sym (accept-observed service m key fingerprint o s b)) taken in
      let (cs, ls, e) = Follows-trans service _ first (run-Follows service es start.1 l) in
      let again =
        claimed_never_again service.to_int to_int-integer m.claim_written m'.claim_written
          (service.tenant_id o) (service.asset_id o) (service.sequence o) (service.sequence o')
          s.file cs c ls le in
      refused-claim m' key' fingerprint' o' (run service es start.1) b'
        (rw (sym t, sym a, sym e) again)

module _ {M O P : Type 0} (service : Service M O P) where
  -- A message that is refused past the look-up of its key changes nothing on either route.
  answer-unchanged :
      (m : Message M) (context : Context O) (s : AppState)
      → ((key fingerprint : Option String)
          → accept_operator_payload service m key fingerprint s ≡ (http 409, s))
      → (answer service m context s).1 ≡ s
  unfolding answer
  answer-unchanged m (refused reply) s h = refl
  answer-unchanged m (cached text) s h = refl
  answer-unchanged m (proceed key fingerprint) s h = ap (λ r. r.1) (h key fingerprint)

  pub event-unchanged :
      (is_supported : Bool) (event_id : String) (m : Message M) (s : AppState)
      → ((key fingerprint : Option String)
          → accept_operator_payload service m key fingerprint s ≡ (http 409, s))
      → (ingest_cloudevent service is_supported event_id m s).1 ≡ s
  unfolding ingest_cloudevent
  event-unchanged true event_id m s h = answer-unchanged m _ s h
  event-unchanged false event_id m s h = refl

  pub operator-unchanged :
      (m : Message M) (s : AppState)
      → ((key fingerprint : Option String)
          → accept_operator_payload service m key fingerprint s ≡ (http 409, s))
      → (ingest_operator_observation service m s).1 ≡ s
  unfolding ingest_operator_observation
  operator-unchanged m s h = answer-unchanged m _ s h
