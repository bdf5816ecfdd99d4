-- ===== src/Service/Calls.antt =====
-- service.py: what the telemetry routes do to the state file is a run of calls of state.py.
use continuityos.Prelude.{
  inr, inl, is_some, Bool-cases, ℕ, String, List, [], ◌∷◌, ◌++◌, Bool, true, false, Option, none,
  some, ◌≡◌, refl, ap, ◌∙◌, All, All-append,
}
use continuityos.PersistentState.{File, WriteOutcome, Result, ok, err}
use continuityos.PersistentState.Replay.{Call, claim, save, LeavesSequences, apply_call, run_calls}
use continuityos.Evidence.{EvidenceRecord}
use continuityos.Service.{
  Checked, rejected, failed, observed, observe, accept_observed, respond, Service, Message,
  AppState, Context, refused, cached, proceed, save_idempotency, record_observation,
  accept_operator_payload, answer, ingest_operator_observation, ingest_cloudevent,
  operator_observations,
}

-- What happens to the service: a message on either route, or a write that another route makes to the
-- state file.
pub data Event (M : Type 0) : Type 0 where
  operator_message : Message M → Event M
  cloud_event : Bool → String → Message M → Event M
  other_call : Call → Event M

abbrev pub LeavesClaims : {M : Type 0} → Event M → Type 0
LeavesClaims (other_call c) = LeavesSequences c
LeavesClaims _ = Unit

module _ {M O P : Type 0} (service : Service M O P) where
  unfoldable pub handle : Event M → AppState → AppState
  unfolding ingest_operator_observation ingest_cloudevent
  handle (operator_message m) s = (ingest_operator_observation service m s).1
  handle (cloud_event is_supported event_id m) s =
      (ingest_cloudevent service is_supported event_id m s).1
  handle (other_call c) s = record s { file = apply_call service.to_int c s.file }

  unfoldable pub run : List (Event M) → AppState → AppState
  unfolding handle
  run [] s = s
  run (e ∷ es) s = run es (handle e s)

  -- A file that calls which leave the sequence numbers alone, claims aside, make of another.
  abbrev pub Follows : File → File → Type 0
  Follows f f' = (cs : List Call) × All LeavesSequences cs × (run_calls service.to_int cs f ≡ f')

  Follows-refl : (f : File) → Follows f f
  unfolding run_calls
  Follows-refl f = ([], tt, refl)

  Follows-call :
      (c : Call) (f : File) → LeavesSequences c → Follows f (apply_call service.to_int c f)
  unfolding run_calls
  Follows-call c f l = (c ∷ [], (l, tt), refl)

  run_calls-append :
      (cs ds : List Call) (f : File)
      → run_calls service.to_int (cs ++ ds) f
        ≡ run_calls service.to_int ds (run_calls service.to_int cs f)
  unfolding run_calls
  run_calls-append [] ds f = refl
  run_calls-append (c ∷ cs) ds f = run_calls-append cs ds (apply_call service.to_int c f)

  pub Follows-trans : (f : File) {g h : File} → Follows f g → Follows g h → Follows f h
  Follows-trans f (cs, l, e) (ds, k, e') = (
    cs ++ ds,
    (All-append _ cs ds).1 (l, k),
    run_calls-append cs ds f ∙ ap (run_calls service.to_int ds) e ∙ e',
  )

  save-Follows :
      (w : WriteOutcome) (key fingerprint : Option String) (o : O) (f : File)
      → Follows f (save_idempotency service w key fingerprint o f).1
  unfolding save_idempotency apply_call
  save-Follows w none fingerprint o f = Follows-refl f
  save-Follows w (some k) none o f = Follows-refl f
  save-Follows w (some k) (some p) o f =
      Follows-call (save w operator_observations k p (service.dump o)) f tt

  respond-Follows :
      (m : Message M) (key fingerprint : Option String) (o : O) (f : File)
      (appended : Option (EvidenceRecord P) × Option (List ℕ))
      → Follows f (respond service m key fingerprint o f appended).1.file
  unfolding respond
  respond-Follows m key fingerprint o f (none, l) = Follows-refl f
  respond-Follows m key fingerprint o f (some r, l) =
      save-Follows m.save_written key fingerprint o f

  pub record-Follows :
      (m : Message M) (key fingerprint : Option String) (o : O) (claimed : Result Bool × File)
      (l : Option (List ℕ))
      → Follows claimed.1 (record_observation service m key fingerprint o claimed l).1.file
  unfolding record_observation
  record-Follows m key fingerprint o (err e, f) l = Follows-refl f
  record-Follows m key fingerprint o (ok false, f) l = Follows-refl f
  record-Follows m key fingerprint o (ok true, f) l = respond-Follows m key fingerprint o f _

  observed-Follows :
      (m : Message M) (key fingerprint : Option String) (o : Checked O) (s : AppState)
      → Follows s.file (accept_observed service m key fingerprint o s).1.file
  unfolding accept_observed apply_call
  observed-Follows m key fingerprint rejected s = Follows-refl s.file
  observed-Follows m key fingerprint failed s = Follows-refl s.file
  observed-Follows m key fingerprint (observed o) s =
      Follows-trans s.file
        (Follows-call
          (claim m.claim_written (service.tenant_id o) (service.asset_id o) (service.sequence o))
          s.file tt)
        (record-Follows m key fingerprint o _ s.ledger_file)

  -- Taking a message on does to the file what a run of calls does.
  pub accept-Follows :
      (m : Message M) (key fingerprint : Option String) (s : AppState)
      → Follows s.file (accept_operator_payload service m key fingerprint s).1.file
  unfolding accept_operator_payload
  accept-Follows m key fingerprint s = elim (Bool-cases (is_some service.operator_webhook_secret)) [
    | inl h ↦ rw h (
        observed-Follows m key fingerprint
          (observe service service.operator_webhook_secret m.content) s)
    | inr h ↦ rw h (Follows-refl s.file)
  ]

  answer-Follows :
      (m : Message M) (context : Context O) (s : AppState)
      → Follows s.file (answer service m context s).1.file
  unfolding answer
  answer-Follows m (refused reply) s = Follows-refl s.file
  answer-Follows m (cached text) s = Follows-refl s.file
  answer-Follows m (proceed key fingerprint) s = accept-Follows m key fingerprint s

  handle-Follows : (e : Event M) (s : AppState) → LeavesClaims e → Follows s.file (handle e s).file
  unfolding handle
  handle-Follows (operator_message m) s l = answer-Follows m _ s
  handle-Follows (cloud_event true event_id m) s l = answer-Follows m _ s
  handle-Follows (cloud_event false event_id m) s l = Follows-refl s.file
  handle-Follows (other_call c) s l = Follows-call c s.file l

  pub run-Follows :
      (es : List (Event M)) (s : AppState) → All LeavesClaims es → Follows s.file (run es s).file
  unfolding run
  run-Follows [] s l = Follows-refl s.file
  run-Follows (e ∷ es) s (l, ls) =
      Follows-trans s.file (handle-Follows e s l) (run-Follows es (handle e s) ls)
