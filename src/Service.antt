-- ===== src/Service.antt =====
-- service.py: the two routes that take telemetry in, `ingest_operator_observation` and
-- `ingest_cloudevent`, with what they share. They put the sequence numbers and the idempotency records of
-- state.py together with the ledger of evidence.py. The disk's behaviour at each of a route's three
-- writes is part of a message, as are the identifier and the time of its ledger record. Verification of a
-- signature and normalisation are one parameter, `authenticate`. The guard on the rate comes before a
-- route and is left out here.
mod Calls
mod Accepted
mod Refused
mod Telemetry
mod Examples
use continuityos.Prelude.{
  is_some, ℕ, ℤ, String, str_eq, List, Bool, true, false, not, ◌||◌, Option, none, some, ltb,
  if◌then◌else◌,
}
use continuityos.PersistentState.{
  File, Error, WriteOutcome, Result, ok, err, idempotency_conflict, get_idempotent, save_idempotent,
  claim_sequence,
}
use continuityos.PersistentState.Values.{Json}
use continuityos.Evidence.{EvidenceLedger, EvidenceRecord, Request, append}

-- How the checks of a message end: with an error that the route turns into 401, with another exception
-- before the claim, the reading of the observation's metadata included, or with an observation.
pub data Checked (O : Type 0) : Type 0 where
  rejected failed : Checked O
  observed : O → Checked O

-- What the routes are configured with, and what they use of Python and of the observation `O`, whose JSON
-- form for the ledger is a `P`. A message's payload, body, time stamp and signature, the time at which
-- it comes and the random identifier that its observation is given are an `M`: a message that is sent
-- again is another `M`, whose observation has another identifier.
pub record Service (M O P : Type 0) : Type 0 where
  pub operator_webhook_secret : Option String
  pub ledger : EvidenceLedger P
  pub authenticate : String → M → Checked O
  pub observation_id : O → String
  pub tenant_id : O → String
  pub asset_id : O → String
  pub sequence : O → ℤ
  -- observation.model_dump(mode="json")
  pub payload_of : O → P
  -- response.model_dump_json() and TelemetryResponse.model_validate_json
  pub dump : O → String
  pub load : String → Option O
  pub to_int : Json → Option ℤ
  pub text_length : String → ℕ
  -- any(char.isspace() for char in key)
  pub has_space : String → Bool

pub record Message (M : Type 0) : Type 0 where
  pub content : M
  pub idempotency_key : Option String
  -- the digest of the body and the query
  pub fingerprint : String
  pub record_id : String
  pub created_at : String
  pub claim_written : WriteOutcome
  pub append_written : Bool
  pub save_written : WriteOutcome

pub record AppState : Type 0 where
  pub file : File
  pub ledger_file : Option (List ℕ)

-- A response with its observation, an HTTP error, or an exception that leaves the route.
pub data Reply (O : Type 0) : Type 0 where
  accepted : O → Reply O
  http : ℕ → Reply O
  raised : Reply O

-- What `idempotency_context` gives.
pub data Context (O : Type 0) : Type 0 where
  refused : Reply O → Context O
  cached : String → Context O
  proceed : Option String → Option String → Context O

abbrev pub reply_of : {O : Type 0} → Error → Reply O
reply_of idempotency_conflict = http 409
reply_of _ = raised

abbrev pub context_of : {O : Type 0} → String → String → Result (Option String) → Context O
context_of key fingerprint (err e) = refused (reply_of e)
context_of key fingerprint (ok (some text)) = cached text
context_of key fingerprint (ok none) = proceed (some key) (some fingerprint)

abbrev pub operator_observations : String
operator_observations = "operator-observations"

module _ {M O P : Type 0} (service : Service M O P) where
  abbrev pub is_invalid : String → Bool
  is_invalid key = str_eq key "" || ltb 128 (service.text_length key) || service.has_space key

  -- The context of a key that is there.
  unfoldable pub key_context : String → String → File → Context O
  key_context key fingerprint file =
      if is_invalid key
      then refused (http 400)
      else context_of key fingerprint (get_idempotent operator_observations key fingerprint file)

  unfoldable pub idempotency_context : Option String → String → File → Context O
  unfolding key_context
  idempotency_context none fingerprint file = proceed none none
  idempotency_context (some key) fingerprint file = key_context key fingerprint file

  unfoldable pub save_idempotency :
      WriteOutcome → Option String → Option String → O → File → Result (Unit {0}) × File
  save_idempotency outcome none fingerprint o file = (ok tt, file)
  save_idempotency outcome (some key) none o file = (ok tt, file)
  save_idempotency outcome (some key) (some fingerprint) o file =
      save_idempotent outcome operator_observations key fingerprint (service.dump o) file

  abbrev pub saved_reply : O → Result (Unit {0}) → Reply O
  saved_reply o (ok _) = accepted o
  saved_reply o (err e) = reply_of e

  abbrev pub ledger_request : Message M → O → Request P
  ledger_request m o = record {
    record_id = m.record_id;
    created_at = m.created_at;
    record_type = "operator_observation";
    subject_id = service.observation_id o;
    payload = service.payload_of o;
  }

  -- From the append to the ledger on, which is given with the ledger after it.
  unfoldable pub respond :
      Message M
      → Option String
      → Option String
      → O
      → File
      → Option (EvidenceRecord P) × Option (List ℕ)
      → Reply O × AppState
  unfolding save_idempotency
  respond m key fingerprint o file (none, ledger_file) =
      (raised, record { file = file; ledger_file = ledger_file })
  respond m key fingerprint o file (some _, ledger_file) =
      let (saved, file') = save_idempotency m.save_written key fingerprint o file in
      (saved_reply o saved, record { file = file'; ledger_file = ledger_file })

  -- From the claim of the sequence number on, which is given with the file after it.
  unfoldable pub record_observation :
      Message M
      → Option String
      → Option String
      → O
      → Result Bool × File
      → Option (List ℕ)
      → Reply O × AppState
  unfolding respond
  record_observation m key fingerprint o (err e, file) ledger_file =
      (raised, record { file = file; ledger_file = ledger_file })
  record_observation m key fingerprint o (ok false, file) ledger_file =
      (http 409, record { file = file; ledger_file = ledger_file })
  record_observation m key fingerprint o (ok true, file) ledger_file =
      respond m key fingerprint o file
        (append service.ledger m.append_written (ledger_request m o) ledger_file)

  abbrev pub claim : Message M → O → File → Result Bool × File
  claim m o file =
      claim_sequence service.to_int m.claim_written (service.tenant_id o) (service.asset_id o)
        (service.sequence o) file

  -- With what the signature and the payload give.
  unfoldable pub accept_observed :
      Message M → Option String → Option String → Checked O → AppState → Reply O × AppState
  unfolding record_observation
  accept_observed m key fingerprint rejected s = (http 401, s)
  accept_observed m key fingerprint failed s = (raised, s)
  accept_observed m key fingerprint (observed o) s =
      record_observation m key fingerprint o (claim m o s.file) s.ledger_file

  abbrev pub observe : Option String → M → Checked O
  observe none content = rejected
  observe (some secret) content = service.authenticate secret content

  unfoldable pub accept_operator_payload :
      Message M → Option String → Option String → AppState → Reply O × AppState
  unfolding accept_observed
  accept_operator_payload m key fingerprint s =
      if is_some service.operator_webhook_secret
      then accept_observed m key fingerprint (observe service.operator_webhook_secret m.content) s
      else (http 503, s)

  abbrev pub loaded : Option O → Reply O
  loaded none = raised
  loaded (some o) = accepted o

  unfoldable pub answer : Message M → Context O → AppState → Reply O × AppState
  unfolding accept_operator_payload
  answer m (refused reply) s = (reply, s)
  answer m (cached text) s = (loaded (service.load text), s)
  answer m (proceed key fingerprint) s = accept_operator_payload m key fingerprint s

  unfoldable pub ingest_operator_observation : Message M → AppState → Reply O × AppState
  unfolding answer idempotency_context
  ingest_operator_observation m s =
      answer m (idempotency_context m.idempotency_key m.fingerprint s.file) s

  -- request.headers.get("idempotency-key") or event.id
  abbrev pub event_key : Option String → String → String
  event_key none event_id = event_id
  event_key (some key) event_id = if str_eq key "" then event_id else key

  -- Of a CloudEvent: whether its type is supported, and its identifier.
  unfoldable pub ingest_cloudevent : Bool → String → Message M → AppState → Reply O × AppState
  unfolding answer key_context
  ingest_cloudevent is_supported event_id m s =
      let key = event_key m.idempotency_key event_id in
      if is_supported then answer m (key_context key m.fingerprint s.file) s else (http 422, s)
