-- ===== src/Service/Examples.antt =====
-- A service whose observations are texts, and one message to it.
use continuityos.Prelude.{
  ℤ, pos, String, str_eq, [], ◌∷◌, ◌++◌, Bool, true, false, Option, none, some, ◌≡◌, refl, arith,
  if◌then◌else◌,
}
use continuityos.PersistentState.{
  absent, written, ok, claim_sequence, save_idempotent, get_idempotent,
}
use continuityos.PersistentState.Values.{Json, integer, get, put}
use continuityos.Evidence.{EvidenceLedger, append, existing, last_hash, new_record}
use continuityos.Service.{
  Service, rejected, observed, Message, AppState, accepted, http, raised, claim,
  accept_operator_payload, ledger_request, ingest_operator_observation, ingest_cloudevent,
}
use continuityos.Service.Calls.{cloud_event, run}
use continuityos.Service.Telemetry.{
  never_recorded_again, lost_after_failure, accepted_recorded, retry_same,
}

abbrev ledger : EvidenceLedger String
ledger = record {
  private_key = none;
  public_key = none;
  digest = λ u. u.payload;
  encode = λ r. 123 ∷ 125 ∷ [];
  decode = λ line. none;
}

abbrev to_int : Json → Option ℤ
to_int (integer n) = some n
to_int _ = none

abbrev service : Service String String String
service = record {
  operator_webhook_secret = some "secret";
  ledger = ledger;
  authenticate = λ secret content. if str_eq content "" then rejected else observed content;
  observation_id = λ o. o;
  tenant_id = λ o. "north";
  asset_id = λ o. "buoy";
  sequence = λ o. pos 7;
  payload_of = λ o. o;
  dump = λ o. o;
  load = λ text. some text;
  to_int = to_int;
  text_length = λ key. 2;
  has_space = λ key. false;
}

abbrev message : Bool → Message String
message append_written = record {
  content = "ice";
  idempotency_key = some "k1";
  fingerprint = "f1";
  record_id = "r1";
  created_at = "2026-01-01";
  claim_written = written;
  append_written = append_written;
  save_written = written;
}

abbrev start : AppState
start = record { file = absent; ledger_file = none }

taken :
    (accept_operator_payload service (message true) (some "k1") (some "f1") start).0
    ≡ accepted "ice"
unfolding accept_operator_payload claim_sequence append last_hash save_idempotent get put
taken = refl

never_recorded_again_example :
    let after =
      run service
        (cloud_event true "e1" (message true) ∷ [])
        (accept_operator_payload service (message true) (some "k1") (some "f1") start).1 in
    (accept_operator_payload service (message true) (some "k2") (some "f2") after
      ≡ (http 409, after))
    × ((ingest_operator_observation service (message true) after).1 ≡ after)
    × ((ingest_cloudevent service true "e2" (message true) after).1 ≡ after)
never_recorded_again_example =
    never_recorded_again service (λ n. refl) (message true) (message true) (some "k1") (some "f1")
      (some "k2") (some "f2") "ice" "ice" start (cloud_event true "e1" (message true) ∷ []) true
      "e2" taken (refl, refl) refl refl (omega arith) (tt, tt)

new_number : (claim service (message false) "ice" start.file).0 ≡ ok true
unfolding claim_sequence get put
new_number = refl

disk_full : (append ledger false (ledger_request service (message false) "ice") none).0 ≡ none
unfolding append last_hash
disk_full = refl

-- The message is sent again and given another identifier.
abbrev sent_again : Message String
sent_again = record (message true) { content = "ice again" }

lost_after_failure_example :
    let (reply, s') =
      accept_operator_payload service (message false) (some "k1") (some "f1") start in
    let after = run service [] s' in
    (reply ≡ raised)
    × (s'.ledger_file ≡ none)
    × (accept_operator_payload service sent_again (some "k1") (some "f1") after ≡ (http 409, after))
    × ((ingest_operator_observation service sent_again after).1 ≡ after)
    × ((ingest_cloudevent service true "e1" sent_again after).1 ≡ after)
lost_after_failure_example =
    lost_after_failure service (λ n. refl) (message false) sent_again (some "k1") (some "f1")
      (some "k1") (some "f1") "ice" "ice again" start [] true "e1" (refl, refl) (refl, refl) refl
      refl (omega arith) new_number disk_full tt

accepted_recorded_example :
    (h : String) × (last_hash ledger none ≡ some h)
    × ((accept_operator_payload service (message true) (some "k1") (some "f1") start).1.ledger_file
        ≡ some (
            existing ledger none
            ++ (ledger.encode (new_record ledger (ledger_request service (message true) "ice") h)
                ++ 10 ∷ [])))
accepted_recorded_example =
    accepted_recorded service (message true) (some "k1") (some "f1") "ice" start taken

ingested : (ingest_operator_observation service (message true) start).0 ≡ accepted "ice"
unfolding ingest_operator_observation get_idempotent claim_sequence append last_hash save_idempotent
    get put
ingested = refl

retry_same_example :
    let s' = (ingest_operator_observation service (message true) start).1 in
    ingest_operator_observation service (message true) s' ≡ (accepted "ice", s')
retry_same_example =
    retry_same service (message true) (message true) "k1" "ice" start (λ x. refl) refl refl refl
      ingested
