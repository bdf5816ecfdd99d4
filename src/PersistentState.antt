-- ===== src/PersistentState.antt =====
-- state.py: the JSON state store. Every method holds the exclusive file lock from its read to its
-- write, so a run is a sequence of whole method calls, and each is a function of the file. A file
-- is given by what `json.loads` makes of its text. `_write_unlocked` replaces the file by one
-- `os.replace` after the temporary file is synced, and then syncs the directory: the argument
-- `outcome` says how far the disk let it get. The proofs are in the modules below.
pub mod Values
pub mod Replay
pub mod Idempotency
mod Examples
use Values.{Json, Fields, null, integer, text, object, end, get, put}
use continuityos.Prelude.{
  ℤ, leb_ℤ, String, str_append, str_eq, Bool, true, false, Option, none, some, if◌then◌else◌,
}

pub data File : Type 0 where
  absent : File
  -- `read_text` raises UnicodeDecodeError, which the method does not catch
  not_utf8 : File
  -- no JSON, or the file cannot be read: a RuntimeError
  undecodable : File
  holds : Json → File

pub data Error : Type 0 where
  unreadable : Error
  unicode_error : Error
  not_an_object : Error
  idempotency_conflict : Error
  no_response : Error
  -- what Python raises for a method or a conversion that the value lacks
  attribute_error : Error
  type_error : Error
  os_error : Error

pub data Result (A : Type 0) : Type 0 where
  ok : A → Result A
  err : Error → Result A

infixl 10 ◌>>=◌
abbrev pub ◌>>=◌ : {A B : Type 0} → Result A → (A → Result B) → Result B
ok a >>= f = f a
err e >>= f = err e

unfoldable pub read_unlocked : File → Result Fields
read_unlocked absent = ok end
read_unlocked not_utf8 = err unicode_error
read_unlocked undecodable = err unreadable
read_unlocked (holds (object fields)) = ok fields
read_unlocked (holds _) = err not_an_object

-- How a write ends: whole, before `os.replace`, or after it with the sync of the directory failing,
-- when the call raises although the file is the new one.
pub data WriteOutcome : Type 0 where
  written not_replaced not_synced : WriteOutcome

unfoldable pub write_unlocked : WriteOutcome → Fields → File → Result Unit × File
write_unlocked written value file = (ok tt, holds (object value))
write_unlocked not_replaced value file = (err os_error, file)
write_unlocked not_synced value file = (err os_error, holds (object value))

-- A method's plan: an answer without a write, or the state to write and the answer after it.
pub data Plan (A : Type 0) : Type 0 where
  answer : A → Plan A
  write : Fields → A → Plan A

unfoldable pub carry_out : {A : Type 0} → WriteOutcome → Result (Plan A) → File → Result A × File
unfolding write_unlocked
carry_out outcome (err e) file = (err e, file)
carry_out outcome (ok (answer a)) file = (ok a, file)
carry_out outcome (ok (write value a)) file =
    let (r, file') = write_unlocked outcome value file in (r >>= (λ _. ok a), file')

-- state.setdefault(name, {})
abbrev pub or_empty : Option Json → Json
or_empty none = object end
or_empty (some v) = v

unfoldable pub section_of : Fields → String → Json
section_of state name = or_empty (get state name)

-- `section.get` exists on a dict only.
unfoldable pub as_dict : Error → Json → Result Fields
as_dict e (object fields) = ok fields
as_dict e _ = err e

-- The key f"{namespace}:{key}".
unfoldable pub joined_key : String → String → String
joined_key a b = str_append a (str_append ":" b)

-- `None` and JSON's null are one value in Python.
abbrev pub present : Option Json → Option Json
present (some null) = none
present v = v

-- record.get("fingerprint") == fingerprint
abbrev pub text_is : Option Json → String → Bool
text_is (some (text s)) t = str_eq s t
text_is _ t = false

abbrev pub response_text : Option Json → Result (Option String)
response_text (some (text s)) = ok (some s)
response_text _ = err no_response

unfoldable pub check_record : String → Option Json → Result (Option String)
check_record fingerprint none = ok none
check_record fingerprint (some (object record_fields)) =
    if text_is (get record_fields "fingerprint") fingerprint
    then response_text (get record_fields "response")
    else err idempotency_conflict
check_record fingerprint (some _) = err idempotency_conflict

unfoldable pub get_idempotent : String → String → String → File → Result (Option String)
unfolding read_unlocked section_of as_dict check_record joined_key
get_idempotent namespace key fingerprint file = do
  state ← read_unlocked file
  records ← as_dict attribute_error (section_of state "idempotency")
  check_record fingerprint (present (get records (joined_key namespace key)))

-- The test on the record that is there before a save.
unfoldable pub may_overwrite : String → Option Json → Result (Unit {0})
may_overwrite fingerprint none = ok tt
may_overwrite fingerprint (some (object existing)) =
    if text_is (get existing "fingerprint") fingerprint then ok tt else err idempotency_conflict
may_overwrite fingerprint (some _) = err attribute_error

abbrev pub idempotency_record : String → String → Json
idempotency_record fingerprint response =
    object (put (put end "fingerprint" (text fingerprint)) "response" (text response))

unfoldable pub save_plan : String → String → String → String → File → Result (Plan (Unit {0}))
save_plan namespace key fingerprint response file = do
  state ← read_unlocked file
  records ← as_dict attribute_error (section_of state "idempotency")
  _ ← may_overwrite fingerprint (present (get records (joined_key namespace key)))
  ok (
      write
        (put state "idempotency" (
          object
            (put records (joined_key namespace key) (idempotency_record fingerprint response))))
        tt)

unfoldable pub save_idempotent :
    WriteOutcome → String → String → String → String → File → Result (Unit {0}) × File
unfolding save_plan carry_out read_unlocked section_of as_dict may_overwrite joined_key
save_idempotent outcome namespace key fingerprint response file =
    carry_out outcome (save_plan namespace key fingerprint response file) file

-- `int(previous)`, on what JSON can hold, is the builtin's: a parameter.
module _ (to_int : Json → Option ℤ) where
  -- Whether the sequence number is new: above the number that was claimed before, if there is one.
  unfoldable pub is_new : ℤ → Option Json → Result Bool
  is_new sequence none = ok true
  is_new sequence (some previous) = elim (to_int previous) [
    | none ↦ err type_error
    | some p ↦ ok (if leb_ℤ sequence p then false else true)
  ]

  unfoldable pub claim_plan : String → ℤ → File → Result (Plan Bool)
  unfolding read_unlocked section_of as_dict is_new
  claim_plan key sequence file = do
    state ← read_unlocked file
    sequences ← as_dict attribute_error (section_of state "telemetry_sequences")
    fresh ← is_new sequence (present (get sequences key))
    ok (
        if fresh
        then write (put state "telemetry_sequences" (object (put sequences key (integer sequence))))
            true
        else answer false)

  unfoldable pub claim_sequence : WriteOutcome → String → String → ℤ → File → Result Bool × File
  unfolding claim_plan carry_out
  claim_sequence outcome tenant_id asset_id sequence file =
      carry_out outcome (claim_plan (joined_key tenant_id asset_id) sequence file) file

unfoldable pub get_value : String → String → File → Result (Option Json)
unfolding read_unlocked section_of as_dict
get_value namespace key file = do
  state ← read_unlocked file
  section ← as_dict not_an_object (section_of state namespace)
  ok (present (get section key))

unfoldable pub set_plan : String → String → Json → File → Result (Plan (Unit {0}))
set_plan namespace key value file = do
  state ← read_unlocked file
  section ← as_dict not_an_object (section_of state namespace)
  ok (write (put state namespace (object (put section key value))) tt)

unfoldable pub set_value : WriteOutcome → String → String → Json → File → Result (Unit {0}) × File
unfolding set_plan carry_out read_unlocked section_of as_dict
set_value outcome namespace key value file =
    carry_out outcome (set_plan namespace key value file) file
