-- ===== src/Evidence.antt =====
-- evidence.py: the append-only ledger of hashed records. A file is the list of its bytes, or
-- absent. The lock is held over a whole append, so a run is a sequence of whole calls, and the
-- file is replaced by one `os.replace`: the argument `written` says whether the disk let it get
-- there. The identifier and the time of a new record are arguments. Pydantic's JSON form of a record
-- and its reader, the digest of the canonical form and the key pair are parameters.
mod Bytes
mod Lines
mod Serial
mod Chain
mod Runs
mod Tampering
mod Stuck
mod Reading
mod Examples
use continuityos.Prelude.{
  ℕ, zero, suc, ℤ, pos, pos_part, ltb_ℤ, leb, ◌||◌, ◌-◌, String, str_eq, List, [], ◌∷◌, ◌++◌, Bool,
  true, false, not, Option, none, some, ltb, leb, ◌||◌, ◌==◌, length, when, if◌then◌else◌,
}
use Bytes.{drop, take, split_lines, split_newlines, last_non_blank}

pub record Unsigned (P : Type 0) : Type 0 where
  pub record_id : String
  pub created_at : String
  pub record_type : String
  pub subject_id : String
  pub payload : P
  pub previous_hash : String

-- The fields that are hashed are a record of their own.
pub record EvidenceRecord (P : Type 0) : Type 0 where
  pub unsigned : Unsigned P
  pub record_hash : String
  pub signature : Option String
  pub signing_key_id : Option String

-- A key pair: the signature of a hash in base64, and the identifier of the public key.
pub record PrivateKey : Type 0 where
  pub sign : String → String
  pub key_id : String

pub record EvidenceLedger (P : Type 0) : Type 0 where
  pub private_key : Option PrivateKey
  -- whether a signature is one of a hash
  pub public_key : Option (String → String → Bool)
  -- sha256(self._canonical(unsigned)).hexdigest()
  pub digest : Unsigned P → String
  -- record.model_dump_json().encode() and EvidenceRecord.model_validate_json
  pub encode : EvidenceRecord P → List ℕ
  pub decode : List ℕ → Option (EvidenceRecord P)

-- "0" * 64
abbrev pub genesis : String
genesis = "0000000000000000000000000000000000000000000000000000000000000000"

pub data LedgerError : Type 0 where
  invalid_record : ℕ → LedgerError
  previous_hash_mismatch : ℕ → LedgerError
  record_hash_mismatch : ℕ → LedgerError
  no_public_key : ℕ → LedgerError
  signature_failed : ℕ → LedgerError

pub record Request (P : Type 0) : Type 0 where
  pub record_id : String
  pub created_at : String
  pub record_type : String
  pub subject_id : String
  pub payload : P

module _ {P : Type 0} (ledger : EvidenceLedger P) where
  abbrev pub hash_of : Option (EvidenceRecord P) → Option String
  hash_of none = none
  hash_of (some record_read) = some record_read.record_hash

  -- The loop of `_last_hash` from the position `position` on: 4096 more bytes in each round, until there
  -- is a line that is not blank. With as many rounds as `position` the rounds never run out, since
  -- every round with more to read lowers `position`.
  unfoldable pub scan_back : List ℕ → ℕ → ℕ → Option String
  unfolding drop split_newlines last_non_blank
  scan_back bytes zero position = some genesis
  scan_back bytes (suc rounds) position =
      let rest = scan_back bytes rounds (position - 4096) in
      if position == 0
      then some genesis
      else elim (last_non_blank (split_newlines (drop (position - 4096) bytes))) [
        | none ↦ rest
        | some line ↦ hash_of (ledger.decode line)
      ]

  -- `none` is the error of a last line that is no record.
  unfoldable pub last_hash : Option (List ℕ) → Option String
  unfolding scan_back
  last_hash none = some genesis
  last_hash (some bytes) = scan_back bytes (length bytes) (length bytes)

  abbrev pub unsigned_of : Request P → String → Unsigned P
  unsigned_of q previous_hash = record {
    record_id = q.record_id;
    created_at = q.created_at;
    record_type = q.record_type;
    subject_id = q.subject_id;
    payload = q.payload;
    previous_hash = previous_hash;
  }

  abbrev pub signature_of : Option PrivateKey → String → Option String
  signature_of none record_hash = none
  signature_of (some key) record_hash = some (key.sign record_hash)

  abbrev pub key_id_of : Option PrivateKey → Option String
  key_id_of none = none
  key_id_of (some key) = some key.key_id

  unfoldable pub new_record : Request P → String → EvidenceRecord P
  new_record q previous_hash = record {
    unsigned = unsigned_of q previous_hash;
    record_hash = ledger.digest (unsigned_of q previous_hash);
    signature = signature_of ledger.private_key (ledger.digest (unsigned_of q previous_hash));
    signing_key_id = key_id_of ledger.private_key;
  }

  abbrev pub existing : Option (List ℕ) → List ℕ
  existing none = []
  existing (some bytes) = bytes

  -- self._append_atomic(record.model_dump_json().encode() + b"\n")
  unfoldable pub append_atomic : Bool → List ℕ → Option (List ℕ) → Bool × Option (List ℕ)
  append_atomic true new_bytes file = (true, some (existing file ++ new_bytes))
  append_atomic false new_bytes file = (false, file)

  unfoldable pub append :
      Bool → Request P → Option (List ℕ) → Option (EvidenceRecord P) × Option (List ℕ)
  unfolding append_atomic
  append written q file = elim (last_hash file) [
    | none ↦ (none, file)
    | some previous_hash ↦
        let r = new_record q previous_hash in
        let (done, file') = append_atomic written (ledger.encode r ++ 10 ∷ []) file in
        (if done then some r else none, file')
  ]

  -- `if record.signature:`, which an empty text fails
  unfoldable pub signature_errors : ℕ → EvidenceRecord P → List LedgerError
  signature_errors index r = elim r.signature [
    | none ↦ []
    | some signature ↦ if str_eq signature "" then [] else elim ledger.public_key [
      | none ↦ no_public_key index ∷ []
      | some verifies ↦ when (not (verifies signature r.record_hash)) (signature_failed index)
    ]
  ]

  unfoldable pub record_errors : ℕ → String → EvidenceRecord P → List LedgerError
  unfolding signature_errors
  record_errors index previous r =
      when (not (str_eq r.unsigned.previous_hash previous)) (previous_hash_mismatch index)
      ++ (when (not (str_eq (ledger.digest r.unsigned) r.record_hash)) (record_hash_mismatch index)
          ++ signature_errors index r)

  unfoldable pub verify_lines : ℕ → String → List (List ℕ) → List LedgerError
  verify_lines index previous [] = []
  verify_lines index previous (line ∷ lines) = elim (ledger.decode line) [
    | none ↦ invalid_record index ∷ verify_lines (suc index) previous lines
    | some r ↦ record_errors index previous r ++ verify_lines (suc index) r.record_hash lines
  ]

  unfoldable pub verify : Option (List ℕ) → List LedgerError
  unfolding verify_lines record_errors
  verify none = []
  verify (some bytes) = verify_lines 1 genesis (split_lines bytes)

  -- The first record with the identifier; a line that is no record is passed over.
  unfoldable pub find_record : String → List (List ℕ) → Option (EvidenceRecord P)
  find_record record_id [] = none
  find_record record_id (line ∷ lines) =
      let rest = find_record record_id lines in
      elim (ledger.decode line) [
        | none ↦ rest
        | some r ↦ if str_eq r.unsigned.record_id record_id then some r else rest
      ]

  unfoldable pub get_record : String → Option (List ℕ) → Option (EvidenceRecord P)
  unfolding find_record
  get_record record_id none = none
  get_record record_id (some bytes) = find_record record_id (split_lines bytes)

  abbrev pub prepend :
      EvidenceRecord P → Option (List (EvidenceRecord P)) → Option (List (EvidenceRecord P))
  prepend r none = none
  prepend r (some rs) = some (r ∷ rs)

  -- All lines read, or the error of one that is no record.
  unfoldable pub read_all : List (List ℕ) → Option (List (EvidenceRecord P))
  read_all [] = some []
  read_all (line ∷ lines) = elim (ledger.decode line) [
    | none ↦ none
    | some r ↦ prepend r (read_all lines)
  ]

  abbrev pub page : ℕ → ℕ → Option (List ℕ) → Option (List (EvidenceRecord P))
  page offset limit none = some []
  page offset limit (some bytes) =
      let lines = split_lines bytes in
      if leb (length lines) offset then some [] else read_all (take limit (drop offset lines))

  -- `none` is the ValueError of an offset or a limit out of range, or of a line that is no record.
  unfoldable pub records : ℤ → ℤ → Option (List ℕ) → Option (List (EvidenceRecord P))
  unfolding read_all drop take
  records offset limit file =
      if ltb_ℤ offset (pos 0) || ltb_ℤ limit (pos 1) || ltb_ℤ (pos 1000) limit
      then none
      else page (pos_part offset) (pos_part limit) file
