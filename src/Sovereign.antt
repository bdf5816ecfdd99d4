-- ===== src/Sovereign.antt =====
-- sovereign.py: security labels and the filter between domains. A set is a list, a payload is a list of
-- keys with values, and `str.upper` is a parameter. A rejection's text is a constructor. The banner, the
-- audit of an air gap and the compliance report, which read the environment and the disk, are left out.
mod Guards
mod Filter
mod Examples
use continuityos.Prelude.{
  ℕ, String, str_eq, List, [], ◌∷◌, Bool, true, false, not, ◌&&◌, ◌||◌, Option, none, some, any,
  all, map, ltb, is_some, if◌then◌else◌,
}
use continuityos.Domain.{DataClassification, level}

pub record SecurityLabel : Type 0 where
  pub classification : DataClassification
  pub compartments : List String
  pub dissemination_controls : List String
  pub releasable_to : List String
  pub owner_nation : String

-- `x in xs`
unfoldable pub contains : String → List String → Bool
contains x xs = any (str_eq x) xs

abbrev pub is_empty : List String → Bool
is_empty [] = true
is_empty (x ∷ xs) = false

abbrev pub five_eyes_nations : List String
five_eyes_nations = "CAN" ∷ "USA" ∷ "GBR" ∷ "AUS" ∷ "NZL" ∷ []

abbrev pub sensitive_keys : List String
sensitive_keys =
    "private_key" ∷ "internal_api_key" ∷ "raw_sensor_ip" ∷ "source_jwt" ∷ "hmac_secret" ∷ []

unfoldable pub is_authorized :
    (String → String) → SecurityLabel → DataClassification → String → List String → Bool
unfolding contains level
is_authorized upper label user_clearance user_nation user_compartments =
    let controls = map upper label.dissemination_controls in
    if ltb (level user_clearance) (level label.classification)
    then false
    else if not (all (λ c. contains c user_compartments) label.compartments)
    then false
    else if (contains "CANADIAN_EYES_ONLY" controls || contains "CEO" controls)
        && not (str_eq user_nation "CAN")
    then false
    else if (contains "CAN_US_FVEY" controls || contains "REL_TO_FVEY" controls)
        && not (contains user_nation five_eyes_nations)
    then false
    else if contains "NOFORN" controls && not (str_eq user_nation label.owner_nation)
    then false
    else if contains "REL_TO_CAN" controls
        && (not (str_eq user_nation "CAN") && not (str_eq user_nation label.owner_nation))
    then false
    else not (
        not (is_empty label.releasable_to)
        && (not (contains user_nation label.releasable_to)
            && not (str_eq user_nation label.owner_nation)))

pub data TransferRejection : Type 0 where
  downgrade_prohibited : DataClassification → DataClassification → TransferRejection
  controls_violated : String → List String → TransferRejection

pub record CrossDomainTransferResult (V : Type 0) : Type 0 where
  pub allowed : Bool
  pub source_classification : DataClassification
  pub target_classification : DataClassification
  pub sanitized_fields : List String
  pub rejection_reasons : List TransferRejection
  pub sanitized_payload : List (String × V)

module _ {V : Type 0} where
  unfoldable pub lookup : String → List (String × V) → Option V
  lookup key [] = none
  lookup key ((k, v) ∷ rest) = let found = lookup key rest in if str_eq key k then some v else found

  -- sanitized.pop(key)
  unfoldable pub pop : String → List (String × V) → List (String × V)
  pop key [] = []
  pop key ((k, v) ∷ rest) =
      let rest' = pop key rest in if str_eq key k then rest' else (k, v) ∷ rest'

  -- The loop over the sensitive keys: the fields that are taken out, and what is left.
  unfoldable pub sanitize : List String → List (String × V) → List String × List (String × V)
  unfolding lookup pop
  sanitize [] payload = ([], payload)
  sanitize (key ∷ keys) payload =
      let present = is_some (lookup key payload) in
      let (fields, left) = sanitize keys (if present then pop key payload else payload) in
      (if present then key ∷ fields else fields, left)

  abbrev pub rejected :
      DataClassification → DataClassification → TransferRejection → CrossDomainTransferResult V
  rejected source target reason = record {
    allowed = false;
    source_classification = source;
    target_classification = target;
    sanitized_fields = [];
    rejection_reasons = reason ∷ [];
    sanitized_payload = [];
  }

  unfoldable pub filter_payload :
      (String → String)
      → List (String × V)
      → SecurityLabel
      → DataClassification
      → String
      → List String
      → CrossDomainTransferResult V
  unfolding is_authorized sanitize
  filter_payload upper payload label target_clearance target_nation target_compartments =
      let (fields, left) = sanitize sensitive_keys payload in
      if ltb (level target_clearance) (level label.classification)
      then rejected label.classification target_clearance
          (downgrade_prohibited label.classification target_clearance)
      else if not (is_authorized upper label target_clearance target_nation target_compartments)
      then rejected label.classification target_clearance
          (controls_violated target_nation label.dissemination_controls)
      else record {
        allowed = true;
        source_classification = label.classification;
        target_classification = target_clearance;
        sanitized_fields = fields;
        rejection_reasons = [];
        sanitized_payload = left;
      }
