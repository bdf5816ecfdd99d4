-- ===== src/Sovereign/Examples.antt =====
-- A secret label that keeps foreigners out.
use continuityos.Prelude.{
  ℕ, String, List, [], ◌∷◌, ◌≡◌, refl, true, false, not, ◌&&◌, none, ◌↔◌, if◌then◌else◌,
}
use continuityos.Domain.{secret}
use continuityos.Sovereign.{SecurityLabel, contains, sensitive_keys, lookup, filter_payload}
use continuityos.Sovereign.Filter.{MayReceive, filter_payload-MayReceive}

abbrev label : SecurityLabel
label = record {
  classification = secret;
  compartments = "ice" ∷ [];
  dissemination_controls = "NOFORN" ∷ [];
  releasable_to = [];
  owner_nation = "CAN";
}

abbrev payload : List (String × ℕ)
payload = ("depth", 4) ∷ ("hmac_secret", 9) ∷ []

sent_home :
    (filter_payload (λ c. c) payload label secret "CAN" ("ice" ∷ [])).sanitized_payload
    ≡ ("depth", 4) ∷ []
unfolding filter_payload
sent_home = refl

not_sent_abroad : (filter_payload (λ c. c) payload label secret "USA" ("ice" ∷ [])).allowed ≡ false
unfolding filter_payload
not_sent_abroad = refl

filter_payload-MayReceive_example :
    let result = filter_payload (λ c. c) payload label secret "CAN" ("ice" ∷ []) in
    ((result.allowed ≡ true) ↔ MayReceive (λ c. c) label secret "CAN" ("ice" ∷ []))
    × ((key : String)
        → lookup key result.sanitized_payload ≡ (
            if result.allowed && not (contains key sensitive_keys)
            then lookup key payload
            else none))
filter_payload-MayReceive_example =
    filter_payload-MayReceive (λ c. c) label secret "CAN" ("ice" ∷ []) payload
