-- ===== src/Security/Access.antt =====
-- The API key check of security.py.
use continuityos.Prelude.{
  refl, String, eq_iff, ◌≡◌, ◌≢◌, ◌↔◌, Bool, true, Option, none, some, arith,
}
use continuityos.Security.{Settings, accepted, require_api_key}

-- Who may pass: with no key configured, anyone outside production; else whoever supplies the key.
pub data MayPass (s : Settings) (supplied : String) : Type 0 where
  open_deployment : s.api_key ≡ none → s.environment ≢ "production" → MayPass s supplied
  has_key : supplied ≢ "" → s.api_key ≡ some supplied → MayPass s supplied

module _ (compare_digest : String → String → Bool)
    (compares : (a b : String) → (compare_digest a b ≡ true) ↔ (a ≡ b)) where
  -- A request passes the API key check exactly if no key is configured and the deployment is not
  -- production, or the key that it supplies is not empty and is the configured one.
  require_api_key-MayPass :
      (s : Settings) (supplied : String)
      → (require_api_key compare_digest s supplied ≡ accepted) ↔ MayPass s supplied
  unfolding require_api_key
  require_api_key-MayPass s supplied = (passes (s.api_key) refl, may)
    where
      passes :
          (k : Option String)
          → s.api_key ≡ k
          → require_api_key compare_digest s supplied ≡ accepted
          → MayPass s supplied
      passes none e h = open_deployment e (λ p. ground (arith, eq_iff s.environment "production"))
      passes (some c) e h =
          has_key (λ p. ground (arith, eq_iff supplied ""))
            (ground (arith, (compares supplied c).0))

      may : MayPass s supplied → require_api_key compare_digest s supplied ≡ accepted
      may (open_deployment e ne) = ground (arith, eq_iff s.environment "production")
      may (has_key ne e) = ground (arith, eq_iff supplied "", (compares supplied supplied).1 refl)
