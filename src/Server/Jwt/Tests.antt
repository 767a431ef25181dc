-- ===== src/Server/Jwt/Tests.antt =====
-- An example for token verification: an endpoint that serves a second key after its first request. A
-- token is the name of the key that signed it.
use rusty_provider.Prelude.{
  ℕ, zero, suc, ◌+◌, String, none, some, List, [], ◌∷◌, ◌==◌, if◌then◌else◌, string_eq, lookup,
  insert, ◌≡◌, refl,
}
use rusty_provider.Server.Jwt.{
  Jwk, JsonWebToken, verify, verification_key, jwks_key, cached_key, fetch_jwks, collect_keys,
  rsa_key,
}
use rusty_provider.Server.Jwt.Laws.{jwks_verifier, after_tokens, IsSigned, verify-IsSigned_run}

abbrev jwk : String → Jwk
jwk name = record { kty = "RSA"; kid = some name; n = some name; e = some "AQAB" }

abbrev served : ℕ → List Jwk
served zero = jwk "k1" ∷ []
served (suc n) = jwk "k1" ∷ record (jwk "k3") { kty = "EC" } ∷ jwk "k2" ∷ []

abbrev library : JsonWebToken
library = record {
  DecodingKey = String;
  Claims = String;
  World = ℕ;
  from_secret = λ s. s;
  from_rsa_components = λ n e. some n;
  header_kid = λ token. some (some token);
  decode = λ a issuer audience key token. if key == token then some "alice" else none;
  claim_as_str = λ claims name. some claims;
  now = λ w. w;
  get = λ url w. (w + 1, some (served w));
}

-- The second key is found although the cache has not expired.
passes :
    let v = jwks_verifier library "https://issuer/jwks" 100 none none none in
    let before = after_tokens library v ("k1" ∷ "k3" ∷ []) (0, none) in
    (verify library v "k2" before.0 before.1).2 ≡ some "alice"
unfolding after_tokens verify verification_key jwks_key cached_key fetch_jwks collect_keys rsa_key
    lookup insert
passes = refl

verify-IsSigned_run_example : IsSigned library "https://issuer/jwks" none none "k2" "alice"
verify-IsSigned_run_example =
    verify-IsSigned_run library "https://issuer/jwks" 100 none none none ("k1" ∷ "k3" ∷ []) 0 "k2"
      "alice" passes
