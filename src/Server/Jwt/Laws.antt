-- ===== src/Server/Jwt/Laws.antt =====
-- What a bearer token that passes was signed with.
use rusty_provider.Prelude.{
  ℕ, ◌-◌, String, Option, none, some, List, [], ◌∷◌, Map, ltb, ◌≡◌, refl, if_both, sym, ap, ◌∙◌,
  lookup, string_eq,
}
use rusty_provider.Server.Jwt.{
  Jwk, JsonWebToken, rs256, Cache, Verifier, jwks_mode, collect_keys, fetch_jwks, cached_key,
  jwks_key, verification_key, verify,
}

module _ (L : JsonWebToken) (url : String) where
  -- A document that the endpoint serves at some time, and the cache of such a document's keys.
  abbrev pub Served : List Jwk → Type 0
  Served doc = (w : L.World) × ((L.get url w).1 ≡ some doc)

  abbrev pub IsServed : Cache L → Type 0
  IsServed none = Unit
  IsServed (some (fetched_at, keys)) =
      (doc : List Jwk) × Served doc × (keys ≡ collect_keys L doc [])

  -- The key of a key id in a document that is served.
  abbrev pub IsServedKey : String → L.DecodingKey → Type 0
  IsServedKey kid key =
      (doc : List Jwk) × Served doc × (lookup kid (collect_keys L doc []) ≡ some key)

  -- A key that was found is served, if any was.
  abbrev AreServed : String → Option L.DecodingKey → Type 0
  AreServed kid none = Unit
  AreServed kid (some key) = IsServedKey kid key

  lookup-AreServed :
      (kid : String) (doc : List Jwk) (keys : Map String L.DecodingKey)
      → Served doc
      → keys ≡ collect_keys L doc []
      → (found : Option L.DecodingKey) → lookup kid keys ≡ found
      → AreServed kid found
  lookup-AreServed kid doc keys served all none is = tt
  lookup-AreServed kid doc keys served all (some key) is =
      (doc, served, ap (lookup kid) (sym all) ∙ is)

  cached_key-AreServed :
      (cache_ttl now : ℕ) (kid : String) (cache : Cache L)
      → IsServed cache
      → AreServed kid (cached_key L cache_ttl now kid cache)
  unfolding cached_key
  cached_key-AreServed cache_ttl now kid none served = tt
  cached_key-AreServed cache_ttl now kid (some (fetched_at, keys)) (doc, served, all) =
      if_both (AreServed kid) (ltb (now - fetched_at) cache_ttl)
        (lookup-AreServed kid doc keys served all (lookup kid keys) refl) tt

  -- A state after the search for a key: the cache and the key are served.
  abbrev AreFound : String → L.World × Cache L × Option L.DecodingKey → Type 0
  AreFound kid (w, cache, found) = IsServed cache × AreServed kid found

  fetched-AreFound :
      (kid : String) (w w' : L.World) (cache : Cache L) (answer : Option (List Jwk))
      → (L.get url w).1 ≡ answer
      → IsServed cache
      → AreFound kid
          (elim (elim answer as (λ o. Option (Map String L.DecodingKey)) [
            | none ↦ none
            | some keys ↦ some (collect_keys L keys [])
          ])
            as (λ o. L.World × Cache L × Option L.DecodingKey) [
              | none ↦ (w', cache, none)
              | some keys ↦ (w', some (L.now w', keys), lookup kid keys)
            ])
  fetched-AreFound kid w w' cache none is served = (served, tt)
  fetched-AreFound kid w w' cache (some doc) is served =
      ((doc, (w, is), refl), lookup-AreServed kid doc (collect_keys L doc []) (w, is) refl _ refl)

  jwks_key-AreFound :
      (cache_ttl : ℕ) (kid : String) (w : L.World) (cache : Cache L)
      → IsServed cache
      → AreFound kid (jwks_key L url cache_ttl kid w cache)
  unfolding jwks_key fetch_jwks
  jwks_key-AreFound cache_ttl kid w cache served =
      from_cache (cached_key L cache_ttl (L.now w) kid cache)
        (cached_key-AreServed cache_ttl (L.now w) kid cache served)
    where
      from_cache :
          (found : Option L.DecodingKey)
          → AreServed kid found
          → AreFound kid (elim found as (λ o. L.World × Cache L × Option L.DecodingKey) [
            | some key ↦ (w, cache, some key)
            | none ↦
                let (w', fetched) = fetch_jwks L url w in
                elim fetched as (λ o. L.World × Cache L × Option L.DecodingKey) [
                  | none ↦ (w', cache, none)
                  | some keys ↦ (w', some (L.now w', keys), lookup kid keys)
                ]
          ])
      from_cache none is = fetched-AreFound kid w (L.get url w).0 cache (L.get url w).1 refl served
      from_cache (some key) is = (served, is)

-- A verifier in the JWKS mode.
abbrev pub jwks_verifier :
    (L : JsonWebToken) (url : String) (cache_ttl : ℕ) (issuer audience client_claim : Option String)
    → Verifier L
jwks_verifier L url cache_ttl issuer audience client_claim = record {
  mode = jwks_mode url cache_ttl;
  issuer = issuer;
  audience = audience;
  client_claim = client_claim;
}

-- The world and the cache after some tokens, the first one first.
unfoldable pub after_tokens :
    (L : JsonWebToken) → Verifier L → List String → L.World × Cache L → L.World × Cache L
after_tokens L v [] s = s
after_tokens L v (t ∷ ts) (w, cache) =
    let (w', cache', claims) = verify L v t w cache in after_tokens L v ts (w', cache')

-- A token decodes under RS256 and the key that a served document has for the token's key id.
abbrev pub IsSigned :
    (L : JsonWebToken) (url : String) (issuer audience : Option String) → String → L.Claims → Type 0
IsSigned L url issuer audience token claims =
    (kid : String) × (key : L.DecodingKey) × (L.header_kid token ≡ some (some kid))
    × IsServedKey L url kid key
    × (L.decode rs256 issuer audience key token ≡ some claims)

module _ (L : JsonWebToken) (url : String) (cache_ttl : ℕ)
    (issuer audience client_claim : Option String) where
  abbrev v : Verifier L
  v = jwks_verifier L url cache_ttl issuer audience client_claim

  -- The key that was found for a token is one that a served document has for the token's key id.
  abbrev IsSigner : String → Option L.DecodingKey → Type 0
  IsSigner token none = Unit
  IsSigner token (some key) =
      (kid : String) × (L.header_kid token ≡ some (some kid)) × IsServedKey L url kid key

  IsSigner-named :
      (token kid : String) (found : Option L.DecodingKey)
      → L.header_kid token ≡ some (some kid)
      → AreServed L url kid found
      → IsSigner token found
  IsSigner-named token kid none names is = tt
  IsSigner-named token kid (some key) names is = (kid, names, is)

  verification_key-IsSigner :
      (token : String) (w : L.World) (cache : Cache L)
      → IsServed L url cache
      → let after = verification_key L (jwks_mode url cache_ttl) token w cache in
        IsServed L url after.1 × IsSigner token after.2
  unfolding verification_key
  verification_key-IsSigner token w cache served = by_header (L.header_kid token) refl
    where
      by_header :
          (header : Option (Option String))
          → L.header_kid token ≡ header
          → let after = elim header as (λ o. L.World × Cache L × Option L.DecodingKey) [
            | none ↦ (w, cache, none)
            | some kid ↦ elim kid as (λ o. L.World × Cache L × Option L.DecodingKey) [
              | none ↦ (w, cache, none)
              | some k ↦ jwks_key L url cache_ttl k w cache
            ]
          ] in
            IsServed L url after.1 × IsSigner token after.2
      by_header none is = (served, tt)
      by_header (some none) is = (served, tt)
      by_header (some (some kid)) is =
          let found = jwks_key-AreFound L url cache_ttl kid w cache served in
          (found.0, IsSigner-named token kid _ is found.1)

  verify-IsServed :
      (token : String) (w : L.World) (cache : Cache L)
      → IsServed L url cache
      → IsServed L url (verify L v token w cache).1
  unfolding verify
  verify-IsServed token w cache served = (verification_key-IsSigner token w cache served).0

  after_tokens-IsServed :
      (tokens : List String) (w : L.World) (cache : Cache L)
      → IsServed L url cache
      → IsServed L url (after_tokens L v tokens (w, cache)).1
  unfolding after_tokens
  after_tokens-IsServed [] w cache served = served
  after_tokens-IsServed (t ∷ ts) w cache served =
      let after = verify L v t w cache in
      after_tokens-IsServed ts after.0 after.1 (verify-IsServed t w cache served)

  decoded-IsSigned :
      (token : String) (claims : L.Claims) (found : Option L.DecodingKey)
      → IsSigner token found
      → (elim found as (λ o. Option L.Claims) [
        | none ↦ none
        | some key ↦ L.decode rs256 issuer audience key token
      ])
        ≡ some claims
      → IsSigned L url issuer audience token claims
  decoded-IsSigned token claims none is passes = cc
  decoded-IsSigned token claims (some key) (kid, names, is) passes = (kid, key, names, is, passes)

  verify-IsSigned :
      (token : String) (w : L.World) (cache : Cache L)
      → IsServed L url cache
      → (claims : L.Claims) → (verify L v token w cache).2 ≡ some claims
      → IsSigned L url issuer audience token claims
  unfolding verify
  verify-IsSigned token w cache served claims passes =
      decoded-IsSigned token claims _ (verification_key-IsSigner token w cache served).1 passes

  -- Whatever tokens a JWKS verifier has seen since it started with an empty cache, a token that passes
  -- names a key id, for which the RSA entries of a document that the endpoint serves have a key, and
  -- decodes to its claims under that key, the algorithm RS256 and the configured issuer and audience.
  pub verify-IsSigned_run :
      (earlier : List String) (w : L.World) (token : String) (claims : L.Claims)
      → let before = after_tokens L v earlier (w, none) in
        (verify L v token before.0 before.1).2 ≡ some claims
        → IsSigned L url issuer audience token claims
  verify-IsSigned_run earlier w token claims passes =
      let before = after_tokens L v earlier (w, none) in
      verify-IsSigned token before.0 before.1 (after_tokens-IsServed earlier w none tt) claims
        passes
