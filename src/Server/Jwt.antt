-- ===== src/Server/Jwt.antt =====
-- The verification of bearer tokens in `crates/server/src/jwt.rs`. The `jsonwebtoken` crate and the
-- request to the JWKS endpoint are parameters; times are nanoseconds.
pub mod Laws
mod Tests
use rusty_provider.Prelude.{
  ℕ, ◌-◌, String, Option, none, some, List, [], ◌∷◌, Map, Bool, if◌then◌else◌, ltb, ◌==◌, lookup,
  insert, string_eq,
}
use rusty_provider.Caches.Response.{from_secs}
use rusty_provider.Server.State.{JwtLibrary}

pub data Algorithm : Type 0 where
  hs256 : Algorithm
  rs256 : Algorithm

pub record Jwk : Type 0 where
  pub kty : String
  pub kid : Option String
  pub n : Option String
  pub e : Option String

pub record JwtConfig : Type 0 where
  pub jwks_url : Option String
  pub hs256_secret_env : Option String
  pub issuer : Option String
  pub audience : Option String
  pub jwks_cache_secs : ℕ
  pub client_claim : Option String

-- The crate: keys, the key id in a token's header (none if the header cannot be read), and the
-- decoding under an algorithm, an issuer, an audience and a key. The world has the clock and the
-- endpoint, whose answer is none unless it is a JWKS document.
pub record JsonWebToken : Type 1 where
  pub DecodingKey : Type 0
  pub Claims : Type 0
  pub World : Type 0
  pub from_secret : String → DecodingKey
  pub from_rsa_components : (n e : String) → Option DecodingKey
  pub header_kid : (token : String) → Option (Option String)
  pub decode :
      Algorithm → (issuer audience : Option String) → DecodingKey → (token : String) → Option Claims
  pub claim_as_str : Claims → (claim : String) → Option String
  pub now : World → ℕ
  pub get : (url : String) → World → World × Option (List Jwk)

-- The cached keys of a JWKS document, with the time they were fetched.
abbrev pub Cache : JsonWebToken → Type 0
Cache L = Option (ℕ × Map String L.DecodingKey)

-- The mode, without the cache, which is passed through.
pub data Mode (L : JsonWebToken) : Type 0 where
  hs256_mode : L.DecodingKey → Mode L
  jwks_mode : (url : String) → (cache_ttl : ℕ) → Mode L

pub record Verifier (L : JsonWebToken) : Type 0 where
  pub mode : Mode L
  pub issuer : Option String
  pub audience : Option String
  pub client_claim : Option String

-- `JwtVerifier::new`; the secret is the one read from the environment.
unfoldable pub new_verifier :
    (L : JsonWebToken) → JwtConfig → (hs256_secret : Option String) → Option (Verifier L)
new_verifier L cfg hs256_secret =
    let verifier : Mode L → Verifier L = λ mode. record {
      mode = mode;
      issuer = cfg.issuer;
      audience = cfg.audience;
      client_claim = cfg.client_claim;
    } in
    elim hs256_secret [
      | some secret ↦ some (verifier (hs256_mode (L.from_secret secret)))
      | none ↦ elim cfg.jwks_url [
        | some url ↦ some (verifier (jwks_mode url (from_secs cfg.jwks_cache_secs)))
        | none ↦ none
      ]
    ]

module _ (L : JsonWebToken) where
  -- The key of an entry, unless the entry is skipped.
  unfoldable pub rsa_key : Jwk → Option (String × L.DecodingKey)
  rsa_key k =
      if k.kty == "RSA"
      then (elim k.kid [
        | none ↦ none
        | some kid ↦ elim k.n [
          | none ↦ none
          | some n ↦ elim k.e [
            | none ↦ none
            | some e ↦ elim (L.from_rsa_components n e) [ none ↦ none | some key ↦ some (kid, key) ]
          ]
        ]
      ])
      else none

  -- The entries collected into a map that has some already: a later entry of a key id wins.
  unfoldable pub collect_keys : List Jwk → Map String L.DecodingKey → Map String L.DecodingKey
  unfolding rsa_key
  collect_keys [] keys = keys
  collect_keys (k ∷ ks) keys = elim (rsa_key k) [
    | none ↦ collect_keys ks keys
    | some (kid, key) ↦ collect_keys ks (insert kid key keys)
  ]

  unfoldable pub fetch_jwks : (url : String) → L.World → L.World × Option (Map String L.DecodingKey)
  unfolding collect_keys
  fetch_jwks url w =
      let (w', answer) = L.get url w in
      (w', elim answer [ none ↦ none | some keys ↦ some (collect_keys keys []) ])

  -- The key of a key id in a cache that has not expired.
  unfoldable pub cached_key : (cache_ttl now : ℕ) → (kid : String) → Cache L → Option L.DecodingKey
  cached_key cache_ttl now kid none = none
  cached_key cache_ttl now kid (some (fetched_at, keys)) =
      if ltb (now - fetched_at) cache_ttl then lookup kid keys else none

  unfoldable pub jwks_key :
      (url : String)
      → (cache_ttl : ℕ) → (kid : String) → L.World
      → Cache L
      → L.World × Cache L × Option L.DecodingKey
  unfolding cached_key fetch_jwks
  jwks_key url cache_ttl kid w cache = elim (cached_key cache_ttl (L.now w) kid cache) [
    | some key ↦ (w, cache, some key)
    | none ↦
        let (w', fetched) = fetch_jwks url w in
        elim fetched [
          | none ↦ (w', cache, none)
          | some keys ↦ (w', some (L.now w', keys), lookup kid keys)
        ]
  ]

  -- The key that a token is decoded with. The cache is only read in the JWKS mode.
  unfoldable pub verification_key :
      Mode L → (token : String) → L.World → Cache L → L.World × Cache L × Option L.DecodingKey
  unfolding jwks_key
  verification_key (hs256_mode key) token w cache = (w, cache, some key)
  verification_key (jwks_mode url cache_ttl) token w cache = elim (L.header_kid token) [
    | none ↦ (w, cache, none)
    | some kid ↦ elim kid [ none ↦ (w, cache, none) | some k ↦ jwks_key url cache_ttl k w cache ]
  ]

  abbrev pub algorithm : Mode L → Algorithm
  algorithm (hs256_mode key) = hs256
  algorithm (jwks_mode url cache_ttl) = rs256

  unfoldable pub verify :
      Verifier L → (token : String) → L.World → Cache L → L.World × Cache L × Option L.Claims
  unfolding verification_key
  verify v token w cache =
      let (w', cache', found) = verification_key v.mode token w cache in
      (
        w',
        cache',
        elim found [
          | none ↦ none
          | some key ↦ L.decode (algorithm v.mode) v.issuer v.audience key token
        ],
      )

  -- What the handlers use of a verifier, as it answers in one world with one cache.
  abbrev pub jwt_library : Verifier L → L.World → Cache L → JwtLibrary
  jwt_library v w cache = record {
    Claims = L.Claims;
    verify = λ token. (verify v token w cache).2;
    claim_as_str = L.claim_as_str;
  }
