-- ===== src/Core/Tests.antt =====
-- Examples for the rate limiter.
use rusty_provider.Prelude.{String, [], ◌∷◌, Map, lookup, string_eq, ◌≡◌, ◌≢◌, arith}
use rusty_provider.Samples.{nat_platform, nat_laws}
use rusty_provider.Core.RateLimit.{TokenBucket, check}
use rusty_provider.Core.RateLimit.Bounds.{AllWithin, check-AllWithin}

abbrev buckets : Map String (TokenBucket nat_platform)
buckets = ("a", record { capacity = 60; tokens = 12; last_refill = 0 }) ∷ []

buckets-AllWithin : AllWithin buckets
unfolding lookup
buckets-AllWithin k b found = ground arith

check-AllWithin_example :
    AllWithin (check buckets "b" 120 2_000_000_000).0
    × ((j : String) → j ≢ "b" → lookup j (check buckets "b" 120 2_000_000_000).0 ≡ lookup j buckets)
check-AllWithin_example = check-AllWithin nat_laws buckets "b" 120 2_000_000_000 buckets-AllWithin
