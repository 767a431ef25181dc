-- ===== src/Core/RateLimit/Bounds.antt =====
-- No bucket holds more than its capacity, and what a check does to the other buckets.
use rusty_provider.Prelude.{
  ℕ, String, some, Map, lookup, string_eq, ◌==◌, true, ◌≡◌, ◌≢◌, refl, arith, lookup-insert,
  Option-cases, Bool-cases, subst, lookup-insert_self, inl, inr,
}
use rusty_provider.Platform.{Platform, PlatformLaws}
use rusty_provider.Core.RateLimit.{TokenBucket, refill, try_acquire, bucket_of, check}

module _ {P : Platform} where
  -- A bucket with a real capacity and no more tokens than it.
  abbrev pub IsWithin : TokenBucket P → Type 0
  IsWithin b = (P.le b.tokens b.capacity ≡ true) × (P.le b.capacity b.capacity ≡ true)

  -- All buckets of a limiter.
  abbrev pub AllWithin : Map String (TokenBucket P) → Type 0
  AllWithin buckets = (k : String) (b : TokenBucket P) → lookup k buckets ≡ some b → IsWithin b

  refill-IsWithin :
      (L : PlatformLaws P) (b : TokenBucket P) (now : ℕ) → IsWithin b → IsWithin (refill b now)
  unfolding refill
  refill-IsWithin L b now (h, real) = (L.fmin_le_right _ b.capacity real, real)

  refill-capacity : (b : TokenBucket P) (now : ℕ) → (refill b now).capacity ≡ b.capacity
  unfolding refill
  refill-capacity b now = refl

  try_acquire-IsWithin :
      (L : PlatformLaws P) (b : TokenBucket P) (now : ℕ)
      → IsWithin b
      → IsWithin (try_acquire b now).0 × ((try_acquire b now).0.capacity ≡ b.capacity)
  unfolding try_acquire
  try_acquire-IsWithin L b now h =
      let (within, real) = refill-IsWithin L b now h in
      ground (
        arith,
        within,
        real,
        L.sub_one_le (refill b now).tokens (refill b now).capacity within,
        refill-capacity b now,
      )

  bucket_of-IsWithin :
      (L : PlatformLaws P) (buckets : Map String (TokenBucket P)) (key : String) (rpm now : ℕ)
      → AllWithin buckets
      → IsWithin (bucket_of buckets key rpm now)
  unfolding bucket_of
  bucket_of-IsWithin L buckets key rpm now h = elim (Option-cases (lookup key buckets)) [
    | inl absent ↦ rw absent (L.of_nat_real rpm, L.of_nat_real rpm)
    | inr (b, found) ↦ rw found (h key b found)
  ]

  -- Whatever is checked, no bucket of the limiter ever holds more tokens than its capacity; a check
  -- changes the bucket of its own key only.
  pub check-AllWithin :
      (L : PlatformLaws P) (buckets : Map String (TokenBucket P)) (key : String) (rpm now : ℕ)
      → AllWithin buckets
      → AllWithin (check buckets key rpm now).0
        × ((j : String) → j ≢ key → lookup j (check buckets key rpm now).0 ≡ lookup j buckets)
  unfolding check
  check-AllWithin L buckets key rpm now h =
      let taken = (try_acquire (bucket_of buckets key rpm now) now).0 in
      let (kept, same) =
        try_acquire-IsWithin L _ now (bucket_of-IsWithin L buckets key rpm now h) in
      (
        λ k b found. elim (Bool-cases (key == k)) [
          | inl here ↦
              let e : taken ≡ b = ground (arith, lookup-insert key k taken buckets) in
              subst IsWithin e kept
          | inr there ↦ h k b (ground (arith, lookup-insert key k taken buckets))
        ],
        λ j ne. ground (arith, lookup-insert key j taken buckets, string_eq.beq_iff key j),
      )

  -- The capacity that is passed to a check counts only at the first use of the key: once a key was
  -- checked, a later check with another capacity is the same check.
  check_capacity_fixed :
      (buckets : Map String (TokenBucket P)) (key : String) (rpm rpm' now later : ℕ)
      → check (check buckets key rpm now).0 key rpm' later
        ≡ check (check buckets key rpm now).0 key rpm later
  unfolding check bucket_of
  check_capacity_fixed buckets key rpm rpm' now later =
      let bucket = (try_acquire (bucket_of buckets key rpm now) now).0 in
      rw (lookup-insert_self key bucket buckets)
