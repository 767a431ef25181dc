-- ===== src/Caches/Keys.antt =====
-- The keys of a map: listed once each, and never more than a list that has them all.
use rusty_provider.Prelude.{
  suc, ◌≤◌, List, [], ◌∷◌, Map, if◌then◌else◌, lookup, insert, remove, contains, contains_key,
  length, ◌==◌, Eq, true, false, ◌≡◌, refl, arith, map, ◌||◌, beq_refl, ◌≢◌,
}

module _ {ℓ} {K : Type ℓ} ⦃e : Eq K⦄ where
  -- The keys are listed once each.
  abbrev pub IsDistinct : List K → Type 0
  IsDistinct [] = Unit
  IsDistinct (k ∷ ks) = (contains ks k ≡ false) × IsDistinct ks

  -- The list without its first copy of the key.
  erase : K → List K → List K
  erase k [] = []
  erase k (j ∷ ks) = if j == k then ks else j ∷ erase k ks

  length-erase :
      (k : K) (ks : List K) → contains ks k ≡ true → suc (length (erase k ks)) ≡ length ks
  unfolding erase
  length-erase k [] h = absurd (ground arith)
  length-erase k (j ∷ ks) h = ground (arith, length-erase k ks)

  contains-erase :
      (k j : K) (ks : List K) → k ≢ j → contains ks j ≡ true → contains (erase k ks) j ≡ true
  unfolding erase
  contains-erase k j [] ne h = h
  contains-erase k j (i ∷ ks) ne h =
      ground (arith, contains-erase k j ks ne, e.beq_iff i k, e.beq_iff i j)

  -- Distinct keys that all stand in another list are no more than its elements.
  pub length-le_of_subset :
      (ks os : List K)
      → IsDistinct ks
      → ((k : K) → contains ks k ≡ true → contains os k ≡ true)
      → length ks ≤ length os
  length-le_of_subset [] os d sub = omega arith
  length-le_of_subset (k ∷ ks) os (fresh, d) sub =
      let found = sub k (ground (arith, beq_refl k)) in
      omega (
        arith,
        length-erase k os found,
        length-le_of_subset ks (erase k os) d (λ j h.
            contains-erase k j os (λ same. ground (arith, fresh, h, same))
              (sub j (ground (arith, h)))),
      )

module _ {ℓ} {K V : Type ℓ} ⦃e : Eq K⦄ where
  abbrev pub keys : Map K V → List K
  keys m = map (λ kv. kv.0) m

  pub length-keys : (m : Map K V) → length (keys m) ≡ length m
  length-keys [] = refl
  length-keys (kv ∷ m) = omega (arith, length-keys m)

  pub contains-keys : (k : K) (m : Map K V) → contains (keys m) k ≡ contains_key k m
  unfolding lookup
  contains-keys k [] = refl
  contains-keys k ((j, v) ∷ m) = ground (arith, contains-keys k m)

  contains-keys-insert :
      (k j : K) (v : V) (m : Map K V)
      → contains (keys (insert k v m)) j ≡ (k == j || contains (keys m) j)
  unfolding insert
  contains-keys-insert k j v [] = ground arith
  contains-keys-insert k j v ((i, w) ∷ m) =
      ground (arith, contains-keys-insert k j v m, e.beq_iff i k, e.beq_iff i j, e.beq_iff k j)

  pub IsDistinct-insert :
      (k : K) (v : V) (m : Map K V) → IsDistinct (keys m) → IsDistinct (keys (insert k v m))
  unfolding insert
  IsDistinct-insert k v [] d = (refl, tt)
  IsDistinct-insert k v ((i, w) ∷ m) (fresh, d) =
      ground (
        arith,
        IsDistinct-insert k v m d,
        contains-keys-insert k i v m,
        e.beq_iff i k,
        e.beq_iff k i,
      )

  contains-keys-remove :
      (k j : K) (m : Map K V) → contains (keys m) j ≡ false → contains (keys (remove k m)) j ≡ false
  unfolding remove
  contains-keys-remove k j [] h = refl
  contains-keys-remove k j ((i, w) ∷ m) h = ground (arith, contains-keys-remove k j m)

  pub IsDistinct-remove :
      (k : K) (m : Map K V) → IsDistinct (keys m) → IsDistinct (keys (remove k m))
  unfolding remove
  IsDistinct-remove k [] d = tt
  IsDistinct-remove k ((i, w) ∷ m) (fresh, d) =
      ground (arith, IsDistinct-remove k m d, contains-keys-remove k i m fresh)
