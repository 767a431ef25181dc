-- ===== src/Caches/Fifo/Laws.antt =====
-- What an insertion into the queue-and-map cache does to its contents, and the invariant that ties
-- the queue to the map.
use rusty_provider.Prelude.{
  ℕ, ◌+◌, ◌≤◌, ◌<◌, List, [], ◌∷◌, ◌++◌, Eq, ◌==◌, lookup, contains_key, contains, length,
  length-append, ltb, Option, none, some, if◌then◌else◌, ◌≡◌, ◌≢◌, refl, true, false, arith,
  lookup-insert, lookup-remove, ◌||◌,
}
use rusty_provider.Caches.Keys.{IsDistinct, keys, IsDistinct-insert, IsDistinct-remove}
use rusty_provider.Caches.Fifo.{Fifo, put, get}

module _ {ℓ} {K : Type ℓ} ⦃e : Eq K⦄ where
  pub contains-append :
      (ks : List K) (k j : K) → contains (ks ++ k ∷ []) j ≡ (contains ks j || (k == j))
  contains-append [] k j = ground arith
  contains-append (i ∷ ks) k j = ground (arith, contains-append ks k j)

  pub IsDistinct-append :
      (ks : List K) (k : K) → IsDistinct ks → contains ks k ≡ false → IsDistinct (ks ++ k ∷ [])
  IsDistinct-append [] k d h = (refl, tt)
  IsDistinct-append (i ∷ ks) k (fresh, d) h = (
    ground (arith, contains-append ks k i, e.beq_iff k i, e.beq_iff i k),
    IsDistinct-append ks k d (ground arith),
  )

module _ {ℓ} {K V : Type ℓ} ⦃e : Eq K⦄ where
  -- The queue holds exactly the keys of the map, each once, and no more than the capacity.
  pub record IsExact (capacity : ℕ) (c : Fifo K V) : Type ℓ where
    pub bounded : length c.order ≤ capacity
    pub distinct : IsDistinct c.order
    pub listed : (k : K) → contains_key k c.entries ≡ contains c.order k

  -- The key that an insertion evicts, if any: the front of the queue, when the key is new and the
  -- queue is full.
  unfoldable pub victim : ℕ → K → Fifo K V → Option K
  victim capacity key c =
      if contains_key key c.entries
      then none
      else if ltb (length c.order) capacity
      then none
      else elim c.order [ [] ↦ none | o ∷ ks ↦ some o ]

  -- The queue after an insertion.
  unfoldable pub order_after : ℕ → K → Fifo K V → List K
  order_after capacity key c =
      if contains_key key c.entries
      then c.order
      else if ltb (length c.order) capacity
      then c.order ++ key ∷ []
      else elim c.order [ [] ↦ [] | o ∷ ks ↦ ks ++ key ∷ [] ]

  -- An insertion leaves the queue alone for a stored key; a new key goes to the back, and the front
  -- key leaves if the queue would be longer than its capacity.
  pub order-put :
      (capacity : ℕ) (k : K) (v : V) (c : Fifo K V)
      → (put capacity k v c).order ≡ order_after capacity k c
  unfolding put order_after
  order-put capacity k v c = ground (arith, length-append c.order (k ∷ []))

  -- With a capacity that is not 0, a lookup after an insertion gives the inserted value at its key,
  -- nothing at the key that the insertion evicts, and at every other key what was there before. An
  -- evicted key is the front of a full queue, and only a key that is not stored evicts.
  pub get-put :
      (capacity : ℕ) (k j : K) (v : V) (c : Fifo K V)
      → 0 < capacity
      → get j (put capacity k v c) ≡ (
          if k == j then some v else elim (victim capacity k c) [
            | none ↦ get j c
            | some o ↦ if o == j then none else get j c
          ])
  unfolding put get victim
  get-put capacity k j v c pos =
      grind (arith, lookup-insert k j v, lookup-remove, length-append c.order (k ∷ []))

  pub length-order-put :
      (capacity : ℕ) (k : K) (v : V) (c : Fifo K V)
      → 0 < capacity
      → length c.order ≤ capacity
      → length (put capacity k v c).order ≤ capacity
  unfolding order_after
  length-order-put capacity k v c pos h = rw order-put (grind (arith, length-append))

  pub IsDistinct-keys-put :
      (capacity : ℕ) (k : K) (v : V) (c : Fifo K V)
      → IsDistinct (keys c.entries)
      → IsDistinct (keys (put capacity k v c).entries)
  unfolding put
  IsDistinct-keys-put capacity k v c d = grind (arith, IsDistinct-insert, IsDistinct-remove)

  -- What the map holds after an insertion stands in the queue, if it did before.
  pub queued-put :
      (capacity : ℕ) (k j : K) (v : V) (c : Fifo K V)
      → 0 < capacity
      → ((i : K) → contains_key i c.entries ≡ true → contains c.order i ≡ true)
      → contains_key j (put capacity k v c).entries ≡ true
      → contains (put capacity k v c).order j ≡ true
  unfolding order_after victim get
  queued-put capacity k j v c pos h stored =
      rw order-put
        (grind (arith, get-put capacity k j v c, h j, h k, contains-append, e.beq_iff, stored))

  -- With a capacity that is not 0, an insertion keeps the queue and the map in step: the queue holds
  -- the stored keys, each once, and no more than the capacity.
  pub put-IsExact :
      (capacity : ℕ) (k : K) (v : V) {c : Fifo K V}
      → 0 < capacity
      → IsExact capacity c
      → IsExact capacity (put capacity k v c)
  unfolding order_after victim get
  put-IsExact capacity k v {c} pos h = record {
    bounded = rw order-put (ground (arith, h.bounded, length-append c.order (k ∷ [])));
    distinct = rw order-put (grind (arith, h.distinct, h.listed k, IsDistinct-append));
    listed = λ j. rw order-put (
        grind (
          arith,
          get-put capacity k j v c,
          h.listed j,
          h.listed k,
          h.distinct,
          contains-append,
          e.beq_iff,
        ));
  }

  -- A key that stands in the queue but not in the map is queued twice when it is inserted again,
  -- and lost again when the next new key finds the queue full.
  pub get-put_stale :
      (capacity : ℕ) (k j : K) (v w : V) (rest : List K) (c : Fifo K V)
      → c.order ≡ k ∷ rest
      → length c.order + 1 ≡ capacity
      → lookup k c.entries ≡ none
      → lookup j c.entries ≡ none
      → j ≢ k
      → get k (put capacity j w (put capacity k v c)) ≡ none
  unfolding victim get order_after
  get-put_stale capacity k j v w rest c queue full gone fresh ne = grind (
    arith,
    get-put capacity k j v c,
    get-put capacity j k w (put capacity k v c),
    order-put capacity k v c,
    length-append,
    e.beq_iff,
  )
