-- ===== src/Chain/Sort.antt =====
-- The standard library's stable sort (`sort_by`, `sort_by_key`): insertion of each element before
-- the first element that is not less than it.
use rusty_provider.Prelude.{
  List, [], ◌∷◌, ◌++◌, Bool, true, not, if◌then◌else◌, retain, All, ◌≡◌, refl, arith, Bool-cases,
  inl, inr, ◌⊎◌, ◌&&◌,
}
use mathlib.Core.List.{Perm}
use mathlib.Core.List.Perm

module _ {ℓ} {A : Type ℓ} where
  -- `le a b` is that the comparison of a with b is not `Greater`.
  unfoldable pub insert_by : (A → A → Bool) → A → List A → List A
  insert_by le x [] = x ∷ []
  insert_by le x (y ∷ ys) = if le x y then x ∷ y ∷ ys else y ∷ insert_by le x ys

  unfoldable pub sort_by : (A → A → Bool) → List A → List A
  unfolding insert_by
  sort_by le [] = []
  sort_by le (x ∷ xs) = insert_by le x (sort_by le xs)

  -- Each element is not greater than any that comes later.
  abbrev pub IsSorted : (A → A → Bool) → List A → Type ℓ
  IsSorted le [] = Unit
  IsSorted le (x ∷ xs) = All (λ y. le x y ≡ true) xs × IsSorted le xs

  module _ (le : A → A → Bool) where
    insert_by-Perm : (x : A) (xs : List A) → Perm (insert_by le x xs) (x ∷ xs)
    unfolding insert_by
    insert_by-Perm x [] = Perm.refl (x ∷ [])
    insert_by-Perm x (y ∷ ys) = elim (Bool-cases (le x y)) [
      | inl first ↦ rw first (Perm.refl (x ∷ y ∷ ys))
      | inr later ↦ rw later (Perm.trans (Perm.cons y (insert_by-Perm x ys)) (Perm.swap x y ys))
    ]

    -- A sort keeps the elements.
    pub sort_by-Perm : (xs : List A) → Perm (sort_by le xs) xs
    unfolding sort_by
    sort_by-Perm [] = Perm.refl []
    sort_by-Perm (x ∷ xs) =
        Perm.trans (insert_by-Perm x (sort_by le xs)) (Perm.cons x (sort_by-Perm xs))

    pub All-insert_by :
        (Q : A → Type 0) (x : A) (xs : List A) → Q x → All Q xs → All Q (insert_by le x xs)
    unfolding insert_by
    All-insert_by Q x [] q h = (q, tt)
    All-insert_by Q x (y ∷ ys) q (p, h) = ground (arith, All-insert_by Q x ys q h)

    -- What holds of all elements holds of all elements of the sorted list.
    pub All-sort_by : (Q : A → Type 0) (xs : List A) → All Q xs → All Q (sort_by le xs)
    unfolding sort_by
    All-sort_by Q [] h = tt
    All-sort_by Q (x ∷ xs) (q, h) = All-insert_by Q x (sort_by le xs) q (All-sort_by Q xs h)

    module _ (total : (a b : A) → (le a b ≡ true) ⊎ (le b a ≡ true))
        (trans : (a b c : A) → le a b ≡ true → le b c ≡ true → le a c ≡ true) where
      All-le_trans :
          (x y : A) (ys : List A)
          → le x y ≡ true
          → All (λ z. le y z ≡ true) ys
          → All (λ z. le x z ≡ true) ys
      All-le_trans x y [] h hs = tt
      All-le_trans x y (z ∷ zs) h (p, hs) = (trans x y z h p, All-le_trans x y zs h hs)

      All-insert_by_le :
          (w x : A) (ys : List A)
          → le w x ≡ true
          → All (λ z. le w z ≡ true) ys
          → All (λ z. le w z ≡ true) (insert_by le x ys)
      unfolding insert_by
      All-insert_by_le w x [] h hs = (h, tt)
      All-insert_by_le w x (y ∷ ys) h (p, hs) = ground (arith, All-insert_by_le w x ys h hs)

      insert_by-IsSorted : (x : A) (xs : List A) → IsSorted le xs → IsSorted le (insert_by le x xs)
      unfolding insert_by
      insert_by-IsSorted x [] s = (tt, tt)
      insert_by-IsSorted x (y ∷ ys) (below, s) = elim (Bool-cases (le x y)) [
        | inl first ↦ rw first ((first, All-le_trans x y ys first below), (below, s))
        | inr later ↦
            let other : le y x ≡ true = ground (arith, total x y) in
            rw later (All-insert_by_le y x ys other below, insert_by-IsSorted x ys s)
      ]

      -- A sort by a total order puts the elements in order.
      pub sort_by-IsSorted : (xs : List A) → IsSorted le (sort_by le xs)
      unfolding sort_by
      sort_by-IsSorted [] = tt
      sort_by-IsSorted (x ∷ xs) = insert_by-IsSorted x (sort_by le xs) (sort_by-IsSorted xs)

    module _ (q : A → Bool) (tied : (a b : A) → q a ≡ true → q b ≡ true → le a b ≡ true) where
      retain-insert_by :
          (x : A) (xs : List A)
          → retain q (insert_by le x xs) ≡ (if q x then x ∷ retain q xs else retain q xs)
      unfolding insert_by
      retain-insert_by x [] = refl
      retain-insert_by x (y ∷ ys) = ground (arith, tied x y, retain-insert_by x ys)

      -- Elements that tie with one another keep their order.
      pub retain-sort_by : (xs : List A) → retain q (sort_by le xs) ≡ retain q xs
      unfolding sort_by
      retain-sort_by [] = refl
      retain-sort_by (x ∷ xs) =
          ground (arith, retain-insert_by x (sort_by le xs), retain-sort_by xs)

-- `sort_by_key` with a Boolean key: `false` before `true`.
abbrev pub key_le {ℓ} : {A : Type ℓ} → (A → Bool) → A → A → Bool
key_le key a b = not (key a && not (key b))

module _ {ℓ} {A : Type ℓ} (key : A → Bool) where
  -- An element goes to the head of its half.
  insert_by-key_le :
      (x : A) (xs ys : List A)
      → insert_by (key_le key) x (retain (λ z. not (key z)) xs ++ retain key ys) ≡ (
          if key x
          then retain (λ z. not (key z)) xs ++ x ∷ retain key ys
          else x ∷ (retain (λ z. not (key z)) xs ++ retain key ys))
  unfolding insert_by
  insert_by-key_le x [] [] = ground arith
  insert_by-key_le x [] (y ∷ ys) = ground (arith, insert_by-key_le x [] ys)
  insert_by-key_le x (z ∷ xs) ys = ground (arith, insert_by-key_le x xs ys)

  -- A sort by a Boolean key is a stable partition.
  pub sort_by-key_le :
      (xs : List A) → sort_by (key_le key) xs ≡ retain (λ z. not (key z)) xs ++ retain key xs
  unfolding sort_by
  sort_by-key_le [] = refl
  sort_by-key_le (x ∷ xs) = ground (arith, sort_by-key_le xs, insert_by-key_le x xs xs)
