-- ===== src/Chain/Shuffle.antt =====
-- `shuffle_chain`: the Fisher-Yates shuffle behind `sort: "random"`, seeded from the clock.
use mathlib.Core.List.Perm
use mathlib.Core.List.{Perm}
use Prim.Native.Nat.{bit_xor}
use rusty_provider.Prelude.{
  ℕ, zero, suc, ◌+◌, ◌*◌, ◌/◌, ◌%◌, ◌^◌, List, [], ◌∷◌, Option, none, some, length, Option-cases,
  inl, inr, arith, ◌≡◌, refl, sym, subst,
}

module _ {ℓ} {A : Type ℓ} where
  unfoldable pub get_elem? : List A → ℕ → Option A
  get_elem? [] i = none
  get_elem? (x ∷ xs) zero = some x
  get_elem? (x ∷ xs) (suc i) = get_elem? xs i

  unfoldable pub set : List A → ℕ → A → List A
  set [] i a = []
  set (x ∷ xs) zero a = a ∷ xs
  set (x ∷ xs) (suc i) a = x ∷ set xs i a

  -- `slice::swap`, which the caller only calls within bounds.
  unfoldable pub swap : List A → ℕ → ℕ → List A
  swap xs i j = elim (get_elem? xs i) [
    | none ↦ xs
    | some a ↦ elim (get_elem? xs j) [ none ↦ xs | some b ↦ set (set xs i b) j a ]
  ]

  set-Perm :
      (xs : List A) (i : ℕ) (a b : A) → get_elem? xs i ≡ some a → Perm (a ∷ set xs i b) (b ∷ xs)
  unfolding get_elem? set
  set-Perm [] i a b h = absurd (ground arith)
  set-Perm (x ∷ xs) zero a b h = let same : x ≡ a = ground arith in rw same (Perm.swap b a xs)
  set-Perm (x ∷ xs) (suc i) a b h =
      Perm.trans (Perm.swap x a (set xs i b))
        (Perm.trans (Perm.cons x (set-Perm xs i a b h)) (Perm.swap b x xs))

  get_elem?-set :
      (xs : List A) (i j : ℕ) (b : A) → get_elem? xs j ≡ some b → get_elem? (set xs i b) j ≡ some b
  unfolding get_elem? set
  get_elem?-set [] i j b h = h
  get_elem?-set (x ∷ xs) zero zero b h = refl
  get_elem?-set (x ∷ xs) zero (suc j) b h = h
  get_elem?-set (x ∷ xs) (suc i) zero b h = h
  get_elem?-set (x ∷ xs) (suc i) (suc j) b h = get_elem?-set xs i j b h

  swap-Perm : (xs : List A) (i j : ℕ) → Perm (swap xs i j) xs
  unfolding swap
  swap-Perm xs i j = elim (Option-cases (get_elem? xs i)) [
    | inl outside ↦
        let same : swap xs i j ≡ xs = ground arith in
        subst (λ l. Perm l xs) (sym same) (Perm.refl xs)
    | inr (a, first) ↦ elim (Option-cases (get_elem? xs j)) [
      | inl outside ↦
          let same : swap xs i j ≡ xs = ground arith in
          subst (λ l. Perm l xs) (sym same) (Perm.refl xs)
      | inr (b, second) ↦
          let same : swap xs i j ≡ set (set xs i b) j a = ground arith in
          let there = set-Perm (set xs i b) j b a (get_elem?-set xs i j b second) in
          subst (λ l. Perm l xs) (sym same)
            (Perm.cons_inv (Perm.trans there (set-Perm xs i a b first)))
    ]
  ]

-- One step of splitmix64: the next seed, and the output that it gives.
abbrev pub golden : ℕ
golden = 11400714819323198485

unfoldable pub next_seed : ℕ → ℕ
next_seed seed = (seed + golden) % 2 ^ 64

unfoldable pub splitmix : ℕ → ℕ
splitmix seed =
    let y = (bit_xor seed (seed / 2 ^ 30) * 13787848793156543929) % 2 ^ 64 in
    let z = (bit_xor y (y / 2 ^ 27) * 10723151780598845931) % 2 ^ 64 in bit_xor z (z / 2 ^ 31)

module _ {ℓ} {A : Type ℓ} where
  -- The loop over i from the given index down to 1.
  unfoldable pub shuffle_from : ℕ → ℕ → List A → List A
  unfolding next_seed splitmix
  shuffle_from zero seed chain = chain
  shuffle_from (suc i) seed chain =
      let seed' = next_seed seed in
      shuffle_from i seed' (swap chain (suc i) (splitmix seed' % (suc i + 1)))

  -- `now_nanos` is the clock's value, truncated to 64 bits.
  unfoldable pub shuffle_chain : ℕ → List A → List A
  shuffle_chain now_nanos [] = []
  shuffle_chain now_nanos (x ∷ xs) =
      shuffle_from (length xs) (bit_xor now_nanos ((length (x ∷ xs) * golden) % 2 ^ 64)) (x ∷ xs)

  shuffle_from-Perm : (i seed : ℕ) (chain : List A) → Perm (shuffle_from i seed chain) chain
  unfolding shuffle_from
  shuffle_from-Perm zero seed chain = Perm.refl chain
  shuffle_from-Perm (suc i) seed chain =
      Perm.trans
        (shuffle_from-Perm i (next_seed seed)
          (swap chain (suc i) (splitmix (next_seed seed) % (suc i + 1))))
        (swap-Perm chain (suc i) (splitmix (next_seed seed) % (suc i + 1)))

  -- A shuffle keeps the elements.
  pub shuffle_chain-Perm :
      (now_nanos : ℕ) (chain : List A) → Perm (shuffle_chain now_nanos chain) chain
  unfolding shuffle_chain
  shuffle_chain-Perm now_nanos [] = Perm.refl []
  shuffle_chain-Perm now_nanos (x ∷ xs) =
      shuffle_from-Perm (length xs) (bit_xor now_nanos ((length (x ∷ xs) * golden) % 2 ^ 64))
        (x ∷ xs)
