-- ===== src/Chain/Preferences/Order.antt =====
-- The order of the candidates that `apply_preferences` gives.
use rusty_provider.Prelude.{
  ℕ, String, some, List, [], ◌∷◌, ◌++◌, Bool, true, false, string_eq, if◌then◌else◌, not, retain,
  All, ◌&&◌, ◌≡◌, sym, subst, arith,
}
use rusty_provider.Prelude.Int.{ℤ}
use rusty_provider.Prelude.Results.{ok}
use rusty_provider.Platform.{Platform, PlatformLaws}
use rusty_provider.Core.Types.{ProviderPreferences}
use rusty_provider.Chain.Settings.{Candidate, RouterSettings, RouterStats}
use rusty_provider.Chain.Sort.{IsSorted, sort_by, sort_by-IsSorted, sort_by-key_le, key_le}
use rusty_provider.Chain.Preferences.{
  apply_filters, rank, deprioritize_unhealthy, is_unhealthy, ascending, price_of, apply_preferences,
}

-- First the elements without the mark, and among those of one kind by `le`.
abbrev pub marked_last {ℓ} : {A : Type ℓ} → (A → Bool) → (A → A → Bool) → A → A → Bool
marked_last key le a b = if key a then key b && le a b else if key b then true else le a b

module _ {ℓ} {A : Type ℓ} (key : A → Bool) (le : A → A → Bool) where
  All-retain_both :
      (x : A) (xs : List A)
      → All (λ y. le x y ≡ true) xs
      → key x ≡ true
      → All (λ y. marked_last key le x y ≡ true) (retain key xs)
  All-retain_both x [] h k = tt
  All-retain_both x (y ∷ ys) h k = ground (arith, All-retain_both x ys h.1 k)

  All-unmarked :
      (x : A) (xs ys : List A)
      → All (λ y. le x y ≡ true) xs
      → key x ≡ false
      → All (λ y. marked_last key le x y ≡ true) (retain (λ z. not (key z)) xs ++ retain key ys)
  All-unmarked x [] [] h k = tt
  All-unmarked x [] (y ∷ ys) h k = ground (arith, All-unmarked x [] ys tt k)
  All-unmarked x (z ∷ xs) ys h k = ground (arith, All-unmarked x xs ys h.1 k)

  IsSorted-marked : (xs : List A) → IsSorted le xs → IsSorted (marked_last key le) (retain key xs)
  IsSorted-marked [] h = tt
  IsSorted-marked (x ∷ xs) h = ground (arith, All-retain_both x xs h.0, IsSorted-marked xs h.1)

  IsSorted-halves :
      (xs ys : List A)
      → IsSorted le xs
      → IsSorted (marked_last key le) (retain key ys)
      → IsSorted (marked_last key le) (retain (λ z. not (key z)) xs ++ retain key ys)
  IsSorted-halves [] ys h t = t
  IsSorted-halves (x ∷ xs) ys h t =
      ground (arith, All-unmarked x xs ys h.0, IsSorted-halves xs ys h.1 t)

  -- A sort by `le` and then by the mark sorts by both.
  pub IsSorted-key_le :
      (xs : List A) → IsSorted le xs → IsSorted (marked_last key le) (sort_by (key_le key) xs)
  IsSorted-key_le xs h =
      subst (IsSorted (marked_last key le)) (sym (sort_by-key_le key xs))
        (IsSorted-halves xs xs h (IsSorted-marked xs h))

module _ {P : Platform} where
  abbrev pub by_price : RouterSettings P → Candidate → Candidate → Bool
  by_price s a b = P.total_le (price_of s a) (price_of s b)

  -- With `sort: "price"` the result is in order: first the candidates that are not unhealthy, and
  -- among those of one kind the cheaper prompt price first, where an unpriced candidate counts as
  -- the highest number.
  pub apply_preferences-by_price :
      (laws : PlatformLaws P) (s : RouterSettings P) (st : RouterStats P) (now : ℤ) (now_nanos : ℕ)
      (model : String) (chain r : List Candidate) (prefs : ProviderPreferences P)
      → prefs.sort ≡ some "price"
      → (apply_preferences s st now now_nanos model chain (some prefs)).1 ≡ ok r
      → IsSorted (marked_last (is_unhealthy st) (by_price s)) r
  unfolding apply_preferences rank deprioritize_unhealthy ascending
  apply_preferences-by_price laws s st now now_nanos model chain r prefs sorted h =
      let le = by_price s in
      let filtered = apply_filters s prefs chain in
      let same : r ≡ sort_by (key_le (is_unhealthy st)) (sort_by le filtered) = ground arith in
      subst (IsSorted (marked_last (is_unhealthy st) le)) (sym same) (
        IsSorted-key_le (is_unhealthy st) le (sort_by le filtered) (
          sort_by-IsSorted le (λ a b. laws.total_le_total (price_of s a) (price_of s b))
            (λ a b c. laws.total_le_trans (price_of s a) (price_of s b) (price_of s c)) filtered))
