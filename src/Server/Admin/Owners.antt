-- ===== src/Server/Admin/Owners.antt =====
-- Lists of clients and maps of their keys, in which every key belongs to a client.
use rusty_provider.Prelude.{
  ℕ, String, some, List, [], ◌∷◌, ◌++◌, Map, Bool, true, false, ◌==◌, ◌&&◌, ◌||◌, not, insert,
  remove, any, retain, All, string_eq, ◌≡◌, refl, ap, ◌∙◌, arith, Bool-cases, Option-cases, inl,
  inr,
}
use rusty_provider.Platform.{Platform}
use rusty_provider.Budget.Spend.{ClientConfig}
use rusty_provider.Server.Admin.{UpdateClientRequest, update_first, changed_client}

-- The keys of clients: key, client's name, and rate.
abbrev pub Keys : Type 0
Keys = Map String (String × ℕ)

pub All-insert :
    (Q : String × (String × ℕ) → Type 0) (key : String) (v : String × ℕ) (m : Keys)
    → Q (key, v)
    → All Q m
    → All Q (insert key v m)
unfolding insert
All-insert Q key v [] q h = (q, tt)
All-insert Q key v ((j, w) ∷ m) q (p, h) = elim (Bool-cases (j == key)) [
  | inl same ↦ rw same (q, h)
  | inr other ↦ rw other (p, All-insert Q key v m q h)
]

pub All-remove :
    (Q : String × (String × ℕ) → Type 0) (key : String) (m : Keys) → All Q m → All Q (remove key m)
unfolding remove
All-remove Q key [] h = tt
All-remove Q key ((j, w) ∷ m) (p, h) = elim (Bool-cases (j == key)) [
  | inl same ↦ rw same (All-remove Q key m h)
  | inr other ↦ rw other (p, All-remove Q key m h)
]

pub All-map :
    {A : Type 0} {Q R : A → Type 0} → ((x : A) → Q x → R x) → (xs : List A) → All Q xs → All R xs
All-map f [] h = tt
All-map f (x ∷ xs) (q, h) = (f x q, All-map f xs h)

module _ {P : Platform} where
  abbrev pub has_client : String → List (ClientConfig P) → Bool
  has_client name clients = any (λ (c : ClientConfig P). c.name == name) clients

  -- Every key belongs to a client.
  abbrev pub Owned : List (ClientConfig P) → Keys → Type 0
  Owned clients keys = All (λ k. has_client k.1.0 clients ≡ true) keys

  pub has_client-append :
      (name : String) (cs ds : List (ClientConfig P))
      → has_client name (cs ++ ds) ≡ (has_client name cs || has_client name ds)
  has_client-append name [] ds = refl
  has_client-append name (c ∷ cs) ds = ground (arith, has_client-append name cs ds)

  -- An update keeps the names.
  pub has_client-update_first :
      (p : ClientConfig P → Bool) (req : UpdateClientRequest P) (name : String)
      (xs ys : List (ClientConfig P)) (y : ClientConfig P)
      → update_first p (changed_client req) xs ≡ some (y, ys)
      → has_client name ys ≡ has_client name xs
  unfolding update_first changed_client
  has_client-update_first p req name [] ys y h = absurd (ground arith)
  has_client-update_first p req name (x ∷ xs) ys y h = elim (Bool-cases (p x)) [
    | inl hit ↦
        let same : ys ≡ changed_client req x ∷ xs = ground (arith, h, hit) in
        ap (has_client name) same
    | inr miss ↦ elim (Option-cases (update_first p (changed_client req) xs)) [
      | inl none_found ↦ absurd (ground (arith, h, miss, none_found))
      | inr ((z, zs), found) ↦
          let same : ys ≡ x ∷ zs = ground (arith, h, miss, found) in
          ap (has_client name) same
          ∙ ground (arith, has_client-update_first p req name xs zs z found)
    ]
  ]

  -- An update is of a client of the list.
  pub has_client-updated :
      (q : ClientConfig P → Bool) (req : UpdateClientRequest P) (name : String)
      (xs ys : List (ClientConfig P)) (y : ClientConfig P)
      → update_first (λ (c : ClientConfig P). c.name == name && q c) (changed_client req) xs
        ≡ some (y, ys)
      → has_client name xs ≡ true
  unfolding update_first
  has_client-updated q req name [] ys y h = absurd (ground arith)
  has_client-updated q req name (x ∷ xs) ys y h = elim (Bool-cases (x.name == name && q x)) [
    | inl hit ↦ ground (arith, hit)
    | inr miss ↦
        elim (Option-cases
          (update_first (λ (c : ClientConfig P). c.name == name && q c) (changed_client req) xs)) [
            | inl none_found ↦ absurd (ground (arith, h, miss, none_found))
            | inr ((z, zs), found) ↦ ground (arith, has_client-updated q req name xs zs z found)
          ]
  ]

  -- A removal by name keeps the other names.
  pub has_client-retain :
      (q : ClientConfig P → Bool) (name other : String)
      → (other == name) ≡ false
      → (xs : List (ClientConfig P)) → has_client other xs ≡ true
      → has_client other (retain (λ (c : ClientConfig P). not (c.name == name && q c)) xs) ≡ true
  has_client-retain q name other ne [] h = h
  has_client-retain q name other ne (x ∷ xs) h = grind (
    arith,
    has_client-retain q name other ne xs,
    h,
    ne,
    string_eq.beq_iff x.name other,
    string_eq.beq_iff x.name name,
    string_eq.beq_iff other name,
  )

  pub Owned-retain :
      (q : ClientConfig P → Bool) (name : String) (clients : List (ClientConfig P)) (keys : Keys)
      → Owned clients keys
      → Owned
          (retain (λ (c : ClientConfig P). not (c.name == name && q c)) clients)
          (retain (λ (k : String × (String × ℕ)). not (k.1.0 == name)) keys)
  Owned-retain q name clients [] h = tt
  Owned-retain q name clients ((key, (n, rpm)) ∷ keys) (p, h) = elim (Bool-cases (n == name)) [
    | inl same ↦ rw same (Owned-retain q name clients keys h)
    | inr other ↦
        rw other (has_client-retain q name n other clients p, Owned-retain q name clients keys h)
  ]
