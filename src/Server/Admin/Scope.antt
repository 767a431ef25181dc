-- ===== src/Server/Admin/Scope.antt =====
-- What the calls of the admin API leave alone: nothing outside the scope of their caller changes.
use rusty_provider.Prelude.{
  String, Option, none, some, List, [], ◌∷◌, ◌++◌, Bool, true, false, ◌==◌, ◌&&◌, not, retain,
  string_eq, beq_refl, ◌≡◌, refl, ap, ◌∙◌, arith, Bool-cases, Option-cases, inl, inr,
}
use rusty_provider.Prelude.Results.{Result, ok, err}
use rusty_provider.Platform.{Platform}
use rusty_provider.Budget.Spend.{Persistence, ClientConfig}
use rusty_provider.Server.State.{HttpError, AppState}
use rusty_provider.Server.Auth.{
  AdminIdentity, global, scoped, same_organization, in_admin_scope, check_admin_auth,
}
use rusty_provider.Server.Admin.{
  CreateClientRequest, UpdateClientRequest, update_first, organization_for, new_client,
  changed_client, create_client, admin_create_client, update_client, admin_update_client,
  delete_client, admin_delete_client,
}

-- A call of the admin API that changes the clients, with its `Authorization` header.
pub data AdminCall (P : Platform) : Type 0 where
  create :
      (header : Option String) (generated : String)
      → Result (CreateClientRequest P) HttpError
      → AdminCall P
  update :
      (header : Option String) (generated name : String)
      → Result (UpdateClientRequest P) HttpError
      → AdminCall P
  delete : (header : Option String) (name : String) → AdminCall P

abbrev pub header_of : {P : Platform} → AdminCall P → Option String
header_of (create header generated body) = header
header_of (update header generated name body) = header
header_of (delete header name) = header

module _ {A : Type 0} (p keep : A → Bool) (change : A → A) where
  -- Elements that are not kept may change to elements that are not kept.
  retain-update_first :
      ((x : A) → p x ≡ true → keep x ≡ false)
      → ((x : A) → p x ≡ true → keep (change x) ≡ false)
      → (xs ys : List A) (y : A) → update_first p change xs ≡ some (y, ys)
      → retain keep ys ≡ retain keep xs
  unfolding update_first
  retain-update_first out out' [] ys y h = absurd (ground arith)
  retain-update_first out out' (x ∷ xs) ys y h = elim (Bool-cases (p x)) [
    | inl hit ↦
        let same : ys ≡ change x ∷ xs = ground (arith, h, hit) in
        ap (retain keep) same ∙ ground (arith, out x hit, out' x hit)
    | inr miss ↦ elim (Option-cases (update_first p change xs)) [
      | inl none_found ↦ absurd (ground (arith, h, miss, none_found))
      | inr ((z, zs), found) ↦
          let same : ys ≡ x ∷ zs = ground (arith, h, miss, found) in
          ap (retain keep) same ∙ ground (arith, retain-update_first out out' xs zs z found)
    ]
  ]

retain-retain :
    {A : Type 0} (keep q : A → Bool)
    → ((x : A) → q x ≡ false → keep x ≡ false)
    → (xs : List A) → retain keep (retain q xs) ≡ retain keep xs
retain-retain keep q out [] = refl
retain-retain keep q out (x ∷ xs) = ground (arith, retain-retain keep q out xs, out x)

retain-append_dropped :
    {A : Type 0} (keep : A → Bool) (x : A)
    → keep x ≡ false
    → (xs : List A) → retain keep (xs ++ x ∷ []) ≡ retain keep xs
retain-append_dropped keep x out [] = ground (arith, out)
retain-append_dropped keep x out (y ∷ ys) = ground (arith, retain-append_dropped keep x out ys)

same_organization_refl : (o : Option String) → same_organization o o ≡ true
same_organization_refl none = refl
same_organization_refl (some a) = beq_refl a

module _ {P : Platform} where
  new_client-in_scope :
      (identity : AdminIdentity) (req : CreateClientRequest P)
      → in_admin_scope identity (new_client identity req) ≡ true
  unfolding in_admin_scope new_client organization_for
  new_client-in_scope global req = refl
  new_client-in_scope (scoped organization) req = same_organization_refl organization

  changed_client-in_scope :
      (identity : AdminIdentity) (req : UpdateClientRequest P) (c : ClientConfig P)
      → in_admin_scope identity (changed_client req c) ≡ in_admin_scope identity c
  unfolding in_admin_scope changed_client
  changed_client-in_scope global req c = refl
  changed_client-in_scope (scoped organization) req c = refl

module _ {P : Platform} {B : Persistence P} where
  -- The state after a call.
  unfoldable pub after_call : AdminCall P → AppState B → AppState B
  after_call (create header generated body) state =
      (admin_create_client header state generated body).0
  after_call (update header generated name body) state =
      (admin_update_client header state generated name body).0
  after_call (delete header name) state = (admin_delete_client header state name).0

  -- The clients that an identity does not see.
  abbrev pub outsiders : AdminIdentity → AppState B → List (ClientConfig P)
  outsiders identity state =
      retain (λ (c : ClientConfig P). not (in_admin_scope identity c)) state.clients

  outsiders-create_client :
      (header : Option String) (state : AppState B) (generated : String) (identity : AdminIdentity)
      (req : CreateClientRequest P)
      → outsiders identity (create_client header state generated identity req).0
        ≡ outsiders identity state
  unfolding create_client
  outsiders-create_client header state generated identity req = ground (
    arith,
    retain-append_dropped (λ (c : ClientConfig P). not (in_admin_scope identity c))
        (new_client identity req) (ground (arith, new_client-in_scope identity req)) state.clients,
  )

  outsiders-update_client :
      (header : Option String) (state : AppState B) (generated name : String)
      (identity : AdminIdentity) (req : UpdateClientRequest P)
      → outsiders identity (update_client header state generated name identity req).0
        ≡ outsiders identity state
  unfolding update_client
  outsiders-update_client header state generated name identity req =
      elim (Option-cases (
        update_first (λ (c : ClientConfig P). c.name == name && in_admin_scope identity c)
          (changed_client req) state.clients)) [
            | inl nothing ↦ ground (arith, nothing)
            | inr ((updated, clients), found) ↦ ground (
              arith,
              found,
              retain-update_first
                  (λ (c : ClientConfig P). c.name == name && in_admin_scope identity c)
                  (λ (c : ClientConfig P). not (in_admin_scope identity c)) (changed_client req)
                  (λ c hit. ground (arith, hit))
                  (λ c hit. ground (arith, hit, changed_client-in_scope identity req c))
                  state.clients clients updated found,
            )
          ]

  outsiders-delete_client :
      (header : Option String) (state : AppState B) (name : String) (identity : AdminIdentity)
      → outsiders identity (delete_client header state name identity).0 ≡ outsiders identity state
  unfolding delete_client
  outsiders-delete_client header state name identity = ground (
    arith,
    retain-retain (λ (c : ClientConfig P). not (in_admin_scope identity c))
        (λ (c : ClientConfig P). not (c.name == name && in_admin_scope identity c))
        (λ c dropped. ground (arith, dropped)) state.clients,
  )

  -- Whatever a call asks for, and whatever comes of it, the clients that its caller does not see are
  -- the same after it, in the same order; a call that is not authorized changes nothing at all.
  pub after_call-outsiders :
      (call : AdminCall P) (state : AppState B)
      → ((identity : AdminIdentity)
          → check_admin_auth state (header_of call) ≡ ok identity
          → outsiders identity (after_call call state) ≡ outsiders identity state)
        × ((e : HttpError)
            → check_admin_auth state (header_of call) ≡ err e
            → after_call call state ≡ state)
  unfolding after_call admin_create_client admin_update_client admin_delete_client
  after_call-outsiders (create header generated body) state = (
    λ identity is. grind (arith, is, outsiders-create_client header state generated identity),
    λ e is. ground (arith, is),
  )
  after_call-outsiders (update header generated name body) state = (
    λ identity is. grind (arith, is, outsiders-update_client header state generated name identity),
    λ e is. ground (arith, is),
  )
  after_call-outsiders (delete header name) state = (
    λ identity is. ground (arith, is, outsiders-delete_client header state name identity),
    λ e is. ground (arith, is),
  )
