-- ===== src/Server/Admin/Keys.antt =====
-- The keys of the clients: through any calls of the admin API, a key always belongs to a client.
use rusty_provider.Prelude.{
  ℕ, String, Option, List, [], ◌∷◌, ◌++◌, Bool, true, ◌==◌, ◌&&◌, not, unwrap_or, remove,
  contains_key, retain, length, string_eq, eqb, beq_refl, ◌≡◌, sym, ◌∙◌, subst, arith, Bool-cases,
  Option-cases, inl, inr,
}
use rusty_provider.Prelude.Results.{Result, ok, err, Result-cases}
use rusty_provider.Platform.{Platform}
use rusty_provider.Budget.Spend.{Persistence, ClientConfig}
use rusty_provider.Server.State.{HttpError, AppState}
use rusty_provider.Server.Auth.{AdminIdentity, in_admin_scope, check_admin_auth}
use rusty_provider.Server.Admin.{
  CreateClientRequest, ClientProvisionResponse, UpdateClientRequest, update_first, key_of_client,
  validate_create, validate_update, new_client, changed_client, create_client, admin_create_client,
  update_keys, update_client, admin_update_client, delete_client, admin_delete_client,
}
use rusty_provider.Server.Admin.Scope.{AdminCall, create, update, delete, after_call}
use rusty_provider.Server.Admin.Owners.{
  All-insert, All-remove, All-map, has_client, Owned, has_client-append, has_client-update_first,
  has_client-updated, Owned-retain,
}

module _ {P : Platform} {B : Persistence P} where
  abbrev pub IsOwned : AppState B → Type 0
  IsOwned state = Owned state.clients state.client_keys

  create_client-IsOwned :
      (header : Option String) (state : AppState B) (generated : String) (identity : AdminIdentity)
      (req : CreateClientRequest P)
      → IsOwned state
      → IsOwned (create_client header state generated identity req).0
  unfolding create_client new_client
  create_client-IsOwned header state generated identity req h =
      let client = new_client identity req in
      let grown : Owned (state.clients ++ client ∷ []) state.client_keys =
        All-map (λ k has. ground (arith, has, has_client-append k.1.0 state.clients (client ∷ [])))
          state.client_keys h in
      let here : has_client req.name (state.clients ++ client ∷ []) ≡ true =
        ground (arith, has_client-append req.name state.clients (client ∷ []), beq_refl req.name) in
      let added =
        All-insert (λ k. has_client k.1.0 (state.clients ++ client ∷ []) ≡ true)
          (unwrap_or req.api_key generated) (req.name, req.requests_per_minute) state.client_keys
          here grown in
      elim (Bool-cases (has_client req.name state.clients)) [
        | inl taken ↦ rw taken h
        | inr free ↦
            elim (Bool-cases (contains_key (unwrap_or req.api_key generated) state.client_keys)) [
              | inl used ↦ rw (free, used) h
              | inr unused ↦ rw (free, unused) added
            ]
      ]

  update_keys-Owned :
      (header : Option String) (state : AppState B) (generated name : String) (rotate : Bool)
      (rpm : ℕ) (clients : List (ClientConfig P))
      → has_client name clients ≡ true
      → Owned clients state.client_keys
      → Owned clients (update_keys header state generated name rotate rpm).0
  unfolding update_keys
  update_keys-Owned header state generated name rotate rpm clients has h =
      let Q = λ (k : String × (String × ℕ)). has_client k.1.0 clients ≡ true in
      elim (Option-cases (key_of_client name state.client_keys)) [
        | inl none_held ↦ elim (Bool-cases rotate) [
          | inl rotates ↦
              rw (rotates, none_held) (All-insert Q generated (name, rpm) state.client_keys has h)
          | inr stays ↦ rw (stays, none_held) h
        ]
        | inr (old, held) ↦ elim (Bool-cases rotate) [
          | inl rotates ↦
              rw (rotates, held)
                (All-insert Q generated (name, rpm) (remove old state.client_keys) has
                  (All-remove Q old state.client_keys h))
          | inr stays ↦ rw (stays, held) (All-insert Q old (name, rpm) state.client_keys has h)
        ]
      ]

  update_client-IsOwned :
      (header : Option String) (state : AppState B) (generated name : String)
      (identity : AdminIdentity) (req : UpdateClientRequest P)
      → IsOwned state
      → IsOwned (update_client header state generated name identity req).0
  unfolding update_client
  update_client-IsOwned header state generated name identity req h =
      let p = λ (c : ClientConfig P). c.name == name && in_admin_scope identity c in
      elim (Option-cases (update_first p (changed_client req) state.clients)) [
        | inl nothing ↦ rw (nothing, update_client) h
        | inr ((updated, clients), found) ↦
            let same : (n : String) → has_client n clients ≡ has_client n state.clients =
              λ n. has_client-update_first p req n state.clients clients updated found in
            let has : has_client name clients ≡ true =
              same name
              ∙ has_client-updated (in_admin_scope identity) req name state.clients clients updated
                  found in
            let kept : Owned clients state.client_keys =
              All-map (λ k owned. same k.1.0 ∙ owned) state.client_keys h in
            rw (found, update_client)
              (update_keys-Owned header state generated name req.rotate_api_key
                updated.requests_per_minute clients has kept)
      ]

  delete_client-IsOwned :
      (header : Option String) (state : AppState B) (name : String) (identity : AdminIdentity)
      → IsOwned state
      → IsOwned (delete_client header state name identity).0
  unfolding delete_client
  delete_client-IsOwned header state name identity h =
      let clients =
        retain (λ (c : ClientConfig P). not (c.name == name && in_admin_scope identity c))
          state.clients in
      elim (Bool-cases (eqb (length clients) (length state.clients))) [
        | inl nothing ↦ rw nothing h
        | inr removed ↦
            rw removed
              (Owned-retain (in_admin_scope identity) name state.clients state.client_keys h)
      ]

  after_call-IsOwned :
      (call : AdminCall P) (state : AppState B) → IsOwned state → IsOwned (after_call call state)
  unfolding after_call admin_create_client admin_update_client admin_delete_client
  after_call-IsOwned (create header generated (err e)) state h =
      elim (Result-cases (check_admin_auth state header)) [
        | inr (e', fails) ↦ rw (fails, after_call, admin_create_client) h
        | inl (identity, is) ↦ rw (is, after_call, admin_create_client) h
      ]
  after_call-IsOwned (create header generated (ok req)) state h =
      elim (Result-cases (check_admin_auth state header)) [
        | inr (e, fails) ↦ rw (fails, after_call, admin_create_client) h
        | inl (identity, is) ↦ elim (Option-cases (validate_create req)) [
          | inr (e, invalid) ↦
              let same : admin_create_client header state generated (ok req) ≡ (state, err e) =
                ground (arith, is, invalid) in
              subst (λ (r : AppState B × Result (ClientProvisionResponse P) HttpError). IsOwned r.0)
                (sym same) h
          | inl valid ↦
              let same : admin_create_client header state generated (ok req)
                  ≡ create_client header state generated identity req =
                ground (arith, is, valid) in
              subst (λ (r : AppState B × Result (ClientProvisionResponse P) HttpError). IsOwned r.0)
                (sym same) (create_client-IsOwned header state generated identity req h)
        ]
      ]
  after_call-IsOwned (update header generated name (err e)) state h =
      elim (Result-cases (check_admin_auth state header)) [
        | inr (e', fails) ↦ rw (fails, after_call, admin_update_client) h
        | inl (identity, is) ↦ rw (is, after_call, admin_update_client) h
      ]
  after_call-IsOwned (update header generated name (ok req)) state h =
      elim (Result-cases (check_admin_auth state header)) [
        | inr (e, fails) ↦ rw (fails, after_call, admin_update_client) h
        | inl (identity, is) ↦ elim (Option-cases (validate_update req)) [
          | inr (e, invalid) ↦
              let same : admin_update_client header state generated name (ok req) ≡ (state, err e) =
                ground (arith, is, invalid) in
              subst (λ (r : AppState B × Result (ClientProvisionResponse P) HttpError). IsOwned r.0)
                (sym same) h
          | inl valid ↦
              let same : admin_update_client header state generated name (ok req)
                  ≡ update_client header state generated name identity req =
                ground (arith, is, valid) in
              subst (λ (r : AppState B × Result (ClientProvisionResponse P) HttpError). IsOwned r.0)
                (sym same) (update_client-IsOwned header state generated name identity req h)
        ]
      ]
  after_call-IsOwned (delete header name) state h =
      elim (Result-cases (check_admin_auth state header)) [
        | inr (e, fails) ↦ rw (fails, after_call, admin_delete_client) h
        | inl (identity, is) ↦
            rw (is, after_call, admin_delete_client)
              (delete_client-IsOwned header state name identity h)
      ]

  -- The states that calls of the admin API lead to.
  pub data Reachable (start : AppState B) : AppState B → Type 0 where
    started : Reachable start start
    called :
        (state : AppState B) (call : AdminCall P)
        → Reachable start state
        → Reachable start (after_call call state)

  -- If every key belongs to a client at the start, every key belongs to a client in every state that
  -- calls of the admin API lead to, by whomever and with whatever result.
  pub reachable-IsOwned :
      (start state : AppState B) → Reachable start state → IsOwned start → IsOwned state
  reachable-IsOwned start _ started h = h
  reachable-IsOwned start _ (called state call way) h =
      after_call-IsOwned call state (reachable-IsOwned start state way h)
