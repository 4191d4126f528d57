-- ===== src/Proto/Orderly.antt =====
-- What keeps one active resource of each definition.
use tenancit.Base.{
  ℕ, ◌≡◌, ◌⊎◌, inl, inr, refl, Bool, true, not, Text, text_eq, All, All-map, All-append, arith,
  Bool-cases, Option-cases, trim, is_empty,
}
use tenancit.Proto.Types.{Tenant}
use tenancit.Proto.Store.{Store, Platform, find_tenant, commit, reset_state}
use tenancit.Proto.Tenants.{
  add_tenant, new_tenant, apply_patch, update_tenant, mutate_tenant, with_domain, add_domain,
  without_domain, remove_domain, without_resource, remove_resource,
}
use tenancit.Proto.Catalog.{
  add_definition, toggle_definition_status, add_field, remove_field, add_api_client,
  toggle_api_client,
}
use tenancit.Proto.Action.{
  edit, perform, Action, reset, create_tenant, edit_tenant, create_domain, delete_domain,
  create_resource, switch_resource, delete_resource, create_definition, switch_definition,
  create_field, delete_field, create_client, switch_client,
}
use tenancit.Proto.Page.{save_edit, save_domain}
use tenancit.Proto.OneActive.{OnePerKind, change_at-All}
use tenancit.Proto.Visits.{is_plain, act}
use tenancit.Proto.Kinds.{map_at-All, fewer_active, seed-OnePerKind}

module _ (p : Platform) (w : Bool) where
  pub save_edit-cases :
      (tenant_id name slug status : Text) (s : Store)
      → (save_edit p w tenant_id name slug status s ≡ s)
        ⊎ ((id : Text) × (save_edit p w tenant_id name slug status s
              ≡ update_tenant p w id (edit name slug status) s))
  unfolding save_edit
  save_edit-cases tenant_id name slug status s = elim (Option-cases (find_tenant tenant_id s)) [
    | inl absent ↦ inl (rw (save_edit, absent) refl)
    | inr (t, found) ↦ elim (Bool-cases (is_empty (trim name))) [
      | inl blank ↦ inl (rw (save_edit, found, blank) refl)
      | inr named ↦ inr (t.id, rw (save_edit, found, named) refl)
    ]
  ]

  pub save_domain-cases :
      (tenant_id hostname : Text) (s : Store)
      → (save_domain p w tenant_id hostname s ≡ s)
        ⊎ ((id : Text) × (save_domain p w tenant_id hostname s
              ≡ add_domain p w id (trim hostname) s))
  unfolding save_domain
  save_domain-cases tenant_id hostname s = elim (Option-cases (find_tenant tenant_id s)) [
    | inl absent ↦ inl (rw (save_domain, absent) refl)
    | inr (t, found) ↦ elim (Bool-cases (is_empty (trim hostname))) [
      | inl blank ↦ inl (rw (save_domain, found, blank) refl)
      | inr named ↦ inr (t.id, rw (save_domain, found, named) refl)
    ]
  ]

  abbrev pub IsOrderly : Store → Type 0
  IsOrderly s = All OnePerKind s.state.tenants

  mutate-IsOrderly :
      (id : Text) (change : Tenant → ℕ → Tenant × ℕ) (s : Store)
      → ((t : Tenant) (n : ℕ) → OnePerKind t → OnePerKind (change t n).0)
      → IsOrderly s
      → IsOrderly (mutate_tenant p w id change s)
  unfolding mutate_tenant commit
  mutate-IsOrderly id change s step h =
      change_at-All OnePerKind Tenant.id id change s.state.tenants s.counter h
        (All-map _ _ s.state.tenants (λ t one _ n. step t n one) h)

  pub update-IsOrderly :
      (id name slug status : Text) (s : Store)
      → IsOrderly s
      → IsOrderly (update_tenant p w id (edit name slug status) s)
  unfolding update_tenant commit apply_patch
  update-IsOrderly id name slug status s h =
      map_at-All OnePerKind Tenant.id id (apply_patch (edit name slug status)) s.state.tenants
        (λ t one. one) h

  pub add_domain-IsOrderly :
      (id hostname : Text) (s : Store) → IsOrderly s → IsOrderly (add_domain p w id hostname s)
  unfolding add_domain with_domain
  add_domain-IsOrderly id hostname s =
      mutate-IsOrderly id (with_domain p hostname) s (λ t n one. one)

  pub perform-IsOrderly :
      (a : Action) (s : Store) → is_plain (act a) ≡ true → IsOrderly s → IsOrderly (perform p w a s)
  unfolding perform commit reset_state add_tenant new_tenant remove_domain without_domain
      remove_resource without_resource add_definition toggle_definition_status add_field
      remove_field add_api_client toggle_api_client
  perform-IsOrderly reset s plain h = seed-OnePerKind
  perform-IsOrderly (create_tenant n g o) s plain h =
      All-append OnePerKind s.state.tenants _ h ((λ key. omega arith), tt)
  perform-IsOrderly (edit_tenant i n g o) s plain h = update-IsOrderly i n g o s h
  perform-IsOrderly (create_domain i o) s plain h = add_domain-IsOrderly i o s h
  perform-IsOrderly (delete_domain i o) s plain h =
      mutate-IsOrderly i (without_domain o) s (λ t n one. one) h
  perform-IsOrderly (create_resource i d v) s plain h = absurd cc
  perform-IsOrderly (switch_resource i r) s plain h = absurd cc
  perform-IsOrderly (delete_resource i r) s plain h =
      mutate-IsOrderly i (without_resource r) s
        (λ t n one key.
          let fewer = fewer_active key (λ x. not (text_eq x.id r)) t.resources in
          let few = one key in omega arith)
        h
  perform-IsOrderly (create_definition k n d i) s plain h = h
  perform-IsOrderly (switch_definition i) s plain h = h
  perform-IsOrderly (create_field i k l d r z) s plain h = h
  perform-IsOrderly (delete_field i f) s plain h = h
  perform-IsOrderly (create_client n a b t) s plain h = h
  perform-IsOrderly (switch_client i) s plain h = h
