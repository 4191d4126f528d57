-- ===== src/Proto/Tenants.antt =====
-- The actions on tenants of planning/tenancit/proto/routes/store.js.
use tenancit.Base.{
  ℕ, ◌+◌, Bool, false, not, List, [], ◌∷◌, ◌++◌, filter, Option, Text, codes, text_eq, is_empty,
  is_space, if◌then◌else◌,
}
use tenancit.Proto.Types.{Domain, Resource, Tenant, Definition}
use tenancit.Proto.Store.{
  Store, Platform, or_else, or_text, toggled, change_at, map_at, uid, commit_tenants,
}

-- `patch` of `updateTenant`: the fields that it has.
pub record Patch : Type 0 where
  pub id : Option Text
  pub slug : Option Text
  pub name : Option Text
  pub status : Option Text
  pub domains : Option (List Domain)
  pub resources : Option (List Resource)

-- `replace(/\s+/g, "-")`; the flag says that a run of spaces has begun.
unfoldable pub dash_spaces : Bool → Text → Text
dash_spaces in_run [] = []
dash_spaces in_run (c ∷ s) =
    let rest = dash_spaces (is_space c) s in
    if is_space c then (if in_run then rest else b'-' ∷ rest) else c ∷ rest

unfoldable pub apply_patch : Patch → Tenant → Tenant
apply_patch patch t = record {
  id = or_else patch.id t.id;
  slug = or_else patch.slug t.slug;
  name = or_else patch.name t.name;
  status = or_else patch.status t.status;
  domains = or_else patch.domains t.domains;
  resources = or_else patch.resources t.resources;
}

unfoldable pub without_domain : Text → Tenant → ℕ → Tenant × ℕ
without_domain domain_id t n =
    (record t { domains = filter (λ d. not (text_eq d.id domain_id)) t.domains }, n)

abbrev pub toggle_resource : Resource → Resource
toggle_resource r = record r { status = toggled (codes "active") (codes "inactive") r.status }

unfoldable pub with_toggled : Text → Tenant → ℕ → Tenant × ℕ
with_toggled resource_id t n =
    (record t { resources = map_at Resource.id resource_id toggle_resource t.resources }, n)

unfoldable pub without_resource : Text → Tenant → ℕ → Tenant × ℕ
without_resource resource_id t n =
    (record t { resources = filter (λ r. not (text_eq r.id resource_id)) t.resources }, n)

module _ (p : Platform) where
  -- `hostname ? [{ id: uid("d"), hostname }] : []`, with the counter behind it.
  unfoldable pub first_domains : Text → ℕ → List Domain × ℕ
  first_domains hostname n =
      if is_empty hostname
      then ([], n)
      else (record { id = uid p (codes "d") n; hostname = hostname } ∷ [], n + 1)

  unfoldable pub new_tenant : (name slug : Text) → Text → List Domain → Tenant
  new_tenant name slug id domains = record {
    id = id;
    slug = or_text slug (dash_spaces false (p.to_lower_case name));
    name = name;
    status = codes "active";
    domains = domains;
    resources = [];
  }

  unfoldable pub with_domain : Text → Tenant → ℕ → Tenant × ℕ
  with_domain hostname t n = (
    record t {
      domains = t.domains ++ (record { id = uid p (codes "d") n; hostname = hostname } ∷ []);
    },
    n + 1,
  )

  unfoldable pub with_resource : Definition → List (Text × Option Text) → Tenant → ℕ → Tenant × ℕ
  with_resource definition values t n = (
    record t {
      resources =
          t.resources
          ++ (record {
            id = uid p (codes "r") n;
            definition_key = definition.key;
            definition_name = definition.name;
            status = codes "active";
            values = values;
          }
              ∷ []);
    },
    n + 1,
  )

module _ (p : Platform) (writable : Bool) where
  -- The store, and the identifier that is returned.
  unfoldable pub add_tenant : (name slug hostname : Text) → Store → Store × Text
  add_tenant name slug hostname s =
      let id = uid p (codes "t") s.counter in
      let (domains, n) = first_domains p hostname (s.counter + 1) in
      (
        commit_tenants p writable (s.state.tenants ++ (new_tenant p name slug id domains ∷ []), n)
            s,
        id,
      )

  unfoldable pub update_tenant : Text → Patch → Store → Store
  update_tenant id patch s =
      commit_tenants p writable (map_at Tenant.id id (apply_patch patch) s.state.tenants, s.counter)
        s

  unfoldable pub mutate_tenant : Text → (Tenant → ℕ → Tenant × ℕ) → Store → Store
  mutate_tenant id fn s =
      commit_tenants p writable (change_at Tenant.id id fn s.state.tenants s.counter) s

  unfoldable pub add_domain : (tenant_id hostname : Text) → Store → Store
  add_domain tenant_id hostname s = mutate_tenant tenant_id (with_domain p hostname) s

  unfoldable pub remove_domain : (tenant_id domain_id : Text) → Store → Store
  remove_domain tenant_id domain_id s = mutate_tenant tenant_id (without_domain domain_id) s

  unfoldable pub add_resource :
      (tenant_id : Text) → Definition → List (Text × Option Text) → Store → Store
  add_resource tenant_id definition values s =
      mutate_tenant tenant_id (with_resource p definition values) s

  unfoldable pub toggle_resource_status : (tenant_id resource_id : Text) → Store → Store
  toggle_resource_status tenant_id resource_id s =
      mutate_tenant tenant_id (with_toggled resource_id) s

  unfoldable pub remove_resource : (tenant_id resource_id : Text) → Store → Store
  remove_resource tenant_id resource_id s = mutate_tenant tenant_id (without_resource resource_id) s
