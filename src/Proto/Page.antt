-- ===== src/Proto/Page.antt =====
-- The rules of planning/tenancit/proto/routes/tenant-detail.js. A page that shows no tenant saves
-- nothing.
use tenancit.Base.{
  Bool, not, ◌&&◌, List, [], map, filter, all, any, Option, none, some, Text, codes, text_eq,
  is_empty, trim, if◌then◌else◌,
}
use tenancit.Proto.Types.{Resource, Tenant, Field, Definition}
use tenancit.Proto.Store.{Store, Platform, find, or_else, find_tenant}
use tenancit.Proto.Tenants.{update_tenant, add_domain, add_resource}
use tenancit.Proto.Action.{edit}

abbrev pub has_active_status : Text → Bool
has_active_status status = text_eq status (codes "active")

unfoldable pub active_keys : Tenant → List Text
active_keys t = map Resource.definition_key (filter (λ r. has_active_status r.status) t.resources)

unfoldable pub available : List Definition → Tenant → List Definition
available definitions t =
    filter (λ d. has_active_status d.status && not (any (λ key. text_eq key d.key) (active_keys t)))
      definitions

unfoldable pub picked_def : (pick : Text) → List Definition → Tenant → Option Definition
picked_def pick definitions t = find (λ d. text_eq d.key pick) (available definitions t)

-- The values that the form starts with.
unfoldable pub choose : (key : Text) → List Definition → Tenant → List (Text × Option Text)
choose key definitions t = elim (picked_def key definitions t) [
  | none ↦ []
  | some d ↦ map (λ f. (f.key, some [])) d.fields
]

-- `values[key] || ""`.
unfoldable pub value_of : Text → List (Text × Option Text) → Text
value_of key values = or_else (or_else (find (λ v. text_eq v.0 key) values) (key, none)).1 []

unfoldable pub required_filled : Definition → List (Text × Option Text) → Bool
required_filled d values =
    all (λ f. not (is_empty (trim (value_of f.key values)))) (filter Field.required d.fields)

module _ (p : Platform) (writable : Bool) where
  unfoldable pub save_edit : (tenant_id name slug status : Text) → Store → Store
  save_edit tenant_id name slug status s = elim (find_tenant tenant_id s) [
    | none ↦ s
    | some t ↦
        if is_empty (trim name) then s else update_tenant p writable t.id (edit name slug status) s
  ]

  unfoldable pub save_resource : (tenant_id pick : Text) → List (Text × Option Text) → Store → Store
  save_resource tenant_id pick values s = elim (find_tenant tenant_id s) [
    | none ↦ s
    | some t ↦ elim (picked_def pick s.state.definitions t) [
      | none ↦ s
      | some d ↦ if required_filled d values then add_resource p writable t.id d values s else s
    ]
  ]

  unfoldable pub save_domain : (tenant_id hostname : Text) → Store → Store
  save_domain tenant_id hostname s = elim (find_tenant tenant_id s) [
    | none ↦ s
    | some t ↦ if is_empty (trim hostname) then s else add_domain p writable t.id (trim hostname) s
  ]
