-- ===== src/Queries/Coverage.antt =====
-- Which queries a change reaches.
use mathlib.Core.Logic.{⊎_elim}
use tenancit.Base.{
  ◌≡◌, ◌↔◌, ◌⊎◌, inl, inr, refl, sym, ap, ◌∙◌, true, ◌||◌, List, [], ◌∷◌, map, arith, Text, text_eq,
  text_eq_iff,
}
use tenancit.Queries.Keys.{
  AdminQuery, query_key, api_clients, definitions, overview, tenants, tenant_resources_root,
  definition, tenant, tenant_domains, tenant_resources,
}
use tenancit.Queries.Cache.{
  CacheCall, invalidate_queries, Matching, is_invalidated, is_removed, is_prefix, invalidate_exact,
  invalidate_overview, invalidate_tenants, invalidate_tenant, invalidate_tenant_domains,
  invalidate_tenant_resources, invalidate_all_tenant_resources, invalidate_definitions,
  invalidate_definition, invalidate_api_clients, remove_tenant_queries,
}
use tenancit.Queries.Decode.{query_key-injective, is_same_iff}

-- What a page has changed.
pub data Change : Type 0 where
  tenants_changed all_resources_changed definitions_changed api_clients_changed : Change
  tenant_changed domains_changed resources_changed definition_changed : (id : Text) → Change

abbrev pub calls_of : Change → List CacheCall
calls_of tenants_changed = invalidate_tenants
calls_of (tenant_changed id) = invalidate_tenant id
calls_of (domains_changed id) = invalidate_tenant_domains id
calls_of (resources_changed id) = invalidate_tenant_resources id
calls_of all_resources_changed = invalidate_all_tenant_resources
calls_of definitions_changed = invalidate_definitions
calls_of (definition_changed id) = invalidate_definition id
calls_of api_clients_changed = invalidate_api_clients

abbrev pub IsOneOf : AdminQuery → List AdminQuery → Type 0
IsOneOf q [] = ⊥
IsOneOf q (r ∷ rs) = (r ≡ q) ⊎ IsOneOf q rs

-- The masked resources of any tenant.
abbrev pub IsMasked : AdminQuery → Type 0
IsMasked q = (q ≡ tenant_resources_root) ⊎ ((id : Text) × (q ≡ tenant_resources id))

-- The queries that the calls of a change name.
abbrev pub IsReached : Change → AdminQuery → Type 0
IsReached tenants_changed q = IsOneOf q (tenants ∷ overview ∷ [])
IsReached (tenant_changed id) q = IsOneOf q (tenant id ∷ tenants ∷ overview ∷ [])
IsReached (domains_changed id) q = IsOneOf q (tenant_domains id ∷ overview ∷ [])
IsReached (resources_changed id) q = IsOneOf q (tenant_resources id ∷ overview ∷ [])
IsReached all_resources_changed q = IsMasked q
IsReached definitions_changed q = IsOneOf q (definitions ∷ overview ∷ [])
IsReached (definition_changed id) q = IsOneOf q (definition id ∷ definitions ∷ overview ∷ [])
IsReached api_clients_changed q = IsOneOf q (api_clients ∷ overview ∷ [])

-- The queries of one tenant.
abbrev pub IsTenants : Text → AdminQuery → Type 0
IsTenants id q = IsOneOf q (tenant id ∷ tenant_domains id ∷ tenant_resources id ∷ [])

pub IsTenants-elim :
    {R : Type 0} (id : Text) (q : AdminQuery)
    → IsTenants id q
    → (tenant id ≡ q → R)
    → (tenant_domains id ≡ q → R)
    → (tenant_resources id ≡ q → R)
    → R
IsTenants-elim id q k a b c = ⊎_elim a (⊎_elim b (⊎_elim c (λ e. absurd e))) k

same_text : (s t : Text) → text_eq s t ≡ true → s ≡ t
same_text s t h = (text_eq_iff s t).0 h

module _ (m : Matching) where
  open m use {covers, equals, covers-prefix, equals-same}

  same_query : (r q : AdminQuery) → (equals (query_key r) (query_key q) ≡ true) ↔ (r ≡ q)
  same_query r q =
      let (to, from) = is_same_iff (query_key r) (query_key q) in
      (
        λ h. query_key-injective r q (to (sym (equals-same (query_key r) (query_key q)) ∙ h)),
        λ e. equals-same (query_key r) (query_key q) ∙ from (ap query_key e),
      )

  is_invalidated-IsOneOf :
      (qs : List AdminQuery) (q : AdminQuery)
      → (is_invalidated m (map (λ r. invalidate_queries true (query_key r)) qs) (query_key q)
          ≡ true)
        ↔ IsOneOf q qs
  unfolding is_invalidated
  is_invalidated-IsOneOf [] q = (λ h. cc, λ h. absurd h)
  is_invalidated-IsOneOf (r ∷ rs) q =
      let (to, from) = same_query r q in
      let (more, back) = is_invalidated-IsOneOf rs q in ground arith

  covers-IsMasked :
      (q : AdminQuery)
      → (is_prefix (query_key tenant_resources_root) (query_key q) ≡ true) ↔ IsMasked q
  unfolding is_prefix query_key text_eq
  covers-IsMasked tenant_resources_root = (λ h. inl refl, λ h. refl)
  covers-IsMasked (tenant_resources id) = (λ h. inr (id, refl), λ h. refl)
  covers-IsMasked q = (λ h. cc, ⊎_elim (λ e. cc) (λ (id, e). cc))

  invalidate_all-IsMasked :
      (q : AdminQuery)
      → (is_invalidated m invalidate_all_tenant_resources (query_key q) ≡ true) ↔ IsMasked q
  unfolding is_invalidated invalidate_all_tenant_resources
  invalidate_all-IsMasked q =
      let (to, from) = covers-IsMasked q in
      let same = covers-prefix (query_key tenant_resources_root) (query_key q) in
      rw same (λ h. to (ground arith), λ k. let f = from k in ground arith)

  -- Whether one of the two filters of a removed tenant covers a query.
  covers_tenant :
      (id : Text) (q : AdminQuery)
      → (is_prefix (query_key (tenant id)) (query_key q)
            || is_prefix (query_key (tenant_resources id)) (query_key q)
          ≡ true)
        ↔ IsTenants id q
  unfolding is_prefix query_key text_eq
  covers_tenant id (tenant other) = (
    λ h. inl (ap tenant (same_text id other (ground arith))),
    λ k.
        let same : id ≡ other = IsTenants-elim id _ k (λ e. cc) (λ e. cc) (λ e. cc) in
        let f = (text_eq_iff id other).1 same in ground arith,
  )
  covers_tenant id (tenant_domains other) = (
    λ h. inr (inl (ap tenant_domains (same_text id other (ground arith)))),
    λ k.
        let same : id ≡ other = IsTenants-elim id _ k (λ e. cc) (λ e. cc) (λ e. cc) in
        let f = (text_eq_iff id other).1 same in ground arith,
  )
  covers_tenant id (tenant_resources other) = (
    λ h. inr (inr (inl (ap tenant_resources (same_text id other (ground arith))))),
    λ k.
        let same : id ≡ other = IsTenants-elim id _ k (λ e. cc) (λ e. cc) (λ e. cc) in
        let f = (text_eq_iff id other).1 same in ground arith,
  )
  covers_tenant id q = (λ h. cc, λ k. IsTenants-elim id _ k (λ e. cc) (λ e. cc) (λ e. cc))

  -- A change invalidates the queries that its calls name, and no other.
  pub calls_of-IsReached :
      (c : Change) (q : AdminQuery)
      → (is_invalidated m (calls_of c) (query_key q) ≡ true) ↔ IsReached c q
  unfolding invalidate_tenants invalidate_tenant invalidate_tenant_domains
      invalidate_tenant_resources invalidate_all_tenant_resources invalidate_definitions
      invalidate_definition invalidate_api_clients invalidate_overview invalidate_exact
  calls_of-IsReached tenants_changed q = is_invalidated-IsOneOf (tenants ∷ overview ∷ []) q
  calls_of-IsReached (tenant_changed id) q =
      is_invalidated-IsOneOf (tenant id ∷ tenants ∷ overview ∷ []) q
  calls_of-IsReached (domains_changed id) q =
      is_invalidated-IsOneOf (tenant_domains id ∷ overview ∷ []) q
  calls_of-IsReached (resources_changed id) q =
      is_invalidated-IsOneOf (tenant_resources id ∷ overview ∷ []) q
  calls_of-IsReached all_resources_changed q = invalidate_all-IsMasked q
  calls_of-IsReached definitions_changed q = is_invalidated-IsOneOf (definitions ∷ overview ∷ []) q
  calls_of-IsReached (definition_changed id) q =
      is_invalidated-IsOneOf (definition id ∷ definitions ∷ overview ∷ []) q
  calls_of-IsReached api_clients_changed q = is_invalidated-IsOneOf (api_clients ∷ overview ∷ []) q

  -- Under a query client that matches a filter by prefix: removing a tenant removes its detail, its
  -- domains and its resources from the cache, and no query of another tenant or of anything else.
  pub remove_tenant_queries-IsTenants :
      (id : Text) (q : AdminQuery)
      → (is_removed m (remove_tenant_queries id) (query_key q) ≡ true) ↔ IsTenants id q
  unfolding is_removed remove_tenant_queries invalidate_tenants invalidate_exact invalidate_overview
  remove_tenant_queries-IsTenants id q =
      let (to, from) = covers_tenant id q in
      let a = covers-prefix (query_key (tenant id)) (query_key q) in
      let b = covers-prefix (query_key (tenant_resources id)) (query_key q) in
      (λ h. to (ground arith), λ k. let f = from k in ground arith)
