-- ===== src/Queries/Isolation.antt =====
-- Which queries a change to one tenant leaves alone.
use mathlib.Core.Logic.{⊎_elim}
use tenancit.Base.{◌≡◌, ◌≢◌, Bool, true, false, Bool-cases, inl, inr, refl, Text}
use tenancit.Queries.Keys.{
  AdminQuery, query_key, overview, tenant, tenant_domains, tenant_resources,
}
use tenancit.Queries.Cache.{Matching, is_invalidated}
use tenancit.Queries.Coverage.{
  Change, tenant_changed, domains_changed, resources_changed, calls_of, IsReached, IsTenants,
  IsTenants-elim, calls_of-IsReached,
}

-- What a page changes of one tenant: the tenant itself, its domains or its resources.
pub data Scope : Type 0 where
  itself domains resources : Scope

abbrev pub change_of : Scope → Text → Change
change_of itself id = tenant_changed id
change_of domains id = domains_changed id
change_of resources id = resources_changed id

abbrev pub query_of : Scope → Text → AdminQuery
query_of itself id = tenant id
query_of domains id = tenant_domains id
query_of resources id = tenant_resources id

query_of-IsReached :
    (scope : Scope) (id : Text) → IsReached (change_of scope id) (query_of scope id)
query_of-IsReached itself id = inl refl
query_of-IsReached domains id = inl refl
query_of-IsReached resources id = inl refl

overview-IsReached : (scope : Scope) (id : Text) → IsReached (change_of scope id) overview
overview-IsReached itself id = inr (inr (inl refl))
overview-IsReached domains id = inr (inl refl)
overview-IsReached resources id = inr (inl refl)

IsReached-spares :
    (scope : Scope) (id other : Text) (q : AdminQuery)
    → other ≢ id
    → IsTenants other q
    → ¬ IsReached (change_of scope id) q
IsReached-spares itself id other q ne k =
    ⊎_elim (λ e. IsTenants-elim other q k (λ a. ne cc) (λ a. cc) (λ a. cc))
      (⊎_elim (λ e. IsTenants-elim other q k (λ a. cc) (λ a. cc) (λ a. cc))
        (⊎_elim (λ e. IsTenants-elim other q k (λ a. cc) (λ a. cc) (λ a. cc)) (λ h. h)))
IsReached-spares domains id other q ne k =
    ⊎_elim (λ e. IsTenants-elim other q k (λ a. cc) (λ a. ne cc) (λ a. cc))
      (⊎_elim (λ e. IsTenants-elim other q k (λ a. cc) (λ a. cc) (λ a. cc)) (λ h. h))
IsReached-spares resources id other q ne k =
    ⊎_elim (λ e. IsTenants-elim other q k (λ a. cc) (λ a. cc) (λ a. ne cc))
      (⊎_elim (λ e. IsTenants-elim other q k (λ a. cc) (λ a. cc) (λ a. cc)) (λ h. h))

false_of : (b : Bool) → ¬ (b ≡ true) → b ≡ false
false_of b h = elim (Bool-cases b) [ inl e ↦ absurd (h e) | inr e ↦ e ]

module _ (m : Matching) where
  -- Under a query client that matches a filter by prefix, and wholly where it is exact: a change
  -- to one tenant, its domains or its resources invalidates the query that shows what was changed
  -- and the overview, and no query of another tenant.
  pub calls_of-spares :
      (scope : Scope) (id : Text)
      → (is_invalidated m (calls_of (change_of scope id)) (query_key (query_of scope id)) ≡ true)
        × (is_invalidated m (calls_of (change_of scope id)) (query_key overview) ≡ true)
        × ((other : Text) (q : AdminQuery)
            → other ≢ id
            → IsTenants other q
            → is_invalidated m (calls_of (change_of scope id)) (query_key q) ≡ false)
  calls_of-spares scope id = (
    (calls_of-IsReached m (change_of scope id) (query_of scope id)).1 (query_of-IsReached scope id),
    (calls_of-IsReached m (change_of scope id) overview).1 (overview-IsReached scope id),
    λ other q ne k. false_of _ (λ h.
        IsReached-spares scope id other q ne k ((calls_of-IsReached m (change_of scope id) q).0 h)),
  )
