-- ===== src/Proto/Keeping.antt =====
-- Each kind of action keeps the identifiers of a store apart.
use tenancit.Base.{
  ℕ, ◌+◌, ◌≤◌, ◌≡◌, inl, inr, refl, sym, subst, Bool, not, List, [], ◌∷◌, ◌++◌, map, Option, Text,
  text_eq, codes, is_empty, All-append, arith, Bool-cases,
}
use tenancit.Proto.Types.{Domain, Resource, Tenant, Definition}
use tenancit.Proto.Store.{Store, Platform, uid, map_at}
use tenancit.Proto.Tenants.{
  first_domains, new_tenant, add_tenant, apply_patch, update_tenant, with_domain, add_domain,
  without_domain, remove_domain, with_resource, add_resource, toggle_resource, with_toggled,
  toggle_resource_status, without_resource, remove_resource,
}
use tenancit.Proto.Action.{edit}
use tenancit.Proto.Ids.{Numerals, IsNumbered, later-IsNumbered, snoc-IsNumbered, filter-IsNumbered}
use tenancit.Proto.Numbered.{TenantNumbered, later_tenant, later_All, map_at_keeps}
use tenancit.Proto.Unique.{
  IsNumberedStore, tenants-IsNumberedStore, mutate-IsNumberedStore, more-IsNumbered,
}

-- A change of the elements that keeps their identifiers.
pub map_at_ids {ℓ} :
    {A : Type ℓ} (id_of : A → Text) (id : Text) (change : A → A)
    → ((x : A) → id_of (change x) ≡ id_of x)
    → (xs : List A) → map id_of (map_at id_of id change xs) ≡ map id_of xs
map_at_ids id_of id change same [] = refl
map_at_ids id_of id change same (x ∷ xs) =
    let rest = map_at_ids id_of id change same xs in
    elim (Bool-cases (text_eq (id_of x) id)) [
      | inl hit ↦ rw hit (let here = same x in cc)
      | inr miss ↦ rw miss cc
    ]

module _ (p : Platform) (numerals : Numerals p) (w : Bool) where
  first_domains-IsNumbered :
      (hostname : Text) (n : ℕ)
      → (n ≤ (first_domains p hostname n).1)
        × IsNumbered p numerals
            (first_domains p hostname n).1
            (map Domain.id (first_domains p hostname n).0)
  unfolding first_domains
  first_domains-IsNumbered hostname n = elim (Bool-cases (is_empty hostname)) [
    | inl e ↦ rw e (omega arith, (tt, tt))
    | inr e ↦ rw e (
      omega arith,
      snoc-IsNumbered p numerals (codes "d") n n (n + 1) [] (omega arith) (omega arith) (tt, tt),
    )
  ]

  pub add_tenant-IsNumberedStore :
      (name slug hostname : Text) (s : Store)
      → IsNumberedStore p numerals s
      → IsNumberedStore p numerals (add_tenant p w name slug hostname s).0
  unfolding add_tenant new_tenant
  add_tenant-IsNumberedStore name slug hostname s h =
      let (le, fresh) = first_domains-IsNumbered hostname (s.counter + 1) in
      let m = (first_domains p hostname (s.counter + 1)).1 in
      let id = uid p (codes "t") s.counter in
      let t = new_tenant p name slug id (first_domains p hostname (s.counter + 1)).0 in
      tenants-IsNumberedStore p numerals w (s.state.tenants ++ (t ∷ [])) m s (omega arith)
        (more-IsNumbered p numerals Tenant.id (codes "t") s.counter m s.state.tenants t refl
          (omega arith) h.tenants)
        (All-append (TenantNumbered p numerals m) s.state.tenants (t ∷ [])
          (later_All Tenant.id (TenantNumbered p numerals) (later_tenant p numerals) s.counter m
            s.state.tenants (omega arith) h.in_tenants)
          ((fresh, (tt, tt)), tt))
        h

  pub update_tenant-IsNumberedStore :
      (id name slug status : Text) (s : Store)
      → IsNumberedStore p numerals s
      → IsNumberedStore p numerals (update_tenant p w id (edit name slug status) s)
  unfolding update_tenant apply_patch
  update_tenant-IsNumberedStore id name slug status s h =
      let (ids, each) =
        map_at_keeps Tenant.id (TenantNumbered p numerals) (later_tenant p numerals) id
          (apply_patch (edit name slug status)) s.counter (λ t q. (refl, q)) s.state.tenants
          h.in_tenants in
      tenants-IsNumberedStore p numerals w _ s.counter s (omega arith)
        (subst (IsNumbered p numerals s.counter) (sym ids) h.tenants) each h

  pub add_domain-IsNumberedStore :
      (tenant_id hostname : Text) (s : Store)
      → IsNumberedStore p numerals s
      → IsNumberedStore p numerals (add_domain p w tenant_id hostname s)
  unfolding add_domain with_domain
  add_domain-IsNumberedStore tenant_id hostname s h =
      mutate-IsNumberedStore p numerals w tenant_id (with_domain p hostname) s
        (λ t n (d, r). (
          refl,
          omega arith,
          (
            more-IsNumbered p numerals Domain.id (codes "d") n (n + 1) t.domains _ refl
                (omega arith) d,
            later-IsNumbered p numerals n (n + 1) _ (omega arith) r,
          ),
        ))
        h

  pub remove_domain-IsNumberedStore :
      (tenant_id domain_id : Text) (s : Store)
      → IsNumberedStore p numerals s
      → IsNumberedStore p numerals (remove_domain p w tenant_id domain_id s)
  unfolding remove_domain without_domain
  remove_domain-IsNumberedStore tenant_id domain_id s h =
      mutate-IsNumberedStore p numerals w tenant_id (without_domain domain_id) s
        (λ t n (d, r). (
          refl,
          omega arith,
          (
            filter-IsNumbered p numerals Domain.id (λ x. not (text_eq x.id domain_id)) n t.domains
                d,
            r,
          ),
        ))
        h

  pub add_resource-IsNumberedStore :
      (tenant_id : Text) (definition : Definition) (values : List (Text × Option Text)) (s : Store)
      → IsNumberedStore p numerals s
      → IsNumberedStore p numerals (add_resource p w tenant_id definition values s)
  unfolding add_resource with_resource
  add_resource-IsNumberedStore tenant_id definition values s h =
      mutate-IsNumberedStore p numerals w tenant_id (with_resource p definition values) s
        (λ t n (d, r). (
          refl,
          omega arith,
          (
            later-IsNumbered p numerals n (n + 1) _ (omega arith) d,
            more-IsNumbered p numerals Resource.id (codes "r") n (n + 1) t.resources _ refl
                (omega arith) r,
          ),
        ))
        h

  pub toggle_resource_status-IsNumberedStore :
      (tenant_id resource_id : Text) (s : Store)
      → IsNumberedStore p numerals s
      → IsNumberedStore p numerals (toggle_resource_status p w tenant_id resource_id s)
  unfolding toggle_resource_status with_toggled
  toggle_resource_status-IsNumberedStore tenant_id resource_id s h =
      mutate-IsNumberedStore p numerals w tenant_id (with_toggled resource_id) s
        (λ t n (d, r). (
          refl,
          omega arith,
          (
            d,
            subst (IsNumbered p numerals n)
                (sym (map_at_ids Resource.id resource_id toggle_resource (λ x. refl) t.resources))
                r,
          ),
        ))
        h

  pub remove_resource-IsNumberedStore :
      (tenant_id resource_id : Text) (s : Store)
      → IsNumberedStore p numerals s
      → IsNumberedStore p numerals (remove_resource p w tenant_id resource_id s)
  unfolding remove_resource without_resource
  remove_resource-IsNumberedStore tenant_id resource_id s h =
      mutate-IsNumberedStore p numerals w tenant_id (without_resource resource_id) s
        (λ t n (d, r). (
          refl,
          omega arith,
          (
            d,
            filter-IsNumbered p numerals Resource.id (λ x. not (text_eq x.id resource_id)) n
                t.resources r,
          ),
        ))
        h
