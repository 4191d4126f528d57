-- ===== src/Panel/Readiness.antt =====
-- What the summary of a tenant says.
use mathlib.Core.Logic.{⊎_elim}
use tenancit.Base.{
  ℕ, ◌-◌, ◌<◌, ◌≡◌, ◌↔◌, ◌⊎◌, inl, inr, refl, Bool, true, false, not, ◌||◌, List, [], ◌∷◌, codes,
  text_eq_iff, is_empty_iff, trim, any, filter, length, length-filter-le, ltb, arith, Bool-cases,
}
use tenancit.Panel.Summary.{
  ResourceFieldValue, TenantResource, TenantReadiness, ready, attention, incomplete, Input,
  is_active, is_blank, is_incomplete, readiness_of, summarize_tenant_overview,
}

-- Some resource passes a test.
abbrev pub Some : (TenantResource → Type 0) → List TenantResource → Type 0
Some P [] = ⊥
Some P (r ∷ rs) = P r ⊎ Some P rs

abbrev pub IsActive : TenantResource → Type 0
IsActive r = r.status ≡ codes "active"

-- A required field has nothing but spaces.
abbrev pub HasBlank : List ResourceFieldValue → Type 0
HasBlank [] = ⊥
HasBlank (f ∷ fs) = ((f.required ≡ true) × (trim f.value ≡ [])) ⊎ HasBlank fs

abbrev pub IsIncomplete : TenantResource → Type 0
IsIncomplete r = HasBlank r.fields

is_active_iff : (r : TenantResource) → (is_active r ≡ true) ↔ IsActive r
unfolding is_active
is_active_iff r = text_eq_iff r.status (codes "active")

any-HasBlank : (fs : List ResourceFieldValue) → (any is_blank fs ≡ true) ↔ HasBlank fs
unfolding is_blank
any-HasBlank [] = ground arith
any-HasBlank (f ∷ fs) = ground (arith, is_empty_iff (trim f.value), any-HasBlank fs)

is_incomplete_iff : (r : TenantResource) → (is_incomplete r ≡ true) ↔ IsIncomplete r
unfolding is_incomplete
is_incomplete_iff r = any-HasBlank r.fields

filter-Some :
    (test : TenantResource → Bool) (P : TenantResource → Type 0)
    → ((r : TenantResource) → (test r ≡ true) ↔ P r)
    → (rs : List TenantResource) → (ltb 0 (length (filter test rs)) ≡ true) ↔ Some P rs
filter-Some test P h [] = ground arith
filter-Some test P h (r ∷ rs) =
    let (to, from) = h r in
    let (more, back) = filter-Some test P h rs in
    elim (Bool-cases (test r)) [
      | inl hit ↦ rw hit (λ k. inl (to hit), λ k. ground arith)
      | inr miss ↦ rw miss (λ k. inr (more k), ⊎_elim (λ p. cc (from p, miss)) back)
    ]

rest-Some :
    (test : TenantResource → Bool) (P : TenantResource → Type 0)
    → ((r : TenantResource) → (test r ≡ true) ↔ P r)
    → (rs : List TenantResource)
    → (ltb 0 (length rs - length (filter test rs)) ≡ true) ↔ Some (λ r. ¬ P r) rs
rest-Some test P h [] = ground arith
rest-Some test P h (r ∷ rs) =
    let (to, from) = h r in
    let (more, back) = rest-Some test P h rs in
    let bound = length-filter-le test rs in
    elim (Bool-cases (test r)) [
      | inl hit ↦ rw hit (
        λ k. inr (more (ground arith)),
        ⊎_elim (λ n. absurd (n (to hit))) (λ k. let f = back k in ground arith),
      )
      | inr miss ↦ rw miss (λ k. inl (λ p. cc (from p, miss)), λ k. ground arith)
    ]

-- Nothing keeps the tenant from being used: it is active, it has a domain and an active resource,
-- and no resource lacks a required value.
abbrev pub IsUsable : Input → Type 0
IsUsable input =
    (input.tenant_status ≡ codes "active")
    × (0 < input.domain_count)
    × Some IsActive input.resources
    × (¬ Some IsIncomplete input.resources)

abbrev pub HasInactive : Input → Type 0
HasInactive input = Some (λ r. ¬ IsActive r) input.resources

-- How ready a tenant is.
abbrev pub Means : TenantReadiness → Input → Type 0
Means ready input = IsUsable input × (¬ HasInactive input)
Means attention input = IsUsable input × HasInactive input
Means incomplete input = ¬ IsUsable input

-- A condition and the test of it.
usable_test :
    {A B C D : Type 0} (a b c d : Bool)
    → (a ≡ true) ↔ A
    → (b ≡ true) ↔ B
    → (c ≡ true) ↔ C
    → (d ≡ true) ↔ D
    → (not a || not b || not c || d ≡ false) ↔ (A × B × C × ¬ D)
usable_test a b c d (ha, ha') (hb, hb') (hc, hc') (hd, hd') = ground arith

readiness_of-cases :
    {U I : Type 0} (b i : Bool)
    → (b ≡ false) ↔ U
    → (i ≡ true) ↔ I
    → (((readiness_of b i ≡ ready) ↔ (U × ¬ I)) × ((readiness_of b i ≡ attention) ↔ (U × I)))
      × ((readiness_of b i ≡ incomplete) ↔ (¬ U))
unfolding readiness_of
readiness_of-cases {U} {I} true i (u, u') (j, j') =
    let never : U → ⊥ = λ x. cc (u' x) in
    (
      ((λ e. cc, λ (x, _). absurd (never x)), (λ e. cc, λ (x, _). absurd (never x))),
      (λ e. never, λ n. refl),
    )
readiness_of-cases {U} {I} false true (u, u') (j, j') = (
  ((λ e. cc, λ (x, n). absurd (n (j refl))), (λ e. (u refl, j refl), λ _. refl)),
  (λ e. cc, λ n. absurd (n (u refl))),
)
readiness_of-cases {U} {I} false false (u, u') (j, j') =
    let never : I → ⊥ = λ x. cc (j' x) in
    (
      ((λ e. (u refl, never), λ _. refl), (λ e. cc, λ (_, x). absurd (never x))),
      (λ e. cc, λ n. absurd (n (u refl))),
    )

positive_iff : (n : ℕ) → (ltb 0 n ≡ true) ↔ (0 < n)
positive_iff n = ground arith

-- The readiness of a summary: ready, exactly when the tenant is active and has a domain and an
-- active resource, no resource has a required field without a value, and every resource is active;
-- attention, exactly when only the last of these fails; incomplete, exactly when another fails.
pub summarize_tenant_overview-Means :
    (input : Input) (a : TenantReadiness)
    → ((summarize_tenant_overview input).readiness ≡ a) ↔ Means a input
unfolding summarize_tenant_overview
summarize_tenant_overview-Means input a =
    let active = filter-Some is_active IsActive is_active_iff input.resources in
    let inactive = rest-Some is_active IsActive is_active_iff input.resources in
    let lacking = filter-Some is_incomplete IsIncomplete is_incomplete_iff input.resources in
    let status = text_eq_iff input.tenant_status (codes "active") in
    let usable = usable_test _ _ _ _ status (positive_iff input.domain_count) active lacking in
    let (pair, last) = readiness_of-cases _ _ usable inactive in
    elim a as (λ k. ((summarize_tenant_overview input).readiness ≡ k) ↔ Means k input) [
      | ready ↦ pair.0
      | attention ↦ pair.1
      | incomplete ↦ last
    ]
