-- ===== src/Proto/Unique.antt =====
-- Each action keeps the identifiers apart.
use tenancit.Base.{
  ℕ, ◌≤◌, ◌<◌, ◌≡◌, refl, sym, subst, ap, ◌∙◌, Bool, List, [], ◌∷◌, ◌++◌, map, Text, All, arith,
}
use tenancit.Proto.Types.{Tenant, Definition}
use tenancit.Proto.Store.{
  Store, Platform, uid, commit, commit_tenants, commit_definitions, change_at,
}
use tenancit.Proto.Tenants
use tenancit.Proto.Ids.{Numerals, IsNumbered, later-IsNumbered, snoc-IsNumbered}
use tenancit.Proto.Numbered.{
  TenantNumbered, DefinitionNumbered, IsNumberedState, later_tenant, later_definition, later_All,
  change_at-Keeps,
}

map-snoc {ℓ κ} :
    {A : Type ℓ} {B : Type κ} (f : A → B) (xs : List A) (x : A)
    → map f (xs ++ (x ∷ [])) ≡ map f xs ++ (f x ∷ [])
map-snoc f [] x = refl
map-snoc f (y ∷ xs) x = ap (λ l. f y ∷ l) (map-snoc f xs x)

module _ (p : Platform) (numerals : Numerals p) where
  abbrev pub IsNumberedStore : Store → Type 0
  IsNumberedStore s = IsNumberedState p numerals s.counter s.state

  -- A list with one more element, of the identifier that was drawn.
  pub more-IsNumbered {ℓ} :
      {A : Type ℓ} (id_of : A → Text) (prefix : Text) (n k : ℕ) (xs : List A) (x : A)
      → id_of x ≡ uid p prefix n
      → n < k
      → IsNumbered p numerals n (map id_of xs)
      → IsNumbered p numerals k (map id_of (xs ++ (x ∷ [])))
  more-IsNumbered id_of prefix n k xs x e lt h =
      subst (IsNumbered p numerals k)
        (sym (map-snoc id_of xs x ∙ ap (λ i. map id_of xs ++ (i ∷ [])) e))
        (snoc-IsNumbered p numerals prefix n n k (map id_of xs) (omega arith) lt h)

module _ (p : Platform) (numerals : Numerals p) (w : Bool) where
  -- New tenants, and a counter that was not counted down.
  pub tenants-IsNumberedStore :
      (ts : List Tenant) (n : ℕ) (s : Store)
      → s.counter ≤ n
      → IsNumbered p numerals n (map Tenant.id ts)
      → All (TenantNumbered p numerals n) ts
      → IsNumberedStore p numerals s
      → IsNumberedStore p numerals (commit_tenants p w (ts, n) s)
  unfolding commit
  tenants-IsNumberedStore ts n s le ids each h = record {
    tenants = ids;
    in_tenants = each;
    definitions = later-IsNumbered p numerals s.counter n _ le h.definitions;
    in_definitions =
        later_All Definition.id (DefinitionNumbered p numerals) (later_definition p numerals)
          s.counter n _ le h.in_definitions;
    clients = later-IsNumbered p numerals s.counter n _ le h.clients;
  }

  pub definitions-IsNumberedStore :
      (ds : List Definition) (n : ℕ) (s : Store)
      → s.counter ≤ n
      → IsNumbered p numerals n (map Definition.id ds)
      → All (DefinitionNumbered p numerals n) ds
      → IsNumberedStore p numerals s
      → IsNumberedStore p numerals (commit_definitions p w (ds, n) s)
  unfolding commit
  definitions-IsNumberedStore ds n s le ids each h = record {
    tenants = later-IsNumbered p numerals s.counter n _ le h.tenants;
    in_tenants =
        later_All Tenant.id (TenantNumbered p numerals) (later_tenant p numerals) s.counter n _ le
          h.in_tenants;
    definitions = ids;
    in_definitions = each;
    clients = later-IsNumbered p numerals s.counter n _ le h.clients;
  }

  -- A change of one tenant that draws identifiers.
  pub mutate-IsNumberedStore :
      (id : Text) (change : Tenant → ℕ → Tenant × ℕ) (s : Store)
      → ((t : Tenant) (n : ℕ)
          → TenantNumbered p numerals n t
          → ((change t n).0.id ≡ t.id)
            × (n ≤ (change t n).1)
            × TenantNumbered p numerals (change t n).1 (change t n).0)
      → IsNumberedStore p numerals s
      → IsNumberedStore p numerals (Tenants.mutate_tenant p w id change s)
  unfolding Tenants.mutate_tenant
  mutate-IsNumberedStore id change s step h =
      let (ids, le, each) =
        change_at-Keeps Tenant.id (TenantNumbered p numerals) (later_tenant p numerals) id change
          step s.state.tenants s.counter h.in_tenants in
      tenants-IsNumberedStore (change_at Tenant.id id change s.state.tenants s.counter).0
        (change_at Tenant.id id change s.state.tenants s.counter).1 s le
        (subst (IsNumbered p numerals _) (sym ids)
          (later-IsNumbered p numerals s.counter _ _ le h.tenants))
        each h
