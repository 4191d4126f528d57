-- ===== src/Proto/Numbered.antt =====
-- The identifiers of a store: no two tenants, definitions or clients share one, nor do two domains or
-- resources of a tenant, nor two fields of a definition.
use tenancit.Base.{
  ℕ, ◌≤◌, ◌≡◌, inl, inr, refl, sym, subst, List, [], ◌∷◌, map, Text, text_eq, All, All-map, arith,
  Bool-cases,
}
use tenancit.Proto.Types.{Domain, Resource, Tenant, Field, Definition, ApiClient, State}
use tenancit.Proto.Store.{Platform, change_at, map_at}
use tenancit.Proto.Ids.{Numerals, IsNumbered, later-IsNumbered}

-- A change of one element, that may draw identifiers, keeps the list's own identifiers, and a
-- property of the elements that holds for later counters too.
module _ {A : Type 0} (id_of : A → Text) (P : ℕ → A → Type 0)
    (later : (m n : ℕ) (x : A) → m ≤ n → P m x → P n x) where
  -- The elements of a result keep the identifiers of a list, and have the property.
  abbrev pub Keeps : List A → ℕ → List A × ℕ → Type 0
  Keeps xs n r = (map id_of r.0 ≡ map id_of xs) × (n ≤ r.1) × All (P r.1) r.0

  pub change_at-Keeps :
      (id : Text) (change : A → ℕ → A × ℕ)
      → ((x : A) (n : ℕ)
          → P n x
          → (id_of (change x n).0 ≡ id_of x)
            × (n ≤ (change x n).1)
            × P (change x n).1 (change x n).0)
      → (xs : List A) (n : ℕ) → All (P n) xs
      → Keeps xs n (change_at id_of id change xs n)
  unfolding change_at
  change_at-Keeps id change step [] n h = (refl, omega arith, tt)
  change_at-Keeps id change step (x ∷ xs) n (h, hs) = elim (Bool-cases (text_eq (id_of x) id)) [
    | inl hit ↦
        let (y, m) = change x n in
        let (same, le, here) = step x n h in
        let (ys, k) = change_at id_of id change xs m in
        let (ids, more, rest) =
          change_at-Keeps id change step xs m (All-map _ _ xs (λ z. later n m z le) hs) in
        let e : change_at id_of id change (x ∷ xs) n ≡ (y ∷ ys, k) = rw hit refl in
        subst (Keeps (x ∷ xs) n) (sym e) (cc, omega arith, (later m k y more here, rest))
    | inr miss ↦
        let (ys, k) = change_at id_of id change xs n in
        let (ids, more, rest) = change_at-Keeps id change step xs n hs in
        let e : change_at id_of id change (x ∷ xs) n ≡ (x ∷ ys, k) = rw miss refl in
        subst (Keeps (x ∷ xs) n) (sym e) (cc, more, (later n k x more h, rest))
  ]

  pub map_at_keeps :
      (id : Text) (change : A → A) (n : ℕ)
      → ((x : A) → P n x → (id_of (change x) ≡ id_of x) × P n (change x))
      → (xs : List A) → All (P n) xs
      → (map id_of (map_at id_of id change xs) ≡ map id_of xs)
        × All (P n) (map_at id_of id change xs)
  map_at_keeps id change n step [] h = (refl, tt)
  map_at_keeps id change n step (x ∷ xs) (h, hs) =
      let (ids, rest) = map_at_keeps id change n step xs hs in
      elim (Bool-cases (text_eq (id_of x) id)) [
        | inl hit ↦ let (same, here) = step x h in rw hit (cc, (here, rest))
        | inr miss ↦ rw miss (cc, (h, rest))
      ]

  pub later_All : (m n : ℕ) (xs : List A) → m ≤ n → All (P m) xs → All (P n) xs
  later_All m n xs le h = All-map _ _ xs (λ x. later m n x le) h

module _ (p : Platform) (numerals : Numerals p) where
  abbrev pub TenantNumbered : ℕ → Tenant → Type 0
  TenantNumbered n t =
      IsNumbered p numerals n (map Domain.id t.domains)
      × IsNumbered p numerals n (map Resource.id t.resources)

  abbrev pub DefinitionNumbered : ℕ → Definition → Type 0
  DefinitionNumbered n d = IsNumbered p numerals n (map Field.id d.fields)

  pub record IsNumberedState (n : ℕ) (s : State) : Type 0 where
    pub tenants : IsNumbered p numerals n (map Tenant.id s.tenants)
    pub in_tenants : All (TenantNumbered n) s.tenants
    pub definitions : IsNumbered p numerals n (map Definition.id s.definitions)
    pub in_definitions : All (DefinitionNumbered n) s.definitions
    pub clients : IsNumbered p numerals n (map ApiClient.id s.api_clients)

  pub later_tenant : (m n : ℕ) (t : Tenant) → m ≤ n → TenantNumbered m t → TenantNumbered n t
  later_tenant m n t le (d, r) =
      (later-IsNumbered p numerals m n _ le d, later-IsNumbered p numerals m n _ le r)

  pub later_definition :
      (m n : ℕ) (d : Definition) → m ≤ n → DefinitionNumbered m d → DefinitionNumbered n d
  later_definition m n d le h = later-IsNumbered p numerals m n _ le h
