-- ===== src/Proto/OneActive.antt =====
-- The page's rule: of each definition, a tenant has one active resource at most.
use tenancit.Base.{
  Distinct, ℕ, ◌≤◌, ◌≡◌, ◌≢◌, ◌⊎◌, inl, inr, refl, sym, subst, ap, ◌∙◌, Bool, true, false, ◌&&◌,
  List, [], ◌∷◌, ◌++◌, map, filter, any, length, Option, some, Text, text_eq, text_eq_iff, All,
  All-map, All-of-mem, filter-All, arith, Bool-cases, Option-cases, length-append,
}
use mathlib.Core.List.{Memᴰ}
use tenancit.Proto.Types.{Resource, Tenant, Definition}
use tenancit.Proto.Store.{Store, Platform, find, find_tenant, change_at, commit}
use tenancit.Proto.Tenants.{add_resource, mutate_tenant, with_resource}
use tenancit.Proto.Ids.{Numerals}
use tenancit.Proto.Unique.{IsNumberedStore}
use tenancit.Proto.Page.{
  has_active_status, active_keys, available, picked_def, required_filled, save_resource,
}

pub find-some {ℓ} :
    {A : Type ℓ} (test : A → Bool) (xs : List A) (x : A)
    → find test xs ≡ some x
    → (test x ≡ true) × Memᴰ x xs
find-some test [] x e = absurd cc
find-some test (y ∷ xs) x e = elim (Bool-cases (test y)) [
  | inl hit ↦
      let same : some y ≡ some x = rw hit at e in
      let here : x ≡ y = cc in (ap test here ∙ hit, Memᴰ.head here)
  | inr miss ↦ let (good, there) = find-some test xs x (rw miss at e) in (good, Memᴰ.tail there)
]

none_again {ℓ} :
    {A : Type ℓ} (id_of : A → Text) (id first : Text)
    → first ≡ id
    → (t : A) (xs : List A) → All (λ k. first ≢ k) (map id_of xs)
    → All (λ x. id_of x ≡ id → x ≡ t) xs
none_again id_of id first e t [] apart = tt
none_again id_of id first e t (x ∷ xs) (ne, apart) =
    (λ same. absurd (ne cc), none_again id_of id first e t xs apart)

-- The element of an identifier, among distinct ones.
find_only {ℓ} :
    {A : Type ℓ} (id_of : A → Text) (id : Text) (xs : List A) (t : A)
    → Distinct (map id_of xs)
    → find (λ x. text_eq (id_of x) id) xs ≡ some t
    → All (λ x. id_of x ≡ id → x ≡ t) xs
find_only id_of id [] t d e = tt
find_only id_of id (y ∷ xs) t (apart, d) e = elim (Bool-cases (text_eq (id_of y) id)) [
  | inl hit ↦
      let same : some y ≡ some t = rw hit at e in
      let hit_eq = (text_eq_iff (id_of y) id).0 hit in
      (λ _. cc, none_again id_of id (id_of y) hit_eq t xs apart)
  | inr miss ↦ (
    λ same. absurd (let no = (text_eq_iff (id_of y) id).1 same in cc),
    find_only id_of id xs t d (rw miss at e),
  )
]

pub change_at-All {ℓ κ} :
    {A : Type ℓ} (Q : A → Type κ) (id_of : A → Text) (id : Text) (change : A → ℕ → A × ℕ)
    (xs : List A) (n : ℕ)
    → All Q xs
    → All (λ x. id_of x ≡ id → (k : ℕ) → Q (change x k).0) xs
    → All Q (change_at id_of id change xs n).0
unfolding change_at
change_at-All Q id_of id change [] n h c = tt
change_at-All Q id_of id change (x ∷ xs) n (h, hs) (c, cs) =
    elim (Bool-cases (text_eq (id_of x) id)) [
      | inl hit ↦ rw hit (
        c ((text_eq_iff (id_of x) id).0 hit) n,
        change_at-All Q id_of id change xs (change x n).1 hs cs,
      )
      | inr miss ↦ rw miss (h, change_at-All Q id_of id change xs n hs cs)
    ]

-- The active resources of a definition.
abbrev pub active_of : Text → List Resource → List Resource
active_of key rs = filter (λ r. has_active_status r.status && text_eq r.definition_key key) rs

abbrev pub OnePerKind : Tenant → Type 0
OnePerKind t = (key : Text) → length (active_of key t.resources) ≤ 1

pub filter-append {ℓ} :
    {A : Type ℓ} (test : A → Bool) (xs ys : List A)
    → filter test (xs ++ ys) ≡ filter test xs ++ filter test ys
filter-append test [] ys = refl
filter-append test (x ∷ xs) ys = elim (Bool-cases (test x)) [
  | inl hit ↦ rw hit (ap (λ l. x ∷ l) (filter-append test xs ys))
  | inr miss ↦ rw miss (filter-append test xs ys)
]

-- A key that is no active one has no active resource.
pub unused_key :
    (key : Text) (rs : List Resource)
    → any
        (λ k. text_eq k key)
        (map Resource.definition_key (filter (λ r. has_active_status r.status) rs))
      ≡ false
    → active_of key rs ≡ []
unused_key key [] h = refl
unused_key key (r ∷ rs) h = elim (Bool-cases (has_active_status r.status)) [
  | inl active ↦
      let both = rw active at h in
      let other : text_eq r.definition_key key ≡ false = ground arith in
      rw (active, other) (unused_key key rs (ground arith))
  | inr inactive ↦ rw inactive (unused_key key rs (rw inactive at h))
]

more_active :
    (key : Text) (rs : List Resource) (r : Resource)
    → length (active_of key rs) ≤ 1
    → active_of r.definition_key rs ≡ []
    → length (active_of key (rs ++ (r ∷ []))) ≤ 1
more_active key rs r le unused =
    let split =
      filter-append (λ x. has_active_status x.status && text_eq x.definition_key key) rs (r ∷ []) in
    rw (split, length-append (active_of key rs) (active_of key (r ∷ [])))
      (elim (Bool-cases (text_eq r.definition_key key)) [
        | inl same ↦
            let e = (text_eq_iff r.definition_key key).0 same in
            let none_yet : active_of key rs ≡ [] = subst (λ k. active_of k rs ≡ []) e unused in
            rw (none_yet, same) (ground arith)
        | inr other ↦ rw other (ground arith)
      ])

picked_def-unused :
    (pick : Text) (definitions : List Definition) (t : Tenant) (d : Definition)
    → picked_def pick definitions t ≡ some d
    → any (λ k. text_eq k d.key) (active_keys t) ≡ false
unfolding picked_def available
picked_def-unused pick definitions t d e =
    let (_, m) = find-some _ (available definitions t) d e in
    let both = All-of-mem _ _ (filter-All _ definitions) m in ground arith

module _ (p : Platform) (numerals : Numerals p) (writable : Bool) where
  -- The form saves nothing, or adds a resource of an available definition to a tenant of the store.
  pub save_resource-cases :
      (tenant_id pick : Text) (values : List (Text × Option Text)) (s : Store)
      → (save_resource p writable tenant_id pick values s ≡ s)
        ⊎ ((t : Tenant) × (d : Definition) × (find_tenant tenant_id s ≡ some t)
            × (picked_def pick s.state.definitions t ≡ some d)
            × (save_resource p writable tenant_id pick values s
                ≡ add_resource p writable t.id d values s))
  unfolding save_resource
  save_resource-cases tenant_id pick values s = elim (Option-cases (find_tenant tenant_id s)) [
    | inl absent ↦ inl (rw (save_resource, absent) refl)
    | inr (t, found) ↦ elim (Option-cases (picked_def pick s.state.definitions t)) [
      | inl unpicked ↦ inl (rw (save_resource, found, unpicked) refl)
      | inr (d, picked) ↦ elim (Bool-cases (required_filled d values)) [
        | inl filled ↦ inr (t, d, found, picked, rw (save_resource, found, picked, filled) refl)
        | inr missing ↦ inl (rw (save_resource, found, picked, missing) refl)
      ]
    ]
  ]

  added-OnePerKind :
      (tenant_id pick : Text) (values : List (Text × Option Text)) (s : Store) (t : Tenant)
      (d : Definition)
      → IsNumberedStore p numerals s
      → find_tenant tenant_id s ≡ some t
      → picked_def pick s.state.definitions t ≡ some d
      → All OnePerKind s.state.tenants
      → All OnePerKind (add_resource p writable t.id d values s).state.tenants
  unfolding find_tenant add_resource mutate_tenant commit with_resource active_keys
  added-OnePerKind tenant_id pick values s t d h found picked one =
      let (same_id, m) = find-some _ s.state.tenants t found in
      let e = (text_eq_iff t.id tenant_id).0 same_id in
      let here = All-of-mem OnePerKind s.state.tenants one m in
      let unused =
        unused_key d.key t.resources (picked_def-unused pick s.state.definitions t d picked) in
      change_at-All OnePerKind Tenant.id t.id (with_resource p d values) s.state.tenants s.counter
        one
        (All-map _ _ s.state.tenants
          (λ x only same k key.
            subst (λ y. length (active_of key (with_resource p d values y k).0.resources) ≤ 1)
              (sym (only (same ∙ e))) (more_active key t.resources _ (here key) unused))
          (find_only Tenant.id tenant_id s.state.tenants t h.tenants.0 found))

  -- Where each tenant has at most one active resource of every definition, and the identifiers are
  -- numbered as a page's draws leave them: saving the form of a new resource keeps it so.
  pub save_resource-OnePerKind :
      (tenant_id pick : Text) (values : List (Text × Option Text)) (s : Store)
      → IsNumberedStore p numerals s
      → All OnePerKind s.state.tenants
      → All OnePerKind (save_resource p writable tenant_id pick values s).state.tenants
  save_resource-OnePerKind tenant_id pick values s h one =
      elim (save_resource-cases tenant_id pick values s) [
        | inl same ↦ subst (λ x. All OnePerKind x.state.tenants) (sym same) one
        | inr (t, d, found, picked, e) ↦
            subst (λ x. All OnePerKind x.state.tenants) (sym e)
              (added-OnePerKind tenant_id pick values s t d h found picked one)
      ]
