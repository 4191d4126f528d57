-- ===== src/Proto/SeedIds.antt =====
-- The identifiers of the example data are numbered before any draw: a drawn one has two dashes.
use tenancit.Base.{
  ℕ, ◌+◌, ◌≤◌, ◌≡◌, refl, ap, Bool, true, not, ◌&&◌, List, [], ◌∷◌, ◌++◌, map, Text, text_eq,
  text_eq_iff, All, all, all_iff, All-map, arith, leb, leb_iff, ◌==◌, if◌then◌else◌,
}
use tenancit.Proto.Types.{Domain, Resource, Tenant, Field, Definition, ApiClient}
use tenancit.Proto.Seed as Seed
use tenancit.Proto.Store.{Platform, uid, seed}
use tenancit.Proto.Ids.{Numerals, IsPast, IsNumbered}
use tenancit.Proto.Numbered.{TenantNumbered, DefinitionNumbered, IsNumberedState}

abbrev dashes : Text → ℕ
dashes [] = 0
dashes (c ∷ s) = (if c == b'-' then 1 else 0) + dashes s

dashes-append : (s t : Text) → dashes (s ++ t) ≡ dashes s + dashes t
dashes-append [] t = omega arith
dashes-append (c ∷ s) t = omega (arith, dashes-append s t)

-- Distinct, each with one dash at most.
is_seed : List Text → Bool
is_seed [] = true
is_seed (x ∷ xs) = all (λ y. not (text_eq x y)) xs && (leb (dashes x) 1 && is_seed xs)

module _ (p : Platform) (numerals : Numerals p) where
  dashes-uid : (prefix : Text) (k : ℕ) → 2 ≤ dashes (uid p prefix k)
  unfolding uid
  dashes-uid prefix k =
      let a = dashes-append prefix (b'-' ∷ (Platform.now p k ++ (b'-' ∷ Platform.decimal p k))) in
      let b = dashes-append (Platform.now p k) (b'-' ∷ Platform.decimal p k) in omega arith

  dashes-IsPast : (n : ℕ) (id : Text) → dashes id ≤ 1 → IsPast p numerals n id
  dashes-IsPast n id few prefix k le e =
      let many = dashes-uid prefix k in let same = ap dashes e in absurd (omega arith)

  is_seed-IsNumbered : (n : ℕ) (ids : List Text) → is_seed ids ≡ true → IsNumbered p numerals n ids
  unfolding is_seed
  is_seed-IsNumbered n [] h = (tt, tt)
  is_seed-IsNumbered n (x ∷ xs) h =
      let others : all (λ y. not (text_eq x y)) xs ≡ true = ground arith in
      let few : leb (dashes x) 1 ≡ true = ground arith in
      let (d, past) = is_seed-IsNumbered n xs (ground arith) in
      (
        (
          All-map _ _ xs (λ y apart same. cc (apart, (text_eq_iff x y).1 same))
              ((all_iff (λ y. not (text_eq x y)) xs).0 others),
          d,
        ),
        (dashes-IsPast n x ((leb_iff (dashes x) 1).0 few), past),
      )

  seed_tenants-All :
      (n : ℕ) (ts : List Tenant)
      → all (λ t. is_seed (map Domain.id t.domains) && is_seed (map Resource.id t.resources)) ts
        ≡ true
      → All (TenantNumbered p numerals n) ts
  seed_tenants-All n [] h = tt
  seed_tenants-All n (t ∷ ts) h =
      let ds : is_seed (map Domain.id t.domains) ≡ true = ground arith in
      let rs : is_seed (map Resource.id t.resources) ≡ true = ground arith in
      (
        (
          is_seed-IsNumbered n (map Domain.id t.domains) ds,
          is_seed-IsNumbered n (map Resource.id t.resources) rs,
        ),
        seed_tenants-All n ts (ground arith),
      )

  seed_definitions-All :
      (n : ℕ) (ds : List Definition)
      → all (λ d. is_seed (map Field.id d.fields)) ds ≡ true
      → All (DefinitionNumbered p numerals n) ds
  seed_definitions-All n [] h = tt
  seed_definitions-All n (d ∷ ds) h =
      let fs : is_seed (map Field.id d.fields) ≡ true = ground arith in
      (is_seed-IsNumbered n (map Field.id d.fields) fs, seed_definitions-All n ds (ground arith))

  pub seed-IsNumberedState : (n : ℕ) → IsNumberedState p numerals n seed
  unfolding seed is_seed text_eq Seed.tenants Seed.definitions Seed.api_clients
  seed-IsNumberedState n = record {
    tenants = is_seed-IsNumbered n (map Tenant.id seed.tenants) refl;
    in_tenants = seed_tenants-All n seed.tenants refl;
    definitions = is_seed-IsNumbered n (map Definition.id seed.definitions) refl;
    in_definitions = seed_definitions-All n seed.definitions refl;
    clients = is_seed-IsNumbered n (map ApiClient.id seed.api_clients) refl;
  }
