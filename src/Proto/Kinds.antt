-- ===== src/Proto/Kinds.antt =====
-- Active resources by definition.
use tenancit.Base.{
  ◌≤◌, ◌≡◌, inl, inr, refl, subst, Bool, true, false, not, ◌&&◌, List, [], ◌∷◌, map, filter, all,
  any, length, Text, text_eq, text_eq_iff, All, arith, Bool-cases,
}
use tenancit.Proto.Types.{Resource, Tenant}
use tenancit.Proto.Seed as Seed
use tenancit.Proto.Store.{seed, map_at}
use tenancit.Proto.Page.{has_active_status}
use tenancit.Proto.OneActive.{OnePerKind, active_of, unused_key}

pub map_at-All {ℓ κ} :
    {A : Type ℓ} (Q : A → Type κ) (id_of : A → Text) (id : Text) (change : A → A) (xs : List A)
    → ((x : A) → Q x → Q (change x))
    → All Q xs
    → All Q (map_at id_of id change xs)
map_at-All Q id_of id change [] step h = tt
map_at-All Q id_of id change (x ∷ xs) step (h, hs) = elim (Bool-cases (text_eq (id_of x) id)) [
  | inl hit ↦ rw hit (step x h, map_at-All Q id_of id change xs step hs)
  | inr miss ↦ rw miss (h, map_at-All Q id_of id change xs step hs)
]

-- Resources that are left out take no other one in.
pub fewer_active :
    (key : Text) (test : Resource → Bool) (rs : List Resource)
    → length (active_of key (filter test rs)) ≤ length (active_of key rs)
fewer_active key test [] = omega arith
fewer_active key test (r ∷ rs) = ground (arith, fewer_active key test rs)

abbrev is_apart : List Text → Bool
is_apart [] = true
is_apart (k ∷ ks) = not (any (λ x. text_eq x k) ks) && is_apart ks

abbrev keys_of : List Resource → List Text
keys_of rs = map Resource.definition_key (filter (λ r. has_active_status r.status) rs)

-- Active resources of different definitions.
one_of_each :
    (key : Text) (rs : List Resource) → is_apart (keys_of rs) ≡ true → length (active_of key rs) ≤ 1
one_of_each key [] h = omega arith
one_of_each key (r ∷ rs) h = elim (Bool-cases (has_active_status r.status)) [
  | inr inactive ↦ rw inactive (one_of_each key rs (rw inactive at h))
  | inl active ↦
      let both = rw active at h in
      let rest : is_apart (keys_of rs) ≡ true = ground arith in
      let fresh : any (λ x. text_eq x r.definition_key) (keys_of rs) ≡ false = ground arith in
      elim (Bool-cases (text_eq r.definition_key key)) [
        | inr other ↦ rw (active, other) (one_of_each key rs rest)
        | inl same ↦
            let e = (text_eq_iff r.definition_key key).0 same in
            let none_more : active_of key rs ≡ [] =
              subst (λ k. active_of k rs ≡ []) e (unused_key r.definition_key rs fresh) in
            rw (active, same, none_more) (omega arith)
      ]
]

all_apart :
    (ts : List Tenant) → all (λ t. is_apart (keys_of t.resources)) ts ≡ true → All OnePerKind ts
all_apart [] h = tt
all_apart (t ∷ ts) h =
    let here : is_apart (keys_of t.resources) ≡ true = ground arith in
    ((λ key. one_of_each key t.resources here), all_apart ts (ground arith))

pub seed-OnePerKind : All OnePerKind seed.tenants
unfolding seed Seed.tenants text_eq
seed-OnePerKind = all_apart seed.tenants refl
