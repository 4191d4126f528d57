-- ===== src/Catalogue/Claims.antt =====
-- All the calls of flowStep, one after the other.
use tenancit.Base.{
  ℕ, ◌≡◌, ◌≢◌, ◌↔◌, ◌⊎◌, inl, inr, refl, sym, subst, true, false, List, [], ◌∷◌, map, none, Text,
  All, All-map, Distinct, text_eq, text_eq_iff, is_empty, Bool-cases,
}
use mathlib.Core.List.{Memᴰ}
use tenancit.Catalogue.Defs.{Flows, SpecStep, get, set, is_some, claim_steps}
use tenancit.Catalogue.Steps.{
  append-nil_iff, get-set, IsOwned, set-IsOwned, key_of, InRange, IsFine, claim_step-cases,
}

abbrev pub HasPath : SpecStep → Type 0
HasPath s = is_empty s.path ≡ false

free-set_iff :
    (j k v : Text) (m : List (Text × Text))
    → (get k (set j v m) ≡ none) ↔ ((j ≢ k) × (get k m ≡ none))
free-set_iff j k v m = elim (Bool-cases (text_eq j k)) [
  | inl hit ↦
      let e = (text_eq_iff j k).0 hit in
      rw (get-set k j v m, hit) (λ h. absurd cc, λ (ne, _). absurd (ne e))
  | inr miss ↦
      rw (get-set k j v m, miss)
        (λ h. ((λ e. absurd (let no = (text_eq_iff j k).1 e in cc)), h), λ (_, h). h)
]

module _ {A : Type 0} {B : Type 0} (f : A → B) (P : B → Type 0) where
  pub All-of-map : (xs : List A) → All (λ x. P (f x)) xs → All P (map f xs)
  All-of-map [] h = tt
  All-of-map (x ∷ xs) (h, hs) = (h, All-of-map xs hs)

  pub All-at-map : (xs : List A) → All P (map f xs) → All (λ x. P (f x)) xs
  All-at-map [] h = tt
  All-at-map (x ∷ xs) (h, hs) = (h, All-at-map xs hs)

All-both :
    {A : Type 0} {P Q R : A → Type 0} (xs : List A)
    → ((x : A) → P x → Q x → R x)
    → All P xs
    → All Q xs
    → All R xs
All-both [] both h k = tt
All-both (x ∷ xs) both (h, hs) (k, ks) = (both x h k, All-both xs both hs ks)

module _ (decimal : ℕ → Text) (flows : Flows) where
  -- The owners behind calls that are fine.
  abbrev pub owners_of : List SpecStep → List (Text × Text) → List (Text × Text)
  owners_of [] m = m
  owners_of (s ∷ rest) m = owners_of rest (set (key_of decimal flows s) s.path m)

  abbrev pub AreFine : List SpecStep → List (Text × Text) → Type 0
  AreFine [] m = Unit
  AreFine (s ∷ rest) m =
      IsFine decimal flows s m × AreFine rest (set (key_of decimal flows s) s.path m)

  pub claim_steps-AreFine :
      (steps : List SpecStep) (m : List (Text × Text))
      → All HasPath steps
      → IsOwned m
      → (claim_steps decimal flows steps m).0 ≡ []
      → AreFine steps m
  unfolding claim_steps
  claim_steps-AreFine [] m paths owned e = tt
  claim_steps-AreFine (s ∷ rest) m (path, paths) owned e =
      elim (claim_step-cases decimal flows s m owned) [
        | inr (wrong, _) ↦ absurd (wrong ((append-nil_iff _ _).0 e).0)
        | inl (claimed, fine) ↦
            let tail : (claim_steps decimal flows rest (set (key_of decimal flows s) s.path m)).0
                ≡ [] =
              subst (λ c. (claim_steps decimal flows rest c.1).0 ≡ []) claimed
                ((append-nil_iff _ _).0 e).1 in
            (
              fine,
              claim_steps-AreFine rest (set (key_of decimal flows s) s.path m) paths
                  (set-IsOwned _ s.path m path owned) tail,
            )
      ]

  pub AreFine-claim_steps :
      (steps : List SpecStep) (m : List (Text × Text))
      → All HasPath steps
      → IsOwned m
      → AreFine steps m
      → claim_steps decimal flows steps m ≡ ([], owners_of steps m)
  unfolding claim_steps
  AreFine-claim_steps [] m paths owned h = refl
  AreFine-claim_steps (s ∷ rest) m (path, paths) owned (fine, h) =
      elim (claim_step-cases decimal flows s m owned) [
        | inr (_, wrong) ↦ absurd (wrong fine)
        | inl (claimed, _) ↦ rw claimed (
            AreFine-claim_steps rest (set (key_of decimal flows s) s.path m) paths
              (set-IsOwned _ s.path m path owned) h)
      ]

  -- The calls are fine where they are in range, of different steps, and of steps without an owner.
  pub AreFine-iff :
      (steps : List SpecStep) (m : List (Text × Text))
      → AreFine steps m ↔ (
          All (InRange decimal flows) steps
          × All (λ s. get (key_of decimal flows s) m ≡ none) steps
          × Distinct (map (key_of decimal flows) steps))
  AreFine-iff [] m = (λ _. (tt, tt, tt), λ _. tt)
  AreFine-iff (s ∷ rest) m =
      let k = key_of decimal flows s in
      let (there, back) = AreFine-iff rest (set k s.path m) in
      (
        λ ((inside, free), fine).
            let (insides, frees, distinct) = there fine in
            (
              (inside, insides),
              (
                free,
                All-map _ _ rest (λ x e. ((free-set_iff k (key_of decimal flows x) s.path m).0 e).1)
                    frees,
              ),
              (
                All-of-map (key_of decimal flows) (λ y. k ≢ y) rest
                    (All-map _ _ rest
                      (λ x e. ((free-set_iff k (key_of decimal flows x) s.path m).0 e).0) frees),
                distinct,
              ),
            ),
        λ ((inside, insides), (free, frees), (apart, distinct)). (
          (inside, free),
          back (
            insides,
            All-both rest (λ x ne e. (free-set_iff k (key_of decimal flows x) s.path m).1 (ne, e))
                (All-at-map (key_of decimal flows) (λ y. k ≢ y) rest apart) frees,
            distinct,
          ),
        ),
      )

  -- Owned are the keys that were owned before, and those of the calls.
  pub owners_of-has_iff :
      (steps : List SpecStep) (m : List (Text × Text)) (k : Text)
      → (is_some (get k (owners_of steps m)) ≡ true)
        ↔ ((is_some (get k m) ≡ true) ⊎ Memᴰ k (map (key_of decimal flows) steps))
  owners_of-has_iff [] m k = (inl, λ h. elim h [ inl before ↦ before | inr at ↦ elim at [ ] ])
  owners_of-has_iff (s ∷ rest) m k =
      let j = key_of decimal flows s in
      let (there, back) = owners_of-has_iff rest (set j s.path m) k in
      elim (Bool-cases (text_eq j k)) [
        | inl hit ↦
            let e = (text_eq_iff j k).0 hit in
            let here : is_some (get k (set j s.path m)) ≡ true =
              rw (get-set k j s.path m, hit) refl in
            (λ _. inr (Memᴰ.head (sym e)), λ _. back (inl here))
        | inr miss ↦
            let same : get k (set j s.path m) ≡ get k m = rw (get-set k j s.path m, miss) refl in
            (
              λ h. elim (there h) [
                | inl before ↦ inl (rw same at before)
                | inr at ↦ inr (Memᴰ.tail at)
              ],
              λ h. elim h [
                | inl before ↦ back (inl (rw same before))
                | inr (Memᴰ.head e) ↦ absurd (let no = (text_eq_iff j k).1 (sym e) in cc)
                | inr (Memᴰ.tail at) ↦ back (inr at)
              ],
            )
      ]
