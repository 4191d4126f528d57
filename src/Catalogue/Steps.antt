-- ===== src/Catalogue/Steps.antt =====
-- The calls of flowStep against the flows.
use tenancit.Base.{
  ℕ, ◌≤◌, ◌≡◌, ◌≢◌, ◌↔◌, ◌⊎◌, inl, inr, refl, sym, subst, ap, ◌∙◌, Bool, true, false, not, ◌||◌,
  List, [], ◌∷◌, ◌++◌, length, none, some, Text, All, text_eq, text_eq_iff, is_empty, ltb,
  if◌then◌else◌, Bool-cases, Option-cases, arith,
}
use tenancit.Catalogue.Defs.{
  Flow, Flows, SpecStep, CatalogError, get, set, is_some, or_else, error_if, step_key, claim_step,
}

pub append-nil_iff {ℓ} : {A : Type ℓ} (xs ys : List A) → (xs ++ ys ≡ []) ↔ ((xs ≡ []) × (ys ≡ []))
append-nil_iff [] ys = (λ e. (refl, e), λ (_, e). e)
append-nil_iff (x ∷ xs) ys = (λ e. absurd cc, λ (e, _). absurd cc)

pub error_if-nil_iff : (test : Bool) (e : CatalogError) → (error_if test e ≡ []) ↔ (test ≡ false)
error_if-nil_iff true e = (λ h. absurd cc, λ h. absurd cc)
error_if-nil_iff false e = (λ h. refl, λ h. refl)

other_key : (i j k : Text) → text_eq i k ≡ true → text_eq i j ≡ false → text_eq j k ≡ false
other_key i j k hit other = elim (Bool-cases (text_eq j k)) [
  | inr apart ↦ apart
  | inl same ↦
      let a = (text_eq_iff i k).0 hit in
      let b = (text_eq_iff j k).0 same in let clash = (text_eq_iff i j).1 (a ∙ sym b) in absurd cc
]

pub get-set {ℓ} :
    {A : Type ℓ} (k j : Text) (v : A) (m : List (Text × A))
    → get k (set j v m) ≡ (if text_eq j k then some v else get k m)
get-set k j v [] = refl
get-set k j v ((i, w) ∷ rest) =
    let more = get-set k j v rest in
    elim (Bool-cases (text_eq i j)) [
      | inl same ↦
          let e = (text_eq_iff i j).0 same in
          rw same (elim (Bool-cases (text_eq i k)) [
            | inl hit ↦ let here = subst (λ x. text_eq x k ≡ true) e hit in rw (hit, here) refl
            | inr miss ↦ let here = subst (λ x. text_eq x k ≡ false) e miss in rw (miss, here) refl
          ])
      | inr other ↦ rw (other) (elim (Bool-cases (text_eq i k)) [
        | inl hit ↦
            let apart : text_eq j k ≡ false = other_key i j k hit other in rw (hit, apart) refl
        | inr miss ↦ rw miss more
      ])
    ]

append-cons-ne {ℓ} : {A : Type ℓ} (xs : List A) (y : A) (ys : List A) → xs ++ (y ∷ ys) ≢ []
append-cons-ne [] y ys e = absurd cc
append-cons-ne (x ∷ xs) y ys e = absurd cc

-- Owners have a path.
pub IsOwned : List (Text × Text) → Type 0
IsOwned = All (λ o. is_empty o.1 ≡ false)

pub IsOwned-nil : IsOwned []
unfolding IsOwned
IsOwned-nil = tt

owner_none :
    (k : Text) (m : List (Text × Text))
    → IsOwned m
    → is_empty (or_else (get k m) []) ≡ not (is_some (get k m))
unfolding IsOwned is_empty
owner_none k [] h = refl
owner_none k ((i, w) ∷ rest) (named, h) = elim (Bool-cases (text_eq i k)) [
  | inl hit ↦ rw hit named
  | inr miss ↦ rw miss (owner_none k rest h)
]

pub set-IsOwned :
    (k v : Text) (m : List (Text × Text)) → is_empty v ≡ false → IsOwned m → IsOwned (set k v m)
unfolding IsOwned
set-IsOwned k v [] named h = (named, tt)
set-IsOwned k v ((i, w) ∷ rest) named (first, h) = elim (Bool-cases (text_eq i k)) [
  | inl hit ↦ rw hit (named, h)
  | inr miss ↦ rw miss (first, set-IsOwned k v rest named h)
]

module _ (decimal : ℕ → Text) (flows : Flows) where
  abbrev pub key_of : SpecStep → Text
  key_of s = step_key decimal s.flow_id s.number

  -- A call of a step that its flow has.
  abbrev pub InRange : SpecStep → Type 0
  InRange s =
      (flow : Flow) × (get s.flow_id flows ≡ some flow)
      × (1 ≤ s.number)
      × (s.number ≤ length flow.steps)

  abbrev pub IsFine : SpecStep → List (Text × Text) → Type 0
  IsFine s m = InRange s × (get (key_of s) m ≡ none)

  abbrev is_outside : SpecStep → Flow → Bool
  is_outside s flow = ltb s.number 1 || ltb (length flow.steps) s.number

  -- A call that is fine is claimed without an error, and any other one has an error.
  pub claim_step-cases :
      (s : SpecStep) (m : List (Text × Text))
      → IsOwned m
      → ((claim_step decimal flows s m ≡ ([], set (key_of s) s.path m)) × IsFine s m)
        ⊎ (((claim_step decimal flows s m).0 ≢ []) × ¬ IsFine s m)
  unfolding claim_step
  claim_step-cases s m h = elim (Option-cases (get s.flow_id flows)) [
    | inl unknown ↦ inr (
      rw (claim_step, unknown) (λ e. absurd cc),
      λ ((flow, known, _, _), _). absurd (let no = sym unknown ∙ known in cc),
    )
    | inr (flow, known) ↦
        let blank = owner_none (key_of s) m h in
        elim (Option-cases (get (key_of s) m)) [
          | inr (owner, taken) ↦
              let named : is_empty (or_else (get (key_of s) m) []) ≡ false =
                blank ∙ ap (λ o. not (is_some o)) taken in
              inr (
                rw (claim_step, known, named) (λ e. absurd (append-cons-ne _ _ _ e)),
                λ (_, free). absurd (let no = sym free ∙ taken in cc),
              )
          | inl free ↦
              let empty : is_empty (or_else (get (key_of s) m) []) ≡ true =
                blank ∙ ap (λ o. not (is_some o)) free in
              elim (Bool-cases (is_outside s flow)) [
                | inl outside ↦ inr (
                  rw (claim_step, known, empty, outside) (λ e. absurd cc),
                  λ ((flow2, known2, low, high), _).
                      let same : flow ≡ flow2 = (let e = sym known ∙ known2 in cc) in
                      let high_here = subst (λ f. s.number ≤ length f.steps) (sym same) high in
                      absurd (ground arith),
                )
                | inr inside ↦ inl (
                  rw (claim_step, known, empty, inside) refl,
                  ((flow, known, ground arith, ground arith), free),
                )
              ]
        ]
  ]
