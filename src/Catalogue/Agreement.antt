-- ===== src/Catalogue/Agreement.antt =====
-- When the specs call the steps of the flows.
use tenancit.Base.{
  ℕ, ◌≡◌, ◌≢◌, ◌↔◌, inl, inr, refl, sym, subst, ap, ◌∙◌, true, false, not, List, [], ◌∷◌, map,
  length, none, Text, All, All-map, Distinct, ◌==◌, ==_iff, arith, after_last,
}
use mathlib.Core.List.{Memᴰ}
use tenancit.Catalogue.Defs.{
  Flows, SpecStep, get, is_some, step_key, claim_steps, missing_of, missing_steps, spec_errors,
  step_missing, call_total,
}
use tenancit.Catalogue.Steps.{append-nil_iff, error_if-nil_iff, IsOwned-nil, key_of, InRange}
use tenancit.Catalogue.Claims.{
  owners_of, HasPath, claim_steps-AreFine, AreFine-claim_steps, AreFine-iff, owners_of-has_iff,
  All-of-map, All-at-map,
}

-- The texts of numbers differ, and have no number sign.
pub record Decimals (decimal : ℕ → Text) : Type 0 where
  pub decimal-injective : (m n : ℕ) → decimal m ≡ decimal n → m ≡ n
  pub decimal_digits : (n : ℕ) → All (λ c. c ≢ b'#') (decimal n)

abbrev pub called_step : SpecStep → Text × ℕ
called_step s = (s.flow_id, s.number)

-- A spec calls the step.
abbrev pub HasCall : List SpecStep → Text → ℕ → Type 0
HasCall steps id number = (s : SpecStep) × Memᴰ s steps × (called_step s ≡ (id, number))

mem-map_iff :
    {A : Type 0} {B : Type 0} (f : A → B) (xs : List A) (y : B)
    → Memᴰ y (map f xs) ↔ ((x : A) × Memᴰ x xs × (f x ≡ y))
mem-map_iff f [] y = (λ at. elim at [ ], λ (x, at, e). elim at [ ])
mem-map_iff f (x ∷ xs) y =
    let (there, back) = mem-map_iff f xs y in
    (
      λ at. elim at [
        | Memᴰ.head e ↦ (x, Memᴰ.head refl, sym e)
        | Memᴰ.tail m ↦ let (z, here, same) = there m in (z, Memᴰ.tail here, same)
      ],
      λ (z, at, e). elim at [
        | Memᴰ.head same ↦ Memᴰ.head (sym e ∙ ap f same)
        | Memᴰ.tail m ↦ Memᴰ.tail (back (z, m, e))
      ],
    )

-- Elements that two functions tell apart alike.
Distinct-map :
    {A : Type 0} {B : Type 0} {C : Type 0} (f : A → B) (g : A → C) (xs : List A)
    → ((x y : A) → g x ≡ g y → f x ≡ f y)
    → Distinct (map f xs)
    → Distinct (map g xs)
Distinct-map f g [] alike d = tt
Distinct-map f g (x ∷ xs) alike (apart, d) = (
  All-of-map g (λ y. g x ≢ y) xs
      (All-map _ _ xs (λ y ne e. absurd (ne (alike x y e))) (All-at-map f (λ y. f x ≢ y) xs apart)),
  Distinct-map f g xs alike d,
)

free_nil :
    (decimal : ℕ → Text) (flows : Flows) (steps : List SpecStep)
    → All (λ s. get {A = Text} (key_of decimal flows s) [] ≡ none) steps
free_nil decimal flows [] = tt
free_nil decimal flows (s ∷ rest) = (refl, free_nil decimal flows rest)

module _ (decimal : ℕ → Text) (decimals : Decimals decimal) where
  step_key_iff :
      (a b : Text) (m n : ℕ)
      → (step_key decimal a m ≡ step_key decimal b n) ↔ (Path (Text × ℕ) (a, m) (b, n))
  step_key_iff a b m n = (
    λ e.
        let (front, last) =
          after_last b'#' a b (decimal m) (decimal n) (decimals.decimal_digits m)
            (decimals.decimal_digits n) e in
        let same = decimals.decimal-injective m n last in cc,
    λ e. ap (λ c. step_key decimal c.0 c.1) e,
  )

  missing_of-nil_iff :
      (id : Text) (numbers : List ℕ) (m : List (Text × Text))
      → (missing_of decimal id numbers m ≡ [])
        ↔ All (λ n. is_some (get (step_key decimal id n) m) ≡ true) numbers
  unfolding missing_of
  missing_of-nil_iff id [] m = (λ _. tt, λ _. refl)
  missing_of-nil_iff id (n ∷ rest) m =
      let (there, back) = missing_of-nil_iff id rest m in
      (
        λ e.
            let (here, more) = (append-nil_iff _ _).0 e in
            let found : not (is_some (get (step_key decimal id n) m)) ≡ false =
              (error_if-nil_iff _ (step_missing (step_key decimal id n))).0 here in
            let owned : is_some (get (step_key decimal id n) m) ≡ true = ground arith in
            (owned, there more),
        λ (found, more).
            let owned : not (is_some (get (step_key decimal id n) m)) ≡ false = ground arith in
            (append-nil_iff _ _).1
              ((error_if-nil_iff _ (step_missing (step_key decimal id n))).1 owned, back more),
      )

  missing_steps-nil_iff :
      (flows : Flows) (m : List (Text × Text))
      → (missing_steps decimal flows m ≡ [])
        ↔ All (λ f. All (λ n. is_some (get (step_key decimal f.1.id n) m) ≡ true) f.1.steps) flows
  unfolding missing_steps
  missing_steps-nil_iff [] m = (λ _. tt, λ _. refl)
  missing_steps-nil_iff (f ∷ rest) m =
      let (here, back_here) = missing_of-nil_iff f.1.id f.1.steps m in
      let (there, back) = missing_steps-nil_iff rest m in
      (
        λ e. let (a, b) = (append-nil_iff _ _).0 e in (here a, there b),
        λ (a, b). (append-nil_iff _ _).1 (back_here a, back b),
      )

  -- Owned behind fine calls are the steps that are called.
  owned_iff :
      (flows : Flows) (steps : List SpecStep) (id : Text) (n : ℕ)
      → (is_some (get (step_key decimal id n) (owners_of decimal flows steps [])) ≡ true)
        ↔ HasCall steps id n
  owned_iff flows steps id n =
      let k = step_key decimal id n in
      let (there, back) = owners_of-has_iff decimal flows steps [] k in
      let (out, in_map) = mem-map_iff (key_of decimal flows) steps k in
      (
        λ h. elim (there h) [
          | inl none_before ↦ absurd cc
          | inr at ↦
              let (s, here, e) = out at in (s, here, (step_key_iff s.flow_id id s.number n).0 e)
        ],
        λ (s, at, e). back (inr (in_map (s, at, (step_key_iff s.flow_id id s.number n).1 e))),
      )

  -- The checks of the calls find no error exactly where every call is of a step of a confirmed
  -- flow, from 1 to the number of its steps, no step is called twice, each step of each confirmed
  -- flow is called, and there are 147 calls. It is said of calls in files with a name, and of
  -- numbers that are written as different texts without a number sign.
  pub spec_errors-nil_iff :
      (flows : Flows) (steps : List SpecStep)
      → All HasPath steps
      → (spec_errors decimal flows steps ≡ []) ↔ (
          All (InRange decimal flows) steps
          × Distinct (map called_step steps)
          × All (λ f. All (λ n. HasCall steps f.1.id n) f.1.steps) flows
          × (length steps ≡ 147))
  unfolding spec_errors
  spec_errors-nil_iff flows steps paths =
      let alike = λ (x y : SpecStep) (e : called_step x ≡ called_step y).
        (step_key_iff x.flow_id y.flow_id x.number y.number).1 e in
      let apart = λ (x y : SpecStep) (e : key_of decimal flows x ≡ key_of decimal flows y).
        (step_key_iff x.flow_id y.flow_id x.number y.number).0 e in
      let claims = AreFine-iff decimal flows steps [] in
      let total = error_if-nil_iff (not (length steps == 147)) (call_total (length steps)) in
      (
        λ e.
            let (claimed, rest) = (append-nil_iff _ _).0 e in
            let (missing, count) = (append-nil_iff _ _).0 rest in
            let fine = claim_steps-AreFine decimal flows steps [] paths IsOwned-nil claimed in
            let (inside, _, distinct) = claims.0 fine in
            let owners : (claim_steps decimal flows steps []).1 ≡ owners_of decimal flows steps [] =
              ap (λ c. c.1) (AreFine-claim_steps decimal flows steps [] paths IsOwned-nil fine) in
            let found =
              (missing_steps-nil_iff flows (owners_of decimal flows steps [])).0
                (subst (λ m. missing_steps decimal flows m ≡ []) owners missing) in
            (
              inside,
              Distinct-map (key_of decimal flows) called_step steps alike distinct,
              All-map _ _ flows
                  (λ f h. All-map _ _ f.1.steps (λ n. (owned_iff flows steps f.1.id n).0) h) found,
              (==_iff (length steps) 147).0 (let same = total.0 count in ground arith),
            ),
        λ (inside, distinct, called, count).
            let fine = claims.1 (
              inside,
              free_nil decimal flows steps,
              Distinct-map called_step (key_of decimal flows) steps apart distinct,
            ) in
            let claimed = AreFine-claim_steps decimal flows steps [] paths IsOwned-nil fine in
            let found = (missing_steps-nil_iff flows (owners_of decimal flows steps [])).1 (
              All-map _ _ flows
                (λ f h. All-map _ _ f.1.steps (λ n. (owned_iff flows steps f.1.id n).1) h)
                called) in
            rw (spec_errors, claimed, found)
              (total.1 (let same = (==_iff (length steps) 147).1 count in ground arith)),
      )
