-- ===== src/Lint/Sound.antt =====
-- What a search has found, and what is left.
use tenancit.Base.{
  ℕ, zero, suc, ◌≡◌, inl, inr, refl, subst, Bool, true, false, List, [], ◌∷◌, Text, text_eq,
  text_eq_iff, arith, Bool-cases,
}
use tenancit.Lint.Search.{Search, has, visit, visit_all, turn_at, turn, run}

abbrev pub In : Text → List Text → Type 0
In x xs = has x xs ≡ true

pub In-head : (x : Text) (xs : List Text) → In x (x ∷ xs)
In-head x xs = let h = (text_eq_iff x x).1 refl in ground arith

pub In-tail : (x y : Text) (xs : List Text) → In x xs → In x (y ∷ xs)
In-tail x y xs h = elim (Bool-cases (text_eq y x)) [
  | inl same ↦ rw same refl
  | inr other ↦ rw other h
]

module _ (importers : Text → List Text) (is_test is_route : Text → Bool) where
  -- What is seen stays so.
  visit_keeps :
      (y i : Text) (s : Search) → In y s.seen → In y (visit importers is_test is_route i s).seen
  unfolding visit
  visit_keeps y i s h =
      let later = In-tail y i s.seen h in
      elim (Bool-cases (has i s.seen)) [
        | inl old ↦ rw old h
        | inr new ↦ elim (Bool-cases (is_test i)) [
          | inl test ↦ rw (new, test) later
          | inr plain ↦ elim (Bool-cases (is_route i)) [
            | inl route ↦ rw (new, plain, route) later
            | inr inner ↦ rw (new, plain, inner) later
          ]
        ]
      ]

  visit_all_keeps :
      (y : Text) (is : List Text) (s : Search)
      → In y s.seen
      → In y (visit_all importers is_test is_route is s).seen
  unfolding visit_all
  visit_all_keeps y [] s h = h
  visit_all_keeps y (i ∷ is) s h =
      visit_all_keeps y is (visit importers is_test is_route i s) (visit_keeps y i s h)

  turn_at_keeps :
      (y : Text) (stack : List Text) (s : Search)
      → In y s.seen
      → In y (turn_at importers is_test is_route stack s).seen
  unfolding turn_at
  turn_at_keeps y [] s h = h
  turn_at_keeps y (x ∷ stack) s h = visit_all_keeps y (importers x) (record s { stack = stack }) h

  pub run_keeps :
      (y : Text) (fuel : ℕ) (s : Search)
      → In y s.seen
      → In y (run importers is_test is_route fuel s).seen
  unfolding run turn
  run_keeps y zero s h = h
  run_keeps y (suc fuel) s h =
      run_keeps y fuel (turn importers is_test is_route s) (turn_at_keeps y s.stack s h)

module _ (importers : Text → List Text) (is_test is_route : Text → Bool) (file : Text) where
  -- A file that depends on the searched one through files that are neither tests nor routes.
  pub data Reached : Text → Type 0 where
    itself : Reached file
    through :
        (x i : Text)
        → Reached x
        → In i (importers x)
        → is_test i ≡ false
        → is_route i ≡ false
        → Reached i

  -- A route that imports such a file.
  abbrev pub IsConsumer : Text → Type 0
  IsConsumer r =
      (x : Text) × Reached x × In r (importers x) × (is_test r ≡ false) × (is_route r ≡ true)

  -- Whatever is on the stack was reached, and whatever was kept is a consumer.
  pub record IsSound (s : Search) : Type 0 where
    pub on_stack : (x : Text) → In x s.stack → Reached x
    pub kept : (r : Text) → In r s.routes → IsConsumer r

  visit-IsSound :
      (x i : Text) (s : Search)
      → Reached x
      → In i (importers x)
      → IsSound s
      → IsSound (visit importers is_test is_route i s)
  unfolding visit
  visit-IsSound x i s r m sound = elim (Bool-cases (has i s.seen)) [
    | inl old ↦ rw old sound
    | inr new ↦ elim (Bool-cases (is_test i)) [
      | inl test ↦ rw (new, test) (record { on_stack = sound.on_stack; kept = sound.kept })
      | inr plain ↦ elim (Bool-cases (is_route i)) [
        | inl route ↦
            rw (new, plain, route)
              (record {
                on_stack = sound.on_stack;
                kept = λ y h. elim (Bool-cases (text_eq i y)) [
                  | inl same ↦ subst IsConsumer ((text_eq_iff i y).0 same) (x, r, m, plain, route)
                  | inr other ↦ sound.kept y (rw other at h)
                ];
              })
        | inr inner ↦
            rw (new, plain, inner)
              (record {
                on_stack = λ y h. elim (Bool-cases (text_eq i y)) [
                  | inl same ↦
                      subst Reached ((text_eq_iff i y).0 same) (through x i r m plain inner)
                  | inr other ↦ sound.on_stack y (rw other at h)
                ];
                kept = sound.kept;
              })
      ]
    ]
  ]

  visit_all-IsSound :
      (x : Text) (is : List Text) (s : Search)
      → Reached x
      → ((i : Text) → In i is → In i (importers x))
      → IsSound s
      → IsSound (visit_all importers is_test is_route is s)
  unfolding visit_all
  visit_all-IsSound x [] s r m sound = sound
  visit_all-IsSound x (i ∷ is) s r m sound =
      visit_all-IsSound x is (visit importers is_test is_route i s) r
        (λ j h. m j (In-tail j i is h)) (visit-IsSound x i s r (m i (In-head i is)) sound)

  turn_at-IsSound :
      (stack : List Text) (s : Search)
      → s.stack ≡ stack
      → IsSound s
      → IsSound (turn_at importers is_test is_route stack s)
  unfolding turn_at
  turn_at-IsSound [] s e sound = sound
  turn_at-IsSound (x ∷ stack) s e sound =
      let below = λ (y : Text) (h : In y (x ∷ stack)). sound.on_stack y (rw e h) in
      visit_all-IsSound x (importers x) (record s { stack = stack }) (below x (In-head x stack))
        (λ i h. h) (record { on_stack = λ y h. below y (In-tail y x stack h); kept = sound.kept })

  pub run-IsSound :
      (fuel : ℕ) (s : Search) → IsSound s → IsSound (run importers is_test is_route fuel s)
  unfolding run turn
  run-IsSound zero s sound = sound
  run-IsSound (suc fuel) s sound =
      run-IsSound fuel (turn importers is_test is_route s) (turn_at-IsSound s.stack s refl sound)
