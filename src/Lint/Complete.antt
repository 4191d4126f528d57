-- ===== src/Lint/Complete.antt =====
-- Nothing that depends on the searched file is missed.
use mathlib.Core.Logic.{⊎_elim}
use tenancit.Base.{
  ℕ, zero, suc, ◌≡◌, ◌⊎◌, inl, inr, refl, sym, subst, Bool, true, false, List, [], ◌∷◌, Text,
  text_eq, text_eq_iff, Bool-cases,
}
use tenancit.Lint.Search.{Search, has, visit, visit_all, turn_at, turn, run, start}
use tenancit.Lint.Sound.{In, In-head, In-tail}

pub In-cases : (x y : Text) (xs : List Text) → In x (y ∷ xs) → (y ≡ x) ⊎ In x xs
In-cases x y xs h = elim (Bool-cases (text_eq y x)) [
  | inl same ↦ inl ((text_eq_iff y x).0 same)
  | inr other ↦ inr (rw other at h)
]

module _ (importers : Text → List Text) (is_test is_route : Text → Bool) where
  abbrev pub IsInner : Text → Type 0
  IsInner y = (is_test y ≡ false) × (is_route y ≡ false)

  -- What is seen was followed, waits on the stack, or is the file whose importers `left` are still
  -- to be visited; and each route that is seen was kept.
  pub record IsFollowed (current : Text) (left : List Text) (s : Search) : Type 0 where
    pub closed :
        (y : Text)
        → In y s.seen
        → IsInner y
        → In y s.stack
          ⊎ ((i : Text) → In i (importers y) → In i s.seen ⊎ ((y ≡ current) × In i left))
    pub kept : (r : Text) → In r s.seen → is_test r ≡ false → is_route r ≡ true → In r s.routes

  -- A file is added to what is seen, and where it belongs.
  added-IsFollowed :
      (x i : Text) (left : List Text) (s t : Search)
      → t.seen ≡ i ∷ s.seen
      → ((y : Text) → In y s.stack → In y t.stack)
      → ((y : Text) → In y s.routes → In y t.routes)
      → (IsInner i → In i t.stack)
      → (is_test i ≡ false → is_route i ≡ true → In i t.routes)
      → IsFollowed x (i ∷ left) s
      → IsFollowed x left t
  added-IsFollowed x i left s t e stack routes inner route f =
      let old = λ (y : Text) (h : In y s.seen). subst (In y) (sym e) (In-tail y i s.seen h) in
      record {
        closed = λ y h k.
            ⊎_elim
              (λ same. inl (subst (λ z. In z t.stack) same (inner (subst IsInner (sym same) k))))
              (λ before.
                ⊎_elim (λ waits. inl (stack y waits))
                  (λ done. inr (λ j m.
                    ⊎_elim (λ seen. inl (old j seen))
                      (λ (here, l).
                        ⊎_elim
                          (λ same. inl (
                            subst (λ z. In z t.seen) same
                              (subst (In i) (sym e) (In-head i s.seen))))
                          (λ later. inr (here, later)) (In-cases j i left l))
                      (done j m)))
                  (f.closed y before k))
              (In-cases y i s.seen (subst (In y) e h));
        kept = λ r h p q.
            ⊎_elim
              (λ same.
                subst (λ z. In z t.routes) same
                  (route (subst (λ z. is_test z ≡ false) (sym same) p)
                    (subst (λ z. is_route z ≡ true) (sym same) q)))
              (λ before. routes r (f.kept r before p q)) (In-cases r i s.seen (subst (In r) e h));
      }

  known-IsFollowed :
      (x i : Text) (left : List Text) (s : Search)
      → In i s.seen
      → IsFollowed x (i ∷ left) s
      → IsFollowed x left s
  known-IsFollowed x i left s known f = record {
    closed = λ y h k.
        ⊎_elim inl
          (λ done. inr (λ j m.
            ⊎_elim inl
              (λ (here, l).
                ⊎_elim (λ same. inl (subst (λ z. In z s.seen) same known))
                  (λ later. inr (here, later)) (In-cases j i left l))
              (done j m)))
          (f.closed y h k);
    kept = f.kept;
  }

  visit-IsFollowed :
      (x i : Text) (left : List Text) (s : Search)
      → IsFollowed x (i ∷ left) s
      → IsFollowed x left (visit importers is_test is_route i s)
  unfolding visit
  visit-IsFollowed x i left s f = elim (Bool-cases (has i s.seen)) [
    | inl old ↦ rw old (known-IsFollowed x i left s old f)
    | inr new ↦ elim (Bool-cases (is_test i)) [
      | inl test ↦
          rw (new, test)
            (added-IsFollowed x i left s (record s { seen = i ∷ s.seen }) refl (λ y h. h) (λ y h. h)
              (λ (p, _). cc (p, test)) (λ p _. cc (p, test)) f)
      | inr plain ↦ elim (Bool-cases (is_route i)) [
        | inl route ↦
            rw (new, plain, route)
              (added-IsFollowed x i left s (record s { seen = i ∷ s.seen; routes = i ∷ s.routes })
                refl (λ y h. h) (λ y h. In-tail y i s.routes h) (λ (_, q). cc (q, route))
                (λ _ _. In-head i s.routes) f)
        | inr inner ↦
            rw (new, plain, inner)
              (added-IsFollowed x i left s (record s { seen = i ∷ s.seen; stack = i ∷ s.stack })
                refl (λ y h. In-tail y i s.stack h) (λ y h. h) (λ _. In-head i s.stack)
                (λ _ q. cc (q, inner)) f)
      ]
    ]
  ]

  visit_all-IsFollowed :
      (x : Text) (left : List Text) (s : Search)
      → IsFollowed x left s
      → IsFollowed x [] (visit_all importers is_test is_route left s)
  unfolding visit_all
  visit_all-IsFollowed x [] s f = f
  visit_all-IsFollowed x (i ∷ left) s f =
      visit_all-IsFollowed x left (visit importers is_test is_route i s)
        (visit-IsFollowed x i left s f)

  -- Between the turns, no importers are left to be visited.
  settled : (x y : Text) (s : Search) → IsFollowed x [] s → IsFollowed y [] s
  settled x y s f = record {
    closed = λ z h k.
        ⊎_elim inl (λ done. inr (λ j m. ⊎_elim inl (λ (_, l). absurd (cc l)) (done j m)))
          (f.closed z h k);
    kept = f.kept;
  }

  popped-IsFollowed :
      (w x : Text) (stack : List Text) (s : Search)
      → s.stack ≡ x ∷ stack
      → IsFollowed w [] s
      → IsFollowed x (importers x) (record s { stack = stack })
  popped-IsFollowed w x stack s e f = record {
    closed = λ y h k.
        ⊎_elim
          (λ waits.
            ⊎_elim
              (λ same. inr (λ i m. inr (sym same, subst (λ z. In i (importers z)) (sym same) m)))
              inl (In-cases y x stack (subst (In y) e waits)))
          (λ done. inr (λ j m. ⊎_elim inl (λ (_, l). absurd (cc l)) (done j m))) (f.closed y h k);
    kept = f.kept;
  }

  turn_at-IsFollowed :
      (w : Text) (stack : List Text) (s : Search)
      → s.stack ≡ stack
      → IsFollowed w [] s
      → IsFollowed w [] (turn_at importers is_test is_route stack s)
  unfolding turn_at
  turn_at-IsFollowed w [] s e f = f
  turn_at-IsFollowed w (x ∷ stack) s e f = settled x w _ (
      visit_all-IsFollowed x (importers x) (record s { stack = stack })
        (popped-IsFollowed w x stack s e f))

  pub run-IsFollowed :
      (w : Text) (fuel : ℕ) (s : Search)
      → IsFollowed w [] s
      → IsFollowed w [] (run importers is_test is_route fuel s)
  unfolding run turn
  run-IsFollowed w zero s f = f
  run-IsFollowed w (suc fuel) s f =
      run-IsFollowed w fuel (turn importers is_test is_route s)
        (turn_at-IsFollowed w s.stack s refl f)

  pub start-IsFollowed : (file : Text) → IsInner file → IsFollowed file [] (start file)
  start-IsFollowed file (p, q) = record {
    closed = λ y h k. inl h;
    kept = λ r h _ route.
        ⊎_elim (λ same. cc (subst (λ z. is_route z ≡ false) same q, route)) (λ l. cc l)
          (In-cases r file [] h);
  }
