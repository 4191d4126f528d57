-- ===== src/Lint/Fuel.antt =====
-- How many turns a search takes.
use tenancit.Base.{
  ℕ, zero, suc, ◌+◌, ◌≤◌, ◌<◌, ◌≡◌, inl, inr, refl, sym, ap, subst, Bool, true, false, not, List,
  [], ◌∷◌, Text, text_eq, text_eq_iff, filter, length, arith, List-cases, Bool-cases,
}
use tenancit.Lint.Search.{Search, has, visit, visit_all, turn_at, turn, run}
use tenancit.Lint.Sound.{In, In-head, In-tail}

-- The files of a list that are not seen yet.
abbrev pub unseen : List Text → List Text → ℕ
unseen files seen = length (filter (λ f. not (has f seen)) files)

suc_mono : (a b : ℕ) → a ≤ b → suc a ≤ suc b
suc_mono a b h = omega arith

text_eq-false : (s t : Text) → text_eq s t ≡ false → text_eq t s ≡ false
text_eq-false s t h = elim (Bool-cases (text_eq t s)) [
  | inl same ↦ cc ((text_eq_iff s t).1 (sym ((text_eq_iff t s).0 same)), h)
  | inr other ↦ other
]

plus_mono : (a b c : ℕ) → b < c → a + b ≤ a + c
plus_mono a b c h = omega arith

plus_mono_suc : (a b c : ℕ) → b < c → suc a + b ≤ a + c
plus_mono_suc a b c h = omega arith

unseen_less : (files seen : List Text) (i : Text) → unseen files (i ∷ seen) ≤ unseen files seen
unseen_less [] seen i = omega arith
unseen_less (f ∷ files) seen i =
    let rest = unseen_less files seen i in
    elim (Bool-cases (text_eq i f)) [
      | inl same ↦ rw same (elim (Bool-cases (has f seen)) [
        | inl old ↦ rw old rest
        | inr new ↦ rw new (ground arith)
      ])
      | inr other ↦ rw other (elim (Bool-cases (has f seen)) [
        | inl old ↦ rw old rest
        | inr new ↦ rw new (ground arith)
      ])
    ]

unseen_new :
    (files seen : List Text) (i : Text)
    → In i files
    → has i seen ≡ false
    → unseen files (i ∷ seen) < unseen files seen
unseen_new [] seen i h new = cc h
unseen_new (f ∷ files) seen i h new = elim (Bool-cases (text_eq f i)) [
  | inl same ↦
      let one = (text_eq_iff f i).0 same in
      let seen_now : text_eq i f ≡ true = (text_eq_iff i f).1 (sym one) in
      let unseen_yet : has f seen ≡ false = subst (λ z. has z seen ≡ false) (sym one) new in
      rw (seen_now, unseen_yet) (suc_mono _ _ (unseen_less files seen i))
  | inr other ↦
      let apart : text_eq i f ≡ false = text_eq-false f i other in
      let rest = unseen_new files seen i (rw other at h) new in
      rw apart (elim (Bool-cases (has f seen)) [
        | inl old ↦ rw old rest
        | inr fresh ↦ rw fresh (suc_mono _ _ rest)
      ])
]

module _ (importers : Text → List Text) (is_test is_route : Text → Bool) (files : List Text) where
  abbrev pub work : Search → ℕ
  work s = length s.stack + unseen files s.seen

  work-visit :
      (i : Text) (s : Search) → In i files → work (visit importers is_test is_route i s) ≤ work s
  unfolding visit
  work-visit i s m = elim (Bool-cases (has i s.seen)) [
    | inl old ↦ rw old (omega arith)
    | inr new ↦
        let less = unseen_new files s.seen i m new in
        elim (Bool-cases (is_test i)) [
          | inl test ↦ rw (new, test) (plus_mono (length s.stack) _ _ less)
          | inr plain ↦ elim (Bool-cases (is_route i)) [
            | inl route ↦ rw (new, plain, route) (plus_mono (length s.stack) _ _ less)
            | inr inner ↦ rw (new, plain, inner) (plus_mono_suc (length s.stack) _ _ less)
          ]
        ]
  ]

  work-visit_all :
      (is : List Text) (s : Search)
      → ((i : Text) → In i is → In i files)
      → work (visit_all importers is_test is_route is s) ≤ work s
  unfolding visit_all
  work-visit_all [] s m = omega arith
  work-visit_all (i ∷ is) s m =
      let first = work-visit i s (m i (In-head i is)) in
      let rest =
        work-visit_all is (visit importers is_test is_route i s) (λ j h. m j (In-tail j i is h)) in
      omega arith

  work-turn_at :
      ((x i : Text) → In i (importers x) → In i files)
      → (x : Text) (stack : List Text) (s : Search) → s.stack ≡ x ∷ stack
      → work (turn_at importers is_test is_route (x ∷ stack) s) < work s
  unfolding turn_at
  work-turn_at m x stack s e =
      let rest = work-visit_all (importers x) (record s { stack = stack }) (m x) in
      let longer = ap length e in omega arith

  ended :
      (fuel : ℕ) (s : Search) → s.stack ≡ [] → (run importers is_test is_route fuel s).stack ≡ []
  unfolding run turn turn_at
  ended zero s e = e
  ended (suc fuel) s e = rw e (ended fuel (record s { stack = [] }) refl)

  -- With as much fuel as there is work, the loop ends.
  pub run_ends :
      ((x i : Text) → In i (importers x) → In i files)
      → (fuel : ℕ) (s : Search) → work s ≤ fuel
      → (run importers is_test is_route fuel s).stack ≡ []
  unfolding run turn
  run_ends m zero s h = elim (List-cases s.stack) [
    | inl empty ↦ empty
    | inr (x, stack, e) ↦ let longer = ap length e in absurd (omega arith)
  ]
  run_ends m (suc fuel) s h = elim (List-cases s.stack) [
    | inl empty ↦ ended (suc fuel) s empty
    | inr (x, stack, e) ↦
        let smaller =
          subst (λ k. work (turn_at importers is_test is_route k s) < work s) (sym e)
            (work-turn_at m x stack s e) in
        run_ends m fuel (turn importers is_test is_route s) (omega arith)
  ]
