-- ===== src/Catalogue/Rows.antt =====
-- What a README without an error says.
use tenancit.Base.{
  ◌≡◌, ◌≢◌, inl, inr, refl, sym, subst, ap, ◌∙◌, Bool, true, false, not, ◌||◌, List, [], ◌∷◌, map,
  filter, any, length, Option, some, Text, All, All-map, All-of_filter, Distinct, text_eq,
  text_eq_iff, ◌==◌, ==_iff, Bool-cases, Option-cases, arith,
}
use tenancit.Catalogue.Defs.{
  Flow, Flows, SpecStep, ReadmeRow, CatalogError, get, error_if, row_repeated, row_missing,
  row_tier, row_range, row_owner, row_unknown,
}
use tenancit.Catalogue.Steps.{append-nil_iff, error_if-nil_iff}
use tenancit.Catalogue.Claims.{All-at-map, All-of-map}
use tenancit.Catalogue.Readme.{
  to_set, is_only, mapped_specs, tier_errors, row_errors, rows_errors, missing_rows,
}

is_only_eq : (x : Text) (ys : List Text) → is_only x ys ≡ true → ys ≡ x ∷ []
is_only_eq x [] h = absurd cc
is_only_eq x (y ∷ []) h = let e = (text_eq_iff y x).0 h in cc
is_only_eq x (y ∷ (z ∷ rest)) h = absurd cc

filter_again {ℓ} : {A : Type ℓ} (p : A → Bool) (xs : List A) → filter p (filter p xs) ≡ filter p xs
filter_again p [] = refl
filter_again p (x ∷ xs) = elim (Bool-cases (p x)) [
  | inl kept ↦ rw (kept, kept) (ap (λ l. x ∷ l) (filter_again p xs))
  | inr dropped ↦ rw dropped (filter_again p xs)
]

-- A set without another element.
others_nil :
    (x : Text) (xs : List Text)
    → filter (λ y. not (text_eq y x)) (to_set xs) ≡ []
    → All (λ y. y ≡ x) xs
others_nil x [] h = tt
others_nil x (y ∷ ys) h = elim (Bool-cases (text_eq y x)) [
  | inr other ↦ absurd (let clash = rw other at h in cc)
  | inl same ↦
      let e = (text_eq_iff y x).0 same in
      let left : filter (λ z. not (text_eq z x)) (filter (λ z. not (text_eq z y)) (to_set ys))
          ≡ [] =
        rw same at h in
      let twice : filter (λ z. not (text_eq z x)) (filter (λ z. not (text_eq z x)) (to_set ys))
          ≡ [] =
        subst
          (λ w. filter (λ z. not (text_eq z x)) (filter (λ z. not (text_eq z w)) (to_set ys)) ≡ [])
          e left in
      (e, others_nil x ys (sym (filter_again (λ z. not (text_eq z x)) (to_set ys)) ∙ twice))
]

length_nil {ℓ} : {A : Type ℓ} (xs : List A) → length xs ≡ 0 → xs ≡ []
length_nil [] h = refl
length_nil (x ∷ xs) h = absurd (omega arith)

to_set_single :
    (x : Text) (xs : List Text)
    → length (to_set xs) ≡ 1
    → any (λ y. text_eq y x) (to_set xs) ≡ true
    → All (λ y. y ≡ x) xs
to_set_single x [] one has = tt
to_set_single x (y ∷ ys) one has =
    let others : filter (λ z. not (text_eq z y)) (to_set ys) ≡ [] =
      length_nil _ (omega (arith, one)) in
    let hit : text_eq y x ≡ true = (let h = rw others at has in ground arith) in
    let e = (text_eq_iff y x).0 hit in
    (e, All-map _ _ ys (λ z same. same ∙ e) (others_nil y ys others))

module _ (base : Text → Text) (tags : Text → Option (List Text)) (flows : Flows)
    (steps : List SpecStep) where
  -- A row names a flow, all its steps, and the tier and the only spec of its calls.
  abbrev pub RowAgrees : ReadmeRow → Type 0
  RowAgrees row =
      (flow : Flow) × (get row.flow_id flows ≡ some flow)
      × (row.first_step ≡ 1)
      × (row.last_step ≡ length flow.steps)
      × (tags row.spec ≡ some (row.tier ∷ []))
      × All (λ s. s.flow_id ≡ row.flow_id → base s.path ≡ row.spec) steps

  tier_errors-nil :
      (row : ReadmeRow) → tier_errors base tags row ≡ [] → tags row.spec ≡ some (row.tier ∷ [])
  unfolding tier_errors
  tier_errors-nil row e = elim (Option-cases (tags row.spec)) [
    | inl absent ↦ absurd (let no = rw (tier_errors, absent) at e in cc)
    | inr (found, there) ↦
        let none_wrong : error_if (not (is_only row.tier found))
              (row_tier row.flow_id row.tier found)
            ≡ [] =
          rw (tier_errors, there) at e in
        let only : not (is_only row.tier found) ≡ false = (error_if-nil_iff _ _).0 none_wrong in
        there ∙ ap some (is_only_eq row.tier found (ground arith))
  ]

  owner_agrees :
      (id spec : Text)
      → length (mapped_specs base tags id steps) ≡ 1
      → any (λ s. text_eq s spec) (mapped_specs base tags id steps) ≡ true
      → All (λ s. s.flow_id ≡ id → base s.path ≡ spec) steps
  unfolding mapped_specs
  owner_agrees id spec one has =
      let mine = filter (λ s. text_eq s.flow_id id) steps in
      let alike =
        All-at-map (λ s. base s.path) (λ y. y ≡ spec) mine
          (to_set_single spec (map (λ s. base s.path) mine) one has) in
      All-map _ _ steps (λ s h e. h ((text_eq_iff s.flow_id id).1 e))
        (All-of_filter (λ s. base s.path ≡ spec) (λ s. text_eq s.flow_id id) steps alike)

  row_errors-nil :
      (seen : List Text) (row : ReadmeRow)
      → row_errors base tags flows steps seen row ≡ []
      → RowAgrees row × (any (λ id. text_eq id row.flow_id) seen ≡ false)
  unfolding row_errors
  row_errors-nil seen row e = elim (Option-cases (get row.flow_id flows)) [
    | inl unknown ↦ absurd (
        let no : Path (List CatalogError) (row_unknown row.flow_id ∷ []) [] =
          ((append-nil_iff _ _).0 (rw (row_errors, unknown) at e)).1 in
        cc)
    | inr (flow, known) ↦
        let (first, rest) = (append-nil_iff _ _).0 (rw (row_errors, known) at e) in
        let (range, rest1) = (append-nil_iff _ _).0 rest in
        let (pattern, rest2) = (append-nil_iff _ _).0 rest1 in
        let (tier, owner) = (append-nil_iff _ _).0 rest2 in
        let fresh =
          (error_if-nil_iff (any (λ id. text_eq id row.flow_id) seen) (row_repeated row.flow_id)).0
            first in
        let ends =
          (error_if-nil_iff (not (row.first_step == 1) || not (row.last_step == length flow.steps))
              (row_range row.flow_id row.first_step row.last_step)).0
            range in
        let specs = mapped_specs base tags row.flow_id steps in
        let single =
          (error_if-nil_iff (not (length specs == 1) || not (any (λ s. text_eq s row.spec) specs))
              (row_owner row.flow_id row.spec)).0
            owner in
        let has : any (λ s. text_eq s row.spec) specs ≡ true = ground arith in
        (
          (
            flow,
            known,
            (==_iff row.first_step 1).0 (ground arith),
            (==_iff row.last_step (length flow.steps)).0 (ground arith),
            tier_errors-nil row tier,
            owner_agrees row.flow_id row.spec ((==_iff (length specs) 1).0 (ground arith)) has,
          ),
          fresh,
        )
  ]

  pub rows_errors-nil :
      (seen : List Text) (rows : List ReadmeRow)
      → rows_errors base tags flows steps seen rows ≡ []
      → All RowAgrees rows
        × All (λ row. any (λ id. text_eq id row.flow_id) seen ≡ false) rows
        × Distinct (map ReadmeRow.flow_id rows)
  unfolding rows_errors
  rows_errors-nil seen [] e = (tt, tt, tt)
  rows_errors-nil seen (row ∷ rest) e =
      let (here, more) = (append-nil_iff _ _).0 e in
      let (agrees, fresh) = row_errors-nil seen row here in
      let (all_agree, all_fresh, distinct) = rows_errors-nil (row.flow_id ∷ seen) rest more in
      (
        (agrees, all_agree),
        (
          fresh,
          All-map _ _ rest
              (λ r h. let old : any (λ id. text_eq id r.flow_id) seen ≡ false = ground arith in old)
              all_fresh,
        ),
        (
          All-of-map ReadmeRow.flow_id (λ y. row.flow_id ≢ y) rest
              (All-map _ _ rest
                (λ r h same.
                  let hit = (text_eq_iff row.flow_id r.flow_id).1 same in absurd (ground arith))
                all_fresh),
          distinct,
        ),
      )

  pub missing_rows-nil :
      (some_flows : Flows) (rows : List ReadmeRow)
      → missing_rows base tags some_flows rows ≡ []
      → All (λ f. any (λ row. text_eq row.flow_id f.1.id) rows ≡ true) some_flows
  unfolding missing_rows
  missing_rows-nil [] rows e = tt
  missing_rows-nil (f ∷ rest) rows e =
      let (here, more) = (append-nil_iff _ _).0 e in
      let found : not (any (λ row. text_eq row.flow_id f.1.id) rows) ≡ false =
        (error_if-nil_iff _ (row_missing f.1.id)).0 here in
      let listed : any (λ row. text_eq row.flow_id f.1.id) rows ≡ true = ground arith in
      (listed, missing_rows-nil rest rows more)
