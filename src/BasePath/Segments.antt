-- ===== src/BasePath/Segments.antt =====
-- The condition that refuses a base path, read as a condition on its segments.
use mathlib.Core.List.{reverse, reverse-cons, reverse-reverse}
use tenancit.Base.{
  is_empty_iff, ℕ, ◌≡◌, ◌≢◌, ◌↔◌, inl, inr, refl, sym, ap, ◌∙◌, subst, Bool, true, false, List, [],
  ◌∷◌, ◌++◌, arith, Text, codes, text_eq_iff, split, join, starts_with, ends_with, has_unit, any,
  All, All-map, All-append, ◌==◌, Bool-cases, List-cases, join-split, split-All, split-snoc,
  any-eq-false,
}
use tenancit.BasePath.Defs.{is_bad_segment, is_malformed}

-- The units that a base path holds nowhere, but for the slashes between its segments.
abbrev pub IsPathUnit : ℕ → Type 0
IsPathUnit c = ((c == b'?') ≡ false) × ((c == b'#') ≡ false) × ((c == b'\\') ≡ false)

abbrev pub IsSafeSegment : Text → Type 0
IsSafeSegment s =
    (s ≢ [])
    × (s ≢ codes ".")
    × (s ≢ codes "..")
    × All (λ c. IsPathUnit c × ((c == b'/') ≡ false)) s

-- A slash before each of one segment or more.
abbrev pub IsBasePath : Text → Type 0
IsBasePath configured =
    (segments : List Text) × (segments ≢ [])
    × (configured ≡ b'/' ∷ join b'/' segments)
    × All IsSafeSegment segments

is_bad_segment_iff :
    (s : Text) → (is_bad_segment s ≡ false) ↔ ((s ≢ []) × (s ≢ codes ".") × (s ≢ codes ".."))
unfolding is_bad_segment
is_bad_segment_iff s =
    ground (arith, is_empty_iff s, text_eq_iff s (codes "."), text_eq_iff s (codes ".."))

any-eq-false_iff {ℓ} :
    {A : Type ℓ} (p : A → Bool) (xs : List A) → (any p xs ≡ false) ↔ All (λ x. p x ≡ false) xs
any-eq-false_iff p [] = (λ _. tt, λ _. refl)
any-eq-false_iff p (x ∷ xs) = ground (arith, any-eq-false_iff p xs)

ends_in : (s : Text) (d : ℕ) → ends_with s (d ∷ []) ≡ true → (t : Text) × (s ≡ t ++ (d ∷ []))
unfolding ends_with starts_with
ends_in s d h = elim (List-cases (reverse s)) [
  | inl empty ↦ cc (rw empty at h)
  | inr (c, rest, e) ↦
      let at_end : starts_with (c ∷ rest) (d ∷ []) ≡ true = rw e at h in
      let same : c ≡ d = ground arith in
      (reverse rest, sym (reverse-reverse s) ∙ ap reverse e ∙ reverse-cons c rest ∙ rw same)
]

join-All :
    (P : ℕ → Type 0) (sep : ℕ) (ws : List Text) → P sep → All (All P) ws → All P (join sep ws)
unfolding join
join-All P sep [] h hs = tt
join-All P sep (w ∷ []) h (k, _) = k
join-All P sep (w ∷ (v ∷ ws)) h (k, ks) =
    All-append P w (sep ∷ join sep (v ∷ ws)) k (h, join-All P sep (v ∷ ws) h ks)

All-zip {ℓ κ μ} :
    {A : Type ℓ} (P : A → Type κ) (Q : A → Type μ) (xs : List A)
    → All P xs
    → All Q xs
    → All (λ x. P x × Q x) xs
All-zip P Q [] h k = tt
All-zip P Q (x ∷ xs) (h, hs) (k, ks) = ((h, k), All-zip P Q xs hs ks)

All-of_append {ℓ κ} : {A : Type ℓ} (P : A → Type κ) (xs ys : List A) → All P (xs ++ ys) → All P ys
All-of_append P [] ys h = h
All-of_append P (x ∷ xs) ys (h, hs) = All-of_append P xs ys hs

-- No unit is one of the three that are refused.
has_no_marks :
    (s : Text)
    → ((has_unit b'?' s ≡ false) × (has_unit b'#' s ≡ false) × (has_unit b'\\' s ≡ false))
      ↔ All IsPathUnit s
has_no_marks [] = ground arith
has_no_marks (c ∷ s) = ground (arith, has_no_marks s)

-- A text whose parts are safe segments neither begins nor ends with a slash.
first_slash : (s : Text) → starts_with (b'/' ∷ s) (codes "/") ≡ true
unfolding starts_with
first_slash [] = refl
first_slash (c ∷ s) = refl

pub alone : (s : Text) → All IsSafeSegment (split b'/' s) → s ≢ []
unfolding split
alone [] h e = h.0.0 refl
alone (c ∷ s) h e = cc

no_slash_first :
    (s : Text) → All IsSafeSegment (split b'/' s) → starts_with (b'/' ∷ s) (codes "//") ≡ false
unfolding split starts_with
no_slash_first [] h = absurd (h.0.0 refl)
no_slash_first (c ∷ s) h = elim (Bool-cases (c == b'/')) [
  | inl cut ↦ absurd ((rw cut at h).0.0 refl)
  | inr kept ↦ rw kept refl
]

ends_badly :
    {R : Type 0} (s : Text)
    → All IsSafeSegment (split b'/' s)
    → (t : Text) × (b'/' ∷ s ≡ t ++ (b'/' ∷ []))
    → R
ends_badly s h ([], e) = absurd (alone s h (cc))
ends_badly s h (c ∷ t, e) =
    let tail_eq : s ≡ t ++ (b'/' ∷ []) = cc in
    let parts = ap (split b'/') tail_eq ∙ split-snoc b'/' t in
    absurd (
      (All-of_append IsSafeSegment (split b'/' t) ([] ∷ []) (subst (All IsSafeSegment) parts h)).0.0
        refl)

no_slash_last :
    (s : Text) → All IsSafeSegment (split b'/' s) → ends_with (b'/' ∷ s) (codes "/") ≡ false
no_slash_last s h = elim (Bool-cases (ends_with (b'/' ∷ s) (codes "/"))) [
  | inl slash ↦ ends_badly s h (ends_in (b'/' ∷ s) b'/' slash)
  | inr other ↦ other
]

slash_unit : IsPathUnit b'/'
slash_unit = (refl, refl, refl)

-- Behind a slash, the condition of the source says that every part is a safe segment.
pub segments_iff : (s : Text) → (is_malformed (b'/' ∷ s) ≡ false) ↔ All IsSafeSegment (split b'/' s)
unfolding is_malformed
segments_iff s = (
  λ h.
      let marks = (has_no_marks (b'/' ∷ s)).0 (ground arith, ground arith, ground arith) in
      let good =
        All-map _ _ (split b'/' s) (λ w. (is_bad_segment_iff w).0)
          ((any-eq-false_iff is_bad_segment (split b'/' s)).0 (ground arith)) in
      All-map _ _ (split b'/' s) (λ w (g, units). (g.0, g.1, g.2, units))
        (All-zip _ _ (split b'/' s) good (split-All IsPathUnit b'/' s marks.1)),
  λ h.
      let units =
        join-All IsPathUnit b'/' (split b'/' s) slash_unit
          (All-map _ _ (split b'/' s) (λ w safe. All-map _ _ w (λ c k. k.0) safe.3) h) in
      let marks =
        (has_no_marks (b'/' ∷ s)).1
          (slash_unit, subst (All IsPathUnit) (join-split b'/' s) units) in
      let good = any-eq-false is_bad_segment (split b'/' s) (
        All-map _ _ (split b'/' s) (λ w safe. (is_bad_segment_iff w).1 (safe.0, safe.1, safe.2))
          h) in
      simp (no_slash_first s h, no_slash_last s h, marks.0, marks.1, marks.2, good, first_slash s),
)
