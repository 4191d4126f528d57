-- ===== src/BasePath/Check.antt =====
-- Which base paths are accepted.
use mathlib.Core.Logic.{⊎_elim}
use tenancit.Base.{
  is_empty, is_empty_iff, ℕ, ◌≡◌, ◌≢◌, ◌↔◌, ◌⊎◌, inl, inr, refl, sym, ap, subst, true, false, ◌||◌,
  [], ◌∷◌, arith, some, Text, codes, text_eq, text_eq_iff, trim, split, join, starts_with, All,
  All-map, ◌==◌, ==_iff, Bool-cases, split-ne-nil, join-split, split-join,
}
use tenancit.BasePath.Segments.{IsBasePath, IsSafeSegment, segments_iff, alone}
use tenancit.BasePath.Defs.{ok, is_malformed, check_base_path, read_runtime_base_path}

IsBasePath-of_segments : (s : Text) → All IsSafeSegment (split b'/' s) → IsBasePath (b'/' ∷ s)
IsBasePath-of_segments s h =
    (split b'/' s, split-ne-nil b'/' s, ap (λ t. b'/' ∷ t) (sym (join-split b'/' s)), h)

segments_of_IsBasePath :
    (c : Text) → IsBasePath c → (s : Text) × (c ≡ b'/' ∷ s) × All IsSafeSegment (split b'/' s)
segments_of_IsBasePath c ([], ne, e, h) = absurd (ne refl)
segments_of_IsBasePath c (w ∷ ws, ne, e, h) = (
  join b'/' (w ∷ ws),
  e,
  subst (All IsSafeSegment)
      (sym (
        split-join b'/' w ws
          (All-map _ _ (w ∷ ws) (λ v safe. All-map _ _ v (λ d k. k.1) safe.3) h)))
      h,
)

not_malformed_slash : (s : Text) → (is_malformed (b'/' ∷ s) ≡ false) ↔ IsBasePath (b'/' ∷ s)
not_malformed_slash s =
    let (to, from) = segments_iff s in
    (
      λ h. IsBasePath-of_segments s (to h),
      λ b.
          let (t, e, h) = segments_of_IsBasePath (b'/' ∷ s) b in
          let same : t ≡ s = cc in from (rw same at h),
    )

begins_malformed : (c : ℕ) (s : Text) → (c == b'/') ≡ false → is_malformed (c ∷ s) ≡ true
unfolding is_malformed starts_with
begins_malformed c s h = rw h

not_malformed_iff : (c : Text) → c ≢ [] → (is_malformed c ≡ false) ↔ IsBasePath c
not_malformed_iff [] ne = absurd (ne refl)
not_malformed_iff (c ∷ s) ne = elim (Bool-cases (c == b'/')) [
  | inl slash ↦
      subst (λ d. (is_malformed (d ∷ s) ≡ false) ↔ IsBasePath (d ∷ s))
        (sym ((==_iff c b'/').0 slash)) (not_malformed_slash s)
  | inr other ↦ (
    λ h. cc (begins_malformed c s other, h),
    λ b.
        let (t, e, _) = segments_of_IsBasePath (c ∷ s) b in
        let same : c ≡ b'/' = cc in cc ((==_iff c b'/').1 same, other),
  )
]

pub IsBasePath-ne : (c : Text) → IsBasePath c → (c ≢ []) × (c ≢ codes "/")
IsBasePath-ne c b =
    let (s, e, h) = segments_of_IsBasePath c b in
    let ne = alone s h in (λ empty. cc, λ root. let none : s ≡ [] = cc in ne none)

not_root : (c : Text) → IsBasePath c → (c ≡ []) ⊎ (c ≡ codes "/") → ⊥
not_root c b r = let (ne, other) = IsBasePath-ne c b in ⊎_elim ne other r

check_base_path_iff :
    (c path : Text)
    → (check_base_path c ≡ ok path)
      ↔ ((((c ≡ []) ⊎ (c ≡ codes "/")) × (path ≡ codes "/")) ⊎ (IsBasePath c × (path ≡ c)))
unfolding check_base_path
check_base_path_iff c path = elim (Bool-cases (is_empty c || text_eq c (codes "/"))) [
  | inl root ↦
      let at_root : (c ≡ []) ⊎ (c ≡ codes "/") =
        ground (arith, is_empty_iff c, text_eq_iff c (codes "/")) in
      rw root (
        λ e. inl (at_root, cc),
        ⊎_elim (λ (_, e). ap ok (sym e)) (λ (b, e). absurd (not_root c b at_root)),
      )
  | inr below ↦
      let below_root : (c ≢ []) × (c ≢ codes "/") =
        ground (arith, is_empty_iff c, text_eq_iff c (codes "/")) in
      let (to, from) = not_malformed_iff c below_root.0 in
      rw below (
        λ e. inr (to (ground arith), ground arith),
        ⊎_elim (λ (r, _). absurd (⊎_elim below_root.0 below_root.1 r))
            (λ (b, e). rw (from b) (ap ok (sym e))),
      )
]

-- With a meta element, the base path is "/" exactly when its trimmed content is empty or "/"; any
-- other content is accepted, and returned trimmed, exactly when it is a slash before each of one
-- or more segments, none of them empty, "." or ".." or with one of the units / ? # \.
pub read_runtime_base_path_iff :
    (content path : Text)
    → (read_runtime_base_path (some content) ≡ ok path) ↔ (
        (((trim content ≡ []) ⊎ (trim content ≡ codes "/")) × (path ≡ codes "/"))
        ⊎ (IsBasePath (trim content) × (path ≡ trim content)))
unfolding read_runtime_base_path
read_runtime_base_path_iff content path = check_base_path_iff (trim content) path
