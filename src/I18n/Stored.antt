-- ===== src/I18n/Stored.antt =====
-- The locale that is stored.
use tenancit.Base.{
  ◌≡◌, refl, true, [], ◌∷◌, map, some, Text, All, text_eq, Bool-cases, lower_unit, inl, inr, ◌==◌,
  arith, ◌<◌,
}
use tenancit.I18n.Defs.{
  Locale, en_us_locale, es_es_locale, pt_br_locale, tag, replace_first, normalize_locale,
  read_stored_locale,
}

-- `toLowerCase` on texts of ASCII.
abbrev pub LowersAscii : (Text → Text) → Type 0
LowersAscii to_lower_case = (s : Text) → All (λ c. c < 128) s → to_lower_case s ≡ map lower_unit s

replace_first-All :
    (s : Text) → All (λ c. c < 128) s → All (λ c. c < 128) (replace_first b'_' b'-' s)
unfolding replace_first
replace_first-All [] h = tt
replace_first-All (c ∷ s) (hc, h) = elim (Bool-cases (c == b'_')) [
  | inl hit ↦ rw hit (omega arith, h)
  | inr other ↦ rw other (hc, replace_first-All s h)
]

-- A stored tag of a locale, in letters of either case and with a hyphen or a low line, is read as
-- the locale.
pub read_stored_locale-tag :
    (to_lower_case : Text → Text)
    → LowersAscii to_lower_case
    → (locale : Locale) (s : Text) → All (λ c. c < 128) s
    → map lower_unit (replace_first b'_' b'-' s) ≡ map lower_unit (tag locale)
    → read_stored_locale to_lower_case true (some s) ≡ locale
unfolding read_stored_locale normalize_locale tag text_eq
read_stored_locale-tag to_lower_case lowers en_us_locale s ascii e =
    rw (lowers (replace_first b'_' b'-' s) (replace_first-All s ascii), e) refl
read_stored_locale-tag to_lower_case lowers es_es_locale s ascii e =
    rw (lowers (replace_first b'_' b'-' s) (replace_first-All s ascii), e) refl
read_stored_locale-tag to_lower_case lowers pt_br_locale s ascii e =
    rw (lowers (replace_first b'_' b'-' s) (replace_first-All s ascii), e) refl
