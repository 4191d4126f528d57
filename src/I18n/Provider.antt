-- ===== src/I18n/Provider.antt =====
-- web/src/lib/i18n.tsx: I18nProvider, its state and its effect.
use tenancit.Base.{
  lower_unit, ◌≡◌, refl, sym, subst, true, map, List, [], ◌∷◌, text_eq, Bool-cases, inl, inr,
  if◌then◌else◌, All, All-map, all, all_iff, ltb, ltb_iff, Option, none, some, Text, codes, ◌<◌,
}
use tenancit.I18n.Defs.{
  Locale, en_us_locale, es_es_locale, pt_br_locale, tag, replace_first, read_stored_locale,
}
use tenancit.I18n.Stored.{LowersAscii, read_stored_locale-tag}

-- The state of the provider, the language of the document and the entry of local storage.
pub record Provider : Type 0 where
  pub locale : Locale
  pub lang : Option Text
  pub item : Option Text

-- The effect, which runs behind the first rendering and when the locale has changed; of a
-- storage that takes the write.
unfoldable pub store_locale : Provider → Provider
store_locale s = record s { lang = some (tag s.locale); item = some (tag s.locale) }

module _ (to_lower_case : Text → Text) where
  unfoldable pub mount : (item : Option Text) → Provider
  mount item =
      store_locale
        (record { locale = read_stored_locale to_lower_case true item; lang = none; item = item })

-- `setLocale`, and the effect behind it, which does not run where the locale stays.
unfoldable pub set_locale : Locale → Provider → Provider
set_locale next s =
    if text_eq (tag next) (tag s.locale) then s else store_locale (record s { locale = next })

unfoldable pub set_locales : List Locale → Provider → Provider
set_locales [] s = s
set_locales (next ∷ rest) s = set_locales rest (set_locale next s)

all_ascii : (s : Text) → all (λ c. ltb c 128) s ≡ true → All (λ c. c < 128) s
all_ascii s h = All-map _ _ s (λ c. (ltb_iff c 128).0) ((all_iff (λ c. ltb c 128) s).0 h)

tag_ascii : (l : Locale) → All (λ c. c < 128) (tag l)
unfolding tag
tag_ascii en_us_locale = all_ascii (codes "en-US") refl
tag_ascii es_es_locale = all_ascii (codes "es-ES") refl
tag_ascii pt_br_locale = all_ascii (codes "pt-BR") refl

tag_lowered :
    (l : Locale) → map lower_unit (replace_first b'_' b'-' (tag l)) ≡ map lower_unit (tag l)
unfolding tag replace_first
tag_lowered en_us_locale = refl
tag_lowered es_es_locale = refl
tag_lowered pt_br_locale = refl

-- The document and local storage have the tag of the locale.
IsStored : Provider → Type 0
IsStored s = (s.item ≡ some (tag s.locale)) × (s.lang ≡ some (tag s.locale))

set_locale-IsStored : (next : Locale) (s : Provider) → IsStored s → IsStored (set_locale next s)
unfolding IsStored set_locale store_locale
set_locale-IsStored next s h = elim (Bool-cases (text_eq (tag next) (tag s.locale))) [
  | inl same ↦
      let e : set_locale next s ≡ s = rw (set_locale, same) refl in subst IsStored (sym e) h
  | inr other ↦
      let e : set_locale next s ≡ store_locale (record s { locale = next }) =
        rw (set_locale, other) refl in
      subst IsStored (sym e) (refl, refl)
]

set_locales-IsStored :
    (choices : List Locale) (s : Provider) → IsStored s → IsStored (set_locales choices s)
unfolding set_locales
set_locales-IsStored [] s h = h
set_locales-IsStored (next ∷ rest) s h =
    set_locales-IsStored rest (set_locale next s) (set_locale-IsStored next s h)

-- Behind any choices of a locale, in any order, the document has the tag of the provider's locale,
-- and a provider that is mounted again, on the entry of local storage, has the same locale. It is
-- said of a toLowerCase that lowers ASCII, of a storage that takes the writes, and of no other
-- change of the entry.
pub mount-set_locales :
    (to_lower_case : Text → Text)
    → LowersAscii to_lower_case
    → (item : Option Text) (choices : List Locale)
    → ((set_locales choices (mount to_lower_case item)).lang
        ≡ some (tag (set_locales choices (mount to_lower_case item)).locale))
      × ((mount to_lower_case (set_locales choices (mount to_lower_case item)).item).locale
          ≡ (set_locales choices (mount to_lower_case item)).locale)
unfolding mount store_locale IsStored
mount-set_locales to_lower_case lowers item choices =
    let s = set_locales choices (mount to_lower_case item) in
    let (stored, shown) = set_locales-IsStored choices (mount to_lower_case item) (refl, refl) in
    (
      shown,
      rw stored (
          read_stored_locale-tag to_lower_case lowers s.locale (tag s.locale) (tag_ascii s.locale)
            (tag_lowered s.locale)),
    )
