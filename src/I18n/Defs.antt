-- ===== src/I18n/Defs.antt =====
-- web/src/lib/i18n.tsx: the messages of a locale, the filling of their places, and the locale that
-- is stored.
use tenancit.Base.{
  ℕ, Bool, true, false, not, ◌&&◌, ◌||◌, List, [], ◌∷◌, ◌++◌, Option, none, some, Text, codes,
  text_eq, is_empty, ◌==◌, leb, if◌then◌else◌,
}
use tenancit.I18n.Pt.{pt_br}
use tenancit.I18n.En.{en_us}
use tenancit.I18n.Es.{es_es}

-- `Locale`.
pub data Locale : Type 0 where
  en_us_locale : Locale
  es_es_locale : Locale
  pt_br_locale : Locale

-- The values of LOCALE_OPTIONS.
unfoldable pub tag : Locale → Text
tag en_us_locale = codes "en-US"
tag es_es_locale = codes "es-ES"
tag pt_br_locale = codes "pt-BR"

abbrev pub default_locale : Locale
default_locale = pt_br_locale

unfoldable pub messages : Locale → List (Text × Text)
messages en_us_locale = en_us
messages es_es_locale = es_es
messages pt_br_locale = pt_br

-- A property of an object that is written as the list of its entries, all of different names.
abbrev pub own_property {ℓ} : {A : Type ℓ} → Text → List (Text × A) → Option A
own_property key [] = none
own_property key ((k, v) ∷ rest) =
    let other = own_property key rest in if text_eq k key then some v else other

abbrev pub is_some {ℓ} : {A : Type ℓ} → Option A → Bool
is_some none = false
is_some (some _) = true

unfoldable pub has_translation : Text → Bool
has_translation key = is_some (own_property key pt_br)

-- `\w`.
unfoldable pub is_word : ℕ → Bool
is_word c = (leb 48 c && leb c 57) || (leb 65 c && leb c 90) || c == b'_' || (leb 97 c && leb c 122)

-- `replace(/\{(\w+)\}/g, ...)` reads one unit: what it writes, and the word that is open behind a
-- brace.
unfoldable pub read_unit : (fill : Text → Text) → Option Text → ℕ → Text × Option Text
read_unit fill none c = if c == b'{' then ([], some []) else (c ∷ [], none)
read_unit fill (some word) c =
    if is_word c
    then ([], some (word ++ (c ∷ [])))
    else if c == b'{'
    then (b'{' ∷ word, some [])
    else if c == b'}' && not (is_empty word)
    then (fill word, none)
    else (b'{' ∷ (word ++ (c ∷ [])), none)

unfoldable pub replace_from : (fill : Text → Text) → Option Text → Text → Text
replace_from fill none [] = []
replace_from fill (some word) [] = b'{' ∷ word
replace_from fill word (c ∷ s) =
    let step = read_unit fill word c in step.0 ++ replace_from fill step.1 s

abbrev pub or_else {ℓ} : {A : Type ℓ} → Option A → A → A
or_else none a = a
or_else (some b) a = b

-- `String(params[name] ?? "")`, of parameters that are texts already. Names that an object inherits
-- (`constructor`) are left out: no template has a place for one.
abbrev pub param : List (Text × Text) → Text → Text
param params name = or_else (own_property name params) []

-- `none` where a key stands in no dictionary, on which `template.replace` throws.
unfoldable pub template : Locale → Text → Option Text
template locale key = elim (own_property key (messages locale)) [
  | some message ↦ some message
  | none ↦ own_property key pt_br
]

abbrev pub map_option {ℓ κ} : {A : Type ℓ} {B : Type κ} → (A → B) → Option A → Option B
map_option f none = none
map_option f (some a) = some (f a)

unfoldable pub translate : Locale → Text → List (Text × Text) → Option Text
translate locale key params = map_option (replace_from (param params) none) (template locale key)

unfoldable pub format_status : (status : Text) → Locale → Option Text
format_status status locale =
    let key = codes "status." ++ status in
    if has_translation key then translate locale key [] else some status

-- `normalized === a || normalized === b`.
abbrev pub is_one_of : (a b : Text) → Text → Bool
is_one_of a b s = text_eq s a || text_eq s b

-- `replace("_", "-")`.
unfoldable pub replace_first : (from to : ℕ) → Text → Text
replace_first from to [] = []
replace_first from to (c ∷ s) =
    let rest = replace_first from to s in if c == from then to ∷ s else c ∷ rest

module _ (to_lower_case : Text → Text) where
  unfoldable pub normalize_locale : Option Text → Locale
  normalize_locale none = default_locale
  normalize_locale (some text) =
      let normalized = to_lower_case (replace_first b'_' b'-' text) in
      if is_one_of (codes "en") (codes "en-us") normalized
      then en_us_locale
      else if is_one_of (codes "es") (codes "es-es") normalized
      then es_es_locale
      else if is_one_of (codes "pt") (codes "pt-br") normalized
      then pt_br_locale
      else default_locale

  -- The entry of local storage, and whether there is a window.
  unfoldable pub read_stored_locale : (window : Bool) → Option Text → Locale
  read_stored_locale window item = if window then normalize_locale item else default_locale
