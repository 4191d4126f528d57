-- ===== src/I18n/Human.antt =====
-- The messages of errors.
use tenancit.Base.{
  ℕ, ◌≡◌, ◌≢◌, inl, inr, refl, ap, Bool, true, false, not, ◌&&◌, ◌||◌, List, [], ◌∷◌, Option, none,
  some, Text, codes, All, text_eq, text_eq_iff, is_empty, is_empty_iff, arith, ◌==◌, leb,
  if◌then◌else◌, Option-cases,
}
use tenancit.I18n.Pt.{pt_br, pt_access, pt_shared, pt_catalog, pt_activity, pt_account, pt_tenants}
use tenancit.I18n.En.{en_us, en_access, en_shared, en_catalog, en_activity, en_account, en_tenants}
use tenancit.I18n.Es.{es_es, es_access, es_shared, es_catalog, es_activity, es_account, es_tenants}
use tenancit.I18n.Defs.{
  Locale, en_us_locale, es_es_locale, pt_br_locale, messages, own_property, translate, param,
  replace_from, is_word, read_unit,
}
use tenancit.I18n.Messages.{template_own}
use tenancit.I18n.Errors.{
  ClientError, timed_out, api_error, unknown, status_key, error_key, api_error_message,
}

-- A message that is shown as it stands.
abbrev is_shown_by : Option Text → Bool
is_shown_by none = false
is_shown_by (some m) = not (is_empty m) && text_eq (replace_from (param []) none m) m

if_either {ℓ} :
    (P : Text → Type ℓ) (test : Bool) (a b : Text) → P a → P b → P (if test then a else b)
if_either P true a b h k = h
if_either P false a b h k = k

IsShown : Locale → Text → Type 0
IsShown locale key = is_shown_by (own_property key (messages locale)) ≡ true

abbrev error_keys : List Text
error_keys =
    codes "errors.timeout"
    ∷ codes "errors.definitionInUse"
    ∷ codes "errors.invalidData"
    ∷ codes "auth.invalidToken"
    ∷ codes "errors.forbidden"
    ∷ codes "errors.notFound"
    ∷ codes "errors.conflict"
    ∷ codes "errors.precondition"
    ∷ codes "errors.server"
    ∷ codes "errors.generic"
    ∷ []

error_keys-IsShown : (locale : Locale) → All (IsShown locale) error_keys
unfolding IsShown messages pt_br en_us es_es text_eq is_empty is_word read_unit replace_from
    pt_access pt_shared pt_catalog pt_activity pt_account pt_tenants en_access en_shared en_catalog
    en_activity en_account en_tenants es_access es_shared es_catalog es_activity es_account
    es_tenants
error_keys-IsShown en_us_locale =
    (refl, (refl, (refl, (refl, (refl, (refl, (refl, (refl, (refl, (refl, tt))))))))))
error_keys-IsShown es_es_locale =
    (refl, (refl, (refl, (refl, (refl, (refl, (refl, (refl, (refl, (refl, tt))))))))))
error_keys-IsShown pt_br_locale =
    (refl, (refl, (refl, (refl, (refl, (refl, (refl, (refl, (refl, (refl, tt))))))))))

status_key-IsShown : (locale : Locale) (status : ℕ) → IsShown locale (status_key status)
status_key-IsShown locale status =
    let (_, (_, (bad, (who, (forbidden, (absent, (conflict, (early, (server, (generic, _)))))))))) =
      error_keys-IsShown locale in
    let P = IsShown locale in
    if_either P (status == 400) _ _ bad (
      if_either P (status == 401) _ _ who (
        if_either P (status == 403) _ _ forbidden (
          if_either P (status == 404) _ _ absent (
            if_either P (status == 409) _ _ conflict (
              if_either P (status == 412 || status == 428) _ _ early
                (if_either P (leb 500 status) _ _ server generic))))))

error_key-IsShown : (locale : Locale) (e : ClientError) → IsShown locale (error_key e)
unfolding error_key
error_key-IsShown locale timed_out = (error_keys-IsShown locale).0
error_key-IsShown locale (api_error status message) =
    if_either (IsShown locale) (text_eq message (codes "definition_in_use")) _ _
      (error_keys-IsShown locale).1.0 (status_key-IsShown locale status)
error_key-IsShown locale unknown =
    let (_, (_, (_, (_, (_, (_, (_, (_, (_, (generic, _)))))))))) = error_keys-IsShown locale in
    generic

-- For every error and locale, the text that is shown is a message of the locale's dictionary, as it
-- stands there, and not empty.
pub api_error_message-own :
    (locale : Locale) (e : ClientError)
    → (key : Text) × (m : Text) × (own_property key (messages locale) ≡ some m)
      × (api_error_message e (λ k. translate locale k []) ≡ some m)
      × (m ≢ [])
unfolding IsShown api_error_message translate
api_error_message-own locale e =
    let shown = error_key-IsShown locale e in
    elim (Option-cases (own_property (error_key e) (messages locale))) [
      | inl absent ↦ absurd (let no = rw absent at shown in cc)
      | inr (m, own) ↦
          let good = rw own at shown in
          let as_it_stands : text_eq (replace_from (param []) none m) m ≡ true = ground arith in
          (
            error_key e,
            m,
            own,
            rw (template_own locale (error_key e) m own)
                (ap some ((text_eq_iff (replace_from (param []) none m) m).0 as_it_stands)),
            λ blank. let no = (is_empty_iff m).1 blank in absurd (ground arith),
          )
    ]
