-- ===== src/I18n/Tests.antt =====
-- Messages, and instances of the theorems.
use tenancit.Base.{
  lower_unit, ◌≡◌, ◌≢◌, refl, List, [], ◌∷◌, some, Text, codes, map, true, text_eq, is_empty, arith,
}
use tenancit.I18n.Pt.{pt_br, pt_access, pt_shared, pt_catalog, pt_activity, pt_account, pt_tenants}
use tenancit.I18n.En.{en_us, en_access, en_shared, en_catalog, en_activity, en_account, en_tenants}
use tenancit.I18n.Es.{es_es, es_access, es_shared, es_catalog, es_activity, es_account, es_tenants}
use tenancit.I18n.Defs.{
  en_us_locale, es_es_locale, messages, own_property, translate, template, param, replace_from,
  is_word, read_unit, read_stored_locale, format_status, has_translation, replace_first, tag,
}
use tenancit.I18n.Places.{places}
use tenancit.I18n.Filled.{Filled}
use tenancit.I18n.Messages.{translate-IsFilled}
use tenancit.I18n.Errors.{api_error, api_error_message}
use tenancit.I18n.Human.{api_error_message-own}
use tenancit.I18n.Provider.{Provider, mount, set_locales, mount-set_locales}
use tenancit.I18n.Stored.{read_stored_locale-tag}

abbrev five : List (Text × Text)
five = (codes "count", codes "5") ∷ []

five_secrets :
    translate en_us_locale (codes "tenantDetail.secretCount.many") five ≡ some (codes "5 secrets")
unfolding translate template messages en_us en_access en_shared en_catalog en_activity en_account
    en_tenants text_eq is_empty is_word read_unit replace_from
five_secrets = refl

inactive : format_status (codes "inactive") es_es_locale ≡ some (codes "inactivo")
unfolding format_status has_translation translate template messages pt_br pt_access pt_shared
    pt_catalog pt_activity pt_account pt_tenants es_es es_access es_shared es_catalog es_activity
    es_account es_tenants text_eq is_empty is_word read_unit replace_from
inactive = refl

translate-IsFilled_example :
    (n : Text) × (t : Text) × (own_property
        (codes "tenantDetail.secretCount.many")
        (messages es_es_locale)
      ≡ some n)
    × (places n ≡ places (codes "{count} segredos"))
    × (translate es_es_locale (codes "tenantDetail.secretCount.many") five ≡ some t)
    × Filled (param five) n t
unfolding pt_br pt_access pt_shared pt_catalog pt_activity pt_account pt_tenants text_eq
translate-IsFilled_example =
    translate-IsFilled es_es_locale (codes "tenantDetail.secretCount.many")
      (codes "{count} segredos") five refl

api_error_message-own_example :
    (key : Text) × (m : Text) × (own_property key (messages en_us_locale) ≡ some m)
    × (api_error_message (api_error 503 (codes "pq: dial tcp")) (λ k. translate en_us_locale k [])
        ≡ some m)
    × (m ≢ [])
api_error_message-own_example =
    api_error_message-own en_us_locale (api_error 503 (codes "pq: dial tcp"))

tag_read : read_stored_locale (map lower_unit) true (some (codes "EN_us")) ≡ en_us_locale
unfolding replace_first tag
tag_read =
    read_stored_locale-tag (map lower_unit) (λ s h. refl) en_us_locale (codes "EN_us")
      (omega arith, (omega arith, (omega arith, (omega arith, (omega arith, tt))))) refl

abbrev chosen : Provider
chosen = set_locales (es_es_locale ∷ en_us_locale ∷ []) (mount (map lower_unit) (some (codes "pt")))

mount-set_locales_example :
    (chosen.lang ≡ some (tag chosen.locale))
    × ((mount (map lower_unit) chosen.item).locale ≡ chosen.locale)
mount-set_locales_example =
    mount-set_locales (map lower_unit) (λ s h. refl) (some (codes "pt"))
      (es_es_locale ∷ en_us_locale ∷ [])
