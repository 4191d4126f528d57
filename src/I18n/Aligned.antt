-- ===== src/I18n/Aligned.antt =====
-- The dictionaries have the same keys, and their messages the same places.
use tenancit.Base.{◌≡◌, refl, true, text_eq, is_empty}
use tenancit.I18n.Pt.{pt_br, pt_access, pt_shared, pt_catalog, pt_activity, pt_account, pt_tenants}
use tenancit.I18n.En.{en_us, en_access, en_shared, en_catalog, en_activity, en_account, en_tenants}
use tenancit.I18n.Es.{es_es, es_access, es_shared, es_catalog, es_activity, es_account, es_tenants}
use tenancit.I18n.Defs.{is_word}
use tenancit.I18n.Places.{is_aligned}

pub en_us_aligned : is_aligned pt_br en_us ≡ true
unfolding pt_br en_us text_eq is_empty is_word pt_access pt_shared pt_catalog pt_activity pt_account
    pt_tenants en_access en_shared en_catalog en_activity en_account en_tenants
en_us_aligned = refl

pub es_es_aligned : is_aligned pt_br es_es ≡ true
unfolding pt_br es_es text_eq is_empty is_word pt_access pt_shared pt_catalog pt_activity pt_account
    pt_tenants es_access es_shared es_catalog es_activity es_account es_tenants
es_es_aligned = refl

pub pt_br_aligned : is_aligned pt_br pt_br ≡ true
unfolding pt_br text_eq is_empty is_word pt_access pt_shared pt_catalog pt_activity pt_account
    pt_tenants
pt_br_aligned = refl
