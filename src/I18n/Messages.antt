-- ===== src/I18n/Messages.antt =====
-- Every message in every language, and those of errors.
use tenancit.Base.{◌≡◌, refl, sym, subst, ap, true, List, none, some, Text, All}
use tenancit.I18n.Pt.{pt_br}
use tenancit.I18n.Defs.{
  Locale, en_us_locale, es_es_locale, pt_br_locale, messages, own_property, template, translate,
  param, replace_from,
}
use tenancit.I18n.Places.{places, is_aligned, aligned_property, replace_from-agrees}
use tenancit.I18n.Aligned.{en_us_aligned, es_es_aligned, pt_br_aligned}
use tenancit.I18n.Filled.{Filled, replace_from-IsFilled}

messages_aligned : (locale : Locale) → is_aligned pt_br (messages locale) ≡ true
unfolding messages
messages_aligned en_us_locale = en_us_aligned
messages_aligned es_es_locale = es_es_aligned
messages_aligned pt_br_locale = pt_br_aligned

pub template_own :
    (locale : Locale) (key n : Text)
    → own_property key (messages locale) ≡ some n
    → template locale key ≡ some n
unfolding template
template_own locale key n e = rw (template, e) refl

-- Each key of the Portuguese dictionary has an own message in every locale, with the same places in
-- the same order, and translating the key gives that message, in which each place is filled with
-- the parameter of its word, or with nothing where there is none, and the rest is kept.
pub translate-IsFilled :
    (locale : Locale) (key m : Text) (params : List (Text × Text))
    → own_property key pt_br ≡ some m
    → (n : Text) × (t : Text) × (own_property key (messages locale) ≡ some n)
      × (places n ≡ places m)
      × (translate locale key params ≡ some t)
      × Filled (param params) n t
unfolding translate
translate-IsFilled locale key m params e =
    let (n, own, alike) =
      aligned_property pt_br (messages locale) key m (messages_aligned locale) e in
    (
      n,
      replace_from (param params) none n,
      own,
      alike,
      rw (template_own locale key n own) refl,
      replace_from-IsFilled (param params) n,
    )

-- A key of the Portuguese dictionary is translated alike with parameters that agree on the places of
-- the Portuguese message, in every locale.
pub translate-agrees :
    (locale : Locale) (key m : Text) (params more : List (Text × Text))
    → own_property key pt_br ≡ some m
    → All (λ w. param params w ≡ param more w) (places m)
    → translate locale key params ≡ translate locale key more
unfolding translate
translate-agrees locale key m params more e agree =
    let (n, own, alike) =
      aligned_property pt_br (messages locale) key m (messages_aligned locale) e in
    let agree_here = subst (All (λ w. param params w ≡ param more w)) (sym alike) agree in
    rw (template_own locale key n own)
      (ap some (replace_from-agrees (param params) (param more) none n agree_here))
