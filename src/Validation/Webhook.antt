-- ===== src/Validation/Webhook.antt =====
-- Webhook addresses.
use tenancit.Base.{
  is_empty_iff, ℕ, ◌≡◌, ◌≢◌, ◌↔◌, ◌⊎◌, inl, inr, refl, true, false, [], ◌∷◌, arith, Text, codes,
  text_eq_iff, trim, Option, none, some, Bool-cases, has_unit, text_eq, subst,
}
use tenancit.Validation.Defs.{Url, is_valid_outcome, is_valid_parsed_url, is_valid_webhook_url}

-- What the URL standard says of a serialised host: one that holds a colon is an IPv6 address in
-- square brackets.
abbrev pub IsBracketed : Text → Type 0
IsBracketed [] = Unit
IsBracketed (c ∷ s) = has_unit b':' (c ∷ s) ≡ true → c ≡ b'['

-- What the check asks of a parsed address: no user, password and fragment, a host, and https, or
-- http to the hosts "localhost" and "127.0.0.1".
abbrev pub IsAllowed : Url → Type 0
IsAllowed url =
    (url.username ≡ [])
    × (url.password ≡ [])
    × (url.hash ≡ [])
    × (url.hostname ≢ [])
    × ((url.protocol ≡ codes "https:")
        ⊎ (url.protocol ≡ codes "http:")
          × ((url.hostname ≡ codes "localhost") ⊎ (url.hostname ≡ codes "127.0.0.1")))

bare_loopback : (h : Text) → IsBracketed h → text_eq h (codes "::1") ≡ false
bare_loopback h b = elim (Bool-cases (text_eq h (codes "::1"))) [
  | inl same ↦
      let colon : ◌≡◌ {A = ℕ} b':' b'[' = (subst IsBracketed ((text_eq_iff _ _).0 same) b) refl in
      absurd (omega arith)
  | inr other ↦ other
]

is_valid_parsed_url_iff :
    (url : Url) → IsBracketed url.hostname → (is_valid_parsed_url url ≡ true) ↔ IsAllowed url
unfolding is_valid_parsed_url
is_valid_parsed_url_iff url b = ground (
  arith,
  bare_loopback url.hostname b,
  is_empty_iff url.username,
  is_empty_iff url.password,
  is_empty_iff url.hash,
  is_empty_iff url.hostname,
  text_eq_iff url.protocol (codes "https:"),
  text_eq_iff url.protocol (codes "http:"),
  text_eq_iff url.hostname (codes "localhost"),
  text_eq_iff url.hostname (codes "127.0.0.1"),
)

is_valid_outcome_iff :
    (o : Option Url)
    → ((url : Url) → o ≡ some url → IsBracketed url.hostname)
    → (is_valid_outcome o ≡ true) ↔ ((url : Url) × (o ≡ some url) × IsAllowed url)
unfolding is_valid_outcome
is_valid_outcome_iff none b = (λ h. cc, λ (url, e, _). cc)
is_valid_outcome_iff (some url) b =
    let (to, from) = is_valid_parsed_url_iff url (b url refl) in
    (
      λ h. (url, refl, to h),
      λ (other, e, allowed). let same : other ≡ url = cc in from (subst IsAllowed same allowed),
    )

-- An address is accepted exactly when it parses to one with no user, password and fragment and
-- with a host, and its scheme is https, or http for the hosts "localhost" and "127.0.0.1" alone:
-- where the parser writes IPv6 hosts in brackets, the listed "::1" is never met.
pub is_valid_webhook_url_iff :
    (parse_url : Text → Option Url)
    → ((text : Text) (url : Url) → parse_url text ≡ some url → IsBracketed url.hostname)
    → (value : Text)
    → (is_valid_webhook_url parse_url value ≡ true)
      ↔ ((url : Url) × (parse_url (trim value) ≡ some url) × IsAllowed url)
unfolding is_valid_webhook_url
is_valid_webhook_url_iff parse_url bracketed value =
    is_valid_outcome_iff (parse_url (trim value)) (bracketed (trim value))
