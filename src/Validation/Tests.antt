-- ===== src/Validation/Tests.antt =====
-- The checks on the inputs of web/src/lib/validation.test.ts, and instances of the theorems.
use mathlib.Core.Option.{some-injective}
use tenancit.Base.{
  is_empty, subst, ◌≤◌, ◌≡◌, ◌↔◌, refl, Bool, true, false, [], ◌∷◌, Text, codes, length, trim,
  split, All, map, Option, none, some, ℤ, pos, negsuc, ◌≤ℤ◌, text_eq, if◌then◌else◌, ◌≢◌, ◌⊎◌,
  starts_with, ends_with, is_space, leb, ◌-◌, ◌+◌,
}
use tenancit.Regex.Defs.{matches}
use tenancit.Validation.Defs.{
  is_valid_tenant_slug, is_valid_definition_key, is_valid_label, is_valid_hostname, drop_final_dot,
  Url, is_valid_parsed_url, is_valid_outcome, is_valid_webhook_url, digits_value, number_of,
  is_safe_integer, is_integer_in_range, is_valid_date_range, is_before,
  is_valid_typed_resource_value,
}
use tenancit.Validation.Slug.{IsWord, is_valid_tenant_slug_iff}
use tenancit.Validation.Hostname.{IsLabel, is_valid_hostname_iff}
use tenancit.Validation.Number.{
  Denotes, IsSafe, IsSigned, is_integer_in_range_iff, is_valid_typed_resource_value_iff,
}
use tenancit.Validation.Webhook.{IsAllowed, IsBracketed, is_valid_webhook_url_iff}

slugs :
    map is_valid_tenant_slug (
      codes "mydesk"
      ∷ codes " my-desk "
      ∷ codes "MyDesk"
      ∷ codes "my_desk"
      ∷ codes "-mydesk"
      ∷ codes "mydesk-"
      ∷ codes "my--desk"
      ∷ []
      ∷ [])
    ≡ true ∷ true ∷ false ∷ false ∷ false ∷ false ∷ false ∷ false ∷ []
unfolding is_valid_tenant_slug trim is_space matches
slugs = refl

keys :
    map is_valid_definition_key
      (codes "postgres_primary" ∷ codes "Postgres" ∷ codes "2postgres" ∷ codes "postgres.main" ∷ [])
    ≡ true ∷ false ∷ false ∷ false ∷ []
unfolding is_valid_definition_key trim is_space matches
keys = refl

-- `toLowerCase` on ASCII.
lower : Text → Text
lower = map (λ c. if leb b'A' c then (if leb c b'Z' then c - b'A' + b'a' else c) else c)

hostnames :
    map (is_valid_hostname lower) (
      codes "APP.EXAMPLE.COM."
      ∷ codes "localhost"
      ∷ codes "-app.example.com"
      ∷ codes "app_.example"
      ∷ [])
    ≡ true ∷ true ∷ false ∷ false ∷ []
unfolding is_valid_hostname drop_final_dot split is_valid_label starts_with ends_with trim is_space
    matches lower
hostnames = refl

integers :
    (is_integer_in_range (codes " 300 ") (pos 1) (pos 10000) ≡ true)
    × (is_integer_in_range (codes "1.5") (pos 1) (pos 10000) ≡ false)
    × (is_integer_in_range (codes "-2") (negsuc 4) (pos 0) ≡ true)
    × (is_integer_in_range (codes "10001") (pos 1) (pos 10000) ≡ false)
unfolding is_integer_in_range number_of digits_value is_safe_integer trim is_space matches
integers = (refl, refl, refl, refl)

-- A parser that knows two addresses.
abbrev loopback : Url
loopback = record {
  protocol = codes "http:";
  username = [];
  password = [];
  hostname = codes "[::1]";
  hash = [];
}

abbrev receiver : Url
receiver = record loopback { protocol = codes "https:"; hostname = codes "receiver" }

abbrev parse_url : Text → Option Url
parse_url text = if text_eq text (codes "http://[::1]/") then some loopback else some receiver

bracketed :
    (b : Bool) (url : Url)
    → (if b then some loopback else some receiver) ≡ some url
    → IsBracketed url.hostname
bracketed true url e =
    subst (λ (u : Url). IsBracketed u.hostname) (some-injective loopback url e) (λ _. refl)
bracketed false url e =
    subst (λ (u : Url). IsBracketed u.hostname) (some-injective receiver url e) (λ h. cc)

parse_url-IsBracketed :
    (text : Text) (url : Url) → parse_url text ≡ some url → IsBracketed url.hostname
parse_url-IsBracketed text url e = bracketed (text_eq text (codes "http://[::1]/")) url e

webhooks :
    map (is_valid_webhook_url parse_url) (codes "https://receiver" ∷ codes "http://[::1]/" ∷ [])
    ≡ true ∷ false ∷ []
unfolding is_valid_webhook_url is_valid_outcome is_valid_parsed_url is_empty text_eq trim is_space
webhooks = refl

is_valid_tenant_slug_iff_example : (is_valid_tenant_slug (codes " my-desk ") ≡ true) ↔ (
    (length (trim (codes " my-desk ")) ≤ 63) × All IsWord (split b'-' (trim (codes " my-desk "))))
is_valid_tenant_slug_iff_example = is_valid_tenant_slug_iff (codes " my-desk ")

is_valid_hostname_iff_example : (is_valid_hostname lower (codes "A.b.") ≡ true) ↔ (
    (drop_final_dot (lower (trim (codes "A.b."))) ≢ [])
    × (length (drop_final_dot (lower (trim (codes "A.b.")))) ≤ 253)
    × All IsLabel (split b'.' (drop_final_dot (lower (trim (codes "A.b."))))))
is_valid_hostname_iff_example = is_valid_hostname_iff lower (codes "A.b.")

is_integer_in_range_iff_example :
    (is_integer_in_range (codes "-7") (negsuc 9) (pos 3) ≡ true)
    ↔ ((n : ℤ) × Denotes (trim (codes "-7")) n × (negsuc 9 ≤ℤ n) × (n ≤ℤ pos 3) × IsSafe n)
is_integer_in_range_iff_example = is_integer_in_range_iff (codes "-7") (negsuc 9) (pos 3)

is_valid_typed_resource_value_iff_example :
    (is_valid_typed_resource_value (codes "int") (codes "-4") ≡ true) ↔ (
      (codes "int" ≡ codes "int" → (codes "-4" ≡ []) ⊎ IsSigned (codes "-4"))
      × (codes "int" ≡ codes "bool"
          → (codes "-4" ≡ []) ⊎ (codes "-4" ≡ codes "true") ⊎ (codes "-4" ≡ codes "false")))
is_valid_typed_resource_value_iff_example =
    is_valid_typed_resource_value_iff (codes "int") (codes "-4")

is_valid_webhook_url_iff_example :
    (is_valid_webhook_url parse_url (codes "http://[::1]/") ≡ true)
    ↔ ((url : Url) × (parse_url (trim (codes "http://[::1]/")) ≡ some url) × IsAllowed url)
is_valid_webhook_url_iff_example =
    is_valid_webhook_url_iff parse_url parse_url-IsBracketed (codes "http://[::1]/")

-- Dates of one digit.
abbrev parse_date : Text → Option ℤ
parse_date [] = none
parse_date (c ∷ _) = some (pos c)

-- A range leads forward, and both its dates are dates.
ranges :
    (is_valid_date_range parse_date (codes "1") (codes "2") ≡ true)
    × (is_valid_date_range parse_date (codes "2") (codes "1") ≡ false)
    × (is_valid_date_range parse_date (codes "1") (codes "1") ≡ false)
    × (is_valid_date_range parse_date (codes "") (codes "1") ≡ false)
unfolding is_valid_date_range is_before
ranges = (refl, refl, refl, refl)
