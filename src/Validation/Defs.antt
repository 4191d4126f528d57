-- ===== src/Validation/Defs.antt =====
-- web/src/lib/validation.ts: the checks of the admin forms. A text is its list of code units;
-- the patterns are the source's, and `Date.parse`, `new URL` and `toLowerCase` on units outside
-- ASCII are parameters.
use tenancit.Base.{ℕ, ◌-◌, ◌+◌, ◌*◌, Bool, true, false, not, ◌&&◌, ◌||◌, List, [], ◌∷◌}
use tenancit.Base.{is_empty, Text, codes, text_eq, trim, split, starts_with, ends_with, all, length}
use tenancit.Base.{Option, none, some, leb, ltb, ◌==◌, if◌then◌else◌, any}
use tenancit.Base.{ℤ, pos, negsuc, neg, leb_ℤ, ltb_ℤ}
use tenancit.Regex.Defs.{Regex, one_of, seq, star, plus, opt, up_to, unit, matches}

abbrev pub is_digit : ℕ → Bool
is_digit c = leb b'0' c && leb c b'9'

abbrev pub is_lower : ℕ → Bool
is_lower c = leb b'a' c && leb c b'z'

-- [a-z0-9]
abbrev pub is_word_unit : ℕ → Bool
is_word_unit c = is_lower c || is_digit c

-- [a-z0-9_-] and [a-z0-9._-]
abbrev pub is_key_unit : ℕ → Bool
is_key_unit c = is_word_unit c || c == b'_' || c == b'-'

abbrev pub is_alias_unit : ℕ → Bool
is_alias_unit c = is_word_unit c || c == b'.' || c == b'_' || c == b'-'

-- /^[a-z0-9]+(?:-[a-z0-9]+)*$/
abbrev pub tenant_slug_pattern : Regex
tenant_slug_pattern =
    seq (plus (one_of is_word_unit)) (star (seq (unit b'-') (plus (one_of is_word_unit))))

-- /^[a-z][a-z0-9_-]{0,62}$/
abbrev pub definition_key_pattern : Regex
definition_key_pattern = seq (one_of is_lower) (up_to 62 (one_of is_key_unit))

-- /^[a-z0-9][a-z0-9._-]{0,62}$/
abbrev pub resource_alias_pattern : Regex
resource_alias_pattern = seq (one_of is_word_unit) (up_to 62 (one_of is_alias_unit))

unfoldable pub is_valid_tenant_slug : Text → Bool
is_valid_tenant_slug value =
    let slug = trim value in leb (length slug) 63 && matches tenant_slug_pattern slug

unfoldable pub is_valid_definition_key : Text → Bool
is_valid_definition_key value = matches definition_key_pattern (trim value)

unfoldable pub is_valid_resource_alias : Text → Bool
is_valid_resource_alias value = matches resource_alias_pattern (trim value)

-- /^[a-z0-9-]+$/
abbrev pub is_host_unit : ℕ → Bool
is_host_unit c = is_word_unit c || c == b'-'

-- The callback of `every` in `isValidHostname`.
unfoldable pub is_valid_label : Text → Bool
is_valid_label label =
    ltb 0 (length label)
    && leb (length label) 63
    && not (starts_with label (codes "-"))
    && not (ends_with label (codes "-"))
    && matches (plus (one_of is_host_unit)) label

-- `.replace(/\.$/, "")`: one dot at the end is dropped.
unfoldable pub drop_final_dot : Text → Text
drop_final_dot [] = []
drop_final_dot (c ∷ []) = if c == b'.' then [] else c ∷ []
drop_final_dot (c ∷ (d ∷ s)) = c ∷ drop_final_dot (d ∷ s)

-- `to_lower` is `String.prototype.toLowerCase`.
unfoldable pub is_valid_hostname : (to_lower : Text → Text) → Text → Bool
is_valid_hostname to_lower value =
    let hostname = drop_final_dot (to_lower (trim value)) in
    if length hostname == 0 || ltb 253 (length hostname)
    then false
    else all is_valid_label (split b'.' hostname)

-- The parts of a `URL` that `isValidWebhookURL` reads.
pub record Url : Type 0 where
  pub protocol : Text
  pub username : Text
  pub password : Text
  pub hostname : Text
  pub hash : Text

abbrev pub loopback_hosts : List Text
loopback_hosts = codes "localhost" ∷ codes "127.0.0.1" ∷ codes "::1" ∷ []

unfoldable pub is_valid_parsed_url : Url → Bool
is_valid_parsed_url parsed =
    if not (is_empty parsed.username)
      || not (is_empty parsed.password)
      || not (is_empty parsed.hash)
      || is_empty parsed.hostname
    then false
    else if text_eq parsed.protocol (codes "https:")
    then true
    else text_eq parsed.protocol (codes "http:") && any (text_eq parsed.hostname) loopback_hosts

-- The `try` block over the parsed address, and the `catch` where there is none.
unfoldable pub is_valid_outcome : Option Url → Bool
is_valid_outcome none = false
is_valid_outcome (some parsed) = is_valid_parsed_url parsed

-- `parse_url` is `new URL`, with `none` where it throws.
unfoldable pub is_valid_webhook_url : (parse_url : Text → Option Url) → Text → Bool
is_valid_webhook_url parse_url value = is_valid_outcome (parse_url (trim value))

-- /^-?\d+$/
abbrev pub integer_pattern : Regex
integer_pattern = seq (opt (unit b'-')) (plus (one_of is_digit))

-- `Number` on a text that the pattern accepts. A double holds these exactly up to 2^53, and above
-- that rounds to a number that is no safe integer either.
unfoldable pub digits_value : ℕ → Text → ℕ
digits_value acc [] = acc
digits_value acc (c ∷ s) = digits_value (acc * 10 + (c - b'0')) s

unfoldable pub number_of : Text → ℤ
unfolding digits_value
number_of [] = pos 0
number_of (c ∷ s) = if c == b'-' then neg (digits_value 0 s) else pos (digits_value 0 (c ∷ s))

abbrev pub max_safe : ℕ
max_safe = 9007199254740991

unfoldable pub is_safe_integer : ℤ → Bool
is_safe_integer (pos n) = leb n max_safe
is_safe_integer (negsuc n) = ltb n max_safe

unfoldable pub is_integer_in_range : Text → ℤ → ℤ → Bool
is_integer_in_range value minimum maximum =
    if not (matches integer_pattern (trim value))
    then false
    else (let parsed = number_of (trim value) in
        is_safe_integer parsed && leb_ℤ minimum parsed && leb_ℤ parsed maximum)

-- Both times are finite, and the first is before the second; `none` is NaN.
unfoldable pub is_before : Option ℤ → Option ℤ → Bool
is_before none to_time = false
is_before (some from_time) none = false
is_before (some from_time) (some to_time) = ltb_ℤ from_time to_time

-- `parse_date` is `Date.parse`; a time value is integral.
unfoldable pub is_valid_date_range : (parse_date : Text → Option ℤ) → Text → Text → Bool
is_valid_date_range parse_date from to = is_before (parse_date from) (parse_date to)

unfoldable pub is_valid_typed_resource_value : Text → Text → Bool
is_valid_typed_resource_value data_type value =
    if is_empty value
    then true
    else if text_eq data_type (codes "int")
    then matches integer_pattern value
    else if text_eq data_type (codes "bool")
    then text_eq value (codes "true") || text_eq value (codes "false")
    else true
