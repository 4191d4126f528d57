-- ===== src/BasePath/Defs.antt =====
-- The base path, the admin endpoint under it, and the OIDC login URL. The content of the meta
-- element is an argument, and so are the operations of `URL`.
use tenancit.Base.{
  is_empty, Bool, true, not, ◌||◌, [], ◌∷◌, ◌++◌, Option, none, some, Text, codes, text_eq, trim,
  split, starts_with, ends_with, has_unit, any, ◌==◌, if◌then◌else◌,
}
use tenancit.Regex.Defs.{Regex, blank, one_of, seq, alt, star, unit, matches}

-- The errors that are thrown.
pub data PathError : Type 0 where
  invalid_base_path not_local invalid_url cross_origin : PathError

pub data Result {ℓ} (A : Type ℓ) : Type ℓ where
  ok : A → Result A
  throw : PathError → Result A

unfoldable pub is_bad_segment : Text → Bool
is_bad_segment segment =
    is_empty segment || text_eq segment (codes ".") || text_eq segment (codes "..")

-- `configured.slice(1)`
abbrev pub after_first : Text → Text
after_first [] = []
after_first (_ ∷ s) = s

-- The condition of the `throw`.
unfoldable pub is_malformed : Text → Bool
is_malformed configured =
    not (starts_with configured (codes "/"))
    || starts_with configured (codes "//")
    || ends_with configured (codes "/")
    || has_unit b'?' configured
    || has_unit b'#' configured
    || has_unit b'\\' configured
    || any is_bad_segment (split b'/' (after_first configured))

unfoldable pub check_base_path : Text → Result Text
check_base_path configured =
    if is_empty configured || text_eq configured (codes "/")
    then ok (codes "/")
    else if is_malformed configured
    then throw invalid_base_path
    else ok configured

-- `none` is a document without the meta element.
unfoldable pub read_runtime_base_path : Option Text → Result Text
read_runtime_base_path none = ok (codes "/")
read_runtime_base_path (some content) = check_base_path (trim content)

-- A text, unit by unit.
unfoldable pub literal : Text → Regex
literal [] = blank
literal (c ∷ s) = seq (unit c) (literal s)

abbrev pub anything : Regex
anything = star (one_of (λ c. true))

-- /^\/v1\/(?:admin|auth)(?:[/?]|$)/, followed by anything since it is not anchored at the end.
abbrev pub admin_endpoint_pattern : Regex
admin_endpoint_pattern = seq (literal (codes "/v1/")) (
    seq (alt (literal (codes "admin")) (literal (codes "auth")))
      (alt (seq (one_of (λ c. c == b'/' || c == b'?')) anything) blank))

unfoldable pub join_base : Text → Text → Text
join_base base_path endpoint =
    if text_eq base_path (codes "/") then endpoint else base_path ++ endpoint

unfoldable pub prefix_endpoint : Result Text → Text → Result Text
prefix_endpoint (throw e) endpoint = throw e
prefix_endpoint (ok base_path) endpoint = ok (join_base base_path endpoint)

unfoldable pub build_admin_endpoint : Text → Option Text → Result Text
build_admin_endpoint endpoint content =
    if not (matches admin_endpoint_pattern endpoint)
    then throw not_local
    else prefix_endpoint (read_runtime_base_path content) endpoint

-- What the login URL takes from `URL`: the origin of an absolute text, the parse of a text against
-- a base, the origin of a URL, `searchParams.set("return_to", …)`, and the serialised form.
pub record UrlApi : Type 1 where
  pub Url : Type 0
  pub origin_of : Text → Option Text
  pub resolve_url : Text → Text → Option Url
  pub origin : Url → Text
  pub set_return_to : Url → Text → Url
  pub to_text : Url → Text

module _ (api : UrlApi) where
  open api use {Url, origin_of, resolve_url, origin, set_return_to, to_text}

  unfoldable pub login_target : Text → Option Url → Text → Result Text
  login_target expected none return_to = throw invalid_url
  login_target expected (some target) return_to =
      if not (text_eq (origin target) expected)
      then throw cross_origin
      else ok (to_text (set_return_to target (if is_empty return_to then codes "/" else return_to)))

  unfoldable pub login_at : Option Text → Text → Text → Result Text
  login_at none login_url return_to = throw invalid_url
  login_at (some expected) login_url return_to =
      login_target expected (resolve_url login_url (expected ++ codes "/")) return_to

  unfoldable pub build_oidc_login_url : (login_url origin_text return_to : Text) → Result Text
  build_oidc_login_url login_url origin_text return_to =
      login_at (origin_of origin_text) login_url return_to
