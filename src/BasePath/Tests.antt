-- ===== src/BasePath/Tests.antt =====
-- Base paths and URLs of web/src/lib/runtime-base-path.test.ts, and instances of the theorems.
use tenancit.Base.{
  ◌≡◌, ◌↔◌, ◌⊎◌, refl, [], ◌∷◌, ◌++◌, ◌==◌, Option, none, some, Text, codes, trim, if◌then◌else◌,
  is_space, text_eq, split, starts_with, ends_with, is_empty,
}
use tenancit.Regex.Defs.{matches}
use tenancit.BasePath.Defs.{
  ok, throw, invalid_base_path, not_local, cross_origin, read_runtime_base_path, check_base_path,
  is_malformed, is_bad_segment, build_admin_endpoint, prefix_endpoint, join_base, literal, UrlApi,
  build_oidc_login_url, login_at, login_target,
}
use tenancit.BasePath.Segments.{IsBasePath}
use tenancit.BasePath.Check.{read_runtime_base_path_iff}
use tenancit.BasePath.Endpoint.{
  IsAdminEndpoint, IsPrefixed, IsLocal, strip_breaks, build_admin_endpoint-safe,
}
use tenancit.BasePath.Login.{UrlLaws, Leads, build_oidc_login_url-same_origin}

reads :
    (read_runtime_base_path none ≡ ok (codes "/"))
    × (read_runtime_base_path (some (codes " /tenancit/admin ")) ≡ ok (codes "/tenancit/admin"))
    × (read_runtime_base_path (some (codes "/a//b")) ≡ throw invalid_base_path)
    × (read_runtime_base_path (some (codes "/a/../b")) ≡ throw invalid_base_path)
    × (read_runtime_base_path (some (codes "tenancit")) ≡ throw invalid_base_path)
    × (read_runtime_base_path (some (codes "/a/")) ≡ throw invalid_base_path)
unfolding read_runtime_base_path check_base_path is_malformed is_bad_segment is_empty text_eq
    starts_with ends_with split trim is_space
reads = (refl, refl, refl, refl, refl, refl)

-- The unit that is refused beside ? and #.
backslash : (codes "\\") ≡ 92 ∷ []
backslash = refl

read_runtime_base_path_iff_example :
    (read_runtime_base_path (some (codes " /t ")) ≡ ok (codes "/t")) ↔ (
      (((trim (codes " /t ") ≡ []) ⊎ (trim (codes " /t ") ≡ codes "/")) × (codes "/t" ≡ codes "/"))
      ⊎ (IsBasePath (trim (codes " /t ")) × (codes "/t" ≡ trim (codes " /t "))))
read_runtime_base_path_iff_example = read_runtime_base_path_iff (codes " /t ") (codes "/t")

built :
    build_admin_endpoint (codes "/v1/auth/config") (some (codes "/t"))
    ≡ ok (codes "/t/v1/auth/config")
unfolding build_admin_endpoint prefix_endpoint join_base literal matches read_runtime_base_path
    check_base_path is_malformed is_bad_segment is_empty text_eq starts_with ends_with split trim
    is_space
built = refl

foreign : build_admin_endpoint (codes "/v1/administer") none ≡ throw not_local
unfolding build_admin_endpoint literal matches
foreign = refl

build_admin_endpoint-safe_example :
    IsAdminEndpoint (codes "/v1/auth/config")
    × IsPrefixed (codes "/v1/auth/config") (codes "/t/v1/auth/config")
    × IsLocal (codes "/t/v1/auth/config")
unfolding trim is_space
build_admin_endpoint-safe_example =
    build_admin_endpoint-safe (codes "/v1/auth/config") (codes "/t/v1/auth/config")
      (some (codes "/t")) built (refl, (refl, tt))

-- A tab inside the base path is accepted, and the URL parser drops it.
abbrev tabbed : Text
tabbed = b'/' ∷ 9 ∷ codes "/evil.example"

tab_kept : read_runtime_base_path (some tabbed) ≡ ok tabbed
unfolding read_runtime_base_path check_base_path is_malformed is_bad_segment is_empty text_eq
    starts_with ends_with split trim is_space
tab_kept = refl

tab_dropped :
    (build_admin_endpoint (codes "/v1/admin") (some tabbed) ≡ ok (tabbed ++ codes "/v1/admin"))
    × (strip_breaks (tabbed ++ codes "/v1/admin") ≡ codes "//evil.example/v1/admin")
unfolding build_admin_endpoint prefix_endpoint join_base literal matches read_runtime_base_path
    check_base_path is_malformed is_bad_segment is_empty text_eq starts_with ends_with split trim
    is_space
tab_dropped = (refl, refl)

-- Two hosts, "a" and "b"; a text that opens with a slash is taken against the base.
data Host : Type 0 where
  here there : Host

abbrev host_text : Host → Text
host_text here = codes "a"
host_text there = codes "b"

abbrev host_of : Text → Option Host
host_of [] = none
host_of (c ∷ _) = if c == b'a' then some here else if c == b'b' then some there else none

abbrev origin_text : Option Host → Option Text
origin_text none = none
origin_text (some h) = some (host_text h)

abbrev with_path : Option Host → Text → Option (Host × Text)
with_path none path = none
with_path (some h) path = some (h, path)

abbrev parse : Text → Text → Option (Host × Text)
parse [] base = with_path (host_of base) []
parse (c ∷ s) base =
    if c == b'/' then with_path (host_of base) (c ∷ s) else with_path (host_of (c ∷ s)) s

abbrev two_hosts : UrlApi
two_hosts = record {
  Url = Host × Text;
  origin_of = λ s. origin_text (host_of s);
  resolve_url = parse;
  origin = λ (h, _). host_text h;
  set_return_to = λ (h, s) v. (h, s ++ codes "?return_to=" ++ v);
  to_text = λ (h, s). host_text h ++ s;
}

parse-print :
    (url : Host × Text) (base : Text) → parse (UrlApi.to_text two_hosts url) base ≡ some url
parse-print (here, s) base = refl
parse-print (there, s) base = refl

two_hosts-laws : UrlLaws two_hosts
two_hosts-laws = record { set_return_to-origin = λ url v. refl; resolve_url-to_text = parse-print }

login :
    build_oidc_login_url two_hosts (codes "/v1/auth/login") (codes "a") []
    ≡ ok (codes "a/v1/auth/login?return_to=/")
unfolding build_oidc_login_url login_at login_target text_eq is_empty
login = refl

elsewhere : build_oidc_login_url two_hosts (codes "b/login") (codes "a") [] ≡ throw cross_origin
unfolding build_oidc_login_url login_at login_target text_eq is_empty
elsewhere = refl

build_oidc_login_url-same_origin_example :
    (expected : Text) × (UrlApi.origin_of two_hosts (codes "a") ≡ some expected)
    × Leads two_hosts expected (codes "a/v1/auth/login?return_to=/")
build_oidc_login_url-same_origin_example =
    build_oidc_login_url-same_origin two_hosts two_hosts-laws (codes "/v1/auth/login") (codes "a")
      [] (codes "a/v1/auth/login?return_to=/") login
