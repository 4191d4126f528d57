-- ===== src/BasePath/Login.antt =====
-- The URL to which the panel sends a login.
use tenancit.Base.{
  arith, ◌≡◌, refl, inl, inr, ◌∙◌, Option, none, some, Text, codes, text_eq, text_eq_iff, is_empty,
  Bool-cases, if◌then◌else◌,
}
use tenancit.BasePath.Defs.{ok, UrlApi, login_target, login_at, build_oidc_login_url}

-- What is known of `URL`: setting a query parameter leaves the origin, and a serialised URL
-- is parsed back, against any base.
pub record UrlLaws (api : UrlApi) : Type 0 where
  pub set_return_to-origin :
      (url : UrlApi.Url api) (v : Text)
      → UrlApi.origin api (UrlApi.set_return_to api url v) ≡ UrlApi.origin api url
  pub resolve_url-to_text :
      (url : UrlApi.Url api) (base : Text)
      → UrlApi.resolve_url api (UrlApi.to_text api url) base ≡ some url

module _ (api : UrlApi) where
  open api use {Url, origin_of, resolve_url, origin, set_return_to, to_text}

  -- A URL of the given origin stands behind a text.
  abbrev pub Leads : Text → Text → Type 0
  Leads expected u =
      (target : Url) × ((base : Text) → resolve_url u base ≡ some target)
      × (origin target ≡ expected)

module _ (api : UrlApi) (laws : UrlLaws api) where
  open api use {Url, origin_of, resolve_url, origin, set_return_to, to_text}
  open laws use {set_return_to-origin, resolve_url-to_text}

  login_target-Leads :
      (expected : Text) (parsed : Option Url) (return_to u : Text)
      → login_target api expected parsed return_to ≡ ok u
      → Leads api expected u
  unfolding login_target
  login_target-Leads expected none return_to u h = cc
  login_target-Leads expected (some target) return_to u h =
      elim (Bool-cases (text_eq (origin target) expected)) [
        | inl same ↦
            let v = if is_empty return_to then codes "/" else return_to in
            let printed : u ≡ to_text (set_return_to target v) = ground arith in
            (
              set_return_to target v,
              λ base. rw printed (resolve_url-to_text (set_return_to target v) base),
              set_return_to-origin target v ∙ (text_eq_iff (origin target) expected).0 same,
            )
        | inr other ↦ cc (rw other at h)
      ]

  login_at-Leads :
      (o : Option Text) (login_url return_to u : Text)
      → login_at api o login_url return_to ≡ ok u
      → (expected : Text) × (o ≡ some expected) × Leads api expected u
  unfolding login_at
  login_at-Leads none login_url return_to u h = cc
  login_at-Leads (some expected) login_url return_to u h =
      (expected, refl, login_target-Leads expected _ return_to u h)

  -- With a `URL` whose parser inverts its printer and whose parameters do not touch the origin, a
  -- login URL that is returned is parsed, against any base, to a URL of the configured origin.
  pub build_oidc_login_url-same_origin :
      (login_url origin_text return_to u : Text)
      → build_oidc_login_url api login_url origin_text return_to ≡ ok u
      → (expected : Text) × (origin_of origin_text ≡ some expected) × Leads api expected u
  unfolding build_oidc_login_url
  build_oidc_login_url-same_origin login_url origin_text return_to u h =
      login_at-Leads (origin_of origin_text) login_url return_to u h
