-- ===== src/Panel/Summary.antt =====
-- summarizeTenantOverview of web/src/lib/tenant-overview.ts.
use tenancit.Base.{
  ℕ, ◌-◌, Bool, not, ◌&&◌, ◌||◌, List, [], ◌∷◌, Text, codes, text_eq, is_empty, trim, any, filter,
  length, ltb, if◌then◌else◌,
}

-- What the summary reads of a field and of a resource.
pub record ResourceFieldValue : Type 0 where
  pub required : Bool
  pub value : Text

pub record TenantResource : Type 0 where
  pub status : Text
  pub fields : List ResourceFieldValue

pub data TenantReadiness : Type 0 where
  ready attention incomplete : TenantReadiness

pub data AttentionCode : Type 0 where
  inactive_tenant missing_domain missing_active_resource : AttentionCode
  inactive_resources incomplete_resources : AttentionCode

pub record TenantOverviewSummary : Type 0 where
  pub active_resource_count : ℕ
  pub attention_codes : List AttentionCode
  pub incomplete_resource_count : ℕ
  pub inactive_resource_count : ℕ
  pub readiness : TenantReadiness
  pub ready_requirement_count : ℕ
  pub total_resource_count : ℕ

pub record Input : Type 0 where
  pub domain_count : ℕ
  pub resources : List TenantResource
  pub tenant_status : Text

unfoldable pub is_active : TenantResource → Bool
is_active resource = text_eq resource.status (codes "active")

unfoldable pub is_blank : ResourceFieldValue → Bool
is_blank field = field.required && is_empty (trim field.value)

unfoldable pub is_incomplete : TenantResource → Bool
is_incomplete resource = any is_blank resource.fields

-- `if (test) attentionCodes.push(code)`, ahead of the codes that follow.
unfoldable pub push_if : Bool → AttentionCode → List AttentionCode → List AttentionCode
push_if test code codes_after = if test then code ∷ codes_after else codes_after

unfoldable pub readiness_of : (blocking inactive : Bool) → TenantReadiness
readiness_of blocking inactive =
    if blocking then incomplete else if inactive then attention else ready

unfoldable pub summarize_tenant_overview : Input → TenantOverviewSummary
summarize_tenant_overview input =
    let tenant_is_active = text_eq input.tenant_status (codes "active") in
    let has_domain = ltb 0 input.domain_count in
    let active = length (filter is_active input.resources) in
    let inactive = length input.resources - active in
    let incomplete = length (filter is_incomplete input.resources) in
    let has_active_resource = ltb 0 active in
    record {
      active_resource_count = active;
      attention_codes = push_if (not tenant_is_active) inactive_tenant (
          push_if (not has_domain) missing_domain (
            push_if (not has_active_resource) missing_active_resource (
              push_if (ltb 0 inactive) inactive_resources
                (push_if (ltb 0 incomplete) incomplete_resources []))));
      incomplete_resource_count = incomplete;
      inactive_resource_count = inactive;
      readiness =
          readiness_of
            (not tenant_is_active || not has_domain || not has_active_resource || ltb 0 incomplete)
            (ltb 0 inactive);
      ready_requirement_count =
          length (filter (λ b. b) (tenant_is_active ∷ has_domain ∷ has_active_resource ∷ []));
      total_resource_count = length input.resources;
    }
