-- ===== src/Queries/Cache.antt =====
-- The calls that the panel makes of its query client, in their order. What a call does with a
-- query is the client's matter: whether a key covers another, or is the same, is a parameter.
use tenancit.Base.{
  ℕ, Bool, true, false, ◌&&◌, List, [], ◌∷◌, ◌++◌, any, ltb, Text, text_eq, if◌then◌else◌, ◌≡◌,
  Option, none, some,
}
use tenancit.Queries.Keys.{
  Key, all, query_key, overview, tenants, tenant, tenant_domains, tenant_resources,
  tenant_resources_root, definitions, definition, api_clients,
}

pub data CacheCall : Type 0 where
  invalidate_queries : (exact : Bool) (query_key : Key) → CacheCall
  cancel_queries remove_queries reset_queries : (query_key : Key) → CacheCall
  clear : CacheCall

unfoldable pub invalidate_exact : Key → List CacheCall
invalidate_exact key = invalidate_queries true key ∷ []

unfoldable pub invalidate_overview : List CacheCall
invalidate_overview = invalidate_exact (query_key overview)

unfoldable pub invalidate_tenants : List CacheCall
invalidate_tenants = invalidate_exact (query_key tenants) ++ invalidate_overview

unfoldable pub invalidate_tenant : Text → List CacheCall
invalidate_tenant tenant_id =
    invalidate_exact (query_key (tenant tenant_id))
    ++ (invalidate_exact (query_key tenants) ++ invalidate_overview)

unfoldable pub invalidate_tenant_domains : Text → List CacheCall
invalidate_tenant_domains tenant_id =
    invalidate_exact (query_key (tenant_domains tenant_id)) ++ invalidate_overview

unfoldable pub invalidate_tenant_resources : Text → List CacheCall
invalidate_tenant_resources tenant_id =
    invalidate_exact (query_key (tenant_resources tenant_id)) ++ invalidate_overview

unfoldable pub invalidate_all_tenant_resources : List CacheCall
invalidate_all_tenant_resources = invalidate_queries false (query_key tenant_resources_root) ∷ []

unfoldable pub invalidate_definitions : List CacheCall
invalidate_definitions = invalidate_exact (query_key definitions) ++ invalidate_overview

unfoldable pub invalidate_definition : Text → List CacheCall
invalidate_definition definition_id =
    invalidate_exact (query_key (definition definition_id))
    ++ (invalidate_exact (query_key definitions) ++ invalidate_overview)

unfoldable pub invalidate_api_clients : List CacheCall
invalidate_api_clients = invalidate_exact (query_key api_clients) ++ invalidate_overview

unfoldable pub remove_tenant_queries : Text → List CacheCall
remove_tenant_queries tenant_id =
    cancel_queries (query_key (tenant tenant_id))
    ∷ cancel_queries (query_key (tenant_resources tenant_id))
    ∷ remove_queries (query_key (tenant tenant_id))
    ∷ remove_queries (query_key (tenant_resources tenant_id))
    ∷ invalidate_tenants

-- `clearCache`; the queries that are found are reset one by one.
unfoldable pub clear_cache : List CacheCall
clear_cache = cancel_queries all ∷ reset_queries all ∷ clear ∷ []

-- The status of an ApiError, or `none` for another error.
unfoldable pub should_retry_query : ℕ → Option ℕ → Bool
should_retry_query failure_count none = ltb failure_count 2
should_retry_query failure_count (some status) =
    if ltb status 500 then false else ltb failure_count 2

-- One key begins another.
unfoldable pub is_prefix : Key → Key → Bool
is_prefix [] k = true
is_prefix (_ ∷ _) [] = false
is_prefix (s ∷ p) (t ∷ k) = text_eq s t && is_prefix p k

unfoldable pub is_same : Key → Key → Bool
is_same [] [] = true
is_same [] (_ ∷ _) = false
is_same (_ ∷ _) [] = false
is_same (s ∷ p) (t ∷ k) = text_eq s t && is_same p k

-- How the query client matches a filter's key with a query's: by prefix, or wholly.
pub record Matching : Type 0 where
  pub covers : Key → Key → Bool
  pub equals : Key → Key → Bool
  pub covers-prefix : (p k : Key) → covers p k ≡ is_prefix p k
  pub equals-same : (p k : Key) → equals p k ≡ is_same p k

module _ (m : Matching) where
  abbrev pub invalidates : Key → CacheCall → Bool
  invalidates k (invalidate_queries true p) = Matching.equals m p k
  invalidates k (invalidate_queries false p) = Matching.covers m p k
  invalidates k (cancel_queries _) = false
  invalidates k (remove_queries _) = false
  invalidates k (reset_queries _) = false
  invalidates k clear = false

  abbrev pub removes : Key → CacheCall → Bool
  removes k (invalidate_queries _ _) = false
  removes k (cancel_queries _) = false
  removes k (remove_queries p) = Matching.covers m p k
  removes k (reset_queries _) = false
  removes k clear = true

  unfoldable pub is_invalidated : List CacheCall → Key → Bool
  is_invalidated calls k = any (invalidates k) calls

  unfoldable pub is_removed : List CacheCall → Key → Bool
  is_removed calls k = any (removes k) calls
