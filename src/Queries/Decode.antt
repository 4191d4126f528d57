-- ===== src/Queries/Decode.antt =====
-- No two queries share a key.
use tenancit.Base.{
  ◌≡◌, ◌↔◌, refl, sym, ap, ◌∙◌, true, [], ◌∷◌, arith, Option, none, some, Text, codes, text_eq,
  text_eq_iff, if◌then◌else◌,
}
use tenancit.Queries.Keys.{
  Key, AdminQuery, query_key, api_clients, definitions, overview, operational_health, sessions,
  settings, webhook_targets, webhook_deliveries, webhook_overview, tenants, tenant_resources_root,
  api_client_usage, definition, tenant, tenant_domains, tenant_resources,
}
use tenancit.Queries.Cache.{is_same}

-- The query of a single word.
plain : Text → Option AdminQuery
plain w =
    if text_eq w (codes "api-clients")
    then some api_clients
    else if text_eq w (codes "definitions")
    then some definitions
    else if text_eq w (codes "overview")
    then some overview
    else if text_eq w (codes "operational-health")
    then some operational_health
    else if text_eq w (codes "sessions")
    then some sessions
    else if text_eq w (codes "settings")
    then some settings
    else if text_eq w (codes "webhook-targets")
    then some webhook_targets
    else if text_eq w (codes "webhook-deliveries")
    then some webhook_deliveries
    else if text_eq w (codes "webhook-overview")
    then some webhook_overview
    else if text_eq w (codes "tenants")
    then some tenants
    else if text_eq w (codes "tenant-resources")
    then some tenant_resources_root
    else none

detail : Text → Text → Text → Option AdminQuery
detail w x id =
    if text_eq w (codes "api-client-usage")
    then some (api_client_usage x id)
    else if text_eq w (codes "definitions")
    then some (definition id)
    else if text_eq w (codes "tenants")
    then some (tenant id)
    else none

query_of : Key → Option AdminQuery
query_of [] = none
query_of (_ ∷ []) = none
query_of (_ ∷ w ∷ []) = plain w
query_of (_ ∷ w ∷ id ∷ []) = some (tenant_resources id)
query_of (_ ∷ w ∷ x ∷ id ∷ []) = detail w x id
query_of (_ ∷ w ∷ x ∷ id ∷ _ ∷ _) = some (tenant_domains id)

query_of-query_key : (q : AdminQuery) → query_of (query_key q) ≡ some q
unfolding query_of query_key plain detail text_eq
query_of-query_key api_clients = refl
query_of-query_key definitions = refl
query_of-query_key overview = refl
query_of-query_key operational_health = refl
query_of-query_key sessions = refl
query_of-query_key settings = refl
query_of-query_key webhook_targets = refl
query_of-query_key webhook_deliveries = refl
query_of-query_key webhook_overview = refl
query_of-query_key tenants = refl
query_of-query_key tenant_resources_root = refl
query_of-query_key (api_client_usage from to) = refl
query_of-query_key (definition id) = refl
query_of-query_key (tenant id) = refl
query_of-query_key (tenant_domains id) = refl
query_of-query_key (tenant_resources id) = refl

-- Queries of the same key are the same query, with the same arguments.
pub query_key-injective : (q r : AdminQuery) → query_key q ≡ query_key r → q ≡ r
query_key-injective q r e =
    let same : some q ≡ some r =
      sym (query_of-query_key q) ∙ ap query_of e ∙ query_of-query_key r in
    cc

pub is_same_iff : (p k : Key) → (is_same p k ≡ true) ↔ (p ≡ k)
unfolding is_same
is_same_iff [] [] = ground arith
is_same_iff [] (t ∷ k) = ground arith
is_same_iff (s ∷ p) [] = ground arith
is_same_iff (s ∷ p) (t ∷ k) = ground (arith, text_eq_iff s t, is_same_iff p k)
