-- ===== src/Queries/Keys.antt =====
-- The keys of the cached queries.
use tenancit.Base.{List, [], ◌∷◌, ◌++◌, Text, codes}

-- A member of `adminQueryKeys`, with its arguments, but for `all`.
pub data AdminQuery : Type 0 where
  api_clients definitions overview operational_health sessions settings : AdminQuery
  webhook_targets webhook_deliveries webhook_overview tenants tenant_resources_root : AdminQuery
  api_client_usage : (from to : Text) → AdminQuery
  definition : (definition_id : Text) → AdminQuery
  tenant tenant_domains tenant_resources : (tenant_id : Text) → AdminQuery

abbrev pub Key : Type 0
Key = List Text

abbrev pub all : Key
all = codes "admin" ∷ []

unfoldable pub query_key : AdminQuery → Key
query_key api_clients = all ++ (codes "api-clients" ∷ [])
query_key (api_client_usage from to) = all ++ (codes "api-client-usage" ∷ from ∷ to ∷ [])
query_key (definition id) = (all ++ (codes "definitions" ∷ [])) ++ (codes "detail" ∷ id ∷ [])
query_key definitions = all ++ (codes "definitions" ∷ [])
query_key overview = all ++ (codes "overview" ∷ [])
query_key operational_health = all ++ (codes "operational-health" ∷ [])
query_key sessions = all ++ (codes "sessions" ∷ [])
query_key settings = all ++ (codes "settings" ∷ [])
query_key webhook_targets = all ++ (codes "webhook-targets" ∷ [])
query_key webhook_deliveries = all ++ (codes "webhook-deliveries" ∷ [])
query_key webhook_overview = all ++ (codes "webhook-overview" ∷ [])
query_key (tenant id) = (all ++ (codes "tenants" ∷ [])) ++ (codes "detail" ∷ id ∷ [])
query_key (tenant_domains id) =
    ((all ++ (codes "tenants" ∷ [])) ++ (codes "detail" ∷ id ∷ [])) ++ (codes "domains" ∷ [])
query_key tenant_resources_root = all ++ (codes "tenant-resources" ∷ [])
query_key (tenant_resources id) = (all ++ (codes "tenant-resources" ∷ [])) ++ (id ∷ [])
query_key tenants = all ++ (codes "tenants" ∷ [])
