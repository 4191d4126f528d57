-- ===== src/Api/Routes.antt =====
-- The routes of the admin API in the server (server/internal/httpapi/server.go), which the client
-- is to reach, with the permission that each demands. Other middleware is left out.
use tenancit.Base.{
  Bool, true, false, not, List, [], ◌∷◌, ◌++◌, Option, none, some, Text, codes, text_eq, ◌==◌,
  if◌then◌else◌,
}
use tenancit.Api.Endpoints.{
  Endpoint, overview, list_tenants, get_tenant, create_tenant, update_tenant, delete_tenant,
  list_domains, add_domain, update_domain, remove_domain, list_tenant_resources, create_resource,
  update_resource_identity, set_resource_status, update_resource_field,
  clear_resource_field_override, duplicate_resource, delete_resource, list_definitions,
  get_definition, create_definition, update_definition, set_definition_status, delete_definition,
  add_field, update_definition_field, delete_field, list_api_clients, create_api_client,
  update_api_client, rotate_api_client, revoke_api_client, delete_api_client, get_api_client_usage,
  list_api_client_usage, list_audit_events, get_audit_health, create_audit_export, get_audit_export,
  list_audit_legal_holds, create_audit_legal_hold, release_audit_legal_hold, get_settings,
  update_settings, list_admin_sessions, revoke_admin_session, revoke_admin_principal_sessions,
  list_webhook_targets, create_webhook_target, set_webhook_target_status, list_webhook_deliveries,
  replay_webhook_delivery, get_webhook_overview, get_operational_health,
}

-- A line of the router: the method, the pattern below "/v1/admin", the handler and the
-- permission.
pub record Route : Type 0 where
  pub method : Text
  pub pattern : Text
  pub handler : Text
  pub permission : Text

abbrev route : (method pattern handler permission : Text) → Route
route method pattern handler permission = record {
  method = method;
  pattern = pattern;
  handler = handler;
  permission = permission;
}

unfoldable pub admin_routes : List Route
admin_routes =
    route (codes "GET") (codes "/overview") (codes "overview") (codes "admin.read")
    ∷ route (codes "GET") (codes "/operational-health") (codes "operationalHealth")
        (codes "admin.read")
    ∷ route (codes "GET") (codes "/audit-events") (codes "listAuditEvents") (codes "audit.read")
    ∷ route (codes "GET") (codes "/audit-health") (codes "auditHealth") (codes "audit.read")
    ∷ route (codes "GET") (codes "/audit-legal-holds") (codes "listAuditLegalHolds")
        (codes "audit.manage")
    ∷ route (codes "POST") (codes "/audit-legal-holds") (codes "createAuditLegalHold")
        (codes "audit.manage")
    ∷ route (codes "POST") (codes "/audit-legal-holds/{id}/release") (codes "releaseAuditLegalHold")
        (codes "audit.manage")
    ∷ route (codes "POST") (codes "/audit-exports") (codes "createAuditExport")
        (codes "audit.export")
    ∷ route (codes "GET") (codes "/audit-exports/{id}") (codes "getAuditExport")
        (codes "audit.export")
    ∷ route (codes "GET") (codes "/audit-exports/{id}/download") (codes "downloadAuditExport")
        (codes "audit.export")
    ∷ route (codes "POST") (codes "/tenants") (codes "createTenant") (codes "tenant.write")
    ∷ route (codes "GET") (codes "/tenants") (codes "listTenants") (codes "admin.read")
    ∷ route (codes "GET") (codes "/tenants/{id}") (codes "getTenant") (codes "admin.read")
    ∷ route (codes "PUT") (codes "/tenants/{id}") (codes "updateTenant") (codes "tenant.write")
    ∷ route (codes "DELETE") (codes "/tenants/{id}") (codes "deleteTenant")
        (codes "tenant.hard_delete")
    ∷ route (codes "POST") (codes "/tenants/{id}/domains") (codes "addDomain")
        (codes "tenant.write")
    ∷ route (codes "GET") (codes "/tenants/{id}/domains") (codes "listTenantDomains")
        (codes "admin.read")
    ∷ route (codes "PUT") (codes "/tenants/{id}/domains/{domainId}") (codes "updateDomain")
        (codes "tenant.write")
    ∷ route (codes "DELETE") (codes "/tenants/{id}/domains/{domainId}") (codes "deleteDomain")
        (codes "tenant.write")
    ∷ route (codes "POST") (codes "/tenants/{id}/resources") (codes "createResource")
        (codes "resource.write")
    ∷ route (codes "PATCH") (codes "/tenants/{id}/resources/{resourceId}")
        (codes "updateResourceIdentity") (codes "resource.write")
    ∷ route (codes "POST") (codes "/tenants/{id}/resources/{resourceId}/duplicate")
        (codes "duplicateResource") (codes "resource.write")
    ∷ route (codes "GET") (codes "/tenants/{id}/resources") (codes "listTenantResources")
        (codes "admin.read")
    ∷ route (codes "PUT") (codes "/tenants/{id}/resources/{resourceId}/status")
        (codes "setResourceStatus") (codes "resource.write")
    ∷ route (codes "PUT") (codes "/tenants/{id}/resources/{resourceId}/fields/{fieldKey}")
        (codes "updateResourceField") (codes "resource.write")
    ∷ route (codes "DELETE") (codes "/tenants/{id}/resources/{resourceId}/fields/{fieldKey}")
        (codes "clearResourceFieldOverride") (codes "resource.write")
    ∷ route (codes "DELETE") (codes "/tenants/{id}/resources/{resourceId}") (codes "deleteResource")
        (codes "resource.write")
    ∷ route (codes "POST") (codes "/resource-definitions") (codes "createDefinition")
        (codes "resource.write")
    ∷ route (codes "GET") (codes "/resource-definitions") (codes "listDefinitions")
        (codes "admin.read")
    ∷ route (codes "GET") (codes "/resource-definitions/{id}") (codes "getDefinition")
        (codes "admin.read")
    ∷ route (codes "PATCH") (codes "/resource-definitions/{id}") (codes "updateDefinition")
        (codes "resource.write")
    ∷ route (codes "PUT") (codes "/resource-definitions/{id}/status") (codes "setDefinitionStatus")
        (codes "resource.write")
    ∷ route (codes "DELETE") (codes "/resource-definitions/{id}") (codes "deleteDefinition")
        (codes "resource.write")
    ∷ route (codes "POST") (codes "/resource-definitions/{id}/fields") (codes "addField")
        (codes "resource.write")
    ∷ route (codes "PATCH") (codes "/resource-definitions/{id}/fields/{fieldId}")
        (codes "updateField") (codes "resource.write")
    ∷ route (codes "DELETE") (codes "/resource-definitions/{id}/fields/{fieldId}")
        (codes "deleteField") (codes "resource.write")
    ∷ route (codes "POST") (codes "/api-clients") (codes "createAPIClient")
        (codes "api_client.manage")
    ∷ route (codes "GET") (codes "/api-clients") (codes "listAPIClients") (codes "admin.read")
    ∷ route (codes "PATCH") (codes "/api-clients/{id}") (codes "updateAPIClient")
        (codes "api_client.manage")
    ∷ route (codes "POST") (codes "/api-clients/{id}/rotate") (codes "rotateAPIClient")
        (codes "api_client.manage")
    ∷ route (codes "POST") (codes "/api-clients/{id}/revoke") (codes "revokeAPIClient")
        (codes "api_client.manage")
    ∷ route (codes "DELETE") (codes "/api-clients/{id}") (codes "deleteAPIClient")
        (codes "api_client.manage")
    ∷ route (codes "GET") (codes "/api-clients/{id}/usage") (codes "listAPIClientUsage")
        (codes "admin.read")
    ∷ route (codes "GET") (codes "/api-client-usage") (codes "listAPIClientUsageOverview")
        (codes "admin.read")
    ∷ route (codes "GET") (codes "/settings") (codes "getSettings") (codes "admin.read")
    ∷ route (codes "PATCH") (codes "/settings") (codes "updateSettings") (codes "settings.manage")
    ∷ route (codes "GET") (codes "/sessions") (codes "listAdminSessions") (codes "session.manage")
    ∷ route (codes "DELETE") (codes "/sessions/{id}") (codes "revokeAdminSession")
        (codes "session.manage")
    ∷ route (codes "POST") (codes "/sessions/revoke-principal")
        (codes "revokeAdminPrincipalSessions") (codes "session.manage")
    ∷ route (codes "GET") (codes "/webhook-targets") (codes "listWebhookTargets")
        (codes "integration.manage")
    ∷ route (codes "POST") (codes "/webhook-targets") (codes "createWebhookTarget")
        (codes "integration.manage")
    ∷ route (codes "PUT") (codes "/webhook-targets/{id}/status") (codes "setWebhookTargetStatus")
        (codes "integration.manage")
    ∷ route (codes "GET") (codes "/webhook-deliveries") (codes "listWebhookDeliveries")
        (codes "integration.manage")
    ∷ route (codes "POST") (codes "/webhook-deliveries/{id}/replay") (codes "replayWebhookDelivery")
        (codes "integration.manage")
    ∷ route (codes "GET") (codes "/webhook-overview") (codes "webhookOverview")
        (codes "integration.manage")
    ∷ []

unfoldable pub find_route : Text → List Route → Option Route
find_route handler [] = none
find_route handler (r ∷ rs) =
    let found = find_route handler rs in if text_eq r.handler handler then some r else found

abbrev first_of : List Text → Text
first_of [] = []
first_of (t ∷ _) = t

abbrev rest_of : List Text → List Text
rest_of [] = []
rest_of (_ ∷ ts) = ts

-- One text and then another.
abbrev followed_by : Text → Text → Text
followed_by t [] = t
followed_by t (c ∷ u) = t ++ (c ∷ u)

-- A pattern with its names in braces replaced in order, and a text behind it; the Boolean says
-- that the pattern goes on inside braces.
unfoldable pub fill : Bool → Text → List Text → Text → Text
fill inside [] ts tail = tail
fill true (c ∷ s) ts tail = fill (not (c == b'}')) s ts tail
fill false (c ∷ s) ts tail =
    let filled = fill (c == b'{') s (if c == b'{' then rest_of ts else ts) tail in
    if c == b'{' then followed_by (first_of ts) filled else c ∷ filled

-- The handler that each function of the client is written for.
unfoldable pub handler_of : Endpoint → Text
handler_of overview = codes "overview"
handler_of list_tenants = codes "listTenants"
handler_of (get_tenant _) = codes "getTenant"
handler_of (create_tenant _ _) = codes "createTenant"
handler_of (update_tenant _ _) = codes "updateTenant"
handler_of (delete_tenant _) = codes "deleteTenant"
handler_of (list_domains _) = codes "listTenantDomains"
handler_of (add_domain _ _) = codes "addDomain"
handler_of (update_domain _ _ _) = codes "updateDomain"
handler_of (remove_domain _ _) = codes "deleteDomain"
handler_of (list_tenant_resources _ _) = codes "listTenantResources"
handler_of (create_resource _ _ _) = codes "createResource"
handler_of (update_resource_identity _ _ _) = codes "updateResourceIdentity"
handler_of (set_resource_status _ _ _) = codes "setResourceStatus"
handler_of (update_resource_field _ _ _ _) = codes "updateResourceField"
handler_of (clear_resource_field_override _ _ _) = codes "clearResourceFieldOverride"
handler_of (duplicate_resource _ _ _ _) = codes "duplicateResource"
handler_of (delete_resource _ _) = codes "deleteResource"
handler_of list_definitions = codes "listDefinitions"
handler_of (get_definition _) = codes "getDefinition"
handler_of (create_definition _) = codes "createDefinition"
handler_of (update_definition _ _) = codes "updateDefinition"
handler_of (set_definition_status _ _) = codes "setDefinitionStatus"
handler_of (delete_definition _) = codes "deleteDefinition"
handler_of (add_field _ _) = codes "addField"
handler_of (update_definition_field _ _ _) = codes "updateField"
handler_of (delete_field _ _) = codes "deleteField"
handler_of list_api_clients = codes "listAPIClients"
handler_of (create_api_client _ _) = codes "createAPIClient"
handler_of (update_api_client _ _) = codes "updateAPIClient"
handler_of (rotate_api_client _ _ _) = codes "rotateAPIClient"
handler_of (revoke_api_client _) = codes "revokeAPIClient"
handler_of (delete_api_client _) = codes "deleteAPIClient"
handler_of (get_api_client_usage _ _ _) = codes "listAPIClientUsage"
handler_of (list_api_client_usage _ _) = codes "listAPIClientUsageOverview"
handler_of (list_audit_events _) = codes "listAuditEvents"
handler_of get_audit_health = codes "auditHealth"
handler_of (create_audit_export _ _) = codes "createAuditExport"
handler_of (get_audit_export _) = codes "getAuditExport"
handler_of list_audit_legal_holds = codes "listAuditLegalHolds"
handler_of (create_audit_legal_hold _) = codes "createAuditLegalHold"
handler_of (release_audit_legal_hold _) = codes "releaseAuditLegalHold"
handler_of get_settings = codes "getSettings"
handler_of (update_settings _ _) = codes "updateSettings"
handler_of list_admin_sessions = codes "listAdminSessions"
handler_of (revoke_admin_session _) = codes "revokeAdminSession"
handler_of (revoke_admin_principal_sessions _ _) = codes "revokeAdminPrincipalSessions"
handler_of list_webhook_targets = codes "listWebhookTargets"
handler_of (create_webhook_target _) = codes "createWebhookTarget"
handler_of (set_webhook_target_status _ _) = codes "setWebhookTargetStatus"
handler_of (list_webhook_deliveries _) = codes "listWebhookDeliveries"
handler_of (replay_webhook_delivery _) = codes "replayWebhookDelivery"
handler_of get_webhook_overview = codes "webhookOverview"
handler_of get_operational_health = codes "operationalHealth"

-- What the braces of the handler's pattern are filled with.
module _ (encode : Text → Text) where
  unfoldable pub arguments_of : Endpoint → List Text
  arguments_of overview = []
  arguments_of list_tenants = []
  arguments_of (get_tenant id) = id ∷ []
  arguments_of (create_tenant _ _) = []
  arguments_of (update_tenant id _) = id ∷ []
  arguments_of (delete_tenant id) = id ∷ []
  arguments_of (list_domains id) = id ∷ []
  arguments_of (add_domain id _) = id ∷ []
  arguments_of (update_domain id domain_id _) = id ∷ domain_id ∷ []
  arguments_of (remove_domain id domain_id) = id ∷ domain_id ∷ []
  arguments_of (list_tenant_resources id _) = id ∷ []
  arguments_of (create_resource id _ _) = id ∷ []
  arguments_of (update_resource_identity id resource_id _) = id ∷ resource_id ∷ []
  arguments_of (set_resource_status id resource_id _) = id ∷ resource_id ∷ []
  arguments_of (update_resource_field id resource_id field_key _) =
      id ∷ resource_id ∷ encode field_key ∷ []
  arguments_of (clear_resource_field_override id resource_id field_key) =
      id ∷ resource_id ∷ encode field_key ∷ []
  arguments_of (duplicate_resource id resource_id _ _) = id ∷ resource_id ∷ []
  arguments_of (delete_resource id resource_id) = id ∷ resource_id ∷ []
  arguments_of list_definitions = []
  arguments_of (get_definition id) = id ∷ []
  arguments_of (create_definition _) = []
  arguments_of (update_definition id _) = id ∷ []
  arguments_of (set_definition_status id _) = id ∷ []
  arguments_of (delete_definition id) = id ∷ []
  arguments_of (add_field id _) = id ∷ []
  arguments_of (update_definition_field id field_id _) = id ∷ field_id ∷ []
  arguments_of (delete_field id field_id) = id ∷ field_id ∷ []
  arguments_of list_api_clients = []
  arguments_of (create_api_client _ _) = []
  arguments_of (update_api_client id _) = id ∷ []
  arguments_of (rotate_api_client id _ _) = id ∷ []
  arguments_of (revoke_api_client id) = id ∷ []
  arguments_of (delete_api_client id) = id ∷ []
  arguments_of (get_api_client_usage id _ _) = id ∷ []
  arguments_of (list_api_client_usage _ _) = []
  arguments_of (list_audit_events _) = []
  arguments_of get_audit_health = []
  arguments_of (create_audit_export _ _) = []
  arguments_of (get_audit_export id) = id ∷ []
  arguments_of list_audit_legal_holds = []
  arguments_of (create_audit_legal_hold _) = []
  arguments_of (release_audit_legal_hold id) = id ∷ []
  arguments_of get_settings = []
  arguments_of (update_settings _ _) = []
  arguments_of list_admin_sessions = []
  arguments_of (revoke_admin_session id) = id ∷ []
  arguments_of (revoke_admin_principal_sessions _ _) = []
  arguments_of list_webhook_targets = []
  arguments_of (create_webhook_target _) = []
  arguments_of (set_webhook_target_status id _) = id ∷ []
  arguments_of (list_webhook_deliveries _) = []
  arguments_of (replay_webhook_delivery id) = id ∷ []
  arguments_of get_webhook_overview = []
  arguments_of get_operational_health = []
