-- ===== src/Api/Endpoints.antt =====
-- The table of the endpoints: what each function of `api` gives to `req`. The signal of a caller
-- is left out; a number is the text that a template or JSON writes; a body is the JSON value of
-- the argument, and a default key of idempotency is an argument.
use tenancit.Base.{
  Bool, List, [], ◌∷◌, ◌++◌, Option, none, some, Text, codes, is_empty, if◌then◌else◌,
}
use tenancit.Api.Request.{Init}
use tenancit.Api.Receive.{Json, string, number, object, field, no_fields}

-- A function of `api`, with its arguments.
pub data Endpoint : Type 0 where
  overview list_tenants : Endpoint
  get_tenant : (id : Text) → Endpoint
  create_tenant : (body : Json) (idempotency_key : Text) → Endpoint
  update_tenant : (id : Text) (body : Json) → Endpoint
  delete_tenant list_domains : (id : Text) → Endpoint
  add_domain : (id hostname : Text) → Endpoint
  update_domain : (id domain_id hostname : Text) → Endpoint
  remove_domain : (id domain_id : Text) → Endpoint
  list_tenant_resources : (id : Text) (reveal : Bool) → Endpoint
  create_resource : (id : Text) (body : Json) (idempotency_key : Text) → Endpoint
  update_resource_identity : (id resource_id : Text) (body : Json) → Endpoint
  set_resource_status : (id resource_id status : Text) → Endpoint
  update_resource_field : (id resource_id field_key value : Text) → Endpoint
  clear_resource_field_override : (id resource_id field_key : Text) → Endpoint
  duplicate_resource : (id resource_id alias idempotency_key : Text) → Endpoint
  delete_resource : (id resource_id : Text) → Endpoint
  list_definitions : Endpoint
  get_definition : (id : Text) → Endpoint
  create_definition : (body : Json) → Endpoint
  update_definition : (id : Text) (body : Json) → Endpoint
  set_definition_status : (id status : Text) → Endpoint
  delete_definition : (id : Text) → Endpoint
  add_field : (id : Text) (body : Json) → Endpoint
  update_definition_field : (id field_id : Text) (body : Json) → Endpoint
  delete_field : (id field_id : Text) → Endpoint
  list_api_clients : Endpoint
  create_api_client : (body : Json) (idempotency_key : Text) → Endpoint
  update_api_client : (id : Text) (body : Json) → Endpoint
  rotate_api_client : (id grace_seconds idempotency_key : Text) → Endpoint
  revoke_api_client delete_api_client : (id : Text) → Endpoint
  get_api_client_usage : (id : Text) (from to : Option Text) → Endpoint
  list_api_client_usage : (from to : Option Text) → Endpoint
  list_audit_events : (query : Text) → Endpoint
  get_audit_health : Endpoint
  create_audit_export : (body : Json) (idempotency_key : Text) → Endpoint
  get_audit_export : (id : Text) → Endpoint
  list_audit_legal_holds : Endpoint
  create_audit_legal_hold : (body : Json) → Endpoint
  release_audit_legal_hold : (id : Text) → Endpoint
  get_settings : Endpoint
  update_settings : (values : Json) (revision : Text) → Endpoint
  list_admin_sessions : Endpoint
  revoke_admin_session : (id : Text) → Endpoint
  revoke_admin_principal_sessions : (issuer subject : Text) → Endpoint
  list_webhook_targets : Endpoint
  create_webhook_target : (body : Json) → Endpoint
  set_webhook_target_status : (id status : Text) → Endpoint
  list_webhook_deliveries : (status : Text) → Endpoint
  replay_webhook_delivery : (id : Text) → Endpoint
  get_webhook_overview get_operational_health : Endpoint

-- `{ signal }`
abbrev pub read_only : Init
read_only = record { method = none; headers = []; body = none; cache = none }

abbrev pub uncached : Init
uncached = record read_only { cache = some (codes "no-store") }

abbrev pub bare : Text → Init
bare method = record read_only { method = some method }

abbrev pub with_body : Text → Text → Init
with_body method body = record {
  method = some method;
  headers = [];
  body = some body;
  cache = none;
}

abbrev pub keyed : Text → Text → Init
keyed key body = record (with_body (codes "POST") body) {
  headers = (codes "Idempotency-Key", key) ∷ [];
}

-- `if (from) query.set("from", from)`
unfoldable pub set_param : Text → Option Text → List (Text × Text) → List (Text × Text)
set_param name none params = params
set_param name (some v) params = if is_empty v then params else params ++ ((name, v) ∷ [])

abbrev pub one_field : Text → Text → Json
one_field name value = object (field name (string value) no_fields)

-- The platform's serialisers: JSON, a part of a URL, and search parameters.
module _ (stringify : Json → Text) (encode : Text → Text)
    (query_text : List (Text × Text) → Text) where
  abbrev pub usage_query : Option Text → Option Text → Text
  usage_query from to = query_text (set_param (codes "to") to (set_param (codes "from") from []))

  unfoldable pub endpoint_call : Endpoint → Text × Init
  endpoint_call overview = (codes "/overview", read_only)
  endpoint_call list_tenants = (codes "/tenants", read_only)
  endpoint_call (get_tenant id) = (codes "/tenants/" ++ id, read_only)
  endpoint_call (create_tenant body key) = (codes "/tenants", keyed key (stringify body))
  endpoint_call (update_tenant id body) =
      (codes "/tenants/" ++ id, with_body (codes "PUT") (stringify body))
  endpoint_call (delete_tenant id) = (codes "/tenants/" ++ id, bare (codes "DELETE"))
  endpoint_call (list_domains id) = (codes "/tenants/" ++ (id ++ codes "/domains"), read_only)
  endpoint_call (add_domain id hostname) = (
    codes "/tenants/" ++ (id ++ codes "/domains"),
    with_body (codes "POST") (stringify (one_field (codes "hostname") hostname)),
  )
  endpoint_call (update_domain id domain_id hostname) = (
    codes "/tenants/" ++ (id ++ (codes "/domains/" ++ domain_id)),
    with_body (codes "PUT") (stringify (one_field (codes "hostname") hostname)),
  )
  endpoint_call (remove_domain id domain_id) =
      (codes "/tenants/" ++ (id ++ (codes "/domains/" ++ domain_id)), bare (codes "DELETE"))
  endpoint_call (list_tenant_resources id reveal) = (
    codes "/tenants/"
        ++ (id ++ (codes "/resources" ++ (if reveal then codes "?reveal=true" else []))),
    if reveal then uncached else read_only,
  )
  endpoint_call (create_resource id body key) =
      (codes "/tenants/" ++ (id ++ codes "/resources"), keyed key (stringify body))
  endpoint_call (update_resource_identity id resource_id body) = (
    codes "/tenants/" ++ (id ++ (codes "/resources/" ++ resource_id)),
    with_body (codes "PATCH") (stringify body),
  )
  endpoint_call (set_resource_status id resource_id status) = (
    codes "/tenants/" ++ (id ++ (codes "/resources/" ++ (resource_id ++ codes "/status"))),
    with_body (codes "PUT") (stringify (one_field (codes "status") status)),
  )
  endpoint_call (update_resource_field id resource_id field_key value) = (
    codes "/tenants/"
        ++ (id ++ (codes "/resources/" ++ (resource_id ++ (codes "/fields/" ++ encode field_key)))),
    with_body (codes "PUT") (stringify (one_field (codes "value") value)),
  )
  endpoint_call (clear_resource_field_override id resource_id field_key) = (
    codes "/tenants/"
        ++ (id ++ (codes "/resources/" ++ (resource_id ++ (codes "/fields/" ++ encode field_key)))),
    bare (codes "DELETE"),
  )
  endpoint_call (duplicate_resource id resource_id alias key) = (
    codes "/tenants/" ++ (id ++ (codes "/resources/" ++ (resource_id ++ codes "/duplicate"))),
    keyed key (stringify (one_field (codes "alias") alias)),
  )
  endpoint_call (delete_resource id resource_id) =
      (codes "/tenants/" ++ (id ++ (codes "/resources/" ++ resource_id)), bare (codes "DELETE"))
  endpoint_call list_definitions = (codes "/resource-definitions", read_only)
  endpoint_call (get_definition id) = (codes "/resource-definitions/" ++ id, read_only)
  endpoint_call (create_definition body) =
      (codes "/resource-definitions", with_body (codes "POST") (stringify body))
  endpoint_call (update_definition id body) =
      (codes "/resource-definitions/" ++ id, with_body (codes "PATCH") (stringify body))
  endpoint_call (set_definition_status id status) = (
    codes "/resource-definitions/" ++ (id ++ codes "/status"),
    with_body (codes "PUT") (stringify (one_field (codes "status") status)),
  )
  endpoint_call (delete_definition id) =
      (codes "/resource-definitions/" ++ id, bare (codes "DELETE"))
  endpoint_call (add_field id body) = (
    codes "/resource-definitions/" ++ (id ++ codes "/fields"),
    with_body (codes "POST") (stringify body),
  )
  endpoint_call (update_definition_field id field_id body) = (
    codes "/resource-definitions/" ++ (id ++ (codes "/fields/" ++ field_id)),
    with_body (codes "PATCH") (stringify body),
  )
  endpoint_call (delete_field id field_id) = (
    codes "/resource-definitions/" ++ (id ++ (codes "/fields/" ++ field_id)),
    bare (codes "DELETE"),
  )
  endpoint_call list_api_clients = (codes "/api-clients", read_only)
  endpoint_call (create_api_client body key) = (codes "/api-clients", keyed key (stringify body))
  endpoint_call (update_api_client id body) =
      (codes "/api-clients/" ++ id, with_body (codes "PATCH") (stringify body))
  endpoint_call (rotate_api_client id grace_seconds key) = (
    codes "/api-clients/" ++ (id ++ codes "/rotate"),
    keyed key (stringify (object (field (codes "grace_seconds") (number grace_seconds) no_fields))),
  )
  endpoint_call (revoke_api_client id) =
      (codes "/api-clients/" ++ (id ++ codes "/revoke"), bare (codes "POST"))
  endpoint_call (delete_api_client id) = (codes "/api-clients/" ++ id, bare (codes "DELETE"))
  endpoint_call (get_api_client_usage id from to) =
      (codes "/api-clients/" ++ (id ++ (codes "/usage?" ++ usage_query from to)), read_only)
  endpoint_call (list_api_client_usage from to) =
      (codes "/api-client-usage?" ++ usage_query from to, read_only)
  endpoint_call (list_audit_events query) = (codes "/audit-events?" ++ query, read_only)
  endpoint_call get_audit_health = (codes "/audit-health", read_only)
  endpoint_call (create_audit_export body key) =
      (codes "/audit-exports", keyed key (stringify body))
  endpoint_call (get_audit_export id) = (codes "/audit-exports/" ++ id, read_only)
  endpoint_call list_audit_legal_holds = (codes "/audit-legal-holds", read_only)
  endpoint_call (create_audit_legal_hold body) =
      (codes "/audit-legal-holds", with_body (codes "POST") (stringify body))
  endpoint_call (release_audit_legal_hold id) =
      (codes "/audit-legal-holds/" ++ (id ++ codes "/release"), bare (codes "POST"))
  endpoint_call get_settings = (codes "/settings", read_only)
  endpoint_call (update_settings values revision) = (
    codes "/settings",
    record (with_body (codes "PATCH")
        (stringify (object (field (codes "values") values no_fields)))) {
          headers = (codes "If-Match", codes "\"settings-" ++ revision ++ codes "\"") ∷ [];
        },
  )
  endpoint_call list_admin_sessions = (codes "/sessions", read_only)
  endpoint_call (revoke_admin_session id) = (codes "/sessions/" ++ id, bare (codes "DELETE"))
  endpoint_call (revoke_admin_principal_sessions issuer subject) = (
    codes "/sessions/revoke-principal",
    with_body (codes "POST") (
        stringify (
          object (
            field (codes "issuer") (string issuer)
              (field (codes "subject") (string subject) no_fields)))),
  )
  endpoint_call list_webhook_targets = (codes "/webhook-targets", read_only)
  endpoint_call (create_webhook_target body) = (
    codes "/webhook-targets",
    record (with_body (codes "POST") (stringify body)) { cache = some (codes "no-store") },
  )
  endpoint_call (set_webhook_target_status id status) = (
    codes "/webhook-targets/" ++ (id ++ codes "/status"),
    with_body (codes "PUT") (stringify (one_field (codes "status") status)),
  )
  endpoint_call (list_webhook_deliveries status) = (
    codes "/webhook-deliveries" ++ (if is_empty status then [] else codes "?status=" ++ status),
    read_only,
  )
  endpoint_call (replay_webhook_delivery id) =
      (codes "/webhook-deliveries/" ++ (id ++ codes "/replay"), bare (codes "POST"))
  endpoint_call get_webhook_overview = (codes "/webhook-overview", read_only)
  endpoint_call get_operational_health = (codes "/operational-health", uncached)
