-- ===== src/Api/Served.antt =====
-- What the functions of the table reach in the server.
use tenancit.Base.{
  ◌≡◌, ◌≢◌, ◌⊎◌, refl, true, false, List, [], ◌∷◌, ◌++◌, Option, none, some, Text, codes, text_eq,
  is_empty,
}
use tenancit.Api.Request.{Call, call_of, req_send}
use tenancit.Api.Store.{Client}
use tenancit.BasePath.Defs.{ok, read_runtime_base_path, join_base}
use tenancit.BasePath.Endpoint.{IsUnbrokenContent}
use tenancit.Api.Receive.{Json}
use tenancit.Api.Credentials.{IsSentBy, req_send-IsSentBy}
use tenancit.Api.Endpoints.{
  Endpoint, overview, list_tenants, get_tenant, create_tenant, update_tenant, delete_tenant,
  list_domains, add_domain, update_domain, remove_domain, list_tenant_resources, create_resource,
  update_resource_identity, set_resource_status, update_resource_field,
  clear_resource_field_override, duplicate_resource, delete_resource, list_definitions,
  get_definition, create_definition, update_definition, set_definition_status, delete_definition,
  add_field, update_definition_field, delete_field, list_api_clients, create_api_client,
  update_api_client, rotate_api_client, revoke_api_client, delete_api_client, get_api_client_usage,
  list_api_client_usage, list_audit_events, get_audit_health, create_audit_export, get_audit_export,
  list_audit_legal_holds, create_audit_legal_hold, release_audit_legal_hold, get_settings,
  update_settings, list_admin_sessions, revoke_admin_session, revoke_admin_principal_sessions,
  list_webhook_targets, create_webhook_target, set_webhook_target_status, list_webhook_deliveries,
  replay_webhook_delivery, get_webhook_overview, get_operational_health, endpoint_call,
}
use tenancit.Api.Routes.{Route, admin_routes, find_route, fill, handler_of, arguments_of}
use tenancit.Api.Sent.{endpoint_call-IsWellFormed, req_send-url}

-- The method that fetch uses: GET where none is given.
abbrev pub method_of : Option Text → Text
method_of none = codes "GET"
method_of (some m) = m

-- Nothing, or a question mark and what follows it.
abbrev pub IsQuery : Text → Type 0
IsQuery [] = Unit
IsQuery (c ∷ _) = c ≡ b'?'

-- The method and the pattern of a handler's route, with the braces filled and a query behind it.
abbrev pub IsRouted : Text → List Text → Option Text → Text → Type 0
IsRouted handler arguments method path =
    (route : Route) × (tail : Text) × (find_route handler admin_routes ≡ some route)
    × (method_of method ≡ route.method)
    × (path ≡ fill false route.pattern arguments tail)
    × IsQuery tail

module _ (stringify : Json → Text) (encode : Text → Text)
    (query_text : List (Text × Text) → Text) where
  -- The path and the method of a function are those of a route of its handler.
  abbrev IsRoutedCall : Endpoint → Type 0
  IsRoutedCall e =
      let (path, init) = endpoint_call stringify encode query_text e in
      IsRouted (handler_of e) (arguments_of encode e) init.method path

  endpoint_call-IsRouted : (e : Endpoint) → IsRoutedCall e
  unfolding endpoint_call handler_of arguments_of find_route admin_routes fill text_eq is_empty
  endpoint_call-IsRouted overview = (_, [], refl, refl, refl, tt)
  endpoint_call-IsRouted list_tenants = (_, [], refl, refl, refl, tt)
  endpoint_call-IsRouted (get_tenant id) = (_, [], refl, refl, refl, tt)
  endpoint_call-IsRouted (create_tenant _ _) = (_, [], refl, refl, refl, tt)
  endpoint_call-IsRouted (update_tenant id _) = (_, [], refl, refl, refl, tt)
  endpoint_call-IsRouted (delete_tenant id) = (_, [], refl, refl, refl, tt)
  endpoint_call-IsRouted (list_domains _) = (_, [], refl, refl, refl, tt)
  endpoint_call-IsRouted (add_domain _ _) = (_, [], refl, refl, refl, tt)
  endpoint_call-IsRouted (update_domain _ domain_id _) = (_, [], refl, refl, refl, tt)
  endpoint_call-IsRouted (remove_domain _ domain_id) = (_, [], refl, refl, refl, tt)
  endpoint_call-IsRouted (list_tenant_resources _ true) =
      (_, codes "?reveal=true", refl, refl, refl, refl)
  endpoint_call-IsRouted (list_tenant_resources _ false) = (_, [], refl, refl, refl, tt)
  endpoint_call-IsRouted (create_resource _ _ _) = (_, [], refl, refl, refl, tt)
  endpoint_call-IsRouted (update_resource_identity _ resource_id _) = (_, [], refl, refl, refl, tt)
  endpoint_call-IsRouted (set_resource_status _ _ _) = (_, [], refl, refl, refl, tt)
  endpoint_call-IsRouted (update_resource_field _ _ field_key _) = (_, [], refl, refl, refl, tt)
  endpoint_call-IsRouted (clear_resource_field_override _ _ field_key) =
      (_, [], refl, refl, refl, tt)
  endpoint_call-IsRouted (duplicate_resource _ _ _ _) = (_, [], refl, refl, refl, tt)
  endpoint_call-IsRouted (delete_resource _ resource_id) = (_, [], refl, refl, refl, tt)
  endpoint_call-IsRouted list_definitions = (_, [], refl, refl, refl, tt)
  endpoint_call-IsRouted (get_definition id) = (_, [], refl, refl, refl, tt)
  endpoint_call-IsRouted (create_definition _) = (_, [], refl, refl, refl, tt)
  endpoint_call-IsRouted (update_definition id _) = (_, [], refl, refl, refl, tt)
  endpoint_call-IsRouted (set_definition_status _ _) = (_, [], refl, refl, refl, tt)
  endpoint_call-IsRouted (delete_definition id) = (_, [], refl, refl, refl, tt)
  endpoint_call-IsRouted (add_field _ _) = (_, [], refl, refl, refl, tt)
  endpoint_call-IsRouted (update_definition_field _ field_id _) = (_, [], refl, refl, refl, tt)
  endpoint_call-IsRouted (delete_field _ field_id) = (_, [], refl, refl, refl, tt)
  endpoint_call-IsRouted list_api_clients = (_, [], refl, refl, refl, tt)
  endpoint_call-IsRouted (create_api_client _ _) = (_, [], refl, refl, refl, tt)
  endpoint_call-IsRouted (update_api_client id _) = (_, [], refl, refl, refl, tt)
  endpoint_call-IsRouted (rotate_api_client _ _ _) = (_, [], refl, refl, refl, tt)
  endpoint_call-IsRouted (revoke_api_client _) = (_, [], refl, refl, refl, tt)
  endpoint_call-IsRouted (delete_api_client id) = (_, [], refl, refl, refl, tt)
  endpoint_call-IsRouted (get_api_client_usage _ _ _) = (_, b'?' ∷ _, refl, refl, refl, refl)
  endpoint_call-IsRouted (list_api_client_usage _ _) = (_, b'?' ∷ _, refl, refl, refl, refl)
  endpoint_call-IsRouted (list_audit_events _) = (_, b'?' ∷ _, refl, refl, refl, refl)
  endpoint_call-IsRouted get_audit_health = (_, [], refl, refl, refl, tt)
  endpoint_call-IsRouted (create_audit_export _ _) = (_, [], refl, refl, refl, tt)
  endpoint_call-IsRouted (get_audit_export id) = (_, [], refl, refl, refl, tt)
  endpoint_call-IsRouted list_audit_legal_holds = (_, [], refl, refl, refl, tt)
  endpoint_call-IsRouted (create_audit_legal_hold _) = (_, [], refl, refl, refl, tt)
  endpoint_call-IsRouted (release_audit_legal_hold _) = (_, [], refl, refl, refl, tt)
  endpoint_call-IsRouted get_settings = (_, [], refl, refl, refl, tt)
  endpoint_call-IsRouted (update_settings _ _) = (_, [], refl, refl, refl, tt)
  endpoint_call-IsRouted list_admin_sessions = (_, [], refl, refl, refl, tt)
  endpoint_call-IsRouted (revoke_admin_session id) = (_, [], refl, refl, refl, tt)
  endpoint_call-IsRouted (revoke_admin_principal_sessions _ _) = (_, [], refl, refl, refl, tt)
  endpoint_call-IsRouted list_webhook_targets = (_, [], refl, refl, refl, tt)
  endpoint_call-IsRouted (create_webhook_target _) = (_, [], refl, refl, refl, tt)
  endpoint_call-IsRouted (set_webhook_target_status _ _) = (_, [], refl, refl, refl, tt)
  endpoint_call-IsRouted (list_webhook_deliveries []) = (_, [], refl, refl, refl, tt)
  endpoint_call-IsRouted (list_webhook_deliveries (c ∷ status)) =
      (_, codes "?status=" ++ (c ∷ status), refl, refl, refl, refl)
  endpoint_call-IsRouted (replay_webhook_delivery _) = (_, [], refl, refl, refl, tt)
  endpoint_call-IsRouted get_webhook_overview = (_, [], refl, refl, refl, tt)
  endpoint_call-IsRouted get_operational_health = (_, [], refl, refl, refl, tt)

  -- With a base path that is accepted and has no tab, line feed or carriage return, each function of
  -- the table sends a request with the method of its handler's route in the server and with that
  -- route's path, its braces filled with the function's arguments, and at most a query behind it.
  -- The request carries the client's credential alone, to the page's own host, and the body of the
  -- table, which is there only with a method.
  pub req_send-IsServed :
      (e : Endpoint) (content : Option Text) (base : Text) (s : Client)
      → read_runtime_base_path content ≡ ok base
      → IsUnbrokenContent content
      → (call : Call) × (path : Text) × (req_send content
            (endpoint_call stringify encode query_text e).0
            (endpoint_call stringify encode query_text e).1
            s
          ≡ ok call)
        × (call.request.url ≡ join_base base (codes "/v1/admin" ++ path))
        × IsRouted (handler_of e) (arguments_of encode e) call.request.method path
        × (call.request.body ≡ (endpoint_call stringify encode query_text e).1.body)
        × ((call.request.method ≢ none) ⊎ (call.request.body ≡ none))
        × IsSentBy s call
  req_send-IsServed e content base s h unbroken =
      let (path, init) = endpoint_call stringify encode query_text e in
      let ((rest, behind), neutral, bodiless) =
        endpoint_call-IsWellFormed stringify encode query_text e in
      let sent = req_send-url content path rest init base s behind h in
      (
        call_of (join_base base (codes "/v1/admin" ++ path)) init s,
        path,
        sent,
        refl,
        endpoint_call-IsRouted e,
        refl,
        bodiless,
        req_send-IsSentBy content path init s _ unbroken neutral sent,
      )
