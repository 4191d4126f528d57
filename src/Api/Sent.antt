-- ===== src/Api/Sent.antt =====
-- What the functions of the table send.
use tenancit.Base.{
  ◌≡◌, ◌≢◌, ◌⊎◌, inl, inr, refl, sym, subst, true, false, List, ◌∷◌, ◌++◌, Option, none, Text,
  codes, text_eq,
}
use tenancit.Api.Request.{Init, call_of, req_call, req_send}
use tenancit.Api.Store.{Client}
use tenancit.BasePath.Defs.{ok, read_runtime_base_path, join_base}
use tenancit.BasePath.Endpoint.{IsAdminEndpoint, IsBoundary, build_admin_endpoint-ok}
use tenancit.Api.Receive.{Json}
use tenancit.Api.Credentials.{IsNeutral, sent_values}
use tenancit.Api.Endpoints.{
  add_domain, add_field, clear_resource_field_override, create_api_client, create_audit_export,
  create_audit_legal_hold, create_definition, create_resource, create_tenant, create_webhook_target,
  delete_api_client, delete_definition, delete_field, delete_resource, delete_tenant,
  duplicate_resource, get_api_client_usage, get_audit_export, get_audit_health, get_definition,
  get_operational_health, get_settings, get_tenant, get_webhook_overview, list_admin_sessions,
  list_api_client_usage, list_api_clients, list_audit_events, list_audit_legal_holds,
  list_definitions, list_domains, list_tenant_resources, list_tenants, list_webhook_deliveries,
  list_webhook_targets, overview, release_audit_legal_hold, remove_domain, replay_webhook_delivery,
  revoke_admin_principal_sessions, revoke_admin_session, revoke_api_client, rotate_api_client,
  set_definition_status, set_resource_status, set_webhook_target_status, update_api_client,
  update_definition, update_definition_field, update_domain, update_resource_field,
  update_resource_identity, update_settings, update_tenant, Endpoint, endpoint_call, read_only,
  uncached, bare, with_body, keyed,
}

-- A body only with a method, a path behind a slash, and no credential of the caller's own.
abbrev pub IsWellFormed : Text × Init → Type 0
IsWellFormed (path, init) =
    ((rest : Text) × (path ≡ b'/' ∷ rest))
    × IsNeutral init.headers
    × ((init.method ≢ none) ⊎ (init.body ≡ none))

read_only-IsWellFormed : (r : Text) → IsWellFormed (b'/' ∷ r, read_only)
unfolding sent_values
read_only-IsWellFormed r = ((r, refl), (refl, refl), inr refl)

uncached-IsWellFormed : (r : Text) → IsWellFormed (b'/' ∷ r, uncached)
unfolding sent_values
uncached-IsWellFormed r = ((r, refl), (refl, refl), inr refl)

bare-IsWellFormed : (r method : Text) → IsWellFormed (b'/' ∷ r, bare method)
unfolding sent_values
bare-IsWellFormed r method = ((r, refl), (refl, refl), inr refl)

with_body-IsWellFormed : (r method body : Text) → IsWellFormed (b'/' ∷ r, with_body method body)
unfolding sent_values
with_body-IsWellFormed r method body = ((r, refl), (refl, refl), inl (λ h. cc))

keyed-IsWellFormed : (r key body : Text) → IsWellFormed (b'/' ∷ r, keyed key body)
unfolding sent_values text_eq
keyed-IsWellFormed r key body = ((r, refl), (refl, refl), inl (λ h. cc))

pub req_send-url :
    (content : Option Text) (path rest : Text) (init : Init) (base : Text) (s : Client)
    → path ≡ b'/' ∷ rest
    → read_runtime_base_path content ≡ ok base
    → req_send content path init s
      ≡ ok (call_of (join_base base (codes "/v1/admin" ++ path)) init s)
unfolding req_send req_call
req_send-url content path rest init base s behind h =
    let endpoint : IsAdminEndpoint (codes "/v1/admin" ++ path) =
      (path, inl refl, subst IsBoundary (sym behind) (inl refl)) in
    rw (build_admin_endpoint-ok (codes "/v1/admin" ++ path) base content endpoint h) refl

module _ (stringify : Json → Text) (encode : Text → Text)
    (query_text : List (Text × Text) → Text) where
  pub endpoint_call-IsWellFormed :
      (e : Endpoint) → IsWellFormed (endpoint_call stringify encode query_text e)
  unfolding endpoint_call sent_values text_eq
  endpoint_call-IsWellFormed overview = read_only-IsWellFormed _
  endpoint_call-IsWellFormed list_tenants = read_only-IsWellFormed _
  endpoint_call-IsWellFormed (get_tenant _) = read_only-IsWellFormed _
  endpoint_call-IsWellFormed (create_tenant _ key) = keyed-IsWellFormed _ key _
  endpoint_call-IsWellFormed (update_tenant _ _) = with_body-IsWellFormed _ _ _
  endpoint_call-IsWellFormed (delete_tenant _) = bare-IsWellFormed _ _
  endpoint_call-IsWellFormed (list_domains _) = read_only-IsWellFormed _
  endpoint_call-IsWellFormed (add_domain _ _) = with_body-IsWellFormed _ _ _
  endpoint_call-IsWellFormed (update_domain _ _ _) = with_body-IsWellFormed _ _ _
  endpoint_call-IsWellFormed (remove_domain _ _) = bare-IsWellFormed _ _
  endpoint_call-IsWellFormed (list_tenant_resources _ true) = uncached-IsWellFormed _
  endpoint_call-IsWellFormed (list_tenant_resources _ false) = read_only-IsWellFormed _
  endpoint_call-IsWellFormed (create_resource _ _ key) = keyed-IsWellFormed _ key _
  endpoint_call-IsWellFormed (update_resource_identity _ _ _) = with_body-IsWellFormed _ _ _
  endpoint_call-IsWellFormed (set_resource_status _ _ _) = with_body-IsWellFormed _ _ _
  endpoint_call-IsWellFormed (update_resource_field _ _ _ _) = with_body-IsWellFormed _ _ _
  endpoint_call-IsWellFormed (clear_resource_field_override _ _ _) = bare-IsWellFormed _ _
  endpoint_call-IsWellFormed (duplicate_resource _ _ _ key) = keyed-IsWellFormed _ key _
  endpoint_call-IsWellFormed (delete_resource _ _) = bare-IsWellFormed _ _
  endpoint_call-IsWellFormed list_definitions = read_only-IsWellFormed _
  endpoint_call-IsWellFormed (get_definition _) = read_only-IsWellFormed _
  endpoint_call-IsWellFormed (create_definition _) = with_body-IsWellFormed _ _ _
  endpoint_call-IsWellFormed (update_definition _ _) = with_body-IsWellFormed _ _ _
  endpoint_call-IsWellFormed (set_definition_status _ _) = with_body-IsWellFormed _ _ _
  endpoint_call-IsWellFormed (delete_definition _) = bare-IsWellFormed _ _
  endpoint_call-IsWellFormed (add_field _ _) = with_body-IsWellFormed _ _ _
  endpoint_call-IsWellFormed (update_definition_field _ _ _) = with_body-IsWellFormed _ _ _
  endpoint_call-IsWellFormed (delete_field _ _) = bare-IsWellFormed _ _
  endpoint_call-IsWellFormed list_api_clients = read_only-IsWellFormed _
  endpoint_call-IsWellFormed (create_api_client _ key) = keyed-IsWellFormed _ key _
  endpoint_call-IsWellFormed (update_api_client _ _) = with_body-IsWellFormed _ _ _
  endpoint_call-IsWellFormed (rotate_api_client _ _ key) = keyed-IsWellFormed _ key _
  endpoint_call-IsWellFormed (revoke_api_client _) = bare-IsWellFormed _ _
  endpoint_call-IsWellFormed (delete_api_client _) = bare-IsWellFormed _ _
  endpoint_call-IsWellFormed (get_api_client_usage _ _ _) = read_only-IsWellFormed _
  endpoint_call-IsWellFormed (list_api_client_usage _ _) = read_only-IsWellFormed _
  endpoint_call-IsWellFormed (list_audit_events _) = read_only-IsWellFormed _
  endpoint_call-IsWellFormed get_audit_health = read_only-IsWellFormed _
  endpoint_call-IsWellFormed (create_audit_export _ key) = keyed-IsWellFormed _ key _
  endpoint_call-IsWellFormed (get_audit_export _) = read_only-IsWellFormed _
  endpoint_call-IsWellFormed list_audit_legal_holds = read_only-IsWellFormed _
  endpoint_call-IsWellFormed (create_audit_legal_hold _) = with_body-IsWellFormed _ _ _
  endpoint_call-IsWellFormed (release_audit_legal_hold _) = bare-IsWellFormed _ _
  endpoint_call-IsWellFormed get_settings = read_only-IsWellFormed _
  endpoint_call-IsWellFormed (update_settings _ _) = ((_, refl), (refl, refl), inl (λ h. cc))
  endpoint_call-IsWellFormed list_admin_sessions = read_only-IsWellFormed _
  endpoint_call-IsWellFormed (revoke_admin_session _) = bare-IsWellFormed _ _
  endpoint_call-IsWellFormed (revoke_admin_principal_sessions _ _) = with_body-IsWellFormed _ _ _
  endpoint_call-IsWellFormed list_webhook_targets = read_only-IsWellFormed _
  endpoint_call-IsWellFormed (create_webhook_target _) = ((_, refl), (refl, refl), inl (λ h. cc))
  endpoint_call-IsWellFormed (set_webhook_target_status _ _) = with_body-IsWellFormed _ _ _
  endpoint_call-IsWellFormed (list_webhook_deliveries _) = read_only-IsWellFormed _
  endpoint_call-IsWellFormed (replay_webhook_delivery _) = bare-IsWellFormed _ _
  endpoint_call-IsWellFormed get_webhook_overview = read_only-IsWellFormed _
  endpoint_call-IsWellFormed get_operational_health = uncached-IsWellFormed _
