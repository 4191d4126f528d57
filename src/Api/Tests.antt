-- ===== src/Api/Tests.antt =====
-- The client on inputs of web/src/lib/api.test.ts, and instances of the theorems.
use tenancit.Base.{
  ℕ, ◌≡◌, ◌≢◌, ◌↔◌, ◌⊎◌, refl, true, false, List, [], ◌∷◌, ◌++◌, none, some, Text, codes, text_eq,
  is_empty,
}
use tenancit.Regex.Defs.{matches}
use tenancit.BasePath.Defs.{
  ok, build_admin_endpoint, prefix_endpoint, join_base, literal, read_runtime_base_path,
}
use tenancit.Api.Store.{
  AdminSession, Client, session_expired, set_admin_session, notify_admin_auth_required,
  clear_admin_token, consume_pending_admin_auth_message,
}
use tenancit.Api.Request.{
  Request, spread, csrf_header, set_header, bearer_header, Call, call_of, req_call, req_send,
}
use tenancit.Api.Receive.{
  Json, string, number, Response, Reply, answered, parsed, returns, fails, expire, on_reply,
  req_receive, Failure, api_timeout_error,
}
use tenancit.Api.Session.{
  fetch_request, fetch_admin_session_receive, logout_admin_session_receive,
  download_audit_export_send,
}
use tenancit.Api.Credentials.{IsSentBy, sent_values, authorization_key, req_send-IsSentBy}
use tenancit.Api.Outcome.{Holds, req_receive-returns_iff}
use tenancit.Api.Failures.{FailsTimed, req_receive-FailsTimed}
use tenancit.Api.Endpoints.{delete_tenant, endpoint_call, bare}
use tenancit.Api.Routes.{fill, handler_of, arguments_of}
use tenancit.Api.Served.{IsRouted, req_send-IsServed}
use tenancit.Api.Login.{
  Question, audit_export, IsSentWith, asked, shown, asked-IsSentWith, IsSettled,
  fetch_admin_session_receive-IsSettled, logout_admin_session_receive-closes, IsClosing,
}
use tenancit.Api.Notice.{Page, Run, still, further, clear_token, IsQuiet, IsLoginFree}
use tenancit.Api.Replay.{expired, consume-notice, expired-IsLoggedOut}

abbrev ada : AdminSession
ada = record {
  issuer = codes "https://id.example.test";
  subject = codes "user-1";
  label = codes "Ada";
  session_id = codes "session-1";
  roles = codes "operator" ∷ [];
  permissions = codes "admin.read" ∷ [];
  csrf_token = codes "csrf-token";
  expires_at = codes "2026-07-11T20:00:00Z";
  idle_expires_at = codes "2026-07-11T12:30:00Z";
}

abbrev signed_in : Client
signed_in = record {
  current_admin_session = some ada;
  pending_admin_auth_message = none;
  stored_token = some (codes "legacy");
  events = [];
}

abbrev deletion : Call
deletion = call_of (codes "/v1/admin/tenants/1") (bare (codes "DELETE")) signed_in

abbrev page : Page
page = record { client = signed_in; waiting = deletion ∷ [] }

abbrev unauthorized : {J : Type 0} → J → Response ℕ J
unauthorized v = record { status = 401; body = parsed v }

expires :
    (req_receive deletion false
      (answered (unauthorized Json.null))
      signed_in).0.pending_admin_auth_message
    ≡ some session_expired
unfolding req_receive on_reply expire notify_admin_auth_required set_admin_session
expires = refl

sends : req_send none (codes "/tenants/1") (bare (codes "DELETE")) signed_in ≡ ok deletion
unfolding req_send req_call build_admin_endpoint prefix_endpoint join_base literal matches
    read_runtime_base_path text_eq
sends = refl

req_send-IsSentBy_example : IsSentBy signed_in deletion
unfolding sent_values
req_send-IsSentBy_example =
    req_send-IsSentBy none (codes "/tenants/1") (bare (codes "DELETE")) signed_in deletion tt
      (refl, refl) sends

-- A header of the caller's own in small letters joins the client's.
mixed_case :
    sent_values authorization_key
      ((codes "authorization", codes "a") ∷ bearer_header none (codes "b"))
    ≡ codes "a" ∷ codes "Bearer b" ∷ []
unfolding sent_values bearer_header text_eq is_empty
mixed_case = refl

-- A printer that shows nothing but texts.
abbrev print : Json → Text
print (string s) = s
print (number s) = s
print _ = []

abbrev no_params : List (Text × Text) → Text
no_params params = []

reads_root : read_runtime_base_path none ≡ ok (codes "/")
unfolding read_runtime_base_path
reads_root = refl

req_send-IsServed_example :
    (call : Call) × (path : Text) × (req_send none
        (endpoint_call print (λ t. t) no_params (delete_tenant (codes "1"))).0
        (endpoint_call print (λ t. t) no_params (delete_tenant (codes "1"))).1
        signed_in
      ≡ ok call)
    × (call.request.url ≡ join_base (codes "/") (codes "/v1/admin" ++ path))
    × IsRouted
        (handler_of (delete_tenant (codes "1")))
        (arguments_of (λ t. t) (delete_tenant (codes "1")))
        call.request.method
        path
    × (call.request.body
        ≡ (endpoint_call print (λ t. t) no_params (delete_tenant (codes "1"))).1.body)
    × ((call.request.method ≢ none) ⊎ (call.request.body ≡ none))
    × IsSentBy signed_in call
req_send-IsServed_example =
    req_send-IsServed print (λ t. t) no_params (delete_tenant (codes "1")) none (codes "/")
      signed_in reads_root tt

-- The pattern of a route, filled.
filled :
    fill false (codes "/tenants/{id}/domains/{domainId}") (codes "7" ∷ codes "9" ∷ []) []
    ≡ codes "/tenants/7/domains/9"
unfolding fill
filled = refl

abbrev empty_reply : Reply ℕ Json
empty_reply = answered (record { status = 204; body = parsed Json.null })

req_receive-returns_iff_example :
    ((req_receive deletion false empty_reply signed_in).1 ≡ returns none)
    ↔ ((res : Response ℕ Json) × (empty_reply ≡ answered res) × Holds res none)
req_receive-returns_iff_example = req_receive-returns_iff deletion false empty_reply signed_in none

req_receive-FailsTimed_example :
    ((req_receive deletion true (answered (unauthorized Json.null)) signed_in).1
      ≡ fails (api_timeout_error 10000))
    ↔ FailsTimed true (answered (unauthorized Json.null)) (api_timeout_error 10000)
req_receive-FailsTimed_example =
    req_receive-FailsTimed deletion true (answered (unauthorized Json.null)) signed_in
      (api_timeout_error 10000)

abbrev export : Question
export = audit_export (codes "7")

abbrev export_request : Request
export_request = record {
  url = codes "/v1/admin/audit-exports/7/download";
  method = none;
  headers = (codes "X-CSRF-Token", codes "csrf-token") ∷ [];
  body = none;
  cache = none;
  credentials = some (codes "same-origin");
}

downloads : asked (λ t. t) none signed_in export ≡ ok export_request
unfolding download_audit_export_send fetch_request build_admin_endpoint prefix_endpoint join_base
    literal matches read_runtime_base_path text_eq spread csrf_header set_header bearer_header
downloads = refl

asked-IsSentWith_example : IsSentWith (shown (λ t. t) none signed_in export) export_request
asked-IsSentWith_example =
    asked-IsSentWith (λ t. t) none signed_in export export_request tt downloads

abbrev session_reply : Reply ℕ AdminSession
session_reply = answered (record { status = 200; body = parsed ada })

fetch_admin_session_receive-IsSettled_example :
    IsSettled signed_in session_reply (fetch_admin_session_receive session_reply signed_in)
fetch_admin_session_receive-IsSettled_example =
    fetch_admin_session_receive-IsSettled session_reply signed_in

abbrev closing_reply : Reply ℕ Unit
closing_reply = answered (record { status = 204; body = parsed tt })

logout_admin_session_receive-closes_example :
    (((logout_admin_session_receive closing_reply signed_in).1 ≡ returns tt)
      × ((logout_admin_session_receive closing_reply signed_in).0.current_admin_session ≡ none)
      × IsClosing closing_reply)
    ⊎ (((f : Failure ℕ) × ((logout_admin_session_receive closing_reply signed_in).1 ≡ fails f))
        × ((logout_admin_session_receive closing_reply signed_in).0 ≡ signed_in)
        × ¬ IsClosing closing_reply)
logout_admin_session_receive-closes_example =
    logout_admin_session_receive-closes closing_reply signed_in

-- The page behind a 401, and then with the token removed.
abbrev behind_401 : Page
behind_401 = expired deletion false (unauthorized Json.null) page

abbrev without_token : Page
without_token = record behind_401 { client = clear_admin_token behind_401.client }

IsQuiet-Run : Run ℕ (IsQuiet ℕ) behind_401 without_token
IsQuiet-Run =
    further behind_401 behind_401 without_token (still behind_401) (clear_token behind_401) tt

consume-notice_example :
    ((consume_pending_admin_auth_message without_token.client).0 ≢ none)
    × ((consume_pending_admin_auth_message
          (consume_pending_admin_auth_message without_token.client).1).0
        ≡ none)
consume-notice_example =
    consume-notice deletion false (unauthorized Json.null) page without_token refl IsQuiet-Run

IsLoginFree-Run : Run ℕ (IsLoginFree ℕ) behind_401 without_token
IsLoginFree-Run =
    further behind_401 behind_401 without_token (still behind_401) (clear_token behind_401) tt

expired-IsLoggedOut_example : without_token.client.current_admin_session ≡ none
expired-IsLoggedOut_example =
    expired-IsLoggedOut deletion false (unauthorized Json.null) page without_token (λ e. cc) refl
      IsLoginFree-Run
