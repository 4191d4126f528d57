-- ===== src/Api/Session.antt =====
-- The calls that stand beside `req`: the login configuration, the session, logout, and the
-- download of an export. Each is what it sends, and what it does with the reply.
use tenancit.Base.{not, ◌&&◌, [], ◌∷◌, ◌++◌, Option, none, some, Text, codes, ◌==◌, if◌then◌else◌}
use tenancit.BasePath.Defs.{Result, ok, throw, build_admin_endpoint}
use tenancit.Api.Store.{AdminSession, Client, set_admin_session, get_admin_token}
use tenancit.Api.Request.{Headers, Request, spread, bearer_header, csrf_header}
use tenancit.Api.Receive.{
  Body, parsed, unread, Reply, answered, rejected, Answer, returns, fails, api_error, other_error,
  is_ok,
}

unfoldable pub fetch_request : Result Text → Option Text → Headers → Result Request
fetch_request (throw e) method headers = throw e
fetch_request (ok url) method headers = ok (record {
  url = url;
  method = method;
  headers = headers;
  body = none;
  cache = none;
  credentials = some (codes "same-origin");
})

unfoldable pub fetch_admin_auth_config_send : Option Text → Result Request
fetch_admin_auth_config_send content =
    fetch_request (build_admin_endpoint (codes "/v1/auth/config") content) none []

unfoldable pub fetch_admin_session_send : Option Text → Result Request
fetch_admin_session_send content =
    fetch_request (build_admin_endpoint (codes "/v1/auth/session") content) none []

-- `none` is the early return without a session.
unfoldable pub logout_admin_session_send :
    Option Text → Option AdminSession → Option (Result Request)
logout_admin_session_send content none = none
logout_admin_session_send content (some session) = some (
    fetch_request (build_admin_endpoint (codes "/v1/auth/logout") content) (some (codes "POST")) (
      (codes "Content-Type", codes "application/json")
      ∷ (codes "X-CSRF-Token", session.csrf_token)
      ∷ []))

-- `encode_uri_component` stands for the platform's function.
unfoldable pub download_audit_export_send :
    (encode_uri_component : Text → Text) (content : Option Text) (id : Text)
    → Client
    → Result Request
download_audit_export_send encode_uri_component content id s =
    fetch_request
      (build_admin_endpoint
        (codes "/v1/admin"
          ++ codes "/audit-exports/"
          ++ encode_uri_component id
          ++ codes "/download")
        content)
      none
      (spread (csrf_header s.current_admin_session)
        (spread (bearer_header s.current_admin_session (get_admin_token s)) []))

module _ {E J : Type 0} where
  unfoldable pub read_body : Body E J → Answer E J
  read_body (parsed v) = returns v
  read_body (unread e) = fails (other_error e)

  -- The reply to the configuration and to the download, which leave the client as it is.
  unfoldable pub read_reply : Reply E J → Answer E J
  read_reply (rejected e) = fails (other_error e)
  read_reply (answered res) =
      if not (is_ok res.status) then fails (api_error res.status []) else read_body res.body

module _ {E : Type 0} where
  unfoldable pub keep_session :
      Body E AdminSession → Client → Client × Answer E (Option AdminSession)
  keep_session (parsed session) s = (set_admin_session (some session) s, returns (some session))
  keep_session (unread e) s = (s, fails (other_error e))

  unfoldable pub fetch_admin_session_receive :
      Reply E AdminSession → Client → Client × Answer E (Option AdminSession)
  fetch_admin_session_receive (rejected e) s = (s, fails (other_error e))
  fetch_admin_session_receive (answered res) s =
      if res.status == 401
      then (set_admin_session none s, returns none)
      else if not (is_ok res.status)
      then (s, fails (api_error res.status []))
      else keep_session res.body s

  unfoldable pub logout_admin_session_receive : Reply E Unit → Client → Client × Answer E Unit
  logout_admin_session_receive (rejected e) s = (s, fails (other_error e))
  logout_admin_session_receive (answered res) s =
      if not (is_ok res.status) && not (res.status == 401)
      then (s, fails (api_error res.status []))
      else (set_admin_session none s, returns tt)
