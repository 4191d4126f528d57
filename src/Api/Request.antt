-- ===== src/Api/Request.antt =====
-- The requests that the client sends. Headers are an object: a key is set in place, or added.
-- The signal of the caller and the timer act on the reply, which is an argument of Api/Receive.
use tenancit.Base.{
  Bool, true, false, not, ◌&&◌, List, [], ◌∷◌, ◌++◌, Option, none, some, Text, codes, text_eq,
  is_empty, if◌then◌else◌,
}
use tenancit.BasePath.Defs.{Result, ok, throw, build_admin_endpoint}
use tenancit.Api.Store.{AdminSession, Client, get_admin_token}

abbrev pub Headers : Type 0
Headers = List (Text × Text)

-- The fields of RequestInit that the program gives.
pub record Init : Type 0 where
  pub method : Option Text
  pub headers : Headers
  pub body : Option Text
  pub cache : Option Text

-- A call of `fetch`.
pub record Request : Type 0 where
  pub url : Text
  pub method : Option Text
  pub headers : Headers
  pub body : Option Text
  pub cache : Option Text
  pub credentials : Option Text

-- What `req` holds across its awaits.
pub record Call : Type 0 where
  pub session : Option AdminSession
  pub request : Request

unfoldable pub set_header : Text → Text → Headers → Headers
set_header key value [] = (key, value) ∷ []
set_header key value ((k, v) ∷ rest) =
    let others = set_header key value rest in
    if text_eq k key then (key, value) ∷ rest else (k, v) ∷ others

-- `{ ...object, ...source }`
unfoldable pub spread : Headers → Headers → Headers
spread [] object = object
spread ((key, value) ∷ source) object = spread source (set_header key value object)

abbrev pub is_set : Option AdminSession → Bool
is_set none = false
is_set (some _) = true

-- `!session && token ? { Authorization: … } : {}`
unfoldable pub bearer_header : Option AdminSession → Text → Headers
bearer_header session token =
    if not (is_set session) && not (is_empty token)
    then (codes "Authorization", codes "Bearer " ++ token) ∷ []
    else []

-- `session ? { "X-CSRF-Token": … } : {}`
unfoldable pub csrf_header : Option AdminSession → Headers
csrf_header none = []
csrf_header (some session) = (codes "X-CSRF-Token", session.csrf_token) ∷ []

abbrev pub json_header : Headers
json_header = (codes "Content-Type", codes "application/json") ∷ []

unfoldable pub req_headers : Option AdminSession → Text → Headers → Headers
req_headers session token given =
    spread given (spread (csrf_header session) (spread (bearer_header session token) json_header))

abbrev pub req_request : Text → Init → Client → Request
req_request url init s = record {
  url = url;
  method = init.method;
  headers = req_headers s.current_admin_session (get_admin_token s) init.headers;
  body = init.body;
  cache = init.cache;
  credentials = some (codes "same-origin");
}

abbrev pub call_of : Text → Init → Client → Call
call_of url init s = record { session = s.current_admin_session; request = req_request url init s }

unfoldable pub req_call : Result Text → Init → Client → Result Call
req_call (throw e) init s = throw e
req_call (ok url) init s = ok (call_of url init s)

-- `req` up to its first await; `content` is the text of the base path's meta element.
unfoldable pub req_send : Option Text → Text → Init → Client → Result Call
req_send content path init s =
    req_call (build_admin_endpoint (codes "/v1/admin" ++ path) content) init s
