-- ===== src/Api/Receive.antt =====
-- What the client does with a reply. A reply and whether the timer has fired come from outside;
-- `E` is the type of the errors that `fetch` and the body's readers reject with.
use tenancit.Base.{
  ℕ, Bool, not, ◌&&◌, [], Option, none, some, Text, codes, text_eq, ◌==◌, leb, if◌then◌else◌,
}
use tenancit.Api.Store.{
  AdminSession, Client, session_expired, invalid_token, set_admin_session,
  notify_admin_auth_required,
}
use tenancit.Api.Request.{Call}

mutual
  -- A parsed JSON value; a number is the text it is written with.
  pub data Json : Type 0 where
    null : Json
    bool : Bool → Json
    number : Text → Json
    string : Text → Json
    array : JsonList → Json
    object : JsonFields → Json

  pub data JsonList : Type 0 where
    no_items : JsonList
    item : Json → JsonList → JsonList

  pub data JsonFields : Type 0 where
    no_fields : JsonFields
    field : Text → Json → JsonFields → JsonFields

-- What a reader of the body gives; `J` is the type of what it reads.
pub data Body (E J : Type 0) : Type 0 where
  parsed : J → Body E J
  unread : E → Body E J

-- A response: its status, and what `json()` or `blob()` gives.
pub record Response (E J : Type 0) : Type 0 where
  pub status : ℕ
  pub body : Body E J

pub data Reply (E J : Type 0) : Type 0 where
  answered : Response E J → Reply E J
  rejected : E → Reply E J

-- ApiError, ApiTimeoutError, or an error of the platform.
pub data Failure (E : Type 0) : Type 0 where
  api_error : ℕ → Text → Failure E
  api_timeout_error : ℕ → Failure E
  other_error : E → Failure E

pub data Answer (E : Type 0) (A : Type 0) : Type 0 where
  returns : A → Answer E A
  fails : Failure E → Answer E A

abbrev pub request_timeout_ms : ℕ
request_timeout_ms = 10000

-- `response.ok`
abbrev pub is_ok : ℕ → Bool
is_ok status = leb 200 status && leb status 299

-- `typeof body?.error === "string"`
unfoldable pub text_of : Json → Text
text_of (string s) = s
text_of null = []
text_of (bool _) = []
text_of (number _) = []
text_of (array _) = []
text_of (object _) = []

unfoldable pub error_field : JsonFields → Text
error_field no_fields = []
error_field (field k v rest) =
    let other = error_field rest in if text_eq k (codes "error") then text_of v else other

unfoldable pub server_message : {E : Type 0} → Body E Json → Text
server_message (unread _) = []
server_message (parsed (object fields)) = error_field fields
server_message (parsed null) = []
server_message (parsed (bool _)) = []
server_message (parsed (number _)) = []
server_message (parsed (string _)) = []
server_message (parsed (array _)) = []

-- The 401 branch; the session is the one read before the request.
unfoldable pub expire : Option AdminSession → Client → Client
expire none s = notify_admin_auth_required invalid_token s
expire (some _) s = notify_admin_auth_required session_expired (set_admin_session none s)

module _ {E : Type 0} where
  -- `none` is undefined.
  unfoldable pub read_json : Body E Json → Answer E (Option Json)
  read_json (parsed v) = returns (some v)
  read_json (unread e) = fails (other_error e)

  unfoldable pub read_response : Response E Json → Answer E (Option Json)
  read_response res =
      if not (is_ok res.status)
      then fails (api_error res.status (server_message res.body))
      else if res.status == 204
      then returns none
      else read_json res.body

  -- The `catch` block.
  unfoldable pub caught : {A : Type 0} → Bool → Answer E A → Answer E A
  caught timed_out (returns v) = returns v
  caught timed_out (fails e) =
      if timed_out then fails (api_timeout_error request_timeout_ms) else fails e

  unfoldable pub on_reply :
      Option AdminSession → Reply E Json → Client → Client × Answer E (Option Json)
  on_reply session (rejected e) s = (s, fails (other_error e))
  on_reply session (answered res) s =
      if res.status == 401
      then (expire session s, fails (api_error 401 []))
      else (s, read_response res)

  -- `req` from its first await on.
  unfoldable pub req_receive : Call → Bool → Reply E Json → Client → Client × Answer E (Option Json)
  req_receive call timed_out reply s =
      let (after, answer) = on_reply call.session reply s in (after, caught timed_out answer)
