-- ===== src/Api/Credentials.antt =====
-- Which credential a request carries.
use tenancit.Base.{
  ◌≡◌, inl, inr, refl, sym, subst, ◌∙◌, true, false, [], ◌∷◌, ◌++◌, List, map, lower_unit,
  if◌then◌else◌, Option, none, some, Text, codes, text_eq, text_eq_iff, is_empty, Bool-cases,
}
use tenancit.BasePath.Defs.{Result, ok, throw, build_admin_endpoint}
use tenancit.BasePath.Endpoint.{IsLocal, IsUnbrokenContent, build_admin_endpoint-safe}
use tenancit.Api.Store.{AdminSession, Client, get_admin_token}
use tenancit.Api.Request.{
  Headers, Init, Call, set_header, spread, bearer_header, csrf_header, req_headers, req_call,
  call_of, req_send,
}

text_eq_self : (t : Text) → text_eq t t ≡ true
text_eq_self t = (text_eq_iff t t).1 refl

-- The values of a header as fetch sends them: of every name that is the key in small letters.
unfoldable pub sent_values : Text → Headers → List Text
sent_values key [] = []
sent_values key ((k, v) ∷ rest) =
    let others = sent_values key rest in
    if text_eq (map lower_unit k) key then v ∷ others else others

sent_values-set_header :
    (key k v : Text) (h : Headers)
    → text_eq (map lower_unit k) key ≡ false
    → sent_values key (set_header k v h) ≡ sent_values key h
unfolding sent_values set_header
sent_values-set_header key k v [] e = rw e refl
sent_values-set_header key k v ((k', v') ∷ h) e = elim (Bool-cases (text_eq k' k)) [
  | inl same ↦ let one : k' ≡ k = (text_eq_iff k' k).0 same in rw (same, one, e) refl
  | inr other ↦ rw (other, sent_values-set_header key k v h e) refl
]

-- Headers that do not have a key leave it as it was.
sent_values-spread :
    (key : Text) (given h : Headers)
    → sent_values key given ≡ []
    → sent_values key (spread given h) ≡ sent_values key h
unfolding sent_values spread
sent_values-spread key [] h e = refl
sent_values-spread key ((k, v) ∷ given) h e = elim (Bool-cases (text_eq (map lower_unit k) key)) [
  | inl same ↦ cc (rw same at e)
  | inr other ↦
      sent_values-spread key given (set_header k v h) (rw other at e)
      ∙ sent_values-set_header key k v h other
]

-- What the server is to know the caller by.
pub data Credential : Type 0 where
  session_token bearer : Text → Credential
  anonymous : Credential

abbrev pub credential_of : Option AdminSession → Text → Credential
credential_of (some session) token = session_token session.csrf_token
credential_of none [] = anonymous
credential_of none (c ∷ token) = bearer (c ∷ token)

abbrev pub csrf_key : Text
csrf_key = codes "x-csrf-token"

abbrev pub authorization_key : Text
authorization_key = codes "authorization"

-- The two headers have these values when they are sent, and no other beside them.
abbrev pub Carries : Headers → Credential → Type 0
Carries h (session_token t) =
    (sent_values csrf_key h ≡ t ∷ []) × (sent_values authorization_key h ≡ [])
Carries h (bearer t) =
    (sent_values csrf_key h ≡ []) × (sent_values authorization_key h ≡ (codes "Bearer " ++ t) ∷ [])
Carries h anonymous = (sent_values csrf_key h ≡ []) × (sent_values authorization_key h ≡ [])

-- The headers of a caller that leave the credential to the client, in letters of either case.
abbrev pub IsNeutral : Headers → Type 0
IsNeutral given = (sent_values csrf_key given ≡ []) × (sent_values authorization_key given ≡ [])

req_headers-Carries :
    (session : Option AdminSession) (token : Text) (given : Headers)
    → IsNeutral given
    → Carries (req_headers session token given) (credential_of session token)
unfolding req_headers csrf_header bearer_header spread set_header sent_values text_eq is_empty
req_headers-Carries (some session) token given (csrf, auth) =
    (sent_values-spread _ given _ csrf, sent_values-spread _ given _ auth)
req_headers-Carries none [] given (csrf, auth) =
    (sent_values-spread _ given _ csrf, sent_values-spread _ given _ auth)
req_headers-Carries none (c ∷ token) given (csrf, auth) =
    (sent_values-spread _ given _ csrf, sent_values-spread _ given _ auth)

req_call-ok :
    (r : Result Text) (init : Init) (s : Client) (call : Call)
    → req_call r init s ≡ ok call
    → (url : Text) × (r ≡ ok url) × (call ≡ call_of url init s)
unfolding req_call
req_call-ok (throw e) init s call h = cc
req_call-ok (ok url) init s call h = (url, refl, cc)

-- Sent by a client, to its own host, with the client's credential.
abbrev pub IsSentBy : Client → Call → Type 0
IsSentBy s call =
    Carries call.request.headers (credential_of s.current_admin_session (get_admin_token s))
    × IsLocal call.request.url
    × (call.session ≡ s.current_admin_session)

-- When the caller's own headers set neither X-CSRF-Token nor Authorization, in letters of either
-- case, a request that `req` sends carries the session's token and no bearer token with a session,
-- the stored token and no session token without one, and neither with neither; each header has that
-- one value as fetch sends it. When the base path has no tab, line feed or carriage return, the URL,
-- as a URL parser reads it, is a path of the page's own host. The call remembers the session it was
-- sent with.
pub req_send-IsSentBy :
    (content : Option Text) (path : Text) (init : Init) (s : Client) (call : Call)
    → IsUnbrokenContent content
    → IsNeutral init.headers
    → req_send content path init s ≡ ok call
    → IsSentBy s call
unfolding req_send
req_send-IsSentBy content path init s call unbroken neutral h =
    let endpoint = codes "/v1/admin" ++ path in
    let (url, built, same) = req_call-ok (build_admin_endpoint endpoint content) init s call h in
    let (_, _, local) = build_admin_endpoint-safe endpoint url content built unbroken in
    let carries =
      req_headers-Carries s.current_admin_session (get_admin_token s) init.headers neutral in
    subst (IsSentBy s) (sym same) (carries, local, refl)
