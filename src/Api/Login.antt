-- ===== src/Api/Login.antt =====
-- The calls beside `req`: what they send and where they leave the session.
use tenancit.Base.{
  ℕ, ◌≤◌, ◌<◌, ◌≢◌, ==_iff, ◌≡◌, ◌↔◌, ◌⊎◌, inl, inr, refl, sym, subst, false, not, ◌&&◌, [], ◌∷◌,
  arith, Option, none, some, Text, text_eq, is_empty, ◌==◌, Bool-cases,
}
use tenancit.BasePath.Defs.{Result, ok, throw, build_admin_endpoint}
use tenancit.BasePath.Endpoint.{IsLocal, IsUnbrokenContent, build_admin_endpoint-safe}
use tenancit.Api.Store.{
  AdminSession, Client, get_admin_token, set_admin_session, admin_session_change,
}
use tenancit.Api.Request.{Headers, Request, spread, set_header, bearer_header, csrf_header}
use tenancit.Api.Credentials.{Credential, anonymous, credential_of, Carries, sent_values}
use tenancit.Api.Receive.{
  Body, parsed, unread, Reply, answered, rejected, Failure, api_error, other_error, Answer, returns,
  fails, is_ok,
}
use tenancit.Api.Session.{
  fetch_request, fetch_admin_auth_config_send, fetch_admin_session_send, download_audit_export_send,
  keep_session, fetch_admin_session_receive, logout_admin_session_receive,
}

-- To the page's own host, with a credential.
abbrev pub IsSentWith : Credential → Request → Type 0
IsSentWith c r = Carries r.headers c × IsLocal r.url

-- A request of the given URL and headers.
abbrev pub HasParts : Text → Headers → Request → Type 0
HasParts url h r = (r.url ≡ url) × (r.headers ≡ h)

fetch_request-HasParts :
    (built : Result Text) (method : Option Text) (h : Headers) (r : Request)
    → fetch_request built method h ≡ ok r
    → (url : Text) × (built ≡ ok url) × HasParts url h r
unfolding fetch_request
fetch_request-HasParts (throw e) method h r sent = cc
fetch_request-HasParts (ok url) method h r sent = (url, refl, (cc, cc))

fetch_request-IsSentWith :
    (endpoint : Text) (content method : Option Text) (h : Headers) (c : Credential) (r : Request)
    → IsUnbrokenContent content
    → Carries h c
    → fetch_request (build_admin_endpoint endpoint content) method h ≡ ok r
    → IsSentWith c r
fetch_request-IsSentWith endpoint content method h c r unbroken carries sent =
    let (url, built, (same_url, same)) =
      fetch_request-HasParts (build_admin_endpoint endpoint content) method h r sent in
    let (_, _, local) = build_admin_endpoint-safe endpoint url content built unbroken in
    (subst (λ x. Carries x c) (sym same) carries, subst IsLocal (sym same_url) local)

download_headers-Carries :
    (session : Option AdminSession) (token : Text)
    → Carries
        (spread (csrf_header session) (spread (bearer_header session token) []))
        (credential_of session token)
unfolding csrf_header bearer_header spread set_header sent_values text_eq is_empty
download_headers-Carries (some session) token = (refl, refl)
download_headers-Carries none [] = (refl, refl)
download_headers-Carries none (c ∷ token) = (refl, refl)

-- A question of the client beside `req`.
pub data Question : Type 0 where
  auth_config admin_session : Question
  audit_export : (id : Text) → Question

module _ (encode : Text → Text) (content : Option Text) (s : Client) where
  abbrev pub asked : Question → Result Request
  asked auth_config = fetch_admin_auth_config_send content
  asked admin_session = fetch_admin_session_send content
  asked (audit_export id) = download_audit_export_send encode content id s

  -- Only the download shows who asks.
  abbrev pub shown : Question → Credential
  shown auth_config = anonymous
  shown admin_session = anonymous
  shown (audit_export id) = credential_of s.current_admin_session (get_admin_token s)

  -- When the base path has no tab, line feed or carriage return: the questions for the login
  -- configuration and for the session go to a path of the page's own host, as a URL parser reads
  -- their URLs, without any credential of the client, and the download of an export goes there with
  -- the client's credential alone: the session's token, else the stored token, else none.
  pub asked-IsSentWith :
      (q : Question) (r : Request)
      → IsUnbrokenContent content
      → asked q ≡ ok r
      → IsSentWith (shown q) r
  unfolding fetch_admin_auth_config_send fetch_admin_session_send download_audit_export_send
      sent_values
  asked-IsSentWith auth_config r unbroken h =
      fetch_request-IsSentWith _ content none [] anonymous r unbroken (refl, refl) h
  asked-IsSentWith admin_session r unbroken h =
      fetch_request-IsSentWith _ content none [] anonymous r unbroken (refl, refl) h
  asked-IsSentWith (audit_export id) r unbroken h =
      fetch_request-IsSentWith _ content none _ _ r unbroken
        (download_headers-Carries s.current_admin_session (get_admin_token s)) h

module _ {E : Type 0} where
  -- The client with another session and the event that announces it, and that session returned.
  abbrev pub Becomes :
      Client → Option AdminSession → Client × Answer E (Option AdminSession) → Type 0
  Becomes s session (after, answer) =
      (answer ≡ returns session)
      × (after.current_admin_session ≡ session)
      × (after.stored_token ≡ s.stored_token)
      × (after.pending_admin_auth_message ≡ s.pending_admin_auth_message)
      × (after.events ≡ admin_session_change ∷ s.events)

  -- The client as it was, and a failure.
  abbrev pub Breaks : Client → Failure E → Client × Answer E (Option AdminSession) → Type 0
  Breaks s f (after, answer) = (after ≡ s) × (answer ≡ fails f)

  abbrev pub IsKept :
      Client → Body E AdminSession → Client × Answer E (Option AdminSession) → Type 0
  IsKept s (parsed session) out = Becomes s (some session) out
  IsKept s (unread e) out = Breaks s (other_error e) out

  -- What each reply makes of the client and of the answer.
  abbrev pub IsSettled :
      Client → Reply E AdminSession → Client × Answer E (Option AdminSession) → Type 0
  IsSettled s (rejected e) out = Breaks s (other_error e) out
  IsSettled s (answered res) out =
      ((res.status ≡ 401) × Becomes s none out)
      ⊎ (((200 ≤ res.status) × (res.status ≤ 299)) × IsKept s res.body out)
      ⊎ ((res.status ≢ 401)
          × ((res.status < 200) ⊎ (299 < res.status))
          × Breaks s (api_error res.status []) out)

closing_iff :
    (n : ℕ) → (not (is_ok n) && not (n == 401) ≡ false) ↔ (((200 ≤ n) × (n ≤ 299)) ⊎ (n ≡ 401))
closing_iff n = ground arith

module _ {E : Type 0} where
  keep_session-IsKept : (b : Body E AdminSession) (s : Client) → IsKept s b (keep_session b s)
  unfolding keep_session set_admin_session
  keep_session-IsKept (parsed session) s = (refl, refl, refl, refl, refl)
  keep_session-IsKept (unread e) s = (refl, refl)

  -- fetchAdminSession on every reply. On a 401 it returns no session and the client is left without
  -- one; on a status from 200 to 299 whose body is read it returns that session and the client keeps
  -- it; both announce the change, and nothing else of the client changes. In every other case the client is as it was, and the
  -- call fails: with the platform's error without a response or with a good one whose body is not
  -- read, else with the status.
  pub fetch_admin_session_receive-IsSettled :
      (reply : Reply E AdminSession) (s : Client)
      → IsSettled s reply (fetch_admin_session_receive reply s)
  unfolding fetch_admin_session_receive set_admin_session
  fetch_admin_session_receive-IsSettled (rejected e) s = (refl, refl)
  fetch_admin_session_receive-IsSettled (answered res) s =
      let (to, from) = ==_iff res.status 401 in
      elim (Bool-cases (res.status == 401)) [
        | inl hit ↦ rw hit (inl (to hit, (refl, refl, refl, refl, refl)))
        | inr miss ↦ elim (Bool-cases (is_ok res.status)) [
          | inl good ↦ rw (miss, good) (inr (inl (ground arith, keep_session-IsKept res.body s)))
          | inr bad ↦
              rw (miss, bad) (inr (inr (λ e. cc (from e, miss), ground arith, (refl, refl))))
        ]
      ]

  -- A response that ends the session.
  abbrev pub IsClosing : Reply E Unit → Type 0
  IsClosing (rejected e) = ⊥
  IsClosing (answered res) = ((200 ≤ res.status) × (res.status ≤ 299)) ⊎ (res.status ≡ 401)

  -- Whatever the reply, logging out ends without a session, or fails and leaves the client as it
  -- was; it fails when there is no response or one that is neither from 200 to 299 nor 401.
  pub logout_admin_session_receive-closes :
      (reply : Reply E Unit) (s : Client)
      → (((logout_admin_session_receive reply s).1 ≡ returns tt)
          × ((logout_admin_session_receive reply s).0.current_admin_session ≡ none)
          × IsClosing reply)
        ⊎ (((f : Failure E) × ((logout_admin_session_receive reply s).1 ≡ fails f))
            × ((logout_admin_session_receive reply s).0 ≡ s)
            × ¬ IsClosing reply)
  unfolding logout_admin_session_receive set_admin_session
  logout_admin_session_receive-closes (rejected e) s = inr ((other_error e, refl), refl, λ h. h)
  logout_admin_session_receive-closes (answered res) s =
      elim (Bool-cases (not (is_ok res.status) && not (res.status == 401))) [
        | inl bad ↦ rw bad (
            inr
              ((api_error res.status [], refl), refl, λ h. cc ((closing_iff res.status).1 h, bad)))
        | inr closed ↦ rw closed (inl (refl, refl, (closing_iff res.status).0 closed))
      ]
