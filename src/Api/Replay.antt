-- ===== src/Api/Replay.antt =====
-- Notices and sessions over any sequence of steps.
use mathlib.Core.Logic.{⊎_elim}
use tenancit.Base.{
  ◌≡◌, ◌≢◌, ◌⊎◌, inl, inr, refl, sym, subst, Bool, not, ◌&&◌, Option, none, some, ◌==◌, Bool-cases,
}
use tenancit.Api.Store.{
  AdminSession, Client, set_admin_session, clear_admin_token, set_admin_token,
  notify_admin_auth_required, consume_pending_admin_auth_message,
}
use tenancit.Api.Request.{Call}
use tenancit.Api.Receive.{
  Json, Body, parsed, unread, Response, Reply, answered, rejected, expire, on_reply, req_receive,
  is_ok,
}
use tenancit.Api.Session.{fetch_admin_session_receive, logout_admin_session_receive, keep_session}
use tenancit.Api.Notice.{
  Page, Step, send, receive, set_token, clear_token, fetch_session, logout, consume, Run, IsQuiet,
  IsLoginFree, run_keeps, HasNotice, IsLoggedOut, expire-HasNotice, receive_cases,
}

closed-HasNotice : (s : Client) → HasNotice s → HasNotice (set_admin_session none s)
unfolding set_admin_session
closed-HasNotice s h = h

closed-IsLoggedOut : (s : Client) → IsLoggedOut (set_admin_session none s)
unfolding set_admin_session
closed-IsLoggedOut s = refl

expire-IsLoggedOut :
    (session : Option AdminSession) (s : Client) → IsLoggedOut s → IsLoggedOut (expire session s)
unfolding expire notify_admin_auth_required set_admin_session
expire-IsLoggedOut none s h = h
expire-IsLoggedOut (some _) s h = refl

expired_session-IsLoggedOut :
    (session : Option AdminSession) (s : Client) → session ≢ none → IsLoggedOut (expire session s)
unfolding expire notify_admin_auth_required set_admin_session
expired_session-IsLoggedOut none s h = absurd (h refl)
expired_session-IsLoggedOut (some _) s h = refl

module _ {E : Type 0} where
  keep_session-HasNotice :
      (b : Body E AdminSession) (s : Client) → HasNotice s → HasNotice (keep_session b s).0
  unfolding keep_session set_admin_session
  keep_session-HasNotice (parsed _) s h = h
  keep_session-HasNotice (unread _) s h = h

  fetch_session-HasNotice :
      (reply : Reply E AdminSession) (s : Client)
      → HasNotice s
      → HasNotice (fetch_admin_session_receive reply s).0
  unfolding fetch_admin_session_receive set_admin_session
  fetch_session-HasNotice (rejected e) s h = h
  fetch_session-HasNotice (answered res) s h = elim (Bool-cases (res.status == 401)) [
    | inl hit ↦ rw hit h
    | inr miss ↦ elim (Bool-cases (is_ok res.status)) [
      | inl good ↦ rw (miss, good) (keep_session-HasNotice res.body s h)
      | inr bad ↦ rw (miss, bad) h
    ]
  ]

  logout_cases :
      (reply : Reply E Unit) (s : Client)
      → ((logout_admin_session_receive reply s).0 ≡ s)
        ⊎ ((logout_admin_session_receive reply s).0 ≡ set_admin_session none s)
  unfolding logout_admin_session_receive
  logout_cases (rejected e) s = inl refl
  logout_cases (answered res) s =
      elim (Bool-cases (not (is_ok res.status) && not (res.status == 401))) [
        | inl bad ↦ rw bad (inl refl)
        | inr closed ↦ rw closed (inr refl)
      ]

  step_keeps-HasNotice :
      (p q : Page) (step : Step E p q)
      → IsQuiet E p q step
      → HasNotice p.client
      → HasNotice q.client
  step_keeps-HasNotice p _ (send _ _ _ _ _ _) quiet h = h
  step_keeps-HasNotice p _ (receive call late reply _ _) quiet h =
      ⊎_elim (λ e. subst HasNotice (sym e) h)
        (λ e. subst HasNotice (sym e) (expire-HasNotice call.session p.client))
        (receive_cases call late reply p.client)
  step_keeps-HasNotice p _ (set_token _ _) quiet h = absurd quiet
  step_keeps-HasNotice p _ (clear_token _) quiet h = unfold clear_admin_token in h
  step_keeps-HasNotice p _ (fetch_session reply _) quiet h =
      fetch_session-HasNotice reply p.client h
  step_keeps-HasNotice p _ (logout reply _) quiet h =
      ⊎_elim (λ e. subst HasNotice (sym e) h)
        (λ e. subst HasNotice (sym e) (closed-HasNotice p.client h)) (logout_cases reply p.client)
  step_keeps-HasNotice p _ (consume _) quiet h = absurd quiet

  step_keeps-IsLoggedOut :
      (p q : Page) (step : Step E p q)
      → IsLoginFree E p q step
      → IsLoggedOut p.client
      → IsLoggedOut q.client
  step_keeps-IsLoggedOut p _ (send _ _ _ _ _ _) free h = h
  step_keeps-IsLoggedOut p _ (receive call late reply _ _) free h =
      ⊎_elim (λ e. subst IsLoggedOut (sym e) h)
        (λ e. subst IsLoggedOut (sym e) (expire-IsLoggedOut call.session p.client h))
        (receive_cases call late reply p.client)
  step_keeps-IsLoggedOut p _ (set_token _ _) free h = unfold set_admin_token in h
  step_keeps-IsLoggedOut p _ (clear_token _) free h = unfold clear_admin_token in h
  step_keeps-IsLoggedOut p _ (fetch_session _ _) free h = absurd free
  step_keeps-IsLoggedOut p _ (logout reply _) free h =
      ⊎_elim (λ e. subst IsLoggedOut (sym e) h)
        (λ e. subst IsLoggedOut (sym e) (closed-IsLoggedOut p.client)) (logout_cases reply p.client)
  step_keeps-IsLoggedOut p _ (consume _) free h = unfold consume_pending_admin_auth_message in h

-- The client after `req` has received a 401 for a call.
abbrev pub expired : {E : Type 0} → Call → Bool → Response E Json → Page → Page
expired call late res p = record p { client = (req_receive call late (answered res) p.client).0 }

expired_eq :
    {E : Type 0} (call : Call) (late : Bool) (res : Response E Json) (p : Page)
    → res.status ≡ 401
    → (expired call late res p).client ≡ expire call.session p.client
unfolding req_receive on_reply
expired_eq call late res p e = rw e refl

-- Behind a 401 to any call of `req`, and whatever happens then but for a token that is set and a
-- notice that is consumed, in any order, a subscriber that comes late finds a notice to consume;
-- a second one finds none.
pub consume-notice :
    {E : Type 0} (call : Call) (late : Bool) (res : Response E Json) (p q : Page)
    → res.status ≡ 401
    → Run E (IsQuiet E) (expired call late res p) q
    → ((consume_pending_admin_auth_message q.client).0 ≢ none)
      × ((consume_pending_admin_auth_message (consume_pending_admin_auth_message q.client).1).0
          ≡ none)
unfolding consume_pending_admin_auth_message
consume-notice {E} call late res p q e run = (
  run_keeps E (IsQuiet E) (λ r. HasNotice r.client) step_keeps-HasNotice _ q run
      (subst HasNotice (sym (expired_eq call late res p e))
        (expire-HasNotice call.session p.client)),
  refl,
)

-- Behind a 401 to a call that was sent with a session, the client has no session until one is
-- fetched, whatever else happens and whichever calls of the old session are still answered.
pub expired-IsLoggedOut :
    {E : Type 0} (call : Call) (late : Bool) (res : Response E Json) (p q : Page)
    → call.session ≢ none
    → res.status ≡ 401
    → Run E (IsLoginFree E) (expired call late res p) q
    → q.client.current_admin_session ≡ none
expired-IsLoggedOut {E} call late res p q with_session e run =
    run_keeps E (IsLoginFree E) (λ r. IsLoggedOut r.client) step_keeps-IsLoggedOut _ q run
      (subst IsLoggedOut (sym (expired_eq call late res p e))
        (expired_session-IsLoggedOut call.session p.client with_session))
