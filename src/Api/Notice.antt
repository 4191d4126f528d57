-- ===== src/Api/Notice.antt =====
-- The session and the pending notice, over any sequence of what the panel does with the client.
use mathlib.Core.List.{Memᴰ}
use tenancit.Base.{
  ◌≡◌, ◌≢◌, ◌⊎◌, inl, inr, refl, Bool, List, ◌∷◌, Option, none, some, Text, ◌==◌, Bool-cases,
}
use tenancit.BasePath.Defs.{ok}
use tenancit.Api.Store.{
  AdminSession, Client, clear_admin_token, set_admin_token, notify_admin_auth_required,
  consume_pending_admin_auth_message,
}
use tenancit.Api.Request.{Init, Call, req_send}
use tenancit.Api.Receive.{Json, Reply, answered, rejected, expire, on_reply, req_receive}
use tenancit.Api.Session.{fetch_admin_session_receive, logout_admin_session_receive}

-- The client, and the calls of `req` that wait for their replies.
pub record Page : Type 0 where
  pub client : Client
  pub waiting : List Call

abbrev pub HasNotice : Client → Type 0
HasNotice s = s.pending_admin_auth_message ≢ none

abbrev pub IsLoggedOut : Client → Type 0
IsLoggedOut s = s.current_admin_session ≡ none

pub expire-HasNotice : (session : Option AdminSession) (s : Client) → HasNotice (expire session s)
unfolding expire notify_admin_auth_required
expire-HasNotice none s e = cc
expire-HasNotice (some _) s e = cc

module _ (E : Type 0) where
  -- One thing that happens: a call is sent, a reply comes for any call that was sent, the token is
  -- set or removed, the session is fetched or closed, or the notice is consumed.
  pub data Step : Page → Page → Type 0 where
    send :
        (content : Option Text) (path : Text) (init : Init) (call : Call) (p : Page)
        → req_send content path init p.client ≡ ok call
        → Step p (record p { waiting = call ∷ p.waiting })
    receive :
        (call : Call) (timed_out : Bool) (reply : Reply E Json) (p : Page)
        → Memᴰ call p.waiting
        → Step p (record p { client = (req_receive call timed_out reply p.client).0 })
    set_token :
        (token : Text) (p : Page) → Step p (record p { client = set_admin_token token p.client })
    clear_token : (p : Page) → Step p (record p { client = clear_admin_token p.client })
    fetch_session :
        (reply : Reply E AdminSession) (p : Page)
        → Step p (record p { client = (fetch_admin_session_receive reply p.client).0 })
    logout :
        (reply : Reply E Unit) (p : Page)
        → Step p (record p { client = (logout_admin_session_receive reply p.client).0 })
    consume :
        (p : Page) → Step p (record p { client = (consume_pending_admin_auth_message p.client).1 })

  -- A sequence of steps of a given kind.
  pub data Run (P : (p q : Page) → Step p q → Type 0) : Page → Page → Type 0 where
    still : (p : Page) → Run P p p
    further : (p q r : Page) → Run P p q → (step : Step q r) → P q r step → Run P p r

  -- Neither is the notice consumed nor a token set.
  abbrev pub IsQuiet : (p q : Page) → Step p q → Type 0
  IsQuiet _ _ (send _ _ _ _ _ _) = Unit
  IsQuiet _ _ (receive _ _ _ _ _) = Unit
  IsQuiet _ _ (set_token _ _) = ⊥
  IsQuiet _ _ (clear_token _) = Unit
  IsQuiet _ _ (fetch_session _ _) = Unit
  IsQuiet _ _ (logout _ _) = Unit
  IsQuiet _ _ (consume _) = ⊥

  -- No session is fetched.
  abbrev pub IsLoginFree : (p q : Page) → Step p q → Type 0
  IsLoginFree _ _ (send _ _ _ _ _ _) = Unit
  IsLoginFree _ _ (receive _ _ _ _ _) = Unit
  IsLoginFree _ _ (set_token _ _) = Unit
  IsLoginFree _ _ (clear_token _) = Unit
  IsLoginFree _ _ (fetch_session _ _) = ⊥
  IsLoginFree _ _ (logout _ _) = Unit
  IsLoginFree _ _ (consume _) = Unit

  -- What holds at the start and is kept by the steps of the kind holds at the end.
  pub run_keeps :
      (P : (p q : Page) → Step p q → Type 0) (I : Page → Type 0)
      → ((p q : Page) (step : Step p q) → P p q step → I p → I q)
      → (p q : Page) → Run P p q
      → I p
      → I q
  run_keeps P I keeps p _ (still _) h = h
  run_keeps P I keeps p _ (further _ q r run step kind) h =
      keeps q r step kind (run_keeps P I keeps p q run h)

module _ {E : Type 0} where
  -- The client behind a reply: expired on a 401, else as it was.
  pub receive_cases :
      (call : Call) (timed_out : Bool) (reply : Reply E Json) (s : Client)
      → ((req_receive call timed_out reply s).0 ≡ s)
        ⊎ ((req_receive call timed_out reply s).0 ≡ expire call.session s)
  unfolding req_receive on_reply
  receive_cases call timed_out (rejected e) s = inl refl
  receive_cases call timed_out (answered res) s = elim (Bool-cases (res.status == 401)) [
    | inl hit ↦ rw hit (inr refl)
    | inr miss ↦ rw miss (inl refl)
  ]
