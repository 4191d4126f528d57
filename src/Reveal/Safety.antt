-- ===== src/Reveal/Safety.antt =====
-- What a mounted hook shows belongs to its tenant, its last request and the stored token.
use text.Mathlib.TextEquality.{eq_iff}
use tenancit.Base.{
  ◌≡◌, Bool, true, false, none, some, arith, String, not, ◌||◌, ◌==◌, Bool-cases, inl, inr, sym,
  ◌∙◌,
}
use tenancit.Reveal.Defs.{
  is_current, is_aborted, Request, Hook, cancel_and_erase, hide, show_request, show, settle,
  resolve, reject, change_tenant, change_token, write_elsewhere, storage_event, unmount, remount,
  start, Step, shown, hidden, resolved, rejected, tenant_changed, token_changed, written_elsewhere,
  stored, unmounted, remounted, Reach, here, next,
}

pub record CurrentFacts {R E : Type 0} (s : Hook R E) (q : Request) : Type 0 where
  pub mounted : s.mounted ≡ true
  pub tenant : q.tenant ≡ s.tenant
  pub epoch : q.epoch ≡ s.epoch
  pub credential : q.credential ≡ s.token

pub is_current_facts :
    {R E : Type 0} (s : Hook R E) (q : Request) → is_current s q ≡ true → CurrentFacts s q
unfolding is_current
is_current_facts s q h = ground (arith, eq_iff s.tenant q.tenant, eq_iff s.token q.credential)

-- Two states that differ at most in their loading flag, error, controllers and waiting calls.
record IsSameView {R E : Type 0} (s t : Hook R E) : Type 0 where
  resources : t.resources ≡ s.resources
  mounted : t.mounted ≡ s.mounted
  tenant : t.tenant ≡ s.tenant
  epoch : t.epoch ≡ s.epoch
  token : t.token ≡ s.token
  in_flight : t.in_flight ≡ s.in_flight

settle-IsSameView : {R E : Type 0} (q : Request) (s : Hook R E) → IsSameView s (settle q s)
unfolding settle
settle-IsSameView q s = ground arith

module _ {R E : Type 0} (serves : Request → R → Type 0) where
  -- `r` answers a request of the current epoch for the current tenant, and of the stored token
  -- unless another tab has just written it.
  pub record IsFresh (s : Hook R E) (r : R) : Type 0 where
    pub request : Request
    pub answered : serves request r
    pub tenant : request.tenant ≡ s.tenant
    pub epoch : request.epoch ≡ s.epoch
    pub credential : s.in_flight ≡ false → request.credential ≡ s.token

  abbrev pub IsSafe : Hook R E → Type 0
  IsSafe s = (r : R) → s.mounted ≡ true → s.resources ≡ some r → IsFresh s r

  transfer-IsFresh : {s t : Hook R E} {r : R} → IsSameView s t → IsFresh s r → IsFresh t r
  transfer-IsFresh v f = record {
    request = f.request;
    answered = f.answered;
    tenant = f.tenant ∙ sym v.tenant;
    epoch = f.epoch ∙ sym v.epoch;
    credential = λ quiet. f.credential (sym v.in_flight ∙ quiet) ∙ sym v.token;
  }

  same_view-IsSafe : {s t : Hook R E} → IsSameView s t → IsSafe s → IsSafe t
  same_view-IsSafe v safe r m e =
      transfer-IsFresh v (safe r (sym v.mounted ∙ m) (sym v.resources ∙ e))

  answer-IsFresh :
      (s : Hook R E) (q : Request) (r : R)
      → serves q r
      → is_current s q ≡ true
      → IsFresh (record s { resources = some r; error = none }) r
  answer-IsFresh s q r answered current =
      let facts = is_current_facts s q current in
      record {
        request = q;
        answered = answered;
        tenant = facts.tenant;
        epoch = facts.epoch;
        credential = λ _. facts.credential;
      }

  answer-IsSafe :
      (s : Hook R E) (q : Request) (r : R)
      → serves q r
      → is_current s q ≡ true
      → IsSafe (record s { resources = some r; error = none })
  answer-IsSafe s q r answered current r' m e =
      let same : r ≡ r' = cc in rw (← same) (answer-IsFresh s q r answered current)

  resolve-IsSafe :
      (s : Hook R E) (q : Request) (r : R) → serves q r → IsSafe s → IsSafe (resolve q r s).0
  unfolding resolve
  resolve-IsSafe s q r answered safe = elim (Bool-cases (is_current s q)) [
    | inl current ↦ rw current (
        same_view-IsSafe (settle-IsSameView q (record s { resources = some r; error = none }))
          (answer-IsSafe s q r answered current))
    | inr stale ↦ rw stale (same_view-IsSafe (settle-IsSameView q s) safe)
  ]

  reject-IsSafe :
      (s : Hook R E) (q : Request) (e : E) (by_abort : Bool)
      → IsSafe s
      → IsSafe (reject q e by_abort s).0
  unfolding reject
  reject-IsSafe s q e by_abort safe =
      elim (Bool-cases
        ((is_aborted s q.controller || by_abort) || not s.mounted || not (q.epoch == s.epoch))) [
          | inl dropped ↦ rw dropped (same_view-IsSafe (settle-IsSameView q s) safe)
          | inr kept ↦ rw kept (
              same_view-IsSafe (settle-IsSameView q (record s { resources = none; error = some e }))
                (λ r m found. cc))
        ]

  erased-IsSafe : (s : Hook R E) → s.resources ≡ none → IsSafe s
  erased-IsSafe s nothing r m found = cc

  cancel_and_erase-IsSafe : (s : Hook R E) → IsSafe (cancel_and_erase true s)
  unfolding cancel_and_erase
  cancel_and_erase-IsSafe s r m found = ground arith

  Step-IsSafe : {s t : Hook R E} → Step serves s t → IsSafe s → IsSafe t
  Step-IsSafe (shown {s} tenant_id) safe =
      unfold show show_request cancel_and_erase in λ r m found. ground arith
  Step-IsSafe (hidden {s}) safe = unfold hide in cancel_and_erase-IsSafe s
  Step-IsSafe (resolved {s} q r _ answered) safe = resolve-IsSafe s q r answered safe
  Step-IsSafe (rejected {s} q e by_abort _) safe = reject-IsSafe s q e by_abort safe
  Step-IsSafe (tenant_changed {s} tenant_id) safe =
      unfold change_tenant in cancel_and_erase-IsSafe (record s { tenant = tenant_id })
  Step-IsSafe (token_changed {s} token) safe =
      unfold change_token cancel_and_erase in λ r m found. ground arith
  Step-IsSafe (written_elsewhere {s} token) safe =
      unfold write_elsewhere in
      λ r m found.
        let f = safe r m found in
        record {
          request = f.request;
          answered = f.answered;
          tenant = f.tenant;
          epoch = f.epoch;
          credential = λ quiet. cc;
        }
  Step-IsSafe (stored {s} true) safe =
      unfold storage_event cancel_and_erase in λ r m found. ground arith
  Step-IsSafe (stored {s} false) safe = unfold storage_event in safe
  Step-IsSafe (unmounted {s}) safe = unfold unmount cancel_and_erase in λ r m found. cc
  Step-IsSafe (remounted {s} out nothing idle) safe =
      unfold remount cancel_and_erase in λ r m found. ground arith

  start-IsSafe : (tenant_id token : String) → IsSafe (start tenant_id token)
  unfolding start
  start-IsSafe tenant_id token r m found = cc

-- Whatever the events and their order, the resources that a mounted hook shows are the server's
-- answer to a request of the current epoch, for the tenant now rendered, and made under the token
-- now stored, unless another tab has just written the token and its event is still to come.
pub reachable-IsSafe :
    {R E : Type 0} (serves : Request → R → Type 0) (tenant_id token : String) {s : Hook R E}
    → Reach serves (start tenant_id token) s
    → (r : R) → s.mounted ≡ true
    → s.resources ≡ some r
    → IsFresh serves s r
reachable-IsSafe serves tenant_id token here = start-IsSafe serves tenant_id token
reachable-IsSafe serves tenant_id token (next path step) =
    Step-IsSafe serves step (reachable-IsSafe serves tenant_id token path)
