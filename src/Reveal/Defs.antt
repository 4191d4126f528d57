-- ===== src/Reveal/Defs.antt =====
-- The state of the hook, its handlers, and the events that call them. `R` is the type of a
-- response, `E` that of an error, and `serves q r` says that the server answered the request `q`
-- with `r`: both come from outside the hook. An abort controller is known by a number.
use mathlib.Core.List.{Memᴰ}
use text.Mathlib.Text.{◌==◌ as str_eq}
use tenancit.Base.{
  ℕ, ◌+◌, ◌≡◌, Bool, true, false, not, ◌&&◌, ◌||◌, List, [], ◌∷◌, Option, none, some, String, ◌==◌,
  if◌then◌else◌, any, filter,
}

-- What a call of `show` holds across its `await`.
pub record Request : Type 0 where
  pub tenant : String
  pub epoch : ℕ
  pub credential : String
  pub controller : ℕ

-- The states and refs of the hook, with what it shares: the stored token, the calls of `show` that
-- wait, the aborted controllers, and whether another tab wrote the token with its storage event
-- still to come.
pub record Hook (R E : Type 0) : Type 0 where
  pub resources : Option R
  pub is_loading : Bool
  pub error : Option E
  pub controller : Option ℕ
  pub epoch : ℕ
  pub mounted : Bool
  pub tenant : String
  pub token : String
  pub pending : List Request
  pub aborted : List ℕ
  pub next_controller : ℕ
  pub in_flight : Bool

-- `controllerRef.current?.abort()`
abbrev pub abort_current : Option ℕ → List ℕ → List ℕ
abort_current none aborted = aborted
abort_current (some c) aborted = c ∷ aborted

module _ {R E : Type 0} where
  abbrev pub is_aborted : Hook R E → ℕ → Bool
  is_aborted s c = any (λ a. a == c) s.aborted

  unfoldable pub cancel_and_erase : Bool → Hook R E → Hook R E
  cancel_and_erase update_state s =
      let cancelled = record s {
        epoch = s.epoch + 1;
        aborted = abort_current s.controller s.aborted;
        controller = none;
      } in
      if not update_state || not s.mounted
      then cancelled
      else record cancelled { resources = none; error = none; is_loading = false }

  unfoldable pub hide : Hook R E → Hook R E
  unfolding cancel_and_erase
  hide s = cancel_and_erase true s

  -- `show` up to its `await`, for the tenant that the callback closes over.
  unfoldable pub show_request : String → Hook R E → Request
  show_request tenant_id s =
      let erased = cancel_and_erase true s in
      record {
        tenant = tenant_id;
        epoch = erased.epoch;
        credential = erased.token;
        controller = erased.next_controller;
      }

  unfoldable pub show : String → Hook R E → Hook R E
  show tenant_id s =
      let erased = cancel_and_erase true s in
      let q = show_request tenant_id s in
      record erased {
        controller = some q.controller;
        next_controller = q.controller + 1;
        is_loading = true;
        pending = q ∷ erased.pending;
      }

  unfoldable pub is_current : Hook R E → Request → Bool
  is_current s q =
      s.mounted
      && not (is_aborted s q.controller)
      && q.epoch == s.epoch
      && str_eq s.tenant q.tenant
      && str_eq s.token q.credential

  -- The `finally` block; the call no longer waits.
  unfoldable pub settle : Request → Hook R E → Hook R E
  settle q s =
      let rest = filter (λ p. not (p.epoch == q.epoch)) s.pending in
      if s.mounted && q.epoch == s.epoch
      then record s { is_loading = false; pending = rest }
      else record s { pending = rest }

  -- `show` after its `await`: the hook, and the result of the promise.
  unfoldable pub resolve : Request → R → Hook R E → Hook R E × Bool
  unfolding settle
  resolve q r s =
      if is_current s q
      then (settle q (record s { resources = some r; error = none }), true)
      else (settle q s, false)

  -- The `catch` block; `by_abort` says that the error is an `AbortError`.
  unfoldable pub reject : Request → E → Bool → Hook R E → Hook R E × Bool
  unfolding settle
  reject q e by_abort s =
      if (is_aborted s q.controller || by_abort) || not s.mounted || not (q.epoch == s.epoch)
      then (settle q s, false)
      else (settle q (record s { resources = none; error = some e }), false)

  -- The layout effect of a render with another tenant.
  unfoldable pub change_tenant : String → Hook R E → Hook R E
  unfolding cancel_and_erase
  change_tenant tenant_id s = cancel_and_erase true (record s { tenant = tenant_id })

  -- `setAdminToken` or `clearAdminToken` in this tab: the store, then the event, which only a
  -- mounted hook hears.
  unfoldable pub change_token : String → Hook R E → Hook R E
  unfolding cancel_and_erase
  change_token token s =
      let stored = record s { token = token } in
      if s.mounted then cancel_and_erase true stored else stored

  -- Another tab writes the token; the storage event of a key arrives later.
  unfoldable pub write_elsewhere : String → Hook R E → Hook R E
  write_elsewhere token s = record s { token = token; in_flight = true }

  unfoldable pub storage_event : Bool → Hook R E → Hook R E
  unfolding cancel_and_erase
  storage_event is_token_key s =
      if is_token_key
      then (let heard = record s { in_flight = false } in
          if s.mounted then cancel_and_erase true heard else heard)
      else s

  unfoldable pub unmount : Hook R E → Hook R E
  unfolding cancel_and_erase
  unmount s = cancel_and_erase false (record s { mounted = false })

  -- The second setup of StrictMode: the layout effect, then the effects.
  unfoldable pub remount : Hook R E → Hook R E
  unfolding cancel_and_erase
  remount s = record (cancel_and_erase true s) { mounted = true }

  unfoldable pub start : String → String → Hook R E
  start tenant_id token = record {
    resources = none;
    is_loading = false;
    error = none;
    controller = none;
    epoch = 1;
    mounted = true;
    tenant = tenant_id;
    token = token;
    pending = [];
    aborted = [];
    next_controller = 0;
    in_flight = false;
  }

-- What may happen next. React repeats the setup of an effect only for a component that has just
-- been mounted, so nothing is revealed or loading at a remount.
module _ {R E : Type 0} (serves : Request → R → Type 0) where
  pub data Step : Hook R E → Hook R E → Type 0 where
    shown : {s : Hook R E} (tenant_id : String) → Step s (show tenant_id s)
    hidden : {s : Hook R E} → Step s (hide s)
    resolved :
        {s : Hook R E} (q : Request) (r : R)
        → Memᴰ q s.pending
        → serves q r
        → Step s (resolve q r s).0
    rejected :
        {s : Hook R E} (q : Request) (e : E) (by_abort : Bool)
        → Memᴰ q s.pending
        → Step s (reject q e by_abort s).0
    tenant_changed : {s : Hook R E} (tenant_id : String) → Step s (change_tenant tenant_id s)
    token_changed : {s : Hook R E} (token : String) → Step s (change_token token s)
    written_elsewhere : {s : Hook R E} (token : String) → Step s (write_elsewhere token s)
    stored : {s : Hook R E} (is_token_key : Bool) → Step s (storage_event is_token_key s)
    unmounted : {s : Hook R E} → Step s (unmount s)
    remounted :
        {s : Hook R E}
        → s.mounted ≡ false
        → s.resources ≡ none
        → s.is_loading ≡ false
        → Step s (remount s)

  pub data Reach (s : Hook R E) : Hook R E → Type 0 where
    here : Reach s s
    next : {t u : Hook R E} → Reach s t → Step t u → Reach s u
