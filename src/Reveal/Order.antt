-- ===== src/Reveal/Order.antt =====
-- Controllers are given out in order, and no waiting call is of a later epoch than the hook.
use native.Mathlib.Nat.{le_refl}
use tenancit.Base.{
  ℕ, ◌+◌, ◌≤◌, ◌<◌, ◌≡◌, refl, Bool, true, false, if◌then◌else◌, not, ◌&&◌, ◌||◌, ◌==◌, Option,
  none, some, arith, String, List, All, All-map, All-filter, filter, Bool-cases, inl, inr,
}
use tenancit.Reveal.Defs.{
  Request, Hook, is_aborted, abort_current, is_current, cancel_and_erase, hide, show_request, show,
  settle, resolve, reject, change_tenant, change_token, write_elsewhere, storage_event, unmount,
  remount, start, Step, shown, hidden, resolved, rejected, tenant_changed, token_changed,
  written_elsewhere, stored, unmounted, remounted, Reach, here, next,
}

-- Controllers are known by numbers given out in order, and no waiting call is of a later epoch.
pub record Ordered (aborted : List ℕ) (next_controller : ℕ) (controller : Option ℕ)
    (pending : List Request) (epoch : ℕ) : Type 0 where
  pub below : All (λ c. c < next_controller) aborted
  pub current : (c : ℕ) → controller ≡ some c → c < next_controller
  pub epochs : All (λ (p : Request). p.epoch ≤ epoch) pending

abort_current-below :
    (n : ℕ) (o : Option ℕ) (cs : List ℕ)
    → ((c : ℕ) → o ≡ some c → c < n)
    → All (λ c. c < n) cs
    → All (λ c. c < n) (abort_current o cs)
abort_current-below n none cs h k = k
abort_current-below n (some c) cs h k = (h c refl, k)

module _ {R E : Type 0} where
  abbrev pub IsOrdered : Hook R E → Type 0
  IsOrdered s = Ordered s.aborted s.next_controller s.controller s.pending s.epoch

  pub cancel_and_erase-IsOrdered :
      (b : Bool) (s : Hook R E) → IsOrdered s → IsOrdered (cancel_and_erase b s)
  unfolding cancel_and_erase
  cancel_and_erase-IsOrdered b s h =
      let cancelled : Ordered (abort_current s.controller s.aborted) s.next_controller none
          s.pending (s.epoch + 1) =
        record {
          below = abort_current-below s.next_controller s.controller s.aborted h.current h.below;
          current = λ c e. cc;
          epochs = All-map _ _ s.pending (λ p le. omega arith) h.epochs;
        } in
      elim (Bool-cases (not b || not s.mounted)) [
        | inl silent ↦ rw silent cancelled
        | inr erased ↦ rw erased cancelled
      ]

  settle-IsOrdered : (q : Request) (s : Hook R E) → IsOrdered s → IsOrdered (settle q s)
  unfolding settle
  settle-IsOrdered q s h =
      let settled : Ordered s.aborted s.next_controller s.controller
          (filter (λ (p : Request). not (p.epoch == q.epoch)) s.pending) s.epoch =
        record {
          below = h.below;
          current = h.current;
          epochs = All-filter _ _ s.pending h.epochs;
        } in
      elim (Bool-cases (s.mounted && q.epoch == s.epoch)) [
        | inl last ↦ rw last settled
        | inr other ↦ rw other settled
      ]

  if-IsOrdered :
      (b : Bool) (s t : Hook R E) → IsOrdered s → IsOrdered t → IsOrdered (if b then s else t)
  if-IsOrdered true s t h k = h
  if-IsOrdered false s t h k = k

  show-IsOrdered : (tenant_id : String) (s : Hook R E) → IsOrdered s → IsOrdered (show tenant_id s)
  unfolding show show_request
  show-IsOrdered tenant_id s h =
      let erased = cancel_and_erase-IsOrdered true s h in
      record {
        below = All-map _ _ _ (λ c lt. omega arith) erased.below;
        current = λ c e.
            let same : (show_request tenant_id s).controller ≡ c = cc in rw (← same) (omega arith);
        epochs = (le_refl _, erased.epochs);
      }

  resolve-IsOrdered :
      (q : Request) (r : R) (s : Hook R E) → IsOrdered s → IsOrdered (resolve q r s).0
  unfolding resolve
  resolve-IsOrdered q r s h = elim (Bool-cases (is_current s q)) [
    | inl current ↦
        rw current (settle-IsOrdered q (record s { resources = some r; error = none }) h)
    | inr stale ↦ rw stale (settle-IsOrdered q s h)
  ]

  reject-IsOrdered :
      (q : Request) (e : E) (b : Bool) (s : Hook R E) → IsOrdered s → IsOrdered (reject q e b s).0
  unfolding reject
  reject-IsOrdered q e b s h =
      elim (Bool-cases
        ((is_aborted s q.controller || b) || not s.mounted || not (q.epoch == s.epoch))) [
          | inl dropped ↦ rw dropped (settle-IsOrdered q s h)
          | inr kept ↦
              rw kept (settle-IsOrdered q (record s { resources = none; error = some e }) h)
        ]

module _ {R E : Type 0} (serves : Request → R → Type 0) where
  Step-IsOrdered : {s t : Hook R E} → Step serves s t → IsOrdered s → IsOrdered t
  Step-IsOrdered (shown {s} tenant_id) h = show-IsOrdered tenant_id s h
  Step-IsOrdered (hidden {s}) h = unfold hide in cancel_and_erase-IsOrdered true s h
  Step-IsOrdered (resolved {s} q r _ _) h = resolve-IsOrdered q r s h
  Step-IsOrdered (rejected {s} q e b _) h = reject-IsOrdered q e b s h
  Step-IsOrdered (tenant_changed {s} tenant_id) h =
      unfold change_tenant in cancel_and_erase-IsOrdered true (record s { tenant = tenant_id }) h
  Step-IsOrdered (token_changed {s} token) h =
      unfold change_token in
      if-IsOrdered s.mounted _ _ (cancel_and_erase-IsOrdered true (record s { token = token }) h) h
  Step-IsOrdered (written_elsewhere {s} token) h = unfold write_elsewhere in h
  Step-IsOrdered (stored {s} true) h =
      unfold storage_event in
      if-IsOrdered s.mounted _ _
        (cancel_and_erase-IsOrdered true (record s { in_flight = false }) h) h
  Step-IsOrdered (stored {s} false) h = unfold storage_event in h
  Step-IsOrdered (unmounted {s}) h =
      unfold unmount in cancel_and_erase-IsOrdered false (record s { mounted = false }) h
  Step-IsOrdered (remounted {s} _ _ _) h = unfold remount in cancel_and_erase-IsOrdered true s h

  pub Reach-IsOrdered :
      (tenant_id token : String) {s : Hook R E}
      → Reach serves (start tenant_id token) s
      → IsOrdered s
  Reach-IsOrdered tenant_id token here =
      unfold start in record { below = tt; current = λ c e. cc; epochs = tt }
  Reach-IsOrdered tenant_id token (next path step) =
      Step-IsOrdered step (Reach-IsOrdered tenant_id token path)
