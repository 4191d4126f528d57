-- ===== src/Reveal/Loading.antt =====
-- A loading hook waits for an answer.
use mathlib.Core.List.{Memᴰ}
use tenancit.Base.{
  ℕ, ◌≡◌, refl, Bool, true, false, if◌then◌else◌, not, ◌&&◌, ◌||◌, ◌==◌, none, some, arith, String,
  List, mem-filter, Bool-cases, inl, inr,
}
use tenancit.Reveal.Defs.{
  Request, Hook, is_aborted, is_current, cancel_and_erase, hide, show_request, show, settle,
  resolve, reject, change_tenant, change_token, write_elsewhere, storage_event, unmount, remount,
  start, Step, shown, hidden, resolved, rejected, tenant_changed, token_changed, written_elsewhere,
  stored, unmounted, remounted, Reach, here, next,
}

-- A loading flag that is set while the hook is mounted has a call that will clear it.
abbrev Waits : (mounted is_loading : Bool) (pending : List Request) (epoch : ℕ) → Type 0
Waits mounted is_loading pending epoch =
    mounted ≡ true → is_loading ≡ true → (q : Request) × Memᴰ q pending × (q.epoch ≡ epoch)

module _ {R E : Type 0} where
  abbrev IsWaiting : Hook R E → Type 0
  IsWaiting s = Waits s.mounted s.is_loading s.pending s.epoch

  settle-IsWaiting : (q : Request) (s : Hook R E) → IsWaiting s → IsWaiting (settle q s)
  unfolding settle
  settle-IsWaiting q s h = elim (Bool-cases (s.mounted && q.epoch == s.epoch)) [
    | inl last ↦ rw last (λ m loading. cc)
    | inr other ↦ rw other (λ m loading.
        let (p, waits, last) = h m loading in
        (
          p,
          mem-filter (λ (x : Request). not (x.epoch == q.epoch)) s.pending waits (ground arith),
          last,
        ))
  ]

  erase-IsWaiting : (s : Hook R E) → IsWaiting (cancel_and_erase true s)
  unfolding cancel_and_erase
  erase-IsWaiting s m loading = ground arith

  if-IsWaiting :
      (b : Bool) (s t : Hook R E)
      → (b ≡ true → IsWaiting s)
      → (b ≡ false → IsWaiting t)
      → IsWaiting (if b then s else t)
  if-IsWaiting true s t h k = h refl
  if-IsWaiting false s t h k = k refl

  resolve-IsWaiting :
      (q : Request) (r : R) (s : Hook R E) → IsWaiting s → IsWaiting (resolve q r s).0
  unfolding resolve
  resolve-IsWaiting q r s h = elim (Bool-cases (is_current s q)) [
    | inl current ↦
        rw current (settle-IsWaiting q (record s { resources = some r; error = none }) h)
    | inr stale ↦ rw stale (settle-IsWaiting q s h)
  ]

  reject-IsWaiting :
      (q : Request) (e : E) (b : Bool) (s : Hook R E) → IsWaiting s → IsWaiting (reject q e b s).0
  unfolding reject
  reject-IsWaiting q e b s h =
      elim (Bool-cases
        ((is_aborted s q.controller || b) || not s.mounted || not (q.epoch == s.epoch))) [
          | inl dropped ↦ rw dropped (settle-IsWaiting q s h)
          | inr kept ↦
              rw kept (settle-IsWaiting q (record s { resources = none; error = some e }) h)
        ]

  show-IsWaiting : (tenant_id : String) (s : Hook R E) → IsWaiting (show tenant_id s)
  unfolding show show_request
  show-IsWaiting tenant_id s m loading = (show_request tenant_id s, Memᴰ.head refl, refl)

module _ {R E : Type 0} (serves : Request → R → Type 0) where
  Step-IsWaiting : {s t : Hook R E} → Step serves s t → IsWaiting s → IsWaiting t
  Step-IsWaiting (shown {s} tenant_id) h = show-IsWaiting tenant_id s
  Step-IsWaiting (hidden {s}) h = unfold hide in erase-IsWaiting s
  Step-IsWaiting (resolved {s} q r _ _) h = resolve-IsWaiting q r s h
  Step-IsWaiting (rejected {s} q e b _) h = reject-IsWaiting q e b s h
  Step-IsWaiting (tenant_changed {s} tenant_id) h =
      unfold change_tenant in erase-IsWaiting (record s { tenant = tenant_id })
  Step-IsWaiting (token_changed {s} token) h =
      unfold change_token in
      if-IsWaiting s.mounted _ _ (λ _. erase-IsWaiting (record s { token = token }))
        (λ out m loading. cc)
  Step-IsWaiting (written_elsewhere {s} token) h = unfold write_elsewhere in h
  Step-IsWaiting (stored {s} true) h =
      unfold storage_event in
      if-IsWaiting s.mounted _ _ (λ _. erase-IsWaiting (record s { in_flight = false }))
        (λ out m loading. cc)
  Step-IsWaiting (stored {s} false) h = unfold storage_event in h
  Step-IsWaiting (unmounted {s}) h = unfold unmount cancel_and_erase in λ m loading. cc
  Step-IsWaiting (remounted {s} out nothing idle) h =
      unfold remount cancel_and_erase in λ m loading. ground arith

-- Whenever a mounted hook shows its loading flag, a call of the current epoch still waits: no
-- order of events leaves the flag set with nothing to clear it.
pub loading-waits :
    {R E : Type 0} (serves : Request → R → Type 0) (tenant_id token : String) {s : Hook R E}
    → Reach serves (start tenant_id token) s
    → s.mounted ≡ true
    → s.is_loading ≡ true
    → (q : Request) × Memᴰ q s.pending × (q.epoch ≡ s.epoch)
loading-waits serves tenant_id token here = unfold start in λ m loading. cc
loading-waits serves tenant_id token (next path step) =
    Step-IsWaiting serves step (loading-waits serves tenant_id token path)
