-- ===== src/Reveal/Progress.antt =====
-- Answers that count are shown and late ones are dropped.
use mathlib.Core.List.{Memᴰ}
use text.Mathlib.TextPositions.{eq_refl}
use tenancit.Base.{
  ℕ, ◌+◌, ◌≤◌, ◌<◌, ◌≡◌, true, false, ◌==◌, none, some, arith, String, All-map, All-of-mem,
  any-eq-false, ◌∙◌,
}
use tenancit.Reveal.Order.{IsOrdered, cancel_and_erase-IsOrdered, Reach-IsOrdered}
use tenancit.Reveal.Safety.{is_current_facts}
use tenancit.Reveal.Defs.{
  Request, Hook, is_aborted, is_current, cancel_and_erase, hide, show_request, show, settle,
  resolve, change_tenant, change_token, start, Reach,
}

-- What erasing leaves alone.
record Kept {R E : Type 0} (s t : Hook R E) : Type 0 where
  mounted : t.mounted ≡ s.mounted
  tenant : t.tenant ≡ s.tenant
  token : t.token ≡ s.token

cancel_and_erase-Kept : {R E : Type 0} (s : Hook R E) → Kept s (cancel_and_erase true s)
unfolding cancel_and_erase
cancel_and_erase-Kept s = ground arith

lt-ne : {n : ℕ} (c : ℕ) → c < n → (c == n) ≡ false
lt-ne c h = ground arith

==_refl : (n : ℕ) → (n == n) ≡ true
==_refl n = ground arith

module _ {R E : Type 0} (s : Hook R E) (ordered : IsOrdered s) where
  no_abort : is_aborted (cancel_and_erase true s) (cancel_and_erase true s).next_controller ≡ false
  no_abort =
      any-eq-false _ _ (All-map _ _ _ lt-ne (cancel_and_erase-IsOrdered true s ordered).below)

  show_request-is_current :
      s.mounted ≡ true → is_current (show s.tenant s) (show_request s.tenant s) ≡ true
  unfolding is_current show show_request
  show_request-is_current m =
      let kept = cancel_and_erase-Kept s in
      let alive = kept.mounted ∙ m in
      rw (alive, no_abort, kept.tenant, kept.token, ==_refl, eq_refl, eq_refl)

  stale_after_erase :
      (t : Hook R E) (q : Request)
      → Memᴰ q s.pending
      → t.epoch ≡ s.epoch + 1
      → is_current t q ≡ false
  unfolding is_current
  stale_after_erase t q waits e =
      let old = All-of-mem (λ (p : Request). p.epoch ≤ s.epoch) s.pending ordered.epochs waits in
      let other : (q.epoch == t.epoch) ≡ false = ground arith in ground arith

module _ {R E : Type 0} (t : Hook R E) (q : Request) (r : R) where
  resolve_current :
      is_current t q ≡ true
      → ((resolve q r t).1 ≡ true)
        × ((resolve q r t).0.resources ≡ some r)
        × ((resolve q r t).0.is_loading ≡ false)
        × ((resolve q r t).0.error ≡ none)
  unfolding resolve settle
  resolve_current current =
      let facts = is_current_facts t q current in
      let mounted = facts.mounted in let epoch = facts.epoch in ground arith

  resolve_stale :
      is_current t q ≡ false
      → t.resources ≡ none
      → ((resolve q r t).1 ≡ false) × ((resolve q r t).0.resources ≡ none)
  unfolding resolve settle
  resolve_stale stale nothing = ground arith

-- The epoch and the view after erasing a mounted hook.
erased :
    {R E : Type 0} (s : Hook R E)
    → s.mounted ≡ true
    → ((cancel_and_erase true s).epoch ≡ s.epoch + 1) × ((cancel_and_erase true s).resources ≡ none)
unfolding cancel_and_erase
erased s m = ground arith

change_token_erased :
    {R E : Type 0} (s : Hook R E) (other : String)
    → s.mounted ≡ true
    → ((change_token other s).epoch ≡ s.epoch + 1) × ((change_token other s).resources ≡ none)
unfolding change_token
change_token_erased s other m = ground arith

-- A hook that is mounted answers the last call of `show`: the response is shown, the promise
-- gives true, and the loading flag and the error are cleared.
pub last_answer_shown :
    {R E : Type 0} (serves : Request → R → Type 0) (tenant_id token : String) {s : Hook R E}
    → Reach serves (start tenant_id token) s
    → (r : R) → s.mounted ≡ true
    → ((resolve (show_request s.tenant s) r (show s.tenant s)).1 ≡ true)
      × ((resolve (show_request s.tenant s) r (show s.tenant s)).0.resources ≡ some r)
      × ((resolve (show_request s.tenant s) r (show s.tenant s)).0.is_loading ≡ false)
      × ((resolve (show_request s.tenant s) r (show s.tenant s)).0.error ≡ none)
last_answer_shown serves tenant_id token {s} path r m =
    let ordered = Reach-IsOrdered serves tenant_id token path in
    let current = show_request-is_current s ordered m in
    resolve_current (show s.tenant s) (show_request s.tenant s) r current

-- After the hook is hidden, gets another tenant or a new token, an answer to any call that waited
-- is dropped: its promise gives false and a mounted hook shows nothing.
pub late_answer_dropped :
    {R E : Type 0} (serves : Request → R → Type 0) (tenant_id token : String) {s : Hook R E}
    → Reach serves (start tenant_id token) s
    → (q : Request) → Memᴰ q s.pending
    → s.mounted ≡ true
    → (r : R) (other : String)
    → (((resolve q r (hide s)).1 ≡ false) × ((resolve q r (hide s)).0.resources ≡ none))
      × (((resolve q r (change_tenant other s)).1 ≡ false)
          × ((resolve q r (change_tenant other s)).0.resources ≡ none))
      × (((resolve q r (change_token other s)).1 ≡ false)
          × ((resolve q r (change_token other s)).0.resources ≡ none))
unfolding hide change_tenant
late_answer_dropped {R} {E} serves tenant_id token {s} path q waits m r other =
    let ordered = Reach-IsOrdered serves tenant_id token path in
    let drop = λ (t : Hook R E) (n : t.epoch ≡ s.epoch + 1) (e : t.resources ≡ none).
      resolve_stale t q r (stale_after_erase s ordered t q waits n) e in
    let hidden = erased s m in
    let moved = erased (record s { tenant = other }) m in
    let renewed = change_token_erased s other m in
    (
      drop (cancel_and_erase true s) hidden.0 hidden.1,
      drop (cancel_and_erase true (record s { tenant = other })) moved.0 moved.1,
      drop (change_token other s) renewed.0 renewed.1,
    )
