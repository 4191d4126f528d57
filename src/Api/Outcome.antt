-- ===== src/Api/Outcome.antt =====
-- What comes of a reply.
use mathlib.Core.Logic.{⊎_elim}
use tenancit.Base.{
  ℕ, ◌≤◌, ◌≡◌, ◌≢◌, ◌↔◌, ◌⊎◌, inl, inr, refl, subst, Bool, true, false, arith, Option, none, some,
  ◌==◌, ==_iff, Bool-cases,
}
use tenancit.Api.Store.{AdminSession, Client}
use tenancit.Api.Request.{Call}
use tenancit.Api.Receive.{
  Json, Body, parsed, unread, Response, Reply, answered, rejected, Answer, returns, fails, is_ok,
  read_json, read_response, caught, on_reply, req_receive,
}

is_ok_iff : (n : ℕ) → (is_ok n ≡ true) ↔ ((200 ≤ n) × (n ≤ 299))
is_ok_iff n = ground arith

module _ {E : Type 0} where
  -- The value of a response that is read: undefined for 204, else its JSON.
  abbrev pub Holds : Response E Json → Option Json → Type 0
  Holds res v =
      (200 ≤ res.status)
      × (res.status ≤ 299)
      × (((res.status ≡ 204) × (v ≡ none))
          ⊎ ((res.status ≢ 204) × (j : Json) × (res.body ≡ parsed j) × (v ≡ some j)))

  caught-returns :
      {A : Type 0} (timed_out : Bool) (a : Answer E A) (v : A)
      → (caught timed_out a ≡ returns v) ↔ (a ≡ returns v)
  unfolding caught
  caught-returns timed_out (returns w) v = (λ h. h, λ h. h)
  caught-returns true (fails e) v = (λ h. cc, λ h. cc)
  caught-returns false (fails e) v = (λ h. cc, λ h. cc)

  read_json-returns :
      (b : Body E Json) (v : Option Json)
      → (read_json b ≡ returns v) ↔ ((j : Json) × (b ≡ parsed j) × (v ≡ some j))
  unfolding read_json
  read_json-returns (parsed j) v = (λ h. (j, refl, cc), λ (k, e, same). cc)
  read_json-returns (unread e) v = (λ h. cc, λ (k, e, same). cc)

  read_response-returns :
      (res : Response E Json) (v : Option Json) → (read_response res ≡ returns v) ↔ Holds res v
  unfolding read_response
  read_response-returns res v = elim (Bool-cases (is_ok res.status)) [
    | inl good ↦
        let (low, high) = (is_ok_iff res.status).0 good in
        elim (Bool-cases (res.status == 204)) [
          | inl empty ↦
              let at : res.status ≡ 204 = (==_iff res.status 204).0 empty in
              rw (good, empty)
                (
                  λ h. (low, high, inl (at, cc)),
                  λ (_, _, k). ⊎_elim (λ (_, e). cc) (λ (ne, _, _, _). absurd (ne at)) k,
                )
          | inr full ↦
              let other : res.status ≢ 204 = λ at. cc ((==_iff res.status 204).1 at, full) in
              let (to, from) = read_json-returns res.body v in
              rw (good, full)
                (
                  λ h. let (j, read, e) = to h in (low, high, inr (other, j, read, e)),
                  λ (_, _, k).
                      ⊎_elim (λ (at, _). absurd (other at)) (λ (_, j, read, e). from (j, read, e))
                        k,
                )
        ]
    | inr bad ↦ rw bad (λ h. cc, λ (low, high, _). cc ((is_ok_iff res.status).1 (low, high), bad))
  ]

  unauthorized_bad :
      (res : Response E Json) (v : Option Json) → res.status == 401 ≡ true → Holds res v → ⊥
  unauthorized_bad res v h (low, high, _) = ground arith

  on_reply-returns :
      (session : Option AdminSession) (reply : Reply E Json) (s : Client) (v : Option Json)
      → ((on_reply session reply s).1 ≡ returns v)
        ↔ ((res : Response E Json) × (reply ≡ answered res) × Holds res v)
  unfolding on_reply
  on_reply-returns session (rejected e) s v = (λ h. cc, λ (res, h, _). cc)
  on_reply-returns session (answered res) s v = elim (Bool-cases (res.status == 401)) [
    | inl hit ↦ rw hit (
      λ h. cc,
      λ (r, same, holds).
          let one : r ≡ res = cc in
          absurd (unauthorized_bad res v hit (subst (λ q. Holds q v) one holds)),
    )
    | inr miss ↦
        let (to, from) = read_response-returns res v in
        rw miss (
          λ h. (res, refl, to h),
          λ (r, same, holds). let one : r ≡ res = cc in from (subst (λ q. Holds q v) one holds),
        )
  ]

  -- `req` returns a value exactly when the reply is a response with a status from 200 to 299, and
  -- that is 204 and the value undefined, or its body is JSON and the value what it holds; neither
  -- the client's state nor the timer makes a difference to that.
  pub req_receive-returns_iff :
      (call : Call) (timed_out : Bool) (reply : Reply E Json) (s : Client) (v : Option Json)
      → ((req_receive call timed_out reply s).1 ≡ returns v)
        ↔ ((res : Response E Json) × (reply ≡ answered res) × Holds res v)
  unfolding req_receive
  req_receive-returns_iff call timed_out reply s v =
      let (a, b) = caught-returns timed_out (on_reply call.session reply s).1 v in
      let (c, d) = on_reply-returns call.session reply s v in (λ h. c (a h), λ h. b (d h))
