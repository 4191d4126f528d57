-- ===== src/Api/Failures.antt =====
-- The errors that a request fails with.
use mathlib.Core.Logic.{⊎_elim}
use tenancit.Base.{
  ℕ, ◌≤◌, ◌<◌, ◌≡◌, ◌≢◌, ◌↔◌, arith, ==_iff, Text, ◌⊎◌, inl, inr, refl, sym, ap, ◌∙◌, Bool, true,
  false, [], Option, ◌==◌, Bool-cases,
}
use tenancit.Api.Store.{AdminSession, Client}
use tenancit.Api.Message.{Says, server_message-Says, Says-unique}
use tenancit.Api.Request.{Call}
use tenancit.Api.Receive.{
  Json, Body, parsed, unread, Response, Reply, answered, rejected, Failure, api_error,
  api_timeout_error, other_error, Answer, returns, fails, is_ok, server_message, read_json,
  read_response, caught, on_reply, req_receive,
}

is_ok_iff :
    (n : ℕ)
    → ((is_ok n ≡ true) ↔ ((200 ≤ n) × (n ≤ 299))) × ((is_ok n ≡ false) ↔ ((n < 200) ⊎ (299 < n)))
is_ok_iff n = (ground arith, ground arith)

module _ {E : Type 0} where
  read_json-fails :
      (b : Body E Json) (f : Failure E)
      → (read_json b ≡ fails f) ↔ ((e : E) × (b ≡ unread e) × (f ≡ other_error e))
  unfolding read_json
  read_json-fails (parsed j) f = (λ h. cc, λ (e, k, same). cc)
  read_json-fails (unread e) f = (λ h. (e, refl, cc), λ (d, k, same). cc)

  -- The failures of a response that is not a 401.
  abbrev pub IsRefused : Response E Json → Failure E → Type 0
  IsRefused res f =
      (((res.status < 200) ⊎ (299 < res.status))
        × ((t : Text) × Says res.body t × (f ≡ api_error res.status t)))
      ⊎ (((200 ≤ res.status) × (res.status ≤ 299))
          × (res.status ≢ 204)
          × ((e : E) × (res.body ≡ unread e) × (f ≡ other_error e)))

  read_response-IsRefused :
      (res : Response E Json) (f : Failure E) → (read_response res ≡ fails f) ↔ IsRefused res f
  unfolding read_response
  read_response-IsRefused res f =
      let (in_range, out_of_range) = is_ok_iff res.status in
      let (to_204, from_204) = ==_iff res.status 204 in
      elim (Bool-cases (is_ok res.status)) [
        | inl good ↦ elim (Bool-cases (res.status == 204)) [
          | inl empty ↦
              rw (good, empty)
                (
                  λ h. cc,
                  ⊎_elim (λ (k, _). cc (out_of_range.1 k, good))
                      (λ (_, k, _). absurd (k (to_204 empty))),
                )
          | inr full ↦
              let (to, from) = read_json-fails res.body f in
              rw (good, full)
                (
                  λ h. inr (in_range.0 good, λ e. cc (from_204 e, full), to h),
                  ⊎_elim (λ (k, _). cc (out_of_range.1 k, good)) (λ (_, _, k). from k),
                )
        ]
        | inr bad ↦
            let said = server_message-Says res.body in
            rw bad (
              λ h. inl (out_of_range.0 bad, (server_message res.body, said, cc)),
              ⊎_elim
                  (λ (_, (t, says, e)).
                    let same : server_message res.body ≡ t =
                      Says-unique res.body (server_message res.body) t said says in
                    cc)
                  (λ (k, _, _). cc (in_range.1 k, bad)),
            )
      ]

  -- The platform's error when there is no response or a good one cannot be read; else the status
  -- of the response, with its message but for 401.
  abbrev pub FailsWith : Reply E Json → Failure E → Type 0
  FailsWith (rejected e) f = f ≡ other_error e
  FailsWith (answered res) f =
      ((res.status ≡ 401) × (f ≡ api_error 401 [])) ⊎ ((res.status ≢ 401) × IsRefused res f)

  -- The timer covers every other error.
  abbrev pub FailsTimed : Bool → Reply E Json → Failure E → Type 0
  FailsTimed false reply f = FailsWith reply f
  FailsTimed true reply f = (f ≡ api_timeout_error 10000) × ((g : Failure E) × FailsWith reply g)

  on_reply-FailsWith :
      (session : Option AdminSession) (reply : Reply E Json) (s : Client) (f : Failure E)
      → ((on_reply session reply s).1 ≡ fails f) ↔ FailsWith reply f
  unfolding on_reply
  on_reply-FailsWith session (rejected e) s f = (λ h. cc, λ h. cc)
  on_reply-FailsWith session (answered res) s f = elim (Bool-cases (res.status == 401)) [
    | inl hit ↦
        let is_401 = (==_iff res.status 401).0 hit in
        rw hit
          (λ h. inl (is_401, cc), ⊎_elim (λ (_, e). ap fails (sym e)) (λ (k, _). absurd (k is_401)))
    | inr miss ↦
        let (to, from) = read_response-IsRefused res f in
        let not_401 : res.status ≢ 401 = λ e. cc ((==_iff res.status 401).1 e, miss) in
        rw miss (λ h. inr (not_401, to h), ⊎_elim (λ (k, _). absurd (not_401 k)) (λ (_, k). from k))
  ]

  caught-fails :
      {A : Type 0} (a : Answer E A) (f : Failure E)
      → (caught true a ≡ fails f)
        ↔ ((f ≡ api_timeout_error 10000) × ((g : Failure E) × (a ≡ fails g)))
  unfolding caught
  caught-fails (returns v) f = (λ h. cc, λ (e, (g, k)). cc)
  caught-fails (fails g) f = (λ h. (cc, (g, refl)), λ (e, _). ap fails (sym e))

  caught_early : {A : Type 0} (a : Answer E A) → caught false a ≡ a
  unfolding caught
  caught_early (returns v) = refl
  caught_early (fails e) = refl

  -- When the timer has fired, `req` fails only with the timeout error of 10,000 ms, and exactly
  -- when it would have failed without it. When it has not, `req` fails with the platform's error
  -- if there is no response, with status 401 and no message on a 401, with the status and a message
  -- on any other response that is not from 200 to 299, and with the reader's error on a good one
  -- that is not 204 and whose body is not JSON; and with nothing else. The message is the text of
  -- the field "error" of the body, and empty when the body is not JSON or has no such text.
  pub req_receive-FailsTimed :
      (call : Call) (timed_out : Bool) (reply : Reply E Json) (s : Client) (f : Failure E)
      → ((req_receive call timed_out reply s).1 ≡ fails f) ↔ FailsTimed timed_out reply f
  unfolding req_receive
  req_receive-FailsTimed call false reply s f =
      let a = (on_reply call.session reply s).1 in
      let (to, from) = on_reply-FailsWith call.session reply s f in
      (λ h. to (sym (caught_early a) ∙ h), λ h. caught_early a ∙ from h)
  req_receive-FailsTimed call true reply s f =
      let (to, from) = caught-fails (on_reply call.session reply s).1 f in
      (
        λ h. let (e, (g, k)) = to h in (e, (g, (on_reply-FailsWith call.session reply s g).0 k)),
        λ (e, (g, k)). from (e, (g, (on_reply-FailsWith call.session reply s g).1 k)),
      )
