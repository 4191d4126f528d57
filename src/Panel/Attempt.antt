-- ===== src/Panel/Attempt.antt =====
-- stableIdempotencyKey of web/src/lib/idempotency.ts. `random_uuid n` is the n-th value that
-- crypto.randomUUID gives, and a payload is the text that JSON.stringify gives for it.
use tenancit.Base.{
  ℕ, ◌+◌, ◌<◌, ◌≡◌, inl, inr, ◌↔◌, refl, sym, ap, ◌∙◌, subst, List, [], ◌∷◌, Option, none, some,
  Text, text_eq, text_eq_iff, arith, Bool-cases, if◌then◌else◌,
}

pub record IdempotencyAttempt : Type 0 where
  pub fingerprint : Text
  pub key : Text

-- The ref, and how many values were drawn.
pub record Form : Type 0 where
  pub current : Option IdempotencyAttempt
  pub drawn : ℕ

module _ (random_uuid : ℕ → Text) where
  unfoldable pub fresh_key : Text → Form → Text × Form
  fresh_key fingerprint form =
      let key = random_uuid form.drawn in
      (
        key,
        record {
          current = some (record { fingerprint = fingerprint; key = key });
          drawn = form.drawn + 1;
        },
      )

  unfoldable pub stable_key_at : Option IdempotencyAttempt → Text → Form → Text × Form
  stable_key_at none fingerprint form = fresh_key fingerprint form
  stable_key_at (some attempt) fingerprint form =
      if text_eq attempt.fingerprint fingerprint
      then (attempt.key, form)
      else fresh_key fingerprint form

  unfoldable pub stable_idempotency_key : Text → Form → Text × Form
  stable_idempotency_key fingerprint form = stable_key_at form.current fingerprint form

  -- The form behind a payload, and behind several of them.
  abbrev pub submit : Form → Text → Form
  submit form payload = (stable_idempotency_key payload form).1

  abbrev pub key_of : Form → Text → Text
  key_of form payload = (stable_idempotency_key payload form).0

  -- The form behind payloads that were submitted in turn.
  unfoldable pub submit_all : Form → List Text → Form
  submit_all form [] = form
  submit_all form (payload ∷ rest) = submit_all (submit form payload) rest

  -- A key that was drawn.
  abbrev pub IsDrawn : Text → Form → Type 0
  IsDrawn key form = (n : ℕ) × (n < form.drawn) × (key ≡ random_uuid n)

  -- A form without an attempt, or with one whose key was drawn.
  abbrev pub IsKept : Option IdempotencyAttempt → Form → Type 0
  IsKept none form = Unit
  IsKept (some a) form = IsDrawn a.key form

  -- Behind a submission the form holds its payload and its key, which was drawn.
  abbrev pub HoldsLast : Text → Text × Form → Type 0
  HoldsLast payload (key, form) =
      (form.current ≡ some (record { fingerprint = payload; key = key })) × IsDrawn key form

  fresh_key-HoldsLast : (payload : Text) (form : Form) → HoldsLast payload (fresh_key payload form)
  unfolding fresh_key
  fresh_key-HoldsLast payload form = (refl, (form.drawn, omega arith, refl))

  stable_key_at-HoldsLast :
      (kept : Option IdempotencyAttempt) (payload : Text) (form : Form)
      → form.current ≡ kept
      → IsKept kept form
      → HoldsLast payload (stable_key_at kept payload form)
  unfolding stable_key_at
  stable_key_at-HoldsLast none payload form e h = fresh_key-HoldsLast payload form
  stable_key_at-HoldsLast (some a) payload form e h =
      elim (Bool-cases (text_eq a.fingerprint payload)) [
        | inl same ↦
            let one = (text_eq_iff a.fingerprint payload).0 same in
            rw same (e ∙ ap (λ t. some (record { fingerprint = t; key = a.key })) one, h)
        | inr other ↦ rw other (fresh_key-HoldsLast payload form)
      ]

  submit-HoldsLast :
      (payload : Text) (form : Form)
      → IsKept form.current form
      → HoldsLast payload (stable_idempotency_key payload form)
  unfolding stable_idempotency_key
  submit-HoldsLast payload form h = stable_key_at-HoldsLast form.current payload form refl h

  submit-IsKept :
      (payload : Text) (form : Form)
      → IsKept form.current form
      → IsKept (submit form payload).current (submit form payload)
  submit-IsKept payload form h =
      let (e, drawn) = submit-HoldsLast payload form h in
      subst (λ c. IsKept c (submit form payload)) (sym e) drawn

  submit_all-IsKept :
      (payloads : List Text) (form : Form)
      → IsKept form.current form
      → IsKept (submit_all form payloads).current (submit_all form payloads)
  unfolding submit_all
  submit_all-IsKept [] form h = h
  submit_all-IsKept (payload ∷ rest) form h =
      submit_all-IsKept rest (submit form payload) (submit-IsKept payload form h)

  -- The form of a page that has just fresh_form.
  abbrev pub fresh_form : Form
  fresh_form = record { current = none; drawn = 0 }

  next_key :
      ((m n : ℕ) → random_uuid m ≡ random_uuid n → m ≡ n)
      → (key first second : Text) (form : Form) → IsDrawn key form
      → ((stable_key_at (some (record { fingerprint = first; key = key })) second form).0 ≡ key)
        ↔ (first ≡ second)
  unfolding stable_key_at fresh_key
  next_key distinct key first second form (n, below, drawn) =
      elim (Bool-cases (text_eq first second)) [
        | inl same ↦ rw same (λ _. (text_eq_iff first second).0 same, λ _. refl)
        | inr other ↦ rw other (
          λ h.
              let clash : form.drawn ≡ n = distinct form.drawn n (h ∙ drawn) in
              absurd (omega arith),
          λ same. cc ((text_eq_iff first second).1 same, other),
        )
      ]

  -- With a random source that never repeats, and behind any submissions: two submissions in a row
  -- have the same idempotency key exactly when their payloads are written alike.
  pub stable_idempotency_key-repeats_iff :
      ((m n : ℕ) → random_uuid m ≡ random_uuid n → m ≡ n)
      → (earlier : List Text) (first second : Text)
      → (key_of (submit (submit_all fresh_form earlier) first) second
          ≡ key_of (submit_all fresh_form earlier) first)
        ↔ (first ≡ second)
  unfolding stable_idempotency_key
  stable_idempotency_key-repeats_iff distinct earlier first second =
      let form = submit_all fresh_form earlier in
      let (e, drawn) = submit-HoldsLast first form (submit_all-IsKept earlier fresh_form tt) in
      subst
        (λ c.
          ((stable_key_at c second (submit form first)).0 ≡ key_of form first) ↔ (first ≡ second))
        (sym e) (next_key distinct (key_of form first) first second (submit form first) drawn)
