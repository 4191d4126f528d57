-- ===== src/Api/Message.antt =====
-- The message that the client takes from the body of a failed response.
use mathlib.Core.Logic.{⊎_elim}
use tenancit.Base.{
  ◌≡◌, ◌≢◌, ◌⊎◌, inl, inr, refl, sym, ◌∙◌, subst, [], Text, codes, text_eq, text_eq_iff, Bool-cases,
  if◌then◌else◌,
}
use tenancit.Api.Receive.{
  Json, null, bool, number, string, array, object, JsonFields, no_fields, field, text_of,
  error_field, Body, parsed, unread, server_message,
}

text_of_cases :
    (v : Json)
    → ((t : Text) × (v ≡ string t) × (text_of v ≡ t))
      ⊎ ((text_of v ≡ []) × ((t : Text) → v ≢ string t))
unfolding text_of
text_of_cases (string t) = inl (t, refl, refl)
text_of_cases null = inr (refl, λ t e. cc)
text_of_cases (bool _) = inr (refl, λ t e. cc)
text_of_cases (number _) = inr (refl, λ t e. cc)
text_of_cases (array _) = inr (refl, λ t e. cc)
text_of_cases (object _) = inr (refl, λ t e. cc)

-- The fields have the value under the key; the first of a key counts.
abbrev pub IsFieldOf : Text → Json → JsonFields → Type 0
IsFieldOf key j no_fields = ⊥
IsFieldOf key j (field k v rest) = ((k ≡ key) × (v ≡ j)) ⊎ ((k ≢ key) × IsFieldOf key j rest)

error_field-IsFieldOf :
    (fields : JsonFields) (t : Text)
    → IsFieldOf (codes "error") (string t) fields
    → error_field fields ≡ t
unfolding error_field text_of
error_field-IsFieldOf no_fields t h = absurd h
error_field-IsFieldOf (field k v rest) t h =
    ⊎_elim (λ (same, e). rw ((text_eq_iff k (codes "error")).1 same, e) refl)
      (λ (other, more). elim (Bool-cases (text_eq k (codes "error"))) [
        | inl hit ↦ absurd (other ((text_eq_iff k (codes "error")).0 hit))
        | inr miss ↦ rw miss (error_field-IsFieldOf rest t more)
      ])
      h

-- A text stands under "error" in the fields, or it is empty and none does.
abbrev IsErrorOf : JsonFields → Text → Type 0
IsErrorOf fields t =
    IsFieldOf (codes "error") (string t) fields
    ⊎ ((t ≡ []) × ((u : Text) → ¬ IsFieldOf (codes "error") (string u) fields))

IsErrorOf-hit :
    (v : Json) (rest : JsonFields) → IsErrorOf (field (codes "error") v rest) (text_of v)
IsErrorOf-hit v rest =
    ⊎_elim (λ (t, e, read). rw read (inl (inl (refl, e))))
      (λ (read, other).
        inr (read, λ u. ⊎_elim (λ (_, e). other u e) (λ (k_other, _). k_other refl)))
      (text_of_cases v)

IsErrorOf-miss :
    (k : Text) (v : Json) (rest : JsonFields) (t : Text)
    → k ≢ codes "error"
    → IsErrorOf rest t
    → IsErrorOf (field k v rest) t
IsErrorOf-miss k v rest t other =
    ⊎_elim (λ found. inl (inr (other, found)))
      (λ (e, none_found).
        inr (e, λ u. ⊎_elim (λ (same, _). other same) (λ (_, more). none_found u more)))

error_field-IsErrorOf : (fields : JsonFields) → IsErrorOf fields (error_field fields)
unfolding error_field
error_field-IsErrorOf no_fields = inr (refl, λ u h. h)
error_field-IsErrorOf (field k v rest) = elim (Bool-cases (text_eq k (codes "error"))) [
  | inl hit ↦
      let same = (text_eq_iff k (codes "error")).0 hit in
      let found : IsErrorOf (field k v rest) (text_of v) =
        subst (λ x. IsErrorOf (field x v rest) (text_of v)) (sym same) (IsErrorOf-hit v rest) in
      subst (λ b. IsErrorOf (field k v rest) (if b then text_of v else error_field rest)) (sym hit)
        found
  | inr miss ↦
      let other : k ≢ codes "error" = λ e. cc ((text_eq_iff k (codes "error")).1 e, miss) in
      let found = IsErrorOf-miss k v rest (error_field rest) other (error_field-IsErrorOf rest) in
      subst (λ b. IsErrorOf (field k v rest) (if b then text_of v else error_field rest)) (sym miss)
        found
]

module _ {E : Type 0} where
  -- A parsed object whose field "error" is a text.
  abbrev pub HasError : Body E Json → Text → Type 0
  HasError b t =
      (fields : JsonFields) × (b ≡ parsed (object fields))
      × IsFieldOf (codes "error") (string t) fields

  -- The message of a body: its "error" text, or empty where it has none.
  abbrev pub Says : Body E Json → Text → Type 0
  Says b t = HasError b t ⊎ ((t ≡ []) × ((u : Text) → ¬ HasError b u))

  pub server_message-Says : (b : Body E Json) → Says b (server_message b)
  unfolding server_message
  server_message-Says (unread e) = inr (refl, λ u (fields, k, _). cc)
  server_message-Says (parsed null) = inr (refl, λ u (fields, k, _). cc)
  server_message-Says (parsed (bool _)) = inr (refl, λ u (fields, k, _). cc)
  server_message-Says (parsed (number _)) = inr (refl, λ u (fields, k, _). cc)
  server_message-Says (parsed (string _)) = inr (refl, λ u (fields, k, _). cc)
  server_message-Says (parsed (array _)) = inr (refl, λ u (fields, k, _). cc)
  server_message-Says (parsed (object fields)) =
      ⊎_elim (λ h. inl (fields, refl, h))
        (λ (e, none_found). inr (
          e,
          λ u (others, k, h).
              let same : fields ≡ others = cc in
              none_found u (subst (IsFieldOf (codes "error") (string u)) (sym same) h),
        ))
        (error_field-IsErrorOf fields)

  Says-HasError : (b : Body E Json) (t u : Text) → HasError b t → HasError b u → t ≡ u
  Says-HasError b t u (fields, e, h) (others, k, more) =
      let same : fields ≡ others = cc in
      let more' = subst (IsFieldOf (codes "error") (string u)) (sym same) more in
      sym (error_field-IsFieldOf fields t h) ∙ error_field-IsFieldOf fields u more'

  -- A body says one message.
  pub Says-unique : (b : Body E Json) (t u : Text) → Says b t → Says b u → t ≡ u
  Says-unique b t u =
      ⊎_elim
        (λ h. ⊎_elim (λ k. Says-HasError b t u h k) (λ (_, none_found). absurd (none_found t h)))
        (λ (e, none_found). ⊎_elim (λ k. absurd (none_found u k)) (λ (e', _). e ∙ sym e'))
