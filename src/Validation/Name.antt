-- ===== src/Validation/Name.antt =====
-- Definition keys and resource aliases: one unit of a class, then at most 62 units of another.
use tenancit.Base.{
  ℕ, ◌≤◌, ◌≡◌, ◌↔◌, refl, ap, ◌∙◌, subst, sym, Bool, true, [], ◌∷◌, ◌++◌, arith, Text, All-map,
  length, trim,
}
use tenancit.Regex.Defs.{one_of, seq, up_to, Lang}
use tenancit.Regex.Matching.{matches_iff}
use tenancit.Regex.Classes.{Within, up_to_class_iff}
use tenancit.Validation.Defs.{
  is_lower, is_word_unit, is_key_unit, is_alias_unit, definition_key_pattern,
  resource_alias_pattern, is_valid_definition_key, is_valid_resource_alias,
}

-- A unit of the class `first`, then at most `n` units of the class `later`.
abbrev pub IsName : (first later : ℕ → Bool) (n : ℕ) → Text → Type 0
IsName first later n [] = ⊥
IsName first later n (c ∷ s) = (first c ≡ true) × Within later s × (length s ≤ n)

module _ (first later : ℕ → Bool) (n : ℕ) where
  IsName-of_Lang :
      (u : Text) → Lang (seq (one_of first) (up_to n (one_of later))) u → IsName first later n u
  IsName-of_Lang u (s, t, e, (c, one, h), rest) =
      let (within, short) = (up_to_class_iff later n t).0 rest in
      subst (IsName first later n) (sym (e ∙ ap (λ x. x ++ t) one)) (h, within, short)

  Lang-of_IsName :
      (u : Text) → IsName first later n u → Lang (seq (one_of first) (up_to n (one_of later))) u
  Lang-of_IsName [] h = absurd h
  Lang-of_IsName (c ∷ s) (h, within, short) =
      (c ∷ [], s, refl, (c, refl, h), (up_to_class_iff later n s).1 (within, short))

-- A definition key is accepted exactly when the trimmed text is a unit of [a-z] followed by at
-- most 62 units of [a-z0-9_-].
pub is_valid_definition_key_iff :
    (value : Text)
    → (is_valid_definition_key value ≡ true) ↔ IsName is_lower is_key_unit 62 (trim value)
unfolding is_valid_definition_key
is_valid_definition_key_iff value =
    let (to, from) = matches_iff definition_key_pattern (trim value) in
    (
      λ h. IsName-of_Lang is_lower is_key_unit 62 (trim value) (to h),
      λ h. from (Lang-of_IsName is_lower is_key_unit 62 (trim value) h),
    )

-- A resource alias is accepted exactly when the trimmed text is a unit of [a-z0-9] followed by at
-- most 62 units of [a-z0-9._-].
pub is_valid_resource_alias_iff :
    (value : Text)
    → (is_valid_resource_alias value ≡ true) ↔ IsName is_word_unit is_alias_unit 62 (trim value)
unfolding is_valid_resource_alias
is_valid_resource_alias_iff value =
    let (to, from) = matches_iff resource_alias_pattern (trim value) in
    (
      λ h. IsName-of_Lang is_word_unit is_alias_unit 62 (trim value) (to h),
      λ h. from (Lang-of_IsName is_word_unit is_alias_unit 62 (trim value) h),
    )

key-IsAlias : (u : Text) → IsName is_lower is_key_unit 62 u → IsName is_word_unit is_alias_unit 62 u
key-IsAlias [] h = absurd h
key-IsAlias (c ∷ s) (h, within, short) =
    (ground arith, All-map _ _ s (λ c h. ground arith) within, short)
