-- ===== src/Validation/Number.antt =====
-- Whole numbers: the pattern, and the value that the range check compares.
use native.Mathlib.Nat.{pow-suc}
use tenancit.Base.{
  is_empty, ℕ, ◌+◌, ◌*◌, ◌-◌, ◌^◌, ◌≡◌, ◌≢◌, ◌↔◌, ◌⊎◌, inl, inr, refl, sym, ap, ◌∙◌, subst, true,
  false, [], ◌∷◌, ◌++◌, arith, Text, length, trim, ◌==◌, ==_iff, ℤ, pos, negsuc, neg, ◌≤ℤ◌,
  leb_ℤ_iff, codes, text_eq_iff,
}
use tenancit.Regex.Defs.{Lang, matches}
use tenancit.Regex.Matching.{matches_iff}
use tenancit.Regex.Classes.{Within, plus_class_iff}
use tenancit.Validation.Defs.{
  is_digit, integer_pattern, digits_value, number_of, max_safe, is_safe_integer,
  is_integer_in_range, is_valid_typed_resource_value,
}

-- A nonempty text of digits, and its positional value.
abbrev pub IsNumeral : Text → Type 0
IsNumeral s = (s ≢ []) × Within is_digit s

abbrev pub decimal : Text → ℕ
decimal [] = 0
decimal (c ∷ s) = (c - b'0') * 10 ^ length s + decimal s

-- A numeral, or a hyphen before a numeral.
abbrev pub IsSigned : Text → Type 0
IsSigned u = IsNumeral u ⊎ ((s : Text) × (u ≡ b'-' ∷ s) × IsNumeral s)

-- The integer that a signed numeral stands for.
abbrev pub Denotes : Text → ℤ → Type 0
Denotes u n =
    (IsNumeral u × (n ≡ pos (decimal u)))
    ⊎ ((s : Text) × (u ≡ b'-' ∷ s) × IsNumeral s × (n ≡ neg (decimal s)))

shift_digit : (acc d p v : ℕ) → (acc * 10 + d) * p + v ≡ acc * (10 * p) + (d * p + v)
shift_digit acc d p v = omega arith

digits_value-eq : (acc : ℕ) (s : Text) → digits_value acc s ≡ acc * 10 ^ length s + decimal s
unfolding digits_value
digits_value-eq acc [] = omega arith
digits_value-eq acc (c ∷ s) =
    digits_value-eq (acc * 10 + (c - b'0')) s
    ∙ shift_digit acc (c - b'0') (10 ^ length s) (decimal s)
    ∙ rw (pow-suc 10 (length s)) (omega arith)

digits_value-decimal : (s : Text) → digits_value 0 s ≡ decimal s
digits_value-decimal s = omega (arith, digits_value-eq 0 s)

IsSigned-of_Lang : (u : Text) → Lang integer_pattern u → IsSigned u
IsSigned-of_Lang u (s, t, e, inr none, digits) =
    inl (subst IsNumeral (sym (e ∙ ap (λ x. x ++ t) none)) ((plus_class_iff is_digit t).0 digits))
IsSigned-of_Lang u (s, t, e, inl (c, one, hyphen), digits) = inr (
  t,
  e ∙ ap (λ x. x ++ t) one ∙ ap (λ x. x ∷ t) ((==_iff c b'-').0 hyphen),
  (plus_class_iff is_digit t).0 digits,
)

Lang-of_IsSigned : (u : Text) → IsSigned u → Lang integer_pattern u
Lang-of_IsSigned u (inl h) = ([], u, refl, inr refl, (plus_class_iff is_digit u).1 h)
Lang-of_IsSigned u (inr (s, e, h)) =
    (b'-' ∷ [], s, e, inl (b'-', refl, refl), (plus_class_iff is_digit s).1 h)

number_of_numeral : (u : Text) → IsNumeral u → number_of u ≡ pos (decimal u)
unfolding number_of
number_of_numeral [] h = absurd (h.0 refl)
number_of_numeral (c ∷ s) (_, (digit, _)) =
    let unsigned : (c == b'-') ≡ false = ground arith in rw (unsigned, digits_value-decimal (c ∷ s))

number_of_negated : (s : Text) → number_of (b'-' ∷ s) ≡ neg (decimal s)
unfolding number_of
number_of_negated s = rw (digits_value-decimal s)

Denotes-number_of : (u : Text) → IsSigned u → Denotes u (number_of u)
Denotes-number_of u (inl h) = inl (h, number_of_numeral u h)
Denotes-number_of u (inr (s, e, h)) = inr (s, e, h, rw e (number_of_negated s))

number_of-Denotes : (u : Text) (n : ℤ) → Denotes u n → IsSigned u × (number_of u ≡ n)
number_of-Denotes u n (inl (h, e)) = (inl h, number_of_numeral u h ∙ sym e)
number_of-Denotes u n (inr (s, e, h, value)) =
    (inr (s, e, h), rw e (number_of_negated s) ∙ sym value)

abbrev pub IsSafe : ℤ → Type 0
IsSafe n = (negsuc (max_safe - 1) ≤ℤ n) × (n ≤ℤ pos max_safe)

is_safe_integer_iff : (n : ℤ) → (is_safe_integer n ≡ true) ↔ IsSafe n
unfolding is_safe_integer
is_safe_integer_iff (pos n) = ground arith
is_safe_integer_iff (negsuc n) = ground arith

-- A text is accepted exactly when, trimmed, it denotes an integer, which lies between the two
-- bounds and has an absolute value of at most 2^53 - 1.
pub is_integer_in_range_iff :
    (value : Text) (minimum maximum : ℤ)
    → (is_integer_in_range value minimum maximum ≡ true)
      ↔ ((n : ℤ) × Denotes (trim value) n × (minimum ≤ℤ n) × (n ≤ℤ maximum) × IsSafe n)
unfolding is_integer_in_range
is_integer_in_range_iff value minimum maximum = (
  λ h.
      let fits : matches integer_pattern (trim value) ≡ true = ground arith in
      let signed = IsSigned-of_Lang _ ((matches_iff integer_pattern (trim value)).0 fits) in
      let parsed = number_of (trim value) in
      (
        parsed,
        Denotes-number_of (trim value) signed,
        (leb_ℤ_iff minimum parsed).0 (ground arith),
        (leb_ℤ_iff parsed maximum).0 (ground arith),
        (is_safe_integer_iff parsed).0 (ground arith),
      ),
  λ (n, denotes, above, below, safe).
      let (signed, value_eq) = number_of-Denotes (trim value) n denotes in
      rw (
        (matches_iff integer_pattern (trim value)).1 (Lang-of_IsSigned _ signed),
        value_eq,
        (is_safe_integer_iff n).1 safe,
        (leb_ℤ_iff minimum n).1 above,
        (leb_ℤ_iff n maximum).1 below,
      ),
)

-- A value of the type "int" is accepted exactly when it is empty or a signed numeral, of the type
-- "bool" exactly when it is empty, "true" or "false", and of any other type always.
pub is_valid_typed_resource_value_iff :
    (data_type value : Text)
    → (is_valid_typed_resource_value data_type value ≡ true) ↔ (
        (data_type ≡ codes "int" → (value ≡ []) ⊎ IsSigned value)
        × (data_type ≡ codes "bool"
            → (value ≡ []) ⊎ (value ≡ codes "true") ⊎ (value ≡ codes "false")))
unfolding is_valid_typed_resource_value is_empty
is_valid_typed_resource_value_iff data_type [] = (λ _. (λ _. inl refl, λ _. inl refl), λ _. refl)
is_valid_typed_resource_value_iff data_type (c ∷ s) = ground (
  arith,
  text_eq_iff data_type (codes "int"),
  text_eq_iff data_type (codes "bool"),
  text_eq_iff (c ∷ s) (codes "true"),
  text_eq_iff (c ∷ s) (codes "false"),
  matches_iff integer_pattern (c ∷ s),
  IsSigned-of_Lang (c ∷ s),
  Lang-of_IsSigned (c ∷ s),
)
