-- ===== src/Validation/Slug.antt =====
-- Tenant slugs: the pattern accepts the words of [a-z0-9] that are joined by single hyphens.
use mathlib.Core.List.{append-nil}
use tenancit.Base.{
  ℕ, ◌≤◌, ◌≡◌, ◌≢◌, ◌↔◌, refl, sym, ap, subst, true, false, List, [], ◌∷◌, ◌++◌, arith, Text, All,
  All-map, length, trim, split, join, split-word, split-append, join-split, split-ne-nil, ◌==◌,
  ==_iff, List-cases, inl, inr,
}
use tenancit.Regex.Defs.{one_of, seq, plus, unit, Star, done, more, Lang}
use tenancit.Regex.Matching.{matches_iff}
use tenancit.Regex.Classes.{Within, plus_class_iff}
use tenancit.Validation.Defs.{is_word_unit, tenant_slug_pattern, is_valid_tenant_slug}

-- A word: one unit of [a-z0-9] or more.
abbrev pub IsWord : Text → Type 0
IsWord w = (w ≢ []) × Within is_word_unit w

not-hyphen : (c : ℕ) → is_word_unit c ≡ true → (c == b'-') ≡ false
not-hyphen c h = ground arith

words-have-no-hyphen : (w : Text) → Within is_word_unit w → All (λ c. (c == b'-') ≡ false) w
words-have-no-hyphen w h = All-map _ _ w not-hyphen h

abbrev Tail : Text → Type 0
Tail = Star (Lang (seq (unit b'-') (plus (one_of is_word_unit))))

split_of_Tail : {t : Text} → Tail t → (w : Text) → IsWord w → All IsWord (split b'-' (w ++ t))
split_of_Tail (done e) w h =
    rw (e, append-nil w, split-word b'-' w (words-have-no-hyphen w h.1)) (h, tt)
split_of_Tail {t = v} (more s t e (s1, s2, cut, (c, one, is_hyphen), word) rest) w h =
    let whole : v ≡ b'-' ∷ (s2 ++ t) = rw (e, cut, one, (==_iff c b'-').0 is_hyphen) refl in
    rw (whole, split-append b'-' w (s2 ++ t) (words-have-no-hyphen w h.1))
      (h, split_of_Tail rest s2 ((plus_class_iff is_word_unit s2).0 word))

pattern_of_join :
    (w : Text) (ws : List Text)
    → All IsWord (w ∷ ws)
    → Lang tenant_slug_pattern (join b'-' (w ∷ ws))
unfolding join
pattern_of_join w [] (h, _) =
    (w, [], sym (append-nil w), (plus_class_iff is_word_unit w).1 h, done refl)
pattern_of_join w (v ∷ ws) (h, hs) =
    let (s, t, e, word, rest) = pattern_of_join v ws hs in
    (
      w,
      b'-' ∷ (s ++ t),
      ap (λ x. w ++ b'-' ∷ x) e,
      (plus_class_iff is_word_unit w).1 h,
      more (b'-' ∷ s) t refl (b'-' ∷ [], s, refl, (b'-', refl, refl), word) rest,
    )

words_of_pattern : (u : Text) → Lang tenant_slug_pattern u → All IsWord (split b'-' u)
words_of_pattern u (w, t, e, word, tail) =
    rw e (split_of_Tail tail w ((plus_class_iff is_word_unit w).0 word))

pattern_of_words : (u : Text) → All IsWord (split b'-' u) → Lang tenant_slug_pattern u
pattern_of_words u h = elim (List-cases (split b'-' u)) [
  | inl none ↦ absurd (split-ne-nil b'-' u none)
  | inr (w, ws, e) ↦
      subst (Lang tenant_slug_pattern) (rw (← e) (join-split b'-' u))
        (pattern_of_join w ws (rw e at h))
]

-- A tenant slug is accepted exactly when the trimmed text has at most 63 units and each of the
-- parts between its hyphens is a nonempty word of [a-z0-9].
pub is_valid_tenant_slug_iff :
    (value : Text)
    → (is_valid_tenant_slug value ≡ true)
      ↔ ((length (trim value) ≤ 63) × All IsWord (split b'-' (trim value)))
unfolding is_valid_tenant_slug
is_valid_tenant_slug_iff value = ground (
  arith,
  matches_iff tenant_slug_pattern (trim value),
  words_of_pattern (trim value),
  pattern_of_words (trim value),
)
