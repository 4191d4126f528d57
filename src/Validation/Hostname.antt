-- ===== src/Validation/Hostname.antt =====
-- Host names: labels between dots.
use mathlib.Core.List.{reverse, reverse_aux, reverse-reverse}
use tenancit.Base.{
  ℕ, ◌≤◌, ◌≡◌, ◌≢◌, ◌↔◌, refl, sym, ap, ◌∙◌, Bool, true, false, [], ◌∷◌, arith, Text, All, codes,
  length, length-pos_iff, List, trim, split, starts_with, ends_with, all, all_iff, All-map,
}
use tenancit.Regex.Defs.{one_of, plus}
use tenancit.Regex.Matching.{matches_iff}
use tenancit.Regex.Classes.{Within, plus_class_iff}
use tenancit.Validation.Defs.{
  is_word_unit, is_host_unit, is_valid_label, drop_final_dot, is_valid_hostname,
}

abbrev pub BeginsWith : (ℕ → Bool) → Text → Type 0
BeginsWith p [] = ⊥
BeginsWith p (c ∷ s) = p c ≡ true

-- A label: at most 63 units of [a-z0-9-], the first and the last of them no hyphen.
abbrev pub IsLabel : Text → Type 0
IsLabel l =
    (length l ≤ 63)
    × Within is_host_unit l
    × BeginsWith is_word_unit l
    × BeginsWith is_word_unit (reverse l)

Within-reverse_aux :
    (p : ℕ → Bool) (s t : Text) → Within p s → Within p t → Within p (reverse_aux s t)
Within-reverse_aux p [] t h k = k
Within-reverse_aux p (c ∷ s) t (h, hs) k = Within-reverse_aux p s (c ∷ t) hs (h, k)

Within-reverse : (p : ℕ → Bool) (s : Text) → Within p s → Within p (reverse s)
Within-reverse p s h = Within-reverse_aux p s [] h tt

reverse-ne-nil : (s : Text) → s ≢ [] → reverse s ≢ []
reverse-ne-nil s h e = h (sym (reverse-reverse s) ∙ ap reverse e)

no_hyphen_first :
    (l : Text)
    → Within is_host_unit l
    → l ≢ []
    → (starts_with l (codes "-") ≡ false) ↔ BeginsWith is_word_unit l
unfolding starts_with
no_hyphen_first [] h ne = absurd (ne refl)
no_hyphen_first (c ∷ s) (h, hs) ne = ground arith

BeginsWith-ne-nil : (p : ℕ → Bool) (l : Text) → BeginsWith p l → l ≢ []
BeginsWith-ne-nil p [] h e = h
BeginsWith-ne-nil p (c ∷ l) h e = cc

is_valid_label_iff : (l : Text) → (is_valid_label l ≡ true) ↔ IsLabel l
unfolding is_valid_label ends_with
is_valid_label_iff l = (
  λ h.
      let (ne, within) =
        (plus_class_iff is_host_unit l).0
          ((matches_iff (plus (one_of is_host_unit)) l).0 (ground arith)) in
      (
        ground arith,
        within,
        (no_hyphen_first l within ne).0 (ground arith),
        (no_hyphen_first (reverse l) (Within-reverse is_host_unit l within) (reverse-ne-nil l ne)).0
            (ground arith),
      ),
  λ (short, within, first, last).
      let ne = BeginsWith-ne-nil is_word_unit l first in
      let backwards = Within-reverse is_host_unit l within in
      rw
        (
          (matches_iff (plus (one_of is_host_unit)) l).1
              ((plus_class_iff is_host_unit l).1 (ne, within)),
          (no_hyphen_first l within ne).1 first,
          (no_hyphen_first (reverse l) backwards (reverse-ne-nil l ne)).1 last,
        )
        (ground (arith, (length-pos_iff l).1 ne)),
)

all-is_valid_label_iff : (ls : List Text) → (all is_valid_label ls ≡ true) ↔ All IsLabel ls
all-is_valid_label_iff ls = (
  λ h. All-map _ _ ls (λ l. (is_valid_label_iff l).0) ((all_iff is_valid_label ls).0 h),
  λ h. (all_iff is_valid_label ls).1 (All-map _ _ ls (λ l. (is_valid_label_iff l).1) h),
)

-- A host name is accepted exactly when, trimmed, in lower case and without one dot at its end, it
-- has from 1 to 253 units and each of the parts between its dots is a label.
pub is_valid_hostname_iff :
    (to_lower : Text → Text) (value : Text)
    → (is_valid_hostname to_lower value ≡ true) ↔ (
        (drop_final_dot (to_lower (trim value)) ≢ [])
        × (length (drop_final_dot (to_lower (trim value))) ≤ 253)
        × All IsLabel (split b'.' (drop_final_dot (to_lower (trim value)))))
unfolding is_valid_hostname
is_valid_hostname_iff to_lower value =
    let hostname = drop_final_dot (to_lower (trim value)) in
    ground (arith, all-is_valid_label_iff (split b'.' hostname), length-pos_iff hostname)
