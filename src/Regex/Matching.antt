-- ===== src/Regex/Matching.antt =====
-- The matcher decides the language of a pattern.
use tenancit.Base.{ℕ, ◌≡◌, refl, true, [], ◌∷◌, ◌++◌, Text, ◌↔◌, inl, inr, sym}
use tenancit.Base.{arith, Bool-cases, ap, ◌∙◌}
use mathlib.Core.Logic.{⊎_elim}
use tenancit.Regex.Defs.{Regex, nothing, blank, one_of, seq, alt, star, Star, done, more, Lang}
use tenancit.Regex.Defs.{nullable, deriv, matches}

append-eq-nil : (s t : Text) → [] ≡ s ++ t → (s ≡ []) × (t ≡ [])
append-eq-nil [] t h = (refl, sym h)
append-eq-nil (c ∷ s) t h = cc

-- The empty text is in the language of the nullable patterns.
nullable_sound : (r : Regex) → nullable r ≡ true → Lang r []
unfolding nullable
nullable_sound nothing h = cc
nullable_sound blank h = refl
nullable_sound (one_of p) h = cc
nullable_sound (seq r q) h =
    ([], [], refl, nullable_sound r (ground arith), nullable_sound q (ground arith))
nullable_sound (alt r q) h = elim (Bool-cases (nullable r)) [
  | inl left ↦ inl (nullable_sound r left)
  | inr right ↦ inr (nullable_sound q (ground arith))
]
nullable_sound (star r) h = done refl

nullable_complete : (r : Regex) → Lang r [] → nullable r ≡ true
unfolding nullable
nullable_complete nothing h = absurd h
nullable_complete blank h = refl
nullable_complete (one_of p) (c, e, _) = cc
nullable_complete (seq r q) (s, t, e, left, right) =
    let (es, et) = append-eq-nil s t e in
    ground (arith, nullable_complete r (rw es at left), nullable_complete q (rw et at right))
nullable_complete (alt r q) (inl left) = rw (nullable_complete r left)
nullable_complete (alt r q) (inr right) = ground (arith, nullable_complete q right)
nullable_complete (star r) h = refl

-- A list of parts that begins with `c` has a part that begins with `c`, after empty parts.
Star-cons :
    {P : Text → Type 0} (c : ℕ) (v u : Text)
    → v ≡ c ∷ u
    → Star P v
    → (s : Text) × (t : Text) × (u ≡ s ++ t) × P (c ∷ s) × Star P t
Star-cons c v u e (done empty) = cc
Star-cons c v u e (more [] t split p rest) = Star-cons c t u (sym split ∙ e) rest
Star-cons {P} c v u e (more (d ∷ s) t split p rest) =
    let joined : d ∷ (s ++ t) ≡ c ∷ u = sym split ∙ e in
    let same : d ≡ c = cc in (s, t, cc, rw same at p, rest)

seq-cons_left :
    {c : ℕ} (r q : Regex) (u : Text)
    → ((s : Text) → Lang (deriv c r) s → Lang r (c ∷ s))
    → Lang (seq (deriv c r) q) u
    → Lang (seq r q) (c ∷ u)
seq-cons_left {c} r q u grow (s, t, e, here, later) =
    (c ∷ s, t, ap (λ x. c ∷ x) e, grow s here, later)

-- The derivative's language is what may follow `c`.
deriv_sound : (c : ℕ) (r : Regex) (u : Text) → Lang (deriv c r) u → Lang r (c ∷ u)
unfolding deriv
deriv_sound c nothing u h = absurd h
deriv_sound c blank u h = absurd h
deriv_sound c (one_of p) u h = elim (Bool-cases (p c)) [
  | inl in_class ↦ (c, ap (λ x. c ∷ x) (rw in_class at h), in_class)
  | inr outside ↦ absurd (rw outside at h)
]
deriv_sound c (seq r q) u h = elim (Bool-cases (nullable r)) [
  | inl empty ↦
      ⊎_elim (seq-cons_left r q u (deriv_sound c r))
        (λ later. ([], c ∷ u, refl, nullable_sound r empty, deriv_sound c q u later))
        (rw empty at h)
  | inr never ↦ seq-cons_left r q u (deriv_sound c r) (rw never at h)
]
deriv_sound c (alt r q) u (inl h) = inl (deriv_sound c r u h)
deriv_sound c (alt r q) u (inr h) = inr (deriv_sound c q u h)
deriv_sound c (star r) u (s, t, e, p, rest) =
    more (c ∷ s) t (ap (λ x. c ∷ x) e) (deriv_sound c r s p) rest

deriv_complete : (c : ℕ) (r : Regex) (u : Text) → Lang r (c ∷ u) → Lang (deriv c r) u
unfolding deriv
deriv_complete c nothing u h = absurd h
deriv_complete c blank u h = cc
deriv_complete c (one_of p) u (d, e, h) =
    let same : d ≡ c = cc in let in_class : p c ≡ true = rw same at h in rw in_class (cc)
deriv_complete c (seq r q) u ([], t, e, empty, later) =
    rw (nullable_complete r empty) (inr (deriv_complete c q u (rw (← e) at later)))
deriv_complete c (seq r q) u (d ∷ s, t, e, here, later) =
    let same : d ≡ c = cc in
    let left : Lang (seq (deriv c r) q) u =
      (s, t, cc, deriv_complete c r s (rw same at here), later) in
    elim (Bool-cases (nullable r)) [ inl empty ↦ rw empty (inl left) | inr never ↦ rw never left ]
deriv_complete c (alt r q) u (inl h) = inl (deriv_complete c r u h)
deriv_complete c (alt r q) u (inr h) = inr (deriv_complete c q u h)
deriv_complete c (star r) u h =
    let (s, t, e, p, rest) = Star-cons c (c ∷ u) u refl h in (s, t, e, deriv_complete c r s p, rest)

-- `matches` accepts exactly the texts of the pattern's language.
pub matches_iff : (r : Regex) (u : Text) → (matches r u ≡ true) ↔ Lang r u
unfolding matches
matches_iff r [] = (nullable_sound r, nullable_complete r)
matches_iff r (c ∷ u) =
    let (to, from) = matches_iff (deriv c r) u in
    (λ h. deriv_sound c r u (to h), λ h. from (deriv_complete c r u h))
