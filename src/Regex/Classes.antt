-- ===== src/Regex/Classes.antt =====
-- Repetitions of one class of units: `[…]*`, `[…]+` and `[…]{0,n}`.
use tenancit.Base.{ℕ, zero, suc, ◌≤◌, ◌≡◌, ◌≢◌, refl, Bool, true, [], ◌∷◌, ◌++◌, Text, ◌↔◌, sym}
use tenancit.Base.{arith, length, All, inl, inr, ap, ◌∙◌, subst}
use tenancit.Regex.Defs.{one_of, star, done, more, Star, Lang, plus, up_to}

module _ (p : ℕ → Bool) where
  abbrev pub Within : Text → Type 0
  Within = All (λ c. p c ≡ true)

  Within-of_Star : {u : Text} → Star (Lang (one_of p)) u → Within u
  Within-of_Star (done e) = rw e tt
  Within-of_Star (more s t e (c, one, h) rest) = rw (e, one) (h, Within-of_Star rest)

  star_of_Within : (u : Text) → Within u → Lang (star (one_of p)) u
  star_of_Within [] h = done refl
  star_of_Within (c ∷ u) (h, hs) = more (c ∷ []) u refl (c, refl, h) (star_of_Within u hs)

  pub star_class_iff : (u : Text) → Lang (star (one_of p)) u ↔ Within u
  star_class_iff u = (Within-of_Star, star_of_Within u)

  plus_nonempty : {u : Text} → Lang (plus (one_of p)) u → (u ≢ []) × Within u
  plus_nonempty (s, t, e, (c, one, h), rest) =
      let whole = e ∙ ap (λ x. x ++ t) one in
      (λ nil. cc, subst Within (sym whole) (h, Within-of_Star rest))

  plus_of_Within : (u : Text) → u ≢ [] → Within u → Lang (plus (one_of p)) u
  plus_of_Within [] ne h = absurd (ne refl)
  plus_of_Within (d ∷ u) ne (h, hs) = (d ∷ [], u, refl, (d, refl, h), star_of_Within u hs)

  pub plus_class_iff : (u : Text) → Lang (plus (one_of p)) u ↔ ((u ≢ []) × Within u)
  plus_class_iff u = (plus_nonempty, λ (ne, h). plus_of_Within u ne h)

  Within-of_up_to : (n : ℕ) (u : Text) → Lang (up_to n (one_of p)) u → Within u × (length u ≤ n)
  Within-of_up_to zero u e = rw e (tt, omega arith)
  Within-of_up_to (suc n) u (inr e) = rw e (tt, omega arith)
  Within-of_up_to (suc n) u (inl (s, t, e, (c, one, h), rest)) =
      let (within, short) = Within-of_up_to n t rest in rw (e, one) ((h, within), omega arith)

  up_to_of_Within : (n : ℕ) (u : Text) → Within u → length u ≤ n → Lang (up_to n (one_of p)) u
  up_to_of_Within zero [] h short = refl
  up_to_of_Within zero (c ∷ u) h short = absurd (omega arith)
  up_to_of_Within (suc n) [] h short = inr refl
  up_to_of_Within (suc n) (c ∷ u) (h, hs) short =
      inl (c ∷ [], u, refl, (c, refl, h), up_to_of_Within n u hs (omega arith))

  pub up_to_class_iff :
      (n : ℕ) (u : Text) → Lang (up_to n (one_of p)) u ↔ (Within u × (length u ≤ n))
  up_to_class_iff n u = (Within-of_up_to n u, λ (h, short). up_to_of_Within n u h short)
