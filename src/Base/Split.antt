-- ===== src/Base/Split.antt =====
-- `split` and `join` at one separator.
use tenancit.Base.Tests.{◌==◌, ==_iff, Bool-cases}
use tenancit.Base.Lists.{All}
use tenancit.Base.Strings.{Text, split, join, cons_head}
use Prim.Native.Nat.{ℕ}
use mathlib.Core.Path.{◌≡◌, refl, ap, ◌∙◌}
use mathlib.Core.Logic.{◌≢◌, inl, inr}
use mathlib.Core.Bool.{false}
use mathlib.Core.List.{List, [], ◌∷◌, ◌++◌}
use native.Mathlib.Omega.{arith}

cons_head-ne-nil : (c : ℕ) (ws : List Text) → cons_head c ws ≢ []
cons_head-ne-nil c [] h = cc
cons_head-ne-nil c (w ∷ ws) h = cc

cons_head-All :
    (Q : ℕ → Type 0) (c : ℕ) (ws : List Text) → Q c → All (All Q) ws → All (All Q) (cons_head c ws)
cons_head-All Q c [] h hs = ((h, tt), tt)
cons_head-All Q c (w ∷ ws) h (k, ks) = ((h, k), ks)

-- What `split` takes apart, `join` puts together.
join-cons_head :
    (sep c : ℕ) (ws : List Text) → ws ≢ [] → join sep (cons_head c ws) ≡ c ∷ join sep ws
unfolding join
join-cons_head sep c [] h = absurd (h refl)
join-cons_head sep c (w ∷ []) h = refl
join-cons_head sep c (w ∷ (v ∷ ws)) h = refl

pub split-ne-nil : (sep : ℕ) (s : Text) → split sep s ≢ []
unfolding split
split-ne-nil sep [] h = cc
split-ne-nil sep (c ∷ s) h = elim (Bool-cases (c == sep)) [
  | inl cut ↦ cc (rw cut at h)
  | inr kept ↦ cons_head-ne-nil c (split sep s) (rw kept at h)
]

join-split_cut : (sep : ℕ) (ws : List Text) → ws ≢ [] → join sep ([] ∷ ws) ≡ sep ∷ join sep ws
unfolding join
join-split_cut sep [] h = absurd (h refl)
join-split_cut sep (w ∷ ws) h = refl

pub join-split : (sep : ℕ) (s : Text) → join sep (split sep s) ≡ s
unfolding split
join-split sep [] = unfold join in refl
join-split sep (c ∷ s) = elim (Bool-cases (c == sep)) [
  | inl cut ↦ rw cut (
      join-split_cut sep (split sep s) (split-ne-nil sep s)
      ∙ cc ((==_iff c sep).0 cut, join-split sep s))
  | inr kept ↦
      rw kept (
        join-cons_head sep c (split sep s) (split-ne-nil sep s)
        ∙ ap (λ t. c ∷ t) (join-split sep s))
]

-- A word with no separator, alone or before a separator.
pub split-word : (sep : ℕ) (w : Text) → All (λ c. (c == sep) ≡ false) w → split sep w ≡ w ∷ []
unfolding split
split-word sep [] h = refl
split-word sep (c ∷ w) (h, hs) = rw (h, split-word sep w hs)

pub split-append :
    (sep : ℕ) (w s : Text)
    → All (λ c. (c == sep) ≡ false) w
    → split sep (w ++ (sep ∷ s)) ≡ w ∷ split sep s
unfolding split
split-append sep [] s h = ground arith
split-append sep (c ∷ w) s (h, hs) = rw (h, split-append sep w s hs)

-- No part holds the separator, and every part keeps what holds of each unit.
pub split-All :
    (P : ℕ → Type 0) (sep : ℕ) (s : Text)
    → All P s
    → All (All (λ c. P c × ((c == sep) ≡ false))) (split sep s)
unfolding split
split-All P sep [] h = (tt, tt)
split-All P sep (c ∷ s) (h, hs) = elim (Bool-cases (c == sep)) [
  | inl cut ↦ rw cut (tt, split-All P sep s hs)
  | inr kept ↦ rw kept (cons_head-All _ c (split sep s) (h, kept) (split-All P sep s hs))
]

pub split-join :
    (sep : ℕ) (w : Text) (ws : List Text)
    → All (All (λ c. (c == sep) ≡ false)) (w ∷ ws)
    → split sep (join sep (w ∷ ws)) ≡ w ∷ ws
unfolding join
split-join sep w [] (h, _) = split-word sep w h
split-join sep w (v ∷ ws) (h, hs) =
    split-append sep w (join sep (v ∷ ws)) h ∙ ap (λ t. w ∷ t) (split-join sep v ws hs)

cons_head-append :
    (c : ℕ) (ws vs : List Text) → ws ≢ [] → cons_head c (ws ++ vs) ≡ cons_head c ws ++ vs
cons_head-append c [] vs h = absurd (h refl)
cons_head-append c (w ∷ ws) vs h = refl

-- A separator at the end leaves an empty last part.
pub split-snoc : (sep : ℕ) (s : Text) → split sep (s ++ (sep ∷ [])) ≡ split sep s ++ ([] ∷ [])
unfolding split
split-snoc sep [] = rw ((==_iff sep sep).1 refl)
split-snoc sep (c ∷ s) = elim (Bool-cases (c == sep)) [
  | inl cut ↦ rw cut (ap (λ t. [] ∷ t) (split-snoc sep s))
  | inr kept ↦ rw kept (
      ap (cons_head c) (split-snoc sep s)
      ∙ cons_head-append c (split sep s) ([] ∷ []) (split-ne-nil sep s))
]
