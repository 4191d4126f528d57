-- ===== src/Base/Last.antt =====
-- Texts that are cut at the last unit of a kind.
use Prim.Native.Nat.{ℕ}
use mathlib.Core.Path.{◌≡◌, refl, subst}
use mathlib.Core.Logic.{◌≢◌}
use mathlib.Core.List.{List, [], ◌∷◌, ◌++◌}
use tenancit.Base.Lists.{All}
use tenancit.Base.Strings.{Text}

All-tail_of_append {ℓ κ} :
    {A : Type ℓ} (P : A → Type κ) (x : A) (xs ys : List A) → All P (xs ++ (x ∷ ys)) → P x
All-tail_of_append P x [] ys h = h.0
All-tail_of_append P x (y ∷ xs) ys h = All-tail_of_append P x xs ys h.1

-- Texts are cut at the last unit of a kind in one way.
pub after_last :
    (sep : ℕ) (a b x y : Text)
    → All (λ c. c ≢ sep) x
    → All (λ c. c ≢ sep) y
    → a ++ (sep ∷ x) ≡ b ++ (sep ∷ y)
    → (a ≡ b) × (x ≡ y)
after_last sep [] [] x y hx hy e = (refl, cc)
after_last sep [] (c ∷ b) x y hx hy e =
    let tail_eq : x ≡ b ++ (sep ∷ y) = cc in
    absurd (All-tail_of_append (λ d. d ≢ sep) sep b y (subst (All (λ d. d ≢ sep)) tail_eq hx) refl)
after_last sep (c ∷ a) [] x y hx hy e =
    let tail_eq : y ≡ a ++ (sep ∷ x) = cc in
    absurd (All-tail_of_append (λ d. d ≢ sep) sep a x (subst (All (λ d. d ≢ sep)) tail_eq hy) refl)
after_last sep (c ∷ a) (d ∷ b) x y hx hy e =
    let tail_eq : a ++ (sep ∷ x) ≡ b ++ (sep ∷ y) = cc in
    let (front, last) = after_last sep a b x y hx hy tail_eq in (cc, last)
