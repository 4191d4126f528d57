-- ===== src/Regex/Defs.antt =====
-- Patterns, their languages, and the matcher by derivatives.
use tenancit.Base.{ℕ, zero, suc, ◌≡◌, Bool, true, false, ◌&&◌, ◌||◌, [], ◌∷◌, ◌++◌, Text}
use tenancit.Base.{◌==◌, if◌then◌else◌, ◌⊎◌}

pub data Regex : Type 0 where
  nothing : Regex
  blank : Regex
  one_of : (ℕ → Bool) → Regex
  seq : Regex → Regex → Regex
  alt : Regex → Regex → Regex
  star : Regex → Regex

-- Finitely many texts of `P`, one after another.
pub data Star (P : Text → Type 0) : Text → Type 0 where
  done : {u : Text} → u ≡ [] → Star P u
  more : {u : Text} (s t : Text) → u ≡ s ++ t → P s → Star P t → Star P u

abbrev pub Lang : Regex → Text → Type 0
Lang nothing u = ⊥
Lang blank u = u ≡ []
Lang (one_of p) u = (c : ℕ) × (u ≡ c ∷ []) × (p c ≡ true)
Lang (seq r q) u = (s : Text) × (t : Text) × (u ≡ s ++ t) × Lang r s × Lang q t
Lang (alt r q) u = Lang r u ⊎ Lang q u
Lang (star r) u = Star (Lang r) u

unfoldable pub nullable : Regex → Bool
nullable nothing = false
nullable blank = true
nullable (one_of p) = false
nullable (seq r q) = nullable r && nullable q
nullable (alt r q) = nullable r || nullable q
nullable (star r) = true

unfoldable pub deriv : ℕ → Regex → Regex
deriv c nothing = nothing
deriv c blank = nothing
deriv c (one_of p) = if p c then blank else nothing
deriv c (seq r q) =
    let right = deriv c q in
    let left = seq (deriv c r) q in if nullable r then alt left right else left
deriv c (alt r q) = alt (deriv c r) (deriv c q)
deriv c (star r) = seq (deriv c r) (star r)

unfoldable pub matches : Regex → Text → Bool
unfolding nullable deriv
matches r [] = nullable r
matches r (c ∷ s) = matches (deriv c r) s

-- The operators of a pattern: a class of units, a unit, r+, r? and r{0,n}.
abbrev pub unit : ℕ → Regex
unit d = one_of (λ c. c == d)

abbrev pub plus : Regex → Regex
plus r = seq r (star r)

abbrev pub opt : Regex → Regex
opt r = alt r blank

abbrev pub up_to : ℕ → Regex → Regex
up_to zero r = blank
up_to (suc n) r = opt (seq r (up_to n r))
