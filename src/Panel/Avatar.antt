-- ===== src/Panel/Avatar.antt =====
-- avatarHue of web/src/lib/avatar.ts: a hash on 32 bits, read as a hue. The number is what the
-- text of the colour holds.
use tenancit.Base.{
  ℕ, ◌+◌, ◌*◌, ◌%◌, ◌<◌, ◌≡◌, refl, ap, ◌∙◌, [], ◌∷◌, Text, arith, Option, none, some,
}

-- `seed ?? ""`
abbrev pub seed_text : Option Text → Text
seed_text none = []
seed_text (some seed) = seed

-- The loop; `>>> 0` takes the number modulo 2 ^ 32, which a double holds before it.
unfoldable pub hash_from : ℕ → Text → ℕ
hash_from hash [] = hash
hash_from hash (c ∷ value) = hash_from ((hash * 31 + c) % 4294967296) value

unfoldable pub avatar_hue : Option Text → ℕ
avatar_hue seed = hash_from 0 (seed_text seed) % 360

-- The polynomial of the units at 31.
abbrev pub polynomial : ℕ → Text → ℕ
polynomial a [] = a
polynomial a (c ∷ value) = polynomial (a * 31 + c) value

step_mod : (a c : ℕ) → ((a % 4294967296) * 31 + c) % 4294967296 ≡ (a * 31 + c) % 4294967296
step_mod a c = omega arith

hash_from-polynomial :
    (a : ℕ) (value : Text) → hash_from (a % 4294967296) value ≡ polynomial a value % 4294967296
unfolding hash_from
hash_from-polynomial a [] = refl
hash_from-polynomial a (c ∷ value) =
    ap (λ h. hash_from h value) (step_mod a c) ∙ hash_from-polynomial (a * 31 + c) value

-- The hue is the polynomial of the seed's units at 31, without overflow, taken modulo 2 ^ 32 and
-- then 360, and it is below 360.
pub avatar_hue-polynomial :
    (seed : Option Text)
    → (avatar_hue seed ≡ (polynomial 0 (seed_text seed) % 4294967296) % 360)
      × (avatar_hue seed < 360)
unfolding avatar_hue
avatar_hue-polynomial seed =
    (ap (λ h. h % 360) (hash_from-polynomial 0 (seed_text seed)), omega arith)
