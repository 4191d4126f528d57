-- ===== src/Scale/Rank.antt =====
-- The nearest rank of a sample.
use mathlib.Core.Option.{some-injective}
use tenancit.Base.{
  ℕ, zero, suc, ◌-◌, ◌≤◌, ◌<◌, ◌≡◌, ◌≢◌, inl, inr, refl, subst, Bool, true, false, not, List, [],
  ◌∷◌, some, arith, length, length-pos_iff, All, All-map, ◌==◌, get_elem?, Bool-cases,
}
use tenancit.Base.Sort.{sort, count, IsSorted, count-sort, length-sort, sort-IsSorted}
use tenancit.Scale.Gate.{nearest_rank, read_rank, ok}

get_elem?-some {ℓ} :
    {A : Type ℓ} (xs : List A) (i : ℕ) → i < length xs → (v : A) × (get_elem? xs i ≡ some v)
get_elem?-some [] i h = absurd (omega arith)
get_elem?-some (x ∷ xs) zero h = (x, refl)
get_elem?-some (x ∷ xs) (suc i) h = get_elem?-some xs i (omega arith)

All-get_elem? {ℓ κ} :
    {A : Type ℓ} (P : A → Type κ) (xs : List A) (i : ℕ) {v : A}
    → All P xs
    → get_elem? xs i ≡ some v
    → P v
All-get_elem? P [] i h e = cc
All-get_elem? P (x ∷ xs) zero (h, hs) e = subst P (some-injective _ _ e) h
All-get_elem? P (x ∷ xs) (suc i) (h, hs) e = All-get_elem? P xs i hs e

count-none {ℓ} :
    {A : Type ℓ} (p : A → Bool) (xs : List A) → All (λ x. p x ≡ false) xs → count p xs ≡ 0
count-none p [] h = refl
count-none p (x ∷ xs) (h, hs) = rw (h, count-none p xs hs)

module _ {A : Type 0} (le : A → A → Bool) (total : (a b : A) → le a b ≡ false → le b a ≡ true)
    (trans : (a b c : A) → le a b ≡ true → le b c ≡ true → le a c ≡ true) where
  le_self : (a : A) → le a a ≡ true
  le_self a = elim (Bool-cases (le a a)) [ inl h ↦ h | inr h ↦ total a a h ]

  -- In a sorted list, the element at `i` has more than `i` elements up to it, and at most `i`
  -- strictly before it.
  counts_at :
      (xs : List A) (i : ℕ) (v : A)
      → IsSorted le xs
      → get_elem? xs i ≡ some v
      → (i < count (λ x. le x v) xs) × (count (λ x. not (le v x)) xs ≤ i)
  counts_at [] i v h e = cc
  counts_at (x ∷ xs) zero v (first, rest) e =
      let same : x ≡ v = some-injective _ _ e in
      let before_v = subst (λ u. All (λ y. le u y ≡ true) xs) same first in
      let none_before = count-none (λ y. not (le v y)) xs (All-map _ _ xs (λ y h. rw h) before_v) in
      let x_v = subst (λ u. le x u ≡ true) same (le_self x) in
      let v_x = subst (λ u. le u x ≡ true) same (le_self x) in (ground arith, ground arith)
  counts_at (x ∷ xs) (suc i) v (first, rest) e =
      let (up_to, before) = counts_at xs i v rest e in
      let above = All-get_elem? (λ y. le x y ≡ true) xs i first e in (ground arith, ground arith)

-- With a total order of the samples and a rank from 1 to their number, the result is the sample of
-- that rank: so many samples at least are no later than it, and fewer than so many are strictly
-- before it.
pub nearest_rank-order :
    {A : Type 0} (le : A → A → Bool)
    → ((a b : A) → le a b ≡ false → le b a ≡ true)
    → ((a b c : A) → le a b ≡ true → le b c ≡ true → le a c ≡ true)
    → (ceil_rank : ℕ → ℕ) → ((n : ℕ) → 0 < n → (0 < ceil_rank n) × (ceil_rank n ≤ n))
    → (values : List A) → values ≢ []
    → (v : A) × (nearest_rank le true ceil_rank values ≡ ok (some v))
      × (ceil_rank (length values) ≤ count (λ x. le x v) values)
      × (count (λ x. not (le v x)) values < ceil_rank (length values))
unfolding nearest_rank read_rank
nearest_rank-order le total trans ceil_rank bounds values ne =
    let some_values = (length-pos_iff values).1 ne in
    let (positive, within) = bounds (length values) some_values in
    let nonempty : (length values == 0) ≡ false = ground arith in
    let sorted = sort-IsSorted le total trans values in
    let (v, found) =
      get_elem?-some (sort le values) (ceil_rank (length values) - 1)
        (omega (arith, length-sort le values)) in
    let (up_to, before) =
      counts_at le total trans (sort le values) (ceil_rank (length values) - 1) v sorted found in
    (
      v,
      rw (nonempty, found),
      omega (arith, count-sort le (λ x. le x v) values),
      omega (arith, count-sort le (λ x. not (le v x)) values),
    )
