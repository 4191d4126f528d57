-- ===== src/Base/Sort.antt =====
-- `Array.prototype.sort` with a comparator: the stable sort, as insertion from the right. `le a b`
-- says that the comparator puts `a` no later than `b`.
use Prim.Native.Nat.{ℕ, suc, ◌+◌}
use mathlib.Core.Path.{◌≡◌, refl}
use mathlib.Core.Logic.{inl, inr}
use mathlib.Core.Bool.{Bool, true, false}
use mathlib.Core.List.{List, [], ◌∷◌}
use native.Mathlib.Omega.{arith}
use tenancit.Base.Tests.{if◌then◌else◌, Bool-cases}
use tenancit.Base.Lists.{length, All, All-map}

-- How many elements pass a test.
abbrev pub count {ℓ} : {A : Type ℓ} → (A → Bool) → List A → ℕ
count p [] = 0
count p (x ∷ xs) = (if p x then 1 else 0) + count p xs

module _ {ℓ} {A : Type ℓ} (le : A → A → Bool) where
  unfoldable pub insert : A → List A → List A
  insert x [] = x ∷ []
  insert x (y ∷ ys) = if le x y then x ∷ (y ∷ ys) else y ∷ insert x ys

  unfoldable pub sort : List A → List A
  unfolding insert
  sort [] = []
  sort (x ∷ xs) = insert x (sort xs)

  -- Each element is no later than all after it.
  abbrev pub IsSorted : List A → Type 0
  IsSorted [] = Unit
  IsSorted (x ∷ xs) = All (λ y. le x y ≡ true) xs × IsSorted xs

  count-insert : (p : A → Bool) (x : A) (ys : List A) → count p (insert x ys) ≡ count p (x ∷ ys)
  unfolding insert
  count-insert p x [] = refl
  count-insert p x (y ∷ ys) = ground (arith, count-insert p x ys)

  pub count-sort : (p : A → Bool) (xs : List A) → count p (sort xs) ≡ count p xs
  unfolding sort
  count-sort p [] = refl
  count-sort p (x ∷ xs) = omega (arith, count-insert p x (sort xs), count-sort p xs)

  length-insert : (x : A) (ys : List A) → length (insert x ys) ≡ suc (length ys)
  unfolding insert
  length-insert x [] = refl
  length-insert x (y ∷ ys) = ground (arith, length-insert x ys)

  pub length-sort : (xs : List A) → length (sort xs) ≡ length xs
  unfolding sort
  length-sort [] = refl
  length-sort (x ∷ xs) = omega (arith, length-insert x (sort xs), length-sort xs)

  module _ {κ} (P : A → Type κ) where
    All-insert : (x : A) (ys : List A) → P x → All P ys → All P (insert x ys)
    unfolding insert
    All-insert x [] h k = (h, tt)
    All-insert x (y ∷ ys) h (k, ks) = elim (Bool-cases (le x y)) [
      | inl before ↦ rw before (h, (k, ks))
      | inr after ↦ rw after (k, All-insert x ys h ks)
    ]

    pub All-sort : (xs : List A) → All P xs → All P (sort xs)
    unfolding sort
    All-sort [] h = tt
    All-sort (x ∷ xs) (h, hs) = All-insert x (sort xs) h (All-sort xs hs)

    All-of_insert : (x : A) (ys : List A) → All P (insert x ys) → P x × All P ys
    unfolding insert
    All-of_insert x [] h = h
    All-of_insert x (y ∷ ys) h = elim (Bool-cases (le x y)) [
      | inl before ↦ rw before at h
      | inr after ↦
          let (k, ks) = rw after at h in let (px, pys) = All-of_insert x ys ks in (px, (k, pys))
    ]

    pub All-of_sort : (xs : List A) → All P (sort xs) → All P xs
    unfolding sort
    All-of_sort [] h = tt
    All-of_sort (x ∷ xs) h = let (k, ks) = All-of_insert x (sort xs) h in (k, All-of_sort xs ks)

  module _ (total : (a b : A) → le a b ≡ false → le b a ≡ true)
      (trans : (a b c : A) → le a b ≡ true → le b c ≡ true → le a c ≡ true) where
    insert-IsSorted : (x : A) (ys : List A) → IsSorted ys → IsSorted (insert x ys)
    unfolding insert
    insert-IsSorted x [] h = (tt, tt)
    insert-IsSorted x (y ∷ ys) (first, rest) = elim (Bool-cases (le x y)) [
      | inl before ↦
          rw before ((before, All-map _ _ ys (λ z h. trans x y z before h) first), (first, rest))
      | inr after ↦
          rw after (
            All-insert (λ z. le y z ≡ true) x ys (total x y after) first,
            insert-IsSorted x ys rest,
          )
    ]

    pub sort-IsSorted : (xs : List A) → IsSorted (sort xs)
    unfolding sort
    sort-IsSorted [] = tt
    sort-IsSorted (x ∷ xs) = insert-IsSorted x (sort xs) (sort-IsSorted xs)
