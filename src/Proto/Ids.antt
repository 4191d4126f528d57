-- ===== src/Proto/Ids.antt =====
-- The identifiers that a page draws.
use tenancit.Base.{
  after_last, Distinct, ℕ, ◌+◌, ◌≤◌, ◌<◌, ◌≡◌, ◌≢◌, inl, inr, refl, sym, ap, ◌∙◌, Bool, List, [],
  ◌∷◌, ◌++◌, map, filter, Text, All, All-map, All-append, arith, Bool-cases,
}
use tenancit.Proto.Store.{Platform, uid}

-- The platform's decimals tell the numbers apart, and have no dash.
pub record Numerals (p : Platform) : Type 0 where
  pub decimal-injective : (m n : ℕ) → Platform.decimal p m ≡ Platform.decimal p n → m ≡ n
  pub decimal_digits : (n : ℕ) → All (λ c. c ≢ b'-') (Platform.decimal p n)

append_assoc_dash :
    (a b c : Text) → a ++ (b'-' ∷ (b ++ (b'-' ∷ c))) ≡ (a ++ (b'-' ∷ b)) ++ (b'-' ∷ c)
append_assoc_dash [] b c = refl
append_assoc_dash (x ∷ a) b c = ap (λ t. x ∷ t) (append_assoc_dash a b c)

All-map-filter {ℓ κ} :
    {A : Type ℓ} (f : A → Text) (P : Text → Type κ) (test : A → Bool) (xs : List A)
    → All P (map f xs)
    → All P (map f (filter test xs))
All-map-filter f P test [] h = tt
All-map-filter f P test (x ∷ xs) (h, hs) = elim (Bool-cases (test x)) [
  | inl kept ↦ rw kept (h, All-map-filter f P test xs hs)
  | inr dropped ↦ rw dropped (All-map-filter f P test xs hs)
]

module _ (p : Platform) (numerals : Numerals p) where
  -- Identifiers of different draws differ, whatever their prefixes.
  uid-injective : (a b : Text) (m n : ℕ) → uid p a m ≡ uid p b n → m ≡ n
  unfolding uid
  uid-injective a b m n e =
      numerals.decimal-injective m n
        (after_last b'-' (a ++ (b'-' ∷ Platform.now p m)) (b ++ (b'-' ∷ Platform.now p n)) _ _
          (numerals.decimal_digits m) (numerals.decimal_digits n)
          (sym (append_assoc_dash a (Platform.now p m) (Platform.decimal p m))
            ∙ e
            ∙ append_assoc_dash b (Platform.now p n) (Platform.decimal p n))).1

  -- No identifier that is still to be drawn.
  abbrev pub IsPast : ℕ → Text → Type 0
  IsPast n id = (prefix : Text) (k : ℕ) → n ≤ k → id ≢ uid p prefix k

  -- Identifiers of one list: no two alike, and none that is still to be drawn.
  abbrev pub IsNumbered : ℕ → List Text → Type 0
  IsNumbered n ids = Distinct ids × All (IsPast n) ids

  later-IsPast : (m n : ℕ) (id : Text) → m ≤ n → IsPast m id → IsPast n id
  later-IsPast m n id le h prefix k at = h prefix k (omega arith)

  uid-IsPast : (prefix : Text) (n : ℕ) → IsPast (n + 1) (uid p prefix n)
  uid-IsPast prefix n other k le e =
      let same = uid-injective prefix other n k e in absurd (omega arith)

  snoc-Distinct :
      (xs : List Text) (x : Text) → Distinct xs → All (λ y. y ≢ x) xs → Distinct (xs ++ (x ∷ []))
  snoc-Distinct [] x d h = (tt, tt)
  snoc-Distinct (y ∷ xs) x (a, d) (ne, h) =
      (All-append (λ z. y ≢ z) xs (x ∷ []) a (ne, tt), snoc-Distinct xs x d h)

  pub later-IsNumbered : (m n : ℕ) (ids : List Text) → m ≤ n → IsNumbered m ids → IsNumbered n ids
  later-IsNumbered m n ids le (d, h) = (d, All-map _ _ ids (λ id. later-IsPast m n id le) h)

  pub snoc-IsNumbered :
      (prefix : Text) (m n k : ℕ) (ids : List Text)
      → m ≤ n
      → n < k
      → IsNumbered m ids
      → IsNumbered k (ids ++ (uid p prefix n ∷ []))
  snoc-IsNumbered prefix m n k ids le lt (d, h) = (
    snoc-Distinct ids (uid p prefix n) d (All-map _ _ ids (λ id past. past prefix n le) h),
    All-append (IsPast k) ids (uid p prefix n ∷ [])
        (All-map _ _ ids (λ id. later-IsPast m k id (omega arith)) h)
        (later-IsPast (n + 1) k (uid p prefix n) (omega arith) (uid-IsPast prefix n), tt),
  )

  pub filter-IsNumbered {ℓ} :
      {A : Type ℓ} (id_of : A → Text) (test : A → Bool) (n : ℕ) (xs : List A)
      → IsNumbered n (map id_of xs)
      → IsNumbered n (map id_of (filter test xs))
  filter-IsNumbered id_of test n [] h = h
  filter-IsNumbered id_of test n (x ∷ xs) ((a, d), (i, is)) =
      let (rest, past) = filter-IsNumbered id_of test n xs (d, is) in
      elim (Bool-cases (test x)) [
        | inl kept ↦ rw kept ((All-map-filter id_of (λ y. id_of x ≢ y) test xs a, rest), (i, past))
        | inr dropped ↦ rw dropped (rest, past)
      ]
