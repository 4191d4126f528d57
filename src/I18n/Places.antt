-- ===== src/I18n/Places.antt =====
-- The places of a message, and that the messages of the languages have the same.
use tenancit.Base.{
  ℕ, ◌≡◌, inl, inr, refl, sym, ap, ◌∙◌, Bool, true, false, not, ◌&&◌, List, [], ◌∷◌, ◌++◌, Option,
  none, some, Text, text_eq, text_eq_iff, All, is_empty, arith, ◌==◌, if◌then◌else◌, Bool-cases,
}
use tenancit.I18n.Defs.{own_property, read_unit, replace_from, is_word}

-- The words between braces, in their order.
abbrev pub places_from : Option Text → Text → List Text
places_from word [] = []
places_from none (c ∷ s) = places_from (if c == b'{' then some [] else none) s
places_from (some word) (c ∷ s) =
    let closed = c == b'}' && not (is_empty word) in
    let rest =
      places_from
        (if is_word c then some (word ++ (c ∷ [])) else if c == b'{' then some [] else none) s in
    if closed then word ∷ rest else rest

abbrev pub places : Text → List Text
places = places_from none

abbrev pub same_texts : List Text → List Text → Bool
same_texts [] [] = true
same_texts [] (_ ∷ _) = false
same_texts (_ ∷ _) [] = false
same_texts (a ∷ s) (b ∷ t) = text_eq a b && same_texts s t

-- Two dictionaries of the same keys, whose messages have the same places.
abbrev pub is_aligned : List (Text × Text) → List (Text × Text) → Bool
is_aligned [] [] = true
is_aligned [] (_ ∷ _) = false
is_aligned (_ ∷ _) [] = false
is_aligned ((k, m) ∷ s) ((l, n) ∷ t) =
    text_eq k l && (same_texts (places m) (places n) && is_aligned s t)

same_texts_eq : (s t : List Text) → same_texts s t ≡ true → s ≡ t
same_texts_eq [] [] h = refl
same_texts_eq [] (_ ∷ _) h = absurd cc
same_texts_eq (_ ∷ _) [] h = absurd cc
same_texts_eq (a ∷ s) (b ∷ t) h =
    let head_eq = (text_eq_iff a b).0 (ground arith) in
    let tail_eq = same_texts_eq s t (ground arith) in cc

-- A key of the one dictionary stands in the other.
pub aligned_property :
    (s t : List (Text × Text)) (key m : Text)
    → is_aligned s t ≡ true
    → own_property key s ≡ some m
    → (n : Text) × (own_property key t ≡ some n) × (places n ≡ places m)
aligned_property [] t key m h e = absurd cc
aligned_property (_ ∷ _) [] key m h e = absurd cc
aligned_property ((k, a) ∷ s) ((l, b) ∷ t) key m h e =
    let same = (text_eq_iff k l).0 (ground arith) in
    let alike = same_texts_eq (places a) (places b) (ground arith) in
    elim (Bool-cases (text_eq k key)) [
      | inl hit ↦
          let found : some a ≡ some m = rw hit at e in
          let same_message : a ≡ m = cc in
          (b, rw (sym same, hit) refl, sym alike ∙ ap places same_message)
      | inr miss ↦
          let (n, there, alike_there) = aligned_property s t key m (ground arith) (rw miss at e) in
          (n, rw (sym same, miss) there, alike_there)
    ]

-- A brace is no unit of a word.
pub word_apart : (c : ℕ) → is_word c ≡ true → ((c == b'{') ≡ false) × ((c == b'}') ≡ false)
unfolding is_word
word_apart c h = (ground arith, ground arith)

-- What is written depends on the words of the places only.
pub replace_from-agrees :
    (f g : Text → Text) (word : Option Text) (s : Text)
    → All (λ w. f w ≡ g w) (places_from word s)
    → replace_from f word s ≡ replace_from g word s
unfolding replace_from read_unit
replace_from-agrees f g none [] h = refl
replace_from-agrees f g (some w) [] h = refl
replace_from-agrees f g none (c ∷ s) h = elim (Bool-cases (c == b'{')) [
  | inl brace ↦ rw brace (replace_from-agrees f g (some []) s (rw brace at h))
  | inr other ↦ rw other (ap (λ t. c ∷ t) (replace_from-agrees f g none s (rw other at h)))
]
replace_from-agrees f g (some w) (c ∷ s) h = elim (Bool-cases (is_word c)) [
  | inl word ↦
      let shut = (word_apart c word).1 in
      rw word (replace_from-agrees f g (some (w ++ (c ∷ []))) s (rw (word, shut) at h))
  | inr other ↦ elim (Bool-cases (c == b'{')) [
    | inl brace ↦
        let shut : (c == b'}') ≡ false = ground arith in
        rw (other, brace)
          (ap (λ t. b'{' ∷ (w ++ t))
            (replace_from-agrees f g (some []) s (rw (other, brace, shut) at h)))
    | inr plain ↦ elim (Bool-cases (c == b'}' && not (is_empty w))) [
      | inl shut ↦
          let (same, rest) = rw (other, plain, shut) at h in
          rw (other, plain, shut) (let more = replace_from-agrees f g none s rest in cc)
      | inr kept ↦
          rw (other, plain, kept)
            (ap (λ t. b'{' ∷ ((w ++ (c ∷ [])) ++ t))
              (replace_from-agrees f g none s (rw (other, plain, kept) at h)))
    ]
  ]
]
