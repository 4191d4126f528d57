-- ===== src/I18n/Filled.antt =====
-- What `replace(/\{(\w+)\}/g, ...)` is to do, and that `replace_from` does it.
use tenancit.Base.{
  ℕ, ◌≡◌, ◌≢◌, inl, inr, refl, sym, subst, ap, ◌∙◌, true, false, not, ◌&&◌, [], ◌∷◌, ◌++◌, none,
  some, Text, All, All-append, is_empty, is_empty_iff, arith, ◌==◌, ==_iff, Bool-cases,
}
use tenancit.I18n.Defs.{is_word, read_unit, replace_from}
use tenancit.I18n.Places.{word_apart}

abbrev pub IsWord : Text → Type 0
IsWord = All (λ c. is_word c ≡ true)

-- The place of a word, in front of a text.
abbrev pub place : Text → Text → Text
place word s = b'{' ∷ (word ++ (b'}' ∷ s))

-- A place stands at the front.
abbrev pub HasPlace : Text → Type 0
HasPlace s = (word : Text) × (rest : Text) × (word ≢ []) × IsWord word × (s ≡ place word rest)

-- From the left, each place is filled, and each other unit is kept.
pub data Filled (fill : Text → Text) : Text → Text → Type 0 where
  done : Filled fill [] []
  filled :
      (word s t : Text)
      → word ≢ []
      → IsWord word
      → Filled fill s t
      → Filled fill (place word s) (fill word ++ t)
  kept : (c : ℕ) (s t : Text) → ¬ HasPlace (c ∷ s) → Filled fill s t → Filled fill (c ∷ s) (c ∷ t)

append_unit : (s : Text) (c : ℕ) (t : Text) → (s ++ (c ∷ [])) ++ t ≡ s ++ (c ∷ t)
append_unit [] c t = refl
append_unit (d ∷ s) c t = ap (λ u. d ∷ u) (append_unit s c t)

-- A word in front of another unit is read in one way.
same_word :
    (a b : Text) (c d : ℕ) (s t : Text)
    → IsWord a
    → IsWord b
    → is_word c ≡ false
    → is_word d ≡ false
    → a ++ (c ∷ s) ≡ b ++ (d ∷ t)
    → (a ≡ b) × (c ≡ d)
same_word [] [] c d s t ha hb hc hd e = (refl, cc)
same_word [] (y ∷ b) c d s t ha (hy, hb) hc hd e =
    let same : c ≡ y = cc in absurd (let clash = sym hc ∙ ap is_word same ∙ hy in cc)
same_word (x ∷ a) [] c d s t (hx, ha) hb hc hd e =
    let same : x ≡ d = cc in absurd (let clash = sym hx ∙ ap is_word same ∙ hd in cc)
same_word (x ∷ a) (y ∷ b) c d s t (hx, ha) (hy, hb) hc hd e =
    let (rest, unit) = same_word a b c d s t ha hb hc hd cc in let first : x ≡ y = cc in (cc, unit)

brace_is_no_word : (is_word b'{' ≡ false) × (is_word b'}' ≡ false)
unfolding is_word
brace_is_no_word = (refl, refl)

no_place_at : (c : ℕ) (s : Text) → (c == b'{') ≡ false → ¬ HasPlace (c ∷ s)
no_place_at c s other (word, rest, ne, w, e) =
    let same : c ≡ b'{' = cc in let hit = (==_iff c b'{').1 same in absurd cc

append_nil : (s : Text) → s ++ [] ≡ s
append_nil [] = refl
append_nil (c ∷ s) = ap (λ t. c ∷ t) (append_nil s)

no_brace : (word w rest : Text) → IsWord word → word ≢ w ++ (b'}' ∷ rest)
no_brace [] [] rest h e = absurd cc
no_brace [] (y ∷ w) rest h e = absurd cc
no_brace (x ∷ word) [] rest (hx, h) e =
    let same : x ≡ b'}' = cc in
    absurd (let clash = sym hx ∙ ap is_word same ∙ brace_is_no_word.1 in cc)
no_brace (x ∷ word) (y ∷ w) rest (hx, h) e =
    let tail_eq : word ≡ w ++ (b'}' ∷ rest) = cc in no_brace word w rest h tail_eq

module _ (fill : Text → Text) where
  -- Units of a word are kept.
  word_kept :
      (word s t : Text) → IsWord word → Filled fill s t → Filled fill (word ++ s) (word ++ t)
  word_kept [] s t h f = f
  word_kept (c ∷ word) s t (hc, h) f =
      kept c (word ++ s) (word ++ t) (no_place_at c (word ++ s) (word_apart c hc).0)
        (word_kept word s t h f)

  no_place_behind :
      (word : Text) (c : ℕ) (s : Text)
      → IsWord word
      → is_word c ≡ false
      → (c == b'}' && not (is_empty word)) ≡ false
      → ¬ HasPlace (b'{' ∷ (word ++ (c ∷ s)))
  no_place_behind word c s h other open_word (w, rest, ne, hw, e) =
      let tail_eq : word ++ (c ∷ s) ≡ w ++ (b'}' ∷ rest) = cc in
      let (same, brace) = same_word word w c b'}' s rest h hw other brace_is_no_word.1 tail_eq in
      let hit = (==_iff c b'}').1 brace in
      let none_yet : is_empty word ≡ true = ground arith in
      absurd (ne (sym same ∙ (is_empty_iff word).0 none_yet))

  no_place_at_end : (word : Text) → IsWord word → ¬ HasPlace (b'{' ∷ word)
  no_place_at_end word h (w, rest, ne, hw, e) = no_brace word w rest h cc

  -- A text, and a text behind a word that is open.
  Fills : Text → Type 0
  Fills s =
      Filled fill s (replace_from fill none s)
      × ((word : Text)
          → IsWord word
          → Filled fill (b'{' ∷ (word ++ s)) (replace_from fill (some word) s))

  end-Fills : Fills []
  unfolding Fills replace_from
  end-Fills = (
    done,
    λ word h.
        let left = append_nil word in
        let right = no_place_at_end word h in
        subst (λ t. Filled fill (b'{' ∷ t) (b'{' ∷ word)) (sym left)
          (kept b'{' word word right
            (subst (λ t. Filled fill t t) left (word_kept word [] [] h done))),
  )

  unit-Fills : (c : ℕ) (s : Text) → Fills s → Fills (c ∷ s)
  unfolding Fills replace_from read_unit
  unit-Fills c s (plain, behind) = (
    elim (Bool-cases (c == b'{')) [
      | inl brace ↦
          let e = (==_iff c b'{').0 brace in
          rw brace (
            subst (λ d. Filled fill (d ∷ s) (replace_from fill (some []) s)) (sym e) (behind [] tt))
      | inr other ↦ rw other (kept c s (replace_from fill none s) (no_place_at c s other) plain)
    ],
    λ word h. elim (Bool-cases (is_word c)) [
      | inl letter ↦ rw letter (
          subst (λ t. Filled fill (b'{' ∷ t) (replace_from fill (some (word ++ (c ∷ []))) s))
            (append_unit word c s)
            (behind (word ++ (c ∷ [])) (All-append _ word (c ∷ []) h (letter, tt))))
      | inr other ↦ elim (Bool-cases (c == b'}' && not (is_empty word))) [
        | inl shut ↦
            let brace : (c == b'{') ≡ false = ground arith in
            let is_shut : (c == b'}') ≡ true = ground arith in
            let e = (==_iff c b'}').0 is_shut in
            let ne : word ≢ [] =
              λ none_yet. let f = (is_empty_iff word).1 none_yet in absurd (ground arith) in
            rw (other, brace, shut)
              (subst
                (λ d.
                  Filled fill (b'{' ∷ (word ++ (d ∷ s))) (fill word ++ replace_from fill none s))
                (sym e) (filled word s (replace_from fill none s) ne h plain))
        | inr left ↦
            let apart = no_place_behind word c s h other left in
            elim (Bool-cases (c == b'{')) [
              | inl brace ↦
                  let e = (==_iff c b'{').0 brace in
                  let again =
                    subst (λ d. Filled fill (d ∷ s) (replace_from fill (some []) s)) (sym e)
                      (behind [] tt) in
                  rw (other, brace)
                    (kept b'{' (word ++ (c ∷ s)) (word ++ replace_from fill (some []) s) apart
                      (word_kept word (c ∷ s) (replace_from fill (some []) s) h again))
              | inr unit ↦
                  rw (other, unit, left)
                    (subst (λ t. Filled fill (b'{' ∷ (word ++ (c ∷ s))) (b'{' ∷ t))
                      (sym (append_unit word c (replace_from fill none s)))
                      (kept b'{' (word ++ (c ∷ s)) (word ++ (c ∷ replace_from fill none s)) apart (
                        word_kept word (c ∷ s) (c ∷ replace_from fill none s) h
                          (kept c s (replace_from fill none s) (no_place_at c s unit) plain))))
            ]
      ]
    ],
  )

  all-Fills : (s : Text) → Fills s
  all-Fills [] = end-Fills
  all-Fills (c ∷ s) = unit-Fills c s (all-Fills s)

  -- From the left, each place, a word of letters, digits and low lines in braces, is filled, and
  -- every other unit is kept, in every text.
  pub replace_from-IsFilled : (s : Text) → Filled fill s (replace_from fill none s)
  unfolding Fills
  replace_from-IsFilled s = (all-Fills s).0
