-- ===== src/Lint/Tests.antt =====
-- A component that a hook and a test import, and the hook's route.
use tenancit.Base.{
  ◌≡◌, ◌↔◌, inl, inr, refl, Bool, false, List, [], ◌∷◌, Text, codes, text_eq, arith, Bool-cases,
  if◌then◌else◌,
}
use tenancit.Lint.Search.{run, start, route_consumers, turn, turn_at, visit, visit_all}
use tenancit.Lint.Sound.{In, IsConsumer}
use tenancit.Lint.Consumers.{route_consumers-IsConsumer}

abbrev importers : Text → List Text
importers x =
    if text_eq x (codes "card")
    then codes "use-card" ∷ codes "card.test" ∷ []
    else if text_eq x (codes "use-card")
    then codes "page" ∷ codes "card" ∷ []
    else []

abbrev files : List Text
files = codes "card" ∷ codes "use-card" ∷ codes "card.test" ∷ codes "page" ∷ []

abbrev is_test : Text → Bool
is_test x = text_eq x (codes "card.test")

abbrev is_route : Text → Bool
is_route x = text_eq x (codes "page")

known : (x i : Text) → In i (importers x) → In i files
known x i h = elim (Bool-cases (text_eq x (codes "card"))) [
  | inl card ↦ let k = rw card at h in ground arith
  | inr other ↦ elim (Bool-cases (text_eq x (codes "use-card"))) [
    | inl hook ↦ let k = rw (other, hook) at h in ground arith
    | inr neither ↦ cc (rw (other, neither) at h)
  ]
]

consumers : route_consumers importers is_test is_route 5 (codes "card") ≡ codes "page" ∷ []
unfolding route_consumers run turn turn_at visit visit_all text_eq
consumers = refl

card_plain : is_test (codes "card") ≡ false
unfolding text_eq
card_plain = refl

card_no_route : is_route (codes "card") ≡ false
unfolding text_eq
card_no_route = refl

route_consumers-IsConsumer_example :
    ((run importers is_test is_route 5 (start (codes "card"))).stack ≡ [])
    × (In (codes "page") (route_consumers importers is_test is_route 5 (codes "card"))
        ↔ IsConsumer importers is_test is_route (codes "card") (codes "page"))
route_consumers-IsConsumer_example =
    route_consumers-IsConsumer importers is_test is_route (codes "card") files known card_plain
      card_no_route (codes "page")
