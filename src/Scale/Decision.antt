-- ===== src/Scale/Decision.antt =====
-- The choice of the operational point, and the decision at it.
use mathlib.Core.List.{Memᴰ}
use tenancit.Base.{
  ℕ, ◌≤◌, ◌<◌, ◌≡◌, ◌≢◌, ◌↔◌, ◌⊎◌, inl, inr, refl, sym, subst, true, false, List, [], ◌∷◌, some,
  arith, length-pos_iff, All, All-map, leb, List-cases, All-filter, All-of_filter, filter-All,
  All-self, filter,
}
use native.Mathlib.Nat.{le_refl}
use tenancit.Base.Sort.{All-sort, All-of_sort, sort, IsSorted, sort-IsSorted}
use tenancit.Scale.Gate.{
  CapacityPoint, larger_first, at_most, operational_point, decide_at, decide_scale_gate,
  open_pagination_epic, keep_full_lists,
}

-- A point that opens the epic: a hard trigger, or both soft ones.
abbrev pub Escalates : CapacityPoint → Type 0
Escalates p = (p.hard_triggers ≢ []) ⊎ ((p.soft_item_count ≡ true) × (p.soft_payload ≡ true))

-- One of the points at or below the volume, of the largest such cardinality.
pub record IsOperational (observed : ℕ) (points : List CapacityPoint) (p : CapacityPoint)
    : Type 0 where
  pub listed : Memᴰ p points
  pub within : p.cardinality ≤ observed
  pub largest :
      All (λ (q : CapacityPoint). q.cardinality ≤ observed → q.cardinality ≤ p.cardinality) points

abbrev eligible : ℕ → List CapacityPoint → List CapacityPoint
eligible observed points = filter (at_most observed) points

larger_first-total : (a b : CapacityPoint) → larger_first a b ≡ false → larger_first b a ≡ true
larger_first-total a b h = ground arith

larger_first_trans :
    (a b c : CapacityPoint)
    → larger_first a b ≡ true
    → larger_first b c ≡ true
    → larger_first a c ≡ true
larger_first_trans a b c h k = ground arith

head-IsOperational :
    (observed : ℕ) (points : List CapacityPoint) (p : CapacityPoint) (rest : List CapacityPoint)
    → sort larger_first (eligible observed points) ≡ p ∷ rest
    → IsOperational observed points p
head-IsOperational observed points p rest e =
    let found = eligible observed points in
    let at_head = λ (P : CapacityPoint → Type 0) (h : All P found).
      (subst (All P) e (All-sort larger_first P found h)).0 in
    let sorted =
      subst (IsSorted larger_first) e
        (sort-IsSorted larger_first larger_first-total larger_first_trans found) in
    let below =
      All-map _ (λ (q : CapacityPoint). q.cardinality ≤ p.cardinality) rest (λ q h. ground arith)
        sorted.0 in
    let largest =
      All-of_sort larger_first (λ (q : CapacityPoint). q.cardinality ≤ p.cardinality) found
        (subst (All (λ (q : CapacityPoint). q.cardinality ≤ p.cardinality)) (sym e)
          (le_refl _, below)) in
    let within = at_head (λ q. at_most observed q ≡ true) (filter-All (at_most observed) points) in
    record {
      listed =
          at_head (λ q. Memᴰ q points)
            (All-filter (λ q. Memᴰ q points) (at_most observed) points (All-self points));
      within = ground arith;
      largest =
          All-map _ _ points (λ q h fits. h (ground arith))
            (All-of_filter (λ (q : CapacityPoint). q.cardinality ≤ p.cardinality) (at_most observed)
              points largest);
    }

none_below :
    (observed : ℕ) (points : List CapacityPoint)
    → sort larger_first (eligible observed points) ≡ []
    → All (λ (q : CapacityPoint). observed < q.cardinality) points
none_below observed points e =
    let empty =
      All-of_sort larger_first (λ q. ⊥) (eligible observed points)
        (subst (All (λ q. ⊥)) (sym e) tt) in
    All-map _ _ points (λ q h. ground arith)
      (All-of_filter (λ q. ⊥) (at_most observed) points empty)

decide_at_iff : (p : CapacityPoint) → (decide_at (some p) ≡ open_pagination_epic) ↔ Escalates p
unfolding decide_at
decide_at_iff p = ground (arith, length-pos_iff p.hard_triggers)

-- From an observed volume of 2,000 on the epic is opened.
from_hard_items :
    (observed : ℕ) (points : List CapacityPoint)
    → 2000 ≤ observed
    → decide_scale_gate observed points ≡ open_pagination_epic
unfolding decide_scale_gate
from_hard_items observed points h = ground arith

-- The epic is opened for a volume of at least 2,000. Below that, either every capacity point is
-- above the volume, and the full lists are kept, or the decision is that of a point at or below the
-- volume of the largest such cardinality: the epic is opened exactly when the point has a hard
-- trigger or both soft ones.
pub decide_scale_gate_cases :
    (observed : ℕ) (points : List CapacityPoint)
    → (2000 ≤ observed → decide_scale_gate observed points ≡ open_pagination_epic)
      × (observed < 2000
          → ((All (λ (q : CapacityPoint). observed < q.cardinality) points
                × (decide_scale_gate observed points ≡ keep_full_lists))
              ⊎ ((p : CapacityPoint) × IsOperational observed points p
                  × ((decide_scale_gate observed points ≡ open_pagination_epic) ↔ Escalates p))))
unfolding decide_scale_gate operational_point
decide_scale_gate_cases observed points = (
  from_hard_items observed points,
  λ below.
      let soft : leb 2000 observed ≡ false = ground arith in
      elim (List-cases (sort larger_first (eligible observed points))) [
        | inl nothing ↦
            inl (none_below observed points nothing, rw (soft, nothing) (unfold decide_at in refl))
        | inr (p, rest, e) ↦
            inr (p, head-IsOperational observed points p rest e, rw (soft, e) (decide_at_iff p))
      ],
)
