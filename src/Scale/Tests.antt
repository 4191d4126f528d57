-- ===== src/Scale/Tests.antt =====
-- The gate on the inputs of web/src/lib/scale-gate.test.ts, and instances of the theorems.
use tenancit.Base.{
  is_empty, ℕ, ◌≤◌, ◌<◌, ◌≡◌, ◌↔◌, ◌⊎◌, refl, true, false, not, List, [], ◌∷◌, arith, length, All,
  leb, some, ◌+◌, ◌-◌, ◌/◌, ◌*◌, none, codes, pos, Text, Option, ℤ, if◌then◌else◌, trim, is_space,
}
use tenancit.Base.Sort.{sort, count}
use tenancit.Scale.Gate.{
  CapacityPoint, ok, throw, bad_volume, no_samples, nearest_rank, read_rank, operational_point,
  decide_at, decide_scale_gate, open_pagination_epic, keep_full_lists,
  parse_observed_operational_volume,
}
use tenancit.Scale.Rank.{nearest_rank-order}
use tenancit.Scale.Decision.{IsOperational, Escalates, decide_scale_gate_cases}

abbrev idle : ℕ → CapacityPoint
idle n = record {
  cardinality = n;
  hard_triggers = [];
  soft_item_count = false;
  soft_payload = false;
}

abbrev busy : ℕ → CapacityPoint
busy n = record (idle n) { soft_item_count = true; soft_payload = true }

abbrev heavy : ℕ → CapacityPoint
heavy n = record (busy n) { hard_triggers = "payload" ∷ [] }

gates :
    (decide_scale_gate 100 (idle 100 ∷ heavy 5000 ∷ []) ≡ keep_full_lists)
    × (decide_scale_gate 2000 [] ≡ open_pagination_epic)
    × (decide_scale_gate 500 (idle 100 ∷ busy 500 ∷ []) ≡ open_pagination_epic)
unfolding decide_scale_gate operational_point decide_at sort
gates = (refl, refl, refl)

-- Math.ceil(n * 0.95).
abbrev ceil_95 : ℕ → ℕ
ceil_95 n = (n * 19 + 19) / 20

ceil_95_bounds : (n : ℕ) → 0 < n → (0 < ceil_95 n) × (ceil_95 n ≤ n)
ceil_95_bounds n h = (omega arith, omega arith)

leb-total : (a b : ℕ) → leb a b ≡ false → leb b a ≡ true
leb-total a b h = ground arith

leb_trans : (a b c : ℕ) → leb a b ≡ true → leb b c ≡ true → leb a c ≡ true
leb_trans a b c h k = ground arith

abbrev samples : List ℕ
samples = 7 ∷ 3 ∷ 9 ∷ 4 ∷ []

ranks :
    (nearest_rank leb true ceil_95 samples ≡ ok (some 9))
    × (nearest_rank leb true ceil_95 [] ≡ throw no_samples)
unfolding nearest_rank read_rank sort
ranks = (refl, refl)

nearest_rank-order_example :
    (v : ℕ) × (nearest_rank leb true ceil_95 samples ≡ ok (some v))
    × (ceil_95 (length samples) ≤ count (λ x. leb x v) samples)
    × (count (λ x. not (leb v x)) samples < ceil_95 (length samples))
nearest_rank-order_example =
    nearest_rank-order leb leb-total leb_trans ceil_95 ceil_95_bounds samples (λ e. cc)

decide_scale_gate_cases_example :
    (2000 ≤ 600 → decide_scale_gate 600 (idle 100 ∷ busy 500 ∷ []) ≡ open_pagination_epic)
    × (600 < 2000
        → ((All (λ (q : CapacityPoint). 600 < q.cardinality) (idle 100 ∷ busy 500 ∷ [])
              × (decide_scale_gate 600 (idle 100 ∷ busy 500 ∷ []) ≡ keep_full_lists))
            ⊎ ((p : CapacityPoint) × IsOperational 600 (idle 100 ∷ busy 500 ∷ []) p
                × ((decide_scale_gate 600 (idle 100 ∷ busy 500 ∷ []) ≡ open_pagination_epic)
                    ↔ Escalates p))))
decide_scale_gate_cases_example = decide_scale_gate_cases 600 (idle 100 ∷ busy 500 ∷ [])

-- A `Number` that reads one digit.
abbrev one_digit : Text → Option ℤ
one_digit [] = some (pos 0)
one_digit (c ∷ _) = if leb b'0' c then some (pos (c - b'0')) else none

volumes :
    (parse_observed_operational_volume one_digit none ≡ ok 0)
    × (parse_observed_operational_volume one_digit (some []) ≡ throw bad_volume)
    × (parse_observed_operational_volume one_digit (some (codes "7")) ≡ ok 7)
unfolding parse_observed_operational_volume is_empty trim is_space
    tenancit.Validation.Defs.is_safe_integer
volumes = (refl, refl, refl)
