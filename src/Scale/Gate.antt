-- ===== src/Scale/Gate.antt =====
-- web/src/lib/scale-gate.ts: the decision whether the admin lists need pagination, and the
-- percentile of a benchmark. `hardTriggers` is a list of texts, of which only the length is read.
use tenancit.Base.{
  is_empty, ℕ, ◌-◌, Bool, not, ◌&&◌, List, Option, none, some, Text, String, leb, ltb, ◌==◌,
  if◌then◌else◌, length, filter, head?, get_elem?, trim, ℤ, pos, negsuc,
}
use tenancit.Base.Sort.{sort}
use tenancit.Validation.Defs.{is_safe_integer}

-- The thresholds that the gate reads.
abbrev pub soft_items : ℕ
soft_items = 500

abbrev pub soft_payload_bytes : ℕ
soft_payload_bytes = 256000

abbrev pub hard_items : ℕ
hard_items = 2000

abbrev pub hard_payload_bytes : ℕ
hard_payload_bytes = 512000

pub record CapacityPoint : Type 0 where
  pub cardinality : ℕ
  pub hard_triggers : List String
  pub soft_item_count : Bool
  pub soft_payload : Bool

pub data ScaleDecision : Type 0 where
  keep_full_lists open_pagination_epic : ScaleDecision

pub data GateError : Type 0 where
  bad_volume no_samples bad_percentile : GateError

pub data Result {ℓ} (A : Type ℓ) : Type ℓ where
  ok : A → Result A
  throw : GateError → Result A

-- `Number.isSafeInteger(parsed) && parsed >= 0`, for an integral value.
safe_volume : ℤ → Result ℕ
safe_volume (pos n) = if is_safe_integer (pos n) then ok n else throw bad_volume
safe_volume (negsuc n) = throw bad_volume

read_volume : Option ℤ → Bool → Result ℕ
read_volume none blank = throw bad_volume
read_volume (some parsed) blank = if blank then throw bad_volume else safe_volume parsed

-- `to_number` is `Number`, with `none` where that gives no integral value; `none` for the text is
-- an environment variable that is not set.
unfoldable pub parse_observed_operational_volume :
    (to_number : Text → Option ℤ) → Option Text → Result ℕ
unfolding read_volume safe_volume
parse_observed_operational_volume to_number none = ok 0
parse_observed_operational_volume to_number (some value) =
    read_volume (to_number value) (is_empty (trim value))

-- `sorted[rank - 1]`; the model's error for a read out of range.
unfoldable pub read_rank {ℓ} : {A : Type ℓ} → List A → ℕ → Option A
read_rank sorted rank = get_elem? sorted (rank - 1)

-- `le` is the order of the samples, `in_range` the test 0 < percentile <= 1, and `ceil_rank n` the
-- number Math.ceil(n * percentile). The inner option is `undefined`, a read out of range.
unfoldable pub nearest_rank {ℓ} :
    {A : Type ℓ} (le : A → A → Bool) (in_range : Bool) (ceil_rank : ℕ → ℕ)
    → List A
    → Result (Option A)
nearest_rank le in_range ceil_rank values =
    if length values == 0
    then throw no_samples
    else if not in_range
    then throw bad_percentile
    else ok (read_rank (sort le values) (ceil_rank (length values)))

-- The comparator `b.cardinality - a.cardinality`.
abbrev pub larger_first : CapacityPoint → CapacityPoint → Bool
larger_first a b = leb b.cardinality a.cardinality

abbrev pub at_most : ℕ → CapacityPoint → Bool
at_most observed point = leb point.cardinality observed

unfoldable pub operational_point : ℕ → List CapacityPoint → Option CapacityPoint
operational_point observed points = head? (sort larger_first (filter (at_most observed) points))

-- The three returns behind the choice of the point.
unfoldable pub decide_at : Option CapacityPoint → ScaleDecision
decide_at none = keep_full_lists
decide_at (some point) =
    if ltb 0 (length point.hard_triggers)
    then open_pagination_epic
    else if point.soft_item_count && point.soft_payload
    then open_pagination_epic
    else keep_full_lists

unfoldable pub decide_scale_gate : ℕ → List CapacityPoint → ScaleDecision
decide_scale_gate observed points =
    if leb hard_items observed
    then open_pagination_epic
    else decide_at (operational_point observed points)
