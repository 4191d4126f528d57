-- ===== src/Catalogue/Tests.antt =====
-- A catalogue of one flow, and an instance of the theorem.
use tenancit.Base.{
  ℕ, zero, suc, ◌+◌, ◌≡◌, ◌↔◌, refl, Bool, true, false, not, List, [], ◌∷◌, ◌++◌, map, length, Text,
  codes, text_eq, is_empty, All, All-map, all_iff, Distinct, none, some, arith, ◌==◌, if◌then◌else◌,
}
use tenancit.Catalogue.Defs.{
  ReadmeRow, confirmed, markdown_errors, step_count, FlowFile, Flows, SpecStep, read_flow,
  read_flows, sequence_errors, spec_errors, claim_step, claim_steps, missing_of, missing_steps,
  step_repeated, step_out_of_range, step_out_of_sequence, step_missing, call_total,
}
use tenancit.Catalogue.Steps.{InRange}
use tenancit.Catalogue.Claims.{HasPath}
use tenancit.Catalogue.Readme.{
  check_catalog, readme_errors, rows_errors, row_errors, tier_errors, mapped_specs, missing_rows,
}
use tenancit.Catalogue.Checked.{IsCatalog, check_catalog-IsCatalog}
use tenancit.Catalogue.Agreement.{Decimals, HasCall, called_step, spec_errors-nil_iff}

abbrev digit : ℕ → Text
digit n = (n + 48) ∷ []

same_digit : (m n : ℕ) → digit m ≡ digit n → m ≡ n
same_digit m n e = let same : m + 48 ≡ n + 48 = cc in omega arith

abbrev digits : Decimals digit
digits = record {
  decimal-injective = same_digit;
  decimal_digits = λ n. ((λ e. absurd (omega arith)), tt);
}

abbrev file : FlowFile
file = record {
  name = codes "login.md";
  id = some (codes "login");
  status = none;
  steps = 1 ∷ 3 ∷ [];
}

abbrev one_flow : Flows
one_flow =
    (
      codes "login",
      record {
        id = codes "login";
        path = codes "login.md";
        steps = 1 ∷ 3 ∷ [];
        status = codes "confirmed";
      },
    )
    ∷ []

read :
    read_flows (λ name. codes "login") (λ name. name) (file ∷ []) []
    ≡ (step_out_of_sequence (codes "login.md") 3 2 ∷ [], one_flow)
unfolding read_flows read_flow sequence_errors text_eq
read = refl

abbrev calls : List SpecStep
calls =
    record { flow_id = codes "login"; number = 1; path = codes "a.e2e.test.ts" }
    ∷ record { flow_id = codes "login"; number = 1; path = codes "b.e2e.test.ts" }
    ∷ record { flow_id = codes "login"; number = 4; path = codes "b.e2e.test.ts" }
    ∷ []

call_errors :
    spec_errors digit one_flow calls
    ≡ step_repeated (codes "b.e2e.test.ts") (codes "login#1") (codes "a.e2e.test.ts")
      ∷ step_out_of_range (codes "b.e2e.test.ts") (codes "login") 4
      ∷ step_missing (codes "login#3")
      ∷ call_total 3
      ∷ []
unfolding spec_errors claim_steps claim_step missing_steps missing_of text_eq is_empty
call_errors = refl

spec_errors-nil_iff_example : (spec_errors digit one_flow calls ≡ []) ↔ (
    All (InRange digit one_flow) calls
    × Distinct (map called_step calls)
    × All (λ f. All (λ n. HasCall calls f.1.id n) f.1.steps) one_flow
    × (length calls ≡ 147))
unfolding is_empty
spec_errors-nil_iff_example =
    spec_errors-nil_iff digit digits one_flow calls (refl, (refl, (refl, tt)))

not_empty : {b : Bool} → not b ≡ true → b ≡ false
not_empty h = ground arith

-- A catalogue of twenty flows, nineteen of seven steps and one of fourteen.
abbrev upto : ℕ → List ℕ
upto zero = []
upto (suc n) = upto n ++ (suc n ∷ [])

abbrev flow_name : ℕ → Text
flow_name k = (k + 64) ∷ []

abbrev steps_of : ℕ → List ℕ
steps_of k = upto (if k == 20 then 14 else 7)

abbrev files : List FlowFile
files =
    map
      (λ k. record {
        name = flow_name k;
        id = some (flow_name k);
        status = none;
        steps = steps_of k;
      })
      (upto 20)

abbrev all_calls : List ℕ → List SpecStep
all_calls [] = []
all_calls (k ∷ rest) =
    map (λ n. record { flow_id = flow_name k; number = n; path = flow_name k }) (steps_of k)
    ++ all_calls rest

abbrev rows : List ReadmeRow
rows =
    map
      (λ k. record {
        flow_id = flow_name k;
        spec = flow_name k;
        step_pattern = b'[' ∷ (flow_name k ++ codes "#N] título");
        tier = codes "full";
        first_step = 1;
        last_step = length (steps_of k);
      })
      (upto 20)

paths : All HasPath (all_calls (upto 20))
unfolding is_empty
paths =
    All-map (λ s. not (is_empty s.path) ≡ true) HasPath (all_calls (upto 20)) (λ s h. not_empty h)
      ((all_iff (λ s. not (is_empty s.path)) (all_calls (upto 20))).0 refl)

check_catalog-IsCatalog_example :
    IsCatalog digit
      (λ path. path)
      (λ spec. some (codes "full" ∷ []))
      (confirmed (read_flows (λ name. name) (λ name. name) files []).1)
      (all_calls (upto 20))
      rows
unfolding check_catalog read_flows read_flow sequence_errors confirmed step_count markdown_errors
    spec_errors claim_steps claim_step missing_steps missing_of readme_errors rows_errors row_errors
    tier_errors mapped_specs missing_rows text_eq is_empty
check_catalog-IsCatalog_example =
    check_catalog-IsCatalog digit (λ path. path) (λ spec. some (codes "full" ∷ [])) digits
      (λ name. name) (λ name. name) files (all_calls (upto 20)) rows [] [] [] paths refl
