-- ===== src/Catalogue/Defs.antt =====
-- scripts/check-e2e-catalog.ts, from what its patterns find in the files. The errors stand in the
-- order in which they are pushed, a constructor for each message.
use tenancit.Base.{
  ℕ, ◌+◌, Bool, true, false, not, ◌||◌, List, [], ◌∷◌, ◌++◌, filter, length, Option, none, some,
  Text, codes, text_eq, is_empty, ltb, ◌==◌, if◌then◌else◌,
}

-- A file of the flows: its name, and the matches of its identifier, its status and its steps.
pub record FlowFile : Type 0 where
  pub name : Text
  pub id : Option Text
  pub status : Option Text
  pub steps : List ℕ

pub record Flow : Type 0 where
  pub id : Text
  pub path : Text
  pub steps : List ℕ
  pub status : Text

pub record SpecStep : Type 0 where
  pub flow_id : Text
  pub number : ℕ
  pub path : Text

pub record ReadmeRow : Type 0 where
  pub flow_id : Text
  pub spec : Text
  pub step_pattern : Text
  pub tier : Text
  pub first_step : ℕ
  pub last_step : ℕ

pub data CatalogError : Type 0 where
  flow_without_id flow_without_steps : (path : Text) → CatalogError
  other_file_name flow_repeated : (path id : Text) → CatalogError
  step_out_of_sequence : (path : Text) (number expected : ℕ) → CatalogError
  flow_total step_total call_total row_total : ℕ → CatalogError
  unknown_flow : (path id : Text) → CatalogError
  step_out_of_range : (path id : Text) (number : ℕ) → CatalogError
  step_repeated : (path key owner : Text) → CatalogError
  step_missing : (key : Text) → CatalogError
  row_repeated row_unknown row_missing : (id : Text) → CatalogError
  row_range : (id : Text) (first last : ℕ) → CatalogError
  row_pattern row_owner : (id text : Text) → CatalogError
  row_spec : (spec : Text) → CatalogError
  row_tier : (id tier : Text) (found : List Text) → CatalogError
  file_error : (message : Text) → CatalogError

-- The maps, in the order of insertion.
abbrev pub get {ℓ} : {A : Type ℓ} → Text → List (Text × A) → Option A
get key [] = none
get key ((k, v) ∷ rest) = let other = get key rest in if text_eq k key then some v else other

abbrev pub set {ℓ} : {A : Type ℓ} → Text → A → List (Text × A) → List (Text × A)
set key v [] = (key, v) ∷ []
set key v ((k, w) ∷ rest) =
    let other = set key v rest in if text_eq k key then (k, v) ∷ rest else (k, w) ∷ other

abbrev pub is_some {ℓ} : {A : Type ℓ} → Option A → Bool
is_some none = false
is_some (some _) = true

abbrev pub or_else {ℓ} : {A : Type ℓ} → Option A → A → A
or_else none a = a
or_else (some b) a = b

-- `if (test) errors.push(error)`.
abbrev pub error_if : Bool → CatalogError → List CatalogError
error_if test error = if test then error ∷ [] else []

unfoldable pub sequence_errors : (path : Text) (index : ℕ) → List ℕ → List CatalogError
sequence_errors path index [] = []
sequence_errors path index (number ∷ rest) =
    error_if (not (number == index + 1)) (step_out_of_sequence path number (index + 1))
    ++ sequence_errors path (index + 1) rest

abbrev pub expected_flows : ℕ
expected_flows = 20

abbrev pub expected_steps : ℕ
expected_steps = 147

-- Flows by their identifier.
abbrev pub Flows : Type 0
Flows = List (Text × Flow)

-- `stem` is `basename(name, ".md")`, and `path_of` is `join(FLOWS_DIR, name)`.
module _ (stem path_of : Text → Text) where
  unfoldable pub read_flow : FlowFile → Flows → List CatalogError × Flows
  read_flow file flows = elim file.id [
    | none ↦ (flow_without_id (path_of file.name) ∷ [], flows)
    | some id ↦ (
      error_if (not (text_eq id (stem file.name))) (other_file_name (path_of file.name) id)
          ++ (error_if (is_some (get id flows)) (flow_repeated (path_of file.name) id)
              ++ (error_if (length file.steps == 0) (flow_without_steps (path_of file.name))
                  ++ sequence_errors (path_of file.name) 0 file.steps)),
      set id
          (record {
            id = id;
            path = path_of file.name;
            steps = file.steps;
            status = or_else file.status (codes "confirmed");
          })
          flows,
    )
  ]

  unfoldable pub read_flows : List FlowFile → Flows → List CatalogError × Flows
  read_flows [] flows = ([], flows)
  read_flows (file ∷ rest) flows =
      let here = read_flow file flows in
      let more = read_flows rest here.1 in (here.0 ++ more.0, more.1)

unfoldable pub confirmed : Flows → Flows
confirmed flows = filter (λ f. text_eq f.1.status (codes "confirmed")) flows

unfoldable pub step_count : Flows → ℕ
step_count [] = 0
step_count (f ∷ rest) = length f.1.steps + step_count rest

unfoldable pub markdown_errors : Flows → List CatalogError
markdown_errors flows =
    error_if (not (length flows == expected_flows)) (flow_total (length flows))
    ++ error_if (not (step_count flows == expected_steps)) (step_total (step_count flows))

-- `decimal` is the text of a number.
module _ (decimal : ℕ → Text) where
  abbrev pub step_key : Text → ℕ → Text
  step_key id number = id ++ (b'#' ∷ decimal number)

  -- A call of flowStep, and the owners of the steps: a key and the path of its first call.
  unfoldable pub claim_step :
      Flows → SpecStep → List (Text × Text) → List CatalogError × List (Text × Text)
  claim_step flows step owners = elim (get step.flow_id flows) [
    | none ↦ (unknown_flow step.path step.flow_id ∷ [], owners)
    | some flow ↦
        let key = step_key step.flow_id step.number in
        let range =
          error_if (ltb step.number 1 || ltb (length flow.steps) step.number)
            (step_out_of_range step.path step.flow_id step.number) in
        let owner = or_else (get key owners) [] in
        if is_empty owner
        then (range, set key step.path owners)
        else (range ++ (step_repeated step.path key owner ∷ []), owners)
  ]

  unfoldable pub claim_steps :
      Flows → List SpecStep → List (Text × Text) → List CatalogError × List (Text × Text)
  claim_steps flows [] owners = ([], owners)
  claim_steps flows (step ∷ rest) owners =
      let here = claim_step flows step owners in
      let more = claim_steps flows rest here.1 in (here.0 ++ more.0, more.1)

  unfoldable pub missing_of : (id : Text) → List ℕ → List (Text × Text) → List CatalogError
  missing_of id [] owners = []
  missing_of id (number ∷ rest) owners =
      error_if (not (is_some (get (step_key id number) owners))) (step_missing (step_key id number))
      ++ missing_of id rest owners

  unfoldable pub missing_steps : Flows → List (Text × Text) → List CatalogError
  missing_steps [] owners = []
  missing_steps (f ∷ rest) owners = missing_of f.1.id f.1.steps owners ++ missing_steps rest owners

  unfoldable pub spec_errors : Flows → List SpecStep → List CatalogError
  spec_errors flows steps =
      let claimed = claim_steps flows steps [] in
      claimed.0
      ++ (missing_steps flows claimed.1
          ++ error_if (not (length steps == expected_steps)) (call_total (length steps)))
