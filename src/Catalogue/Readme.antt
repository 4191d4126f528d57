-- ===== src/Catalogue/Readme.antt =====
-- scripts/check-e2e-catalog.ts: the rows of the README, and all the checks.
use tenancit.Base.{
  ℕ, Bool, false, not, ◌||◌, List, [], ◌∷◌, ◌++◌, map, filter, any, length, Option, none, some,
  Text, codes, text_eq, ◌==◌,
}
use tenancit.Catalogue.Defs.{
  Flows, FlowFile, SpecStep, ReadmeRow, CatalogError, row_repeated, row_unknown, row_missing,
  row_range, row_pattern, row_owner, row_spec, row_tier, row_total, file_error, get, error_if,
  expected_flows, read_flows, confirmed, markdown_errors, spec_errors,
}

-- The elements of a set, in the order of insertion.
abbrev pub to_set : List Text → List Text
to_set [] = []
to_set (x ∷ xs) = x ∷ filter (λ y. not (text_eq y x)) (to_set xs)

abbrev pub is_only : Text → List Text → Bool
is_only x [] = false
is_only x (y ∷ []) = text_eq y x
is_only x (y ∷ (z ∷ rest)) = false

-- `tags` are the tags in a spec, where it exists; `base` is `basename`.
module _ (base : Text → Text) (tags : Text → Option (List Text)) where
  unfoldable pub mapped_specs : (id : Text) → List SpecStep → List Text
  mapped_specs id steps = to_set (map (λ s. base s.path) (filter (λ s. text_eq s.flow_id id) steps))

  unfoldable pub tier_errors : ReadmeRow → List CatalogError
  tier_errors row = elim (tags row.spec) [
    | none ↦ row_spec row.spec ∷ []
    | some found ↦ error_if (not (is_only row.tier found)) (row_tier row.flow_id row.tier found)
  ]

  unfoldable pub row_errors :
      Flows → List SpecStep → (seen : List Text) → ReadmeRow → List CatalogError
  row_errors flows steps seen row =
      error_if (any (λ id. text_eq id row.flow_id) seen) (row_repeated row.flow_id)
      ++ elim (get row.flow_id flows) [
        | none ↦ row_unknown row.flow_id ∷ []
        | some flow ↦
            error_if (not (row.first_step == 1) || not (row.last_step == length flow.steps))
              (row_range row.flow_id row.first_step row.last_step)
            ++ (error_if
                  (not (text_eq row.step_pattern (b'[' ∷ (row.flow_id ++ codes "#N] título"))))
                  (row_pattern row.flow_id row.step_pattern)
                ++ (tier_errors row
                    ++ (let specs = mapped_specs row.flow_id steps in
                        error_if
                          (not (length specs == 1) || not (any (λ s. text_eq s row.spec) specs))
                          (row_owner row.flow_id row.spec))))
      ]

  unfoldable pub rows_errors :
      Flows → List SpecStep → (seen : List Text) → List ReadmeRow → List CatalogError
  rows_errors flows steps seen [] = []
  rows_errors flows steps seen (row ∷ rest) =
      row_errors flows steps seen row ++ rows_errors flows steps (row.flow_id ∷ seen) rest

  unfoldable pub missing_rows : Flows → List ReadmeRow → List CatalogError
  missing_rows [] rows = []
  missing_rows (f ∷ rest) rows =
      error_if (not (any (λ row. text_eq row.flow_id f.1.id) rows)) (row_missing f.1.id)
      ++ missing_rows rest rows

  unfoldable pub readme_errors : Flows → List SpecStep → List ReadmeRow → List CatalogError
  readme_errors flows steps rows =
      rows_errors flows steps [] rows
      ++ (missing_rows flows rows
          ++ error_if (not (length rows == expected_flows)) (row_total (length rows)))

  -- All the checks. `in_specs`, `in_readme` and `in_scripts` are the messages about the text of the
  -- specs, of the README, and of the runner with its settings.
  unfoldable pub check_catalog :
      (decimal : ℕ → Text) (stem path_of : Text → Text)
      → List FlowFile
      → List SpecStep
      → List ReadmeRow
      → (in_specs in_readme in_scripts : List Text) → List CatalogError
  check_catalog decimal stem path_of files steps rows in_specs in_readme in_scripts =
      let read = read_flows stem path_of files [] in
      let flows = confirmed read.1 in
      read.0
      ++ (markdown_errors flows
          ++ (map file_error in_specs
              ++ (spec_errors decimal flows steps
                  ++ (map file_error in_readme
                      ++ (readme_errors flows steps rows ++ map file_error in_scripts)))))
