-- ===== src/Catalogue/Checked.antt =====
-- What a catalogue without an error is.
use tenancit.Base.{
  ℕ, ◌≡◌, true, false, not, List, [], map, any, length, Option, Text, All, Distinct, text_eq, ◌==◌,
  ==_iff, arith,
}
use tenancit.Catalogue.Defs.{
  FlowFile, Flows, SpecStep, ReadmeRow, read_flows, confirmed, markdown_errors, spec_errors,
  file_error, row_total,
}
use tenancit.Catalogue.Steps.{append-nil_iff, error_if-nil_iff, InRange}
use tenancit.Catalogue.Claims.{HasPath}
use tenancit.Catalogue.Agreement.{Decimals, HasCall, called_step, spec_errors-nil_iff}
use tenancit.Catalogue.Readme.{check_catalog, readme_errors, missing_rows, rows_errors}
use tenancit.Catalogue.Rows.{RowAgrees, rows_errors-nil, missing_rows-nil}

module _ (decimal : ℕ → Text) (base : Text → Text) (tags : Text → Option (List Text)) where
  -- Flows, calls and rows that agree.
  pub record IsCatalog (flows : Flows) (steps : List SpecStep) (rows : List ReadmeRow)
      : Type 0 where
    pub calls_in_range : All (InRange decimal flows) steps
    pub calls_apart : Distinct (map called_step steps)
    pub steps_called : All (λ f. All (λ n. HasCall steps f.1.id n) f.1.steps) flows
    pub call_count : length steps ≡ 147
    pub rows_agree : All (RowAgrees base tags flows steps) rows
    pub rows_apart : Distinct (map ReadmeRow.flow_id rows)
    pub flows_listed : All (λ f. any (λ row. text_eq row.flow_id f.1.id) rows ≡ true) flows
    pub row_count : length rows ≡ 20

  -- Where the script finds no error in the files, every call is of a step of a confirmed flow, no
  -- step is called twice, each step of each confirmed flow is called, and there are 147 calls; and
  -- the README has 20 rows, of different flows, each confirmed flow among them, and each row names
  -- a confirmed flow with all its steps, the only tier of its spec, and the one spec that has the
  -- calls of the flow. It is said of calls in files with a name, and of numbers that are written as
  -- different texts without a number sign.
  pub check_catalog-IsCatalog :
      Decimals decimal
      → (stem path_of : Text → Text) (files : List FlowFile) (steps : List SpecStep)
        (rows : List ReadmeRow)
      → (in_specs in_readme in_scripts : List Text) → All HasPath steps
      → check_catalog base tags decimal stem path_of files steps rows in_specs in_readme in_scripts
        ≡ []
      → IsCatalog (confirmed (read_flows stem path_of files []).1) steps rows
  unfolding check_catalog readme_errors
  check_catalog-IsCatalog decimals stem path_of files steps rows in_specs in_readme in_scripts paths
        e =
      let flows = confirmed (read_flows stem path_of files []).1 in
      let e1 = ((append-nil_iff (read_flows stem path_of files []).0 _).0 e).1 in
      let e2 = ((append-nil_iff (markdown_errors flows) _).0 e1).1 in
      let e3 = ((append-nil_iff (map file_error in_specs) _).0 e2).1 in
      let (calls, e4) = (append-nil_iff (spec_errors decimal flows steps) _).0 e3 in
      let e5 = ((append-nil_iff (map file_error in_readme) _).0 e4).1 in
      let readme =
        ((append-nil_iff (readme_errors base tags flows steps rows) (map file_error in_scripts)).0
          e5).0 in
      let (listed, e6) = (append-nil_iff (rows_errors base tags flows steps [] rows) _).0 readme in
      let (missing, count) = (append-nil_iff (missing_rows base tags flows rows) _).0 e6 in
      let (inside, apart, called, total) =
        (spec_errors-nil_iff decimal decimals flows steps paths).0 calls in
      let (agree, _, rows_differ) = rows_errors-nil base tags flows steps [] rows listed in
      let twenty : not (length rows == 20) ≡ false =
        (error_if-nil_iff _ (row_total (length rows))).0 count in
      record {
        calls_in_range = inside;
        calls_apart = apart;
        steps_called = called;
        call_count = total;
        rows_agree = agree;
        rows_apart = rows_differ;
        flows_listed = missing_rows-nil base tags flows steps flows rows missing;
        row_count = (==_iff (length rows) 20).0 (ground arith);
      }
