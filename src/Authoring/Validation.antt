-- ===== src/Authoring/Validation.antt =====
-- `validate_authoring` of filedge/authoring_validation.py. A message is its constructor. Reading the
-- sample File with the parser, all of its rows or so many, is a parameter.
use filedge.Base.{
  ℕ, suc, String, Bool, true, false, not, Option, none, some, List, [], ◌∷◌, ◌++◌, ◌==◌, ◌&&◌, ◌||◌,
  if◌then◌else◌, all, select, is_none, map, contains, length, take, drop,
}
use filedge.Base.Dict
use filedge.Base.Dict.{Dict}
use filedge.Base.Result.{Result, ok, err, ◌>>=◌}
use filedge.Rows.Python.{Python}
use filedge.Rows.Columns.{ColumnMapping}
use filedge.Rows.Transform.{TransformError}
use filedge.Rows.Validate.{RowFailure, validate_file}
use filedge.Cdc.Plan.{CdcConfig}
use filedge.Config.FromDict.{ParsedConfig}

pub data Scope : Type 0 where
  config_loading parser column_tolerance strict_mode field_encryption write_mode : Scope

pub data Message : Type 0 where
  config_loaded : Message
  unreadable : String → Message
  readable : String → Message
  rejected : TransformError → Message
  rows_pass : ℕ → Message
  no_encryption : Message
  encrypted_columns : List String → Message
  no_extra_settings : String → Message
  no_cdc_block no_business_key no_sequence no_operation cdc_complete : Message
  undeclared_key undeclared_sequence missing_column : String → Message
  no_rows required_present : Message
  extra_columns : List String → Message

pub record ValidationFinding : Type 0 where
  pub scope : Scope
  pub ok : Bool
  pub message : Message
  pub row_number : Option ℕ
  pub column : Option String

pub data DriftReason : Type 0 where
  declared_but_absent : DriftReason
  -- The first rows, and how many more.
  required_but_null : List ℕ → ℕ → DriftReason

pub record DriftEntry : Type 0 where
  pub column : String
  pub reason : DriftReason

pub record Report : Type 0 where
  pub findings : List ValidationFinding
  pub drift : List DriftEntry
  pub rows_checked : ℕ

-- `report.ok`
unfoldable pub is_green : Report → Bool
is_green report = all (λ (f : ValidationFinding). f.ok) report.findings

-- A finding for the whole File.
abbrev pub finding : Scope → Bool → Message → ValidationFinding
finding scope ok_ message = record {
  scope = scope;
  ok = ok_;
  message = message;
  row_number = none;
  column = none;
}

abbrev pub sources : List ColumnMapping → List String
sources columns = map (λ (c : ColumnMapping). c.source) columns

abbrev pub encryption_finding : List String → List ValidationFinding
encryption_finding [] = finding field_encryption true no_encryption ∷ []
encryption_finding (t ∷ targets) =
    finding field_encryption true (encrypted_columns (t ∷ targets)) ∷ []

unfoldable pub field_encryption_findings : List ColumnMapping → List ValidationFinding
field_encryption_findings columns = encryption_finding (
    map (λ (c : ColumnMapping). c.dest)
      (select (λ (c : ColumnMapping). not (is_none c.encrypt) || not (is_none c.hash)) columns))

-- A finding that fails, unless the test holds.
abbrev pub fail_unless : Bool → Message → List ValidationFinding
fail_unless holds message = if holds then [] else finding write_mode false message ∷ []

abbrev pub is_nil : List String → Bool
is_nil [] = true
is_nil (k ∷ keys) = false

unfoldable pub key_findings : List String → List String → List ValidationFinding
key_findings declared [] = []
key_findings declared (key ∷ keys) =
    fail_unless (contains key declared) (undeclared_key key) ++ key_findings declared keys

unfoldable pub sequence_findings : List String → String → List ValidationFinding
sequence_findings declared sequence_by =
    if sequence_by == ""
    then finding write_mode false no_sequence ∷ []
    else fail_unless (contains sequence_by declared) (undeclared_sequence sequence_by)

abbrev pub or_complete : List ValidationFinding → List ValidationFinding
or_complete [] = finding write_mode true cdc_complete ∷ []
or_complete (f ∷ findings) = f ∷ findings

unfoldable pub cdc_findings : List String → CdcConfig → List ValidationFinding
unfolding key_findings sequence_findings
cdc_findings declared cdc = or_complete (
    fail_unless (not (is_nil cdc.keys)) no_business_key
    ++ (key_findings declared cdc.keys
        ++ (sequence_findings declared cdc.sequence_by
            ++ fail_unless (not (cdc.operation_column == "")) no_operation)))

abbrev pub cdc_block_findings : List String → Option CdcConfig → List ValidationFinding
cdc_block_findings declared none = finding write_mode false no_cdc_block ∷ []
cdc_block_findings declared (some cdc) = cdc_findings declared cdc

unfoldable pub write_mode_findings :
    List ColumnMapping → String → Option CdcConfig → List ValidationFinding
unfolding cdc_findings
write_mode_findings columns mode cdc =
    if mode == "cdc"
    then cdc_block_findings (sources columns) cdc
    else finding write_mode true (no_extra_settings mode) ∷ []

abbrev pub missing_finding : String → ValidationFinding
missing_finding source = record {
  scope = column_tolerance;
  ok = false;
  message = missing_column source;
  row_number = none;
  column = some source;
}

-- The required columns that are not among the keys of the row.
abbrev pub missing_required : List ColumnMapping → List String → List String
missing_required columns present =
    sources (select (λ (c : ColumnMapping). c.required && not (contains c.source present)) columns)

abbrev pub extra_finding : List String → List ValidationFinding
extra_finding [] = []
extra_finding (k ∷ extra) = finding column_tolerance true (extra_columns (k ∷ extra)) ∷ []

abbrev pub present_finding : List String → List ValidationFinding
present_finding [] = finding column_tolerance true required_present ∷ []
present_finding (k ∷ missing) = []

abbrev pub failure_finding : RowFailure → ValidationFinding
failure_finding f = record {
  scope = strict_mode;
  ok = false;
  message = rejected f.error;
  row_number = some f.row_number;
  column = some f.column;
}

abbrev pub strict_findings : ℕ → List RowFailure → List ValidationFinding
strict_findings rows_checked [] = finding strict_mode true (rows_pass rows_checked) ∷ []
strict_findings rows_checked (f ∷ failures) = map failure_finding (f ∷ failures)

module _ (py : Python) (sorted_set : List String → List String) where
  open py use {Value, is_null, is_empty_text}

  unfoldable pub tolerance_findings :
      List ColumnMapping → List (Dict Value) → List ValidationFinding
  tolerance_findings columns [] = finding column_tolerance true no_rows ∷ []
  tolerance_findings columns (row ∷ rows) =
      let present = Dict.keys row in
      map missing_finding (missing_required columns present)
      ++ (extra_finding (sorted_set (select (λ k. not (contains k (sources columns))) present))
          ++ present_finding (missing_required columns present))

  -- `row.get(source) is None or row.get(source) == ""`
  abbrev pub is_empty_cell : Option Value → Bool
  is_empty_cell none = true
  is_empty_cell (some v) = is_null v || is_empty_text v

  -- The numbers of the rows with an empty cell, from 1.
  unfoldable pub empty_rows : ℕ → String → List (Dict Value) → List ℕ
  unfolding Dict.lookup
  empty_rows n source [] = []
  empty_rows n source (row ∷ rows) =
      let rest = empty_rows (suc n) source rows in
      if is_empty_cell (Dict.lookup source row) then n ∷ rest else rest

  abbrev pub null_drift : String → List ℕ → List DriftEntry
  null_drift source [] = []
  null_drift source (n ∷ ns) =
      record {
        column = source;
        reason = required_but_null (take 5 (n ∷ ns)) (length (drop 5 (n ∷ ns)));
      }
      ∷ []

  abbrev pub column_drift : List String → List (Dict Value) → ColumnMapping → List DriftEntry
  column_drift present rows c =
      if not (contains c.source present)
      then record { column = c.source; reason = declared_but_absent } ∷ []
      else if c.required
      then null_drift c.source (empty_rows 1 c.source rows)
      else []

  unfoldable pub drift_from : List String → List (Dict Value) → List ColumnMapping → List DriftEntry
  unfolding empty_rows
  drift_from present rows [] = []
  drift_from present rows (c ∷ columns) =
      column_drift present rows c ++ drift_from present rows columns

  unfoldable pub drift_entries : List ColumnMapping → List (Dict Value) → List DriftEntry
  unfolding drift_from
  drift_entries columns [] = []
  drift_entries columns (row ∷ rows) = drift_from (Dict.keys row) (row ∷ rows) columns

  -- The checks that do not need the File.
  unfoldable pub structural_findings : ParsedConfig py → List ValidationFinding
  unfolding field_encryption_findings write_mode_findings
  structural_findings config =
      finding config_loading true config_loaded
      ∷ (field_encryption_findings config.columns
          ++ write_mode_findings config.columns config.write_mode config.cdc)

  -- What a readable File adds; an exception of `validate_file` is not caught.
  unfoldable pub sample_report :
      ParsedConfig py → List (Dict Value) → List (Dict Value) → Result String Report
  unfolding structural_findings tolerance_findings drift_entries validate_file
  sample_report config head rows = validate_file py rows config.columns >>= λ result. ok (record {
    findings =
        structural_findings config
        ++ (finding parser true (readable config.format)
            ∷ (tolerance_findings config.columns head
                ++ strict_findings result.rows_checked result.failures));
    drift = drift_entries config.columns rows;
    rows_checked = result.rows_checked;
  })

  -- What follows the preview of one row; an exception of the next one is not caught.
  abbrev pub report_from :
      ParsedConfig py
      → Result String (List (Dict Value))
      → Result String (List (Dict Value))
      → Result String Report
  report_from config rows_read (err e) = ok (record {
    findings = structural_findings config ++ finding parser false (unreadable e) ∷ [];
    drift = [];
    rows_checked = 0;
  })
  report_from config rows_read (ok head) = rows_read >>= λ rows. sample_report config head rows

  unfoldable pub validate_authoring :
      (Option ℕ → Result String (List (Dict Value)))
      → Option ℕ
      → ParsedConfig py
      → Result String Report
  unfolding sample_report structural_findings
  validate_authoring read sample_rows config = report_from config (read sample_rows) (read (some 1))
