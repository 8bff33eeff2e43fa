-- ===== src/Authoring/Green.antt =====
-- What a green report of filedge/authoring_validation.py says of the sample and of the config.
use filedge.Base.{
  ℕ, String, ◌≡◌, refl, sym, subst, Bool, true, false, not, Option, none, some, List, [], ◌∷◌, ◌++◌,
  ◌==◌, all, contains, arith, ◌⊎◌, inl, inr, All, if◌then◌else◌,
}
use filedge.Base.Dict.{Dict}
use filedge.Base.Result.{Result, ok, err, >>=-eq-ok, ok-injective}
use filedge.Rows.Python.{Python}
use filedge.Rows.Columns.{ColumnMapping}
use filedge.Rows.Validate.{RowFailure, validate_file, loads, validate_file-loads}
use filedge.Cdc.Plan.{CdcConfig}
use filedge.Config.FromDict.{ParsedConfig}
use filedge.Authoring.Validation.{
  ValidationFinding, Report, Message, finding, write_mode, no_business_key, no_operation,
  no_sequence, undeclared_sequence, parser, unreadable, no_extra_settings,
  field_encryption_findings, report_from, is_green, sources, write_mode_findings,
  cdc_block_findings, cdc_findings, key_findings, sequence_findings, fail_unless, or_complete,
  is_nil, strict_findings, tolerance_findings, structural_findings, sample_report,
  validate_authoring,
}

abbrev passes : List ValidationFinding → Bool
passes findings = all (λ (f : ValidationFinding). f.ok) findings

passes-append :
    (xs ys : List ValidationFinding)
    → passes (xs ++ ys) ≡ true
    → (passes xs ≡ true) × (passes ys ≡ true)
passes-append [] ys h = (refl, h)
passes-append (f ∷ xs) ys h = ground (arith, passes-append xs ys)

strict-none :
    (n : ℕ) (failures : List RowFailure)
    → passes (strict_findings n failures) ≡ true
    → failures ≡ []
strict-none n [] h = refl
strict-none n (f ∷ failures) h = cc

-- The settings of Write Mode cdc: a key, and declared key and sequence columns, and an operation column.
abbrev pub CdcComplete : List String → CdcConfig → Type 0
CdcComplete declared cdc =
    (is_nil cdc.keys ≡ false)
    × All (λ (key : String). contains key declared ≡ true) cdc.keys
    × (contains cdc.sequence_by declared ≡ true)
    × ((cdc.operation_column == "") ≡ false)

abbrev pub CompleteWhen : List String → Bool → Option CdcConfig → Type 0
CompleteWhen declared is_cdc none = is_cdc ≡ false
CompleteWhen declared is_cdc (some cdc) = (is_cdc ≡ false) ⊎ CdcComplete declared cdc

abbrev pub WriteModeComplete : List String → String → Option CdcConfig → Type 0
WriteModeComplete declared mode cdc = CompleteWhen declared (mode == "cdc") cdc

or_complete-passes :
    (findings : List ValidationFinding)
    → passes (or_complete findings) ≡ true
    → passes findings ≡ true
or_complete-passes [] h = refl
or_complete-passes (f ∷ findings) h = h

fail_unless-passes : (b : Bool) (m : Message) → passes (fail_unless b m) ≡ true → b ≡ true
fail_unless-passes true m h = refl
fail_unless-passes false m h = cc

not-true : (b : Bool) → not b ≡ true → b ≡ false
not-true false h = refl
not-true true h = cc

key_findings-All :
    (declared keys : List String)
    → passes (key_findings declared keys) ≡ true
    → All (λ (key : String). contains key declared ≡ true) keys
unfolding key_findings
key_findings-All declared [] h = tt
key_findings-All declared (key ∷ keys) h =
    let (here, rest) =
      passes-append (fail_unless (contains key declared) _) (key_findings declared keys) h in
    (fail_unless-passes _ _ here, key_findings-All declared keys rest)

-- A finding that fails stands under the test.
fails_when :
    (b : Bool) (f : ValidationFinding) (findings : List ValidationFinding)
    → f.ok ≡ false
    → passes (if b then f ∷ [] else findings) ≡ true
    → passes findings ≡ true
fails_when true f findings fails h = ground arith
fails_when false f findings fails h = h

sequence_findings-contains :
    (declared : List String) (sequence_by : String)
    → passes (sequence_findings declared sequence_by) ≡ true
    → contains sequence_by declared ≡ true
unfolding sequence_findings
sequence_findings-contains declared sequence_by h =
    fail_unless-passes (contains sequence_by declared) (undeclared_sequence sequence_by) (
      fails_when (sequence_by == "") (finding write_mode false no_sequence)
        (fail_unless (contains sequence_by declared) (undeclared_sequence sequence_by)) refl h)

cdc_findings-CdcComplete :
    (declared : List String) (cdc : CdcConfig)
    → passes (cdc_findings declared cdc) ≡ true
    → CdcComplete declared cdc
unfolding cdc_findings
cdc_findings-CdcComplete declared cdc h =
    let operation : List ValidationFinding =
      fail_unless (not (cdc.operation_column == "")) no_operation in
    let after_keys : List ValidationFinding =
      sequence_findings declared cdc.sequence_by ++ operation in
    let after_first : List ValidationFinding = key_findings declared cdc.keys ++ after_keys in
    let first : List ValidationFinding = fail_unless (not (is_nil cdc.keys)) no_business_key in
    let (some_key, h1) =
      passes-append first after_first (or_complete-passes (first ++ after_first) h) in
    let (keys, h2) = passes-append (key_findings declared cdc.keys) after_keys h1 in
    let (sequence, last) =
      passes-append (sequence_findings declared cdc.sequence_by) operation h2 in
    (
      not-true (is_nil cdc.keys)
          (fail_unless-passes (not (is_nil cdc.keys)) no_business_key some_key),
      key_findings-All declared cdc.keys keys,
      sequence_findings-contains declared cdc.sequence_by sequence,
      not-true (cdc.operation_column == "")
          (fail_unless-passes (not (cdc.operation_column == "")) no_operation last),
    )

write_mode-WriteModeComplete :
    (columns : List ColumnMapping) (mode : String) (cdc : Option CdcConfig)
    → passes (write_mode_findings columns mode cdc) ≡ true
    → WriteModeComplete (sources columns) mode cdc
unfolding write_mode_findings
write_mode-WriteModeComplete columns mode cdc h = complete (mode == "cdc") cdc h
  where
    complete :
        (b : Bool) (cdc : Option CdcConfig)
        → passes (
            if b
            then cdc_block_findings (sources columns) cdc
            else finding write_mode true (no_extra_settings mode) ∷ [])
          ≡ true
        → CompleteWhen (sources columns) b cdc
    complete false none h = refl
    complete false (some c) h = inl refl
    complete true none h = cc
    complete true (some c) h = inr (cdc_findings-CdcComplete (sources columns) c h)

module _ (py : Python) (sorted_set : List String → List String) where
  open py use {Value}

  -- The sample is read, every row of it passes the transform of a load, and the write mode has its
  -- settings.
  abbrev pub Compatible :
      (Option ℕ → Result String (List (Dict Value))) → Option ℕ → ParsedConfig py → Type 0
  Compatible read sample_rows config =
      (rows : List (Dict Value)) × (read sample_rows ≡ ok rows)
      × (all (loads py config.columns) rows ≡ true)
      × WriteModeComplete (sources config.columns) config.write_mode config.cdc

  sample_report-Compatible :
      (config : ParsedConfig py) (head rows : List (Dict Value)) (report : Report)
      → sample_report py sorted_set config head rows ≡ ok report
      → passes report.findings ≡ true
      → (all (loads py config.columns) rows ≡ true)
        × WriteModeComplete (sources config.columns) config.write_mode config.cdc
  unfolding sample_report
  sample_report-Compatible config head rows report made green =
      let (result, validated, same) = >>=-eq-ok (validate_file py rows config.columns) _ made in
      let h = subst (λ (r : Report). passes r.findings ≡ true) (sym (ok-injective same)) green in
      let (structure, sample) = passes-append (structural_findings py sorted_set config) _ h in
      let (encryption, mode) =
        passes-append (field_encryption_findings config.columns) _ structure in
      let (tolerance, strict) =
        passes-append (tolerance_findings py sorted_set config.columns head) _ sample in
      (
        (validate_file-loads py rows config.columns).0.0
            (result, validated, strict-none _ _ strict),
        write_mode-WriteModeComplete config.columns config.write_mode config.cdc mode,
      )

  report_from-Compatible :
      (config : ParsedConfig py) (rows_read head_read : Result String (List (Dict Value)))
      (report : Report)
      → report_from py sorted_set config rows_read head_read ≡ ok report
      → passes report.findings ≡ true
      → (rows : List (Dict Value)) × (rows_read ≡ ok rows)
        × (all (loads py config.columns) rows ≡ true)
        × WriteModeComplete (sources config.columns) config.write_mode config.cdc
  report_from-Compatible config rows_read (err e) report h green =
      let red =
        passes-append (structural_findings py sorted_set config)
          (finding parser false (unreadable e) ∷ [])
          (subst (λ (r : Report). passes r.findings ≡ true) (sym (ok-injective h)) green) in
      cc (red.1)
  report_from-Compatible config rows_read (ok head) report h green =
      let (rows, there, same) = >>=-eq-ok rows_read _ h in
      let (load, mode) = sample_report-Compatible config head rows report same green in
      (rows, there, load, mode)

  -- If Authoring Validation is green, the sample rows could be read, every one of them passes the
  -- whole transform of a load, and a write mode of cdc has a cdc block with a business key,
  -- declared key and sequence columns, and an operation column.
  pub validate_authoring-Compatible :
      (read : Option ℕ → Result String (List (Dict Value))) (sample_rows : Option ℕ)
      (config : ParsedConfig py) (report : Report)
      → validate_authoring py sorted_set read sample_rows config ≡ ok report
      → is_green report ≡ true
      → Compatible read sample_rows config
  unfolding validate_authoring is_green
  validate_authoring-Compatible read sample_rows config report h green =
      report_from-Compatible config (read sample_rows) (read (some 1)) report h green
