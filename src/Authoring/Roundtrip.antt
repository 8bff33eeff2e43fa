-- ===== src/Authoring/Roundtrip.antt =====
-- `draft_from_config` and then `to_config` of filedge/authoring_draft.py, on an accepted config.
use filedge.Base.{
  String, ◌≡◌, refl, sym, ap, subst, Bool, true, false, not, Option, none, some, List, [], ◌∷◌,
  ◌==◌, ◌||◌, contains, if◌then◌else◌, All, map, select, ◌⊎◌, inl, inr, ◌∙◌, arith, is_none,
}
use filedge.Base.Dict
use filedge.Base.Dict.{Dict}
use filedge.Base.Result.{Result, ok, err, >>=-ok-next, ok-injective}
use filedge.Rows.Python.{Python}
use filedge.Rows.Columns.{ColumnMapping}
use filedge.Cdc.Plan.{CdcConfig}
use filedge.FixedWidth.Disjoint.{validate_layout-IsDisjoint}
use filedge.Config.Raw.{RawConfig, Sheet, no_sheet}
use filedge.Config.Blocks.{
  get_or, given, require, is_declared, check_keys, check_cdc, parse_cdc, parse_excel_config,
  parse_connector, first_unplaced, or_bad_layout, check_layout, validate_fixed_width_columns,
  validate_source_manifest, parse_quarantine_config,
}
use filedge.Config.FromDict.{ParsedConfig, check_format, config_from_dict}
use filedge.Config.Accepted.{
  CdcDeclared, HasLayout, ExcelFits, ConnectorFits, IsValidConfig, config_from_dict-IsValidConfig,
}
use filedge.Authoring.Descriptors.{connector_descriptor}
use filedge.Authoring.Draft.{Draft}
use filedge.Authoring.Emit.{
  ShapeError, unsupported_format, unsupported_connector, unsupported_write_mode, given_options,
  connector_block, cdc_block, connector_type_of, options_of, to_config, to_config_dict, default_cdc,
  loaded_draft, draft_from_config,
}
use filedge.Authoring.Rewritten.{
  rewritten_column, rewritten, parse_columns_written, typed_columns_written, rewritten_columns_same,
  rewritten_sources,
}

lookup-select {ℓ} :
    {V : Type ℓ} (p : String × V → Bool) (key : String) (d : Dict V)
    → Dict.lookup key d ≡ none
    → Dict.lookup key (select p d) ≡ none
unfolding Dict.lookup
lookup-select p key [] absent = absent
lookup-select p key ((k, v) ∷ d) absent = ground (arith, lookup-select p key d)

erase-absent {ℓ} :
    {V : Type ℓ} (key : String) (d : Dict V) → Dict.lookup key d ≡ none → Dict.erase key d ≡ d
unfolding Dict.lookup Dict.erase
erase-absent key [] absent = refl
erase-absent key ((k, v) ∷ d) absent = ground (arith, erase-absent key d)

options-ConnectorFits :
    (py : Python) (connector : Option (String × Dict String))
    → ConnectorFits connector
    → Dict.lookup "type" (options_of py connector) ≡ none
options-ConnectorFits py none fits = Dict.lookup-nil "type"
options-ConnectorFits py (some (type, options)) fits = fits

parse_connector_block :
    (type : String) (options : Dict String)
    → Dict.lookup "type" options ≡ none
    → parse_connector (some (connector_block type options)) ≡ ok (some (type, options))
unfolding parse_connector connector_block given Dict.lookup Dict.erase
parse_connector_block type options absent =
    let same = erase-absent "type" options absent in rw absent (rw same (rw same))

parse_excel_written :
    (format : String) (excel : Option Sheet)
    → ExcelFits format excel
    → parse_excel_config format
        (if format == "excel" then some (record { sheet = some (get_or no_sheet excel) }) else none)
      ≡ ok excel
unfolding parse_excel_config
parse_excel_written format none fits = rw fits (rw fits)
parse_excel_written format (some sheet) fits = rw fits (rw fits)

check_keys_written :
    (columns : List ColumnMapping) (keys : List String)
    → All (λ (key : String). is_declared columns key ≡ true) keys
    → check_keys columns keys ≡ ok tt
unfolding check_keys require
check_keys_written columns [] declared = refl
check_keys_written columns (key ∷ keys) (here, declared) =
    rw here (check_keys_written columns keys declared)

check_cdc_written :
    (columns : List ColumnMapping) (write_mode : String) (cdc : Option CdcConfig) (b : Bool)
    → (write_mode == "cdc") ≡ b
    → CdcDeclared columns write_mode cdc
    → check_cdc columns write_mode (if b then cdc else none) ≡ ok tt
unfolding check_cdc require
check_cdc_written columns write_mode cdc false same declared = rw same
check_cdc_written columns write_mode none true same declared = cc
check_cdc_written columns write_mode (some cdc) true same (keys, sequence) =
    >>=-ok-next (check_keys columns cdc.keys) _ (check_keys_written columns cdc.keys keys)
      (rw sequence)

chosen_cdc :
    (py : Python) (columns : List ColumnMapping) (write_mode : String) (cdc : Option CdcConfig)
    → (write_mode == "cdc") ≡ true
    → CdcDeclared columns write_mode cdc
    → some (get_or (default_cdc py) cdc) ≡ cdc
chosen_cdc py columns write_mode none same declared = cc
chosen_cdc py columns write_mode (some cdc) same declared = refl

parse_cdc_written :
    (py : Python) (config : ParsedConfig py) (columns : List ColumnMapping) (b : Bool)
    → (config.write_mode == "cdc") ≡ b
    → CdcDeclared columns config.write_mode config.cdc
    → parse_cdc (if b then some (cdc_block (loaded_draft py config)) else none)
      ≡ ok (if b then config.cdc else none)
unfolding parse_cdc given loaded_draft
parse_cdc_written py config columns false same declared = refl
parse_cdc_written py config columns true same declared =
    ap ok (chosen_cdc py columns _ config.cdc same declared)

check_layout_written :
    (columns : List ColumnMapping)
    → HasLayout columns
    → validate_fixed_width_columns columns ≡ ok tt
unfolding validate_fixed_width_columns
check_layout_written columns (layout, placed, disjoint) =
    ap (check_layout (first_unplaced columns)) placed
    ∙ ap or_bad_layout ((validate_layout-IsDisjoint layout).1 disjoint)

check_format_written :
    (py : Python) (in_unit_interval : py.Float → Bool) (format : String)
    (columns : List ColumnMapping) (b : Bool)
    → (format == "fixed_width") ≡ b
    → ((format == "fixed_width") ≡ false) ⊎ HasLayout columns
    → check_format py in_unit_interval format (map (rewritten_column format) columns) ≡ ok tt
unfolding check_format
check_format_written py unit format columns false same placed = rw same
check_format_written py unit format columns true same (inl other) = cc
check_format_written py unit format columns true same (inr layout) =
    rw (rewritten_columns_same py format columns same)
      (rw same (check_layout_written columns layout))

CdcDeclared-rewritten :
    (py : Python) (format : String) (columns : List ColumnMapping) (write_mode : String)
    (cdc : Option CdcConfig)
    → CdcDeclared columns write_mode cdc
    → CdcDeclared (map (rewritten_column format) columns) write_mode cdc
CdcDeclared-rewritten py format columns write_mode none declared = declared
CdcDeclared-rewritten py format columns write_mode (some cdc) declared =
    subst
      (λ (sources : List String).
        All (λ (key : String). (key == "" || contains key sources) ≡ true) cdc.keys
        × ((cdc.sequence_by == "" || contains cdc.sequence_by sources) ≡ true))
      (sym (rewritten_sources py format columns)) declared

module _ (py : Python) (in_unit_interval : py.Float → Bool) where
  to_config-loaded_draft :
      (config : ParsedConfig py)
      → IsValidConfig py config
      → to_config py in_unit_interval (loaded_draft py config) ≡ ok (rewritten py config)
  unfolding to_config to_config_dict config_from_dict loaded_draft rewritten given
      parse_quarantine_config validate_source_manifest
  to_config-loaded_draft config (keys, declared, placed, bounded, excel, connector) =
      let format = config.format in
      let options = given_options (options_of py config.connector) in
      let absent =
        lookup-select _ "type" (options_of py config.connector)
          (options-ConnectorFits py config.connector connector) in
      let same = erase-absent "type" options absent in
      rw (parse_columns_written py format config.columns keys) (
        rw (typed_columns_written py format config.columns) (
          rw (check_format_written py in_unit_interval format config.columns _ refl placed) (
            rw (parse_excel_written format config.excel excel) (
              rw absent (
                rw same (
                  rw same (
                    rw (parse_cdc_written py config config.columns _ refl declared) (
                      rw
                        (check_cdc_written _ config.write_mode config.cdc _ refl
                          (CdcDeclared-rewritten py format config.columns _ config.cdc declared))
                        refl))))))))

  unless :
      (b : Bool) (e : ShapeError py) (r : Result (ShapeError py) Draft) (d : Draft)
      → (if b then err e else r) ≡ ok d
      → r ≡ ok d
  unless false e r d h = h
  unless true e r d h = cc

  draft_from_config-loaded_draft :
      (config : ParsedConfig py) (d : Draft)
      → draft_from_config py config ≡ ok d
      → loaded_draft py config ≡ d
  unfolding draft_from_config
  draft_from_config-loaded_draft config d h = ok-injective (
      unless (not (contains config.write_mode ("append" ∷ "truncate" ∷ "cdc" ∷ [])))
        (unsupported_write_mode config.write_mode) _ d
        (unless (is_none (connector_descriptor (connector_type_of py config.connector)))
          (unsupported_connector (connector_type_of py config.connector)) _ d
          (unless
            (not (
              contains config.format ("csv" ∷ "ndjson" ∷ "parquet" ∷ "excel" ∷ "fixed_width" ∷ [])))
            (unsupported_format config.format) _ d h)))

  -- A Pipeline Config that is accepted and opened as a draft gives, when the draft is made a config
  -- again, an accepted config with the same format, table, write mode, sheet and columns, except
  -- that a column keeps its position only in the fixed-width format; the connector is explicit and
  -- loses its empty options, the cdc block stays only if the write mode is cdc, and the retry cap,
  -- the timeout, the batch size, the encoding, the file pattern, the manifest policy and the
  -- quarantine are back at their defaults.
  pub to_config-draft_from_config :
      (data_ : RawConfig py.Float) (config : ParsedConfig py) (d : Draft)
      → config_from_dict py in_unit_interval data_ ≡ ok config
      → draft_from_config py config ≡ ok d
      → to_config py in_unit_interval d ≡ ok (rewritten py config)
  to_config-draft_from_config data_ config d accepted opened =
      ap (to_config py in_unit_interval) (sym (draft_from_config-loaded_draft config d opened))
      ∙ to_config-loaded_draft config
          (config_from_dict-IsValidConfig py in_unit_interval data_ config accepted)
