-- ===== src/Config/Accepted.antt =====
-- What the blocks of a Pipeline Config have that `config_from_dict` of filedge/config.py accepts.
use filedge.Base.{
  ℕ, String, ◌≡◌, refl, Bool, true, arith, false, Option, none, some, List, [], ◌∷◌, ◌==◌, ◌&&◌,
  not, is_none, All, if◌then◌else◌, ◌⊎◌, inl, inr, ap, subst,
}
use filedge.Base.Dict
use filedge.Base.Dict.{Dict}
use filedge.Base.Result.{Result, ok, err, >>=-eq-ok, ok-injective}
use filedge.Rows.Python.{Python}
use filedge.Rows.Columns.{ColumnMapping}
use filedge.Cdc.Plan.{CdcConfig}
use filedge.Quarantine.Processor.{QuarantineConfig}
use filedge.FixedWidth.Layout.{layout_from_columns, validate_layout, LayoutColumn, LayoutError}
use filedge.FixedWidth.Disjoint.{IsDisjoint, validate_layout-IsDisjoint}
use filedge.Config.Raw.{
  RawConfig, RawExcel, Sheet, RowLimit, rows_at_most, negative_rows, RawQuarantine, no_block,
  not_a_mapping, block, ConfigError,
}
use filedge.Config.Blocks.{
  require, get_or, is_declared, check_keys, check_cdc, validate_fixed_width_columns, or_bad_layout,
  check_layout, parse_quarantine_config, given, fraction_limit, row_limit, parse_columns,
  typed_columns, parse_excel_config, parse_connector, parse_cdc, validate_source_manifest,
}
use filedge.Config.Columns.{
  HasKeys, require-true, parse_columns-HasUntypedKeys, typed_columns-HasKeys,
}
use filedge.Config.FromDict.{ParsedConfig, check_format, config_from_dict}

-- A CDC write mode has a block, and its columns are declared.
abbrev pub CdcDeclared : List ColumnMapping → String → Option CdcConfig → Type 0
CdcDeclared columns write_mode none = (write_mode == "cdc") ≡ false
CdcDeclared columns write_mode (some cdc) =
    All (λ (key : String). is_declared columns key ≡ true) cdc.keys
    × (is_declared columns cdc.sequence_by ≡ true)

-- The columns have positions, and those are fields of a line, apart from each other.
abbrev pub HasLayout : List ColumnMapping → Type 0
HasLayout columns =
    (layout : List LayoutColumn) × (layout_from_columns columns ≡ some layout) × IsDisjoint layout

abbrev pub Bounded : (py : Python) → Option (QuarantineConfig py) → Type 0
Bounded py none = Unit
Bounded py (some q) =
    ((q.dir == "") ≡ false)
    × ((is_none q.max_invalid_fraction && is_none q.max_invalid_rows) ≡ false)

-- The sheet is there exactly in the Excel format.
abbrev pub ExcelFits : String → Option Sheet → Type 0
ExcelFits format excel = (format == "excel") ≡ not (is_none excel)

-- The type of a connector is not among its options.
abbrev pub ConnectorFits : Option (String × Dict String) → Type 0
ConnectorFits none = Unit
ConnectorFits (some (type, options)) = Dict.lookup "type" options ≡ none

abbrev pub IsValidConfig : (py : Python) → ParsedConfig py → Type 0
IsValidConfig py config =
    All HasKeys config.columns
    × CdcDeclared config.columns config.write_mode config.cdc
    × (((config.format == "fixed_width") ≡ false) ⊎ HasLayout config.columns)
    × Bounded py config.quarantine
    × ExcelFits config.format config.excel
    × ConnectorFits config.connector

pub not-true : (b : Bool) → not b ≡ true → b ≡ false
not-true false h = refl
not-true true h = cc

check_keys-All :
    (columns : List ColumnMapping) (keys : List String)
    → check_keys columns keys ≡ ok tt
    → All (λ (key : String). is_declared columns key ≡ true) keys
unfolding check_keys
check_keys-All columns [] h = tt
check_keys-All columns (key ∷ keys) h =
    let (u, here, rest) = >>=-eq-ok (require (is_declared columns key) _) _ h in
    (require-true _ _ here, check_keys-All columns keys rest)

check_cdc-CdcDeclared :
    (columns : List ColumnMapping) (write_mode : String) (cdc : Option CdcConfig)
    → check_cdc columns write_mode cdc ≡ ok tt
    → CdcDeclared columns write_mode cdc
unfolding check_cdc
check_cdc-CdcDeclared columns write_mode none h = not-true _ (require-true _ _ h)
check_cdc-CdcDeclared columns write_mode (some cdc) h =
    let (u, keys, sequence) = >>=-eq-ok (check_keys columns cdc.keys) _ h in
    (check_keys-All columns cdc.keys keys, require-true _ _ sequence)

or_bad_layout-ok : (r : Result LayoutError (Unit {0})) → or_bad_layout r ≡ ok tt → r ≡ ok tt
or_bad_layout-ok (ok u) h = refl
or_bad_layout-ok (err e) h = cc

check_layout-IsDisjoint :
    (source : String) (placed : Option (List LayoutColumn))
    → check_layout source placed ≡ ok tt
    → (layout : List LayoutColumn) × (placed ≡ some layout) × IsDisjoint layout
check_layout-IsDisjoint source none h = cc
check_layout-IsDisjoint source (some layout) h = (
  layout,
  refl,
  (validate_layout-IsDisjoint layout).0 (or_bad_layout-ok (validate_layout layout) h),
)

checked_when :
    (b : Bool) (r : Result ConfigError (Unit {0}))
    → (if b then r else ok tt) ≡ ok tt
    → (b ≡ false) ⊎ (r ≡ ok tt)
checked_when true r h = inr h
checked_when false r h = inl refl

check_format-HasLayout :
    (py : Python) (in_unit_interval : py.Float → Bool) (format : String)
    (columns : List ColumnMapping)
    → check_format py in_unit_interval format columns ≡ ok tt
    → ((format == "fixed_width") ≡ false) ⊎ HasLayout columns
unfolding check_format validate_fixed_width_columns
check_format-HasLayout py in_unit_interval format columns h =
    elim (checked_when (format == "fixed_width") _ h) [
      | inl other ↦ inl other
      | inr valid ↦ inr (check_layout-IsDisjoint _ (layout_from_columns columns) valid)
    ]

row_limit-is_none :
    (py : Python) (in_unit_interval : py.Float → Bool) (rows : Option RowLimit) (limit : Option ℕ)
    → row_limit py in_unit_interval rows ≡ ok limit
    → is_none rows ≡ is_none limit
unfolding row_limit
row_limit-is_none py unit none limit h = ap is_none (ok-injective h)
row_limit-is_none py unit (some (rows_at_most n)) limit h = ap is_none (ok-injective h)
row_limit-is_none py unit (some negative_rows) limit h = cc

parse_quarantine-Bounded :
    (py : Python) (in_unit_interval : py.Float → Bool) (raw : RawQuarantine py.Float)
    (q : Option (QuarantineConfig py))
    → parse_quarantine_config py in_unit_interval raw ≡ ok q
    → Bounded py q
unfolding parse_quarantine_config
parse_quarantine-Bounded py unit no_block q h = subst (Bounded py) (ok-injective h) tt
parse_quarantine-Bounded py unit not_a_mapping q h = cc
parse_quarantine-Bounded py unit (block false dir fraction rows) q h =
    subst (Bounded py) (ok-injective h) tt
parse_quarantine-Bounded py unit (block true dir fraction rows) q h =
    let (u, directory, h1) = >>=-eq-ok (require (not (get_or "" dir == "")) _) _ h in
    let (v, threshold, h2) = >>=-eq-ok (require (not (is_none fraction && is_none rows)) _) _ h1 in
    let (w, in_range, h3) = >>=-eq-ok (fraction_limit py unit fraction) _ h2 in
    let (limit, limited, h4) = >>=-eq-ok (row_limit py unit rows) _ h3 in
    subst (Bounded py) (ok-injective h4) (
      not-true _ (require-true _ _ directory),
      subst (λ b. (is_none fraction && b) ≡ false) (row_limit-is_none py unit rows limit limited)
          (not-true _ (require-true _ _ threshold)),
    )

parse_excel_config-ExcelFits :
    (format : String) (raw : Option RawExcel) (excel : Option Sheet)
    → parse_excel_config format raw ≡ ok excel
    → ExcelFits format excel
unfolding parse_excel_config
parse_excel_config-ExcelFits format none excel h = ground arith
parse_excel_config-ExcelFits format (some raw) excel h = ground arith

parse_connector-ConnectorFits :
    (raw : Option (Dict String)) (connector : Option (String × Dict String))
    → parse_connector raw ≡ ok connector
    → ConnectorFits connector
unfolding parse_connector
parse_connector-ConnectorFits none connector h = subst ConnectorFits (ok-injective h) tt
parse_connector-ConnectorFits (some raw) connector h =
    let (type, found, h1) = >>=-eq-ok (given "type" (Dict.lookup "type" raw)) _ h in
    subst ConnectorFits (ok-injective h1) (Dict.lookup-erase "type" "type" raw)

-- A Pipeline Config that is accepted has, in every column, only keys for the supported algorithm
-- that are references, and encrypts only text columns; it has a cdc block if its write mode is cdc,
-- and the key and sequence columns of a cdc block are declared or empty; a fixed-width format has
-- positions that are disjoint fields of a line, counted from 1; an enabled quarantine has a
-- directory and at least one threshold; there is a sheet exactly in the Excel format; and no option
-- of the connector is named type.
pub config_from_dict-IsValidConfig :
    (py : Python) (in_unit_interval : py.Float → Bool) (data_ : RawConfig py.Float)
    (config : ParsedConfig py)
    → config_from_dict py in_unit_interval data_ ≡ ok config
    → IsValidConfig py config
unfolding config_from_dict
config_from_dict-IsValidConfig py unit data_ config h =
    let (raw_columns, a, h1) = >>=-eq-ok (given "columns" data_.columns) _ h in
    let (untyped, b, h2) = >>=-eq-ok (parse_columns raw_columns) _ h1 in
    let (columns, c, h3) = >>=-eq-ok (typed_columns untyped) _ h2 in
    let (format, d, h4) = >>=-eq-ok (given "format" data_.format) _ h3 in
    let (u, placed, h5) = >>=-eq-ok (check_format py unit format columns) _ h4 in
    let (excel, e, h6) = >>=-eq-ok (parse_excel_config format data_.excel) _ h5 in
    let (connector, f, h7) = >>=-eq-ok (parse_connector data_.connector) _ h6 in
    let (cdc, g, h8) = >>=-eq-ok (parse_cdc data_.cdc) _ h7 in
    let (v, declared, h9) =
      >>=-eq-ok (check_cdc columns (get_or "append" data_.write_mode) cdc) _ h8 in
    let (quarantine, q, h10) = >>=-eq-ok (parse_quarantine_config py unit data_.quarantine) _ h9 in
    let (table, t, h11) = >>=-eq-ok (given "dest_table" data_.dest_table) _ h10 in
    let (policy, p, h12) =
      >>=-eq-ok (validate_source_manifest (get_or "optional" data_.source_manifest)) _ h11 in
    subst (IsValidConfig py) (ok-injective h12) (
      typed_columns-HasKeys untyped columns (parse_columns-HasUntypedKeys raw_columns untyped b) c,
      check_cdc-CdcDeclared columns (get_or "append" data_.write_mode) cdc declared,
      check_format-HasLayout py unit format columns placed,
      parse_quarantine-Bounded py unit data_.quarantine quarantine q,
      parse_excel_config-ExcelFits format data_.excel excel e,
      parse_connector-ConnectorFits data_.connector connector f,
    )
