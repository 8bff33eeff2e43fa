-- ===== src/Config/Blocks.antt =====
-- The blocks of a Pipeline Config and their validation, in filedge/config.py.
use filedge.Base.{
  ℕ, String, Bool, true, false, not, Option, none, some, List, [], ◌∷◌, ◌==◌, ◌&&◌, ◌||◌,
  if◌then◌else◌, is_none, contains, map,
}
use filedge.Base.Dict
use filedge.Base.Dict.{Dict}
use filedge.Base.Result.{Result, ok, err, ◌>>=◌}
use filedge.Rows.Python.{Python}
use filedge.Rows.Columns.{ColumnMapping, KeyConfig, ColumnType, column_type}
use filedge.Cdc.Plan.{CdcConfig}
use filedge.Quarantine.Processor.{QuarantineConfig}
use filedge.Load.Config.{ManifestPolicy, disabled, optional, required_manifest}
use filedge.FixedWidth.Layout.{LayoutError, LayoutColumn, layout_from_columns, validate_layout}
use filedge.Registry.Reference.{after_prefix}
use filedge.Config.Raw.{
  RawColumn, RowLimit, rows_at_most, negative_rows, RawQuarantine, no_block, not_a_mapping, block,
  RawCdc, Sheet, RawExcel, ConfigError, missing_key, unknown_type, unsupported_algorithm,
  incomplete_position, undeclared_key, missing_crypto_field, encrypt_not_string, bad_key_reference,
  cdc_block_missing, undeclared_sequence, bad_source_manifest, excel_block_missing,
  excel_sheet_missing, excel_block_unexpected, quarantine_not_mapping, quarantine_no_dir,
  quarantine_no_threshold, fraction_out_of_range, rows_negative, bad_layout,
}
use text.Mathlib.Text.{starts_with}

-- `d[key]`
unfoldable pub given {ℓ} : {A : Type ℓ} → String → Option A → Result ConfigError A
given key none = err (missing_key key)
given key (some a) = ok a

-- `d.get(key, default)`
abbrev pub get_or {ℓ} : {A : Type ℓ} → A → Option A → A
get_or default none = default
get_or default (some a) = a

unfoldable pub required_crypto_field : String → Dict String → Result ConfigError String
required_crypto_field key raw = elim (Dict.lookup key raw) [
  | none ↦ err (missing_crypto_field key)
  | some value ↦ if value == "" then err (missing_crypto_field key) else ok value
]

unfoldable pub is_key_reference : String → Bool
unfolding after_prefix
is_key_reference value =
    (starts_with value "env:" && not (after_prefix value "env:" == ""))
    || (starts_with value "secrets:/" && not (after_prefix value "secrets:" == ""))

-- A check: its error, unless it holds.
unfoldable pub require : Bool → ConfigError → Result ConfigError (Unit {0})
require true e = ok tt
require false e = err e

-- What `encrypt:` and `hash:` have in common, for the one algorithm that each supports.
unfoldable pub parse_key : String → Dict String → Result ConfigError (Option KeyConfig)
unfolding required_crypto_field is_key_reference require
parse_key supported raw = do
  algorithm ← required_crypto_field "algorithm" raw
  _ ← require (algorithm == supported) (unsupported_algorithm algorithm)
  key ← required_crypto_field "key" raw
  _ ← require (is_key_reference key) bad_key_reference
  ok (some (record { algorithm = algorithm; key = key }))

unfoldable pub parse_encrypt_config :
    String → Option (Dict String) → Result ConfigError (Option KeyConfig)
unfolding parse_key
parse_encrypt_config type none = ok none
parse_encrypt_config type (some raw) = do
  _ ← require (type == "string") encrypt_not_string
  parse_key "aes-256-gcm" raw

unfoldable pub parse_hash_config : Option (Dict String) → Result ConfigError (Option KeyConfig)
unfolding parse_key
parse_hash_config none = ok none
parse_hash_config (some raw) = parse_key "hmac-sha256" raw

-- A column whose type is not validated yet.
pub record UntypedColumn : Type 0 where
  pub type : String
  pub raw : RawColumn
  pub source : String
  pub dest : String
  pub encrypt : Option KeyConfig
  pub hash : Option KeyConfig

unfoldable pub parse_column : RawColumn → Result ConfigError UntypedColumn
unfolding given parse_encrypt_config parse_hash_config
parse_column raw = do
  source ← given "source" raw.source
  dest ← given "dest" raw.dest
  type ← given "type" raw.type
  encrypt ← parse_encrypt_config type raw.encrypt
  hash ← parse_hash_config raw.hash
  ok (record {
    type = type;
    raw = raw;
    source = source;
    dest = dest;
    encrypt = encrypt;
    hash = hash;
  })

unfoldable pub parse_columns : List RawColumn → Result ConfigError (List UntypedColumn)
unfolding parse_column
parse_columns [] = ok []
parse_columns (raw ∷ raws) = do c ← parse_column raw; columns ← parse_columns raws; ok (c ∷ columns)

abbrev pub column_of : UntypedColumn → Option ColumnType → Result ConfigError ColumnMapping
column_of c none = err (unknown_type c.type)
column_of c (some type) = ok (record {
  source = c.source;
  dest = c.dest;
  type = type;
  required = get_or true c.raw.required;
  encrypt = c.encrypt;
  hash = c.hash;
  start = c.raw.start;
  width = c.raw.width;
})

unfoldable pub typed_column : UntypedColumn → Result ConfigError ColumnMapping
unfolding column_type
typed_column c = column_of c (column_type c.type)

unfoldable pub typed_columns : List UntypedColumn → Result ConfigError (List ColumnMapping)
unfolding typed_column
typed_columns [] = ok []
typed_columns (c ∷ columns) = do
  column ← typed_column c
  rest ← typed_columns columns
  ok (column ∷ rest)

-- `_validate_fixed_width_columns`, which looks for the first column without a position.
unfoldable pub first_unplaced : List ColumnMapping → String
first_unplaced [] = ""
first_unplaced (c ∷ columns) =
    let rest = first_unplaced columns in
    if is_none c.start || is_none c.width then c.source else rest

abbrev pub or_bad_layout : Result LayoutError (Unit {0}) → Result ConfigError (Unit {0})
or_bad_layout (ok u) = ok u
or_bad_layout (err e) = err (bad_layout e)

abbrev pub check_layout : String → Option (List LayoutColumn) → Result ConfigError (Unit {0})
check_layout source none = err (incomplete_position source)
check_layout source (some layout) = or_bad_layout (validate_layout layout)

unfoldable pub validate_fixed_width_columns : List ColumnMapping → Result ConfigError (Unit {0})
unfolding first_unplaced layout_from_columns validate_layout
validate_fixed_width_columns columns =
    check_layout (first_unplaced columns) (layout_from_columns columns)

unfoldable pub parse_excel_config : String → Option RawExcel → Result ConfigError (Option Sheet)
parse_excel_config format none = if format == "excel" then err excel_block_missing else ok none
parse_excel_config format (some raw) =
    if format == "excel"
    then elim raw.sheet [ none ↦ err excel_sheet_missing | some sheet ↦ ok (some sheet) ]
    else err excel_block_unexpected

unfoldable pub parse_connector :
    Option (Dict String) → Result ConfigError (Option (String × Dict String))
unfolding given
parse_connector none = ok none
parse_connector (some raw) = do
  type ← given "type" (Dict.lookup "type" raw)
  ok (some (type, Dict.erase "type" raw))

unfoldable pub parse_cdc : Option RawCdc → Result ConfigError (Option CdcConfig)
unfolding given
parse_cdc none = ok none
parse_cdc (some raw) = do
  keys ← given "keys" raw.keys
  operation_column ← given "operation_column" raw.operation_column
  sequence_by ← given "sequence_by" raw.sequence_by
  operations ← given "operations" raw.operations
  ok (
      some (record {
        keys = keys;
        operation_column = operation_column;
        sequence_by = sequence_by;
        operations = operations;
      }))

abbrev pub declared_sources : List ColumnMapping → List String
declared_sources columns = map (λ (c : ColumnMapping). c.source) columns

-- A key or sequence column is declared, or empty.
abbrev pub is_declared : List ColumnMapping → String → Bool
is_declared columns key = key == "" || contains key (declared_sources columns)

unfoldable pub check_keys : List ColumnMapping → List String → Result ConfigError (Unit {0})
unfolding require
check_keys columns [] = ok tt
check_keys columns (key ∷ keys) = do
  _ ← require (is_declared columns key) (undeclared_key key)
  check_keys columns keys

unfoldable pub check_cdc :
    List ColumnMapping → String → Option CdcConfig → Result ConfigError (Unit {0})
unfolding check_keys require
check_cdc columns write_mode none = require (not (write_mode == "cdc")) cdc_block_missing
check_cdc columns write_mode (some cdc) = do
  _ ← check_keys columns cdc.keys
  require (is_declared columns cdc.sequence_by) undeclared_sequence

unfoldable pub validate_source_manifest : String → Result ConfigError ManifestPolicy
validate_source_manifest value =
    if value == "disabled"
    then ok disabled
    else if value == "optional"
    then ok optional
    else if value == "required"
    then ok required_manifest
    else err bad_source_manifest

module _ (py : Python) (in_unit_interval : py.Float → Bool) where
  unfoldable pub fraction_limit : Option py.Float → Result ConfigError (Unit {0})
  unfolding require
  fraction_limit none = ok tt
  fraction_limit (some fraction) = require (in_unit_interval fraction) fraction_out_of_range

  unfoldable pub row_limit : Option RowLimit → Result ConfigError (Option ℕ)
  row_limit none = ok none
  row_limit (some (rows_at_most n)) = ok (some n)
  row_limit (some negative_rows) = err rows_negative

  unfoldable pub parse_quarantine_config :
      RawQuarantine py.Float → Result ConfigError (Option (QuarantineConfig py))
  unfolding fraction_limit row_limit require
  parse_quarantine_config no_block = ok none
  parse_quarantine_config not_a_mapping = err quarantine_not_mapping
  parse_quarantine_config (block false dir fraction rows) = ok none
  parse_quarantine_config (block true dir fraction rows) = do
    _ ← require (not (get_or "" dir == "")) quarantine_no_dir
    _ ← require (not (is_none fraction && is_none rows)) quarantine_no_threshold
    _ ← fraction_limit fraction
    limit ← row_limit rows
    ok (
        some (record {
          dir = get_or "" dir;
          max_invalid_fraction = fraction;
          max_invalid_rows = limit;
        }))
