-- ===== src/Config/Raw.antt =====
-- What filedge/config.py reads: a Pipeline Config as YAML gives it, with values of the documented
-- types, and the exceptions of its validation. A key that is not there is `none`.
use filedge.Base.{ℕ, String, Bool, Option, List}
use filedge.Base.Dict.{Dict}
use filedge.FixedWidth.Layout.{LayoutError}

pub record RawColumn : Type 0 where
  pub source : Option String
  pub dest : Option String
  pub type : Option String
  pub required : Option Bool
  pub encrypt : Option (Dict String)
  pub hash : Option (Dict String)
  pub start : Option ℕ
  pub width : Option ℕ

pub data RowLimit : Type 0 where
  rows_at_most : ℕ → RowLimit
  negative_rows : RowLimit

-- `quarantine:`, with a number type of its own for the fraction.
pub data RawQuarantine (Float : Type 0) : Type 0 where
  no_block not_a_mapping : RawQuarantine Float
  block :
      (enabled : Bool) (dir : Option String) (max_invalid_fraction : Option Float)
      (max_invalid_rows : Option RowLimit)
      → RawQuarantine Float

pub record RawCdc : Type 0 where
  pub keys : Option (List String)
  pub operation_column : Option String
  pub sequence_by : Option String
  pub operations : Option (Dict (List String))

-- A sheet, by its name or its number, or null.
pub data Sheet : Type 0 where
  no_sheet : Sheet
  named : String → Sheet
  numbered : ℕ → Sheet

-- `excel:`, with its sheet.
pub record RawExcel : Type 0 where
  pub sheet : Option Sheet

pub record RawConfig (Float : Type 0) : Type 0 where
  pub columns : Option (List RawColumn)
  pub format : Option String
  pub dest_table : Option String
  pub excel : Option RawExcel
  pub connector : Option (Dict String)
  pub cdc : Option RawCdc
  pub write_mode : Option String
  pub quarantine : RawQuarantine Float
  pub retry_cap : Option ℕ
  pub stale_timeout_minutes : Option ℕ
  pub batch_size : Option ℕ
  pub encoding : Option String
  pub file_pattern : Option String
  pub source_manifest : Option String

-- The KeyErrors and ValueErrors.
pub data ConfigError : Type 0 where
  missing_key unknown_type unsupported_algorithm incomplete_position undeclared_key :
      String → ConfigError
  missing_crypto_field : String → ConfigError
  encrypt_not_string bad_key_reference cdc_block_missing undeclared_sequence bad_source_manifest :
      ConfigError
  excel_block_missing excel_sheet_missing excel_block_unexpected : ConfigError
  quarantine_not_mapping quarantine_no_dir quarantine_no_threshold fraction_out_of_range
        rows_negative :
      ConfigError
  bad_layout : LayoutError → ConfigError
