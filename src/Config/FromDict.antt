-- ===== src/Config/FromDict.antt =====
-- `config_from_dict` of filedge/config.py.
use filedge.Base.{ℕ, String, Bool, Option, List, ◌==◌, if◌then◌else◌}
use filedge.Base.Dict.{Dict}
use filedge.Base.Result.{Result, ok, ◌>>=◌}
use filedge.Rows.Python.{Python}
use filedge.Rows.Columns.{ColumnMapping}
use filedge.Cdc.Plan.{CdcConfig}
use filedge.Quarantine.Processor.{QuarantineConfig}
use filedge.Load.Config.{ManifestPolicy}
use filedge.Config.Raw.{RawConfig, Sheet, ConfigError}
use filedge.Config.Blocks.{
  given, get_or, parse_columns, typed_columns, validate_fixed_width_columns, parse_excel_config,
  parse_connector, parse_cdc, check_cdc, validate_source_manifest, parse_quarantine_config,
}

-- A validated config; the write mode is the text, which is not validated.
pub record ParsedConfig (py : Python) : Type 0 where
  pub format : String
  pub dest_table : String
  pub columns : List ColumnMapping
  pub retry_cap : ℕ
  pub stale_timeout_minutes : ℕ
  pub batch_size : ℕ
  pub write_mode : String
  pub connector : Option (String × Dict String)
  pub encoding : String
  pub cdc : Option CdcConfig
  pub file_pattern : Option String
  pub source_manifest : ManifestPolicy
  pub excel : Option Sheet
  pub quarantine : Option (QuarantineConfig py)

module _ (py : Python) (in_unit_interval : py.Float → Bool) where
  -- The check of a fixed-width format.
  unfoldable pub check_format : String → List ColumnMapping → Result ConfigError (Unit {0})
  unfolding validate_fixed_width_columns
  check_format format columns =
      if format == "fixed_width" then validate_fixed_width_columns columns else ok tt

  unfoldable pub config_from_dict : RawConfig py.Float → Result ConfigError (ParsedConfig py)
  unfolding check_format given parse_columns typed_columns parse_excel_config parse_connector
      parse_cdc check_cdc validate_source_manifest parse_quarantine_config
  config_from_dict data_ = do
    raw_columns ← given "columns" data_.columns
    untyped ← parse_columns raw_columns
    columns ← typed_columns untyped
    format ← given "format" data_.format
    _ ← check_format format columns
    excel ← parse_excel_config format data_.excel
    connector ← parse_connector data_.connector
    cdc ← parse_cdc data_.cdc
    _ ← check_cdc columns (get_or "append" data_.write_mode) cdc
    quarantine ← parse_quarantine_config py in_unit_interval data_.quarantine
    dest_table ← given "dest_table" data_.dest_table
    source_manifest ← validate_source_manifest (get_or "optional" data_.source_manifest)
    ok (record {
      format = format;
      dest_table = dest_table;
      columns = columns;
      retry_cap = get_or 3 data_.retry_cap;
      stale_timeout_minutes = get_or 30 data_.stale_timeout_minutes;
      batch_size = get_or 1000 data_.batch_size;
      write_mode = get_or "append" data_.write_mode;
      connector = connector;
      encoding = get_or "utf-8" data_.encoding;
      cdc = cdc;
      file_pattern = data_.file_pattern;
      source_manifest = source_manifest;
      excel = excel;
      quarantine = quarantine;
    })
