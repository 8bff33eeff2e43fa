-- ===== src/Authoring/Emit.antt =====
-- The Pipeline Config of a draft and the draft of a Pipeline Config, in filedge/authoring_draft.py.
use filedge.Base.{
  String, Bool, not, Option, none, some, [], ◌∷◌, ◌==◌, if◌then◌else◌, select, is_none, map,
  contains,
}
use filedge.Base.Dict
use filedge.Base.Dict.{Dict}
use filedge.Base.Result.{Result, ok, err}
use filedge.Rows.Python.{Python}
use filedge.Rows.Columns.{ColumnMapping, KeyConfig}
use filedge.Cdc.Plan.{CdcConfig}
use filedge.Config.Raw.{RawColumn, RawConfig, RawCdc, no_block, no_sheet, ConfigError}
use filedge.Config.Blocks.{get_or}
use filedge.Config.FromDict.{ParsedConfig, config_from_dict}
use filedge.Authoring.Descriptors.{connector_descriptor}
use filedge.Authoring.Draft.{ColumnDraft, Draft, type_name, default_operations}

abbrev pub key_block : Option KeyConfig → Option (Dict String)
key_block none = none
key_block (some k) = some (("algorithm", k.algorithm) ∷ ("key", k.key) ∷ [])

-- `_column_config`
unfoldable pub column_config : String → ColumnDraft → RawColumn
column_config fmt c = record {
  source = some c.source;
  dest = some c.dest;
  type = some c.type;
  required = some c.required;
  encrypt = key_block c.encrypt;
  hash = key_block c.hash;
  start = if fmt == "fixed_width" then c.start else none;
  width = if fmt == "fixed_width" then c.width else none;
}

abbrev pub given_options : Dict String → Dict String
given_options options = select (λ (kv : String × String). not (kv.1 == "")) options

-- `{"type": t, **options}`: a `type` among the options takes the place of `t`.
unfoldable pub connector_block : String → Dict String → Dict String
unfolding Dict.lookup Dict.erase
connector_block t options =
    ("type", get_or t (Dict.lookup "type" options)) ∷ Dict.erase "type" options

abbrev pub cdc_block : Draft → RawCdc
cdc_block d = record {
  keys = some d.cdc_keys;
  operation_column = some d.cdc_operation_column;
  sequence_by = some d.cdc_sequence_by;
  operations = some d.cdc_operations;
}

module _ (py : Python) where
  unfoldable pub to_config_dict : Draft → RawConfig py.Float
  unfolding column_config connector_block
  to_config_dict d = record {
    columns = some (map (column_config d.fmt) d.columns);
    format = some d.fmt;
    dest_table = some d.dest_table;
    excel = if d.fmt == "excel" then some (record { sheet = some d.sheet }) else none;
    connector = some (connector_block d.connector_type (given_options d.connector_options));
    cdc = if d.write_mode == "cdc" then some (cdc_block d) else none;
    write_mode = some d.write_mode;
    quarantine = no_block;
    retry_cap = none;
    stale_timeout_minutes = none;
    batch_size = none;
    encoding = none;
    file_pattern = none;
    source_manifest = none;
  }

  unfoldable pub to_config : (py.Float → Bool) → Draft → Result ConfigError (ParsedConfig py)
  unfolding to_config_dict config_from_dict
  to_config in_unit_interval d = config_from_dict py in_unit_interval (to_config_dict d)

  pub data ShapeError : Type 0 where
    unsupported_format unsupported_connector unsupported_write_mode : String → ShapeError

  unfoldable pub loaded_column : ColumnMapping → ColumnDraft
  loaded_column c = record {
    source = c.source;
    dest = c.dest;
    type = type_name c.type;
    required = c.required;
    confidence = "loaded";
    null_count = 0;
    total_seen = 0;
    notes = [];
    start = c.start;
    width = c.width;
    encrypt = c.encrypt;
    hash = c.hash;
  }

  abbrev pub connector_type_of : Option (String × Dict String) → String
  connector_type_of none = "sqlite"
  connector_type_of (some (t, options)) = t

  abbrev pub options_of : Option (String × Dict String) → Dict String
  options_of none = []
  options_of (some (t, options)) = options

  abbrev pub default_cdc : CdcConfig
  default_cdc = record {
    keys = [];
    operation_column = "op";
    sequence_by = "";
    operations = default_operations;
  }

  -- The draft, once the shape of the config is supported.
  unfoldable pub loaded_draft : ParsedConfig py → Draft
  unfolding loaded_column
  loaded_draft config =
      let cdc = get_or default_cdc config.cdc in
      record {
        dest_table = config.dest_table;
        columns = map loaded_column config.columns;
        fmt = config.format;
        write_mode = config.write_mode;
        sheet = get_or no_sheet config.excel;
        cdc_keys = cdc.keys;
        cdc_sequence_by = cdc.sequence_by;
        cdc_operation_column = cdc.operation_column;
        cdc_operations = cdc.operations;
        connector_type = connector_type_of config.connector;
        connector_options = options_of config.connector;
      }

  unfoldable pub draft_from_config : ParsedConfig py → Result ShapeError Draft
  unfolding loaded_draft connector_descriptor
  draft_from_config config =
      if not (contains config.format ("csv" ∷ "ndjson" ∷ "parquet" ∷ "excel" ∷ "fixed_width" ∷ []))
      then err (unsupported_format config.format)
      else if is_none (connector_descriptor (connector_type_of config.connector))
      then err (unsupported_connector (connector_type_of config.connector))
      else if not (contains config.write_mode ("append" ∷ "truncate" ∷ "cdc" ∷ []))
      then err (unsupported_write_mode config.write_mode)
      else ok (loaded_draft config)
