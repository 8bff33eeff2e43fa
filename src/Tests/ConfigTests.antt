-- ===== src/Tests/ConfigTests.antt =====
-- A Pipeline Config with every block: a fixed-width format, CDC, encryption and quarantine.
use filedge.Base.{ℕ, ◌≡◌, refl, Bool, true, none, some, [], ◌∷◌, leb, map}
use filedge.Base.Dict
use filedge.Base.Result.{ok}
use filedge.Rows.Columns.{ColumnMapping, string, integer}
use filedge.Load.Config.{optional}
use filedge.Config.Raw.{RawColumn, RawConfig, block, rows_at_most, no_sheet}
use filedge.Config.FromDict.{ParsedConfig, config_from_dict}
use filedge.Config.Accepted.{IsValidConfig, config_from_dict-IsValidConfig}
use filedge.Authoring.Draft.{Draft}
use filedge.Authoring.Emit.{to_config, draft_from_config, loaded_column}
use filedge.Authoring.Rewritten.{rewritten}
use filedge.Authoring.Roundtrip.{to_config-draft_from_config}
use filedge.Tests.Data.{small_python}

abbrev raw_id : RawColumn
raw_id = record {
  source = some "id";
  dest = some "id";
  type = some "integer";
  required = none;
  encrypt = none;
  hash = none;
  start = some 1;
  width = some 4;
}

abbrev raw_name : RawColumn
raw_name = record {
  source = some "name";
  dest = some "name";
  type = some "string";
  required = some true;
  encrypt = some (("algorithm", "aes-256-gcm") ∷ ("key", "env:KEY") ∷ []);
  hash = some (("algorithm", "hmac-sha256") ∷ ("key", "secrets:/run/key") ∷ []);
  start = some 5;
  width = some 8;
}

abbrev raw_config : RawConfig ℕ
raw_config = record {
  columns = some (raw_id ∷ raw_name ∷ []);
  format = some "fixed_width";
  dest_table = some "people";
  excel = none;
  connector = some (("type", "sqlite") ∷ ("url", "env:URL") ∷ []);
  cdc = some (record {
    keys = some ("id" ∷ []);
    operation_column = some "op";
    sequence_by = some "id";
    operations = some (("insert", "I" ∷ []) ∷ []);
  });
  write_mode = some "cdc";
  quarantine = block true (some "bad") none (some (rows_at_most 10));
  retry_cap = none;
  stale_timeout_minutes = none;
  batch_size = none;
  encoding = none;
  file_pattern = none;
  source_manifest = none;
}

abbrev id : ColumnMapping
id = record {
  source = "id";
  dest = "id";
  type = integer;
  required = true;
  encrypt = none;
  hash = none;
  start = some 1;
  width = some 4;
}

abbrev name : ColumnMapping
name = record {
  source = "name";
  dest = "name";
  type = string;
  required = true;
  encrypt = some (record { algorithm = "aes-256-gcm"; key = "env:KEY" });
  hash = some (record { algorithm = "hmac-sha256"; key = "secrets:/run/key" });
  start = some 5;
  width = some 8;
}

abbrev config : ParsedConfig small_python
config = record {
  format = "fixed_width";
  dest_table = "people";
  columns = id ∷ name ∷ [];
  retry_cap = 3;
  stale_timeout_minutes = 30;
  batch_size = 1000;
  write_mode = "cdc";
  connector = some ("sqlite", ("url", "env:URL") ∷ []);
  encoding = "utf-8";
  cdc = some (record {
    keys = "id" ∷ [];
    operation_column = "op";
    sequence_by = "id";
    operations = ("insert", "I" ∷ []) ∷ [];
  });
  file_pattern = none;
  source_manifest = optional;
  excel = none;
  quarantine =
      some (record { dir = "bad"; max_invalid_fraction = none; max_invalid_rows = some 10 });
}

abbrev is_percentage : ℕ → Bool
is_percentage n = leb n 100

accepted : config_from_dict small_python is_percentage raw_config ≡ ok config
unfolding config_from_dict Dict.lookup Dict.erase
accepted = refl

config_from_dict-IsValidConfig_example : IsValidConfig small_python config
config_from_dict-IsValidConfig_example =
    config_from_dict-IsValidConfig small_python is_percentage raw_config config accepted

abbrev opened : Draft
opened = record {
  dest_table = "people";
  columns = map (loaded_column small_python) (id ∷ name ∷ []);
  fmt = "fixed_width";
  write_mode = "cdc";
  sheet = no_sheet;
  cdc_keys = "id" ∷ [];
  cdc_sequence_by = "id";
  cdc_operation_column = "op";
  cdc_operations = ("insert", "I" ∷ []) ∷ [];
  connector_type = "sqlite";
  connector_options = ("url", "env:URL") ∷ [];
}

is_opened : draft_from_config small_python config ≡ ok opened
unfolding draft_from_config
is_opened = refl

to_config-draft_from_config_example :
    to_config small_python is_percentage opened ≡ ok (rewritten small_python config)
to_config-draft_from_config_example =
    to_config-draft_from_config small_python is_percentage raw_config config opened accepted
      is_opened
