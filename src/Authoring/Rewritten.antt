-- ===== src/Authoring/Rewritten.antt =====
-- The columns of a Pipeline Config that `draft_from_config` opens and `to_config` writes again, in
-- filedge/authoring_draft.py.
use filedge.Base.{
  String, ◌≡◌, refl, sym, ap, ◌∙◌, subst, Bool, true, false, Option, none, some, List, [], ◌∷◌,
  ◌==◌, if◌then◌else◌, All, map, arith,
}
use filedge.Base.Dict
use filedge.Base.Dict.{Dict}
use filedge.Base.Result.{ok, >>=-ok-next}
use filedge.Rows.Python.{Python}
use filedge.Rows.Columns.{
  ColumnMapping, KeyConfig, ColumnType, column_type, string, integer, float_number, date, timestamp,
  boolean_value,
}
use filedge.Load.Config.{optional}
use filedge.Config.Raw.{RawColumn}
use filedge.Config.Blocks.{
  given, UntypedColumn, column_of, declared_sources, require, is_key_reference,
  required_crypto_field, parse_key, parse_encrypt_config, parse_hash_config, parse_column,
  parse_columns, typed_column, typed_columns,
}
use filedge.Config.Columns.{KeyFor, EncryptsText, HasKeys}
use filedge.Config.FromDict.{ParsedConfig}
use filedge.Authoring.Draft.{type_name}
use filedge.Authoring.Emit.{
  key_block, column_config, given_options, loaded_column, connector_type_of, options_of,
}
use text.Mathlib.TextEquality.{eq_iff}

-- A column has its position in a fixed-width format only.
unfoldable pub rewritten_column : String → ColumnMapping → ColumnMapping
rewritten_column format c = record c {
  start = if format == "fixed_width" then c.start else none;
  width = if format == "fixed_width" then c.width else none;
}

-- The config that is written: its connector is explicit, and what a draft has no field for has its
-- default.
unfoldable pub rewritten : (py : Python) → ParsedConfig py → ParsedConfig py
unfolding rewritten_column
rewritten py config = record {
  format = config.format;
  dest_table = config.dest_table;
  columns = map (rewritten_column config.format) config.columns;
  retry_cap = 3;
  stale_timeout_minutes = 30;
  batch_size = 1000;
  write_mode = config.write_mode;
  connector =
      some (connector_type_of py config.connector, given_options (options_of py config.connector));
  encoding = "utf-8";
  cdc = if config.write_mode == "cdc" then config.cdc else none;
  file_pattern = none;
  source_manifest = optional;
  excel = config.excel;
  quarantine = none;
}

not_reference : is_key_reference "" ≡ false
unfolding is_key_reference
not_reference = refl

reference_given :
    (key : String) (b : Bool) → (key == "") ≡ b → is_key_reference key ≡ true → b ≡ false
reference_given key false same reference = refl
reference_given key true same reference =
    sym reference ∙ ap is_key_reference ((eq_iff key "").0 same) ∙ not_reference

parse_key_block :
    (supported : String) (k : KeyConfig)
    → (supported == "") ≡ false
    → KeyFor supported (some k)
    → parse_key supported (("algorithm", k.algorithm) ∷ ("key", k.key) ∷ []) ≡ ok (some k)
unfolding parse_key required_crypto_field Dict.lookup require
parse_key_block supported k given (same, reference) =
    ground (arith, eq_iff k.algorithm supported, reference_given k.key _ refl reference)

parse_encrypt_block :
    (type : ColumnType) (k : Option KeyConfig)
    → EncryptsText (type ≡ string) k
    → parse_encrypt_config (type_name type) (key_block k) ≡ ok k
unfolding parse_encrypt_config require
parse_encrypt_block type none keys = refl
parse_encrypt_block type (some k) (text, key) =
    subst (λ t. parse_encrypt_config (type_name t) (key_block (some k)) ≡ ok (some k)) (sym text)
      (parse_key_block "aes-256-gcm" k refl key)

parse_hash_block :
    (k : Option KeyConfig) → KeyFor "hmac-sha256" k → parse_hash_config (key_block k) ≡ ok k
unfolding parse_hash_config
parse_hash_block none key = refl
parse_hash_block (some k) key = parse_key_block "hmac-sha256" k refl key

column_type-type_name : (type : ColumnType) → column_type (type_name type) ≡ some type
unfolding column_type
column_type-type_name string = refl
column_type-type_name integer = refl
column_type-type_name float_number = refl
column_type-type_name date = refl
column_type-type_name timestamp = refl
column_type-type_name boolean_value = refl

module _ (py : Python) (format : String) where
  -- The parsed column that is written again, before the check of its type.
  abbrev pub untyped : ColumnMapping → UntypedColumn
  untyped c = record {
    type = type_name c.type;
    raw = column_config format (loaded_column py c);
    source = c.source;
    dest = c.dest;
    encrypt = c.encrypt;
    hash = c.hash;
  }

  abbrev written_column : ColumnMapping → RawColumn
  written_column c = column_config format (loaded_column py c)

  parse_column_written :
      (c : ColumnMapping) → HasKeys c → parse_column (written_column c) ≡ ok (untyped c)
  unfolding parse_column column_config loaded_column given
  parse_column_written c (encrypt, hash) =
      >>=-ok-next (parse_encrypt_config (type_name c.type) (key_block c.encrypt)) _
        (parse_encrypt_block c.type c.encrypt encrypt)
        (>>=-ok-next (parse_hash_config (key_block c.hash)) _ (parse_hash_block c.hash hash) refl)

  pub parse_columns_written :
      (columns : List ColumnMapping)
      → All HasKeys columns
      → parse_columns (map (column_config format) (map (loaded_column py) columns))
        ≡ ok (map untyped columns)
  unfolding parse_columns
  parse_columns_written [] keys = refl
  parse_columns_written (c ∷ columns) (here, keys) =
      >>=-ok-next (parse_column (written_column c)) _ (parse_column_written c here) (
        >>=-ok-next (parse_columns (map (column_config format) (map (loaded_column py) columns))) _
          (parse_columns_written columns keys) refl)

  typed_column_written :
      (c : ColumnMapping) → typed_column (untyped c) ≡ ok (rewritten_column format c)
  unfolding typed_column rewritten_column column_config loaded_column
  typed_column_written c = ap (column_of (untyped c)) (column_type-type_name c.type)

  pub typed_columns_written :
      (columns : List ColumnMapping)
      → typed_columns (map untyped columns) ≡ ok (map (rewritten_column format) columns)
  unfolding typed_columns
  typed_columns_written [] = refl
  typed_columns_written (c ∷ columns) =
      >>=-ok-next (typed_column (untyped c)) _ (typed_column_written c)
        (>>=-ok-next (typed_columns (map untyped columns)) _ (typed_columns_written columns) refl)

  rewritten_same :
      (c : ColumnMapping) → (format == "fixed_width") ≡ true → rewritten_column format c ≡ c
  unfolding rewritten_column
  rewritten_same c fixed = rw fixed

  pub rewritten_columns_same :
      (columns : List ColumnMapping)
      → (format == "fixed_width") ≡ true
      → map (rewritten_column format) columns ≡ columns
  rewritten_columns_same [] fixed = refl
  rewritten_columns_same (c ∷ columns) fixed =
      rw (rewritten_same c fixed) (rw (rewritten_columns_same columns fixed))

  pub rewritten_sources :
      (columns : List ColumnMapping)
      → declared_sources (map (rewritten_column format) columns) ≡ declared_sources columns
  unfolding rewritten_column
  rewritten_sources [] = refl
  rewritten_sources (c ∷ columns) = ap (λ sources. c.source ∷ sources) (rewritten_sources columns)
