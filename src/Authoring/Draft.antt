-- ===== src/Authoring/Draft.antt =====
-- `PipelineConfigDraft` of filedge/authoring_draft.py and its edits. An edit that raises has no draft.
use filedge.Base.{
  ℕ, String, Bool, true, not, Option, none, some, List, [], ◌∷◌, ◌++◌, ◌==◌, ◌&&◌, ◌||◌,
  if◌then◌else◌, any, select, is_none, map, contains,
}
use filedge.Base.Dict
use filedge.Base.Dict.{Dict}
use filedge.Base.Result.{Result, ok, err, ◌>>=◌}
use filedge.Rows.Columns.{
  ColumnType, KeyConfig, column_type, string, integer, float_number, date, timestamp, boolean_value,
}
use filedge.Inferrer.Infer.{InferredColumn, Confidence, high, low, ambiguous, Note}
use filedge.Config.Raw.{Sheet, no_sheet}
use filedge.Config.Blocks.{get_or}
use filedge.Authoring.Descriptors.{ConnectorSetting, connector_descriptor}

-- The KeyErrors and ValueErrors.
pub data DraftError : Type 0 where
  no_source no_dest unknown_type unknown_connector dest_exists bad_write_mode : String → DraftError
  no_setting : (connector name : String) → DraftError
  no_inference not_fixed_width no_draft : DraftError

pub record ColumnDraft : Type 0 where
  pub source : String
  pub dest : String
  pub type : String
  pub required : Bool
  pub confidence : String
  pub null_count : ℕ
  pub total_seen : ℕ
  pub notes : List String
  pub start : Option ℕ
  pub width : Option ℕ
  pub encrypt : Option KeyConfig
  pub hash : Option KeyConfig

-- `sheet` is None in most drafts.
pub record Draft : Type 0 where
  pub dest_table : String
  pub columns : List ColumnDraft
  pub fmt : String
  pub write_mode : String
  pub sheet : Sheet
  pub cdc_keys : List String
  pub cdc_sequence_by : String
  pub cdc_operation_column : String
  pub cdc_operations : Dict (List String)
  pub connector_type : String
  pub connector_options : Dict String

abbrev pub default_operations : Dict (List String)
default_operations =
    ("insert", "c" ∷ "insert" ∷ [])
    ∷ ("update", "u" ∷ "update" ∷ [])
    ∷ ("delete", "d" ∷ "delete" ∷ [])
    ∷ []

-- The names of the column types and of the tiers.
abbrev pub type_name : ColumnType → String
type_name string = "string"
type_name integer = "integer"
type_name float_number = "float"
type_name date = "date"
type_name timestamp = "timestamp"
type_name boolean_value = "boolean"

abbrev pub tier_name : Confidence → String
tier_name high = "high"
tier_name low = "low"
tier_name ambiguous = "ambiguous"

-- The options of `choose_connector`: the settings that have a default.
unfoldable pub default_options : List ConnectorSetting → Dict String
default_options [] = []
default_options (s ∷ settings) =
    let rest = default_options settings in
    if s.default == "" then rest else (s.name, s.default) ∷ rest

unfoldable pub choose_connector : String → Draft → Result DraftError Draft
unfolding connector_descriptor default_options
choose_connector connector_type d = elim (connector_descriptor connector_type) [
  | none ↦ err (unknown_connector connector_type)
  | some descriptor ↦ ok (record d {
    connector_type = descriptor.type;
    connector_options = default_options descriptor.settings;
  })
]

-- The constructor, with the defaults of the fields and `__post_init__`.
abbrev pub blank_draft : String → List ColumnDraft → String → Sheet → Draft
blank_draft dest_table columns fmt sheet = record {
  dest_table = dest_table;
  columns = columns;
  fmt = fmt;
  write_mode = "append";
  sheet = sheet;
  cdc_keys = [];
  cdc_sequence_by = "";
  cdc_operation_column = "op";
  cdc_operations = default_operations;
  connector_type = "sqlite";
  connector_options = [];
}

unfoldable pub new_draft : String → List ColumnDraft → String → Sheet → Result DraftError Draft
unfolding choose_connector
new_draft dest_table columns fmt sheet =
    choose_connector "sqlite" (blank_draft dest_table columns fmt sheet)

unfoldable pub inferred_draft : (Note → String) → InferredColumn → ColumnDraft
inferred_draft shown c = record {
  source = c.name;
  dest = c.name;
  type = type_name c.inferred_type;
  required = true;
  confidence = tier_name c.confidence;
  null_count = c.null_count;
  total_seen = c.total_seen;
  notes = map shown c.notes;
  start = none;
  width = none;
  encrypt = none;
  hash = none;
}

-- `from_sample`, with the columns that Schema Inference finds.
unfoldable pub from_sample :
    (Note → String) → List InferredColumn → String → String → Sheet → Result DraftError Draft
unfolding inferred_draft new_draft
from_sample shown inferred dest_table fmt sheet =
    if fmt == "fixed_width"
    then err no_inference
    else new_draft dest_table (map (inferred_draft shown) inferred) fmt sheet

-- `validate_column_type`
unfoldable pub checked_type : String → Result DraftError String
unfolding column_type
checked_type type = elim (column_type type) [ none ↦ err (unknown_type type) | some t ↦ ok type ]

unfoldable pub add_fixed_width_column : ColumnDraft → Draft → Result DraftError Draft
unfolding checked_type
add_fixed_width_column c d =
    if d.fmt == "fixed_width"
    then (checked_type c.type >>= λ type. ok (record d {
      columns =
          d.columns
          ++ record {
            source = c.source;
            dest = c.dest;
            type = c.type;
            required = c.required;
            confidence = "manual";
            null_count = 0;
            total_seen = 0;
            notes = "Fixed-Width Layout entered manually; Schema Inference skipped." ∷ [];
            start = c.start;
            width = c.width;
            encrypt = none;
            hash = none;
          }
            ∷ [];
    }))
    else err not_fixed_width

unfoldable pub add_columns : List ColumnDraft → Draft → Result DraftError Draft
unfolding add_fixed_width_column
add_columns [] d = ok d
add_columns (c ∷ columns) d = do d' ← add_fixed_width_column c d; add_columns columns d'

unfoldable pub from_fixed_width_layout : String → List ColumnDraft → Result DraftError Draft
unfolding new_draft add_columns
from_fixed_width_layout dest_table columns = do
  d ← new_draft dest_table [] "fixed_width" no_sheet
  add_columns columns d

-- The column that `column` and `column_by_dest` return is the first with the name.
unfoldable pub update_first :
    (ColumnDraft → Bool) → (ColumnDraft → ColumnDraft) → List ColumnDraft → List ColumnDraft
update_first here change [] = []
update_first here change (c ∷ columns) =
    let rest = update_first here change columns in if here c then change c ∷ columns else c ∷ rest

unfoldable pub find_column : (ColumnDraft → Bool) → List ColumnDraft → Option ColumnDraft
find_column here [] = none
find_column here (c ∷ columns) =
    let rest = find_column here columns in if here c then some c else rest

abbrev pub has_source : String → ColumnDraft → Bool
has_source source c = c.source == source

abbrev pub has_dest : String → ColumnDraft → Bool
has_dest dest c = c.dest == dest

-- The arguments of `edit_column`.
pub record ColumnEdit : Type 0 where
  pub new_source : Option String
  pub dest : Option String
  pub type : Option String
  pub required : Option Bool
  pub start : Option ℕ
  pub width : Option ℕ

abbrev pub kept {ℓ} : {A : Type ℓ} → Option A → Option A → Option A
kept none old = old
kept (some new) old = some new

abbrev pub edited : ColumnEdit → ColumnDraft → ColumnDraft
edited e c = record c {
  source = get_or c.source e.new_source;
  dest = get_or c.dest e.dest;
  type = get_or c.type e.type;
  required = get_or c.required e.required;
  start = kept e.start c.start;
  width = kept e.width c.width;
}

abbrev pub check_type : Option String → Result DraftError (Unit {0})
check_type none = ok tt
check_type (some type) = checked_type type >>= λ t. ok tt

-- An edit of the first column with a name.
unfoldable pub edit_first :
    DraftError
    → (ColumnDraft → Bool)
    → (ColumnDraft → ColumnDraft)
    → Draft
    → Result DraftError Draft
unfolding find_column update_first
edit_first missing here change d = elim (find_column here d.columns) [
  | none ↦ err missing
  | some c ↦ ok (record d { columns = update_first here change d.columns })
]

unfoldable pub edit_column : String → ColumnEdit → Draft → Result DraftError Draft
unfolding edit_first checked_type
edit_column source e d = do
  edited_draft ← edit_first (no_source source) (has_source source) (edited e) d
  _ ← check_type e.type
  ok edited_draft

unfoldable pub set_connector_setting : String → String → Draft → Result DraftError Draft
unfolding connector_descriptor Dict.insert
set_connector_setting name value d = elim (connector_descriptor d.connector_type) [
  | none ↦ err (unknown_connector d.connector_type)
  | some descriptor ↦
      if any (λ (s : ConnectorSetting). s.name == name) descriptor.settings
      then ok (record d { connector_options = Dict.insert name value d.connector_options })
      else err (no_setting d.connector_type name)
]

unfoldable pub duplicate_column : String → String → Draft → Result DraftError Draft
unfolding find_column
duplicate_column dest new_dest d = elim (find_column (has_dest dest) d.columns) [
  | none ↦ err (no_dest dest)
  | some c ↦
      if any (has_dest new_dest) d.columns
      then err (dest_exists new_dest)
      else ok (record d {
        columns = d.columns ++ record c { dest = new_dest; encrypt = none; hash = none } ∷ [];
      })
]

unfoldable pub set_field_encryption :
    String → Option KeyConfig → Option KeyConfig → Draft → Result DraftError Draft
unfolding edit_first
set_field_encryption dest encrypt hash d =
    edit_first (no_dest dest) (has_dest dest)
      (λ c. record c { encrypt = kept encrypt c.encrypt; hash = kept hash c.hash }) d

unfoldable pub clear_field_encryption : String → Bool → Bool → Draft → Result DraftError Draft
unfolding edit_first
clear_field_encryption dest encrypt hash d =
    edit_first (no_dest dest) (has_dest dest)
      (λ c. record c {
        encrypt = if encrypt then none else c.encrypt;
        hash = if hash then none else c.hash;
      })
      d

unfoldable pub field_encryption_columns : Draft → List ColumnDraft
field_encryption_columns d =
    select (λ (c : ColumnDraft). not (is_none c.encrypt) || not (is_none c.hash)) d.columns

abbrev pub is_unset : Dict String → ConnectorSetting → Bool
is_unset options s = s.required && get_or "" (Dict.lookup s.name options) == ""

unfoldable pub required_connector_settings_missing : Draft → Result DraftError (List String)
unfolding connector_descriptor Dict.lookup
required_connector_settings_missing d = elim (connector_descriptor d.connector_type) [
  | none ↦ err (unknown_connector d.connector_type)
  | some descriptor ↦ ok (
      map (λ (s : ConnectorSetting). s.name)
        (select (is_unset d.connector_options) descriptor.settings))
]

unfoldable pub choose_write_mode : String → Draft → Result DraftError Draft
choose_write_mode write_mode d =
    if contains write_mode ("append" ∷ "truncate" ∷ "cdc" ∷ [])
    then ok (record d { write_mode = write_mode })
    else err (bad_write_mode write_mode)

unfoldable pub set_cdc_settings : Option (List String) → Option String → Draft → Draft
set_cdc_settings business_keys sequence_by d = record d {
  cdc_keys = get_or d.cdc_keys (elim business_keys [
    | none ↦ none
    | some keys ↦ some (select (λ key. not (key == "")) keys)
  ]);
  cdc_sequence_by = get_or d.cdc_sequence_by sequence_by;
}
