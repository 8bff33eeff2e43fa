-- ===== src/Tests/AuthoringTests.antt =====
-- A session that edits a draft of one column and writes its folder.
use filedge.Base.{ℕ, String, ◌≡◌, refl, Bool, true, false, Option, none, some, List, [], ◌∷◌, leb}
use filedge.Base.Dict
use filedge.Base.Dict.{Dict}
use filedge.Base.Result.{Result, ok, err}
use filedge.Rows.Columns.{integer, coerce_value}
use filedge.Rows.Transform.{transform_row, cell}
use filedge.Load.Config.{optional}
use filedge.Config.Raw.{no_sheet}
use filedge.Config.FromDict.{ParsedConfig, config_from_dict}
use filedge.Authoring.Draft.{
  DraftError, ColumnDraft, Draft, choose_write_mode, from_fixed_width_layout,
}
use filedge.Authoring.Validation.{Report, is_green, validate_authoring}
use filedge.Authoring.Workflow.{Workflow, Outside, mutate}
use filedge.Authoring.Generate.{generate, ready, write_folder, set_fixed_width_layout}
use filedge.Authoring.Session.{Step, Session}
use filedge.Authoring.Written.{WrittenGreen, generate-WrittenGreen, generate-set_fixed_width_layout}
use filedge.Authoring.Green.{Compatible, validate_authoring-Compatible}
use filedge.Tests.Data.{Value, word, small_python}

abbrev units : ColumnDraft
units = record {
  source = "units";
  dest = "units";
  type = "integer";
  required = true;
  confidence = "high";
  null_count = 0;
  total_seen = 1;
  notes = [];
  start = none;
  width = none;
  encrypt = none;
  hash = none;
}

abbrev draft : Draft
draft = record {
  dest_table = "orders";
  columns = units ∷ [];
  fmt = "csv";
  write_mode = "append";
  sheet = no_sheet;
  cdc_keys = [];
  cdc_sequence_by = "";
  cdc_operation_column = "op";
  cdc_operations = [];
  connector_type = "sqlite";
  connector_options = ("url", "sqlite:///orders.db") ∷ [];
}

abbrev rows : List (Dict Value)
rows = (("units", word "8") ∷ []) ∷ []

abbrev is_percentage : ℕ → Bool
is_percentage n = leb n 100

abbrev outside : Outside small_python ℕ
outside = record {
  resolve_format = λ file fmt. fmt;
  sheet_names = λ file. ok [];
  infer = λ file fmt encoding sheet n. ok [];
  preview = λ file fmt config encoding sheet. ok rows;
  read = λ file config encoding sheet n. ok rows;
  write_pipeline_folder = λ request. ok 1;
  shown = λ note. "";
  shown_number = λ n. "7";
  sorted_set = λ l. l;
  in_unit_interval = is_percentage;
}

abbrev opened : Workflow small_python ℕ
opened = record {
  file = "orders.csv";
  workspace = "w";
  dest_table = "orders";
  fmt = "csv";
  sample_rows = 1000;
  encoding = none;
  sheet = no_sheet;
  out = none;
  draft = some draft;
  validation_report = none;
  generated = none;
  preview_rows = [];
  excel_sheets = [];
  confidence_acknowledgements = [];
  reauthor = false;
  registry_entry = none;
}

abbrev truncating : Workflow small_python ℕ
truncating = record opened { draft = some (record draft { write_mode = "truncate" }) }

is_truncating : (mutate small_python outside (choose_write_mode "truncate") opened).0 ≡ truncating
unfolding mutate choose_write_mode
is_truncating = refl

session : Session small_python outside opened truncating
session =
    Session.more opened opened truncating (Session.done opened)
      (Step.edit (choose_write_mode "truncate") opened truncating is_truncating)

generated :
    generate small_python outside truncating ≡ ((generate small_python outside truncating).0, ok 1)
unfolding generate config_from_dict Dict.lookup transform_row cell coerce_value
generated = refl

generate-WrittenGreen_example : WrittenGreen small_python outside truncating 1
generate-WrittenGreen_example =
    generate-WrittenGreen small_python outside opened truncating
      (generate small_python outside truncating).0 1 tt session generated

abbrev config : ParsedConfig small_python
config = record {
  format = "csv";
  dest_table = "orders";
  columns =
      record {
        source = "units";
        dest = "units";
        type = integer;
        required = true;
        encrypt = none;
        hash = none;
        start = none;
        width = none;
      }
      ∷ [];
  retry_cap = 3;
  stale_timeout_minutes = 30;
  batch_size = 1000;
  write_mode = "append";
  connector = none;
  encoding = "utf-8";
  cdc = none;
  file_pattern = none;
  source_manifest = optional;
  excel = none;
  quarantine = none;
}

abbrev sample : Option ℕ → Result String (List (Dict Value))
sample n = ok rows

abbrev report_in : Result String Report → Report
report_in (ok report) = report
report_in (err e) = record { findings = []; drift = []; rows_checked = 0 }

abbrev report : Report
report = report_in (validate_authoring small_python (λ l. l) sample (some 1000) config)

validated : validate_authoring small_python (λ l. l) sample (some 1000) config ≡ ok report
unfolding validate_authoring Dict.lookup transform_row cell coerce_value
validated = refl

report_passes : is_green report ≡ true
unfolding is_green validate_authoring Dict.lookup transform_row cell coerce_value
report_passes = refl

validate_authoring-Compatible_example : Compatible small_python (λ l. l) sample (some 1000) config
validate_authoring-Compatible_example =
    validate_authoring-Compatible small_python (λ l. l) sample (some 1000) config report validated
      report_passes

abbrev layout_row : ColumnDraft
layout_row = record units { start = some 1; width = some 4 }

abbrev fixed : Workflow small_python ℕ
fixed = record opened { fmt = "fixed_width"; draft = none; validation_report = some report }

abbrev draft_in : Result DraftError Draft → Draft
draft_in (ok d) = d
draft_in (err e) = draft

abbrev laid_out : Draft
laid_out = draft_in (from_fixed_width_layout "orders" (layout_row ∷ []))

built : from_fixed_width_layout "orders" (layout_row ∷ []) ≡ ok laid_out
unfolding from_fixed_width_layout Dict.lookup
built = refl

abbrev relaid : Workflow small_python ℕ
relaid = (set_fixed_width_layout small_python outside (layout_row ∷ []) fixed).0

relaid-ready : ready small_python outside relaid ≡ ok laid_out
unfolding ready set_fixed_width_layout from_fixed_width_layout Dict.lookup
relaid-ready = refl

generate-set_fixed_width_layout_example :
    (generate small_python outside relaid).1 ≡ write_folder small_python outside relaid laid_out
generate-set_fixed_width_layout_example =
    generate-set_fixed_width_layout small_python outside (layout_row ∷ []) fixed laid_out report
      refl built refl report_passes relaid-ready
