-- ===== src/Authoring/Workflow.antt =====
-- `AuthoringWorkflow` of filedge/authoring_workflow.py. An operation gives the workflow that it leaves,
-- also when it raises. Detecting a format, reading a sample and writing the folder are parameters.
use filedge.Base.{ℕ, String, Bool, false, Option, none, some, List, [], ◌∷◌, ◌==◌, if◌then◌else◌}
use filedge.Base.Dict.{Dict}
use filedge.Base.Result.{Result, ok, err, ◌>>=◌}
use filedge.Rows.Python.{Python}
use filedge.Rows.Columns.{KeyConfig}
use filedge.Inferrer.Infer.{InferredColumn, Note}
use filedge.Registry.Parse.{RegistryEntry}
use filedge.Config.Raw.{Sheet, no_sheet, RawConfig, ConfigError}
use filedge.Config.FromDict.{ParsedConfig}
use filedge.Authoring.Descriptors.{CredentialPlaceholder}
use filedge.Authoring.Draft.{
  DraftError, no_draft, ColumnDraft, Draft, ColumnEdit, from_sample, from_fixed_width_layout,
  tier_name, required_connector_settings_missing, field_encryption_columns,
}
use filedge.Authoring.Draft
use filedge.Authoring.Emit.{to_config}
use filedge.Authoring.Validation.{Report}

-- The exceptions: of the draft, of the config loader, of reading and writing files, and the
-- workflow's own.
pub data WorkflowError : Type 0 where
  draft_error : DraftError → WorkflowError
  config_error : ConfigError → WorkflowError
  file_error no_risky_column : String → WorkflowError
  cannot_detect not_excel layout_not_fixed refresh_fixed not_green : WorkflowError
  settings_missing unacknowledged : List String → WorkflowError

pub record ConfidenceTierReview : Type 0 where
  pub source : String
  pub dest : String
  pub confidence : String
  pub evidence : String
  pub acknowledged : Bool

-- One entry of `field_encryption_declarations`
pub record Declaration : Type 0 where
  pub source : String
  pub dest : String
  pub encrypt : Option KeyConfig
  pub hash : Option KeyConfig

module _ (py : Python) where
  open py use {Value, Float}

  -- What `generate` hands to `write_pipeline_folder`.
  pub record FolderRequest : Type 0 where
    pub workspace : String
    pub config : RawConfig Float
    pub sample_file : String
    pub out : Option String
    pub watched_directory : Option String
    pub audit_db : Option String
    pub audit_export : Option String
    pub overwrite : Bool
    pub confidence_acknowledgements : List ConfidenceTierReview
    pub credential_placeholders : List CredentialPlaceholder
    pub field_encryption_columns : List Declaration

  pub record Workflow (Folder : Type 0) : Type 0 where
    pub file : String
    pub workspace : String
    pub dest_table : String
    pub fmt : String
    pub sample_rows : ℕ
    pub encoding : Option String
    pub sheet : Sheet
    pub out : Option String
    pub draft : Option Draft
    pub validation_report : Option Report
    pub generated : Option Folder
    pub preview_rows : List (Dict Value)
    pub excel_sheets : List String
    pub confidence_acknowledgements : Dict String
    pub reauthor : Bool
    pub registry_entry : Option RegistryEntry

  -- filedge/file_sample.py, the parsers, `AuthoringSession` for a preview of five rows,
  -- `write_pipeline_folder`, and str() of a number.
  pub record Outside (Folder : Type 0) : Type 0 where
    pub resolve_format : String → Option String → Option String
    pub sheet_names : String → Result String (List String)
    pub infer : String → String → Option String → Sheet → ℕ → Result String (List InferredColumn)
    pub preview :
        String
        → String
        → Option (ParsedConfig py)
        → Option String
        → Sheet
        → Result String (List (Dict Value))
    pub read :
        String
        → ParsedConfig py
        → Option String
        → Sheet
        → Option ℕ
        → Result String (List (Dict Value))
    pub write_pipeline_folder : FolderRequest → Result String Folder
    pub shown : Note → String
    pub shown_number : ℕ → String
    pub sorted_set : List String → List String
    pub in_unit_interval : Float → Bool

  module _ {Folder : Type 0} (outside : Outside Folder) where
    open outside use {
      resolve_format, sheet_names, infer, preview, read, write_pipeline_folder, shown, sorted_set,
      in_unit_interval,
    }

    abbrev pub or_draft_error : {A : Type 0} → Result DraftError A → Result WorkflowError A
    or_draft_error (ok a) = ok a
    or_draft_error (err e) = err (draft_error e)

    abbrev pub or_config_error : {A : Type 0} → Result ConfigError A → Result WorkflowError A
    or_config_error (ok a) = ok a
    or_config_error (err e) = err (config_error e)

    abbrev pub or_file_error : {A : Type 0} → Result String A → Result WorkflowError A
    or_file_error (ok a) = ok a
    or_file_error (err e) = err (file_error e)

    abbrev pub require_found : Option Draft → Result WorkflowError Draft
    require_found none = err (draft_error no_draft)
    require_found (some d) = ok d

    abbrev pub require_draft : Workflow Folder → Result WorkflowError Draft
    require_draft w = require_found w.draft

    -- `_session().preview(num_rows=5)`
    unfoldable pub session_preview : Workflow Folder → Result WorkflowError (List (Dict Value))
    unfolding to_config
    session_preview w = elim w.draft [
      | none ↦ or_file_error (preview w.file w.fmt none w.encoding w.sheet)
      | some d ↦ do
        config ← or_config_error (to_config py in_unit_interval d)
        or_file_error (preview w.file w.fmt (some config) w.encoding w.sheet)
    ]

    abbrev pub first_name : List String → Sheet
    first_name [] = no_sheet
    first_name (name ∷ names) = Sheet.named name

    abbrev pub or_first : Sheet → List String → Sheet
    or_first no_sheet names = first_name names
    or_first sheet names = sheet

    -- The sheets of an Excel File, and the one to read.
    unfoldable pub excel_sheet :
        String → String → Sheet → Result WorkflowError (List String × Sheet)
    excel_sheet file fmt sheet =
        if fmt == "excel"
        then (or_file_error (sheet_names file) >>= λ names. ok (names, or_first sheet names))
        else ok ([], sheet)

    -- The draft of `start` and the preview of its File.
    unfoldable pub seeded : Workflow Folder → Result WorkflowError (Workflow Folder)
    unfolding session_preview from_sample
    seeded w =
        if w.fmt == "fixed_width"
        then ok w
        else (or_file_error (infer w.file w.fmt w.encoding w.sheet w.sample_rows) >>= λ inferred.
            or_draft_error (from_sample shown inferred w.dest_table w.fmt w.sheet) >>= λ d.
            let w' : Workflow Folder = record w { draft = some d } in
            session_preview w' >>= λ rows. ok (record w' { preview_rows = rows }))

    unfoldable pub start :
        (file workspace dest_table : String) (fmt : Option String) (sample_rows : ℕ)
        (encoding : Option String) (sheet : Sheet) (out : Option String)
        → Result WorkflowError (Workflow Folder)
    unfolding seeded excel_sheet
    start file workspace dest_table fmt sample_rows encoding sheet out =
        elim (resolve_format file fmt) [
          | none ↦ err cannot_detect
          | some resolved ↦ excel_sheet file resolved sheet >>= λ sheets. seeded (record {
            file = file;
            workspace = workspace;
            dest_table = dest_table;
            fmt = resolved;
            sample_rows = sample_rows;
            encoding = encoding;
            sheet = sheets.1;
            out = out;
            draft = none;
            validation_report = none;
            generated = none;
            preview_rows = [];
            excel_sheets = sheets.0;
            confidence_acknowledgements = [];
            reauthor = false;
            registry_entry = none;
          })
        ]

    -- An operation: the workflow that it leaves, and its result.
    abbrev pub Operation : Type 0 → Type 0
    Operation A = Workflow Folder → Workflow Folder × Result WorkflowError A

    abbrev pub reseeded :
        Workflow Folder
        → Result WorkflowError (Workflow Folder)
        → Workflow Folder × Result WorkflowError (Unit {0})
    reseeded w (err e) = (w, err e)
    reseeded w (ok rebuilt) = (
      record w {
        fmt = rebuilt.fmt;
        sheet = rebuilt.sheet;
        excel_sheets = rebuilt.excel_sheets;
        draft = rebuilt.draft;
        preview_rows = rebuilt.preview_rows;
        validation_report = none;
        generated = none;
        confidence_acknowledgements = [];
      },
      ok tt,
    )

    unfoldable pub reseed : String → Sheet → Operation (Unit {0})
    unfolding start
    reseed fmt sheet w =
        reseeded w
          (start w.file w.workspace w.dest_table (some fmt) w.sample_rows w.encoding sheet w.out)

    unfoldable pub choose_format : String → Operation (Unit {0})
    unfolding reseed
    choose_format fmt w = reseed fmt (if fmt == "excel" then w.sheet else no_sheet) w

    unfoldable pub choose_sheet : Sheet → Operation (Unit {0})
    unfolding reseed
    choose_sheet sheet w = if w.fmt == "excel" then reseed "excel" sheet w else (w, err not_excel)

    -- `_mutated`
    abbrev pub mutated : Workflow Folder → Workflow Folder
    mutated w = record w { validation_report = none }

    abbrev pub with_draft :
        Workflow Folder
        → Result WorkflowError Draft
        → Workflow Folder × Result WorkflowError (Unit {0})
    with_draft w (err e) = (w, err e)
    with_draft w (ok d) = (mutated (record w { draft = some d }), ok tt)

    -- An edit of the draft and `_mutated`.
    unfoldable pub mutate : (Draft → Result DraftError Draft) → Operation (Unit {0})
    mutate edit w = with_draft w (require_draft w >>= λ d. or_draft_error (edit d))

    unfoldable pub edit_column : String → ColumnEdit → Operation (Unit {0})
    unfolding mutate Draft.edit_column
    edit_column source e = mutate (Draft.edit_column source e)

    unfoldable pub choose_write_mode : String → Operation (Unit {0})
    unfolding mutate Draft.choose_write_mode
    choose_write_mode mode = mutate (Draft.choose_write_mode mode)

    unfoldable pub set_cdc_settings : Option (List String) → Option String → Operation (Unit {0})
    unfolding mutate Draft.set_cdc_settings
    set_cdc_settings keys sequence_by = mutate (λ d. ok (Draft.set_cdc_settings keys sequence_by d))

    unfoldable pub choose_connector : String → Operation (Unit {0})
    unfolding mutate Draft.choose_connector
    choose_connector connector_type = mutate (Draft.choose_connector connector_type)

    unfoldable pub set_connector_setting : String → String → Operation (Unit {0})
    unfolding mutate Draft.set_connector_setting
    set_connector_setting name value = mutate (Draft.set_connector_setting name value)

    -- A key that is there and not empty, with the algorithm of its block.
    abbrev pub key_draft : String → Option String → Option KeyConfig
    key_draft algorithm none = none
    key_draft algorithm (some key) =
        if key == "" then none else some (record { algorithm = algorithm; key = key })

    unfoldable pub set_field_encryption :
        String → Option String → Option String → Operation (Unit {0})
    unfolding mutate Draft.set_field_encryption
    set_field_encryption dest encrypt_key hash_key = mutate (
        Draft.set_field_encryption dest (key_draft "aes-256-gcm" encrypt_key)
          (key_draft "hmac-sha256" hash_key))

    unfoldable pub clear_field_encryption : String → Bool → Bool → Operation (Unit {0})
    unfolding mutate Draft.clear_field_encryption
    clear_field_encryption dest encrypt hash =
        mutate (Draft.clear_field_encryption dest encrypt hash)

    unfoldable pub duplicate_column : String → String → Operation (Unit {0})
    unfolding mutate Draft.duplicate_column
    duplicate_column dest new_dest = mutate (Draft.duplicate_column dest new_dest)
