-- ===== src/Authoring/Generate.antt =====
-- The review, the validation and the generation of filedge/authoring_workflow.py.
use filedge.Base.{
  ℕ, String, Bool, true, false, not, Option, none, some, List, [], ◌∷◌, ◌++◌, ◌==◌, ◌<>◌, ◌||◌,
  if◌then◌else◌, select, is_none, map, contains,
}
use filedge.Base.Dict
use filedge.Base.Dict.{Dict}
use filedge.Base.Result.{Result, ok, err, ◌>>=◌}
use filedge.Rows.Python.{Python}
use filedge.Rows.Columns.{KeyConfig}
use filedge.Inferrer.Infer.{InferredColumn}
use filedge.Registry.Parse.{RegistryEntry}
use filedge.Registry.Reference.{after_prefix}
use filedge.Authoring.Descriptors.{CredentialPlaceholder, ConnectorDescriptor, connector_descriptor}
use filedge.Authoring.Draft.{
  unknown_connector, ColumnDraft, Draft, from_fixed_width_layout, tier_name,
  required_connector_settings_missing, field_encryption_columns,
}
use filedge.Authoring.Emit.{to_config, to_config_dict}
use filedge.Authoring.Validation.{Report, is_green, validate_authoring}
use filedge.Authoring.Workflow.{
  WorkflowError, draft_error, no_risky_column, layout_not_fixed, refresh_fixed, not_green,
  settings_missing, unacknowledged, ConfidenceTierReview, Declaration, FolderRequest, Workflow,
  Outside, or_draft_error, or_config_error, or_file_error, require_draft, session_preview,
  Operation, mutated,
}
use text.Mathlib.Text.{starts_with}

-- `"; ".join(notes)`
unfoldable pub joined : List String → String
joined [] = ""
joined (note ∷ []) = note
joined (note ∷ more ∷ notes) = note <> "; " <> joined (more ∷ notes)

abbrev pub notes_part : List String → String
notes_part [] = ""
notes_part (note ∷ notes) = ", notes=" <> joined (note ∷ notes)

-- `_confidence_evidence`
unfoldable pub confidence_evidence : (ℕ → String) → ColumnDraft → String
unfolding joined
confidence_evidence shown_number c =
    "null_count="
    <> shown_number c.null_count
    <> ", total_seen="
    <> shown_number c.total_seen
    <> notes_part c.notes

abbrev pub is_risky : ColumnDraft → Bool
is_risky c = c.confidence == "low" || c.confidence == "ambiguous"

module _ (py : Python) {Folder : Type 0} (outside : Outside py Folder) where
  open py use {Value, Float}
  open outside use {
    infer, read, write_pipeline_folder, shown, shown_number, sorted_set, in_unit_interval,
  }

  abbrev pub review_of : Dict String → ColumnDraft → ConfidenceTierReview
  review_of acknowledged c = record {
    source = c.source;
    dest = c.dest;
    confidence = c.confidence;
    evidence = confidence_evidence shown_number c;
    acknowledged = not (is_none (Dict.lookup c.source acknowledged));
  }

  unfoldable pub confidence_reviews : Workflow py Folder → List ConfidenceTierReview
  unfolding confidence_evidence Dict.lookup
  confidence_reviews w = elim w.draft [
    | none ↦ []
    | some d ↦ map (review_of w.confidence_acknowledgements) (select is_risky d.columns)
  ]

  abbrev pub find_review : String → List ConfidenceTierReview → Option ConfidenceTierReview
  find_review source [] = none
  find_review source (r ∷ reviews) =
      let rest = find_review source reviews in if r.source == source then some r else rest

  abbrev pub acknowledged_review :
      String
      → Workflow py Folder
      → Option ConfidenceTierReview
      → Workflow py Folder × Result WorkflowError ConfidenceTierReview
  acknowledged_review source w none = (w, err (no_risky_column source))
  acknowledged_review source w (some r) = (
    record w {
      confidence_acknowledgements = Dict.insert source r.evidence w.confidence_acknowledgements;
    },
    ok (record r { acknowledged = true }),
  )

  unfoldable pub acknowledge_confidence_tier : String → Operation py outside ConfidenceTierReview
  unfolding confidence_reviews Dict.insert
  acknowledge_confidence_tier source w =
      acknowledged_review source w (find_review source (confidence_reviews w))

  unfoldable pub unacknowledged_confidence_reviews : Workflow py Folder → List ConfidenceTierReview
  unfolding confidence_reviews
  unacknowledged_confidence_reviews w =
      select (λ (r : ConfidenceTierReview). not r.acknowledged) (confidence_reviews w)

  -- `{c.name: c for c in inferred}`
  unfoldable pub by_source : List InferredColumn → Dict InferredColumn → Dict InferredColumn
  unfolding Dict.insert
  by_source [] found = found
  by_source (c ∷ inferred) found = by_source inferred (Dict.insert c.name c found)

  abbrev pub with_evidence : Dict InferredColumn → ColumnDraft → ColumnDraft
  with_evidence found c = elim (Dict.lookup c.source found) [
    | none ↦ c
    | some evidence ↦ record c {
      confidence = tier_name evidence.confidence;
      null_count = evidence.null_count;
      total_seen = evidence.total_seen;
      notes = map shown evidence.notes;
    }
  ]

  -- The columns are refreshed and the File is set when the preview may raise.
  abbrev pub after_preview :
      Workflow py Folder
      → Result WorkflowError (List (Dict Value))
      → Workflow py Folder × Result WorkflowError (Unit {0})
  after_preview w (err e) = (w, err e)
  after_preview w (ok rows) = (mutated py outside (record w { preview_rows = rows }), ok tt)

  abbrev pub refreshed :
      Workflow py Folder
      → String
      → Draft
      → Result WorkflowError (List InferredColumn)
      → Workflow py Folder × Result WorkflowError (Unit {0})
  refreshed w sample_file d (err e) = (w, err e)
  refreshed w sample_file d (ok inferred) =
      let w' : Workflow py Folder = record w {
        draft = some (record d { columns = map (with_evidence (by_source inferred [])) d.columns });
        file = sample_file;
      } in
      after_preview w' (session_preview py outside w')

  abbrev pub refresh_draft :
      String
      → Workflow py Folder
      → Result WorkflowError Draft
      → Workflow py Folder × Result WorkflowError (Unit {0})
  refresh_draft sample_file w (err e) = (w, err e)
  refresh_draft sample_file w (ok d) =
      if w.fmt == "fixed_width"
      then (w, err refresh_fixed)
      else refreshed w sample_file d
          (or_file_error py outside (infer sample_file w.fmt w.encoding w.sheet w.sample_rows))

  unfoldable pub refresh_sample : String → Operation py outside (Unit {0})
  unfolding by_source session_preview Dict.lookup
  refresh_sample sample_file w = refresh_draft sample_file w (require_draft py outside w)

  -- The draft is set when the preview may raise.
  abbrev pub after_layout :
      Workflow py Folder
      → Result WorkflowError (List (Dict Value))
      → Workflow py Folder × Result WorkflowError (Unit {0})
  after_layout w (err e) = (w, err e)
  after_layout w (ok rows) =
      (record w { preview_rows = rows; confidence_acknowledgements = [] }, ok tt)

  abbrev pub with_layout :
      Workflow py Folder
      → Result WorkflowError Draft
      → Workflow py Folder × Result WorkflowError (Unit {0})
  with_layout w (err e) = (w, err e)
  with_layout w (ok d) =
      let w' : Workflow py Folder = record w { draft = some d } in
      after_layout w' (session_preview py outside w')

  unfoldable pub set_fixed_width_layout : List ColumnDraft → Operation py outside (Unit {0})
  unfolding session_preview from_fixed_width_layout
  set_fixed_width_layout columns w =
      if w.fmt == "fixed_width"
      then with_layout w (or_draft_error py outside (from_fixed_width_layout w.dest_table columns))
      else (w, err layout_not_fixed)

  -- `validate_authoring` on the File and the draft of a workflow.
  unfoldable pub fresh_report : Workflow py Folder → Draft → Result WorkflowError Report
  unfolding to_config validate_authoring
  fresh_report w d = do
    config ← or_config_error py outside (to_config py in_unit_interval d)
    or_file_error py outside (
        validate_authoring py sorted_set (read w.file config w.encoding w.sheet)
          (some w.sample_rows) config)

  abbrev pub with_report :
      Workflow py Folder
      → Result WorkflowError Report
      → Workflow py Folder × Result WorkflowError Report
  with_report w (err e) = (w, err e)
  with_report w (ok report) = (record w { validation_report = some report }, ok report)

  unfoldable pub validate : Operation py outside Report
  unfolding fresh_report
  validate w = with_report w (require_draft py outside w >>= fresh_report w)

  unfoldable pub field_encryption_declarations : Workflow py Folder → List Declaration
  unfolding field_encryption_columns
  field_encryption_declarations w = elim w.draft [
    | none ↦ []
    | some d ↦
        map
          (λ (c : ColumnDraft). record {
            source = c.source;
            dest = c.dest;
            encrypt = c.encrypt;
            hash = c.hash;
          })
          (field_encryption_columns d)
  ]

  -- `env:NAME` without its prefix, and any other reference whole.
  abbrev pub key_name : String → String
  key_name key = if starts_with key "env:" then after_prefix key "env:" else key

  abbrev pub key_placeholder : String → String → Option KeyConfig → List CredentialPlaceholder
  key_placeholder kind dest none = []
  key_placeholder kind dest (some k) =
      record {
        env_var = key_name k.key;
        purpose = "Field Encryption " <> kind <> " key for destination " <> dest;
      }
      ∷ []

  unfoldable pub key_placeholders : List Declaration → List CredentialPlaceholder
  unfolding after_prefix
  key_placeholders [] = []
  key_placeholders (item ∷ items) =
      key_placeholder "encrypt" item.dest item.encrypt
      ++ (key_placeholder "hash" item.dest item.hash ++ key_placeholders items)

  -- The placeholders whose variable was not seen before.
  unfoldable pub unseen : List String → List CredentialPlaceholder → List CredentialPlaceholder
  unseen seen [] = []
  unseen seen (p ∷ placeholders) = elim (contains p.env_var seen) [
    | true ↦ unseen seen placeholders
    | false ↦ p ∷ unseen (p.env_var ∷ seen) placeholders
  ]

  unfoldable pub placeholders_of :
      Workflow py Folder → ConnectorDescriptor → List CredentialPlaceholder
  unfolding key_placeholders unseen field_encryption_declarations
  placeholders_of w descriptor =
      descriptor.credential_placeholders
      ++ unseen (map (λ (p : CredentialPlaceholder). p.env_var) descriptor.credential_placeholders)
          (key_placeholders (field_encryption_declarations w))

  unfoldable pub credential_placeholders :
      Workflow py Folder → Draft → Result WorkflowError (List CredentialPlaceholder)
  unfolding connector_descriptor placeholders_of
  credential_placeholders w d = elim (connector_descriptor d.connector_type) [
    | none ↦ err (draft_error (unknown_connector d.connector_type))
    | some descriptor ↦ ok (placeholders_of w descriptor)
  ]

  abbrev pub from_entry : (RegistryEntry → String) → Option RegistryEntry → Option String
  from_entry field_of none = none
  from_entry field_of (some entry) = some (field_of entry)

  abbrev pub entry_of : Workflow py Folder → Option RegistryEntry
  entry_of w = if w.reauthor then w.registry_entry else none

  abbrev pub out_of : Workflow py Folder → Option RegistryEntry → Option String
  out_of w none = w.out
  out_of w (some entry) = some entry.id

  unfoldable pub folder_request :
      Workflow py Folder → Draft → List CredentialPlaceholder → FolderRequest py
  unfolding to_config_dict confidence_reviews field_encryption_declarations
  folder_request w d placeholders = record {
    workspace = w.workspace;
    config = to_config_dict py d;
    sample_file = w.file;
    out = out_of w (entry_of w);
    watched_directory = from_entry (λ e. e.watched_directory) (entry_of w);
    audit_db = from_entry (λ e. e.audit_db) (entry_of w);
    audit_export = from_entry (λ e. e.audit_export) (entry_of w);
    overwrite = w.reauthor;
    confidence_acknowledgements =
        select (λ (r : ConfidenceTierReview). r.acknowledged) (confidence_reviews w);
    credential_placeholders = placeholders;
    field_encryption_columns = field_encryption_declarations w;
  }

  abbrev pub none_missing : List String → Result WorkflowError (Unit {0})
  none_missing [] = ok tt
  none_missing (name ∷ missing) = err (settings_missing (name ∷ missing))

  abbrev pub all_acknowledged : List ConfidenceTierReview → Result WorkflowError (Unit {0})
  all_acknowledged [] = ok tt
  all_acknowledged (r ∷ reviews) =
      err (unacknowledged (map (λ (r : ConfidenceTierReview). r.source) (r ∷ reviews)))

  -- `self.validation_report or self.validate()`
  abbrev pub report_of :
      Workflow py Folder → Option Report → Workflow py Folder × Result WorkflowError Report
  report_of w (some report) = (w, ok report)
  report_of w none = validate w

  -- What `generate` does once the report is there.
  unfoldable pub write_folder : Workflow py Folder → Draft → Result WorkflowError Folder
  unfolding credential_placeholders folder_request
  write_folder w d = do
    placeholders ← credential_placeholders w d
    or_file_error py outside (write_pipeline_folder (folder_request w d placeholders))

  abbrev pub with_folder :
      Workflow py Folder
      → Result WorkflowError Folder
      → Workflow py Folder × Result WorkflowError Folder
  with_folder w (err e) = (w, err e)
  with_folder w (ok folder) = (record w { generated = some folder }, ok folder)

  abbrev pub if_green :
      Draft
      → Workflow py Folder × Result WorkflowError Report
      → Workflow py Folder × Result WorkflowError Folder
  if_green d (w, err e) = (w, err e)
  if_green d (w, ok report) =
      if is_green report then with_folder w (write_folder w d) else (w, err not_green)

  -- The checks before the validation.
  unfoldable pub ready : Workflow py Folder → Result WorkflowError Draft
  unfolding required_connector_settings_missing unacknowledged_confidence_reviews
  ready w = do
    d ← require_draft py outside w
    missing ← or_draft_error py outside (required_connector_settings_missing d)
    _ ← none_missing missing
    _ ← all_acknowledged (unacknowledged_confidence_reviews w)
    ok d

  abbrev pub generate_from :
      Workflow py Folder
      → Result WorkflowError Draft
      → Workflow py Folder × Result WorkflowError Folder
  generate_from w (err e) = (w, err e)
  generate_from w (ok d) = if_green d (report_of w w.validation_report)

  unfoldable pub generate : Operation py outside Folder
  unfolding ready validate is_green write_folder
  generate w = generate_from w (ready w)
