-- ===== src/Authoring/Written.antt =====
-- What `generate` of filedge/authoring_workflow.py has checked when it writes a folder.
use filedge.Base.{
  String, ◌==◌, ◌≡◌, refl, sym, ap, ◌∙◌, Bool, true, false, Option, none, some, List, [], ◌∷◌,
  if◌then◌else◌,
}
use filedge.Base.Result.{Result, ok, err, ◌>>=◌, >>=-eq-ok, ok-injective}
use filedge.Rows.Python.{Python}
use filedge.Authoring.Draft.{
  DraftError, ColumnDraft, Draft, from_fixed_width_layout, required_connector_settings_missing,
}
use filedge.Authoring.Validation.{Report, is_green}
use filedge.Authoring.Workflow.{
  WorkflowError, not_green, layout_not_fixed, ConfidenceTierReview, Workflow, Outside,
  or_draft_error, require_draft, require_found, session_preview,
}
use filedge.Authoring.Generate.{
  with_layout, after_layout, set_fixed_width_layout, unacknowledged_confidence_reviews,
  fresh_report, with_report, validate, report_of, write_folder, with_folder, if_green, none_missing,
  all_acknowledged, ready, generate, generate_from,
}
use filedge.Authoring.Session.{Session, Session-IsFresh}
use filedge.Authoring.Fresh.{IsFresh, FreshReport}

module _ (py : Python) {Folder : Type 0} (outside : Outside py Folder) where
  -- What holds when `generate` writes a folder: no required setting is missing, no risky tier waits,
  -- and the validation of this very draft is green.
  abbrev pub WrittenGreen : Workflow py Folder → Folder → Type 0
  WrittenGreen w folder =
      (d : Draft) × (report : Report) × (w.draft ≡ some d)
      × (required_connector_settings_missing d ≡ ok [])
      × (unacknowledged_confidence_reviews py outside w ≡ [])
      × (fresh_report py outside w d ≡ ok report)
      × (is_green report ≡ true)
      × (write_folder py outside w d ≡ ok folder)

  with_report-ok :
      (w w' : Workflow py Folder) (r : Result WorkflowError Report) (report : Report)
      → with_report py outside w r ≡ (w', ok report)
      → (r ≡ ok report) × (record w { validation_report = some report } ≡ w')
  with_report-ok w w' (err e) report h = cc
  with_report-ok w w' (ok found) report h =
      let same : found ≡ report = ok-injective (ap (λ p. p.1) h) in
      (ap ok same, ap (λ r. record w { validation_report = some r }) (sym same) ∙ ap (λ p. p.0) h)

  -- The folder does not depend on the report.
  write_folder-report :
      (w : Workflow py Folder) (d : Draft) (report : Option Report)
      → write_folder py outside (record w { validation_report = report }) d
        ≡ write_folder py outside w d
  unfolding write_folder
  write_folder-report w d report = refl

  -- The report that `generate` goes by.
  report_of-fresh :
      (w w' : Workflow py Folder) (d : Draft) (found : Option Report) (report : Report)
      → w.draft ≡ some d
      → FreshReport py outside w found
      → report_of py outside w found ≡ (w', ok report)
      → (fresh_report py outside w d ≡ ok report)
        × (write_folder py outside w' d ≡ write_folder py outside w d)
  unfolding validate
  report_of-fresh w w' d none report there fresh h =
      let (valid, same) =
        with_report-ok w w' (require_draft py outside w >>= fresh_report py outside w) report h in
      (
        sym (ap (λ found. require_found py outside found >>= fresh_report py outside w) there)
            ∙ valid,
        ap (λ v. write_folder py outside v d) (sym same) ∙ write_folder-report w d (some report),
      )
  report_of-fresh w w' d (some r) report there (e, here, valid) h =
      let same : d ≡ e = cc (sym there ∙ here) in
      (
        ap (fresh_report py outside w) same ∙ valid ∙ ap (λ p. p.1) h,
        ap (λ v. write_folder py outside v d) (sym (ap (λ p. p.0) h)),
      )

  none_missing-ok : (missing : List String) → none_missing py outside missing ≡ ok tt → missing ≡ []
  none_missing-ok [] h = refl
  none_missing-ok (name ∷ missing) h = cc

  all_acknowledged-ok :
      (reviews : List ConfidenceTierReview)
      → all_acknowledged py outside reviews ≡ ok tt
      → reviews ≡ []
  all_acknowledged-ok [] h = refl
  all_acknowledged-ok (r ∷ reviews) h = cc

  require_found-ok :
      (found : Option Draft) (d : Draft) → require_found py outside found ≡ ok d → found ≡ some d
  require_found-ok none d h = cc
  require_found-ok (some e) d h = ap some (ok-injective h)

  or_draft_error-ok :
      (r : Result DraftError (List String)) (a : List String)
      → or_draft_error py outside r ≡ ok a
      → r ≡ ok a
  or_draft_error-ok (ok b) a h = cc
  or_draft_error-ok (err e) a h = cc

  ready-ok :
      (w : Workflow py Folder) (d : Draft)
      → ready py outside w ≡ ok d
      → (w.draft ≡ some d)
        × (required_connector_settings_missing d ≡ ok [])
        × (unacknowledged_confidence_reviews py outside w ≡ [])
  unfolding ready
  ready-ok w d h =
      let (e, there, h1) = >>=-eq-ok (require_draft py outside w) _ h in
      let (missing, found, h2) =
        >>=-eq-ok (or_draft_error py outside (required_connector_settings_missing e)) _ h1 in
      let (u, none_left, h3) = >>=-eq-ok (none_missing py outside missing) _ h2 in
      let (v, reviewed, h4) =
        >>=-eq-ok (all_acknowledged py outside (unacknowledged_confidence_reviews py outside w)) _
          h3 in
      let same : e ≡ d = ok-injective h4 in
      (
        require_found-ok w.draft e there ∙ ap some same,
        ap required_connector_settings_missing (sym same)
            ∙ or_draft_error-ok _ missing found
            ∙ ap ok (none_missing-ok missing none_left),
        all_acknowledged-ok _ reviewed,
      )

  with_folder-ok :
      (w w' : Workflow py Folder) (r : Result WorkflowError Folder) (folder : Folder)
      → with_folder py outside w r ≡ (w', ok folder)
      → r ≡ ok folder
  with_folder-ok w w' (err e) folder h = cc
  with_folder-ok w w' (ok f) folder h = ap (λ p. p.1) h

  when_green :
      (b : Bool) (v w' : Workflow py Folder) (r : Result WorkflowError Folder) (folder : Folder)
      → (if b then with_folder py outside v r else (v, err not_green)) ≡ (w', ok folder)
      → (b ≡ true) × (with_folder py outside v r ≡ (w', ok folder))
  when_green true v w' r folder h = (refl, h)
  when_green false v w' r folder h = cc (ap (λ p. p.1) h)

  if_green-ok :
      (d : Draft) (w w' : Workflow py Folder) (r : Workflow py Folder × Result WorkflowError Report)
      (folder : Folder)
      → if_green py outside d r ≡ (w', ok folder)
      → (v : Workflow py Folder) × (report : Report) × (r ≡ (v, ok report))
        × (is_green report ≡ true)
        × (write_folder py outside v d ≡ ok folder)
  if_green-ok d w w' (v, err e) folder h = cc
  if_green-ok d w w' (v, ok report) folder h =
      let (green, written) =
        when_green (is_green report) v w' (write_folder py outside v d) folder h in
      (v, report, refl, green, with_folder-ok v w' _ folder written)

  generate_from-ok :
      (w w' : Workflow py Folder) (r : Result WorkflowError Draft) (folder : Folder)
      → generate_from py outside w r ≡ (w', ok folder)
      → (d : Draft) × (r ≡ ok d)
        × (if_green py outside d (report_of py outside w w.validation_report) ≡ (w', ok folder))
  generate_from-ok w w' (err e) folder h = cc (ap (λ p. p.1) h)
  generate_from-ok w w' (ok d) folder h = (d, refl, h)

  -- In a session that starts without a stale validation report, and goes on by edits of the draft,
  -- changes of format or sheet, acknowledgements, refreshes that succeed, validations and
  -- generations, a folder is written only when no required connector setting is missing, every low
  -- or ambiguous tier is acknowledged, and the validation of the very draft that is written,
  -- against the current sample File, is green.
  pub generate-WrittenGreen :
      (v w w' : Workflow py Folder) (folder : Folder)
      → IsFresh py outside v
      → Session py outside v w
      → generate py outside w ≡ (w', ok folder)
      → WrittenGreen w folder
  unfolding generate
  generate-WrittenGreen v w w' folder fresh session h =
      let (d, prepared, h1) = generate_from-ok w w' (ready py outside w) folder h in
      let (there, settings, reviewed) = ready-ok w d prepared in
      let (u, report, found, green, written) = if_green-ok d w w' _ folder h1 in
      let (valid, same) =
        report_of-fresh w u d w.validation_report report there
          (Session-IsFresh py outside v w session fresh) found in
      (d, report, there, settings, reviewed, valid, green, sym same ∙ written)

  after_layout-draft :
      (w : Workflow py Folder) (d : Draft) (r : Result WorkflowError (List _))
      → ((after_layout py outside (record w { draft = some d }) r).0.draft ≡ some d)
        × ((after_layout py outside (record w { draft = some d }) r).0.validation_report
            ≡ w.validation_report)
  after_layout-draft w d (err e) = (refl, refl)
  after_layout-draft w d (ok rows) = (refl, refl)

  with_layout-draft :
      (b : Bool) (w : Workflow py Folder) (r : Result WorkflowError Draft) (d : Draft)
      → b ≡ true
      → r ≡ ok d
      → ((if b then with_layout py outside w r else (w, err layout_not_fixed)).0.draft ≡ some d)
        × ((if b then with_layout py outside w r else (w, err layout_not_fixed)).0.validation_report
            ≡ w.validation_report)
  with_layout-draft false w r d fixed built = cc
  with_layout-draft true w (err e) d fixed built = cc
  with_layout-draft true w (ok e) d fixed built =
      let (draft, report) =
        after_layout-draft w e (session_preview py outside (record w { draft = some e })) in
      (draft ∙ ap some (ok-injective built), report)

  -- The operation replaces the draft and leaves the report.
  set_fixed_width_layout-keeps_report :
      (columns : List ColumnDraft) (w : Workflow py Folder) (d : Draft)
      → w.fmt ≡ "fixed_width"
      → from_fixed_width_layout w.dest_table columns ≡ ok d
      → ((set_fixed_width_layout py outside columns w).0.draft ≡ some d)
        × ((set_fixed_width_layout py outside columns w).0.validation_report ≡ w.validation_report)
  unfolding set_fixed_width_layout
  set_fixed_width_layout-keeps_report columns w d fixed built =
      with_layout-draft (w.fmt == "fixed_width") w _ d (ap (λ s. s == "fixed_width") fixed)
        (ap (or_draft_error py outside) built)

  with_folder-result :
      (w : Workflow py Folder) (r : Result WorkflowError Folder)
      → (with_folder py outside w r).1 ≡ r
  with_folder-result w (err e) = refl
  with_folder-result w (ok folder) = refl

  -- A report that stands is not made again.
  generate-kept :
      (w : Workflow py Folder) (d : Draft) (report : Report)
      → ready py outside w ≡ ok d
      → w.validation_report ≡ some report
      → is_green report ≡ true
      → (generate py outside w).1 ≡ write_folder py outside w d
  unfolding generate
  generate-kept w d report is_ready stands green =
      ap (λ r. (generate_from py outside w r).1) is_ready
      ∙ ap (λ o. (if_green py outside d (report_of py outside w o)).1) stands
      ∙ ap
          (λ b.
            (if b
              then with_folder py outside w (write_folder py outside w d)
              else (w, err not_green)).1)
          green
      ∙ with_folder-result w (write_folder py outside w d)

  -- For a fixed-width File with a green report, whatever draft it was made for: after a new layout
  -- with an accepted draft that passes the checks before the validation, `generate` writes the
  -- folder of the new draft without validating it.
  pub generate-set_fixed_width_layout :
      (columns : List ColumnDraft) (w : Workflow py Folder) (d : Draft) (report : Report)
      → w.fmt ≡ "fixed_width"
      → from_fixed_width_layout w.dest_table columns ≡ ok d
      → w.validation_report ≡ some report
      → is_green report ≡ true
      → ready py outside (set_fixed_width_layout py outside columns w).0 ≡ ok d
      → (generate py outside (set_fixed_width_layout py outside columns w).0).1
        ≡ write_folder py outside (set_fixed_width_layout py outside columns w).0 d
  generate-set_fixed_width_layout columns w d report fixed built stands green is_ready =
      generate-kept (set_fixed_width_layout py outside columns w).0 d report is_ready
        ((set_fixed_width_layout-keeps_report columns w d fixed built).1 ∙ stands) green
