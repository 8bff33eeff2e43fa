-- ===== src/Authoring/Fresh.antt =====
-- The validation report of filedge/authoring_workflow.py and the draft that it is about.
use filedge.Base.{String, ◌≡◌, refl, ◌∙◌, Option, none, some, Bool-cases, inl, inr}
use filedge.Base.Result.{Result, ok, err, ◌>>=◌}
use filedge.Rows.Python.{Python}
use filedge.Config.Raw.{Sheet}
use filedge.Authoring.Draft.{DraftError, Draft}
use filedge.Authoring.Validation.{Report, is_green}
use filedge.Authoring.Workflow.{
  WorkflowError, ConfidenceTierReview, Workflow, Outside, require_found, with_draft, mutate,
  reseeded, reseed,
}
use filedge.Authoring.Generate.{
  acknowledge_confidence_tier, fresh_report, with_report, validate, acknowledged_review,
  generate_from, report_of, write_folder, with_folder, if_green, ready, generate,
}

module _ (py : Python) {Folder : Type 0} (outside : Outside py Folder) where
  -- The report, if there is one, is what the validation of the draft gives now.
  abbrev pub FreshReport : Workflow py Folder → Option Report → Type 0
  FreshReport w none = Unit
  FreshReport w (some report) =
      (d : Draft) × (w.draft ≡ some d) × (fresh_report py outside w d ≡ ok report)

  abbrev pub IsFresh : Workflow py Folder → Type 0
  IsFresh w = FreshReport w w.validation_report

  with_draft-IsFresh :
      (w : Workflow py Folder) (r : Result WorkflowError Draft)
      → IsFresh w
      → IsFresh (with_draft py outside w r).0
  with_draft-IsFresh w (err e) fresh = fresh
  with_draft-IsFresh w (ok d) fresh = tt

  pub mutate-IsFresh :
      (edit : Draft → Result DraftError Draft) (w : Workflow py Folder)
      → IsFresh w
      → IsFresh (mutate py outside edit w).0
  unfolding mutate
  mutate-IsFresh edit w fresh = with_draft-IsFresh w _ fresh

  reseeded-IsFresh :
      (w : Workflow py Folder) (r : Result WorkflowError (Workflow py Folder))
      → IsFresh w
      → IsFresh (reseeded py outside w r).0
  reseeded-IsFresh w (err e) fresh = fresh
  reseeded-IsFresh w (ok rebuilt) fresh = tt

  pub reseed-IsFresh :
      (fmt : String) (sheet : Sheet) (w : Workflow py Folder)
      → IsFresh w
      → IsFresh (reseed py outside fmt sheet w).0
  unfolding reseed
  reseed-IsFresh fmt sheet w fresh = reseeded-IsFresh w _ fresh

  -- The fields that the validation reads.
  same-IsFresh :
      (w w' : Workflow py Folder) (report : Option Report)
      → w'.draft ≡ w.draft
      → ((d : Draft) → fresh_report py outside w' d ≡ fresh_report py outside w d)
      → FreshReport w report
      → FreshReport w' report
  same-IsFresh w w' none draft reads fresh = tt
  same-IsFresh w w' (some report) draft reads (d, there, validated) =
      (d, draft ∙ there, reads d ∙ validated)

  acknowledged-IsFresh :
      (source : String) (w : Workflow py Folder) (found : Option ConfidenceTierReview)
      → IsFresh w
      → IsFresh (acknowledged_review py outside source w found).0
  unfolding fresh_report
  acknowledged-IsFresh source w none fresh = fresh
  acknowledged-IsFresh source w (some r) fresh =
      same-IsFresh w (acknowledged_review py outside source w (some r)).0 w.validation_report refl
        (λ d. refl) fresh

  pub acknowledge-IsFresh :
      (source : String) (w : Workflow py Folder)
      → IsFresh w
      → IsFresh (acknowledge_confidence_tier py outside source w).0
  unfolding acknowledge_confidence_tier
  acknowledge-IsFresh source w fresh = acknowledged-IsFresh source w _ fresh

  after_validation-IsFresh :
      (w : Workflow py Folder) (d : Draft) (r : Result WorkflowError Report)
      → w.draft ≡ some d
      → fresh_report py outside w d ≡ r
      → IsFresh w
      → IsFresh (with_report py outside w r).0
  unfolding fresh_report
  after_validation-IsFresh w d (err e) there same fresh = fresh
  after_validation-IsFresh w d (ok report) there same fresh = (d, there, same)

  validate_of :
      (w : Workflow py Folder) (found : Option Draft)
      → w.draft ≡ found
      → IsFresh w
      → IsFresh
          (with_report py outside w
            (require_found py outside found >>= fresh_report py outside w)).0
  validate_of w none there fresh = fresh
  validate_of w (some d) there fresh = after_validation-IsFresh w d _ there refl fresh

  pub validate-IsFresh : (w : Workflow py Folder) → IsFresh w → IsFresh (validate py outside w).0
  unfolding validate
  validate-IsFresh w fresh = validate_of w w.draft refl fresh

  report_of-IsFresh :
      (w : Workflow py Folder) (found : Option Report)
      → IsFresh w
      → IsFresh (report_of py outside w found).0
  report_of-IsFresh w none fresh = validate-IsFresh w fresh
  report_of-IsFresh w (some report) fresh = fresh

  with_folder-IsFresh :
      (w : Workflow py Folder) (r : Result WorkflowError Folder)
      → IsFresh w
      → IsFresh (with_folder py outside w r).0
  unfolding fresh_report
  with_folder-IsFresh w (err e) fresh = fresh
  with_folder-IsFresh w (ok folder) fresh =
      same-IsFresh w (with_folder py outside w (ok folder)).0 w.validation_report refl (λ d. refl)
        fresh

  if_green-IsFresh :
      (d : Draft) (r : Workflow py Folder × Result WorkflowError Report)
      → IsFresh r.0
      → IsFresh (if_green py outside d r).0
  if_green-IsFresh d (w, err e) fresh = fresh
  if_green-IsFresh d (w, ok report) fresh = elim (Bool-cases (is_green report)) [
    | inl green ↦ rw green (with_folder-IsFresh w (write_folder py outside w d) fresh)
    | inr red ↦ rw red fresh
  ]

  generate_from-IsFresh :
      (w : Workflow py Folder) (r : Result WorkflowError Draft)
      → IsFresh w
      → IsFresh (generate_from py outside w r).0
  generate_from-IsFresh w (err e) fresh = fresh
  generate_from-IsFresh w (ok d) fresh =
      if_green-IsFresh d (report_of py outside w w.validation_report)
        (report_of-IsFresh w w.validation_report fresh)

  pub generate-IsFresh : (w : Workflow py Folder) → IsFresh w → IsFresh (generate py outside w).0
  unfolding generate
  generate-IsFresh w fresh = generate_from-IsFresh w (ready py outside w) fresh
