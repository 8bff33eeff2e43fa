-- ===== src/Authoring/Session.antt =====
-- A session of the Authoring Workflow.
use filedge.Base.{String, ◌≡◌, subst, Bool, true, false, List, if◌then◌else◌}
use filedge.Base.Result.{Result, ok, err}
use filedge.Rows.Python.{Python}
use filedge.Inferrer.Infer.{InferredColumn}
use filedge.Config.Raw.{Sheet}
use filedge.Authoring.Draft.{DraftError, Draft}
use filedge.Authoring.Workflow.{WorkflowError, Workflow, Outside, require_draft, mutate, reseed}
use filedge.Authoring.Generate.{
  acknowledge_confidence_tier, refresh_sample, validate, generate, refresh_draft, refreshed,
  after_preview,
}
use filedge.Authoring.Fresh.{
  IsFresh, mutate-IsFresh, reseed-IsFresh, acknowledge-IsFresh, validate-IsFresh, generate-IsFresh,
}

module _ (py : Python) {Folder : Type 0} (outside : Outside py Folder) where
  after_preview-IsFresh :
      (w : Workflow py Folder) (r : Result WorkflowError (List _))
      → (after_preview py outside w r).1 ≡ ok tt
      → IsFresh py outside (after_preview py outside w r).0
  after_preview-IsFresh w (err e) h = cc
  after_preview-IsFresh w (ok rows) h = tt

  refreshed-IsFresh :
      (w : Workflow py Folder) (file : String) (d : Draft)
      (r : Result WorkflowError (List InferredColumn))
      → (refreshed py outside w file d r).1 ≡ ok tt
      → IsFresh py outside (refreshed py outside w file d r).0
  refreshed-IsFresh w file d (err e) h = cc
  refreshed-IsFresh w file d (ok inferred) h = after_preview-IsFresh _ _ h

  unless_refused :
      (b : Bool) (w : Workflow py Folder) (e : WorkflowError)
      (r : Workflow py Folder × Result WorkflowError (Unit {0}))
      → (r.1 ≡ ok tt → IsFresh py outside r.0)
      → (if b then (w, err e) else r).1 ≡ ok tt
      → IsFresh py outside (if b then (w, err e) else r).0
  unless_refused true w e r succeeds h = cc
  unless_refused false w e r succeeds h = succeeds h

  refresh_draft-IsFresh :
      (file : String) (w : Workflow py Folder) (r : Result WorkflowError Draft)
      → (refresh_draft py outside file w r).1 ≡ ok tt
      → IsFresh py outside (refresh_draft py outside file w r).0
  refresh_draft-IsFresh file w (err e) h = cc
  refresh_draft-IsFresh file w (ok d) h = unless_refused _ w _ _ (refreshed-IsFresh w file d _) h

  -- The operations after which the report is still about the draft: an edit of the draft, a change of
  -- format or sheet, an acknowledgement, a refresh that succeeds, a validation, a generation.
  pub data Step : Workflow py Folder → Workflow py Folder → Type 0 where
    edit :
        (change : Draft → Result DraftError Draft) (w w' : Workflow py Folder)
        → (mutate py outside change w).0 ≡ w'
        → Step w w'
    change_format :
        (fmt : String) (sheet : Sheet) (w w' : Workflow py Folder)
        → (reseed py outside fmt sheet w).0 ≡ w'
        → Step w w'
    acknowledge :
        (source : String) (w w' : Workflow py Folder)
        → (acknowledge_confidence_tier py outside source w).0 ≡ w'
        → Step w w'
    refresh :
        (file : String) (w w' : Workflow py Folder)
        → (refresh_sample py outside file w).1 ≡ ok tt
        → (refresh_sample py outside file w).0 ≡ w'
        → Step w w'
    check : (w w' : Workflow py Folder) → (validate py outside w).0 ≡ w' → Step w w'
    write : (w w' : Workflow py Folder) → (generate py outside w).0 ≡ w' → Step w w'

  pub data Session : Workflow py Folder → Workflow py Folder → Type 0 where
    done : (w : Workflow py Folder) → Session w w
    more : (v w w' : Workflow py Folder) → Session v w → Step w w' → Session v w'

  Step-IsFresh :
      (w w' : Workflow py Folder) → Step w w' → IsFresh py outside w → IsFresh py outside w'
  unfolding refresh_sample
  Step-IsFresh w w' (edit change _ _ same) fresh =
      subst (IsFresh py outside) same (mutate-IsFresh py outside change w fresh)
  Step-IsFresh w w' (change_format fmt sheet _ _ same) fresh =
      subst (IsFresh py outside) same (reseed-IsFresh py outside fmt sheet w fresh)
  Step-IsFresh w w' (acknowledge source _ _ same) fresh =
      subst (IsFresh py outside) same (acknowledge-IsFresh py outside source w fresh)
  Step-IsFresh w w' (refresh file _ _ succeeds same) fresh =
      subst (IsFresh py outside) same
        (refresh_draft-IsFresh file w (require_draft py outside w) succeeds)
  Step-IsFresh w w' (check _ _ same) fresh =
      subst (IsFresh py outside) same (validate-IsFresh py outside w fresh)
  Step-IsFresh w w' (write _ _ same) fresh =
      subst (IsFresh py outside) same (generate-IsFresh py outside w fresh)

  pub Session-IsFresh :
      (v w : Workflow py Folder) → Session v w → IsFresh py outside v → IsFresh py outside w
  Session-IsFresh v w (done _) fresh = fresh
  Session-IsFresh v w (more _ u _ before step) fresh =
      Step-IsFresh u w step (Session-IsFresh v u before fresh)
