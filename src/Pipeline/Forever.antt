-- ===== src/Pipeline/Forever.antt =====
-- Whole Runs (`run_pipeline` of filedge/pipeline.py) and requeues (filedge/db.py), one after another:
-- a File that is COMMITTED stays so.
use filedge.Base.{ℕ, String, ◌≡◌, ap, subst, Option, some, List}
use filedge.Base.Result.{Result, ok, >>=-eq-ok, ok-injective}
use filedge.Audit.Record.{committed, FileRecord, AuditTable}
use filedge.Audit.Store.{find_file_by_hash, reset_eligible_failed}
use filedge.Audit.Consistency.{IsConsistent}
use filedge.Audit.Lifecycle.{
  Kept, OperatorStep, OperatorStep-IsConsistent, OperatorStep-keeps, Runs, done, more, reset,
  reclaim, Runs-keeps_committed,
}
use filedge.Quarantine.Stream.{LoadError}
use filedge.Load.LoadFile.{LoadOutcome}
use filedge.Load.Config.{ManifestPolicy}
use filedge.Pipeline.Manifest.{ManifestResult}
use filedge.Pipeline.Register.{SourceFile}
use filedge.Pipeline.World.{World}
use filedge.Pipeline.Run.{Summary, run_pipeline}
use filedge.Pipeline.Commits.{register_files-CommitsNothing}
use filedge.Pipeline.Kept.{register_files-keeps}
use filedge.Pipeline.Refines.{Runs-IsConsistent, process_all-Runs}

module _ {S : Type 0} (tick : ℕ → ℕ) (load : String → String → ℕ → S → S × LoadOutcome)
    (message : LoadError → String) where
  -- Whole Runs that come to their end and steps of an operator, one after another. Every Run has
  -- its own settings and its own Files.
  pub data Sequence (w : World S) : World S → Type 0 where
    start : Sequence w w
    ran :
        {u v : World S} (run_id : Option String) (retry_cap stale_minutes : ℕ)
        (policy : ManifestPolicy) (watched_dir : String)
        (discover : String → Result String ManifestResult) (describe : ManifestResult → String)
        (files : List SourceFile) (s : Summary)
        → Sequence w u
        → run_pipeline tick load message run_id retry_cap stale_minutes policy watched_dir discover
            describe files u
          ≡ ok (v, s)
        → Sequence w v
    operated :
        {u : World S} {audit : AuditTable} (cap : ℕ)
        → Sequence w u
        → OperatorStep cap u.audit audit
        → Sequence w (record u { audit = audit })

  -- What a step keeps: the well-formedness of the table, and the row of a COMMITTED File.
  record Holds (r : FileRecord) (db : AuditTable) : Type 0 where
    pub consistent : IsConsistent db
    pub kept : Kept r db

  run_pipeline-Holds :
      (r : FileRecord) (run_id : Option String) (retry_cap stale_minutes : ℕ)
      (policy : ManifestPolicy) (watched_dir : String)
      (discover : String → Result String ManifestResult) (describe : ManifestResult → String)
      (files : List SourceFile) (w w' : World S) (s : Summary)
      → r.state ≡ committed
      → run_pipeline tick load message run_id retry_cap stale_minutes policy watched_dir discover
          describe files w
        ≡ ok (w', s)
      → Holds r w.audit
      → Holds r w'.audit
  unfolding run_pipeline
  run_pipeline-Holds r run_id cap stale policy watched_dir discover describe files w w' s state e
        holds =
      let (g, registered, rest) = >>=-eq-ok _ _ e in
      let table = (reset_eligible_failed w.now w.audit cap).0 in
      let before : Runs cap w.audit _ =
        more (more done (reset w.now)) (reclaim (tick w.now) stale) in
      let fine = Runs-IsConsistent before holds.consistent in
      let there = Runs-keeps_committed r before state holds.kept in
      let registered_fine =
        (register_files-CommitsNothing tick policy watched_dir run_id discover describe _ _ files g
            registered).consistent
          fine in
      let registered_there =
        register_files-keeps tick policy watched_dir run_id discover describe r committed _ _ files
          g registered fine state there in
      let loop =
        process_all-Runs tick load message run_id cap g.load_candidates
          (record { audit = g.audit; dest = w.dest; now = g.now }) _ registered_fine in
      subst (λ (x : World S). Holds r x.audit) (ap (λ p. p.0) (ok-injective rest))
        (record {
          consistent = Runs-IsConsistent loop registered_fine;
          kept = Runs-keeps_committed r loop state registered_there;
        })

  Sequence-Holds :
      {w v : World S} (r : FileRecord)
      → Sequence w v
      → r.state ≡ committed
      → Holds r w.audit
      → Holds r v.audit
  Sequence-Holds r start state holds = holds
  Sequence-Holds r (ran run_id cap stale policy dir discover describe files s before e) state
        holds =
      run_pipeline-Holds r run_id cap stale policy dir discover describe files _ _ s state e
        (Sequence-Holds r before state holds)
  Sequence-Holds r (operated cap before step) state holds =
      let now = Sequence-Holds r before state holds in
      record {
        consistent = OperatorStep-IsConsistent step now.consistent;
        kept = OperatorStep-keeps r step state now.kept;
      }

  -- In a consistent audit table the row of a COMMITTED File stays the same, column by column,
  -- through every sequence of whole Runs that come to their end and of requeues, one after another:
  -- whatever Files, manifest policies, retry caps and time limits the Runs have, and whatever their
  -- loads return.
  pub committed_forever :
      {w v : World S} (r : FileRecord)
      → Sequence w v
      → IsConsistent w.audit
      → r.state ≡ committed
      → find_file_by_hash w.audit r.content_hash ≡ some r
      → find_file_by_hash v.audit r.content_hash ≡ some r
  committed_forever r sequence fine state there =
      (Sequence-Holds r sequence state (record { consistent = fine; kept = there })).kept
