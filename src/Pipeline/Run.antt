-- ===== src/Pipeline/Run.antt =====
-- `run_pipeline` of filedge/pipeline.py, after its configuration and health checks.
use filedge.Base.{ℕ, ◌+◌, String, Option, none, some, List, [], ◌∷◌, if◌then◌else◌}
use filedge.Base.Result.{Result, ok, ◌>>=◌}
use filedge.Audit.Store.{
  claim_processing, mark_committed, mark_failed, reset_eligible_failed, reclaim_stale_processing,
}
use filedge.Quarantine.Stream.{LoadError}
use filedge.Load.LoadFile.{LoadOutcome, loaded, failed_load}
use filedge.Pipeline.Manifest.{ManifestResult}
use filedge.Pipeline.Register.{SourceFile, LoadCandidate, Registering, register_files}
use filedge.Load.Config.{ManifestPolicy}
use filedge.Pipeline.World.{World, with_audit}

-- The counters of the Run's summary that the loading loop changes.
pub record Summary : Type 0 where
  pub committed : ℕ
  pub failed : ℕ
  pub skipped : ℕ
  pub new_files : ℕ
  pub reclaimed : ℕ
  pub retried : ℕ
  pub rows_committed : ℕ
  pub quarantined_rows : ℕ

-- `load` is `load_file` with the Run's connector and configuration: path, hash and the time of the
-- write. `message` is `str(e)`, which the audit table records.
module _ {S : Type 0} (tick : ℕ → ℕ) (load : String → String → ℕ → S → S × LoadOutcome)
    (message : LoadError → String) (run_id : Option String) where
  -- What follows `load_file`.
  unfoldable pub record_outcome : String → World S → Summary → LoadOutcome → World S × Summary
  record_outcome h w s (loaded rows quarantined path) = (
    with_audit tick w (mark_committed w.now w.audit h (some rows) quarantined path),
    record s {
      committed = s.committed + 1;
      rows_committed = s.rows_committed + rows;
      quarantined_rows = s.quarantined_rows + quarantined;
    },
  )
  record_outcome h w s (failed_load e) = (
    with_audit tick w (mark_failed w.now w.audit h (message e)),
    record s { failed = s.failed + 1 },
  )

  unfoldable pub load_claimed : LoadCandidate → World S → Summary → World S × Summary
  unfolding record_outcome
  load_claimed f w s =
      let (dest, outcome) = load f.path f.content_hash w.now w.dest in
      record_outcome f.content_hash (record w { dest = dest; now = tick w.now }) s outcome

  -- The body of the loop over the load candidates.
  unfoldable pub process_candidate : LoadCandidate → World S → Summary → World S × Summary
  unfolding load_claimed
  process_candidate f w s =
      let (audit, claimed) = claim_processing w.now w.audit f.content_hash none run_id in
      let w' = with_audit tick w audit in if claimed then load_claimed f w' s else (w', s)

  unfoldable pub process_all : List LoadCandidate → World S → Summary → World S × Summary
  unfolding process_candidate
  process_all [] w s = (w, s)
  process_all (f ∷ candidates) w s =
      let (w', s') = process_candidate f w s in process_all candidates w' s'

  unfoldable pub start_summary : ℕ → ℕ → Registering → Summary
  start_summary retried reclaimed r = record {
    committed = 0;
    failed = r.failed_pre_load;
    skipped = r.skipped;
    new_files = r.new_files;
    reclaimed = reclaimed;
    retried = retried;
    rows_committed = 0;
    quarantined_rows = 0;
  }

  module _ (retry_cap stale_minutes : ℕ) (policy : ManifestPolicy) (watched_dir : String)
      (discover : String → Result String ManifestResult) (describe : ManifestResult → String) where
    -- From the reset of retryable Files to the summary. An error is an exception of
    -- `register_files`, which ends the Run.
    unfoldable pub run_pipeline : List SourceFile → World S → Result String (World S × Summary)
    unfolding process_all start_summary
    run_pipeline files w =
        let (reset, retried) = reset_eligible_failed w.now w.audit retry_cap in
        let (reclaimed_table, reclaimed) =
          reclaim_stale_processing (tick w.now) reset stale_minutes in
        (do
          r ←
              register_files tick policy watched_dir run_id discover describe (tick (tick w.now))
                reclaimed_table files
          ok (
              process_all r.load_candidates (record { audit = r.audit; dest = w.dest; now = r.now })
                (start_summary retried reclaimed r)))
