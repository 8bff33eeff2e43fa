-- ===== src/Pipeline/Booked.antt =====
-- A whole `run_pipeline` (filedge/pipeline.py) with `load_file` (filedge/loader.py): the audit
-- table as a ledger of the destination.
use filedge.Base.{ℕ, String, ◌≡◌, ap, subst, Option, List}
use filedge.Base.Dict.{Dict}
use filedge.Base.Result.{Result, ok, >>=-eq-ok, ok-injective}
use filedge.Audit.Record.{AuditTable}
use filedge.Audit.Store.{reset_eligible_failed}
use filedge.Rows.Python.{Python}
use filedge.Rows.Tolerance.{DistinctDests}
use filedge.Quarantine.Stream.{LoadError, Stream}
use filedge.Quarantine.Processor.{QuarantineConfig, Buffer}
use filedge.Destination.Table.{append}
use filedge.Load.Config.{ManifestPolicy, PipelineConfig}
use filedge.Load.Crypto.{Ciphers}
use filedge.Load.Connector.{Connector, IsAtomic}
use filedge.Load.LoadFile.{LoadOutcome, load_file}
use filedge.Load.Exact.{IsFaithful, load_file-IsFaithful}
use filedge.Pipeline.Manifest.{ManifestResult}
use filedge.Pipeline.Register.{SourceFile}
use filedge.Pipeline.World.{World}
use filedge.Pipeline.Run.{Summary, run_pipeline}
use filedge.Pipeline.Commits.{
  CommitsNothing, CommitsNothing-trans, reset-CommitsNothing, reclaim-CommitsNothing,
  register_files-CommitsNothing,
}
use filedge.Pipeline.Ledger.{IsLedger, process_all-IsLedger}

module _ (py : Python) (ciphers : Ciphers) (k : Connector py.Value) (law : IsAtomic k)
    (finalize : QuarantineConfig py → String → Buffer py → Result String String)
    (config : PipelineConfig py) (parse : String → Stream (Dict py.Value)) where
  -- `load_file` of a Run: the parser is opened at the File's path.
  unfoldable pub load_path : String → String → ℕ → k.State → k.State × LoadOutcome
  load_path path h now s = load_file py ciphers k finalize config h now (parse path) s

  module _ (tick : ℕ → ℕ) (message : LoadError → String) (run_id : Option String)
      (retry_cap stale_minutes : ℕ) (policy : ManifestPolicy) (watched_dir : String)
      (discover : String → Result String ManifestResult) (describe : ManifestResult → String) where
    IsLedger-CommitsNothing :
        (w : World k.State) (audit : AuditTable) (now : ℕ)
        → CommitsNothing w.audit audit
        → IsLedger k w
        → IsLedger k (record { audit = audit; dest = w.dest; now = now })
    IsLedger-CommitsNothing w audit now c ledger = record {
      consistent = c.consistent ledger.consistent;
      settled = ledger.settled;
      agrees = record {
        counts = λ h r found done. ledger.agrees.counts h r (c.kept h r found done) done;
      };
    }

    -- A Run of an append pipeline with an atomic connector, whose columns have different
    -- destinations, keeps the audit table a ledger of the destination: if before it every COMMITTED
    -- row counted exactly the destination rows of its File in a consistent table, and no
    -- transaction was open, then so it is after the Run, for every directory and every manifest
    -- policy, and whatever the loads return.
    pub run_pipeline-IsLedger :
        (files : List SourceFile) (w w' : World k.State) (s : Summary)
        → DistinctDests config.columns
        → config.write_mode ≡ append
        → IsLedger k w
        → run_pipeline tick load_path message run_id retry_cap stale_minutes policy watched_dir
            discover describe files w
          ≡ ok (w', s)
        → IsLedger k w'
    unfolding run_pipeline load_path
    run_pipeline-IsLedger files w w' s distinct mode ledger e =
        let (r, registered, rest) = >>=-eq-ok _ _ e in
        let reset = (reset_eligible_failed w.now w.audit retry_cap).0 in
        let before =
          IsLedger-CommitsNothing w r.audit r.now
            (CommitsNothing-trans (reset-CommitsNothing w.now w.audit retry_cap) (
              CommitsNothing-trans (reclaim-CommitsNothing (tick w.now) reset stale_minutes) (
                register_files-CommitsNothing tick policy watched_dir run_id discover describe _ _
                  files r registered)))
            ledger in
        subst (IsLedger k) (ap (λ p. p.0) (ok-injective rest)) (
          process_all-IsLedger k tick load_path load_path-IsFaithful message run_id
            r.load_candidates _ _ before)
      where
        load_path-IsFaithful :
            (path h : String) (now : ℕ) (s : k.State)
            → k.IsSettled s
            → IsFaithful k h s (load_path path h now s)
        load_path-IsFaithful path h now s settled =
            load_file-IsFaithful py ciphers k law finalize config distinct mode h now s settled
              (parse path)
