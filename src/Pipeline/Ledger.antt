-- ===== src/Pipeline/Ledger.antt =====
-- The audit table of a Run (filedge/pipeline.py) as a ledger of the destination: how many rows it
-- says that a File has.
use filedge.Base.{
  ℕ, String, ◌≡◌, ◌≢◌, refl, ◌∙◌, sym, ap, subst, false, Option, some, List, [], ◌∷◌, length,
  Bool-cases, Option-cases, inl, inr, ◌==◌, eq_iff,
}
use filedge.Audit.Record.{pending, committed, FileRecord, AuditTable}
use filedge.Audit.Store.{find_file_by_hash}
use filedge.Audit.Lock.{is_claimable}
use filedge.Audit.Consistency.{IsConsistent}
use filedge.Audit.Lifecycle.{Runs}
use filedge.Quarantine.Stream.{LoadError}
use filedge.Load.Connector.{Connector}
use filedge.Load.LoadFile.{LoadOutcome, loaded, failed_load}
use filedge.Load.Exact.{IsFaithful}
use filedge.Pipeline.Register.{LoadCandidate}
use filedge.Pipeline.World.{World}
use filedge.Pipeline.Run.{Summary, process_candidate, process_all}
use filedge.Pipeline.Outcome.{
  marked_row, process_candidate-claimed, process_candidate-unclaimed, process_candidate-others,
}
use filedge.Pipeline.Refines.{waits, process_candidate-Runs, Runs-IsConsistent}

module _ {V : Type 0} (k : Connector V) where
  -- Every COMMITTED row of the audit table counts the rows that the destination has of its File.
  pub record Agrees (audit : AuditTable) (dest : k.State) : Type 0 where
    pub counts :
        (h : String) (r : FileRecord)
        → find_file_by_hash audit h ≡ some r
        → r.state ≡ committed
        → r.row_count ≡ some (length (k.rows_of dest h))

  -- Between two loads of a Run.
  pub record IsLedger (w : World k.State) : Type 0 where
    pub consistent : IsConsistent w.audit
    pub settled : k.IsSettled w.dest
    pub agrees : Agrees w.audit w.dest

module _ {V : Type 0} (k : Connector V) (tick : ℕ → ℕ)
    (load : String → String → ℕ → k.State → k.State × LoadOutcome)
    (faithful : (path h : String) (now : ℕ) (s : k.State)
      → k.IsSettled s
      → IsFaithful k h s (load path h now s))
    (message : LoadError → String) (run_id : Option String) where
  marked_row-counts :
      (claimed now : ℕ) (o : LoadOutcome) (r : FileRecord) (m : ℕ)
      → ((n quarantined : ℕ) (p : Option String) → o ≡ loaded n quarantined p → m ≡ n)
      → (marked_row tick load message run_id claimed now o r).state ≡ committed
      → (marked_row tick load message run_id claimed now o r).row_count ≡ some m
  unfolding marked_row
  marked_row-counts claimed now (loaded n q p) r m counted e = ap some (sym (counted n q p refl))
  marked_row-counts claimed now (failed_load x) r m counted e = cc

  module _ (f : LoadCandidate) (w : World k.State) (s : Summary) (ledger : IsLedger k w) where
    after : World k.State
    after = (process_candidate tick load message run_id f w s).0

    after-IsConsistent : IsConsistent after.audit
    unfolding after
    after-IsConsistent =
        let runs : Runs 0 w.audit (process_candidate tick load message run_id f w s).0.audit =
          process_candidate-Runs tick load message run_id f w s ledger.consistent in
        Runs-IsConsistent runs ledger.consistent

    -- After a claimed candidate: its own row, and the row of another File.
    module _ (r : FileRecord) (found : find_file_by_hash w.audit f.content_hash ≡ some r)
        (idle : r.state ≡ pending) where
      outcome : k.State × LoadOutcome
      outcome = load f.path f.content_hash (tick w.now) w.dest

      sound : IsFaithful k f.content_hash w.dest outcome
      unfolding outcome
      sound = faithful f.path f.content_hash (tick w.now) w.dest ledger.settled

      landed :
          (after.dest ≡ outcome.0)
          × (find_file_by_hash after.audit f.content_hash
              ≡ some (marked_row tick load message run_id w.now (tick (tick w.now)) outcome.1 r))
      unfolding after outcome
      landed =
          process_candidate-claimed tick load message run_id f w s r ledger.consistent.unique found
            idle

      own_count :
          (q : FileRecord)
          → find_file_by_hash after.audit f.content_hash ≡ some q
          → q.state ≡ committed
          → q.row_count ≡ some (length (k.rows_of after.dest f.content_hash))
      own_count q there done =
          let same : q ≡ marked_row tick load message run_id w.now (tick (tick w.now)) outcome.1 r =
            cc (landed.1) in
          ap (λ x. x.row_count) same
          ∙ marked_row-counts w.now (tick (tick w.now)) outcome.1 r _ sound.counted
              (ap (λ x. x.state) (sym same) ∙ done)
          ∙ ap (λ d. some (length (k.rows_of d f.content_hash))) (sym landed.0)

      other_count :
          (j : String) (q : FileRecord)
          → f.content_hash ≢ j
          → find_file_by_hash after.audit j ≡ some q
          → q.state ≡ committed
          → q.row_count ≡ some (length (k.rows_of after.dest j))
      unfolding after
      other_count j q apart there done =
          ledger.agrees.counts j q
            (sym (
                process_candidate-others tick load message run_id f w s j ledger.consistent.unique
                  apart)
              ∙ there)
            done
          ∙ ap (λ l. some (length l))
              (sym (ap (λ d. k.rows_of d j) landed.0 ∙ sound.others j apart))

      claimed-IsLedger : IsLedger k after
      claimed-IsLedger = record {
        consistent = after-IsConsistent;
        settled = subst k.IsSettled (sym landed.0) sound.settled;
        agrees = record {
          counts = λ j q there done. elim (Bool-cases (f.content_hash == j)) [
            | inl same ↦
                let here = (eq_iff f.content_hash j).0 same in
                subst (λ x. q.row_count ≡ some (length (k.rows_of after.dest x))) here
                  (own_count q (ap (find_file_by_hash after.audit) here ∙ there) done)
            | inr other ↦ other_count j q (λ e. cc ((eq_iff f.content_hash j).1 e)) there done
          ];
        };
      }

    unclaimed-IsLedger :
        is_claimable (find_file_by_hash w.audit f.content_hash) ≡ false → IsLedger k after
    unfolding after
    unclaimed-IsLedger idle = record {
      consistent = after-IsConsistent;
      settled = subst k.IsSettled (sym (same "").0) ledger.settled;
      agrees = record {
        counts = λ j q there done.
            ledger.agrees.counts j q (sym (same j).2 ∙ there) done
            ∙ ap (λ d. some (length (k.rows_of d j))) (sym (same j).0);
      };
    }
      where
        same :
            (j : String)
            → let (w', s') = process_candidate tick load message run_id f w s in
              (w'.dest ≡ w.dest)
              × (s' ≡ s)
              × (find_file_by_hash w'.audit j ≡ find_file_by_hash w.audit j)
        same j =
            process_candidate-unclaimed tick load message run_id f w s j ledger.consistent.unique
              idle

    process_candidate-IsLedger : IsLedger k after
    process_candidate-IsLedger = elim (Option-cases (find_file_by_hash w.audit f.content_hash)) [
      | inl absent ↦ unclaimed-IsLedger (unfold is_claimable in rw absent refl)
      | inr (r, found) ↦ elim (Bool-cases (is_claimable (some r))) [
        | inl ready ↦ claimed-IsLedger r found (waits r ready)
        | inr idle ↦ unclaimed-IsLedger (ap is_claimable found ∙ idle)
      ]
    ]

  -- The loading loop of a Run keeps the audit table a ledger of the destination: every COMMITTED
  -- row counts exactly the destination rows of its File, if it did so before, the table is
  -- consistent, and the load is faithful. Whatever the loads return, and whatever they refuse.
  pub process_all-IsLedger :
      (candidates : List LoadCandidate) (w : World k.State) (s : Summary)
      → IsLedger k w
      → IsLedger k (process_all tick load message run_id candidates w s).0
  unfolding process_all after
  process_all-IsLedger [] w s ledger = ledger
  process_all-IsLedger (f ∷ candidates) w s ledger =
      process_all-IsLedger candidates _ _ (process_candidate-IsLedger f w s ledger)
