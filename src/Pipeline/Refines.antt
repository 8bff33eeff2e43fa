-- ===== src/Pipeline/Refines.antt =====
-- The loading loop of `run_pipeline` (filedge/pipeline.py) against the state machine of a File in
-- Audit/Lifecycle.
use filedge.Base.{
  ℕ, String, ◌≡◌, refl, ◌∙◌, ap, Bool, true, false, Option, none, some, List, [], ◌∷◌,
  if◌then◌else◌, sym, arith,
}
use filedge.Audit.Record.{FileState, pending, processing, same_state, FileRecord, AuditTable}
use filedge.Audit.Sql.{UniqueHashes}
use filedge.Audit.Store.{find_file_by_hash, claim_processing}
use filedge.Audit.Lock.{is_claimable, claim_processing-is_claimable}
use filedge.Audit.Consistency.{IsConsistent}
use filedge.Audit.Lifecycle.{
  InState, RunStep, take_lock, commit, fail, Runs, done, more, RunStep-IsConsistent,
}
use filedge.Quarantine.Stream.{LoadError}
use filedge.Load.LoadFile.{LoadOutcome, loaded, failed_load}
use filedge.Pipeline.Register.{LoadCandidate}
use filedge.Pipeline.World.{World, with_audit}
use filedge.Pipeline.Run.{Summary, record_outcome, load_claimed, process_candidate, process_all}
use filedge.Pipeline.Outcome.{claimed-found}

pub Runs-IsConsistent :
    {cap : ℕ} {d e : AuditTable} → Runs cap d e → IsConsistent d → IsConsistent e
Runs-IsConsistent done c = c
Runs-IsConsistent (more runs st) c = RunStep-IsConsistent st (Runs-IsConsistent runs c)

Runs-append : {cap : ℕ} {d e g : AuditTable} → Runs cap d e → Runs cap e g → Runs cap d g
Runs-append first_runs done = first_runs
Runs-append first_runs (more runs st) = more (Runs-append first_runs runs) st

pub waits : (r : FileRecord) → is_claimable (some r) ≡ true → r.state ≡ pending
unfolding is_claimable
waits r e = go r.state e
  where
    go : (st : FileState) → same_state st pending ≡ true → st ≡ pending
    go st same = ground (arith)

-- A claim that succeeds leaves the File PROCESSING.
locked :
    (now : ℕ) (db : AuditTable) (h : String) (w run : Option String)
    → UniqueHashes db.rows
    → (claim_processing now db h w run).1 ≡ true
    → InState processing (claim_processing now db h w run).0 h
unfolding is_claimable
locked now db h w run u e = go (find_file_by_hash db h) refl
  where
    go :
        (o : Option FileRecord)
        → find_file_by_hash db h ≡ o
        → InState processing (claim_processing now db h w run).0 h
    go none found = absurd (ground (arith, claim_processing-is_claimable now db h w run u))
    go (some r) found = (
      _,
      claimed-found now db h w run r found (
          waits r (
            ap is_claimable (sym found)
            ∙ sym (claim_processing-is_claimable now db h w run u)
            ∙ e)),
      refl,
    )

module _ {S : Type 0} (tick : ℕ → ℕ) (load : String → String → ℕ → S → S × LoadOutcome)
    (message : LoadError → String) (run_id : Option String) where
  outcome-RunStep :
      {cap : ℕ} (h : String) (w : World S) (s : Summary) (o : LoadOutcome)
      → InState processing w.audit h
      → RunStep cap w.audit (record_outcome tick load message run_id h w s o).0.audit
  unfolding record_outcome
  outcome-RunStep h w s (loaded n q p) l = commit w.now h (some n) q p l
  outcome-RunStep h w s (failed_load e) l = fail w.now h (message e) l

  pub process_candidate-Runs :
      {cap : ℕ} (f : LoadCandidate) (w : World S) (s : Summary)
      → IsConsistent w.audit
      → Runs cap w.audit (process_candidate tick load message run_id f w s).0.audit
  unfolding process_candidate load_claimed
  process_candidate-Runs {cap} f w s c =
      go (claim_processing w.now w.audit f.content_hash none run_id).1 refl
    where
      taken : AuditTable
      taken = (claim_processing w.now w.audit f.content_hash none run_id).0

      held : Runs cap w.audit taken
      held = more done (take_lock w.now f.content_hash none run_id)

      go :
          (b : Bool)
          → (claim_processing w.now w.audit f.content_hash none run_id).1 ≡ b
          → Runs cap w.audit
              (if b
                then load_claimed tick load message run_id f (with_audit tick w taken) s
                else (with_audit tick w taken, s)).0.audit
      go false e = held
      go true e = more held (
          outcome-RunStep f.content_hash _ s _
            (locked w.now w.audit f.content_hash none run_id c.unique e))

  -- From a consistent audit table the loading loop of a Run takes only the steps of a File's state
  -- machine, whatever its loads return: it marks an outcome only for a File that is PROCESSING.
  pub process_all-Runs :
      (cap : ℕ) (candidates : List LoadCandidate) (w : World S) (s : Summary)
      → IsConsistent w.audit
      → Runs cap w.audit (process_all tick load message run_id candidates w s).0.audit
  unfolding process_all
  process_all-Runs cap [] w s c = done
  process_all-Runs cap (f ∷ candidates) w s c =
      let first_runs = process_candidate-Runs f w s c in
      Runs-append first_runs (process_all-Runs cap candidates _ _ (Runs-IsConsistent first_runs c))
