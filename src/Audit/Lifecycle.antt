-- ===== src/Audit/Lifecycle.antt =====
-- The state machine of a File, as steps of the audit table: what a Run does, in the order its
-- code allows, and what an operator does by requeueing.
use filedge.Base.{ℕ, String, ◌≡◌, refl, ◌∙◌, Bool, true, false, Option, some, arith, eq_iff}
use filedge.Audit.Record.{
  FileState, pending, processing, committed, same_state, SourceMetadata, FileRecord, AuditTable,
}
use filedge.Audit.Sql.{first, update, has_hash, first-update, first-append}
use filedge.Audit.Store.{
  find_file_by_hash, pending_row, stored_metadata, insert_pending, claim_processing, mark_committed,
  mark_failed, reset_eligible_failed, is_retryable_failed, reclaim_stale_processing,
  requeue_by_hash, requeue_all_terminal_failed, is_terminal_failed,
}
use filedge.Audit.Consistency.{
  IsConsistent, insert_pending-IsConsistent, claim_processing-IsConsistent,
  mark_committed-IsConsistent, mark_failed-IsConsistent, reset-IsConsistent, reclaim-IsConsistent,
  requeue-IsConsistent, requeue_all-IsConsistent,
}

-- The row of the hash is in this state.
abbrev pub InState : FileState → AuditTable → String → Type 0
InState s db h = (r : FileRecord) × (find_file_by_hash db h ≡ some r) × (r.state ≡ s)

-- The steps that the loading loop of one Run takes. `mark_committed` and `mark_failed` themselves
-- test no state (filedge/db.py:344): the premise is the loop's, which marks what it has claimed.
pub data RunStep (retry_cap : ℕ) (db : AuditTable) : AuditTable → Type 0 where
  insert :
      (now : ℕ) (filename h : String) (dir : Option String) (m : Option SourceMetadata)
      → RunStep retry_cap db (insert_pending now db filename h dir m)
  take_lock :
      (now : ℕ) (h : String) (w run_id : Option String)
      → RunStep retry_cap db (claim_processing now db h w run_id).0
  commit :
      (now : ℕ) (h : String) (n : Option ℕ) (q : ℕ) (p : Option String)
      → InState processing db h
      → RunStep retry_cap db (mark_committed now db h n q p)
  fail :
      (now : ℕ) (h error : String)
      → InState processing db h
      → RunStep retry_cap db (mark_failed now db h error)
  reset : (now : ℕ) → RunStep retry_cap db (reset_eligible_failed now db retry_cap).0
  reclaim : (now stale : ℕ) → RunStep retry_cap db (reclaim_stale_processing now db stale).0

-- `requeue_file` tests the record before it calls `requeue_by_hash`.
pub data OperatorStep (retry_cap : ℕ) (db : AuditTable) : AuditTable → Type 0 where
  requeue :
      (now : ℕ) (h : String) (r : FileRecord)
      → find_file_by_hash db h ≡ some r
      → is_terminal_failed r retry_cap ≡ true
      → OperatorStep retry_cap db (requeue_by_hash now db h)
  requeue_all :
      (now : ℕ) → OperatorStep retry_cap db (requeue_all_terminal_failed now db retry_cap).0

pub data Runs (retry_cap : ℕ) (db : AuditTable) : AuditTable → Type 0 where
  done : Runs retry_cap db db
  more : {d e : AuditTable} → Runs retry_cap db d → RunStep retry_cap d e → Runs retry_cap db e

-- Any history: runs and operators interleaved, and the retry cap configured anew at each step. A
-- mark may come late, when another Run has reclaimed the File: then it finds the row in any state.
pub data History (db : AuditTable) : AuditTable → Type 0 where
  start : History db db
  run : {d e : AuditTable} (cap : ℕ) → History db d → RunStep cap d e → History db e
  operate : {d e : AuditTable} (cap : ℕ) → History db d → OperatorStep cap d e → History db e
  late_commit :
      {d : AuditTable} (now : ℕ) (h : String) (n : Option ℕ) (q : ℕ) (p : Option String)
      → History db d
      → History db (mark_committed now d h n q p)
  late_fail :
      {d : AuditTable} (now : ℕ) (h error : String)
      → History db d
      → History db (mark_failed now d h error)

pub RunStep-IsConsistent :
    {cap : ℕ} {d e : AuditTable} → RunStep cap d e → IsConsistent d → IsConsistent e
RunStep-IsConsistent {d} (insert now f h dir m) c = insert_pending-IsConsistent now d f h dir m c
RunStep-IsConsistent {d} (take_lock now h w run_id) c =
    claim_processing-IsConsistent now d c h w run_id
RunStep-IsConsistent {d} (commit now h n q p _) c = mark_committed-IsConsistent now d c h n q p
RunStep-IsConsistent {d} (fail now h e _) c = mark_failed-IsConsistent now d c h e
RunStep-IsConsistent {cap} {d} (reset now) c = reset-IsConsistent now d c cap
RunStep-IsConsistent {d} (reclaim now stale) c = reclaim-IsConsistent now d c stale

pub OperatorStep-IsConsistent :
    {cap : ℕ} {d e : AuditTable} → OperatorStep cap d e → IsConsistent d → IsConsistent e
OperatorStep-IsConsistent {d} (requeue now h r _ _) c = requeue-IsConsistent now d c h
OperatorStep-IsConsistent {cap} {d} (requeue_all now) c = requeue_all-IsConsistent now d c cap

-- A table with one row for each Content Hash and with primary keys below the next one stays such a
-- table through every history of Run steps and of requeues, also where an outcome is marked for a
-- File in any state.
pub History-IsConsistent : {d e : AuditTable} → History d e → IsConsistent d → IsConsistent e
History-IsConsistent start c = c
History-IsConsistent (run cap h s) c = RunStep-IsConsistent s (History-IsConsistent h c)
History-IsConsistent (operate cap h s) c = OperatorStep-IsConsistent s (History-IsConsistent h c)
History-IsConsistent (late_commit {d} now h n q p before) c =
    mark_committed-IsConsistent now d (History-IsConsistent before c) h n q p
History-IsConsistent (late_fail {d} now h error before) c =
    mark_failed-IsConsistent now d (History-IsConsistent before c) h error

-- The row is in the table, under its own hash.
abbrev pub Kept : FileRecord → AuditTable → Type 0
Kept r db = find_file_by_hash db r.content_hash ≡ some r

Kept-update :
    (where_ : FileRecord → Bool) (set_ : FileRecord → FileRecord) (db : AuditTable) (r : FileRecord)
    → ((q : FileRecord) → (set_ q).content_hash ≡ q.content_hash)
    → Kept r db
    → where_ r ≡ false
    → first (has_hash r.content_hash) (update where_ set_ db.rows) ≡ some r
unfolding find_file_by_hash
Kept-update where_ set_ db r keeps k out =
    first-update where_ set_ keeps r.content_hash db.rows ∙ rw k (rw out)

pub Kept-insert :
    (now : ℕ) (db : AuditTable) (f h : String) (dir : Option String) (m : Option SourceMetadata)
    (r : FileRecord)
    → Kept r db
    → Kept r (insert_pending now db f h dir m)
unfolding insert_pending
Kept-insert now db f h dir m r k = ground (
  arith,
  first-append r.content_hash db.rows (pending_row now db.next_id f h dir (stored_metadata m)),
)

has_hash-InState :
    (db : AuditTable) (h : String) (r : FileRecord)
    → Kept r db
    → InState processing db h
    → same_state r.state processing ≡ false
    → has_hash h r ≡ false
unfolding find_file_by_hash
has_hash-InState db h r k (q, found, locked) idle = ground (arith, eq_iff r.content_hash h)

-- A row that is neither PENDING, PROCESSING nor retryable is left whole by every step of a Run.
pub RunStep-keeps :
    {cap : ℕ} {d e : AuditTable} (r : FileRecord)
    → RunStep cap d e
    → same_state r.state pending ≡ false
    → same_state r.state processing ≡ false
    → is_retryable_failed r cap ≡ false
    → Kept r d
    → Kept r e
unfolding find_file_by_hash
RunStep-keeps {d} r (insert now f h dir m) p l t k = Kept-insert now d f h dir m r k
RunStep-keeps {d} r (take_lock now h w run_id) p l t k =
    unfold claim_processing in Kept-update _ _ d r (λ q. refl) k (ground arith)
RunStep-keeps {d} r (commit now h n q f locked) p l t k =
    unfold mark_committed in Kept-update _ _ d r (λ q. refl) k (has_hash-InState d h r k locked l)
RunStep-keeps {d} r (fail now h e locked) p l t k =
    unfold mark_failed in Kept-update _ _ d r (λ q. refl) k (has_hash-InState d h r k locked l)
RunStep-keeps {d} r (reset now) p l t k =
    unfold reset_eligible_failed in Kept-update _ _ d r (λ q. refl) k t
RunStep-keeps {d} r (reclaim now stale) p l t k =
    unfold reclaim_stale_processing in Kept-update _ _ d r (λ q. refl) k (ground arith)

pub OperatorStep-keeps :
    {cap : ℕ} {d e : AuditTable} (r : FileRecord)
    → OperatorStep cap d e
    → r.state ≡ committed
    → Kept r d
    → Kept r e
unfolding find_file_by_hash is_terminal_failed
OperatorStep-keeps {d} r (requeue now h q found terminal) s k =
    unfold requeue_by_hash in
    Kept-update _ _ d r (λ q. refl) k (ground (arith, eq_iff r.content_hash h))
OperatorStep-keeps {d} r (requeue_all now) s k =
    unfold requeue_all_terminal_failed in Kept-update _ _ d r (λ q. refl) k (ground arith)

-- The row of a COMMITTED File stays the same through the guarded steps of a Run.
pub Runs-keeps_committed :
    {cap : ℕ} {d e : AuditTable} (r : FileRecord)
    → Runs cap d e
    → r.state ≡ committed
    → Kept r d
    → Kept r e
unfolding is_retryable_failed
Runs-keeps_committed r done s k = k
Runs-keeps_committed r (more h st) s k =
    RunStep-keeps r st (ground arith) (ground arith) (ground arith) (Runs-keeps_committed r h s k)

-- The row of a terminal-FAILED File stays the same through all steps of Runs with that retry cap.
pub terminal_failed_waits :
    (cap : ℕ) {d e : AuditTable} (r : FileRecord)
    → Runs cap d e
    → is_terminal_failed r cap ≡ true
    → find_file_by_hash d r.content_hash ≡ some r
    → find_file_by_hash e r.content_hash ≡ some r
unfolding is_retryable_failed is_terminal_failed
terminal_failed_waits cap r done t k = k
terminal_failed_waits cap r (more h st) t k =
    RunStep-keeps r st (ground arith) (ground arith) (ground arith)
      (terminal_failed_waits cap r h t k)
