-- ===== src/Audit/Eligibility.antt =====
-- Which File `requeue_file` of filedge/audit_records.py resets, and its status counts.
use filedge.Base.{
  ℕ, ◌+◌, String, ◌≡◌, refl, ◌∙◌, Bool, true, false, Option, none, some, List, [], ◌∷◌, arith, ◌==◌,
  eq_iff, eq_refl, select, length,
}
use filedge.Audit.Record.{pending, processing, committed, failed, FileRecord, AuditTable}
use filedge.Audit.Sql.{first, has_hash, rowcount, on_row, UniqueHashes, first-update}
use filedge.Audit.Store.{
  find_file_by_hash, find_terminal_failed_by_filename, is_terminal_failed, requeue_row,
  requeue_by_hash,
}
use filedge.Audit.Lock.{content_hash-first}
use filedge.Audit.Lifecycle.{OperatorStep, requeue}
use filedge.Audit.Requeue.{
  RequeueOutcome, requeued, Target, by_hash, by_filename, requeue_found, requeue_match,
  requeue_file, status_summary, in_state,
}

pub find-requeue_by_hash :
    (now : ℕ) (db : AuditTable) (h j : String)
    → find_file_by_hash (requeue_by_hash now db h) j
      ≡ on_row (has_hash h) (requeue_row now) (find_file_by_hash db j)
unfolding requeue_by_hash find_file_by_hash
find-requeue_by_hash now db h j = first-update _ _ (λ r. refl) j db.rows

first-select_absent :
    (p : FileRecord → Bool) (rows : List FileRecord) (q r : FileRecord) (more : List FileRecord)
    → first (has_hash q.content_hash) rows ≡ none
    → select p rows ≡ r ∷ more
    → (r.content_hash == q.content_hash) ≡ false
unfolding first
first-select_absent p [] q r more absent e = cc
first-select_absent p (x ∷ rows) q r more absent e =
    ground (arith, first-select_absent p rows q r more)

-- The only row that fits a test is the row of its hash.
first-select :
    (p : FileRecord → Bool) (rows : List FileRecord) (r : FileRecord) (more : List FileRecord)
    → UniqueHashes rows
    → select p rows ≡ r ∷ more
    → (first (has_hash r.content_hash) rows ≡ some r) × (p r ≡ true)
unfolding first
first-select p [] r more u e = cc
first-select p (x ∷ rows) r more (fresh, u) e = ground (
  arith,
  first-select p rows r more u,
  first-select_absent p rows x r more fresh,
  eq_iff x.content_hash r.content_hash,
  eq_iff r.content_hash x.content_hash,
)

requeue_by_hash-OperatorStep :
    (now : ℕ) (db : AuditTable) (retry_cap : ℕ) (r : FileRecord)
    → find_file_by_hash db r.content_hash ≡ some r
    → is_terminal_failed r retry_cap ≡ true
    → OperatorStep retry_cap db (requeue_by_hash now db r.content_hash)
      × (find_file_by_hash (requeue_by_hash now db r.content_hash) r.content_hash
          ≡ some (requeue_row now r))
requeue_by_hash-OperatorStep now db retry_cap r found terminal = (
  requeue now r.content_hash r found terminal,
  rw (find-requeue_by_hash, found) (rw (eq_refl r.content_hash)),
)

requeue_found-requeued :
    (now : ℕ) (db : AuditTable) (retry_cap : ℕ) (h : String) (o : Option FileRecord)
    (r : FileRecord)
    → (requeue_found now db retry_cap h o).1 ≡ requeued r
    → (o ≡ some r)
      × (is_terminal_failed r retry_cap ≡ true)
      × ((requeue_found now db retry_cap h o).0 ≡ requeue_by_hash now db h)
unfolding requeue_found
requeue_found-requeued now db retry_cap h none r e = cc
requeue_found-requeued now db retry_cap h (some q) r e = ground arith

requeue_match-requeued :
    (now : ℕ) (db : AuditTable) (name : String) (matches : List FileRecord) (r : FileRecord)
    → (requeue_match now db name matches).1 ≡ requeued r
    → (matches ≡ r ∷ [])
      × ((requeue_match now db name matches).0 ≡ requeue_by_hash now db r.content_hash)
unfolding requeue_match
requeue_match-requeued now db name [] r e = cc
requeue_match-requeued now db name (q ∷ []) r e = ground arith
requeue_match-requeued now db name (q ∷ p ∷ matches) r e = cc

requeue_file-exact :
    (now : ℕ) (db : AuditTable) (retry_cap : ℕ) (t : Target) (r : FileRecord)
    → UniqueHashes db.rows
    → (requeue_file now db retry_cap t).1 ≡ requeued r
    → (find_file_by_hash db r.content_hash ≡ some r)
      × (is_terminal_failed r retry_cap ≡ true)
      × ((requeue_file now db retry_cap t).0 ≡ requeue_by_hash now db r.content_hash)
unfolding requeue_file find_file_by_hash find_terminal_failed_by_filename
requeue_file-exact now db retry_cap (by_hash h) r u e =
    let f = requeue_found-requeued now db retry_cap h (first (has_hash h) db.rows) r e in
    let same = content_hash-first h db.rows r f.0 in (simp same f.0, f.1, f.2 ∙ simp same)
requeue_file-exact now db retry_cap (by_filename name) r u e =
    let f = requeue_match-requeued now db name _ r e in
    let g = first-select _ db.rows r [] u f.0 in (g.0, ground (arith, g.1), f.1)

-- In a table with unique hashes, a record that a requeue by hash or by filename reports as requeued
-- is the tracked row of its hash and is terminal-FAILED, and afterwards its row is PENDING with no
-- attempt and no error.
pub requeue_file-requeued :
    (now : ℕ) (db : AuditTable) (retry_cap : ℕ) (t : Target) (r : FileRecord)
    → UniqueHashes db.rows
    → (requeue_file now db retry_cap t).1 ≡ requeued r
    → (find_file_by_hash db r.content_hash ≡ some r)
      × (is_terminal_failed r retry_cap ≡ true)
      × OperatorStep retry_cap db (requeue_file now db retry_cap t).0
      × (find_file_by_hash (requeue_file now db retry_cap t).0 r.content_hash
          ≡ some (requeue_row now r))
requeue_file-requeued now db retry_cap t r u e =
    let x = requeue_file-exact now db retry_cap t r u e in
    let s = requeue_by_hash-OperatorStep now db retry_cap r x.0 x.1 in
    (x.0, x.1, rw x.2 s.0, rw x.2 s.1)

abbrev pub is_requeued : RequeueOutcome → Bool
is_requeued (requeued r) = true
is_requeued _ = false

-- A requeue that reports anything else (not found, not eligible, ambiguous) leaves the audit table
-- as it is.
pub requeue_file-refused :
    (now : ℕ) (db : AuditTable) (retry_cap : ℕ) (t : Target)
    → is_requeued (requeue_file now db retry_cap t).1 ≡ false
    → (requeue_file now db retry_cap t).0 ≡ db
unfolding requeue_file
requeue_file-refused now db retry_cap (by_hash h) e = ground arith
requeue_file-refused now db retry_cap (by_filename name) e = ground arith

rowcount-states :
    (rows : List FileRecord)
    → rowcount (in_state pending) rows
        + rowcount (in_state processing) rows
        + rowcount (in_state committed) rows
        + rowcount (in_state failed) rows
      ≡ length rows
unfolding rowcount
rowcount-states [] = omega arith
rowcount-states (r ∷ rows) = ground (arith, rowcount-states rows)

-- The four counts of the status summary add up to the number of rows of the table.
pub status_summary-total :
    (db : AuditTable)
    → (status_summary db).pending_count
        + (status_summary db).processing_count
        + (status_summary db).committed_count
        + (status_summary db).failed_count
      ≡ length db.rows
unfolding status_summary
status_summary-total db = rowcount-states db.rows
