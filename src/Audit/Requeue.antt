-- ===== src/Audit/Requeue.antt =====
-- filedge/audit_records.py: requeueing one File, the lineage of a File, and the status counts.
use filedge.Base.{
  ℕ, ◌+◌, String, Bool, Option, none, some, List, [], ◌∷◌, if◌then◌else◌, select, take,
}
use filedge.Audit.Record.{
  FileState, pending, processing, committed, failed, same_state, FileRecord, AuditTable,
}
use filedge.Audit.Sql.{rowcount}
use filedge.Audit.Store.{
  find_file_by_hash, find_files_by_filename, find_terminal_failed_by_filename, is_terminal_failed,
  requeue_by_hash, newest_first,
}

pub data RequeueOutcome : Type 0 where
  requeued : FileRecord → RequeueOutcome
  not_found : String → RequeueOutcome
  not_eligible : FileRecord → RequeueOutcome
  ambiguous : List FileRecord → RequeueOutcome

-- The two ways to name the target: exactly one of `content_hash` and `filename` is used.
pub data Target : Type 0 where
  by_hash : String → Target
  by_filename : String → Target

unfoldable pub requeue_found :
    ℕ → AuditTable → ℕ → String → Option FileRecord → AuditTable × RequeueOutcome
requeue_found now db retry_cap h none = (db, not_found h)
requeue_found now db retry_cap h (some record_) =
    if is_terminal_failed record_ retry_cap
    then (requeue_by_hash now db h, requeued record_)
    else (db, not_eligible record_)

unfoldable pub requeue_match :
    ℕ → AuditTable → String → List FileRecord → AuditTable × RequeueOutcome
requeue_match now db filename [] = (db, not_found filename)
requeue_match now db filename (r ∷ []) = (requeue_by_hash now db r.content_hash, requeued r)
requeue_match now db filename (r ∷ q ∷ matches) = (db, ambiguous (r ∷ q ∷ matches))

unfoldable pub requeue_file : ℕ → AuditTable → ℕ → Target → AuditTable × RequeueOutcome
unfolding requeue_found requeue_match
requeue_file now db retry_cap (by_hash h) =
    requeue_found now db retry_cap h (find_file_by_hash db h)
requeue_file now db retry_cap (by_filename name) =
    requeue_match now db name (find_terminal_failed_by_filename db name retry_cap)

pub record Lineage : Type 0 where
  pub file : FileRecord
  pub run_id : Option String
  pub created_at : Option ℕ
  pub updated_at : Option ℕ

pub data LineageResult : Type 0 where
  found : Lineage → LineageResult
  missing : String → LineageResult
  ambiguous_name : String → List FileRecord → LineageResult

lineage_row : FileRecord → Option FileRecord → LineageResult
lineage_row file none =
    found (record { file = file; run_id = none; created_at = none; updated_at = none })
lineage_row file (some row) = found (record {
  file = file;
  run_id = row.run_id;
  created_at = some row.created_at;
  updated_at = some row.updated_at;
})

lineage_found : AuditTable → FileRecord → LineageResult
unfolding lineage_row
lineage_found db file = lineage_row file (find_file_by_hash db file.content_hash)

lineage_match : AuditTable → String → List FileRecord → LineageResult
lineage_match db identifier [] = missing identifier
lineage_match db identifier (r ∷ []) = lineage_found db r
lineage_match db identifier (r ∷ q ∷ matches) = ambiguous_name identifier (r ∷ q ∷ matches)

unfoldable pub lineage_record : AuditTable → String → LineageResult
unfolding lineage_match lineage_found
lineage_record db identifier = elim (find_file_by_hash db identifier) [
  | some file ↦ lineage_found db file
  | none ↦ lineage_match db identifier (find_files_by_filename db identifier)
]

pub record StatusSummary : Type 0 where
  pub pending_count : ℕ
  pub processing_count : ℕ
  pub committed_count : ℕ
  pub failed_count : ℕ
  pub recent_failures : List FileRecord
  pub quarantined_rows : ℕ

-- COALESCE(SUM(quarantined_row_count), 0): a NULL counts for nothing.
unfoldable pub sum_quarantined : List FileRecord → ℕ
sum_quarantined [] = 0
sum_quarantined (r ∷ rows) =
    elim r.quarantined_row_count [ none ↦ 0 | some n ↦ n ] + sum_quarantined rows

abbrev pub in_state : FileState → FileRecord → Bool
in_state s r = same_state r.state s

-- The failures of `recent_failures` are whole rows here; the source keeps seven of their columns.
unfoldable pub status_summary : AuditTable → StatusSummary
unfolding sum_quarantined
status_summary db = record {
  pending_count = rowcount (in_state pending) db.rows;
  processing_count = rowcount (in_state processing) db.rows;
  committed_count = rowcount (in_state committed) db.rows;
  failed_count = rowcount (in_state failed) db.rows;
  recent_failures = take 10 (newest_first (select (in_state failed) db.rows));
  quarantined_rows = sum_quarantined db.rows;
}
