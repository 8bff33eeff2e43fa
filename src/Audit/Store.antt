-- ===== src/Audit/Store.antt =====
-- The operations of filedge/db.py on `etl_file_audit`. `now` is the value of `_now()`.
use filedge.Base.{
  ℕ, zero, suc, ◌+◌, ◌-◌, ◌*◌, String, Bool, false, Option, none, some, List, [], ◌∷◌, ◌++◌, ◌&&◌,
  ◌==◌, if◌then◌else◌, select, length, take, drop, contains, ltb, leb, eqb, is_none,
}
use filedge.Base.Dict
use filedge.Base.Dict.{Dict}
use filedge.Base.Json.{non_empty}
use filedge.Audit.Record.{
  FileState, pending, processing, committed, failed, same_state, SourceMetadata, FileRecord,
  AuditTable,
}
use filedge.Audit.Sql.{first, update, rowcount, has_hash}

abbrev pub empty_table : AuditTable
empty_table = record { rows = []; next_id = 1 }

-- WHERE state = 'FAILED' AND attempt_count >= ?, and the same test on a fetched record
unfoldable pub is_terminal_failed : FileRecord → ℕ → Bool
is_terminal_failed r retry_cap = same_state r.state failed && leb retry_cap r.attempt_count

-- WHERE state = 'FAILED' AND attempt_count < ?
unfoldable pub is_retryable_failed : FileRecord → ℕ → Bool
is_retryable_failed r retry_cap = same_state r.state failed && ltb r.attempt_count retry_cap

unfoldable pub find_file_by_hash : AuditTable → String → Option FileRecord
find_file_by_hash db content_hash = first (has_hash content_hash) db.rows

-- A row as the INSERT writes it: the columns that it does not name are NULL or their default.
unfoldable pub pending_row :
    ℕ → ℕ → String → String → Option String → Option SourceMetadata → FileRecord
pending_row now id filename content_hash source_dir metadata = record {
  id = id;
  filename = filename;
  source_dir = source_dir;
  content_hash = content_hash;
  state = pending;
  attempt_count = 0;
  error_message = none;
  worker_id = none;
  run_id = none;
  row_count = none;
  claimed_at = none;
  created_at = now;
  updated_at = now;
  metadata = metadata;
  quarantined_row_count = none;
  quarantine_path = none;
}

-- The `range_blob` of the second INSERT: an empty source range is stored as NULL.
unfoldable pub stored_metadata : Option SourceMetadata → Option SourceMetadata
stored_metadata none = none
stored_metadata (some m) = some (record m { source_range = non_empty m.source_range })

unfoldable pub insert_pending :
    ℕ → AuditTable → String → String → Option String → Option SourceMetadata → AuditTable
unfolding pending_row stored_metadata find_file_by_hash
insert_pending now db filename content_hash source_dir metadata =
    if is_none (find_file_by_hash db content_hash)
    then record {
      rows =
          db.rows
          ++ (pending_row now db.next_id filename content_hash source_dir (stored_metadata metadata)
              ∷ []);
      next_id = db.next_id + 1;
    }
    else db

abbrev pub claimable : String → FileRecord → Bool
claimable content_hash r = has_hash content_hash r && same_state r.state pending

abbrev pub claim : ℕ → Option String → Option String → FileRecord → FileRecord
claim now worker_id run_id r = record r {
  state = processing;
  worker_id = worker_id;
  run_id = run_id;
  claimed_at = some now;
  updated_at = now;
}

-- The table after the UPDATE, and whether it changed exactly one row.
unfoldable pub claim_processing :
    ℕ → AuditTable → String → Option String → Option String → AuditTable × Bool
claim_processing now db content_hash worker_id run_id = (
  record db { rows = update (claimable content_hash) (claim now worker_id run_id) db.rows },
  eqb (rowcount (claimable content_hash) db.rows) 1,
)

abbrev pub commit_row : ℕ → Option ℕ → ℕ → Option String → FileRecord → FileRecord
commit_row now row_count quarantined_row_count quarantine_path r = record r {
  state = committed;
  worker_id = none;
  row_count = row_count;
  quarantined_row_count = some quarantined_row_count;
  quarantine_path = quarantine_path;
  updated_at = now;
}

unfoldable pub mark_committed : ℕ → AuditTable → String → Option ℕ → ℕ → Option String → AuditTable
mark_committed now db content_hash row_count quarantined_row_count quarantine_path = record db {
  rows =
      update (has_hash content_hash)
        (commit_row now row_count quarantined_row_count quarantine_path) db.rows;
}

abbrev pub fail_row : ℕ → String → FileRecord → FileRecord
fail_row now error r = record r {
  state = failed;
  error_message = some error;
  worker_id = none;
  attempt_count = r.attempt_count + 1;
  updated_at = now;
}

unfoldable pub mark_failed : ℕ → AuditTable → String → String → AuditTable
mark_failed now db content_hash error = record db {
  rows = update (has_hash content_hash) (fail_row now error) db.rows;
}

abbrev pub reset_row : ℕ → FileRecord → FileRecord
reset_row now r = record r { state = pending; worker_id = none; updated_at = now }

unfoldable pub reset_eligible_failed : ℕ → AuditTable → ℕ → AuditTable × ℕ
unfolding is_retryable_failed
reset_eligible_failed now db retry_cap =
    let eligible = λ (r : FileRecord). is_retryable_failed r retry_cap in
    (record db { rows = update eligible (reset_row now) db.rows }, rowcount eligible db.rows)

-- WHERE state='PROCESSING' AND claimed_at < ?; a comparison with NULL does not hold.
unfoldable pub is_stale : ℕ → FileRecord → Bool
is_stale cutoff r =
    same_state r.state processing
    && elim r.claimed_at [ none ↦ false | some claimed_at ↦ ltb claimed_at cutoff ]

abbrev pub reclaim_row : ℕ → FileRecord → FileRecord
reclaim_row now r = record r {
  state = pending;
  worker_id = none;
  attempt_count = r.attempt_count + 1;
  updated_at = now;
}

abbrev pub microseconds_per_minute : ℕ
microseconds_per_minute = 60000000

unfoldable pub reclaim_stale_processing : ℕ → AuditTable → ℕ → AuditTable × ℕ
unfolding is_stale
reclaim_stale_processing now db stale_minutes =
    let cutoff = now - stale_minutes * microseconds_per_minute in
    (
      record db { rows = update (is_stale cutoff) (reclaim_row now) db.rows },
      rowcount (is_stale cutoff) db.rows,
    )

abbrev pub requeue_row : ℕ → FileRecord → FileRecord
requeue_row now r = record r {
  state = pending;
  attempt_count = 0;
  error_message = none;
  worker_id = none;
  updated_at = now;
}

unfoldable pub requeue_by_hash : ℕ → AuditTable → String → AuditTable
requeue_by_hash now db content_hash = record db {
  rows = update (has_hash content_hash) (requeue_row now) db.rows;
}

unfoldable pub requeue_all_terminal_failed : ℕ → AuditTable → ℕ → AuditTable × ℕ
unfolding is_terminal_failed
requeue_all_terminal_failed now db retry_cap =
    let terminal = λ (r : FileRecord). is_terminal_failed r retry_cap in
    (record db { rows = update terminal (requeue_row now) db.rows }, rowcount terminal db.rows)

unfoldable pub find_files_by_filename : AuditTable → String → List FileRecord
find_files_by_filename db filename = select (λ r. r.filename == filename) db.rows

unfoldable pub find_terminal_failed_by_filename : AuditTable → String → ℕ → List FileRecord
unfolding is_terminal_failed
find_terminal_failed_by_filename db filename retry_cap =
    select (λ r. r.filename == filename && is_terminal_failed r retry_cap) db.rows

-- ORDER BY updated_at DESC; rows of one time stay in the table's order.
unfoldable pub insert_newest_first : FileRecord → List FileRecord → List FileRecord
insert_newest_first r [] = r ∷ []
insert_newest_first r (q ∷ rows) =
    if ltb r.updated_at q.updated_at then q ∷ insert_newest_first r rows else r ∷ q ∷ rows

unfoldable pub newest_first : List FileRecord → List FileRecord
unfolding insert_newest_first
newest_first [] = []
newest_first (r ∷ rows) = insert_newest_first r (newest_first rows)

unfoldable pub list_terminal_failed : AuditTable → ℕ → List FileRecord
unfolding is_terminal_failed newest_first
list_terminal_failed db retry_cap =
    newest_first (select (λ r. is_terminal_failed r retry_cap) db.rows)

-- SELECT content_hash, state … WHERE content_hash IN (chunk), merged into `result`
unfoldable pub update_states : List String → List FileRecord → Dict FileState → Dict FileState
update_states chunk [] result = result
update_states chunk (r ∷ rows) result =
    update_states chunk rows
      (if contains r.content_hash chunk then Dict.insert r.content_hash r.state result else result)

-- `range(0, len(hashes), size)`: one round for each chunk. The fuel is the number of hashes.
unfoldable pub chunked_states :
    ℕ → ℕ → List FileRecord → List String → Dict FileState → Dict FileState
unfolding update_states
chunked_states fuel size rows [] result = result
chunked_states zero size rows (h ∷ hashes) result = result
chunked_states (suc fuel) size rows (h ∷ hashes) result =
    chunked_states fuel size rows (drop size (h ∷ hashes))
      (update_states (take size (h ∷ hashes)) rows result)

abbrev pub chunk_size : ℕ
chunk_size = 500

unfoldable pub get_hash_states : AuditTable → List String → Dict FileState
unfolding chunked_states
get_hash_states db hashes = chunked_states (length hashes) chunk_size db.rows hashes []
