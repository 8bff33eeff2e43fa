-- ===== src/Audit/Record.antt =====
-- One row of `etl_file_audit` (filedge/db.py) and the states of a File. A time is the number of
-- microseconds since a fixed origin; the source keeps it as ISO text in UTC, which sorts alike.
use filedge.Base.{ℕ, String, Bool, true, false, Option, List}
use filedge.Base.Json.{Json, Fields}

pub data FileState : Type 0 where
  pending processing committed failed : FileState

-- `state = …` in a WHERE clause
abbrev pub same_state : FileState → FileState → Bool
same_state pending pending = true
same_state processing processing = true
same_state committed committed = true
same_state failed failed = true
same_state _ _ = false

-- What a Source Manifest says of a File (filedge/source_manifest.py). The values are JSON, as the
-- parser does not check their types.
pub record SourceMetadata : Type 0 where
  pub source_type : Json
  pub source_name : Json
  pub producer : Option Json
  pub external_run_id : Option Json
  pub raw_payload : String
  pub manifest_version : Json
  pub started_at : Option Json
  pub finished_at : Option Json
  pub record_count : Option Json
  pub source_range : Option Fields

-- The source's manifest columns are NULL together, where `metadata` is `none`.
pub record FileRecord : Type 0 where
  pub id : ℕ
  pub filename : String
  pub source_dir : Option String
  pub content_hash : String
  pub state : FileState
  pub attempt_count : ℕ
  pub error_message : Option String
  pub worker_id : Option String
  pub run_id : Option String
  pub row_count : Option ℕ
  pub claimed_at : Option ℕ
  pub created_at : ℕ
  pub updated_at : ℕ
  pub metadata : Option SourceMetadata
  pub quarantined_row_count : Option ℕ
  pub quarantine_path : Option String

-- The table: its rows in insertion order, and the next primary key.
pub record AuditTable : Type 0 where
  pub rows : List FileRecord
  pub next_id : ℕ
