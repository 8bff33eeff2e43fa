-- ===== src/Destination/Table.antt =====
-- A destination table behind a connection with transactions. What the database engine does is a
-- parameter: whether it accepts the rows of an `executemany`.
use filedge.Base.{ℕ, String, not, List, ◌==◌, select}
use filedge.Base.Dict.{Dict}

module _ {ℓ} (V : Type ℓ) where
  -- A destination row: its data columns, and the two provenance columns.
  pub record DestRow : Type ℓ where
    pub cells : Dict V
    pub source_file_hash : String
    pub ingested_at : ℕ

  -- What the transaction sees, and what is durable.
  pub record Connection : Type ℓ where
    pub working : List DestRow
    pub durable : List DestRow

module _ {ℓ} {V : Type ℓ} where
  unfoldable pub commit : Connection V → Connection V
  commit c = record { working = c.working; durable = c.working }

  unfoldable pub rollback : Connection V → Connection V
  rollback c = record { working = c.durable; durable = c.durable }

  -- `DELETE FROM table WHERE _source_file_hash = ?`
  abbrev pub without_hash : String → List (DestRow V) → List (DestRow V)
  without_hash h = select (λ r. not (r.source_file_hash == h))

  abbrev pub with_hash : String → List (DestRow V) → List (DestRow V)
  with_hash h = select (λ r. r.source_file_hash == h)

pub data WriteMode : Type 0 where
  append truncate cdc_mode : WriteMode
