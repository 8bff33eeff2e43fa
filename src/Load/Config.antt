-- ===== src/Load/Config.antt =====
-- The part of `PipelineConfig` (filedge/config.py) that a Run reads.
use filedge.Base.{ℕ, Option, List}
use filedge.Rows.Python.{Python}
use filedge.Rows.Columns.{ColumnMapping}
use filedge.Quarantine.Processor.{QuarantineConfig}
use filedge.Cdc.Plan.{CdcConfig}
use filedge.Destination.Table.{WriteMode}

-- `source_manifest:`
pub data ManifestPolicy : Type 0 where
  disabled optional required_manifest : ManifestPolicy

pub record PipelineConfig (py : Python) : Type 0 where
  pub columns : List ColumnMapping
  pub retry_cap : ℕ
  pub stale_timeout_minutes : ℕ
  pub batch_size : ℕ
  pub write_mode : WriteMode
  pub cdc : Option CdcConfig
  pub source_manifest : ManifestPolicy
  pub quarantine : Option (QuarantineConfig py)
