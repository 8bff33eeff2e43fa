-- ===== src/Tests/LedgerTests.antt =====
-- A Run of the small pipeline into a SQL destination, whose audit table has one File that waits.
use filedge.Base.{◌+◌, String, ◌≡◌, refl, true, none, List, [], ◌∷◌, arith}
use filedge.Base.Dict
use filedge.Base.Dict.{Dict}
use filedge.Base.Result.{Result, ok, err}
use filedge.Audit.Sql.{first, update}
use filedge.Audit.Store.{
  find_file_by_hash, get_hash_states, reclaim_stale_processing, reset_eligible_failed,
}
use filedge.Quarantine.Stream.{Stream, end, yield}
use filedge.Quarantine.Processor.{QuarantineConfig, Buffer}
use filedge.Destination.Table.{Connection, append}
use filedge.Load.Config.{PipelineConfig, disabled}
use filedge.Load.Crypto.{Ciphers}
use filedge.Load.Connector.{Connector, IsAtomic}
use filedge.Load.Sql.{sql_connector, sql_connector-IsAtomic}
use filedge.Load.LoadFile.{load_file}
use filedge.Load.Exact.{IsFaithful, load_file-IsFaithful}
use filedge.Pipeline.Manifest.{ManifestResult}
use filedge.Pipeline.Register.{SourceFile, register_files}
use filedge.Pipeline.World.{World}
use filedge.Pipeline.Run.{Summary, run_pipeline}
use filedge.Pipeline.Ledger.{IsLedger}
use filedge.Pipeline.Booked.{load_path, run_pipeline-IsLedger}
use filedge.Tests.Data.{Value, word, small_python, name_column, waiting_file}

abbrev plain : Ciphers
plain = record {
  KeyBytes = String;
  resolve_key = λ key usage. ok key;
  encrypt = λ key bytes. ok bytes;
  digest = λ key bytes. ok bytes;
}

abbrev no_sidecar :
    QuarantineConfig small_python → String → Buffer small_python → Result String String
no_sidecar q h buffer = err "disk full"

abbrev database : Connector Value
database = sql_connector (λ rows. true) 2 (λ cdc h now rows c. (c, none))

abbrev config : PipelineConfig small_python
config = record {
  columns = name_column ∷ [];
  retry_cap = 3;
  stale_timeout_minutes = 30;
  batch_size = 2;
  write_mode = append;
  cdc = none;
  source_manifest = disabled;
  quarantine = none;
}

abbrev raw_rows : Stream (Dict Value)
raw_rows = yield (("Name", word "ore") ∷ []) (yield (("Name", word "tin") ∷ []) end)

abbrev nothing_stored : Connection Value
nothing_stored = record { working = []; durable = [] }

abbrev ledger : World (Connection Value)
ledger = record {
  audit = record { rows = waiting_file ∷ []; next_id = 2 };
  dest = nothing_stored;
  now = 20;
}

ledger-IsLedger : IsLedger database ledger
unfolding first find_file_by_hash
ledger-IsLedger = record {
  consistent = record { unique = (refl, tt); keyed = (omega arith, tt) };
  settled = refl;
  agrees = record { counts = λ h r found done. ground arith };
}

load_file-IsFaithful_example :
    IsFaithful database "aa" nothing_stored
      (load_file small_python plain database no_sidecar config "aa" 20 raw_rows nothing_stored)
load_file-IsFaithful_example =
    load_file-IsFaithful small_python plain database
      (sql_connector-IsAtomic (λ rows. true) 2 (λ cdc h now rows c. (c, none))) no_sidecar config
      (refl, tt) refl "aa" 20 nothing_stored refl raw_rows

abbrev one_file : List SourceFile
one_file = record { path = "in/a.csv"; basename = "a.csv"; content_hash = "aa"; size = 9 } ∷ []

abbrev unread : String → Result String ManifestResult
unread path = err "AttributeError"

abbrev run_once : Result String (World (Connection Value) × Summary)
run_once =
    run_pipeline (λ now. now + 1)
      (load_path small_python plain database
        (sql_connector-IsAtomic (λ rows. true) 2 (λ cdc h now rows c. (c, none))) no_sidecar config
        (λ path. raw_rows))
      (λ e. "failed") none 3 30 disabled "in" unread (λ m. m.manifest_path) one_file ledger

abbrev result_or : {E A : Type 0} → A → Result E A → A
result_or a (ok x) = x
result_or a (err e) = a

abbrev no_summary : Summary
no_summary = record {
  committed = 0;
  failed = 0;
  skipped = 0;
  new_files = 0;
  reclaimed = 0;
  retried = 0;
  rows_committed = 0;
  quarantined_rows = 0;
}

abbrev after_run : World (Connection Value) × Summary
after_run = result_or (ledger, no_summary) run_once

run_once-ok : run_once ≡ ok after_run
unfolding run_pipeline register_files Dict.lookup get_hash_states reclaim_stale_processing update
    reset_eligible_failed Dict.insert
run_once-ok = refl

run_pipeline-IsLedger_example : IsLedger database after_run.0
run_pipeline-IsLedger_example =
    run_pipeline-IsLedger small_python plain database
      (sql_connector-IsAtomic (λ rows. true) 2 (λ cdc h now rows c. (c, none))) no_sidecar config
      (λ path. raw_rows) (λ now. now + 1) (λ e. "failed") none 3 30 disabled "in" unread
      (λ m. m.manifest_path) one_file ledger after_run.0 after_run.1 (refl, tt) refl ledger-IsLedger
      run_once-ok

sql_connector-IsAtomic_example : IsAtomic database
sql_connector-IsAtomic_example =
    sql_connector-IsAtomic (λ rows. true) 2 (λ cdc h now rows c. (c, none))
