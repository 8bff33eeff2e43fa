-- ===== src/Load/LoadFile.antt =====
-- `load_file` of filedge/loader.py. Progress events are left out.
use filedge.Base.{ℕ, suc, String, Option, none, some, List, [], ◌∷◌, map, length}
use filedge.Base.Dict
use filedge.Base.Dict.{Dict}
use filedge.Base.Result.{Result, ok, err}
use filedge.Rows.Python.{Python}
use filedge.Rows.Columns.{ColumnMapping}
use filedge.Rows.Transform.{RowException, rejected, overflow, transform_row}
use filedge.Quarantine.Stream.{
  LoadError, transform, field_crypto, key_resolution, unexpected, Stream, end, raise, yield,
}
use filedge.Quarantine.Processor.{QuarantineConfig, Buffer, quarantining_rows}
use filedge.Destination.Table.{WriteMode, cdc_mode}
use filedge.Cdc.Plan.{CdcConfig}
use filedge.Load.Crypto.{Ciphers, Engine, for_pipeline, apply_to_row}
use filedge.Load.Connector.{Connector}
use filedge.Load.Config.{PipelineConfig}

-- `dest_by_source.get(key, key)`; of two columns with one source the last one counts.
unfoldable pub dest_by_source : List ColumnMapping → Dict String → Dict String
dest_by_source [] table = table
dest_by_source (column ∷ columns) table =
    dest_by_source columns (Dict.insert column.source column.dest table)

unfoldable pub dest_or_same : Dict String → String → String
dest_or_same table key = elim (Dict.lookup key table) [ none ↦ key | some dest ↦ dest ]

unfoldable pub destination_cdc_config : List ColumnMapping → Option CdcConfig → Option CdcConfig
unfolding dest_by_source dest_or_same
destination_cdc_config columns none = none
destination_cdc_config columns (some cdc) =
    let table = dest_by_source columns [] in
    some (record cdc {
      keys = map (dest_or_same table) cdc.keys;
      sequence_by = dest_or_same table cdc.sequence_by;
    })

-- The yields of a stream: `rows_loaded` once the connector has read it to its end.
unfoldable pub yields {ℓ} : {A : Type ℓ} → Stream A → ℕ
yields end = 0
yields (raise e) = 0
yields (yield a rows) = suc (yields rows)

-- What `load_file` reports: the rows loaded, the rows quarantined with their sidecar, or the error.
pub data LoadOutcome : Type 0 where
  loaded : (rows quarantined : ℕ) → Option String → LoadOutcome
  failed_load : LoadError → LoadOutcome

-- The handler that a row's exception reaches: `except TransformError`, or `except Exception`.
unfoldable pub row_raised : RowException → LoadError
row_raised (rejected e) = transform e
row_raised overflow = unexpected "OverflowError"

module _ (py : Python) (ciphers : Ciphers) (k : Connector py.Value) where
  open py use {Value, null}

  value_or_null : Option Value → Value
  value_or_null none = null
  value_or_null (some v) = v

  -- The operation column of the raw row, in CDC mode.
  unfoldable pub with_operation :
      WriteMode → Option CdcConfig → Dict Value → Dict Value → Dict Value
  unfolding value_or_null
  with_operation cdc_mode (some cdc) raw row =
      Dict.insert cdc.operation_column (value_or_null (Dict.lookup cdc.operation_column raw)) row
  with_operation _ _ raw row = row

  -- The body of the loop of `row_iter`.
  unfoldable pub load_row :
      PipelineConfig py
      → Engine py ciphers
      → Option CdcConfig
      → Dict Value
      → Result LoadError (Dict Value)
  unfolding with_operation row_raised
  load_row config engine cdc raw = elim (transform_row py raw config.columns) [
    | err e ↦ err (row_raised e)
    | ok row ↦ elim (apply_to_row py ciphers engine row) [
      | err e ↦ err (field_crypto e)
      | ok sealed ↦ ok (with_operation config.write_mode cdc raw sealed)
    ]
  ]

  -- The generator stops at the first row that raises.
  unfoldable pub row_iter :
      PipelineConfig py
      → Engine py ciphers
      → Option CdcConfig
      → Stream (Dict Value)
      → Stream (Dict Value)
  unfolding load_row
  row_iter config engine cdc end = end
  row_iter config engine cdc (raise e) = raise e
  row_iter config engine cdc (yield raw rows) = elim (load_row config engine cdc raw) [
    | err e ↦ raise e
    | ok row ↦ yield row (row_iter config engine cdc rows)
  ]

  -- `use_quarantine`
  unfoldable pub active_quarantine : PipelineConfig py → Option (QuarantineConfig py)
  active_quarantine config = elim config.write_mode [ cdc_mode ↦ none | _ ↦ config.quarantine ]

  unfoldable pub write :
      PipelineConfig py
      → Option CdcConfig
      → String
      → ℕ
      → Stream (Dict Value)
      → k.State
      → k.State × Option LoadError
  write config cdc file_hash now rows s = elim config.write_mode [
    | cdc_mode ↦ elim cdc [
      | some c ↦ k.write_cdc_rows c file_hash now rows s
      | none ↦ k.write_rows file_hash now rows s
    ]
    | _ ↦ k.write_rows file_hash now rows s
  ]

  -- `sink.finalize()`, if there is anything in the sink: the sidecar's path, or the exception that
  -- writing it raised, after the destination has committed.
  module _ (finalize : QuarantineConfig py → String → Buffer py → Result String String) where
    unfoldable pub finish_sink : ℕ → Option (QuarantineConfig py) → String → Buffer py → LoadOutcome
    finish_sink rows none file_hash buffer = loaded rows 0 none
    finish_sink rows (some q) file_hash [] = loaded rows 0 none
    finish_sink rows (some q) file_hash (b ∷ buffer) = elim (finalize q file_hash (b ∷ buffer)) [
      | ok path ↦ loaded rows (length (b ∷ buffer)) (some path)
      | err e ↦ failed_load (unexpected e)
    ]

    unfoldable pub written_outcome :
        ℕ
        → Option (QuarantineConfig py)
        → String
        → Buffer py
        → k.State × Option LoadError
        → k.State × LoadOutcome
    unfolding finish_sink
    written_outcome rows q file_hash buffer (s, none) = (s, finish_sink rows q file_hash buffer)
    written_outcome rows q file_hash buffer (s, some e) = (s, failed_load e)

    -- The iterator that the connector is given, and the sink's buffer once it has read it.
    unfoldable pub iterator :
        PipelineConfig py
        → Engine py ciphers
        → Option CdcConfig
        → Stream (Dict Value)
        → Stream (Dict Value) × Buffer py
    unfolding active_quarantine
    iterator config engine cdc rows = elim (active_quarantine config) [
      | none ↦ (row_iter config engine cdc rows, [])
      | some q ↦ quarantining_rows py (apply_to_row py ciphers engine) config.columns q rows
    ]

    unfoldable pub load_with :
        PipelineConfig py
        → Engine py ciphers
        → String
        → ℕ
        → Stream (Dict Value)
        → k.State
        → k.State × LoadOutcome
    unfolding written_outcome write
    load_with config engine file_hash now rows s =
        let cdc = destination_cdc_config config.columns config.cdc in
        let (seen, buffer) = iterator config engine cdc rows in
        written_outcome (yields seen) (active_quarantine config) file_hash buffer
          (write config cdc file_hash now seen s)

    -- `rows` are the File's raw rows, as the parser yields them.
    unfoldable pub load_file :
        PipelineConfig py → String → ℕ → Stream (Dict Value) → k.State → k.State × LoadOutcome
    unfolding load_with
    load_file config file_hash now rows s = elim (for_pipeline py ciphers config.columns) [
      | err e ↦ (s, failed_load (key_resolution e))
      | ok engine ↦ load_with config engine file_hash now rows s
    ]
