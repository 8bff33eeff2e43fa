-- ===== src/Cdc/Apply.antt =====
-- `apply_transactional_cdc` of filedge/cdc.py with the adapter and `write_cdc_rows` of
-- filedge/connectors/sql_base.py.
use filedge.Base.{
  ℕ, String, Bool, true, false, not, Option, none, some, List, [], ◌∷◌, ◌++◌, ◌&&◌, ◌==◌, select,
  if◌then◌else◌,
}
use filedge.Base.Dict.{Dict}
use filedge.Base.Result.{Result, ok, err, ◌>>=◌}
use filedge.Quarantine.Stream.{LoadError, unexpected, Stream}
use filedge.Destination.Table.{DestRow, Connection, commit, rollback}
use filedge.Cdc.Values.{CdcValues}
use filedge.Cdc.Plan.{CdcConfig, CdcChange, Key, data_cells, get_value, plan_cdc_changes}

module _ (v : CdcValues) (accepts : List (DestRow v.Value) → Bool) where
  open v use {Value, is_null, sql_same}

  -- One `column = ?` of the predicate; a comparison with NULL does not hold.
  abbrev pub column_is : Dict Value → String → Value → Bool
  column_is cells column x =
      not (is_null (get_value v cells column)) && sql_same (get_value v cells column) x

  -- `" AND ".join(…)` over the key columns and their values
  unfoldable pub has_key : List String → Key v → DestRow Value → Bool
  has_key [] key r = true
  has_key (column ∷ columns) [] r = false
  has_key (column ∷ columns) (x ∷ key) r = column_is r.cells column x && has_key columns key r

  unfoldable pub delete_by_key : List String → Key v → List (DestRow Value) → List (DestRow Value)
  delete_by_key columns key = select (λ r. not (has_key columns key r))

  module _ (c : CdcConfig) (file_hash : String) (ingested_at : ℕ) where
    -- The columns and values of the INSERT.
    abbrev pub inserted : CdcChange v → DestRow Value
    inserted change = record {
      cells = data_cells v c change.row;
      source_file_hash = file_hash;
      ingested_at = ingested_at;
    }

    unfoldable pub insert_row :
        CdcChange v → List (DestRow Value) → Result LoadError (List (DestRow Value))
    insert_row change table =
        if accepts (inserted change ∷ [])
        then ok (table ++ inserted change ∷ [])
        else err (unexpected "database error")

    unfoldable pub apply_change :
        CdcChange v → List (DestRow Value) → Result LoadError (List (DestRow Value))
    unfolding insert_row delete_by_key
    apply_change change table =
        let cleared = delete_by_key c.keys change.key table in
        if change.operation == "delete" then ok cleared else insert_row change cleared

    unfoldable pub apply_changes :
        List (CdcChange v) → List (DestRow Value) → Result LoadError (List (DestRow Value))
    unfolding apply_change
    apply_changes [] table = ok table
    apply_changes (change ∷ changes) table = do
      table' ← apply_change change table
      apply_changes changes table'

    unfoldable pub apply_transactional_cdc :
        Stream (Dict Value) → List (DestRow Value) → Result LoadError (List (DestRow Value))
    unfolding apply_changes
    apply_transactional_cdc rows table = do
      changes ← plan_cdc_changes v c rows
      apply_changes changes table

    unfoldable pub settle_cdc :
        Connection Value
        → Result LoadError (List (DestRow Value))
        → Connection Value × Option LoadError
    unfolding commit rollback
    settle_cdc conn (ok table) = (commit (record conn { working = table }), none)
    settle_cdc conn (err e) = (rollback conn, some e)

    unfoldable pub write_cdc_rows :
        Stream (Dict Value) → Connection Value → Connection Value × Option LoadError
    unfolding apply_transactional_cdc settle_cdc
    write_cdc_rows rows conn = settle_cdc conn (apply_transactional_cdc rows conn.working)
