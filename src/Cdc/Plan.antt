-- ===== src/Cdc/Plan.antt =====
-- `plan_cdc_changes` and `plan_staged_cdc_records` of filedge/cdc.py.
use filedge.Base.{
  String, Bool, true, false, not, Option, none, some, List, [], ◌∷◌, ◌++◌, ◌&&◌, map, any, select,
  if◌then◌else◌, ◌==◌,
}
use filedge.Base.Dict
use filedge.Base.Dict.{Dict}
use filedge.Base.Result.{Result, ok, err, ◌>>=◌}
use filedge.Quarantine.Stream.{
  unknown_operation, null_key, null_sequence, same_sequence, LoadError, cdc, unexpected, Stream,
  end, raise, yield,
}
use filedge.Cdc.Values.{CdcValues}

pub record CdcConfig : Type 0 where
  pub keys : List String
  pub operation_column : String
  pub sequence_by : String
  pub operations : List (String × List String)

-- `{value: operation for operation, values in … for value in values}`: the last one wins.
operation_values : String → List String → Dict String → Dict String
operation_values operation [] table = table
operation_values operation (value ∷ values) table =
    operation_values operation values (Dict.insert value operation table)

operation_table : List (String × List String) → Dict String → Dict String
unfolding operation_values
operation_table [] table = table
operation_table ((operation, values) ∷ operations) table =
    operation_table operations (operation_values operation values table)

unfoldable pub operation_by_value : CdcConfig → Dict String
unfolding operation_table
operation_by_value c = operation_table c.operations []

module _ (v : CdcValues) where
  open v use {Value, null, is_null, text, as_text, same, greater}

  -- What the dict `latest_by_key` holds for a key.
  pub record Latest : Type 0 where
    pub sequence : Value
    pub operation : String
    pub row : Dict Value

  abbrev pub Key : Type 0
  Key = List Value

  abbrev pub LatestByKey : Type 0
  LatestByKey = List (Key × Latest)

  abbrev pub same_key : Key → Key → Bool
  same_key [] [] = true
  same_key [] (b ∷ bs) = false
  same_key (a ∷ as_) [] = false
  same_key (a ∷ as_) (b ∷ bs) = same a b && same_key as_ bs

  -- `row.get(column)`
  unfoldable pub get_value : Dict Value → String → Value
  get_value row column = elim (Dict.lookup column row) [ none ↦ null | some x ↦ x ]

  unfoldable pub key_of : CdcConfig → Dict Value → Key
  key_of c row = map (get_value row) c.keys

  -- `latest_by_key.get(key)` and `latest_by_key[key] = …`; a dict keeps its first key.
  unfoldable pub latest_of : Key → LatestByKey → Option Latest
  latest_of key [] = none
  latest_of key ((k, e) ∷ rest) = if same_key k key then some e else latest_of key rest

  unfoldable pub set_latest : Key → Latest → LatestByKey → LatestByKey
  set_latest key e [] = (key, e) ∷ []
  set_latest key e ((k, old) ∷ rest) =
      if same_key k key then (k, e) ∷ rest else (k, old) ∷ set_latest key e rest

  -- `operation_by_value.get(row.get(cdc.operation_column))`
  unfoldable pub operation_of : CdcConfig → Dict Value → Option String
  unfolding operation_by_value get_value
  operation_of c row = elim (as_text (get_value row c.operation_column)) [
    | none ↦ none
    | some s ↦ Dict.lookup s (operation_by_value c)
  ]

  -- The end of the loop's body: the two tests on the existing entry.
  unfoldable pub place : Key → Latest → Option Latest → LatestByKey → Result LoadError LatestByKey
  place key e none latest = ok (set_latest key e latest)
  place key e (some existing) latest =
      if same existing.sequence e.sequence
      then err (cdc same_sequence)
      else elim (greater e.sequence existing.sequence) [
        | none ↦ err (unexpected "TypeError")
        | some true ↦ ok (set_latest key e latest)
        | some false ↦ ok latest
      ]

  -- The checks of one row, in the order of the code.
  unfoldable pub read_change : CdcConfig → Dict Value → Result LoadError Latest
  unfolding operation_of key_of get_value
  read_change c row = elim (operation_of c row) [
    | none ↦ err (cdc unknown_operation)
    | some operation ↦
        if any is_null (key_of c row)
        then err (cdc null_key)
        else if is_null (get_value row c.sequence_by)
        then err (cdc (null_sequence c.sequence_by))
        else ok
            (record { sequence = get_value row c.sequence_by; operation = operation; row = row })
  ]

  unfoldable pub plan_step : CdcConfig → Dict Value → LatestByKey → Result LoadError LatestByKey
  unfolding read_change place
  plan_step c row latest = do
    e ← read_change c row
    place (key_of c row) e (latest_of (key_of c row) latest) latest

  unfoldable pub plan_from :
      CdcConfig → Stream (Dict Value) → LatestByKey → Result LoadError LatestByKey
  unfolding plan_step
  plan_from c end latest = ok latest
  plan_from c (raise e) latest = err e
  plan_from c (yield row rows) latest = do
    latest' ← plan_step c row latest
    plan_from c rows latest'

  pub record CdcChange : Type 0 where
    pub operation : String
    pub key : Key
    pub row : Dict Value

  abbrev pub change_of : Key × Latest → CdcChange
  change_of (k, e) = record { operation = e.operation; key = k; row = e.row }

  unfoldable pub plan_cdc_changes :
      CdcConfig → Stream (Dict Value) → Result LoadError (List CdcChange)
  unfolding plan_from
  plan_cdc_changes c rows = do latest ← plan_from c rows []; ok (map change_of latest)

  pub record StagedCdcRecords : Type 0 where
    pub records : List (Dict Value)
    pub data_columns : List String

  -- The row without its operation column.
  abbrev pub data_cells : CdcConfig → Dict Value → Dict Value
  data_cells c = select (λ (k, _). not (k == c.operation_column))

  or_first : List String → List String → List String
  or_first [] columns = columns
  or_first (k ∷ ks) columns = k ∷ ks

  staged_from :
      CdcConfig → String → List CdcChange → List (Dict Value) → List String → StagedCdcRecords
  unfolding or_first
  staged_from c marker [] records data_columns = record {
    records = records;
    data_columns = data_columns;
  }
  staged_from c marker (change ∷ changes) records data_columns =
      staged_from c marker changes
        (records ++ Dict.insert marker (text change.operation) (data_cells c change.row) ∷ [])
        (or_first data_columns (Dict.keys (data_cells c change.row)))

  unfoldable pub plan_staged_cdc_records :
      CdcConfig → String → Stream (Dict Value) → Result LoadError StagedCdcRecords
  unfolding staged_from
  plan_staged_cdc_records c marker rows = do
    changes ← plan_cdc_changes c rows
    ok (staged_from c marker changes [] [])
