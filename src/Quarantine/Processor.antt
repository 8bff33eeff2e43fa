-- ===== src/Quarantine/Processor.antt =====
-- `quarantining_rows` of filedge/quarantine/processor.py, the buffer of `QuarantineSink`
-- (filedge/quarantine/sink.py) and `QuarantineConfig.is_over_threshold` (filedge/config.py).
use filedge.Base.{
  ℕ, ◌+◌, String, Bool, false, Option, none, some, List, [], ◌∷◌, ◌++◌, ◌&&◌, ◌||◌, if◌then◌else◌,
  ltb,
}
use filedge.Base.Dict.{Dict}
use filedge.Base.Result.{Result, ok, err}
use filedge.Rows.Python.{Python}
use filedge.Rows.Columns.{ColumnMapping}
use filedge.Rows.Transform.{TransformError, RowException, rejected, overflow, transform_row}
use filedge.Quarantine.Stream.{unexpected, over_threshold, Stream, end, raise, yield}

-- The rows that a handler of `_ROW_ERRORS` catches.
pub data RowError : Type 0 where
  transform_error : TransformError → RowError
  crypto_error : String → RowError

-- What leaves the `try` block: a row error, or an OverflowError, which the handler does not catch.
pub data RowFault : Type 0 where
  caught : RowError → RowFault
  uncaught : RowFault

abbrev pub fault_of : RowException → RowFault
fault_of (rejected e) = caught (transform_error e)
fault_of overflow = uncaught

-- The `except TransformError` of `_offending_column`; `none` is the OverflowError that leaves it.
abbrev pub blamed : RowException → String → Option String
blamed (rejected e) source = some source
blamed overflow source = none

module _ (py : Python) where
  open py use {Value, Float, ratio_exceeds}

  pub record QuarantineConfig : Type 0 where
    pub dir : String
    pub max_invalid_fraction : Option Float
    pub max_invalid_rows : Option ℕ

  pub record QuarantinedRow : Type 0 where
    pub row_number : ℕ
    pub column : String
    pub error : RowError
    pub row : Dict Value

  -- `QuarantineSink._buffer`
  abbrev pub Buffer : Type 0
  Buffer = List QuarantinedRow

  unfoldable pub over_rows : Option ℕ → ℕ → Bool
  over_rows none invalid = false
  over_rows (some limit) invalid = ltb limit invalid

  unfoldable pub over_fraction : Option Float → ℕ → ℕ → Bool
  over_fraction none invalid total = false
  over_fraction (some limit) invalid total = ltb 0 total && ratio_exceeds invalid total limit

  unfoldable pub is_over_threshold : QuarantineConfig → ℕ → ℕ → Bool
  unfolding over_rows over_fraction
  is_over_threshold q invalid total =
      over_rows q.max_invalid_rows invalid || over_fraction q.max_invalid_fraction invalid total

  unfoldable pub offending_column : Dict Value → List ColumnMapping → Option String
  offending_column raw [] = some ""
  offending_column raw (col ∷ columns) = elim (transform_row py raw (col ∷ [])) [
    | ok _ ↦ offending_column raw columns
    | err e ↦ blamed e col.source
  ]

  unfoldable pub post_attempt :
      (Dict Value → Result String (Dict Value)) → Dict Value → Result RowFault (Dict Value)
  post_attempt post row = elim (post row) [ ok t ↦ ok t | err e ↦ err (caught (crypto_error e)) ]

  -- The `try` block: the transform, then `post_transform`.
  unfoldable pub attempt :
      (Dict Value → Result String (Dict Value))
      → List ColumnMapping
      → Dict Value
      → Result RowFault (Dict Value)
  unfolding post_attempt
  attempt post columns raw = elim (transform_row py raw columns) [
    | err e ↦ err (fault_of e)
    | ok t ↦ post_attempt post t
  ]

  module _ (post : Dict Value → Result String (Dict Value)) (columns : List ColumnMapping)
      (q : QuarantineConfig) where
    -- What follows the loop: an exception that also clears the buffer, or the end.
    unfoldable pub finish : ℕ → ℕ → Buffer → Stream (Dict Value) × Buffer
    finish total invalid buffer =
        if is_over_threshold q invalid total
        then (raise (over_threshold invalid total), [])
        else (end, buffer)

    unfoldable pub quarantined : ℕ → String → RowError → Dict Value → QuarantinedRow
    quarantined total column e raw = record {
      row_number = total;
      column = column;
      error = e;
      row = raw;
    }

    -- The loop over the parser's rows, with `total`, `invalid` and the sink's buffer so far. The
    -- result is what the consumer sees, and the buffer once the consumer has seen it all.
    unfoldable pub quarantine_from :
        Stream (Dict Value) → ℕ → ℕ → Buffer → Stream (Dict Value) × Buffer
    unfolding finish quarantined
    quarantine_from end total invalid buffer = finish total invalid buffer
    quarantine_from (raise e) total invalid buffer = (raise e, buffer)
    quarantine_from (yield raw rows) total invalid buffer = elim (attempt post columns raw) [
      | ok t ↦
          let (seen, left) = quarantine_from rows (total + 1) invalid buffer in (yield t seen, left)
      | err uncaught ↦ (raise (unexpected "OverflowError"), buffer)
      | err (caught e) ↦ elim (offending_column raw columns) [
        | none ↦ (raise (unexpected "OverflowError"), buffer)
        | some column ↦
            quarantine_from rows (total + 1) (invalid + 1)
              (buffer ++ quarantined (total + 1) column e raw ∷ [])
      ]
    ]

    unfoldable pub quarantining_rows : Stream (Dict Value) → Stream (Dict Value) × Buffer
    unfolding quarantine_from
    quarantining_rows rows = quarantine_from rows 0 0 []
