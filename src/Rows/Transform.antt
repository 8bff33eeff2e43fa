-- ===== src/Rows/Transform.antt =====
-- `transform_row` of filedge/transform.py: one source row through the column mappings.
use filedge.Base.{String, Option, none, some, List, [], ◌∷◌, ◌||◌, if◌then◌else◌}
use filedge.Base.Dict
use filedge.Base.Dict.{Dict}
use filedge.Base.Result.{Result, ok, err, ◌>>=◌}
use filedge.Rows.Python.{Python, CoerceError, refused, overflowed}
use filedge.Rows.Columns.{ColumnType, ColumnMapping, coerce_value}

-- `TransformError`, one constructor for each message.
pub data TransformError : Type 0 where
  missing_required : String → TransformError
  empty_required : String → TransformError
  cannot_coerce : String → ColumnType → TransformError

-- What `transform_row` raises: a TransformError, or the OverflowError of a coercion, which it does
-- not catch.
pub data RowException : Type 0 where
  rejected : TransformError → RowException
  overflow : RowException

module _ (py : Python) where
  open py use {Value, null, is_null, is_empty_text}

  absent_cell : ColumnMapping → TransformError → Result RowException Value
  absent_cell col error = if col.required then err (rejected error) else ok null

  coerced_cell : ColumnMapping → Result CoerceError Value → Result RowException Value
  coerced_cell col (err refused) = err (rejected (cannot_coerce col.source col.type))
  coerced_cell col (err overflowed) = err overflow
  coerced_cell col (ok v) = ok v

  -- The value that the body of the loop stores for one column.
  unfoldable pub cell : Option Value → ColumnMapping → Result RowException Value
  unfolding absent_cell coerced_cell
  cell none col = absent_cell col (missing_required col.source)
  cell (some raw) col =
      if is_null raw || is_empty_text raw
      then absent_cell col (empty_required col.source)
      else coerced_cell col (coerce_value py col.type raw)

  -- The loop, with the `result` so far.
  unfoldable pub transform_from :
      Dict Value → List ColumnMapping → Dict Value → Result RowException (Dict Value)
  transform_from row [] result = ok result
  transform_from row (col ∷ columns) result = cell (Dict.lookup col.source row) col >>= λ v.
      transform_from row columns (Dict.insert col.dest v result)

  unfoldable pub transform_row : Dict Value → List ColumnMapping → Result RowException (Dict Value)
  unfolding transform_from
  transform_row row columns = transform_from row columns []
