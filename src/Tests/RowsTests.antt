-- ===== src/Tests/RowsTests.antt =====
-- The theorems on rows and on the quarantine, at a File of two columns.
use filedge.Base.{String, ◌≡◌, ◌↔◌, refl, true, some, List, [], ◌∷◌, length, all}
use filedge.Base.Dict
use filedge.Base.Dict.{Dict}
use filedge.Base.Result.{Result, ok}
use filedge.Rows.Columns.{ColumnMapping, coerce_value}
use filedge.Rows.Transform.{cell, transform_from, transform_row}
use filedge.Rows.Validate.{ValidationResult, validate_file, loads, validate_file-loads}
use filedge.Quarantine.Processor.{QuarantineConfig, attempt, post_attempt}
use filedge.Quarantine.Partition.{Converts, Quarantines, quarantining_rows-from_list}
use filedge.Tests.Data.{Value, word, amount, small_python, name_column, units_column}

abbrev columns : List ColumnMapping
columns = name_column ∷ units_column ∷ []

abbrev raw_row : Dict Value
raw_row = ("Name", word "ann") ∷ ("Units", word "7") ∷ []

-- Its name is empty.
abbrev bad_row : Dict Value
bad_row = ("Name", word "") ∷ ("Units", word "8") ∷ []

abbrev loaded_row : Dict Value
loaded_row = ("name", word "ann") ∷ ("units", amount 7) ∷ []

transformed : transform_row small_python raw_row columns ≡ ok loaded_row
unfolding transform_row transform_from cell coerce_value Dict.lookup Dict.insert
transformed = refl

abbrev raw_rows : List (Dict Value)
raw_rows = raw_row ∷ bad_row ∷ raw_row ∷ []

validate_file-loads_example :
    (((r : ValidationResult) × (validate_file small_python raw_rows columns ≡ ok r)
        × (r.failures ≡ []))
      ↔ (all (loads small_python columns) raw_rows ≡ true))
    × ((r : ValidationResult)
        → validate_file small_python raw_rows columns ≡ ok r
        → r.rows_checked ≡ length raw_rows)
validate_file-loads_example = validate_file-loads small_python raw_rows columns

-- A third of the rows may be invalid, and at most two of them.
abbrev lenient : QuarantineConfig small_python
lenient = record { dir = "quarantine"; max_invalid_fraction = some 40; max_invalid_rows = some 2 }

abbrev as_is : Dict Value → Result String (Dict Value)
as_is row = ok row

converts : Converts small_python as_is columns lenient raw_rows
unfolding attempt post_attempt transform_row transform_from cell coerce_value Dict.lookup
    Dict.insert
converts = (λ e. cc, (λ e. cc, (λ e. cc, tt)))

quarantining_rows-from_list_example : Quarantines small_python as_is columns lenient raw_rows
quarantining_rows-from_list_example =
    quarantining_rows-from_list small_python as_is columns lenient raw_rows converts
