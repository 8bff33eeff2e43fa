-- ===== src/Quarantine/Sidecar.antt =====
-- `QuarantineSink.finalize` of filedge/quarantine/sink.py, the lines of the sidecar that it writes,
-- and filedge/quarantine/redrop.py, which reads them back. `json.dumps`, `json.loads`, `str.strip`
-- and the text of an int are parameters.
use filedge.Base.{
  ℕ, String, ◌<>◌, ◌++◌, ◌≡◌, ◌≢◌, Option, none, some, List, [], ◌∷◌, length, if◌then◌else◌, ◌==◌,
}
use filedge.Base.Dict.{Dict}
use filedge.Base.Json.{Json, number, text, object, Fields, end, field, get}
use filedge.Rows.Python.{Python}
use filedge.Quarantine.Stream.{LoadError, unexpected, Stream, raise, yield}
use filedge.Quarantine.Processor.{RowError, QuarantinedRow, Buffer}

pub record Texts : Type 0 where
  pub dumps : Json → String
  -- `none` is a JSONDecodeError
  pub loads : String → Option Json
  pub strip : String → String
  pub decimal : ℕ → String

-- A value that was written reads back: its text is one line, and stripping the line's end gives it.
pub record IsRoundTrip (t : Texts) (j : Json) : Type 0 where
  pub loads_dumps : t.loads (t.dumps j) ≡ some j
  pub strip_line : t.strip (t.dumps j <> "\n") ≡ t.dumps j
  pub never_empty : t.dumps j ≢ ""

module _ (t : Texts) where
  open t use {dumps, loads, strip, decimal}

  -- `json.dumps(…) + "\n"`
  abbrev pub line_of : Json → String
  line_of j = dumps j <> "\n"

  module _ (py : Python) (as_json : py.Value → Json) (message : RowError → String) where
    -- The row as a JSON object.
    unfoldable pub row_fields : Dict py.Value → Fields
    row_fields [] = end
    row_fields ((k, v) ∷ row) = field k (as_json v) (row_fields row)

    unfoldable pub sidecar_record : QuarantinedRow py → Fields
    unfolding row_fields
    sidecar_record q = field "row_number" (number (decimal q.row_number)) (
        field "column" (text q.column)
          (field "error" (text (message q.error)) (field "row" (object (row_fields q.row)) end)))

    -- The lines of the sidecar.
    unfoldable pub finalize : Buffer py → List String
    unfolding sidecar_record
    finalize [] = []
    finalize (q ∷ buffer) = line_of (object (sidecar_record q)) ∷ finalize buffer

  -- The `row` of a line's value; each error is a MalformedSidecarError.
  unfoldable pub row_object : Option Json → Option Fields
  row_object (some (object row)) = some row
  row_object _ = none

  unfoldable pub row_of : Option Json → Option Fields
  unfolding row_object
  row_of (some (object members)) = row_object (get "row" members)
  row_of _ = none

  unfoldable pub read_quarantined_rows : List String → Stream Fields
  unfolding row_of
  read_quarantined_rows [] = Stream.end
  read_quarantined_rows (raw_line ∷ lines) =
      let rest = read_quarantined_rows lines in
      let line = strip raw_line in
      if line == "" then rest else elim (row_of (loads line)) [
        | none ↦ raise (unexpected "MalformedSidecarError")
        | some row ↦ yield row rest
      ]

  -- What `out` holds and the count, and the error if there is one, from what was written so far.
  unfoldable pub redrop_from : Stream Fields → List String → List String × ℕ × Option LoadError
  redrop_from Stream.end out = (out, length out, none)
  redrop_from (raise e) out = (out, length out, some e)
  redrop_from (yield row rows) out = redrop_from rows (out ++ line_of (object row) ∷ [])

  unfoldable pub redrop_quarantine : List String → List String × ℕ × Option LoadError
  unfolding redrop_from read_quarantined_rows
  redrop_quarantine sidecar = redrop_from (read_quarantined_rows sidecar) []
