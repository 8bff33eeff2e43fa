-- ===== src/Tests/FormatTests.antt =====
-- The theorems on fixed-width Files and on quarantine sidecars, at small ones.
use filedge.Base.{
  ℕ, String, ◌≡◌, ◌≢◌, ◌↔◌, refl, Bool, false, none, some, List, [], ◌∷◌, All, map, length, ltb,
  eqb, ◌==◌, arith, if◌then◌else◌,
}
use filedge.Base.Result.{ok}
use filedge.Base.Json.{Json, number, text, object, Fields, field}
use filedge.Base.Json
use filedge.Quarantine.Processor.{RowError, crypto_error, Buffer}
use filedge.Quarantine.Sidecar.{Texts, row_fields, sidecar_record, finalize, redrop_quarantine}
use filedge.Quarantine.Redrop.{line_for, source_rows, Reads, redrop_quarantine-finalize}
use filedge.FixedWidth.Layout.{LayoutColumn, validate_layout, required_line_length, slice}
use filedge.FixedWidth.Disjoint.{IsDisjoint, validate_layout-IsDisjoint}
use filedge.FixedWidth.Slices.{StandsAt, required-slices}
use filedge.Tests.Data.{Value, word, small_python}

abbrev layout : List LayoutColumn
layout =
    record { name = "id"; start = 1; width = 2 }
    ∷ record { name = "kind"; start = 4; width = 1 }
    ∷ []

-- Characters are numbers: 0 is a space, 9 ends a line.
abbrev blank_char : ℕ → Bool
blank_char n = eqb n 0

abbrev line_end : ℕ → Bool
line_end n = eqb n 9

abbrev full_line : List ℕ
full_line = 5 ∷ 0 ∷ 3 ∷ 7 ∷ 2 ∷ []

validate_layout-IsDisjoint_example : (validate_layout layout ≡ ok tt) ↔ IsDisjoint layout
validate_layout-IsDisjoint_example = validate_layout-IsDisjoint layout

long_enough : ltb (length full_line) (required_line_length layout) ≡ false
unfolding required_line_length
long_enough = refl

required-slices_example :
    All
      (λ c. StandsAt blank_char line_end c full_line (slice blank_char line_end c full_line))
      layout
required-slices_example =
    required-slices blank_char line_end layout full_line
      ((omega arith, omega arith), ((omega arith, omega arith), tt)) long_enough

abbrev as_text : Value → Json
as_text v = text "v"

abbrev told : RowError → String
told e = "bad"

abbrev buffer : Buffer small_python
buffer =
    record {
      row_number = 2;
      column = "Name";
      error = crypto_error "KeyError";
      row = ("Name", word "") ∷ ("Units", word "8") ∷ [];
    }
    ∷ []

-- The object of the one line of the sidecar.
abbrev one_record : Json
one_record = object (
    field "row_number" (number "2") (
      field "column" (text "Name") (
        field "error" (text "bad") (
          field "row" (object (field "Name" (text "v") (field "Units" (text "v") Json.end)))
            Json.end))))

-- A JSON library that knows this object.
abbrev small_json : Texts
small_json = record {
  dumps = λ j. "{}";
  loads = λ s. some one_record;
  strip = λ s. if s == "{}\n" then "{}" else s;
  decimal = λ n. "2";
}

not_empty : small_json.dumps one_record ≢ ""
not_empty e = cc e

reads : All (λ q. Reads small_json small_python as_text told q) buffer
unfolding sidecar_record row_fields
reads = (record { loads_dumps = refl; strip_line = refl; never_empty = not_empty }, tt)

redrop_quarantine-finalize_example :
    redrop_quarantine small_json (finalize small_json small_python as_text told buffer) ≡ (
      map
          (line_for small_json small_python as_text told)
          (source_rows small_json small_python as_text told buffer),
      1,
      none,
    )
redrop_quarantine-finalize_example =
    redrop_quarantine-finalize small_json small_python as_text told buffer reads
