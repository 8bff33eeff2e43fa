-- ===== src/Rows/Columns.antt =====
-- Column types and their coercions (filedge/column_types.py), and the column mappings of a
-- Pipeline Config (filedge/config.py).
use filedge.Base.{ℕ, String, Bool, true, false, Option, none, some, ◌||◌, ◌==◌, if◌then◌else◌}
use mathlib.Core.Option
use filedge.Base.Result.{Result, ok, err}
use filedge.Rows.Python.{Python, CoerceError, refused}

pub data ColumnType : Type 0 where
  string integer float_number date timestamp boolean_value : ColumnType

-- `validate_column_type`: the names of the types, and `none` for the ValueError.
unfoldable pub column_type : String → Option ColumnType
column_type name =
    if name == "string"
    then some string
    else if name == "integer"
    then some integer
    else if name == "float"
    then some float_number
    else if name == "date"
    then some date
    else if name == "timestamp"
    then some timestamp
    else if name == "boolean"
    then some boolean_value
    else none

-- `encrypt:` and `hash:` blocks
pub record KeyConfig : Type 0 where
  pub algorithm : String
  pub key : String

pub record ColumnMapping : Type 0 where
  pub source : String
  pub dest : String
  pub type : ColumnType
  pub required : Bool
  pub encrypt : Option KeyConfig
  pub hash : Option KeyConfig
  pub start : Option ℕ
  pub width : Option ℕ

module _ (py : Python) where
  open py use {
    Value, boolean, text, as_boolean, str, int, float, iso_date, iso_datetime, strip_lower,
  }

  boolean_word : String → Option Bool
  boolean_word word =
      if word == "true" || word == "1" || word == "yes"
      then some true
      else if word == "false" || word == "0" || word == "no"
      then some false
      else none

  unfoldable pub coerce_boolean : Value → Option Bool
  unfolding boolean_word
  coerce_boolean v = elim (as_boolean v) [
    | some b ↦ some b
    | none ↦ boolean_word (strip_lower (str v))
  ]

  or_refused : Option Value → Result CoerceError Value
  or_refused none = err refused
  or_refused (some v) = ok v

  unfoldable pub coerce_value : ColumnType → Value → Result CoerceError Value
  unfolding coerce_boolean or_refused
  coerce_value string v = ok (text (str v))
  coerce_value integer v = int v
  coerce_value float_number v = float v
  coerce_value boolean_value v = or_refused (Option.map boolean (coerce_boolean v))
  coerce_value date v = or_refused (Option.map text (iso_date (str v)))
  coerce_value timestamp v = or_refused (Option.map text (iso_datetime (str v)))
