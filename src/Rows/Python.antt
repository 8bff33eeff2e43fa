-- ===== src/Rows/Python.antt =====
-- What filedge uses of Python's values and standard library: a parameter of the model.
use filedge.Base.{ℕ, String, Bool, Option}
use filedge.Base.Result.{Result}

-- A ValueError or a TypeError; and an OverflowError, as of int(inf) or of float() of a huge integer.
pub data CoerceError : Type 0 where
  refused overflowed : CoerceError

pub record Python : Type 1 where
  -- A value of a cell.
  pub Value : Type 0
  -- None, and `v is None`
  pub null : Value
  pub is_null : Value → Bool
  -- A str and a bool as values, and `isinstance(v, bool)`
  pub text : String → Value
  pub boolean : Bool → Value
  pub as_boolean : Value → Option Bool
  -- `v == ""`
  pub is_empty_text : Value → Bool
  -- `str(v)`, `int(v)`, `float(v)`
  pub str : Value → String
  pub int : Value → Result CoerceError Value
  pub float : Value → Result CoerceError Value
  -- `date.fromisoformat(s).isoformat()`, and the same for datetime; `none` is a ValueError
  pub iso_date : String → Option String
  pub iso_datetime : String → Option String
  -- `s.strip().lower()`
  pub strip_lower : String → String
  -- A float, and `invalid / total > limit` for a positive `total`
  pub Float : Type 0
  pub ratio_exceeds : ℕ → ℕ → Float → Bool
