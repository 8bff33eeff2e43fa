-- ===== src/Inferrer/Infer.antt =====
-- `infer_schema` of filedge/inferrer.py, and what it uses of filedge/column_types.py. A note is its
-- constructor; regular expressions and `sorted` of a set are parameters.
use filedge.Base.{
  ℕ, String, Bool, true, false, not, Option, none, some, List, [], ◌∷◌, ◌++◌, ◌==◌, ◌||◌,
  if◌then◌else◌, eqb, length, take, select, any, all, contains, map, is_none,
}
use filedge.Base.Dict
use filedge.Base.Dict.{Dict}
use filedge.Base.Result.{is_ok}
use filedge.Rows.Python.{Python}
use filedge.Rows.Columns.{ColumnType, string, integer, float_number, date, timestamp, boolean_value}

pub data Confidence : Type 0 where
  high low ambiguous : Confidence

pub data Note : Type 0 where
  nested_object date_like : List String → Note
  array_value : Note
  mixed_values : (numeric total : ℕ) → Note

pub record InferredColumn : Type 0 where
  pub name : String
  pub inferred_type : ColumnType
  pub confidence : Confidence
  pub null_count : ℕ
  pub total_seen : ℕ
  pub notes : List Note

-- What `isinstance` tells of a value: a str, a dict with its keys, a list, or another one.
pub data Kind : Type 0 where
  text_kind : String → Kind
  dict_kind : List String → Kind
  list_kind other_kind : Kind

-- `kind`, `s.lower()`, `re.match` of a pattern, and `sorted` of a set.
pub record Sampling (py : Python) : Type 0 where
  pub kind : py.Value → Kind
  pub lower : String → String
  pub matches : String → String → Bool
  pub sorted_set : List String → List String

abbrev pub iso_date_format : String
iso_date_format = "YYYY-MM-DD"

module _ (py : Python) (sampling : Sampling py) where
  open py use {Value, is_null, is_empty_text, int, float}
  open sampling use {kind, lower, matches, sorted_set}

  abbrev pub is_null_value : Value → Bool
  is_null_value v = is_null v || is_empty_text v

  abbrev pub keys_of : Kind → List String
  keys_of (dict_kind keys) = keys
  keys_of k = []

  abbrev pub is_dict : Kind → Bool
  is_dict (dict_kind keys) = true
  is_dict k = false

  abbrev pub is_list : Kind → Bool
  is_list list_kind = true
  is_list k = false

  abbrev pub is_text : Kind → Bool
  is_text (text_kind s) = true
  is_text k = false

  -- The text of a str
  abbrev pub text_of : Kind → String
  text_of (text_kind s) = s
  text_of k = ""

  -- An OverflowError, which `int` and `float` of a str do not raise, would end the inference.
  abbrev pub try_int : Value → Bool
  try_int v = is_ok (int v)

  abbrev pub try_float : Value → Bool
  try_float v = is_ok (float v)

  -- `boolean_set(values) is not None`
  unfoldable pub in_boolean_set : List String → Bool
  in_boolean_set values =
      all (λ v. contains (lower v) ("true" ∷ "false" ∷ [])) values
      || all (λ v. contains (lower v) ("yes" ∷ "no" ∷ [])) values

  unfoldable pub date_format : String → Option String
  date_format value =
      if matches "^\\d{4}-\\d{2}-\\d{2}$" value
      then some iso_date_format
      else if matches "^\\d{2}/\\d{2}/\\d{4}$" value
      then some "MM/DD/YYYY"
      else if matches "^\\d{2}-\\d{2}-\\d{4}$" value
      then some "DD-MM-YYYY"
      else none

  unfoldable pub has_time : String → Bool
  has_time value = matches "^\\d{4}-\\d{2}-\\d{2}[T ]\\d{2}:\\d{2}" value

  abbrev pub is_iso : Option String → Bool
  is_iso none = false
  is_iso (some f) = f == iso_date_format

  -- The formats that are there
  abbrev pub labels : List (Option String) → List String
  labels [] = []
  labels (none ∷ formats) = labels formats
  labels (some f ∷ formats) = f ∷ labels formats

  abbrev pub numeric_count : List Value → ℕ
  numeric_count values = length (select (λ v. try_int v || try_float v) values)

  -- The type, the confidence and the notes from values that are dates at most, or text.
  unfoldable pub infer_from_formats :
      Confidence → List Value → List (Option String) → ColumnType × Confidence × List Note
  infer_from_formats confidence non_null formats =
      if all is_iso formats
      then (date, confidence, [])
      else if all (λ f. not (is_none f)) formats
      then (string, ambiguous, date_like (sorted_set (labels formats)) ∷ [])
      else if eqb (numeric_count non_null) 0
      then (string, confidence, [])
      else (string, ambiguous, mixed_values (numeric_count non_null) (length non_null) ∷ [])

  unfoldable pub infer_from_texts :
      Confidence → List Value → List String → ColumnType × Confidence × List Note
  unfolding in_boolean_set date_format has_time infer_from_formats
  infer_from_texts confidence non_null texts =
      if all try_int non_null
      then (integer, confidence, [])
      else if all try_float non_null
      then (float_number, confidence, [])
      else if in_boolean_set texts
      then (boolean_value, confidence, [])
      else if all has_time texts
      then (timestamp, confidence, [])
      else infer_from_formats confidence non_null (map date_format texts)

  abbrev pub all_keys : List Kind → List String
  all_keys [] = []
  all_keys (k ∷ kinds) = keys_of k ++ all_keys kinds

  unfoldable pub infer_type : ℕ → List Value → ColumnType × Confidence × List Note
  unfolding infer_from_texts
  infer_type null_count [] = (string, ambiguous, [])
  infer_type null_count (v ∷ values) =
      let non_null = v ∷ values in
      let kinds = map kind non_null in
      if any is_dict kinds
      then (string, ambiguous, nested_object (sorted_set (all_keys kinds)) ∷ [])
      else if any is_list kinds
      then (string, ambiguous, array_value ∷ [])
      else if any (λ k. not (is_text k)) kinds
      then (string, ambiguous, [])
      else infer_from_texts (if eqb null_count 0 then high else low) non_null (map text_of kinds)

  -- The body of the loop over `col_values`.
  unfoldable pub infer_column : ℕ → String × List Value → InferredColumn
  unfolding infer_type
  infer_column total_seen (name, values) =
      let null_count = length (select is_null_value values) in
      let (type, confidence, notes) =
        infer_type null_count (select (λ v. not (is_null_value v)) values) in
      record {
        name = name;
        inferred_type = type;
        confidence = confidence;
        null_count = null_count;
        total_seen = total_seen;
        notes = notes;
      }

  abbrev pub values_at : Option (List Value) → List Value
  values_at none = []
  values_at (some values) = values

  -- `for k, v in row.items()`
  unfoldable pub add_row : Dict Value → Dict (List Value) → Dict (List Value)
  unfolding Dict.insert Dict.lookup
  add_row [] col_values = col_values
  add_row ((k, v) ∷ row) col_values =
      add_row row (Dict.insert k (values_at (Dict.lookup k col_values) ++ v ∷ []) col_values)

  -- `for row in islice(rows, sample_rows)`
  unfoldable pub add_rows : List (Dict Value) → Dict (List Value) → Dict (List Value)
  unfolding add_row
  add_rows [] col_values = col_values
  add_rows (row ∷ rows) col_values = add_rows rows (add_row row col_values)

  unfoldable pub infer_schema : ℕ → List (Dict Value) → List InferredColumn
  unfolding add_rows infer_column
  infer_schema sample_rows rows =
      let sample = take sample_rows rows in map (infer_column (length sample)) (add_rows sample [])
