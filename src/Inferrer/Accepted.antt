-- ===== src/Inferrer/Accepted.antt =====
-- An inferred column and `transform_row` on the sampled values.
use filedge.Base.{
  ℕ, String, ◌≡◌, sym, ap, ◌∙◌, subst, true, false, not, none, some, List, [], ◌∷◌, select, All,
  arith, Bool-cases, ◌⊎◌, inl, inr, length, contains,
}
use filedge.Base.Result.{ok, is_ok, Result-cases}
use filedge.Rows.Python.{Python}
use filedge.Rows.Columns.{ColumnMapping, coerce_value}
use filedge.Rows.Transform.{cell}
use filedge.Inferrer.Infer.{Sampling, is_null_value, is_text, text_of, infer_column}
use filedge.Inferrer.Fits.{Coerces, is_converted, words, infer_type-Fits}

module _ (py : Python) (sampling : Sampling py) where
  open py use {Value, null}
  open sampling use {kind, lower}

  -- `transform_row` has a value for the cell.
  abbrev pub Transforms : ColumnMapping → Value → Type 0
  Transforms m v = (out : Value) × (cell py (some v) m ≡ ok out)

  cell-Transforms :
      (m : ColumnMapping) (v : Value)
      → m.required ≡ false
      → (is_null_value py sampling v ≡ true) ⊎ Coerces py sampling m.type v
      → Transforms m v
  unfolding cell
  cell-Transforms m v optional_column (inl empty) = (null, ground arith)
  cell-Transforms m v optional_column (inr coerces) =
      elim (Result-cases (coerce_value py m.type v)) [
        | inr (e, fails) ↦ cc (sym coerces ∙ ap is_ok fails)
        | inl (x, same) ↦ elim (Bool-cases (is_null_value py sampling v)) [
          | inl empty ↦ (null, ground arith)
          | inr there ↦ (x, ground arith)
        ]
      ]

  select-Transforms :
      (m : ColumnMapping) (values : List Value)
      → m.required ≡ false
      → All (Coerces py sampling m.type) (select (λ v. not (is_null_value py sampling v)) values)
      → All (Transforms m) values
  select-Transforms m [] optional_column coerces = tt
  select-Transforms m (v ∷ values) optional_column coerces =
      elim (Bool-cases (is_null_value py sampling v)) [
        | inl empty ↦ (
          cell-Transforms m v optional_column (inl empty),
          select-Transforms m values optional_column (ground arith),
        )
        | inr there ↦ (
          cell-Transforms m v optional_column (inr (ground arith)),
          select-Transforms m values optional_column (ground arith),
        )
      ]

  -- The type that the Inferrer finds for sampled values, unless it is date or timestamp, is one
  -- that transform_row coerces each of the sampled values to: an optional column mapping with the
  -- inferred type has a value for every one of them, empty ones included. It is assumed that a str
  -- is not a bool, that str() of a str is the str itself, and that strip() leaves the words true,
  -- false, yes and no as they are.
  pub infer_column-Transforms :
      (as_boolean_of_text : (v : Value)
        → is_text py sampling (kind v) ≡ true
        → py.as_boolean v ≡ none)
      (str_of_text : (v : Value)
        → is_text py sampling (kind v) ≡ true
        → py.str v ≡ text_of py sampling (kind v))
      (strip_of_word : (s : String)
        → contains (lower s) (words py sampling) ≡ true
        → py.strip_lower s ≡ lower s)
      (total_seen : ℕ) (name : String) (values : List Value) (m : ColumnMapping)
      → m.required ≡ false
      → m.type ≡ (infer_column py sampling total_seen (name, values)).inferred_type
      → is_converted py sampling m.type ≡ true
      → All (Transforms m) values
  unfolding infer_column
  infer_column-Transforms as_boolean_of_text str_of_text strip_of_word total_seen name values m
        optional_column same converted =
      let fits =
        infer_type-Fits py sampling as_boolean_of_text str_of_text strip_of_word
          (length (select (is_null_value py sampling) values))
          (select (λ v. not (is_null_value py sampling v)) values)
          (ap (is_converted py sampling) (sym same) ∙ converted) in
      select-Transforms m values optional_column (
        subst
          (λ t.
            All (Coerces py sampling t) (select (λ v. not (is_null_value py sampling v)) values))
          (sym same) fits)
