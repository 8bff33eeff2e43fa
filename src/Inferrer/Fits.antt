-- ===== src/Inferrer/Fits.antt =====
-- The tests of filedge/inferrer.py against the coercions of filedge/column_types.py.
use filedge.Base.{
  ℕ, String, ◌≡◌, refl, ap, ◌∙◌, Bool, true, false, not, Option, none, List, [], ◌∷◌, if◌then◌else◌,
  eqb, any, all, All, contains, map, arith, eq_iff,
}
use filedge.Base.Result.{is_ok}
use filedge.Rows.Python.{Python}
use filedge.Rows.Columns.{
  ColumnType, string, integer, float_number, date, timestamp, boolean_value, coerce_value,
}
use filedge.Inferrer.Infer.{
  try_int, try_float, date_format, Sampling, Confidence, high, low, Note, is_text, text_of,
  infer_from_formats, infer_from_texts, infer_type,
}

module _ (py : Python) (sampling : Sampling py) where
  open py use {Value}
  open sampling use {kind, lower}

  -- The coercion to the type succeeds.
  abbrev pub Coerces : ColumnType → Value → Type 0
  Coerces type v = is_ok (coerce_value py type v) ≡ true

  -- The types that the inference tests with the conversion itself.
  abbrev pub is_converted : ColumnType → Bool
  is_converted date = false
  is_converted timestamp = false
  is_converted type = true

  all-All :
      {A : Type 0} (p : A → Bool) (P : A → Type 0) (xs : List A)
      → ((x : A) → p x ≡ true → P x)
      → all p xs ≡ true
      → All P xs
  all-All p P [] each h = tt
  all-All p P (x ∷ xs) each h = ground (arith, each x, all-All p P xs each)

  string-Coerces : (values : List Value) → All (Coerces string) values
  unfolding coerce_value
  string-Coerces [] = tt
  string-Coerces (v ∷ values) = (refl, string-Coerces values)

  -- What the type of a result promises of the values.
  abbrev Fits : List Value → ColumnType × Confidence × List Note → Type 0
  Fits values result = is_converted result.0 ≡ true → All (Coerces result.0) values

  infer_from_formats-Fits :
      (confidence : Confidence) (values : List Value) (formats : List (Option String))
      → Fits values (infer_from_formats py sampling confidence values formats)
  unfolding infer_from_formats
  infer_from_formats-Fits confidence values formats h = ground (arith, string-Coerces values)

  abbrev pub words : List String
  words = "true" ∷ "false" ∷ "yes" ∷ "no" ∷ []

  module _
      (as_boolean_of_text : (v : Value)
        → is_text py sampling (kind v) ≡ true
        → py.as_boolean v ≡ none)
      (str_of_text : (v : Value)
        → is_text py sampling (kind v) ≡ true
        → py.str v ≡ text_of py sampling (kind v))
      (strip_of_word : (s : String)
        → contains (lower s) words ≡ true
        → py.strip_lower s ≡ lower s) where
    word-Coerces :
        (v : Value)
        → is_text py sampling (kind v) ≡ true
        → contains (lower (text_of py sampling (kind v))) words ≡ true
        → Coerces boolean_value v
    unfolding coerce_value
    word-Coerces v text word =
        let lowered : py.strip_lower (py.str v) ≡ lower (text_of py sampling (kind v)) =
          ap py.strip_lower (str_of_text v text)
          ∙ strip_of_word (text_of py sampling (kind v)) word in
        let known : contains (py.strip_lower (py.str v)) words ≡ true =
          ap (λ w. contains w words) lowered ∙ word in
        let w = py.strip_lower (py.str v) in
        ground (
          arith,
          as_boolean_of_text v text,
          eq_iff "true" w,
          eq_iff "false" w,
          eq_iff "yes" w,
          eq_iff "no" w,
          eq_iff w "true",
          eq_iff w "false",
          eq_iff w "yes",
          eq_iff w "no",
        )

    words-Coerce :
        (set : List String) (values : List Value)
        → ((s : String) → contains s set ≡ true → contains s words ≡ true)
        → any (λ k. not (is_text py sampling k)) (map kind values) ≡ false
        → all (λ s. contains (lower s) set) (map (text_of py sampling) (map kind values)) ≡ true
        → All (Coerces boolean_value) values
    words-Coerce set [] within texts h = tt
    words-Coerce set (v ∷ values) within texts h = ground (
      arith,
      word-Coerces v,
      within (lower (text_of py sampling (kind v))),
      words-Coerce set values within,
    )

    infer_from_texts-Fits :
        (confidence : Confidence) (values : List Value)
        → any (λ k. not (is_text py sampling k)) (map kind values) ≡ false
        → Fits values (
            infer_from_texts py sampling confidence values
              (map (text_of py sampling) (map kind values)))
    unfolding infer_from_texts coerce_value
    infer_from_texts-Fits confidence values texts h = ground (
      arith,
      all-All (try_int py sampling) (Coerces integer) values (λ v h. h),
      all-All (try_float py sampling) (Coerces float_number) values (λ v h. h),
      words-Coerce ("true" ∷ "false" ∷ []) values (λ s. λ k. ground arith) texts,
      words-Coerce ("yes" ∷ "no" ∷ []) values (λ s. λ k. ground arith) texts,
      infer_from_formats-Fits confidence values
          (map (date_format py sampling) (map (text_of py sampling) (map kind values))),
    )

    pub infer_type-Fits :
        (null_count : ℕ) (values : List Value)
        → Fits values (infer_type py sampling null_count values)
    unfolding infer_type
    infer_type-Fits null_count [] h = tt
    infer_type-Fits null_count (v ∷ values) h = ground (
      arith,
      string-Coerces (v ∷ values),
      infer_from_texts-Fits (if eqb null_count 0 then high else low) (v ∷ values),
    )
