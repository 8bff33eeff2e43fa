-- ===== src/Tests/InferrerTests.antt =====
-- A column of Boolean words, with a cell that is empty.
use filedge.Base.{◌≡◌, refl, true, false, none, List, [], ◌∷◌, All}
use filedge.Base.Dict
use filedge.Rows.Columns.{ColumnMapping, boolean_value}
use filedge.Inferrer.Infer.{
  Sampling, Kind, text_kind, other_kind, low, infer_schema, infer_column, is_text, text_of,
}
use filedge.Inferrer.Accepted.{Transforms, infer_column-Transforms}
use filedge.Tests.Data.{Value, nothing, word, flag, amount, small_python}

abbrev kind : Value → Kind
kind (word s) = text_kind s
kind _ = other_kind

abbrev sampling : Sampling small_python
sampling = record { kind = kind; lower = λ s. s; matches = λ pattern s. false; sorted_set = λ l. l }

abbrev active : ColumnMapping
active = record {
  source = "active";
  dest = "active";
  type = boolean_value;
  required = false;
  encrypt = none;
  hash = none;
  start = none;
  width = none;
}

abbrev values : List Value
values = word "true" ∷ nothing ∷ word "false" ∷ []

inferred :
    infer_schema small_python sampling 2
      ((("active", word "true") ∷ []) ∷ (("active", nothing) ∷ []) ∷ (("late", nothing) ∷ []) ∷ [])
    ≡ record {
      name = "active";
      inferred_type = boolean_value;
      confidence = low;
      null_count = 1;
      total_seen = 2;
      notes = [];
    }
      ∷ []
unfolding infer_schema Dict.insert Dict.lookup
inferred = refl

no_flags :
    (v : Value) → is_text small_python sampling (kind v) ≡ true → small_python.as_boolean v ≡ none
no_flags (word s) h = refl
no_flags nothing h = refl
no_flags (amount n) h = refl
no_flags (flag b) h = cc

own_text :
    (v : Value)
    → is_text small_python sampling (kind v) ≡ true
    → small_python.str v ≡ text_of small_python sampling (kind v)
own_text (word s) h = refl
own_text nothing h = cc
own_text (amount n) h = cc
own_text (flag b) h = cc

is_inferred :
    boolean_value ≡ (infer_column small_python sampling 3 ("active", values)).inferred_type
unfolding infer_column
is_inferred = refl

infer_column-Transforms_example : All (Transforms small_python sampling active) values
infer_column-Transforms_example =
    infer_column-Transforms small_python sampling no_flags own_text (λ s h. refl) 3 "active" values
      active refl is_inferred refl
