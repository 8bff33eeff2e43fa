-- ===== src/Tests/SchemaTests.antt =====
-- The theorem on schema mismatches, at a table that lacks a column.
use filedge.Base.{String, ◌≡◌, ◌↔◌, refl, List, [], ◌∷◌}
use filedge.Base.Dict
use filedge.Base.Dict.{Dict}
use filedge.Schema.Columns.{ExpectedColumn, expected_by_name, existing_by_name, schema_mismatches}
use filedge.Schema.Agreement.{schema_mismatches-agree}

abbrev in_order : List String → List String
in_order names = names

abbrev as_written : String → String
as_written t = t

abbrev aliases : Dict String
aliases = ("INT", "INTEGER") ∷ []

abbrev existing : Dict String
existing = ("units", "INT") ∷ []

abbrev expected : List ExpectedColumn
expected =
    record { name = "units"; type = "INTEGER" } ∷ record { name = "name"; type = "TEXT" } ∷ []

schema_mismatches-agree_example :
    (schema_mismatches in_order as_written aliases existing expected ≡ []) ↔ (
      (name : String)
      → Dict.lookup name (existing_by_name in_order as_written aliases existing [])
        ≡ Dict.lookup name (expected_by_name in_order as_written aliases expected []))
schema_mismatches-agree_example =
    schema_mismatches-agree in_order as_written aliases (λ names k. refl) existing expected
