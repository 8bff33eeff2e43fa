-- ===== src/Schema/Columns.antt =====
-- filedge/schema.py. `" ".join(str(t).strip().upper().split())` and `sorted` are parameters.
use filedge.Base.{String, Option, none, some, List, [], ◌∷◌, ◌++◌, ◌==◌, if◌then◌else◌}
use filedge.Base.Dict
use filedge.Base.Dict.{Dict}
use filedge.Rows.Columns.{
  ColumnType, string, integer, float_number, date, timestamp, boolean_value, ColumnMapping,
}

pub record ExpectedColumn : Type 0 where
  pub name : String
  pub type : String

abbrev type_name : ColumnType → String
type_name string = "string"
type_name integer = "integer"
type_name float_number = "float"
type_name date = "date"
type_name timestamp = "timestamp"
type_name boolean_value = "boolean"

or_default : String → Option String → String
or_default default none = default
or_default default (some t) = t

-- `type_map.get(col.type, type_map["string"])`, given `type_map["string"]`
columns_with : Dict String → String → List ColumnMapping → List ExpectedColumn
unfolding or_default
columns_with type_map text_type [] = []
columns_with type_map text_type (c ∷ columns) =
    record { name = c.dest; type = or_default text_type (Dict.lookup (type_name c.type) type_map) }
    ∷ columns_with type_map text_type columns

-- `none` is a KeyError: the default is looked up for every column, so only a config without columns
-- does without it.
unfoldable pub configured_columns : List ColumnMapping → Dict String → Option (List ExpectedColumn)
unfolding columns_with
configured_columns [] type_map = some []
configured_columns (c ∷ columns) type_map = elim (Dict.lookup "string" type_map) [
  | none ↦ none
  | some text_type ↦ some (columns_with type_map text_type (c ∷ columns))
]

unfoldable pub provenance_columns : Dict String → String → Option (List ExpectedColumn)
provenance_columns type_map ingested_at_type = elim (Dict.lookup "string" type_map) [
  | none ↦ none
  | some text_type ↦ some (
      record { name = "_source_file_hash"; type = text_type }
      ∷ record { name = "_ingested_at"; type = ingested_at_type }
      ∷ [])
]

unfoldable pub expected_columns :
    List ColumnMapping → Dict String → String → String → Option (List ExpectedColumn)
unfolding configured_columns provenance_columns
expected_columns columns type_map id_type ingested_at_type =
    elim (configured_columns columns type_map) [
      | none ↦ none
      | some configured ↦ elim (provenance_columns type_map ingested_at_type) [
        | none ↦ none
        | some provenance ↦
            some (record { name = "_id"; type = id_type } ∷ configured ++ provenance)
      ]
    ]

-- The three messages.
pub data Mismatch : Type 0 where
  missing : String → Mismatch
  wrong_type : (name existing expected : String) → Mismatch
  undeclared : String → Mismatch

module _ (sorted : List String → List String) (one_spaced : String → String)
    (aliases : Dict String) where
  unfoldable pub normalize_type : String → String
  unfolding or_default
  normalize_type t = or_default (one_spaced t) (Dict.lookup (one_spaced t) aliases)

  -- Of two columns with one name the last one counts.
  unfoldable pub expected_by_name : List ExpectedColumn → Dict String → Dict String
  unfolding normalize_type
  expected_by_name [] table = table
  expected_by_name (c ∷ columns) table =
      expected_by_name columns (Dict.insert c.name (normalize_type c.type) table)

  unfoldable pub existing_by_name : Dict String → Dict String → Dict String
  unfolding normalize_type
  existing_by_name [] table = table
  existing_by_name ((name, t) ∷ existing) table =
      existing_by_name existing (Dict.insert name (normalize_type t) table)

  -- The body of the first loop, for the two types of a name; the name is a key of the second dict.
  unfoldable pub compare_types : String → Option String → Option String → List Mismatch
  compare_types name none expected = missing name ∷ []
  compare_types name (some t) none = []
  compare_types name (some t) (some u) = if t == u then [] else wrong_type name t u ∷ []

  unfoldable pub declared_mismatches : Dict String → Dict String → List String → List Mismatch
  unfolding compare_types
  declared_mismatches existing expected [] = []
  declared_mismatches existing expected (name ∷ names) =
      compare_types name (Dict.lookup name existing) (Dict.lookup name expected)
      ++ declared_mismatches existing expected names

  -- The body of the second loop.
  unfoldable pub compare_declared : String → Option String → List Mismatch
  compare_declared name none = undeclared name ∷ []
  compare_declared name (some t) = []

  unfoldable pub undeclared_mismatches : Dict String → List String → List Mismatch
  unfolding compare_declared
  undeclared_mismatches expected [] = []
  undeclared_mismatches expected (name ∷ names) =
      compare_declared name (Dict.lookup name expected) ++ undeclared_mismatches expected names

  unfoldable pub schema_mismatches : Dict String → List ExpectedColumn → List Mismatch
  unfolding declared_mismatches undeclared_mismatches expected_by_name existing_by_name
  schema_mismatches existing expected =
      let wanted = expected_by_name expected [] in
      let there = existing_by_name existing [] in
      declared_mismatches there wanted (sorted (Dict.keys wanted))
      ++ undeclared_mismatches wanted (sorted (Dict.keys there))
