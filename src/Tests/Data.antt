-- ===== src/Tests/Data.antt =====
-- A small Python, a lawful order on its values, and rows of the audit table, to run the models on.
use filedge.Base.{
  ℕ, ◌*◌, String, ◌≡◌, refl, subst, Bool, true, false, Option, none, some, [], ◌∷◌, ◌==◌,
  if◌then◌else◌, ltb, eqb, arith, eq_iff, eq_refl,
}
use filedge.Base.Result.{Result, ok, err}
use filedge.Rows.Python.{Python, CoerceError, refused, overflowed}
use filedge.Rows.Columns.{ColumnMapping, string, integer}
use filedge.Cdc.Values.{CdcValues, IsLawful}
use filedge.Audit.Record.{pending, committed, failed, FileRecord, AuditTable}
use filedge.Audit.Sql.{first, UniqueHashes}
use filedge.Audit.Consistency.{IsConsistent}

pub data Value : Type 0 where
  nothing : Value
  word : String → Value
  flag : Bool → Value
  amount : ℕ → Value

abbrev is_nothing : Value → Bool
is_nothing nothing = true
is_nothing _ = false

abbrev is_empty : Value → Bool
is_empty (word s) = s == ""
is_empty _ = false

abbrev shown : Value → String
shown (word s) = s
shown (flag true) = "True"
shown (flag false) = "False"
shown nothing = "None"
shown (amount n) = "7"

abbrev parsed : Value → Result CoerceError Value
parsed (word s) =
    if s == "7" then ok (amount 7) else if s == "8" then ok (amount 8) else err refused
parsed (amount n) = if ltb n 1000 then ok (amount n) else err overflowed
parsed (flag true) = ok (amount 1)
parsed (flag false) = ok (amount 0)
parsed nothing = err refused

abbrev as_flag : Value → Option Bool
as_flag (flag b) = some b
as_flag _ = none

abbrev pub small_python : Python
small_python = record {
  Value = Value;
  null = nothing;
  is_null = is_nothing;
  text = word;
  boolean = flag;
  as_boolean = as_flag;
  is_empty_text = is_empty;
  str = shown;
  int = parsed;
  float = parsed;
  iso_date = λ s. if s == "2024-01-31" then some s else none;
  iso_datetime = λ s. none;
  strip_lower = λ s. s;
  Float = ℕ;
  ratio_exceeds = λ invalid total percent. ltb (percent * total) (100 * invalid);
}

abbrev equal : Value → Value → Bool
equal nothing nothing = true
equal (word s) (word t) = s == t
equal (flag true) (flag true) = true
equal (flag false) (flag false) = true
equal (amount m) (amount n) = eqb m n
equal _ _ = false

-- The place of a value in the order: a kind, then a number or a text.
abbrev above : Value → Value → Option Bool
above (amount m) (amount n) = some (ltb n m)
above _ _ = none

abbrev as_word : Value → Option String
as_word (word s) = some s
as_word _ = none

abbrev pub small_values : CdcValues
small_values = record {
  Value = Value;
  null = nothing;
  is_null = is_nothing;
  text = word;
  as_text = as_word;
  same = equal;
  greater = above;
  sql_same = equal;
}

equal_refl : (a : Value) → equal a a ≡ true
equal_refl nothing = refl
equal_refl (word s) = eq_refl s
equal_refl (flag true) = refl
equal_refl (flag false) = refl
equal_refl (amount n) = ground arith

equal_eq : (a b : Value) → equal a b ≡ true → a ≡ b
equal_eq a b e = grind (arith, eq_iff)

above_trans :
    (a b c : Value) → above a b ≡ some true → above b c ≡ some true → above a c ≡ some true
above_trans a b c e f = ground arith

above_total : (a b : Value) → equal a b ≡ false → above b a ≡ some false → above a b ≡ some true
above_total a b e f = ground arith

pub small_values-IsLawful : IsLawful small_values
small_values-IsLawful = record {
  same_refl = equal_refl;
  same_sym = λ a b e. subst (λ x. equal x a ≡ true) (equal_eq a b e) (equal_refl a);
  same_trans = λ a b c e f. subst (λ x. equal a x ≡ true) (equal_eq b c f) e;
  greater_trans = above_trans;
  greater_total = above_total;
  found_by_same = λ a b n e. subst (λ x. equal x a ≡ true) (equal_eq a b e) (equal_refl a);
}

abbrev pub name_column : ColumnMapping
name_column = record {
  source = "Name";
  dest = "name";
  type = string;
  required = true;
  encrypt = none;
  hash = none;
  start = none;
  width = none;
}

abbrev pub units_column : ColumnMapping
units_column = record name_column {
  source = "Units";
  dest = "units";
  type = integer;
  required = false;
}

-- A File that waits, as `insert_pending` leaves it, one that a Run has loaded, and one that has
-- failed three times.
abbrev pub waiting_file : FileRecord
waiting_file = record {
  id = 1;
  filename = "a.csv";
  source_dir = none;
  content_hash = "aa";
  state = pending;
  attempt_count = 0;
  error_message = none;
  worker_id = none;
  run_id = none;
  row_count = none;
  claimed_at = none;
  created_at = 10;
  updated_at = 10;
  metadata = none;
  quarantined_row_count = none;
  quarantine_path = none;
}

abbrev pub loaded_file : FileRecord
loaded_file = record waiting_file {
  id = 2;
  filename = "b.csv";
  content_hash = "bb";
  state = committed;
  row_count = some 5;
  quarantined_row_count = some 1;
}

abbrev pub dead_file : FileRecord
dead_file = record waiting_file {
  id = 3;
  filename = "c.csv";
  content_hash = "cc";
  state = failed;
  attempt_count = 3;
  error_message = some "no such column";
}

abbrev pub three_files : AuditTable
three_files = record { rows = waiting_file ∷ loaded_file ∷ dead_file ∷ []; next_id = 4 }

pub three_files-UniqueHashes : UniqueHashes three_files.rows
unfolding first
three_files-UniqueHashes = (refl, (refl, (refl, tt)))

pub three_files-IsConsistent : IsConsistent three_files
three_files-IsConsistent = record {
  unique = three_files-UniqueHashes;
  keyed = (omega arith, (omega arith, (omega arith, tt)));
}
