-- ===== src/Cdc/Values.antt =====
-- What filedge/cdc.py uses of Python's values and of SQL's: a parameter of the model, and what the
-- theorems rely on.
use filedge.Base.{String, ◌≡◌, Bool, true, false, Option, some}

pub record CdcValues : Type 1 where
  pub Value : Type 0
  pub null : Value
  pub is_null : Value → Bool
  pub text : String → Value
  -- The text of a str; another value is no operation of a `cdc:` block.
  pub as_text : Value → Option String
  -- `a == b`, which a dict's keys are compared by
  pub same : Value → Value → Bool
  -- `a > b`; `none` is a TypeError
  pub greater : Value → Value → Option Bool
  -- `a = b` in a WHERE clause
  pub sql_same : Value → Value → Bool

-- Python's equality is an equivalence, and its order is transitive and total; SQL finds a value that is not
-- NULL by an equal one.
pub record IsLawful (v : CdcValues) : Type 0 where
  pub same_refl : (a : v.Value) → v.same a a ≡ true
  pub same_sym : (a b : v.Value) → v.same a b ≡ true → v.same b a ≡ true
  pub same_trans : (a b c : v.Value) → v.same a b ≡ true → v.same b c ≡ true → v.same a c ≡ true
  pub greater_trans :
      (a b c : v.Value)
      → v.greater a b ≡ some true
      → v.greater b c ≡ some true
      → v.greater a c ≡ some true
  pub greater_total :
      (a b : v.Value) → v.same a b ≡ false → v.greater b a ≡ some false → v.greater a b ≡ some true
  pub found_by_same :
      (a b : v.Value) → v.is_null b ≡ false → v.same a b ≡ true → v.sql_same b a ≡ true
