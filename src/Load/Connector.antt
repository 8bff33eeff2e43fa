-- ===== src/Load/Connector.antt =====
-- The Connector that a load writes through (filedge/connectors/__init__.py), and what a load
-- relies on: a write is all or nothing, and touches the rows of its own File alone.
use filedge.Base.{ℕ, String, ◌≡◌, ◌≢◌, Option, none, some, List}
use filedge.Base.Dict.{Dict}
use filedge.Quarantine.Stream.{LoadError, Stream, end, raise, from_list}
use filedge.Destination.Added.{Uniform}
use filedge.Cdc.Plan.{CdcConfig}

pub record Connector (V : Type 0) : Type 1 where
  pub State : Type 0
  -- File hash, the time of `now`, and the rows; the error is the exception of the write.
  pub write_rows : String → ℕ → Stream (Dict V) → State → State × Option LoadError
  pub write_cdc_rows : CdcConfig → String → ℕ → Stream (Dict V) → State → State × Option LoadError
  -- The data columns of the destination rows that carry a hash.
  pub rows_of : State → String → List (Dict V)
  -- Between two loads no transaction is open.
  pub IsSettled : State → Type 0

module _ {V : Type 0} (k : Connector V) where
  pub record IsAtomic : Type 0 where
    -- A write that succeeds leaves exactly the rows of its File, and all others as they were.
    pub written :
        (cols : List String) (h : String) (now : ℕ) (rows : List (Dict V)) (s s' : k.State)
        → Uniform cols rows
        → k.IsSettled s
        → k.write_rows h now (from_list rows end) s ≡ (s', none)
        → k.rows_of s' h ≡ rows
    pub others :
        (cols : List String) (h j : String) (now : ℕ) (rows : List (Dict V)) (s s' : k.State)
        → Uniform cols rows
        → k.IsSettled s
        → k.write_rows h now (from_list rows end) s ≡ (s', none)
        → h ≢ j
        → k.rows_of s' j ≡ k.rows_of s j
    -- A write that fails leaves everything as it was.
    pub failed :
        (h : String) (now : ℕ) (rows : Stream (Dict V)) (s s' : k.State) (e : LoadError)
        → k.IsSettled s
        → k.write_rows h now rows s ≡ (s', some e)
        → (j : String) → k.rows_of s' j ≡ k.rows_of s j
    -- A write whose rows raise does not succeed.
    pub stopped :
        (h : String) (now : ℕ) (rows : List (Dict V)) (e : LoadError) (s s' : k.State)
        → k.write_rows h now (from_list rows (raise e)) s ≢ (s', none)
    -- Either way no transaction stays open.
    pub settled :
        (h : String) (now : ℕ) (rows : Stream (Dict V)) (s : k.State)
        → k.IsSettled s
        → k.IsSettled (k.write_rows h now rows s).0
