-- ===== src/Load/Sql.antt =====
-- `SqlConnector` (filedge/connectors/sql_base.py) as a Connector of a load, in append mode, for an
-- engine with transactions.
use filedge.Base.{
  ℕ, String, ◌≡◌, ◌≢◌, refl, ◌∙◌, ap, Bool, false, Option, none, some, List, [], ◌∷◌, map, ◌==◌,
  eq_iff, arith,
}
use filedge.Base.Dict.{Dict}
use filedge.Quarantine.Stream.{LoadError, Stream}
use filedge.Destination.Table.{DestRow, Connection, with_hash, append, commit, rollback}
use filedge.Destination.Write.{clear, settle, write_from, write_rows}
use filedge.Destination.Added.{stamp}
use filedge.Destination.Atomic.{write_rows-error, write_rows-raise}
use filedge.Destination.Idempotent.{write_rows-by_hash}
use filedge.Cdc.Plan.{CdcConfig}
use filedge.Load.Connector.{Connector, IsAtomic}

module _ {V : Type 0} (accepts : List (DestRow V) → Bool) (batch_size : ℕ)
    (write_cdc : CdcConfig
      → String
      → ℕ
      → Stream (Dict V)
      → Connection V
      → Connection V × Option LoadError) where
  cells_of : List (DestRow V) → List (Dict V)
  cells_of rows = map (λ (r : DestRow V). r.cells) rows

  abbrev SettledConnection : Connection V → Type 0
  SettledConnection c = c.working ≡ c.durable

  abbrev pub sql_connector : Connector V
  sql_connector = record {
    State = Connection V;
    write_rows = λ h now rows c. write_rows accepts h now append batch_size rows c;
    write_cdc_rows = write_cdc;
    rows_of = λ c h. map (λ (r : DestRow V). r.cells) (with_hash h c.durable);
    IsSettled = SettledConnection;
  }

  cells-stamp :
      (h : String) (now : ℕ) (rows : List (Dict V))
      → map (λ (r : DestRow V). r.cells) (map (stamp accepts h now) rows) ≡ rows
  cells-stamp h now [] = refl
  cells-stamp h now (r ∷ rows) = ap (λ l. r ∷ l) (cells-stamp h now rows)

  apart-false : (h j : String) → h ≢ j → (h == j) ≡ false
  apart-false h j apart = ground (arith, eq_iff h j)

  settle-settled :
      (h : String) (now : ℕ) (o : Connection V × Option LoadError)
      → SettledConnection (settle accepts h now o).0
  unfolding settle commit rollback
  settle-settled h now (c, none) = refl
  settle-settled h now (c, some e) = refl

  write-settled :
      (h : String) (now : ℕ) (rows : Stream (Dict V)) (c : Connection V)
      → SettledConnection (write_rows accepts h now append batch_size rows c).0
  unfolding write_rows
  write-settled h now rows c =
      settle-settled h now
        (write_from accepts h now batch_size none [] rows (clear accepts h now append c))

  -- The shared SQL writing path in append mode is an atomic connector, for every engine and every
  -- batch size: a write that succeeds on rows with the same columns leaves exactly them under its
  -- hash and the rows of other hashes as they were, one that fails or whose rows raise changes
  -- nothing, and no transaction stays open.
  pub sql_connector-IsAtomic : IsAtomic sql_connector
  sql_connector-IsAtomic = record {
    written = λ cols h now rows c d u settled e.
        ap (map (λ (r : DestRow V). r.cells))
          (write_rows-by_hash accepts h cols rows u now batch_size c d h e).0
        ∙ cells-stamp h now rows;
    others = λ cols h j now rows c d u settled e apart. ap (map (λ (r : DestRow V). r.cells)) (
        (write_rows-by_hash accepts h cols rows u now batch_size c d j e).1 (apart-false h j apart)
        ∙ ap (with_hash j) settled);
    failed = λ h now rows c d e settled bad j.
        ap (λ (x : Connection V). map (λ (r : DestRow V). r.cells) (with_hash j x.durable))
          (write_rows-error accepts h now append batch_size rows c d e bad);
    stopped = λ h now rows e c d fine.
        let (x, raised) = write_rows-raise accepts h now append batch_size rows e c in cc;
    settled = λ h now rows c settled. write-settled h now rows c;
  }
