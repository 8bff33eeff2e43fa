-- ===== src/Destination/Write.antt =====
-- `SqlConnector.write_rows` of filedge/connectors/sql_base.py.
use filedge.Base.{
  ℕ, String, Bool, true, false, Option, none, some, List, [], ◌∷◌, ◌++◌, if◌then◌else◌, leb, length,
}
use filedge.Base.Dict
use filedge.Base.Dict.{Dict}
use filedge.Quarantine.Stream.{LoadError, unexpected, Stream, end, raise, yield}
use filedge.Destination.Table.{
  DestRow, Connection, commit, rollback, without_hash, WriteMode, append, truncate, cdc_mode,
}

-- The column list of the INSERT statement, set by the first row, with the values of one row. The
-- engine refuses a row that has another number of values than the statement has placeholders.
unfoldable pub bind {ℓ} : {V : Type ℓ} → List String → List V → Option (Dict V)
bind [] [] = some []
bind [] (v ∷ vs) = none
bind (c ∷ cs) [] = none
bind (c ∷ cs) (v ∷ vs) = elim (bind cs vs) [ none ↦ none | some d ↦ some ((c, v) ∷ d) ]

-- `dest_cols` after a row: the keys of the first one.
abbrev pub statement_columns {ℓ} : {V : Type ℓ} → Option (List String) → Dict V → List String
statement_columns none row = Dict.keys row
statement_columns (some cols) row = cols

-- The columns of a statement that may not be set yet.
abbrev pub columns_or_none : Option (List String) → List String
columns_or_none none = []
columns_or_none (some cols) = cols

module _ {ℓ} {V : Type ℓ} (accepts : List (DestRow V) → Bool) where
  module _ (file_hash : String) (ingested_at : ℕ) where
    unfoldable pub bind_all : List String → List (List V) → Option (List (DestRow V))
    bind_all cols [] = some []
    bind_all cols (vs ∷ batch) = elim (bind cols vs) [
      | none ↦ none
      | some cells ↦ elim (bind_all cols batch) [
        | none ↦ none
        | some rows ↦ some (
            record { cells = cells; source_file_hash = file_hash; ingested_at = ingested_at }
            ∷ rows)
      ]
    ]

    unfoldable pub accepted : List (DestRow V) → Connection V → Option (Connection V)
    accepted rows c = if accepts rows then some (record c { working = c.working ++ rows }) else none

    -- `cur.executemany(insert_sql, batch)`; `none` is an exception of the engine.
    unfoldable pub executemany : List String → List (List V) → Connection V → Option (Connection V)
    unfolding bind_all accepted
    executemany cols batch c = elim (bind_all cols batch) [
      | none ↦ none
      | some rows ↦ accepted rows c
    ]

    -- The last `if batch:`
    unfoldable pub flush : List String → List (List V) → Connection V → Option (Connection V)
    flush cols [] c = some c
    flush cols (vs ∷ batch) c = executemany cols (vs ∷ batch) c

    -- The outcome of the body of the `try`: the connection, and what ended it.
    abbrev pub Outcome : Type ℓ
    Outcome = Connection V × Option LoadError

    unfoldable pub or_engine_error : Connection V → Option (Connection V) → Outcome
    or_engine_error c none = (c, some (unexpected "database error"))
    or_engine_error c (some c') = (c', none)

    -- The loop over the rows, with the statement's columns, the batch, and the connection.
    unfoldable pub write_from :
        ℕ → Option (List String) → List (List V) → Stream (Dict V) → Connection V → Outcome
    unfolding flush or_engine_error
    write_from batch_size cols batch end c =
        or_engine_error c (flush (columns_or_none cols) batch c)
    write_from batch_size cols batch (raise e) c = (c, some e)
    write_from batch_size cols batch (yield row rows) c =
        let dest_cols = statement_columns cols row in
        let batch' = batch ++ Dict.values row ∷ [] in
        elim (leb batch_size (length batch')) [
          | false ↦ write_from batch_size (some dest_cols) batch' rows c
          | true ↦ elim (executemany dest_cols batch' c) [
            | none ↦ (c, some (unexpected "database error"))
            | some c' ↦ write_from batch_size (some dest_cols) [] rows c'
          ]
        ]

    -- The statement before the loop.
    unfoldable pub clear : WriteMode → Connection V → Connection V
    clear truncate c = record c { working = [] }
    clear append c = record c { working = without_hash file_hash c.working }
    clear cdc_mode c = record c { working = without_hash file_hash c.working }

    -- `except Exception: conn.rollback(); raise`
    unfoldable pub settle : Outcome → Outcome
    unfolding commit rollback
    settle (c, none) = (commit c, none)
    settle (c, some e) = (rollback c, some e)

    unfoldable pub write_rows : WriteMode → ℕ → Stream (Dict V) → Connection V → Outcome
    unfolding write_from clear settle
    write_rows mode batch_size rows c = settle (write_from batch_size none [] rows (clear mode c))
