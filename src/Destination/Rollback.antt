-- ===== src/Destination/Rollback.antt =====
-- The loop of `SqlConnector.write_rows` (filedge/connectors/sql_base.py) before it commits.
use filedge.Base.{
  ℕ, String, ◌≡◌, refl, ◌∙◌, Bool, Option, some, List, [], ◌∷◌, ◌++◌, leb, length, arith,
  Bool-cases, Option-cases, inl, inr,
}
use filedge.Base.Dict
use filedge.Base.Dict.{Dict}
use filedge.Quarantine.Stream.{LoadError, unexpected, Stream, end, raise, yield, from_list}
use filedge.Destination.Table.{DestRow, Connection}
use filedge.Destination.Write.{
  accepted, executemany, flush, or_engine_error, columns_or_none, statement_columns, write_from,
}

module _ {ℓ} {V : Type ℓ} (accepts : List (DestRow V) → Bool) (file_hash : String) (ingested_at : ℕ)
    (batch_size : ℕ) where
  abbrev outcome :
      Option (List String)
      → List (List V)
      → Stream (Dict V)
      → Connection V
      → Connection V × Option LoadError
  outcome = write_from accepts file_hash ingested_at batch_size

  executemany-durable :
      (cols : List String) (batch : List (List V)) (c c' : Connection V)
      → executemany accepts file_hash ingested_at cols batch c ≡ some c'
      → c'.durable ≡ c.durable
  unfolding executemany accepted
  executemany-durable cols batch c c' e = ground arith

  durable-flush :
      (cols : List String) (batch : List (List V)) (c : Connection V)
      → (or_engine_error accepts file_hash ingested_at c
          (flush accepts file_hash ingested_at cols batch c)).0.durable
        ≡ c.durable
  unfolding or_engine_error flush
  durable-flush cols [] c = refl
  durable-flush cols (vs ∷ batch) c =
      elim (Option-cases (executemany accepts file_hash ingested_at cols (vs ∷ batch) c)) [
        | inl e ↦ rw e
        | inr (c', e) ↦ rw e (executemany-durable cols (vs ∷ batch) c c' e)
      ]

  pub durable-write_from :
      (cols : Option (List String)) (batch : List (List V)) (rows : Stream (Dict V))
      (c : Connection V)
      → (outcome cols batch rows c).0.durable ≡ c.durable
  unfolding write_from
  durable-write_from cols batch end c = durable-flush (columns_or_none cols) batch c
  durable-write_from cols batch (raise e) c = refl
  durable-write_from cols batch (yield row rows) c =
      let l = statement_columns cols row in
      let batch' = batch ++ Dict.values row ∷ [] in
      elim (Bool-cases (leb batch_size (length batch'))) [
        | inr room ↦ rw (room, write_from) (durable-write_from (some l) batch' rows c)
        | inl full ↦ elim (Option-cases (executemany accepts file_hash ingested_at l batch' c)) [
          | inl e ↦ rw (full, write_from) (rw e)
          | inr (c', e) ↦
              rw (full, write_from)
                (rw e
                  (durable-write_from (some l) [] rows c' ∙ executemany-durable l batch' c c' e))
        ]
      ]

  -- Rows that raise make the loop fail, if the engine has not failed before.
  pub write_from-raise :
      (cols : Option (List String)) (batch : List (List V)) (rows : List (Dict V)) (x : LoadError)
      (c : Connection V)
      → (e : LoadError) × ((outcome cols batch (from_list rows (raise x)) c).1 ≡ some e)
  unfolding write_from
  write_from-raise cols batch [] x c = (x, refl)
  write_from-raise cols batch (row ∷ rows) x c =
      let l = statement_columns cols row in
      let batch' = batch ++ Dict.values row ∷ [] in
      elim (Bool-cases (leb batch_size (length batch'))) [
        | inr room ↦ rw (room, write_from) (write_from-raise (some l) batch' rows x c)
        | inl full ↦ elim (Option-cases (executemany accepts file_hash ingested_at l batch' c)) [
          | inl e ↦ rw (full, write_from) (rw e (unexpected "database error", refl))
          | inr (c', e) ↦ rw (full, write_from) (rw e (write_from-raise (some l) [] rows x c'))
        ]
      ]
