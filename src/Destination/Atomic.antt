-- ===== src/Destination/Atomic.antt =====
-- `SqlConnector.write_rows` of filedge/connectors/sql_base.py as a transaction: its success, its
-- failure, and rows that raise.
use filedge.Base.{
  ℕ, String, ◌≡◌, refl, ◌∙◌, sym, ap, subst, Bool, Option, none, some, List, [], ◌∷◌, ◌++◌, map,
  arith,
}
use mathlib.Core.List.{append-nil}
use filedge.Base.Dict
use filedge.Base.Dict.{Dict}
use filedge.Quarantine.Stream.{LoadError, Stream, end, raise, from_list}
use filedge.Destination.Table.{
  DestRow, Connection, commit, rollback, without_hash, WriteMode, append, truncate, cdc_mode,
}
use filedge.Destination.Write.{write_from, clear, settle, write_rows, flush, or_engine_error}
use filedge.Destination.Added.{Uniform, stamp, added, write_from-added}
use filedge.Destination.Rollback.{durable-write_from, write_from-raise}

-- What the table holds of earlier loads once a File is written.
abbrev pub kept {ℓ} : {V : Type ℓ} → WriteMode → String → List (DestRow V) → List (DestRow V)
kept truncate h rows = []
kept append h rows = without_hash h rows
kept cdc_mode h rows = without_hash h rows

module _ {ℓ} {V : Type ℓ} (accepts : List (DestRow V) → Bool) (file_hash : String) (ingested_at : ℕ)
    (mode : WriteMode) (batch_size : ℕ) where
  -- The connection once these rows are durable beside those of other Files.
  abbrev pub loaded : Connection V → List (Dict V) → Connection V
  loaded c rows =
      let all_rows =
        kept mode file_hash c.working ++ map (stamp accepts file_hash ingested_at) rows in
      record { working = all_rows; durable = all_rows }

  working-clear :
      (c : Connection V)
      → (clear accepts file_hash ingested_at mode c).working ≡ kept mode file_hash c.working
  unfolding clear
  working-clear c = ground arith

  durable-clear :
      (c : Connection V) → (clear accepts file_hash ingested_at mode c).durable ≡ c.durable
  unfolding clear
  durable-clear c = ground arith

  first_row :
      (cols : List String) (rows : List (Dict V)) (c c' : Connection V)
      → Uniform cols rows
      → write_from accepts file_hash ingested_at batch_size none [] (from_list rows end) c
        ≡ (c', none)
      → c' ≡ added accepts file_hash ingested_at c rows
  unfolding write_from flush or_engine_error
  first_row cols [] c c' u e =
      rw append-nil (sym (ap (λ (p : Connection V × Option LoadError). p.0) e))
  first_row cols (row ∷ rows) c c' (x, u) e =
      let started : write_from accepts file_hash ingested_at batch_size (some (Dict.keys row)) []
            (from_list (row ∷ rows) end) c
          ≡ (c', none) =
        e in
      write_from-added accepts file_hash ingested_at batch_size cols [] (row ∷ rows) c c' tt (x, u)
        (subst
          (λ l.
            write_from accepts file_hash ingested_at batch_size (some l) []
              (from_list (row ∷ rows) end) c
            ≡ (c', none))
          x started)

  settle-none :
      (d c' : Connection V) (x : Option LoadError)
      → settle accepts file_hash ingested_at (d, x) ≡ (c', none)
      → (x ≡ none) × (c' ≡ commit d)
  unfolding settle
  settle-none d c' none e = (refl, ap (λ (p : Connection V × Option LoadError). p.0) (sym e))
  settle-none d c' (some x) e = cc

  settle-some :
      (d c' : Connection V) (x : Option LoadError) (e : LoadError)
      → settle accepts file_hash ingested_at (d, x) ≡ (c', some e)
      → c' ≡ rollback d
  unfolding settle
  settle-some d c' none e h = cc
  settle-some d c' (some x) e h = ap (λ (p : Connection V × Option LoadError). p.0) (sym h)

  settle-error :
      (d : Connection V) (x : Option LoadError) (e : LoadError)
      → x ≡ some e
      → settle accepts file_hash ingested_at (d, x) ≡ (rollback d, some e)
  unfolding settle
  settle-error d none e h = cc
  settle-error d (some x) e h = ap (λ (y : Option LoadError). (rollback d, y)) h

  abbrev body : Stream (Dict V) → Connection V → Connection V × Option LoadError
  body rows c =
      write_from accepts file_hash ingested_at batch_size none [] rows
        (clear accepts file_hash ingested_at mode c)

  durable-body : (rows : Stream (Dict V)) (c : Connection V) → (body rows c).0.durable ≡ c.durable
  durable-body rows c =
      durable-write_from accepts file_hash ingested_at batch_size none [] rows _ ∙ durable-clear c

  -- A write that succeeds has made durable, beside the rows of other Files (in truncate mode beside
  -- nothing), exactly the rows of the File in order, each with its hash and time, for every batch
  -- size and mode, if the rows have the same columns.
  pub write_rows-loaded :
      (cols : List String) (rows : List (Dict V)) (c c' : Connection V)
      → Uniform cols rows
      → write_rows accepts file_hash ingested_at mode batch_size (from_list rows end) c ≡ (c', none)
      → c' ≡ loaded c rows
  unfolding write_rows commit
  write_rows-loaded cols rows c c' u e =
      let (d, x) = body (from_list rows end) c in
      let (fine, done) = settle-none d c' x e in
      let full =
        first_row cols rows (clear accepts file_hash ingested_at mode c) d u
          (ap (λ (y : Option LoadError). (d, y)) fine) in
      done ∙ rw full (rw (working-clear c))

  -- A write that ends with an error has changed nothing: what was durable is durable, and the next
  -- transaction starts from it.
  pub write_rows-error :
      (rows : Stream (Dict V)) (c c' : Connection V) (e : LoadError)
      → write_rows accepts file_hash ingested_at mode batch_size rows c ≡ (c', some e)
      → c' ≡ record { working = c.durable; durable = c.durable }
  unfolding write_rows rollback
  write_rows-error rows c c' e h =
      let (d, x) = body rows c in settle-some d c' x e h ∙ rw (durable-body rows c)

  -- If the rows of a File raise at their end, the write ends with an error and has changed nothing.
  pub write_rows-raise :
      (rows : List (Dict V)) (x : LoadError) (c : Connection V)
      → (e : LoadError) × ((write_rows accepts file_hash ingested_at mode batch_size
            (from_list rows (raise x))
            c)
          ≡ (record { working = c.durable; durable = c.durable }, some e))
  unfolding write_rows rollback
  write_rows-raise rows x c =
      let (e, h) =
        write_from-raise accepts file_hash ingested_at batch_size none [] rows x
          (clear accepts file_hash ingested_at mode c) in
      let (d, y) = body (from_list rows (raise x)) c in
      (e, settle-error d y e h ∙ rw (durable-body (from_list rows (raise x)) c))
