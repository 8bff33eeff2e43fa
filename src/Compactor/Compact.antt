-- ===== src/Compactor/Compact.antt =====
-- `compact` of filedge/compactor.py, on local directories. A source file is the list of its lines;
-- stripping a line, and `json.loads` with `json.dumps`, are parameters, and so are the names that
-- the clock gives to the output files.
use filedge.Base.{
  ℕ, zero, suc, ◌+◌, String, Bool, true, false, not, Option, none, some, List, [], ◌∷◌, ◌++◌, ◌==◌,
  if◌then◌else◌, contains, select, take, drop, length, map,
}
use filedge.Base.Result.{Result, ok, err, ◌>>=◌}

pub record SourceFile : Type 0 where
  pub path : String
  pub basename : String
  pub lines : List String

-- An output file: its name and its rows.
pub record OutputFile : Type 0 where
  pub name : String
  pub rows : List String

-- The source directory as `list_files` lists it, the output directory, and the manifest: the
-- sources of each batch. A temporary file that a failed batch leaves is removed again.
pub record Store : Type 0 where
  pub sources : List SourceFile
  pub outputs : List OutputFile
  pub manifest : List (List String)

pub data CompactError : Type 0 where
  bad_line : String → CompactError
  -- range() with a step of zero
  no_step : CompactError

pub record Compacted : Type 0 where
  pub batches : ℕ
  pub files_compacted : ℕ

module _ (strip : String → String) (normalize : String → Option String) where
  unfoldable pub copy_line : String → Result CompactError (List String)
  copy_line line =
      if strip line == ""
      then ok []
      else elim (normalize (strip line)) [ none ↦ err (bad_line line) | some row ↦ ok (row ∷ []) ]

  unfoldable pub copy_rows : List String → Result CompactError (List String)
  unfolding copy_line
  copy_rows [] = ok []
  copy_rows (line ∷ lines) = do row ← copy_line line; rows ← copy_rows lines; ok (row ++ rows)

  -- The rows that `_write_batch` writes; on an error the batch leaves nothing.
  unfoldable pub batch_rows : List SourceFile → Result CompactError (List String)
  unfolding copy_rows
  batch_rows [] = ok []
  batch_rows (f ∷ files) = do rows ← copy_rows f.lines; rest ← batch_rows files; ok (rows ++ rest)

  abbrev pub basenames : List SourceFile → List String
  basenames files = map (λ (f : SourceFile). f.basename) files

  abbrev pub paths : List SourceFile → List String
  paths files = map (λ (f : SourceFile). f.path) files

  -- What `_load_manifest` returns: the basenames of all batches.
  unfoldable pub already_done : List (List String) → List String
  already_done [] = []
  already_done (sources ∷ entries) = sources ++ already_done entries

  -- After a batch is written: `_delete_file` of its sources, or `_append_manifest`.
  unfoldable pub settle_batch : Bool → List SourceFile → Store → Store
  settle_batch true batch store = record store {
    sources = select (λ (f : SourceFile). not (contains f.path (paths batch))) store.sources;
  }
  settle_batch false batch store = record store {
    manifest = store.manifest ++ basenames batch ∷ [];
  }

  -- `rename(tmp_path, out_path)`: a file of that name is replaced.
  unfoldable pub put_output : OutputFile → List OutputFile → List OutputFile
  put_output out [] = out ∷ []
  put_output out (o ∷ outputs) =
      let rest = put_output out outputs in
      elim (o.name == out.name) [ true ↦ out ∷ outputs | false ↦ o ∷ rest ]

  unfoldable pub write_batch : Bool → String → List SourceFile → List String → Store → Store
  unfolding settle_batch put_output
  write_batch delete_source name batch rows store =
      settle_batch delete_source batch
        (record store { outputs = put_output (record { name = name; rows = rows }) store.outputs })

  abbrev pub count_batch : List SourceFile → Compacted → Compacted
  count_batch batch c = record {
    batches = c.batches + 1;
    files_compacted = c.files_compacted + length batch;
  }

  -- The loop over the batches; the fuel is the number of files. An error ends it after the batches
  -- written before.
  unfoldable pub compact_batches :
      ℕ
      → Bool
      → ℕ
      → (ℕ → String)
      → List SourceFile
      → Store
      → Compacted
      → Store × Result CompactError Compacted
  unfolding write_batch batch_rows
  compact_batches fuel delete_source max_files name [] store c = (store, ok c)
  compact_batches zero delete_source max_files name (f ∷ files) store c = (store, ok c)
  compact_batches (suc fuel) delete_source max_files name (f ∷ files) store c =
      let batch = take max_files (f ∷ files) in
      elim (batch_rows batch) [
        | err e ↦ (store, err e)
        | ok rows ↦
            compact_batches fuel delete_source max_files name (drop max_files (f ∷ files))
              (write_batch delete_source (name (c.batches + 1)) batch rows store)
              (count_batch batch c)
      ]

  -- The files that are still to do.
  unfoldable pub pending : Bool → Store → List SourceFile
  unfolding already_done
  pending true store = store.sources
  pending false store =
      select (λ (f : SourceFile). not (contains f.basename (already_done store.manifest)))
        store.sources

  unfoldable pub compact_pending :
      Bool → ℕ → (ℕ → String) → List SourceFile → Store → Store × Result CompactError Compacted
  unfolding compact_batches
  compact_pending delete_source max_files name [] store =
      (store, ok (record { batches = 0; files_compacted = 0 }))
  compact_pending delete_source zero name (f ∷ files) store = (store, err no_step)
  compact_pending delete_source (suc n) name (f ∷ files) store =
      compact_batches (length (f ∷ files)) delete_source (suc n) name (f ∷ files) store
        (record { batches = 0; files_compacted = 0 })

  unfoldable pub compact : Bool → ℕ → (ℕ → String) → Store → Store × Result CompactError Compacted
  unfolding compact_pending pending
  compact delete_source max_files name store =
      compact_pending delete_source max_files name (pending delete_source store) store
