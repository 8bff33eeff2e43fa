-- ===== src/Compactor/Rows.antt =====
-- What a compaction of filedge/compactor.py writes, and that it is complete.
use filedge.Base.{
  ℕ, zero, suc, ◌+◌, ◌≤◌, ◌<◌, ◌==◌, All, String, ◌≡◌, refl, ◌∙◌, sym, ap, subst, Bool, true, false,
  Option, List, [], ◌∷◌, ◌++◌, ◌||◌, contains, take, drop, length, length-append, arith,
}
use mathlib.Core.List.{append-nil, append_assoc}
use filedge.Base.Result.{Result, ok, err, >>=-eq-ok, ok-injective}
use filedge.Compactor.Compact.{
  SourceFile, OutputFile, Store, CompactError, Compacted, copy_rows, batch_rows, already_done,
  settle_batch, put_output, write_batch, count_batch, compact_batches, pending, compact_pending,
  compact,
}

take-drop {ℓ} : {A : Type ℓ} (n : ℕ) (xs : List A) → take n xs ++ drop n xs ≡ xs
take-drop zero xs = refl
take-drop (suc n) [] = refl
take-drop (suc n) (x ∷ xs) = ap (λ l. x ∷ l) (take-drop n xs)

length-drop {ℓ} : {A : Type ℓ} (n : ℕ) (xs : List A) → length (drop n xs) ≤ length xs
length-drop zero xs = omega arith
length-drop (suc n) [] = omega arith
length-drop (suc n) (x ∷ xs) = omega (arith, length-drop n xs)

-- The rows of the output files, in order.
abbrev pub output_rows : List OutputFile → List String
output_rows [] = []
output_rows (o ∷ outputs) = o.rows ++ output_rows outputs

output_rows-append :
    (xs ys : List OutputFile) → output_rows (xs ++ ys) ≡ output_rows xs ++ output_rows ys
output_rows-append [] ys = refl
output_rows-append (o ∷ xs) ys =
    ap (λ l. o.rows ++ l) (output_rows-append xs ys) ∙ sym (append_assoc o.rows _ _)

-- No output file has the name.
abbrev pub Absent : String → List OutputFile → Type 0
Absent name outputs = All (λ (o : OutputFile). (o.name == name) ≡ false) outputs

Absent-append :
    (name : String) (outputs : List OutputFile) (out : String) (rows : List String)
    → Absent name outputs
    → (out == name) ≡ false
    → Absent name (outputs ++ record { name = out; rows = rows } ∷ [])
Absent-append name [] out rows h other = (other, tt)
Absent-append name (o ∷ outputs) out rows (here, h) other =
    (here, Absent-append name outputs out rows h other)

pub contains-append :
    (k : String) (xs ys : List String) → contains k (xs ++ ys) ≡ (contains k xs || contains k ys)
contains-append k [] ys = refl
contains-append k (x ∷ xs) ys = ground (arith, contains-append k xs ys)

module _ (strip : String → String) (normalize : String → Option String) where
  pub already_done-append :
      (xs ys : List (List String))
      → already_done strip normalize (xs ++ ys)
        ≡ already_done strip normalize xs ++ already_done strip normalize ys
  unfolding already_done
  already_done-append [] ys = refl
  already_done-append (x ∷ xs) ys =
      ap (λ l. x ++ l) (already_done-append xs ys) ∙ sym (append_assoc x _ _)

  -- A file whose name is new comes after the others.
  put_output-Absent :
      (out : OutputFile) (outputs : List OutputFile)
      → Absent out.name outputs
      → put_output strip normalize out outputs ≡ outputs ++ out ∷ []
  unfolding put_output
  put_output-Absent out [] h = refl
  put_output-Absent out (o ∷ outputs) (here, h) =
      rw (here, put_output) (ap (λ l. o ∷ l) (put_output-Absent out outputs h))

  batch_rows-append :
      (xs ys : List SourceFile) (a b : List String)
      → batch_rows strip normalize xs ≡ ok a
      → batch_rows strip normalize ys ≡ ok b
      → batch_rows strip normalize (xs ++ ys) ≡ ok (a ++ b)
  unfolding batch_rows
  batch_rows-append [] ys a b e f = f ∙ ap (λ l. ok (l ++ b)) (ok-injective e)
  batch_rows-append (x ∷ xs) ys a b e f =
      let (rows, copied, h) = >>=-eq-ok (copy_rows strip normalize x.lines) _ e in
      let (rest, later, g) = >>=-eq-ok (batch_rows strip normalize xs) _ h in
      rw (copied, batch_rows-append xs ys rest b later f)
        (ap ok (sym (append_assoc rows rest b)) ∙ ap (λ l. ok (l ++ b)) (ok-injective g))

  module _ (delete_source : Bool) (n : ℕ) (name : ℕ → String) where
    outputs-write_batch :
        (out : String) (batch : List SourceFile) (rows : List String) (store : Store)
        → (write_batch strip normalize delete_source out batch rows store).outputs
          ≡ put_output strip normalize (record { name = out; rows = rows }) store.outputs
    unfolding write_batch settle_batch
    outputs-write_batch out batch rows store = go delete_source
      where
        go :
            (b : Bool)
            → (settle_batch strip normalize b batch (record store {
              outputs =
                  put_output strip normalize (record { name = out; rows = rows }) store.outputs;
            })).outputs
              ≡ put_output strip normalize (record { name = out; rows = rows }) store.outputs
        go true = refl
        go false = refl

    -- No output file has one of the names that the loop is still to give.
    abbrev Fresh : Store → Compacted → Type 0
    Fresh store c = (i : ℕ) → c.batches < i → Absent (name i) store.outputs

    Fresh-more :
        (batch : List SourceFile) (rows : List String) (store : Store) (c : Compacted)
        → ((i j : ℕ) → i < j → (name i == name j) ≡ false)
        → Fresh store c
        → Fresh
            (write_batch strip normalize delete_source (name (c.batches + 1)) batch rows store)
            (count_batch strip normalize batch c)
    Fresh-more batch rows store c distinct fresh i later =
        subst (Absent (name i))
          (sym (
            outputs-write_batch (name (c.batches + 1)) batch rows store
            ∙ put_output-Absent _ store.outputs (fresh (c.batches + 1) (omega arith))))
          (Absent-append (name i) store.outputs (name (c.batches + 1)) rows (fresh i (omega arith))
            (distinct (c.batches + 1) i later))

    -- What the loop writes, and how many files it counts, if its names are new.
    abbrev Wrote : List SourceFile → Store → Compacted → Store → Compacted → Type 0
    Wrote files store c store' c' =
        Fresh store c
        → (rows : List String) × (batch_rows strip normalize files ≡ ok rows)
          × (output_rows store'.outputs ≡ output_rows store.outputs ++ rows)
          × (c'.files_compacted ≡ c.files_compacted + length files)

    -- One batch, and the loop over the others.
    Wrote-more :
        ((i j : ℕ) → i < j → (name i == name j) ≡ false)
        → (batch later : List SourceFile) (rows : List String) (store store' : Store)
          (c c' : Compacted)
        → batch_rows strip normalize batch ≡ ok rows
        → Wrote later
            (write_batch strip normalize delete_source (name (c.batches + 1)) batch rows store)
            (count_batch strip normalize batch c)
            store'
            c'
        → Wrote (batch ++ later) store c store' c'
    Wrote-more distinct batch later rows store store' c c' read rest_holds fresh =
        let (rest, read_rest, written, counted) =
          rest_holds (Fresh-more batch rows store c distinct fresh) in
        let here =
          ap output_rows (
            outputs-write_batch (name (c.batches + 1)) batch rows store
            ∙ put_output-Absent _ store.outputs (fresh (c.batches + 1) (omega arith)))
          ∙ output_rows-append store.outputs
              (record { name = name (c.batches + 1); rows = rows } ∷ [])
          ∙ ap (λ l. output_rows store.outputs ++ l) (append-nil rows) in
        (
          rows ++ rest,
          batch_rows-append batch later rows rest read read_rest,
          written ∙ ap (λ l. l ++ rest) here ∙ append_assoc (output_rows store.outputs) rows rest,
          omega (arith, counted, length-append batch later),
        )

    -- What holds of no files, and of the files after a batch, holds of all files of a loop that
    -- ends without an error.
    module _ (P : List SourceFile → Store → Compacted → Store → Compacted → Type 0)
        (base : (store : Store) (c : Compacted) → P [] store c store c)
        (more : (batch later : List SourceFile) (rows : List String) (store store' : Store)
            (c c' : Compacted)
          → batch_rows strip normalize batch ≡ ok rows
          → P later
              (write_batch strip normalize delete_source (name (c.batches + 1)) batch rows store)
              (count_batch strip normalize batch c)
              store'
              c'
          → P (batch ++ later) store c store' c') where
      compact_batches-holds :
          (fuel : ℕ) (files : List SourceFile) (store store' : Store) (c c' : Compacted)
          → length files ≤ fuel
          → compact_batches strip normalize fuel delete_source (suc n) name files store c
            ≡ (store', ok c')
          → P files store c store' c'
      unfolding compact_batches
      compact_batches-holds fuel [] store store' c c' enough h =
          let same_store : store ≡ store' =
            ap (λ (p : Store × Result CompactError Compacted). p.0) h in
          let same_count : c ≡ c' =
            ok-injective (ap (λ (p : Store × Result CompactError Compacted). p.1) h) in
          subst (λ d. P [] store c store' d) same_count
            (subst (λ s. P [] store c s c) same_store (base store c))
      compact_batches-holds zero (f ∷ files) store store' c c' enough h = absurd (omega arith)
      compact_batches-holds (suc fuel) (f ∷ files) store store' c c' enough h =
          go
            (λ s d.
              compact_batches-holds fuel (drop n files) s store' d c'
                (omega (arith, length-drop n files)))
            (batch_rows strip normalize (f ∷ take n files)) refl h
        where
          go :
              ((s : Store) (d : Compacted)
                → compact_batches strip normalize fuel delete_source (suc n) name (drop n files) s d
                  ≡ (store', ok c')
                → P (drop n files) s d store' c')
              → (r : Result CompactError (List String))
              → batch_rows strip normalize (f ∷ take n files) ≡ r
              → elim r as (λ _. Store × Result CompactError Compacted) [
                | err e ↦ (store, err e)
                | ok rows ↦
                    compact_batches strip normalize fuel delete_source
                      (suc n)
                      name
                      (drop n files)
                      (write_batch strip normalize delete_source
                        (name (c.batches + 1))
                        (f ∷ take n files)
                        rows
                        store)
                      (count_batch strip normalize (f ∷ take n files) c)
              ]
                ≡ (store', ok c')
              → P (f ∷ files) store c store' c'
          go later (err e) read g =
              absurd (ground (arith, ap (λ (p : Store × Result CompactError Compacted). p.1) g))
          go later (ok rows) read g =
              subst (λ l. P (f ∷ l) store c store' c') (take-drop n files)
                (more (f ∷ take n files) (drop n files) rows store store' c c' read (later _ _ g))

      pub compact-holds :
          (store store' : Store) (c : Compacted)
          → compact strip normalize delete_source (suc n) name store ≡ (store', ok c)
          → P
              (pending strip normalize delete_source store)
              store
              (record { batches = 0; files_compacted = 0 })
              store'
              c
      unfolding compact
      compact-holds store store' c h =
          compact_batches-holds (length (pending strip normalize delete_source store))
            (pending strip normalize delete_source store) store store'
            (record { batches = 0; files_compacted = 0 }) c (omega arith)
            (loop (pending strip normalize delete_source store) h)
        where
          loop :
              (files : List SourceFile)
              → compact_pending strip normalize delete_source (suc n) name files store
                ≡ (store', ok c)
              → compact_batches strip normalize
                  (length files)
                  delete_source
                  (suc n)
                  name
                  files
                  store
                  (record { batches = 0; files_compacted = 0 })
                ≡ (store', ok c)
          loop [] g = unfold compact_pending compact_batches in g
          loop (f ∷ files) g = unfold compact_pending in g

    -- A compaction that ends without an error has written, after the rows that were there, the rows
    -- of exactly the files that were still to do, in order, and counts these files, if its batches
    -- have different names and no output file has one of these names before. So it is for every
    -- positive batch size, with and without deletion.
    pub compact-Wrote :
        (store store' : Store) (c : Compacted)
        → ((i j : ℕ) → i < j → (name i == name j) ≡ false)
        → ((i : ℕ) → Absent (name i) store.outputs)
        → compact strip normalize delete_source (suc n) name store ≡ (store', ok c)
        → (rows : List String) × (batch_rows strip normalize
              (pending strip normalize delete_source store)
            ≡ ok rows)
          × (output_rows store'.outputs ≡ output_rows store.outputs ++ rows)
          × (c.files_compacted ≡ length (pending strip normalize delete_source store))
    compact-Wrote store store' c distinct new h =
        let (rows, read, written, counted) =
          compact-holds Wrote
            (λ s d fresh. (
              [],
              unfold batch_rows in refl,
              sym (append-nil (output_rows s.outputs)),
              omega arith,
            ))
            (Wrote-more distinct) store store' c h (λ i later. new i) in
        (rows, read, written, omega (arith, counted))
