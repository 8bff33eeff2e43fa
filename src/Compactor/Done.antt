-- ===== src/Compactor/Done.antt =====
-- What a compaction of filedge/compactor.py leaves to do.
use filedge.Base.{
  ℕ, suc, ◌+◌, String, ◌≡◌, refl, ◌∙◌, sym, ap, Bool, true, false, not, Option, List, [], ◌∷◌, ◌++◌,
  contains, select, arith, All, eq_refl, Bool-cases, inl, inr,
}
use mathlib.Core.List.{append-nil, append_assoc, map-append}
use filedge.Base.Result.{ok}
use filedge.Compactor.Compact.{
  SourceFile, Store, Compacted, basenames, paths, already_done, settle_batch, write_batch, pending,
  compact_pending, compact,
}
use filedge.Compactor.Rows.{contains-append, already_done-append, compact-holds}

module _ (strip : String → String) (normalize : String → Option String) where
  -- What is marked of the files that a loop has compacted: deleted, or recorded in the manifest.
  Marked : Bool → List SourceFile → Store → Store → Type 0
  Marked true files store store' =
      store'.sources
      ≡ select (λ (f : SourceFile). not (contains f.path (paths strip normalize files)))
          store.sources
  Marked false files store store' =
      (store'.sources ≡ store.sources)
      × (already_done strip normalize store'.manifest
          ≡ already_done strip normalize store.manifest ++ basenames strip normalize files)

  select-twice :
      (xs ys : List String) (files : List SourceFile)
      → select
          (λ (f : SourceFile). not (contains f.path ys))
          (select (λ (f : SourceFile). not (contains f.path xs)) files)
        ≡ select (λ (f : SourceFile). not (contains f.path (xs ++ ys))) files
  select-twice xs ys [] = refl
  select-twice xs ys (f ∷ files) =
      ground (arith, select-twice xs ys files, contains-append f.path xs ys)

  select-all :
      (files : List SourceFile)
      → select (λ (f : SourceFile). not (contains f.path [])) files ≡ files
  select-all [] = refl
  select-all (f ∷ files) = ap (λ l. f ∷ l) (select-all files)

  Marked-base : (delete_source : Bool) (store : Store) → Marked delete_source [] store store
  unfolding Marked
  Marked-base true store = sym (select-all store.sources)
  Marked-base false store = (refl, sym (append-nil _))

  single : (names : List String) → already_done strip normalize (names ∷ []) ≡ names
  unfolding already_done
  single names = append-nil names

  Marked-more :
      (delete_source : Bool) (batch later : List SourceFile) (rows : List String) (out : String)
      (store store' : Store)
      → Marked delete_source later
          (write_batch strip normalize delete_source out batch rows store)
          store'
      → Marked delete_source (batch ++ later) store store'
  unfolding Marked write_batch settle_batch
  Marked-more true batch later rows out store store' h =
      h
      ∙ select-twice (paths strip normalize batch) (paths strip normalize later) store.sources
      ∙ ap (λ l. select (λ (f : SourceFile). not (contains f.path l)) store.sources)
          (sym (map-append (λ (f : SourceFile). f.path) batch later))
  Marked-more false batch later rows out store store' (same, done) = (
    same,
    done
        ∙ ap (λ l. l ++ basenames strip normalize later)
            (already_done-append strip normalize store.manifest
                (basenames strip normalize batch ∷ [])
              ∙ ap (λ l. already_done strip normalize store.manifest ++ l)
                  (single (basenames strip normalize batch)))
        ∙ append_assoc (already_done strip normalize store.manifest)
            (basenames strip normalize batch) (basenames strip normalize later)
        ∙ ap (λ l. already_done strip normalize store.manifest ++ l)
            (sym (map-append (λ (f : SourceFile). f.basename) batch later)),
  )

  -- Nothing is selected of files whose keys are all known.
  select-covered :
      (key : SourceFile → String) (known : List String) (files : List SourceFile)
      → All (λ f. contains (key f) known ≡ true) files
      → select (λ f. not (contains (key f) known)) files ≡ []
  select-covered key known [] every = refl
  select-covered key known (f ∷ files) (here, every) =
      ground (arith, here, select-covered key known files every)

  covered_paths :
      (known : List String) (files : List SourceFile)
      → ((k : String) → contains k (paths strip normalize files) ≡ true → contains k known ≡ true)
      → All (λ (f : SourceFile). contains f.path known ≡ true) files
  covered_paths known [] every = tt
  covered_paths known (f ∷ files) every = (
    every f.path (ground (arith, eq_refl f.path)),
    covered_paths known files (λ k there. every k (ground (arith, there))),
  )

  covered_basenames :
      (done known : List String) (files : List SourceFile)
      → ((k : String) → contains k done ≡ true → contains k known ≡ true)
      → ((k : String)
          → contains k (
              basenames strip normalize
                (select (λ (f : SourceFile). not (contains f.basename done)) files))
            ≡ true
          → contains k known ≡ true)
      → All (λ (f : SourceFile). contains f.basename known ≡ true) files
  covered_basenames done known [] old new = tt
  covered_basenames done known (f ∷ files) old new = elim (Bool-cases (contains f.basename done)) [
    | inl there ↦ (
      old f.basename there,
      covered_basenames done known files old (λ k e. new k (ground (arith, there, e))),
    )
    | inr fresh ↦ (
      new f.basename (ground (arith, fresh, eq_refl f.basename)),
      covered_basenames done known files old (λ k e. new k (ground (arith, fresh, e))),
    )
  ]

  left_over :
      (delete_source : Bool) (store store' : Store)
      → Marked delete_source (pending strip normalize delete_source store) store store'
      → pending strip normalize delete_source store' ≡ []
  unfolding Marked pending
  left_over true store store' marked =
      marked
      ∙ select-covered (λ f. f.path) (paths strip normalize store.sources) store.sources
          (covered_paths (paths strip normalize store.sources) store.sources (λ k e. e))
  left_over false store store' (same, marked) =
      let done = already_done strip normalize store.manifest in
      let new =
        basenames strip normalize
          (select (λ (f : SourceFile). not (contains f.basename done)) store.sources) in
      ap
        (λ l.
          select
            (λ (f : SourceFile).
              not (contains f.basename (already_done strip normalize store'.manifest)))
            l)
        same
      ∙ ap (λ d. select (λ (f : SourceFile). not (contains f.basename d)) store.sources) marked
      ∙ select-covered (λ f. f.basename) (done ++ new) store.sources
          (covered_basenames done (done ++ new) store.sources
            (λ k e. ground (arith, e, contains-append k done new))
            (λ k e. ground (arith, e, contains-append k done new)))

  -- After a compaction that ends without an error, with a positive batch size, nothing is left to
  -- do: a second one, with any batch size and names, changes nothing and reports no batches. So it
  -- is with deletion, where the sources are gone, and without, where the manifest names them all.
  pub compact-again :
      (delete_source : Bool) (n m : ℕ) (name later : ℕ → String) (store store' : Store)
      (c : Compacted)
      → compact strip normalize delete_source (suc n) name store ≡ (store', ok c)
      → compact strip normalize delete_source m later store'
        ≡ (store', ok (record { batches = 0; files_compacted = 0 }))
  unfolding compact
  compact-again delete_source n m name later store store' c h =
      ap (λ files. compact_pending strip normalize delete_source m later files store')
        (left_over delete_source store store' (
          compact-holds strip normalize delete_source n name
            (λ files s d s' d'. Marked delete_source files s s')
            (λ s d. Marked-base delete_source s)
            (λ batch rest rows s s' d d' read marked.
              Marked-more delete_source batch rest rows (name (d.batches + 1)) s s' marked)
            store store' c h))
      ∙ unfold compact_pending in refl
