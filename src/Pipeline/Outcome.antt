-- ===== src/Pipeline/Outcome.antt =====
-- The loop over the load candidates of `run_pipeline` (filedge/pipeline.py): what one round does to
-- the File's audit row, to the other rows, and to the destination.
use filedge.Base.{
  ℕ, ◌+◌, String, ◌≡◌, refl, ◌∙◌, sym, ap, ◌≢◌, Bool, true, false, Option, none, some, List, arith,
  eq_iff, Bool-cases, inl, inr, if◌then◌else◌, ◌==◌,
}
use filedge.Audit.Record.{pending, committed, failed, same_state, FileRecord, AuditTable}
use filedge.Audit.Sql.{first, update, has_hash, on_row, UniqueHashes, first-update}
use filedge.Audit.Store.{
  find_file_by_hash, claimable, claim, claim_processing, mark_committed, mark_failed,
}
use filedge.Audit.Lock.{
  is_claimable, claim_processing-is_claimable, find-claim_processing, content_hash-first,
}
use filedge.Quarantine.Stream.{LoadError}
use filedge.Load.LoadFile.{LoadOutcome, loaded, failed_load}
use filedge.Pipeline.Register.{LoadCandidate}
use filedge.Pipeline.World.{World, with_audit}
use filedge.Pipeline.Run.{Summary, record_outcome, load_claimed, process_candidate}

-- The row of the hash, after an update that reaches it.
find-mark :
    (set_ : FileRecord → FileRecord) (h : String) (db : AuditTable) (r : FileRecord)
    → ((q : FileRecord) → (set_ q).content_hash ≡ q.content_hash)
    → find_file_by_hash db h ≡ some r
    → first (has_hash h) (update (has_hash h) set_ db.rows) ≡ some (set_ r)
unfolding find_file_by_hash
find-mark set_ h db r keeps found =
    first-update (has_hash h) set_ keeps h db.rows
    ∙ ground (arith, content_hash-first h db.rows r found, eq_iff r.content_hash h)

-- The row of another hash, after an update that reaches only rows of the first.
pub find-mark_other :
    (set_ : FileRecord → FileRecord) (h j : String) (db : AuditTable)
    → ((q : FileRecord) → (set_ q).content_hash ≡ q.content_hash)
    → h ≢ j
    → first (has_hash j) (update (has_hash h) set_ db.rows) ≡ first (has_hash j) db.rows
find-mark_other set_ h j db keeps differ =
    first-update (has_hash h) set_ keeps j db.rows ∙ go (first (has_hash j) db.rows) refl
  where
    go : (o : Option FileRecord) → first (has_hash j) db.rows ≡ o → on_row (has_hash h) set_ o ≡ o
    go none e = refl
    go (some q) e = ground (arith, content_hash-first j db.rows q e, eq_iff q.content_hash h)

pub claimed-found :
    (now : ℕ) (db : AuditTable) (h : String) (w run : Option String) (r : FileRecord)
    → find_file_by_hash db h ≡ some r
    → r.state ≡ pending
    → find_file_by_hash (claim_processing now db h w run).0 h ≡ some (claim now w run r)
unfolding find_file_by_hash
claimed-found now db h w run r found waits =
    find-claim_processing now db h h w run
    ∙ ground (arith, content_hash-first h db.rows r found, eq_iff r.content_hash h)

pub claimed-other :
    (now : ℕ) (db : AuditTable) (h j : String) (w run : Option String)
    → h ≢ j
    → find_file_by_hash (claim_processing now db h w run).0 j ≡ find_file_by_hash db j
unfolding find_file_by_hash
claimed-other now db h j w run differ =
    find-claim_processing now db h j w run ∙ go (first (has_hash j) db.rows) refl
  where
    go :
        (o : Option FileRecord)
        → first (has_hash j) db.rows ≡ o
        → on_row (claimable h) (claim now w run) o ≡ o
    go none e = refl
    go (some q) e = ground (arith, content_hash-first j db.rows q e, eq_iff q.content_hash h)

idle_row :
    (h j : String) (rows : List FileRecord) (q : FileRecord)
    → is_claimable (first (has_hash h) rows) ≡ false
    → first (has_hash j) rows ≡ some q
    → (q.content_hash == h) ≡ true
    → same_state q.state pending ≡ false
unfolding is_claimable
idle_row h j rows q idle e same = ap is_claimable (sym found_h) ∙ idle
  where
    h_is_j : h ≡ j
    h_is_j = sym ((eq_iff q.content_hash h).0 same) ∙ content_hash-first j rows q e

    found_h : first (has_hash h) rows ≡ some q
    found_h = ap (λ x. first (has_hash x) rows) h_is_j ∙ e

-- A claim of a File that is not PENDING changes no row.
unclaimed-found :
    (now : ℕ) (db : AuditTable) (h j : String) (w run : Option String)
    → is_claimable (find_file_by_hash db h) ≡ false
    → find_file_by_hash (claim_processing now db h w run).0 j ≡ find_file_by_hash db j
unfolding find_file_by_hash is_claimable
unclaimed-found now db h j w run idle =
    find-claim_processing now db h j w run ∙ go (first (has_hash j) db.rows) refl
  where
    go :
        (o : Option FileRecord)
        → first (has_hash j) db.rows ≡ o
        → on_row (claimable h) (claim now w run) o ≡ o
    go none e = refl
    go (some q) e = elim (Bool-cases (q.content_hash == h)) [
      | inl same ↦ ground (arith, idle_row h j db.rows q idle e same)
      | inr other ↦ rw other
    ]

module _ {S : Type 0} (tick : ℕ → ℕ) (load : String → String → ℕ → S → S × LoadOutcome)
    (message : LoadError → String) (run_id : Option String) where
  -- What a File's row becomes, from the time of its claim and the time of its mark: the whole row
  -- after a load that worked, and after one that failed.
  unfoldable pub marked_row : ℕ → ℕ → LoadOutcome → FileRecord → FileRecord
  marked_row claimed now (loaded rows quarantined path) r = record r {
    state = committed;
    worker_id = none;
    run_id = run_id;
    claimed_at = some claimed;
    updated_at = now;
    row_count = some rows;
    quarantined_row_count = some quarantined;
    quarantine_path = path;
  }
  marked_row claimed now (failed_load e) r = record r {
    state = failed;
    attempt_count = r.attempt_count + 1;
    error_message = some (message e);
    worker_id = none;
    run_id = run_id;
    claimed_at = some claimed;
    updated_at = now;
  }

  Claimable : LoadCandidate → World S → Type 0
  unfolding is_claimable
  Claimable f w = is_claimable (find_file_by_hash w.audit f.content_hash) ≡ true

  found_outcome :
      (h : String) (claimed : ℕ) (r : FileRecord) (w : World S) (s : Summary) (o : LoadOutcome)
      → find_file_by_hash w.audit h ≡ some (claim claimed none run_id r)
      → find_file_by_hash (record_outcome tick load message run_id h w s o).0.audit h
        ≡ some (marked_row claimed w.now o r)
  unfolding find_file_by_hash record_outcome marked_row mark_committed mark_failed
  found_outcome h claimed r w s (loaded n q p) found = find-mark _ h w.audit _ (λ x. refl) found
  found_outcome h claimed r w s (failed_load e) found = find-mark _ h w.audit _ (λ x. refl) found

  other_outcome :
      (h j : String) (w : World S) (s : Summary) (o : LoadOutcome)
      → h ≢ j
      → find_file_by_hash (record_outcome tick load message run_id h w s o).0.audit j
        ≡ find_file_by_hash w.audit j
  unfolding find_file_by_hash record_outcome mark_committed mark_failed
  other_outcome h j w s (loaded n q p) differ = find-mark_other _ h j w.audit (λ x. refl) differ
  other_outcome h j w s (failed_load e) differ = find-mark_other _ h j w.audit (λ x. refl) differ

  dest_outcome :
      (h : String) (w : World S) (s : Summary) (o : LoadOutcome)
      → (record_outcome tick load message run_id h w s o).0.dest ≡ w.dest
  unfolding record_outcome
  dest_outcome h w s (loaded n q p) = refl
  dest_outcome h w s (failed_load e) = refl

  module _ (f : LoadCandidate) (w : World S) (s : Summary) where
    taken : AuditTable × Bool
    taken = claim_processing w.now w.audit f.content_hash none run_id

    body : World S × Summary
    body = process_candidate tick load message run_id f w s

    step : World S × Summary
    step = load_claimed tick load message run_id f (with_audit tick w taken.0) s

    body-eq : body ≡ (if taken.1 then step else (with_audit tick w taken.0, s))
    unfolding body step taken process_candidate
    body-eq = refl

    body-claimed : UniqueHashes w.audit.rows → Claimable f w → body ≡ step
    unfolding Claimable taken
    body-claimed u waits =
        body-eq
        ∙ ap (λ b. if b then step else (with_audit tick w taken.0, s))
            (claim_processing-is_claimable w.now w.audit f.content_hash none run_id u ∙ waits)

    body-unclaimed :
        UniqueHashes w.audit.rows
        → is_claimable (find_file_by_hash w.audit f.content_hash) ≡ false
        → body ≡ (with_audit tick w taken.0, s)
    unfolding taken
    body-unclaimed u idle =
        body-eq
        ∙ ap (λ b. if b then step else (with_audit tick w taken.0, s))
            (claim_processing-is_claimable w.now w.audit f.content_hash none run_id u ∙ idle)

    -- In a table with unique hashes, a candidate whose row is PENDING is loaded once: the
    -- destination is what the load makes of it. After a load that worked the row is COMMITTED with
    -- the load's row count, its count of quarantined rows and its sidecar's path; after one that
    -- failed it is FAILED with one more attempt and the message. Either way it keeps the Run's id
    -- and the time of the claim, has no worker, and its other columns are as they were.
    pub process_candidate-claimed :
        (r : FileRecord)
        → UniqueHashes w.audit.rows
        → find_file_by_hash w.audit f.content_hash ≡ some r
        → r.state ≡ pending
        → let (dest, outcome) = load f.path f.content_hash (tick w.now) w.dest in
          let w' = (process_candidate tick load message run_id f w s).0 in
          (w'.dest ≡ dest)
          × (find_file_by_hash w'.audit f.content_hash
              ≡ some (marked_row w.now (tick (tick w.now)) outcome r))
    unfolding body step taken load_claimed Claimable is_claimable
    process_candidate-claimed r u found waits =
        let eq = ap (λ p. p.0) (body-claimed u (rw found (ground (arith)))) in
        (
          ap (λ x. x.dest) eq ∙ dest_outcome _ _ s _,
          ap (λ x. find_file_by_hash x.audit f.content_hash) eq
              ∙ found_outcome f.content_hash w.now r _ s _
                  (claimed-found w.now w.audit f.content_hash none run_id r found waits),
        )

    -- In a table with unique hashes, a candidate that is not PENDING is not loaded: the
    -- destination, the summary and the row of every hash stay as they are.
    pub process_candidate-unclaimed :
        (j : String)
        → UniqueHashes w.audit.rows
        → is_claimable (find_file_by_hash w.audit f.content_hash) ≡ false
        → let (w', s') = process_candidate tick load message run_id f w s in
          (w'.dest ≡ w.dest)
          × (s' ≡ s)
          × (find_file_by_hash w'.audit j ≡ find_file_by_hash w.audit j)
    unfolding body taken
    process_candidate-unclaimed j u idle =
        let eq = body-unclaimed u idle in
        (
          ap (λ p. p.0.dest) eq,
          ap (λ p. p.1) eq,
          ap (λ p. find_file_by_hash p.0.audit j) eq
              ∙ unclaimed-found w.now w.audit f.content_hash j none run_id idle,
        )

    -- In a table with unique hashes, processing a candidate changes the row of no other hash,
    -- whether or not the candidate is loaded.
    pub process_candidate-others :
        (j : String)
        → UniqueHashes w.audit.rows
        → f.content_hash ≢ j
        → find_file_by_hash (process_candidate tick load message run_id f w s).0.audit j
          ≡ find_file_by_hash w.audit j
    unfolding body step taken load_claimed Claimable
    process_candidate-others j u differ =
        elim (Bool-cases (is_claimable (find_file_by_hash w.audit f.content_hash))) [
          | inl waits ↦
              ap (λ p. find_file_by_hash p.0.audit j) (body-claimed u waits)
              ∙ other_outcome f.content_hash j _ s _ differ
              ∙ claimed-other w.now w.audit f.content_hash j none run_id differ
          | inr idle ↦
              ap (λ p. find_file_by_hash p.0.audit j) (body-unclaimed u idle)
              ∙ claimed-other w.now w.audit f.content_hash j none run_id differ
        ]
