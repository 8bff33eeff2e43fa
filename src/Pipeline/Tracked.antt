-- ===== src/Pipeline/Tracked.antt =====
-- Registration of Files whose content an earlier Run has seen (filedge/file_registration.py).
use filedge.Base.{
  ℕ, String, ◌≡◌, refl, ◌∙◌, Option, some, List, [], ◌∷◌, ◌++◌, All, map, contains, select, length,
  ◌+◌, Bool, false, none, sym, ap, subst, arith, true, eq_refl,
}
use mathlib.Core.List.{append-nil, append_assoc}
use filedge.Base.Dict
use filedge.Base.Dict.{Dict, lookup-nil}
use filedge.Base.Result.{Result, ok}
use filedge.Audit.Record.{
  FileState, pending, processing, committed, failed, same_state, FileRecord, AuditTable,
}
use filedge.Audit.Sql.{UniqueHashes}
use filedge.Audit.States.{get_hash_states_lem}
use filedge.Audit.Store.{find_file_by_hash}
use filedge.Load.Config.{ManifestPolicy}
use filedge.Pipeline.Manifest.{ManifestResult}
use filedge.Pipeline.Register.{
  SourceFile, Registering, register_file, LoadCandidate, register_all, add_candidate, sort_file,
  sort_all, begin, register_files,
}

pub candidate_of : SourceFile → LoadCandidate
candidate_of f = record { path = f.path; content_hash = f.content_hash; size = f.size }

in_state : FileState → Option FileRecord → Bool
in_state s none = false
in_state s (some r) = same_state r.state s

-- The Files whose row is in this state, in order.
pub files_in : FileState → AuditTable → List SourceFile → List SourceFile
unfolding in_state
files_in s audit files =
    select (λ (f : SourceFile). in_state s (find_file_by_hash audit f.content_hash)) files

files_in-cons :
    (s state : FileState) (audit : AuditTable) (f : SourceFile) (files : List SourceFile)
    (row : FileRecord)
    → find_file_by_hash audit f.content_hash ≡ some row
    → row.state ≡ state
    → let rest = files_in s audit files in
      files_in s audit (f ∷ files)
      ≡ elim (same_state state s) as (λ _. List SourceFile) [ true ↦ f ∷ rest | false ↦ rest ]
unfolding files_in
files_in-cons s state audit f files row found e =
    let rest = files_in s audit files in
    ap (λ (b : Bool). elim b as (λ _. List SourceFile) [ true ↦ f ∷ rest | false ↦ rest ])
      (ap (in_state s) found ∙ ap (λ (x : FileState). same_state x s) e)

-- What the second loop does to `r`: the Files with a PENDING row become candidates, those with a
-- FAILED row are counted as skipped, and no File is failed or inserted.
pub record Sorted (audit : AuditTable) (files : List SourceFile) (r after : Registering)
    : Type 0 where
  pub table : after.audit ≡ r.audit
  pub candidates :
      after.load_candidates ≡ r.load_candidates ++ map candidate_of (files_in pending audit files)
  pub skipped : after.skipped ≡ r.skipped + length (files_in failed audit files)
  pub new_files : after.new_files ≡ r.new_files
  pub failures : after.pre_load_failures ≡ r.pre_load_failures
  pub failed_pre_load : after.failed_pre_load ≡ r.failed_pre_load

hashes_of : List SourceFile → List String
hashes_of files = map (λ (f : SourceFile). f.content_hash) files

hashes_of-asked :
    (asked : List String) (files : List SourceFile)
    → ((h : String) → contains h (hashes_of files) ≡ true → contains h asked ≡ true)
    → All (λ (f : SourceFile). contains f.content_hash asked ≡ true) files
unfolding hashes_of
hashes_of-asked asked [] every = tt
hashes_of-asked asked (f ∷ files) every = (
  every f.content_hash (ground (arith, eq_refl f.content_hash)),
  hashes_of-asked asked files (λ h e. every h (ground (arith, e))),
)

module _ (tick : ℕ → ℕ) (policy : ManifestPolicy) (watched_dir : String) (run_id : Option String)
    (discover : String → Result String ManifestResult) (describe : ManifestResult → String) where
  register_all-tracked :
      (files : List SourceFile) (r : Registering)
      → All
          (λ (f : SourceFile).
            (state : FileState) × (Dict.lookup f.content_hash r.hash_states ≡ some state))
          files
      → register_all tick policy watched_dir discover describe files r ≡ ok r
  unfolding register_all register_file
  register_all-tracked [] r h = refl
  register_all-tracked (f ∷ files) r ((state, e), h) =
      rw (register_file, e) (register_all-tracked files r h)

  -- Every File asked for that has a row has a state in the table that the loops look up.
  begin-tracked :
      (now : ℕ) (audit : AuditTable) (asked files : List SourceFile)
      → UniqueHashes audit.rows
      → All
          (λ (f : SourceFile).
            contains f.content_hash (map (λ (g : SourceFile). g.content_hash) asked) ≡ true)
          files
      → All
          (λ (f : SourceFile).
            (row : FileRecord) × (find_file_by_hash audit f.content_hash ≡ some row))
          files
      → All
          (λ (f : SourceFile).
            (state : FileState) × (Dict.lookup f.content_hash (begin now audit asked).hash_states
              ≡ some state))
          files
  unfolding begin
  begin-tracked now audit asked [] u isin h = tt
  begin-tracked now audit asked (f ∷ files) u (e, isin) ((row, found), h) = (
    (row.state, get_hash_states_lem audit _ f.content_hash u ∙ rw (e, found) refl),
    begin-tracked now audit asked files u isin h,
  )

  register_files-known :
      (now : ℕ) (audit : AuditTable) (files : List SourceFile)
      → UniqueHashes audit.rows
      → All
          (λ (f : SourceFile).
            (row : FileRecord) × (find_file_by_hash audit f.content_hash ≡ some row))
          files
      → register_files tick policy watched_dir run_id discover describe now audit files
        ≡ ok (sort_all tick run_id files (begin now audit files))
  unfolding register_files hashes_of
  register_files-known now audit files u h =
      rw
        (register_all-tracked files (begin now audit files)
          (begin-tracked now audit files files u (hashes_of-asked _ files (λ k e. e)) h))
        refl

  -- Every File has a row, and the state of the row is in the table that the loops look up.
  begin-known :
      (now : ℕ) (audit : AuditTable) (asked files : List SourceFile)
      → UniqueHashes audit.rows
      → All
          (λ (f : SourceFile).
            contains f.content_hash (map (λ (g : SourceFile). g.content_hash) asked) ≡ true)
          files
      → All
          (λ (f : SourceFile).
            (row : FileRecord) × (find_file_by_hash audit f.content_hash ≡ some row))
          files
      → All
          (λ (f : SourceFile).
            (row : FileRecord) × (find_file_by_hash audit f.content_hash ≡ some row)
            × (Dict.lookup f.content_hash (begin now audit asked).hash_states ≡ some row.state))
          files
  unfolding begin
  begin-known now audit asked [] u isin h = tt
  begin-known now audit asked (f ∷ files) u (e, isin) ((row, found), h) = (
    (row, found, get_hash_states_lem audit _ f.content_hash u ∙ rw (e, found) refl),
    begin-known now audit asked files u isin h,
  )

  sort_file-known :
      (f : SourceFile) (r : Registering) (s : FileState)
      → r.manifest_errors ≡ []
      → Dict.lookup f.content_hash r.hash_states ≡ some s
      → sort_file tick run_id f r ≡ add_candidate tick run_id f (some s) r
  unfolding sort_file
  sort_file-known f r s fine state =
      let no_error : Dict.lookup f.content_hash r.manifest_errors ≡ none =
        ap (Dict.lookup f.content_hash) fine ∙ lookup-nil f.content_hash in
      rw (no_error, sort_file) (rw state refl)

  -- What the second loop leaves alone for a File whose state is known.
  Untouched : Registering → Registering → Type 0
  Untouched r after =
      (after.manifest_errors ≡ r.manifest_errors)
      × (after.hash_states ≡ r.hash_states)
      × (after.audit ≡ r.audit)
      × (after.new_files ≡ r.new_files)
      × (after.pre_load_failures ≡ r.pre_load_failures)
      × (after.failed_pre_load ≡ r.failed_pre_load)

  add_candidate-Untouched :
      (f : SourceFile) (s : FileState) (r : Registering)
      → Untouched r (add_candidate tick run_id f (some s) r)
  unfolding add_candidate Untouched
  add_candidate-Untouched f pending r = (refl, refl, refl, refl, refl, refl)
  add_candidate-Untouched f processing r = (refl, refl, refl, refl, refl, refl)
  add_candidate-Untouched f committed r = (refl, refl, refl, refl, refl, refl)
  add_candidate-Untouched f failed r = (refl, refl, refl, refl, refl, refl)

  -- What it adds for one, before the Files that follow.
  add_candidate-adds :
      (audit : AuditTable) (f : SourceFile) (files : List SourceFile) (r : Registering)
      (s : FileState)
      → let next = add_candidate tick run_id f (some s) r in
        let waiting = files_in pending audit files in
        let stopped = files_in failed audit files in
        (next.load_candidates ++ map candidate_of waiting
          ≡ r.load_candidates
            ++ map candidate_of (elim (same_state s pending) as (λ _. List SourceFile) [
              | true ↦ f ∷ waiting
              | false ↦ waiting
            ]))
        × (next.skipped + length stopped
            ≡ r.skipped
              + length (elim (same_state s failed) as (λ _. List SourceFile) [
                | true ↦ f ∷ stopped
                | false ↦ stopped
              ]))
  unfolding add_candidate candidate_of
  add_candidate-adds audit f files r pending =
      (append_assoc r.load_candidates (candidate_of f ∷ []) _, refl)
  add_candidate-adds audit f files r failed = (refl, omega arith)
  add_candidate-adds audit f files r processing = (refl, refl)
  add_candidate-adds audit f files r committed = (refl, refl)

  -- One File with a row in this state, and the loop over the others.
  Sorted-more :
      (audit : AuditTable) (f : SourceFile) (files : List SourceFile) (r : Registering)
      (row : FileRecord) (after : Registering)
      → find_file_by_hash audit f.content_hash ≡ some row
      → (s : FileState) → row.state ≡ s
      → Sorted audit files (add_candidate tick run_id f (some s) r) after
      → Sorted audit (f ∷ files) r after
  unfolding Untouched
  Sorted-more audit f files r row after found state e later =
      let waiting = files_in-cons pending state audit f files row found e in
      let stopped = files_in-cons failed state audit f files row found e in
      let candidates = ap (λ l. r.load_candidates ++ map candidate_of l) (sym waiting) in
      let skipped = ap (λ (l : List SourceFile). r.skipped + length l) (sym stopped) in
      let (added, counted) = add_candidate-adds audit f files r state in
      record {
        table = later.table ∙ (add_candidate-Untouched f state r).2;
        candidates = later.candidates ∙ added ∙ candidates;
        skipped = later.skipped ∙ counted ∙ skipped;
        new_files = later.new_files ∙ (add_candidate-Untouched f state r).3;
        failures = later.failures ∙ (add_candidate-Untouched f state r).4;
        failed_pre_load = later.failed_pre_load ∙ (add_candidate-Untouched f state r).5;
      }

  -- The second loop, when no File has a manifest error and every File's state is known.
  sort_all-known :
      (audit : AuditTable) (files : List SourceFile) (r : Registering)
      → r.manifest_errors ≡ []
      → All
          (λ (f : SourceFile).
            (row : FileRecord) × (find_file_by_hash audit f.content_hash ≡ some row)
            × (Dict.lookup f.content_hash r.hash_states ≡ some row.state))
          files
      → Sorted audit files r (sort_all tick run_id files r)
  unfolding sort_all files_in Untouched
  sort_all-known audit [] r fine known = record {
    table = refl;
    candidates = sym (append-nil r.load_candidates);
    skipped = omega arith;
    new_files = refl;
    failures = refl;
    failed_pre_load = refl;
  }
  sort_all-known audit (f ∷ files) r fine ((row, found, state), known) =
      let next = add_candidate tick run_id f (some row.state) r in
      let step : sort_file tick run_id f r ≡ next = sort_file-known f r row.state fine state in
      let errors : next.manifest_errors ≡ [] = (add_candidate-Untouched f row.state r).0 ∙ fine in
      let states = (add_candidate-Untouched f row.state r).1 in
      let later = sort_all-known audit files next errors (
        subst
          (λ (d : Dict FileState).
            All
              (λ (g : SourceFile).
                (row : FileRecord) × (find_file_by_hash audit g.content_hash ≡ some row)
                × (Dict.lookup g.content_hash d ≡ some row.state))
              files)
          (sym states) known) in
      subst (λ (x : Registering). Sorted audit (f ∷ files) r (sort_all tick run_id files x))
        (sym step)
        (Sorted-more audit f files r row (sort_all tick run_id files next) found row.state refl
          later)

  -- If all Files are in an audit table with unique hashes already, registering them raises nothing,
  -- leaves the audit table as it was and fails no File before its load, whatever the manifest
  -- policy and whatever their sidecars hold. The load candidates are the Files whose row is
  -- PENDING, in order, and as many Files are skipped as there are with a FAILED row.
  pub register_files-tracked :
      (now : ℕ) (audit : AuditTable) (files : List SourceFile)
      → UniqueHashes audit.rows
      → All
          (λ (f : SourceFile).
            (row : FileRecord) × (find_file_by_hash audit f.content_hash ≡ some row))
          files
      → (after : Registering) × (register_files tick policy watched_dir run_id discover describe now
            audit files
          ≡ ok after)
        × (after.audit ≡ audit)
        × (after.load_candidates ≡ map candidate_of (files_in pending audit files))
        × (after.skipped ≡ length (files_in failed audit files))
        × (after.new_files ≡ 0)
        × (after.pre_load_failures ≡ [])
        × (after.failed_pre_load ≡ 0)
  unfolding begin
  register_files-tracked now audit files u h =
      let sorted = sort_all-known audit files (begin now audit files) refl (
        begin-known now audit files files u (unfold hashes_of in hashes_of-asked _ files (λ k e. e))
          h) in
      (
        sort_all tick run_id files (begin now audit files),
        register_files-known now audit files u h,
        sorted.table,
        sorted.candidates,
        sorted.skipped ∙ omega arith,
        sorted.new_files,
        sorted.failures,
        sorted.failed_pre_load,
      )
