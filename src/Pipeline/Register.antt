-- ===== src/Pipeline/Register.antt =====
-- `register_files` of filedge/file_registration.py. The Files of the Watched Directory come with
-- their hashes and sizes; hashing, listing and the file system are parameters.
use filedge.Base.{ℕ, ◌+◌, String, Option, none, some, List, [], ◌∷◌, ◌++◌, map}
use filedge.Base.Dict
use filedge.Base.Dict.{Dict}
use filedge.Base.Result.{Result, ok, ◌>>=◌}
use filedge.Audit.Record.{FileState, pending, failed, SourceMetadata, AuditTable}
use filedge.Audit.Store.{insert_pending, claim_processing, mark_failed, get_hash_states}
use filedge.Load.Config.{ManifestPolicy, disabled, required_manifest}
use filedge.Pipeline.Manifest.{ManifestResult}

-- A File of the Watched Directory, with `compute_hash` and `file_size`.
pub record SourceFile : Type 0 where
  pub path : String
  pub basename : String
  pub content_hash : String
  pub size : ℕ

pub record LoadCandidate : Type 0 where
  pub path : String
  pub content_hash : String
  pub size : ℕ

pub record PreLoadFailure : Type 0 where
  pub path : String
  pub content_hash : String
  pub error : String

-- What the loops keep: the table and the clock, and the local variables.
pub record Registering : Type 0 where
  pub audit : AuditTable
  pub now : ℕ
  pub hash_states : Dict FileState
  pub manifest_errors : Dict String
  pub new_files : ℕ
  pub load_candidates : List LoadCandidate
  pub pre_load_failures : List PreLoadFailure
  pub failed_pre_load : ℕ
  pub skipped : ℕ

module _ (tick : ℕ → ℕ) (policy : ManifestPolicy) (watched_dir : String) where
  -- `discover_and_parse` on the File's sidecar, and the text of a category with its path.
  module _ (discover : String → Result String ManifestResult)
      (describe : ManifestResult → String) where
    -- The metadata to record, and the error that required mode keeps for the second loop.
    metadata_and_error : ManifestResult → Option SourceMetadata × Option String
    metadata_and_error m = elim m.metadata [
      | some metadata ↦ (some metadata, none)
      | none ↦ elim policy [ required_manifest ↦ (none, some (describe m)) | _ ↦ (none, none) ]
    ]

    unfoldable pub apply_policy : SourceFile → Result String (Option SourceMetadata × Option String)
    unfolding metadata_and_error
    apply_policy f = elim policy [
      | disabled ↦ ok (none, none)
      | _ ↦ do m ← discover f.path; ok (metadata_and_error m)
    ]

    unfoldable pub noted : String → Option String → Dict String → Dict String
    noted h none errors = errors
    noted h (some e) errors = Dict.insert h e errors

    -- The body of the first loop, for a hash that is not tracked yet.
    unfoldable pub register_new :
        SourceFile → Registering → Option SourceMetadata × Option String → Registering
    unfolding noted
    register_new f r (metadata, error) = record r {
      audit = insert_pending r.now r.audit f.basename f.content_hash (some watched_dir) metadata;
      now = tick r.now;
      hash_states = Dict.insert f.content_hash pending r.hash_states;
      manifest_errors = noted f.content_hash error r.manifest_errors;
      new_files = r.new_files + 1;
    }

    unfoldable pub register_file : SourceFile → Registering → Result String Registering
    unfolding register_new apply_policy
    register_file f r = elim (Dict.lookup f.content_hash r.hash_states) [
      | some state ↦ ok r
      | none ↦ do found ← apply_policy f; ok (register_new f r found)
    ]

    unfoldable pub register_all : List SourceFile → Registering → Result String Registering
    unfolding register_file
    register_all [] r = ok r
    register_all (f ∷ files) r = do r' ← register_file f r; register_all files r'

module _ (tick : ℕ → ℕ) (run_id : Option String) where
  -- The body of the second loop.
  unfoldable pub fail_pre_load : SourceFile → String → Registering → Registering
  fail_pre_load f error r = record r {
    audit =
        mark_failed (tick r.now) (claim_processing r.now r.audit f.content_hash none run_id).0
          f.content_hash error;
    now = tick (tick r.now);
    pre_load_failures =
        r.pre_load_failures
        ++ (record { path = f.path; content_hash = f.content_hash; error = error } ∷ []);
    failed_pre_load = r.failed_pre_load + 1;
  }

  unfoldable pub add_candidate : SourceFile → Option FileState → Registering → Registering
  add_candidate f (some pending) r = record r {
    load_candidates =
        r.load_candidates
        ++ (record { path = f.path; content_hash = f.content_hash; size = f.size } ∷ []);
  }
  add_candidate f (some failed) r = record r { skipped = r.skipped + 1 }
  add_candidate f _ r = r

  unfoldable pub sort_file : SourceFile → Registering → Registering
  unfolding fail_pre_load add_candidate
  sort_file f r = elim (Dict.lookup f.content_hash r.manifest_errors) [
    | some error ↦ fail_pre_load f error r
    | none ↦ add_candidate f (Dict.lookup f.content_hash r.hash_states) r
  ]

  unfoldable pub sort_all : List SourceFile → Registering → Registering
  unfolding sort_file
  sort_all [] r = r
  sort_all (f ∷ files) r = sort_all files (sort_file f r)

-- The local variables before the loops.
unfoldable pub begin : ℕ → AuditTable → List SourceFile → Registering
begin now audit files = record {
  audit = audit;
  now = now;
  hash_states = get_hash_states audit (map (λ (f : SourceFile). f.content_hash) files);
  manifest_errors = [];
  new_files = 0;
  load_candidates = [];
  pre_load_failures = [];
  failed_pre_load = 0;
  skipped = 0;
}

-- An error is an exception that ends the Run.
unfoldable pub register_files :
    (ℕ → ℕ)
    → ManifestPolicy
    → String
    → Option String
    → (String → Result String ManifestResult)
    → (ManifestResult → String)
    → ℕ
    → AuditTable
    → List SourceFile
    → Result String Registering
unfolding register_all sort_all begin
register_files tick policy watched_dir run_id discover describe now audit files = do
  r ← register_all tick policy watched_dir discover describe files (begin now audit files)
  ok (sort_all tick run_id files r)
