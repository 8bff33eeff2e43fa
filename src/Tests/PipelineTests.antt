-- ===== src/Tests/PipelineTests.antt =====
-- The theorems on a Run, at a load that counts in the destination how often it was called.
use filedge.Base.{
  ℕ, ◌+◌, String, ◌≡◌, ◌≢◌, refl, false, none, some, List, [], ◌∷◌, eq_iff, map, length,
}
use filedge.Base.Dict
use filedge.Base.Result.{Result, ok, err}
use filedge.Audit.Record.{pending, failed, AuditTable}
use filedge.Audit.Sql.{first, update}
use filedge.Audit.Store.{
  find_file_by_hash, get_hash_states, reclaim_stale_processing, reset_eligible_failed,
  requeue_all_terminal_failed,
}
use filedge.Audit.Lock.{is_claimable}
use filedge.Audit.Lifecycle.{Runs, requeue_all}
use filedge.Quarantine.Stream.{LoadError}
use filedge.Load.Config.{required_manifest}
use filedge.Load.LoadFile.{LoadOutcome, loaded}
use filedge.Pipeline.Manifest.{ManifestResult}
use filedge.Pipeline.Register.{SourceFile, LoadCandidate, Registering, register_files}
use filedge.Pipeline.World.{World}
use filedge.Pipeline.Run.{Summary, process_candidate, process_all, run_pipeline}
use filedge.Pipeline.Outcome.{marked_row, process_candidate-claimed}
use filedge.Pipeline.Forever.{Sequence, start, ran, operated, committed_forever}
use filedge.Pipeline.Refines.{process_all-Runs}
use filedge.Pipeline.Tracked.{candidate_of, files_in, register_files-tracked}
use filedge.Tests.Data.{
  waiting_file, loaded_file, dead_file, three_files, three_files-UniqueHashes,
  three_files-IsConsistent,
}

abbrev next : ℕ → ℕ
next now = now + 1

abbrev load : String → String → ℕ → ℕ → ℕ × LoadOutcome
load path h now calls = (calls + 1, loaded 4 0 none)

abbrev message : LoadError → String
message e = "failed"

abbrev world : World ℕ
world = record { audit = three_files; dest = 0; now = 20 }

abbrev summary : Summary
summary = record {
  committed = 0;
  failed = 0;
  skipped = 0;
  new_files = 1;
  reclaimed = 0;
  retried = 0;
  rows_committed = 0;
  quarantined_rows = 0;
}

abbrev candidate_a : LoadCandidate
candidate_a = record { path = "in/a.csv"; content_hash = "aa"; size = 9 }

abbrev candidate_b : LoadCandidate
candidate_b = record { path = "in/b.csv"; content_hash = "bb"; size = 9 }

a_found : find_file_by_hash three_files "aa" ≡ some waiting_file
unfolding find_file_by_hash first
a_found = refl

b_idle : is_claimable (find_file_by_hash three_files "bb") ≡ false
unfolding is_claimable find_file_by_hash first
b_idle = refl

a_not_b : candidate_a.content_hash ≢ candidate_b.content_hash
a_not_b e = cc ((eq_iff "aa" "bb").1 e)

process_candidate-claimed_example :
    ((process_candidate next load message none candidate_a world summary).0.dest ≡ 1)
    × (find_file_by_hash
          (process_candidate next load message none candidate_a world summary).0.audit
          "aa"
        ≡ some (marked_row next load message none 20 22 (loaded 4 0 none) waiting_file))
process_candidate-claimed_example =
    process_candidate-claimed next load message none candidate_a world summary waiting_file
      three_files-UniqueHashes a_found refl

process_all-Runs_example :
    Runs 3 three_files
      (process_all next load message none
        (candidate_a ∷ candidate_b ∷ candidate_a ∷ [])
        world
        summary).0.audit
process_all-Runs_example =
    process_all-Runs next load message none 3 (candidate_a ∷ candidate_b ∷ candidate_a ∷ []) world
      summary three_files-IsConsistent

-- A directory whose sidecars cannot be read, under a required manifest.
abbrev unreadable : String → Result String ManifestResult
unreadable path = err "AttributeError"

abbrev describe : ManifestResult → String
describe m = m.manifest_path

abbrev files : List SourceFile
files =
    record { path = "in/a.csv"; basename = "a.csv"; content_hash = "aa"; size = 9 }
    ∷ record { path = "in/c.csv"; basename = "c.csv"; content_hash = "cc"; size = 9 }
    ∷ []

c_found : find_file_by_hash three_files "cc" ≡ some dead_file
unfolding find_file_by_hash first
c_found = refl

register_files-tracked_example :
    (after : Registering) × (register_files next required_manifest "in" none unreadable describe 20
        three_files files
      ≡ ok after)
    × (after.audit ≡ three_files)
    × (after.load_candidates ≡ map candidate_of (files_in pending three_files files))
    × (after.skipped ≡ length (files_in failed three_files files))
    × (after.new_files ≡ 0)
    × (after.pre_load_failures ≡ [])
    × (after.failed_pre_load ≡ 0)
register_files-tracked_example =
    register_files-tracked next required_manifest "in" none unreadable describe 20 three_files files
      three_files-UniqueHashes ((waiting_file, a_found), ((dead_file, c_found), tt))

-- A Run of these Files, and the requeue of what is dead.
abbrev first_run : Result String (World ℕ × Summary)
first_run =
    run_pipeline next load message none 3 30 required_manifest "in" unreadable describe files world

abbrev after_run : World ℕ × Summary
after_run = elim first_run [ ok r ↦ r | err e ↦ (world, summary) ]

first_run-ok : first_run ≡ ok after_run
unfolding run_pipeline register_files Dict.lookup get_hash_states reclaim_stale_processing update
    reset_eligible_failed Dict.insert
first_run-ok = refl

abbrev requeued_table : AuditTable
requeued_table = (requeue_all_terminal_failed 40 after_run.0.audit 3).0

run_and_requeue : Sequence next load message world (record after_run.0 { audit = requeued_table })
run_and_requeue =
    operated 3
      (ran none 3 30 required_manifest "in" unreadable describe files after_run.1 start
        first_run-ok)
      (requeue_all 40)

b_found : find_file_by_hash three_files loaded_file.content_hash ≡ some loaded_file
unfolding find_file_by_hash first
b_found = refl

committed_forever_example :
    find_file_by_hash requeued_table loaded_file.content_hash ≡ some loaded_file
committed_forever_example =
    committed_forever next load message loaded_file run_and_requeue three_files-IsConsistent refl
      b_found
