-- ===== src/Tests/AuditTests.antt =====
-- The theorems on the audit table, at a table of three Files.
use filedge.Base.{
  String, ◌≡◌, refl, true, false, none, some, List, [], ◌∷◌, if◌then◌else◌, contains,
}
use filedge.Base.Dict
use filedge.Audit.Record.{AuditTable, processing}
use filedge.Audit.Sql.{first, update}
use filedge.Audit.Store.{
  find_file_by_hash, claim, claim_processing, mark_committed, get_hash_states, is_terminal_failed,
  requeue_all_terminal_failed, find_terminal_failed_by_filename,
}
use filedge.Audit.Consistency.{IsConsistent}
use filedge.Audit.Lock.{is_claimable, claim_processing-is_claimable}
use filedge.Audit.States.{state_of, get_hash_states_lem}
use filedge.Audit.Lifecycle.{
  InState, Runs, History, take_lock, commit, requeue_all, done, more, start, run, operate,
  History-IsConsistent,
}
use filedge.Audit.Requeue.{
  requeued, by_hash, by_filename, requeue_found, requeue_match, requeue_file,
}
use filedge.Audit.Eligibility.{is_requeued}
use filedge.Tests.Data.{
  waiting_file, dead_file, three_files, three_files-UniqueHashes, three_files-IsConsistent,
}

claim_processing-is_claimable_example :
    (claim_processing 20 three_files "aa" none none).1
    ≡ is_claimable (find_file_by_hash three_files "aa")
claim_processing-is_claimable_example =
    claim_processing-is_claimable 20 three_files "aa" none none three_files-UniqueHashes

abbrev asked : List String
asked = "bb" ∷ "zz" ∷ "cc" ∷ []

get_hash_states_lem_example :
    Dict.lookup "cc" (get_hash_states three_files asked)
    ≡ (if contains "cc" asked then state_of (find_file_by_hash three_files "cc") else none)
get_hash_states_lem_example = get_hash_states_lem three_files asked "cc" three_files-UniqueHashes

abbrev claimed_table : AuditTable
claimed_table = (claim_processing 20 three_files "aa" none none).0

abbrev loaded_table : AuditTable
loaded_table = mark_committed 21 claimed_table "aa" (some 4) 0 none

abbrev final_table : AuditTable
final_table = (requeue_all_terminal_failed 22 loaded_table 3).0

locked_file : InState processing claimed_table "aa"
unfolding claim_processing find_file_by_hash first update
locked_file = (claim 20 none none waiting_file, refl, refl)

-- A Run loads the first File, an operator requeues the dead ones, a Run resets nothing.
three_files-History : History three_files final_table
three_files-History =
    operate 3
      (run 3 (run 3 start (take_lock 20 "aa" none none))
        (commit 21 "aa" (some 4) 0 none locked_file))
      (requeue_all 22)

three_files-Runs : Runs 3 three_files loaded_table
three_files-Runs =
    more (more done (take_lock 20 "aa" none none)) (commit 21 "aa" (some 4) 0 none locked_file)

dead_found : find_file_by_hash three_files dead_file.content_hash ≡ some dead_file
unfolding find_file_by_hash first
dead_found = refl

dead_terminal : is_terminal_failed dead_file 3 ≡ true
unfolding is_terminal_failed
dead_terminal = refl

requeued_dead : (requeue_file 30 three_files 3 (by_filename "c.csv")).1 ≡ requeued dead_file
unfolding requeue_file requeue_found requeue_match find_terminal_failed_by_filename
    is_terminal_failed
requeued_dead = refl

refused_waiting : is_requeued (requeue_file 30 three_files 3 (by_hash "aa")).1 ≡ false
unfolding requeue_file requeue_found find_file_by_hash first is_terminal_failed
refused_waiting = refl

History-IsConsistent_example : IsConsistent final_table
History-IsConsistent_example = History-IsConsistent three_files-History three_files-IsConsistent
