-- ===== src/Audit/States.antt =====
-- `get_hash_states` of filedge/db.py, which asks in chunks of 500 hashes.
use filedge.Base.{
  ℕ, zero, suc, ◌≤◌, String, ◌≡◌, refl, ◌∙◌, Option, none, some, List, [], ◌∷◌, ◌||◌, arith, eq_iff,
  if◌then◌else◌, contains, take, drop, length,
}
use filedge.Base.Dict
use filedge.Base.Dict.{Dict, lookup-nil, lookup-insert}
use filedge.Audit.Record.{FileState, FileRecord, AuditTable}
use filedge.Audit.Sql.{first, has_hash, UniqueHashes}
use filedge.Audit.Store.{find_file_by_hash, update_states, chunked_states, get_hash_states}

abbrev pub state_of : Option FileRecord → Option FileState
state_of none = none
state_of (some r) = some r.state

abbrev or_else : Option FileState → Option FileState → Option FileState
or_else none o = o
or_else (some s) o = some s

lookup-update_states :
    (h : String) (chunk : List String) (rows : List FileRecord) (result : Dict FileState)
    → UniqueHashes rows
    → Dict.lookup h (update_states chunk rows result) ≡ (
        if contains h chunk
        then or_else (state_of (first (has_hash h) rows)) (Dict.lookup h result)
        else Dict.lookup h result)
unfolding update_states first
lookup-update_states h chunk [] result u = ground arith
lookup-update_states h chunk (r ∷ rows) result (fresh, u) = ground (
  arith,
  lookup-update_states h chunk rows (Dict.insert r.content_hash r.state result) u,
  lookup-update_states h chunk rows result u,
  lookup-insert h r.content_hash r.state result,
  eq_iff r.content_hash h,
)

contains-take-drop :
    (h : String) (n : ℕ) (hashes : List String)
    → contains h hashes ≡ (contains h (take n hashes) || contains h (drop n hashes))
contains-take-drop h zero hashes = refl
contains-take-drop h (suc n) [] = refl
contains-take-drop h (suc n) (k ∷ hashes) = ground (arith, contains-take-drop h n hashes)

length-drop : (n : ℕ) (hashes : List String) → length (drop n hashes) ≤ length hashes
length-drop zero hashes = omega arith
length-drop (suc n) [] = omega arith
length-drop (suc n) (k ∷ hashes) = omega (arith, length-drop n hashes)

lookup-chunked_states :
    (h : String) (size fuel : ℕ) (rows : List FileRecord) (hashes : List String)
    (result : Dict FileState)
    → UniqueHashes rows
    → length hashes ≤ fuel
    → Dict.lookup h (chunked_states fuel (suc size) rows hashes result) ≡ (
        if contains h hashes
        then or_else (state_of (first (has_hash h) rows)) (Dict.lookup h result)
        else Dict.lookup h result)
unfolding chunked_states
lookup-chunked_states h size fuel rows [] result u enough = refl
lookup-chunked_states h size zero rows (k ∷ hashes) result u enough = absurd (omega arith)
lookup-chunked_states h size (suc fuel) rows (k ∷ hashes) result u enough =
    lookup-chunked_states h size fuel rows (drop size hashes) _ u
      (omega (arith, length-drop size hashes))
    ∙ rw (lookup-update_states h (k ∷ take size hashes) rows result u)
        (ground (arith, contains-take-drop h size hashes))

-- In a table with unique hashes, the states found in chunks of 500 hashes are those of one
-- unbounded query: for a hash that is asked for the state of its row, if there is one, and for any
-- other hash nothing.
pub get_hash_states_lem :
    (db : AuditTable) (hashes : List String) (h : String)
    → UniqueHashes db.rows
    → Dict.lookup h (get_hash_states db hashes)
      ≡ (if contains h hashes then state_of (find_file_by_hash db h) else none)
unfolding get_hash_states find_file_by_hash
get_hash_states_lem db hashes h u =
    lookup-chunked_states h 499 (length hashes) db.rows hashes [] u (omega arith)
    ∙ rw lookup-nil (ground arith)
