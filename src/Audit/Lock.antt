-- ===== src/Audit/Lock.antt =====
-- `claim_processing` of filedge/db.py as a lock: who gets it, and what it changes.
use filedge.Base.{
  ℕ, String, ◌≡◌, refl, ◌∙◌, Bool, false, Option, none, some, List, [], ◌∷◌, arith, eq_iff,
  if◌then◌else◌,
}
use filedge.Audit.Record.{pending, same_state, FileRecord, AuditTable}
use filedge.Audit.Sql.{
  first, rowcount, has_hash, on_row, UniqueHashes, first-update, update-UniqueHashes,
}
use filedge.Audit.Store.{find_file_by_hash, claimable, claim, claim_processing}

-- The File is tracked and waits for a worker.
unfoldable pub is_claimable : Option FileRecord → Bool
is_claimable none = false
is_claimable (some r) = same_state r.state pending

rowcount-absent :
    (h : String) (rows : List FileRecord)
    → first (has_hash h) rows ≡ none
    → rowcount (claimable h) rows ≡ 0
unfolding first rowcount
rowcount-absent h [] e = refl
rowcount-absent h (r ∷ rows) e = ground (arith, rowcount-absent h rows)

rowcount-claimable :
    (h : String) (rows : List FileRecord)
    → UniqueHashes rows
    → rowcount (claimable h) rows ≡ (if is_claimable (first (has_hash h) rows) then 1 else 0)
unfolding first rowcount is_claimable
rowcount-claimable h [] u = refl
rowcount-claimable h (r ∷ rows) (fresh, u) =
    ground (arith, rowcount-claimable h rows u, rowcount-absent h rows, eq_iff r.content_hash h)

-- In a table with unique hashes a claim succeeds exactly when the File is tracked and PENDING.
pub claim_processing-is_claimable :
    (now : ℕ) (db : AuditTable) (h : String) (w run : Option String)
    → UniqueHashes db.rows
    → (claim_processing now db h w run).1 ≡ is_claimable (find_file_by_hash db h)
unfolding claim_processing find_file_by_hash
claim_processing-is_claimable now db h w run u = ground (arith, rowcount-claimable h db.rows u)

-- The row of any hash after a claim is the row before it, with the worker, the run and the time
-- recorded where it is the PENDING row of the claimed hash.
pub find-claim_processing :
    (now : ℕ) (db : AuditTable) (h j : String) (w run : Option String)
    → find_file_by_hash (claim_processing now db h w run).0 j
      ≡ on_row (claimable h) (claim now w run) (find_file_by_hash db j)
unfolding claim_processing find_file_by_hash
find-claim_processing now db h j w run = first-update _ _ (λ r. refl) j db.rows

is_claimable-claimed :
    (h : String) (now : ℕ) (w run : Option String) (o : Option FileRecord)
    → ((r : FileRecord) → o ≡ some r → r.content_hash ≡ h)
    → is_claimable (on_row (claimable h) (claim now w run) o) ≡ false
unfolding is_claimable
is_claimable-claimed h now w run none found = refl
is_claimable-claimed h now w run (some r) found =
    ground (arith, found r refl, eq_iff r.content_hash h)

pub content_hash-first :
    (h : String) (rows : List FileRecord) (r : FileRecord)
    → first (has_hash h) rows ≡ some r
    → r.content_hash ≡ h
unfolding first
content_hash-first h [] r e = cc
content_hash-first h (q ∷ rows) r e =
    ground (arith, content_hash-first h rows r, eq_iff q.content_hash h)

-- In a table with unique hashes, after any claim of a File no later claim of it succeeds, until
-- another operation changes its state.
pub claim_processing-exclusive :
    (now later : ℕ) (db : AuditTable) (h : String) (w run w' run' : Option String)
    → UniqueHashes db.rows
    → (claim_processing later (claim_processing now db h w run).0 h w' run').1 ≡ false
claim_processing-exclusive now later db h w run w' run' u =
    claim_processing-is_claimable later (claim_processing now db h w run).0 h w' run'
      (unfold claim_processing in update-UniqueHashes _ _ (λ r. refl) db.rows u)
    ∙ rw find-claim_processing (
        unfold find_file_by_hash in
        is_claimable-claimed h now w run (first (has_hash h) db.rows)
          (λ r e. content_hash-first h db.rows r e))
