-- ===== src/Audit/Consistency.antt =====
-- The well-formedness of the audit table, and the operations of filedge/db.py.
use filedge.Base.{
  ℕ, ◌+◌, ◌<◌, String, ◌≡◌, refl, Bool, Option, none, some, List, [], ◌∷◌, ◌++◌, arith,
  if◌then◌else◌, All, is_none,
}
use filedge.Audit.Record.{SourceMetadata, FileRecord, AuditTable}
use filedge.Audit.Sql.{
  first, update, has_hash, UniqueHashes, update-UniqueHashes, append-UniqueHashes,
}
use filedge.Audit.Store.{
  pending_row, stored_metadata, insert_pending, claim_processing, mark_committed, mark_failed,
  reset_eligible_failed, reclaim_stale_processing, requeue_by_hash, requeue_all_terminal_failed,
}

-- Each Content Hash has one row, and the primary keys given out are below the next one.
pub record IsConsistent (db : AuditTable) : Type 0 where
  pub unique : UniqueHashes db.rows
  pub keyed : All (λ r. r.id < db.next_id) db.rows

keyed-update :
    (where_ : FileRecord → Bool) (set_ : FileRecord → FileRecord) (n : ℕ)
    → ((r : FileRecord) → (set_ r).id ≡ r.id)
    → (rows : List FileRecord) → All (λ r. r.id < n) rows
    → All (λ r. r.id < n) (update where_ set_ rows)
unfolding update
keyed-update where_ set_ n keeps [] h = tt
keyed-update where_ set_ n keeps (r ∷ rows) (x, h) =
    (ground (arith, keeps r), keyed-update where_ set_ n keeps rows h)

keyed-append :
    (n : ℕ) (rows : List FileRecord) (r : FileRecord)
    → r.id ≡ n
    → All (λ r. r.id < n) rows
    → All (λ r. r.id < n + 1) (rows ++ r ∷ [])
keyed-append n [] r e h = (omega arith, tt)
keyed-append n (q ∷ rows) r e (x, h) = (omega arith, keyed-append n rows r e h)

update-IsConsistent :
    (where_ : FileRecord → Bool) (set_ : FileRecord → FileRecord) (db : AuditTable)
    → ((r : FileRecord) → (set_ r).content_hash ≡ r.content_hash)
    → ((r : FileRecord) → (set_ r).id ≡ r.id)
    → IsConsistent db
    → IsConsistent (record db { rows = update where_ set_ db.rows })
update-IsConsistent where_ set_ db hashes ids c = record {
  unique = update-UniqueHashes where_ set_ hashes db.rows c.unique;
  keyed = keyed-update where_ set_ db.next_id ids db.rows c.keyed;
}

-- `insert_pending` keeps the table consistent: a tracked hash is not inserted again.
pub insert_pending-IsConsistent :
    (now : ℕ) (db : AuditTable) (filename h : String) (dir : Option String)
    (m : Option SourceMetadata)
    → IsConsistent db
    → IsConsistent (insert_pending now db filename h dir m)
unfolding insert_pending
insert_pending-IsConsistent now db filename h dir m c = go (first (has_hash h) db.rows) refl
  where
    row : FileRecord
    row = pending_row now db.next_id filename h dir (stored_metadata m)

    go :
        (o : Option FileRecord)
        → first (has_hash h) db.rows ≡ o
        → IsConsistent (
            if is_none o
            then record { rows = db.rows ++ (row ∷ []); next_id = db.next_id + 1 }
            else db)
    go (some r) e = c
    go none e = record {
      unique = append-UniqueHashes db.rows row c.unique e;
      keyed = keyed-append db.next_id db.rows row refl c.keyed;
    }

module _ (now : ℕ) (db : AuditTable) (c : IsConsistent db) where
  pub claim_processing-IsConsistent :
      (h : String) (w run : Option String) → IsConsistent (claim_processing now db h w run).0
  unfolding claim_processing
  claim_processing-IsConsistent h w run = update-IsConsistent _ _ db (λ r. refl) (λ r. refl) c

  pub mark_committed-IsConsistent :
      (h : String) (n : Option ℕ) (q : ℕ) (p : Option String)
      → IsConsistent (mark_committed now db h n q p)
  unfolding mark_committed
  mark_committed-IsConsistent h n q p = update-IsConsistent _ _ db (λ r. refl) (λ r. refl) c

  pub mark_failed-IsConsistent : (h e : String) → IsConsistent (mark_failed now db h e)
  unfolding mark_failed
  mark_failed-IsConsistent h e = update-IsConsistent _ _ db (λ r. refl) (λ r. refl) c

  pub reset-IsConsistent : (cap : ℕ) → IsConsistent (reset_eligible_failed now db cap).0
  unfolding reset_eligible_failed
  reset-IsConsistent cap = update-IsConsistent _ _ db (λ r. refl) (λ r. refl) c

  pub reclaim-IsConsistent : (stale : ℕ) → IsConsistent (reclaim_stale_processing now db stale).0
  unfolding reclaim_stale_processing
  reclaim-IsConsistent stale = update-IsConsistent _ _ db (λ r. refl) (λ r. refl) c

  pub requeue-IsConsistent : (h : String) → IsConsistent (requeue_by_hash now db h)
  unfolding requeue_by_hash
  requeue-IsConsistent h = update-IsConsistent _ _ db (λ r. refl) (λ r. refl) c

  pub requeue_all-IsConsistent : (cap : ℕ) → IsConsistent (requeue_all_terminal_failed now db cap).0
  unfolding requeue_all_terminal_failed
  requeue_all-IsConsistent cap = update-IsConsistent _ _ db (λ r. refl) (λ r. refl) c
