-- ===== src/Audit/Sql.antt =====
-- `SELECT … WHERE` and `UPDATE … SET … WHERE` over the rows of the audit table, and the law that
-- the other modules reason by: an update acts on the row of a Content Hash alone.
use filedge.Base.{
  ℕ, ◌+◌, String, ◌≡◌, refl, Bool, Option, none, some, List, [], ◌∷◌, ◌++◌, arith, ◌==◌,
  if◌then◌else◌, eq_iff,
}
use filedge.Audit.Record.{FileRecord}

-- `fetchone()` of a SELECT: the first row that fits.
unfoldable pub first : (FileRecord → Bool) → List FileRecord → Option FileRecord
first where_ [] = none
first where_ (r ∷ rows) = let rest = first where_ rows in if where_ r then some r else rest

abbrev pub has_hash : String → FileRecord → Bool
has_hash content_hash r = r.content_hash == content_hash

-- The rows after an UPDATE.
unfoldable pub update :
    (FileRecord → Bool) → (FileRecord → FileRecord) → List FileRecord → List FileRecord
update where_ set_ [] = []
update where_ set_ (r ∷ rows) = (if where_ r then set_ r else r) ∷ update where_ set_ rows

-- `cursor.rowcount` of the UPDATE.
unfoldable pub rowcount : (FileRecord → Bool) → List FileRecord → ℕ
rowcount where_ [] = 0
rowcount where_ (r ∷ rows) = (if where_ r then 1 else 0) + rowcount where_ rows

abbrev pub on_row :
    (FileRecord → Bool) → (FileRecord → FileRecord) → Option FileRecord → Option FileRecord
on_row where_ set_ none = none
on_row where_ set_ (some r) = some (if where_ r then set_ r else r)

-- No two rows have one Content Hash: the UNIQUE constraint.
abbrev pub UniqueHashes : List FileRecord → Type 0
UniqueHashes [] = Unit
UniqueHashes (r ∷ rows) = (first (has_hash r.content_hash) rows ≡ none) × UniqueHashes rows

module _ (where_ : FileRecord → Bool) (set_ : FileRecord → FileRecord)
    (keeps : (r : FileRecord) → (set_ r).content_hash ≡ r.content_hash) where
  pub first-update :
      (h : String) (rows : List FileRecord)
      → first (has_hash h) (update where_ set_ rows) ≡ on_row where_ set_ (first (has_hash h) rows)
  unfolding first update
  first-update h [] = refl
  first-update h (r ∷ rows) = ground (arith, first-update h rows, keeps r)

  pub update-UniqueHashes :
      (rows : List FileRecord) → UniqueHashes rows → UniqueHashes (update where_ set_ rows)
  unfolding update
  update-UniqueHashes [] u = tt
  update-UniqueHashes (r ∷ rows) (fresh, u) =
      ground (arith, keeps r, update-UniqueHashes rows u, first-update r.content_hash rows)

pub first-append :
    (h : String) (rows : List FileRecord) (r : FileRecord)
    → first (has_hash h) (rows ++ r ∷ []) ≡ elim (first (has_hash h) rows) [
      | some q ↦ some q
      | none ↦ if r.content_hash == h then some r else none
    ]
unfolding first
first-append h [] r = refl
first-append h (q ∷ rows) r = ground (arith, first-append h rows r)

pub append-UniqueHashes :
    (rows : List FileRecord) (r : FileRecord)
    → UniqueHashes rows
    → first (has_hash r.content_hash) rows ≡ none
    → UniqueHashes (rows ++ r ∷ [])
unfolding first
append-UniqueHashes [] r u fresh = (refl, tt)
append-UniqueHashes (q ∷ rows) r (out, u) fresh = ground (
  arith,
  append-UniqueHashes rows r u,
  first-append q.content_hash rows r,
  eq_iff q.content_hash r.content_hash,
  eq_iff r.content_hash q.content_hash,
)
