-- ===== src/Cdc/Reapply.antt =====
-- What applying the changes of a CDC File (filedge/cdc.py) leaves, once and again.
use filedge.Base.{
  ℕ, String, ◌≡◌, refl, ◌∙◌, ap, Bool, true, not, List, [], ◌∷◌, ◌++◌, ◌==◌, select, if◌then◌else◌,
  any, All, All-append, All-select, arith, Bool-cases, inl, inr,
}
use mathlib.Core.List.{append-nil, append_assoc}
use filedge.Base.Result.{ok, >>=-eq-ok}
use filedge.Destination.Table.{DestRow}
use filedge.Cdc.Values.{CdcValues}
use filedge.Cdc.Plan.{CdcConfig, CdcChange}
use filedge.Cdc.Apply.{has_key, delete_by_key, inserted, insert_row, apply_change, apply_changes}

module _ (v : CdcValues) (accepts : List (DestRow v.Value) → Bool) (c : CdcConfig) where
  -- The row is deleted by one of the changes.
  abbrev pub is_touched : List (CdcChange v) → DestRow v.Value → Bool
  is_touched changes r =
      any (λ (change : CdcChange v). has_key v accepts c.keys change.key r) changes

  abbrev pub untouched : List (CdcChange v) → List (DestRow v.Value) → List (DestRow v.Value)
  untouched changes = select (λ r. not (is_touched changes r))

  untouched-cons :
      (change : CdcChange v) (changes : List (CdcChange v)) (rows : List (DestRow v.Value))
      → untouched changes (delete_by_key v accepts c.keys change.key rows)
        ≡ untouched (change ∷ changes) rows
  unfolding delete_by_key
  untouched-cons change changes [] = refl
  untouched-cons change changes (r ∷ rows) = ground (arith, untouched-cons change changes rows)

  select-append :
      (p : DestRow v.Value → Bool) (xs ys : List (DestRow v.Value))
      → select p (xs ++ ys) ≡ select p xs ++ select p ys
  select-append p [] ys = refl
  select-append p (x ∷ xs) ys = ground (arith, select-append p xs ys)

  AllTouched-cons :
      (change : CdcChange v) (changes : List (CdcChange v)) (rows : List (DestRow v.Value))
      → All (λ r. is_touched changes r ≡ true) rows
      → All (λ r. is_touched (change ∷ changes) r ≡ true) rows
  AllTouched-cons change changes [] a = tt
  AllTouched-cons change changes (r ∷ rows) (x, a) =
      (ground arith, AllTouched-cons change changes rows a)

  untouched-eq-nil :
      (changes : List (CdcChange v)) (rows : List (DestRow v.Value))
      → All (λ r. is_touched changes r ≡ true) rows
      → untouched changes rows ≡ []
  untouched-eq-nil changes [] a = refl
  untouched-eq-nil changes (r ∷ rows) (x, a) = ground (arith, untouched-eq-nil changes rows a)

  untouched-nil : (rows : List (DestRow v.Value)) → untouched [] rows ≡ rows
  untouched-nil [] = refl
  untouched-nil (r ∷ rows) = ap (λ (l : List (DestRow v.Value)). r ∷ l) (untouched-nil rows)

  untouched-untouched :
      (changes : List (CdcChange v)) (rows : List (DestRow v.Value))
      → untouched changes (untouched changes rows) ≡ untouched changes rows
  untouched-untouched changes [] = refl
  untouched-untouched changes (r ∷ rows) = ground (arith, untouched-untouched changes rows)

  module _ (h : String) where
    -- The rows that a change inserts.
    abbrev pub own_rows : ℕ → CdcChange v → List (DestRow v.Value)
    own_rows t change =
        if change.operation == "delete" then [] else inserted v accepts c h t change ∷ []

    -- The rows that the changes insert and do not delete again.
    pub written : ℕ → List (CdcChange v) → List (DestRow v.Value)
    written t [] = []
    written t (change ∷ changes) = untouched changes (own_rows t change) ++ written t changes

    apply_change-own :
        (t : ℕ) (change : CdcChange v) (table out : List (DestRow v.Value))
        → apply_change v accepts c h t change table ≡ ok out
        → out ≡ delete_by_key v accepts c.keys change.key table ++ own_rows t change
    unfolding apply_change insert_row
    apply_change-own t change table out e =
        ground (arith, append-nil (delete_by_key v accepts c.keys change.key table))

    -- A successful apply leaves of any table the rows that no change deletes, followed by the rows
    -- that the changes insert and that no later change deletes.
    pub apply_changes-written :
        (t : ℕ) (changes : List (CdcChange v)) (table out : List (DestRow v.Value))
        → apply_changes v accepts c h t changes table ≡ ok out
        → out ≡ untouched changes table ++ written t changes
    unfolding apply_changes written
    apply_changes-written t [] table out e =
        ground (arith, append-nil (untouched [] table), untouched-nil table)
    apply_changes-written t (change ∷ changes) table out e =
        let (mid, first, rest) = >>=-eq-ok (apply_change v accepts c h t change table) _ e in
        apply_changes-written t changes mid out rest
        ∙ rw (apply_change-own t change table mid first) (
            rw select-append (
              rw (untouched-cons change changes table) (
                append_assoc (untouched (change ∷ changes) table)
                  (untouched changes (own_rows t change)) (written t changes))))

    -- The row that a change inserts is one that the change would delete.
    abbrev pub OwnKey : ℕ → CdcChange v → Type 0
    OwnKey t change = has_key v accepts c.keys change.key (inserted v accepts c h t change) ≡ true

    own_rows-touched :
        (t : ℕ) (change : CdcChange v) (changes : List (CdcChange v))
        → OwnKey t change
        → All (λ r. is_touched (change ∷ changes) r ≡ true) (own_rows t change)
    own_rows-touched t change changes x = elim (Bool-cases (change.operation == "delete")) [
      | inl gone ↦ rw gone tt
      | inr kept ↦ rw kept (ground arith, tt)
    ]

    written-touched :
        (t : ℕ) (changes : List (CdcChange v))
        → All (OwnKey t) changes
        → All (λ r. is_touched changes r ≡ true) (written t changes)
    unfolding written
    written-touched t [] a = tt
    written-touched t (change ∷ changes) (x, a) =
        All-append _ (untouched changes (own_rows t change)) (written t changes)
          (All-select _ _ (own_rows t change) (own_rows-touched t change changes x))
          (AllTouched-cons change changes (written t changes) (written-touched t changes a))

    pub apply_changes-again :
        (t later : ℕ) (changes : List (CdcChange v)) (table mid out : List (DestRow v.Value))
        → All (OwnKey t) changes
        → apply_changes v accepts c h t changes table ≡ ok mid
        → apply_changes v accepts c h later changes mid ≡ ok out
        → out ≡ untouched changes table ++ written later changes
    apply_changes-again t later changes table mid out own first again =
        apply_changes-written later changes mid out again
        ∙ rw (apply_changes-written t changes table mid first) (
            rw select-append (
              rw (
                untouched-untouched,
                untouched-eq-nil changes (written t changes) (written-touched t changes own),
                append-nil,
              )))
