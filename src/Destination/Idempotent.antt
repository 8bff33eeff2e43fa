-- ===== src/Destination/Idempotent.antt =====
-- Loading a File again by `SqlConnector.write_rows` of filedge/connectors/sql_base.py, as after a
-- crash between the destination's commit and the audit mark.
use filedge.Base.{
  ℕ, String, ◌≡◌, refl, ◌∙◌, Bool, false, none, List, [], ◌∷◌, map, select-append, ◌==◌, eq_iff,
  eq_refl, arith,
}
use mathlib.Core.List.{append-nil}
use filedge.Base.Dict.{Dict}
use filedge.Quarantine.Stream.{end, from_list}
use filedge.Destination.Table.{DestRow, Connection, without_hash, with_hash, append}
use filedge.Destination.Write.{write_rows}
use filedge.Destination.Added.{Uniform, stamp}
use filedge.Destination.Atomic.{loaded, write_rows-loaded}

module _ {ℓ} {V : Type ℓ} (accepts : List (DestRow V) → Bool) where
  with-without : (h : String) (rows : List (DestRow V)) → with_hash h (without_hash h rows) ≡ []
  with-without h [] = refl
  with-without h (r ∷ rows) = ground (arith, with-without h rows)

  without-without :
      (h : String) (rows : List (DestRow V))
      → without_hash h (without_hash h rows) ≡ without_hash h rows
  without-without h [] = refl
  without-without h (r ∷ rows) = ground (arith, without-without h rows)

  with-without_other :
      (h j : String) (rows : List (DestRow V))
      → (h == j) ≡ false
      → with_hash j (without_hash h rows) ≡ with_hash j rows
  with-without_other h j [] e = refl
  with-without_other h j (r ∷ rows) e = ground (
    arith,
    with-without_other h j rows e,
    eq_iff r.source_file_hash h,
    eq_iff r.source_file_hash j,
    eq_iff h j,
  )

  with-stamp :
      (h : String) (t : ℕ) (rows : List (Dict V))
      → with_hash h (map (stamp accepts h t) rows) ≡ map (stamp accepts h t) rows
  with-stamp h t [] = refl
  with-stamp h t (r ∷ rows) = ground (arith, eq_refl h, with-stamp h t rows)

  without-stamp :
      (h : String) (t : ℕ) (rows : List (Dict V))
      → without_hash h (map (stamp accepts h t) rows) ≡ []
  without-stamp h t [] = refl
  without-stamp h t (r ∷ rows) = ground (arith, eq_refl h, without-stamp h t rows)

  with-stamp_other :
      (h j : String) (t : ℕ) (rows : List (Dict V))
      → (h == j) ≡ false
      → with_hash j (map (stamp accepts h t) rows) ≡ []
  with-stamp_other h j t [] e = refl
  with-stamp_other h j t (r ∷ rows) e = ground (arith, with-stamp_other h j t rows e)

  module _ (h : String) (cols : List String) (rows : List (Dict V)) (u : Uniform cols rows) where
    -- Loading a File twice in append mode, at two times and with two batch sizes, leaves the
    -- connection that loading it once at the second time leaves, if both loads succeed and the rows
    -- have the same columns.
    pub write_rows-twice :
        (now later n m : ℕ) (c d e : Connection V)
        → write_rows accepts h now append n (from_list rows end) c ≡ (d, none)
        → write_rows accepts h later append m (from_list rows end) d ≡ (e, none)
        → e ≡ loaded accepts h later append m c rows
    write_rows-twice now later n m c d e first again =
        write_rows-loaded accepts h later append m cols rows d e u again
        ∙ rw (write_rows-loaded accepts h now append n cols rows c d u first)
            (rw (select-append, without-without, without-stamp, append-nil))

    -- After a successful load in append mode the durable rows of its hash are exactly the rows of
    -- the File, and the rows of every other hash are those that the transaction found, if the rows
    -- have the same columns.
    pub write_rows-by_hash :
        (now n : ℕ) (c d : Connection V) (j : String)
        → write_rows accepts h now append n (from_list rows end) c ≡ (d, none)
        → (with_hash h d.durable ≡ map (stamp accepts h now) rows)
          × ((h == j) ≡ false → with_hash j d.durable ≡ with_hash j c.working)
    write_rows-by_hash now n c d j e =
        let l = write_rows-loaded accepts h now append n cols rows c d u e in
        (
          rw l (rw (select-append, with-without, with-stamp)),
          λ other. rw l (
              select-append _ (without_hash h c.working) (map (stamp accepts h now) rows)
              ∙ rw (with-without_other h j c.working other, with-stamp_other h j now rows other)
                  (append-nil (with_hash j c.working))),
        )
