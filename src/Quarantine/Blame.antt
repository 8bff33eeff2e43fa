-- ===== src/Quarantine/Blame.antt =====
-- The column that `_offending_column` of filedge/quarantine/processor.py blames for a bad row.
use filedge.Base.{
  String, ◌≡◌, refl, ◌∙◌, sym, ap, subst, true, some, List, [], ◌∷◌, ◌++◌, All, arith, inl, inr,
}
use filedge.Base.Dict
use filedge.Base.Dict.{Dict}
use filedge.Base.Result.{Result, ok, err, is_ok, ◌>>=◌, Result-cases}
use filedge.Rows.Python.{Python}
use filedge.Rows.Columns.{ColumnMapping}
use filedge.Rows.Transform.{
  TransformError, RowException, rejected, overflow, cell, transform_from, transform_row,
}
use filedge.Quarantine.Processor.{
  RowError, transform_error, crypto_error, caught, blamed, offending_column, post_attempt, attempt,
}

module _ (py : Python) where
  open py use {Value}

  -- What the row has for the column.
  abbrev pub cell_of : Dict Value → ColumnMapping → Result RowException Value
  cell_of raw c = cell py (Dict.lookup c.source raw) c

  -- The column is the first one whose cell is rejected, with this error.
  abbrev pub FirstBad : Dict Value → List ColumnMapping → String → TransformError → Type 0
  FirstBad raw columns column e =
      (before : List ColumnMapping) × (c : ColumnMapping) × (after : List ColumnMapping) × (columns
        ≡ before ++ c ∷ after)
      × All (λ b. is_ok (cell_of raw b) ≡ true) before
      × (cell_of raw c ≡ err (rejected e))
      × (column ≡ c.source)

  offending-good :
      (raw : Dict Value) (c : ColumnMapping) (columns : List ColumnMapping) (v : Value)
      → cell_of raw c ≡ ok v
      → offending_column py raw (c ∷ columns) ≡ offending_column py raw columns
  unfolding offending_column transform_row transform_from
  offending-good raw c columns v good = rw (good, offending_column) refl

  offending-bad :
      (raw : Dict Value) (c : ColumnMapping) (columns : List ColumnMapping) (x : RowException)
      → cell_of raw c ≡ err x
      → offending_column py raw (c ∷ columns) ≡ blamed x c.source
  unfolding offending_column transform_row transform_from
  offending-bad raw c columns x bad = rw (bad, offending_column) refl

  -- A row that the transform rejects has a first bad column, and that is the one blamed.
  transform_from-FirstBad :
      (raw result : Dict Value) (columns : List ColumnMapping) (e : TransformError)
      → transform_from py raw columns result ≡ err (rejected e)
      → (column : String) × (offending_column py raw columns ≡ some column)
        × FirstBad raw columns column e
  unfolding transform_from
  transform_from-FirstBad raw result [] e h = cc
  transform_from-FirstBad raw result (c ∷ columns) e h = elim (Result-cases (cell_of raw c)) [
    | inl (v, good) ↦
        let rest : transform_from py raw columns (Dict.insert c.dest v result) ≡ err (rejected e) =
          sym (
            ap
              (λ (m : Result RowException Value).
                m >>= λ w. transform_from py raw columns (Dict.insert c.dest w result))
              good)
          ∙ h in
        let (column, found, (before, b, after, split, fine, bad, same)) =
          transform_from-FirstBad raw (Dict.insert c.dest v result) columns e rest in
        (
          column,
          offending-good raw c columns v good ∙ found,
          (c ∷ before, b, after, ap (λ l. c ∷ l) split, (ap is_ok good, fine), bad, same),
        )
    | inr (x, bad) ↦
        let stopped : err x ≡ err (rejected e) =
          sym (
            ap
              (λ (m : Result RowException Value).
                m >>= λ w. transform_from py raw columns (Dict.insert c.dest w result))
              bad)
          ∙ h in
        let same : x ≡ rejected e = cc stopped in
        (
          c.source,
          offending-bad raw c columns x bad ∙ ap (λ y. blamed y c.source) same,
          ([], c, columns, refl, tt, bad ∙ ap err same, refl),
        )
  ]

  -- No column is blamed for a row that the transform accepts.
  offending-none :
      (raw result out : Dict Value) (columns : List ColumnMapping)
      → transform_from py raw columns result ≡ ok out
      → offending_column py raw columns ≡ some ""
  unfolding transform_from
  offending-none raw result out [] h = unfold offending_column in refl
  offending-none raw result out (c ∷ columns) h = elim (Result-cases (cell_of raw c)) [
    | inl (v, good) ↦
        offending-good raw c columns v good
        ∙ offending-none raw (Dict.insert c.dest v result) out columns (
            sym (
              ap
                (λ (m : Result RowException Value).
                  m >>= λ w. transform_from py raw columns (Dict.insert c.dest w result))
                good)
            ∙ h)
    | inr (x, bad) ↦
        let stopped : err x ≡ ok out =
          sym (
            ap
              (λ (m : Result RowException Value).
                m >>= λ w. transform_from py raw columns (Dict.insert c.dest w result))
              bad)
          ∙ h in
        cc stopped
  ]

  module _ (post : Dict Value → Result String (Dict Value)) (columns : List ColumnMapping) where
    -- Why a row is bad, and its column: the first one that the transform rejects, or none if the
    -- row is transformed and what follows fails.
    abbrev pub Blames : Dict Value → String → RowError → Type 0
    Blames raw column (transform_error e) = FirstBad raw columns column e
    Blames raw column (crypto_error e) =
        (t : Dict Value) × (transform_row py raw columns ≡ ok t) × (post t ≡ err e) × (column ≡ "")

    post_attempt-crypto :
        (t : Dict Value) (e : RowError)
        → post_attempt py post t ≡ err (caught e)
        → (x : String) × (post t ≡ err x) × (e ≡ crypto_error x)
    unfolding post_attempt
    post_attempt-crypto t e h = elim (Result-cases (post t)) [
      | inl (u, fine) ↦ absurd (ground (arith, fine))
      | inr (x, fails) ↦ (x, fails, ground (arith, fails))
    ]

    -- The column of every row that the handler catches.
    pub attempt-Blames :
        (raw : Dict Value) (e : RowError)
        → attempt py post columns raw ≡ err (caught e)
        → (column : String) × (offending_column py raw columns ≡ some column) × Blames raw column e
    unfolding attempt transform_row
    attempt-Blames raw e h = elim (Result-cases (transform_row py raw columns)) [
      | inl (t, good) ↦
          let (x, fails, same) = post_attempt-crypto t e (ground (arith, good)) in
          (
            "",
            offending-none raw [] t columns good,
            subst (Blames raw "") (sym same) (t, good, fails, refl),
          )
      | inr (rejected x, bad) ↦
          let same : e ≡ transform_error x = ground (arith, bad) in
          let (column, found, first) = transform_from-FirstBad raw [] columns x bad in
          (column, found, subst (Blames raw column) (sym same) first)
      | inr (overflow, bad) ↦ absurd (ground (arith, bad))
    ]
