-- ===== src/Rows/Validate.antt =====
-- `validate_file` of filedge/validator.py, and how it compares with `transform_row`.
use filedge.Base.{
  ℕ, suc, ◌+◌, String, ◌≡◌, ◌↔◌, refl, ◌∙◌, sym, ap, Bool, true, not, List, [], ◌∷◌, ◌++◌, map,
  ◌&&◌, arith, contains, length, all, select,
}
use filedge.Base.Dict
use filedge.Base.Dict.{Dict}
use filedge.Base.Result.{Result, ok, err, is_ok, ◌>>=◌, >>=-eq-ok, >>=-ok-next, ok-injective}
use filedge.Rows.Python.{Python}
use filedge.Rows.Columns.{ColumnMapping}
use filedge.Rows.Transform.{
  TransformError, RowException, rejected, overflow, cell, transform_from, transform_row,
}

pub record RowFailure : Type 0 where
  pub row_number : ℕ
  pub column : String
  pub error : TransformError

pub record ValidationResult : Type 0 where
  pub rows_checked : ℕ
  pub failures : List RowFailure
  pub undeclared_columns : List String

-- The `except TransformError` of the inner loop; an OverflowError leaves both loops.
failure_of {ℓ} :
    {A : Type ℓ} → ℕ → ColumnMapping → Result RowException A → Result String (List RowFailure)
failure_of n col (ok out) = ok []
failure_of n col (err (rejected e)) =
    ok (record { row_number = n; column = col.source; error = e } ∷ [])
failure_of n col (err overflow) = err "OverflowError"

failure_of-nil {ℓ} :
    {A : Type ℓ} (n : ℕ) (col : ColumnMapping) (m : Result RowException A)
    → (failure_of n col m ≡ ok []) ↔ (is_ok m ≡ true)
unfolding failure_of
failure_of-nil n col (ok out) = (λ h. refl, λ h. refl)
failure_of-nil n col (err (rejected e)) = (λ h. cc, λ h. cc)
failure_of-nil n col (err overflow) = (λ h. cc, λ h. cc)

module _ (py : Python) where
  open py use {Value}

  -- The inner loop: each column is tried alone, as `transform_row(row, [col])`.
  row_failures : ℕ → Dict Value → List ColumnMapping → Result String (List RowFailure)
  unfolding failure_of
  row_failures n row [] = ok []
  row_failures n row (col ∷ columns) = do
    here ← failure_of n col (transform_row py row (col ∷ []))
    later ← row_failures n row columns
    ok (here ++ later)

  -- The outer loop, from the number of rows checked so far, to that number and the failures.
  all_failures : ℕ → List (Dict Value) → List ColumnMapping → Result String (ℕ × List RowFailure)
  unfolding row_failures
  all_failures rows_checked [] columns = ok (rows_checked, [])
  all_failures rows_checked (row ∷ rows) columns = do
    here ← row_failures (suc rows_checked) row columns
    later ← all_failures (suc rows_checked) rows columns
    ok (later.0, here ++ later.1)

  undeclared_of : List (Dict Value) → List ColumnMapping → List String
  undeclared_of [] columns = []
  undeclared_of (row ∷ rows) columns =
      select (λ k. not (contains k (map (λ (c : ColumnMapping). c.source) columns))) (Dict.keys row)

  -- An error is the exception that leaves the loops.
  unfoldable pub validate_file :
      List (Dict Value) → List ColumnMapping → Result String ValidationResult
  unfolding all_failures undeclared_of
  validate_file rows columns = do
    checked ← all_failures 0 rows columns
    ok (record {
      rows_checked = checked.0;
      failures = checked.1;
      undeclared_columns = undeclared_of rows columns;
    })

  -- The row passes the whole transform of a load.
  abbrev pub loads : List ColumnMapping → Dict Value → Bool
  loads columns row = is_ok (transform_row py row columns)

  is_ok-cons :
      (row : Dict Value) (c : ColumnMapping) (columns : List ColumnMapping) (result : Dict Value)
      → is_ok (transform_from py row (c ∷ columns) result)
        ≡ (is_ok (cell py (Dict.lookup c.source row) c) && is_ok (transform_from py row columns []))
  unfolding transform_from
  is_ok-cons row c [] result = ground arith
  is_ok-cons row c (b ∷ columns) result =
      go (cell py (Dict.lookup c.source row) c) (λ r. is_ok-cons row b columns r)
    where
      go :
          (m : Result RowException Value)
          → ((r : Dict Value)
              → is_ok (transform_from py row (b ∷ columns) r) ≡ (
                  is_ok (cell py (Dict.lookup b.source row) b)
                  && is_ok (transform_from py row columns [])))
          → is_ok (m >>= λ v. transform_from py row (b ∷ columns) (Dict.insert c.dest v result))
            ≡ (is_ok m && is_ok (transform_from py row (b ∷ columns) []))
      go (err e) ih = refl
      go (ok v) ih = ih (Dict.insert c.dest v result) ∙ sym (ih [])

  append-eq-nil {ℓ} : {A : Type ℓ} (xs ys : List A) → (xs ++ ys ≡ []) ↔ ((xs ≡ []) × (ys ≡ []))
  append-eq-nil [] ys = (λ h. (refl, h), λ h. h.1)
  append-eq-nil (x ∷ xs) ys = (λ h. cc, λ h. cc)

  row_failures-loads :
      (n : ℕ) (row : Dict Value) (columns : List ColumnMapping)
      → (row_failures n row columns ≡ ok []) ↔ (loads columns row ≡ true)
  unfolding row_failures transform_row
  row_failures-loads n row [] = (λ _. refl, λ _. refl)
  row_failures-loads n row (c ∷ columns) = (
    λ h.
        let (here, tried, h1) = >>=-eq-ok (failure_of n c (transform_row py row (c ∷ []))) _ h in
        let (later, rest, h2) = >>=-eq-ok (row_failures n row columns) _ h1 in
        let (none_here, none_later) = (append-eq-nil here later).0 (ok-injective h2) in
        ground (
          arith,
          (failure_of-nil n c (transform_row py row (c ∷ []))).0 (tried ∙ ap ok none_here),
          (row_failures-loads n row columns).0 (rest ∙ ap ok none_later),
          is_ok-cons row c columns [],
          is_ok-cons row c [] [],
        ),
    λ h.
        let here =
          (failure_of-nil n c (transform_row py row (c ∷ []))).1
            (ground (arith, h, is_ok-cons row c columns [], is_ok-cons row c [] [])) in
        let later =
          (row_failures-loads n row columns).1 (ground (arith, h, is_ok-cons row c columns [])) in
        >>=-ok-next _ _ here (>>=-ok-next _ _ later refl),
  )

  -- No failure is found, and every row is counted, exactly when every row loads.
  all_failures-loads :
      (n k : ℕ) (rows : List (Dict Value)) (columns : List ColumnMapping)
      → k ≡ n + length rows
      → (all_failures n rows columns ≡ ok (k, [])) ↔ (all (loads columns) rows ≡ true)
  unfolding all_failures
  all_failures-loads n k [] columns count =
      (λ _. refl, λ _. ap (λ (c : ℕ). ok (c, [])) (omega (arith, count)))
  all_failures-loads n k (row ∷ rows) columns count = (
    λ h.
        let (here, tried, h1) = >>=-eq-ok (row_failures (suc n) row columns) _ h in
        let (later, rest, h2) = >>=-eq-ok (all_failures (suc n) rows columns) _ h1 in
        let same = ok-injective h2 in
        let (none_here, none_later) =
          (append-eq-nil here later.1).0 (ap (λ (p : ℕ × List RowFailure). p.1) same) in
        let whole : later ≡ (k, []) =
          λ i. ((ap (λ (p : ℕ × List RowFailure). p.0) same) i, none_later i) in
        ground (
          arith,
          (row_failures-loads (suc n) row columns).0 (tried ∙ ap ok none_here),
          (all_failures-loads (suc n) k rows columns (omega (arith, count))).0 (rest ∙ ap ok whole),
        ),
    λ h.
        let here = (row_failures-loads (suc n) row columns).1 (ground arith) in
        let later =
          (all_failures-loads (suc n) k rows columns (omega (arith, count))).1 (ground arith) in
        >>=-ok-next _ _ here (>>=-ok-next _ _ later refl),
  )

  all_failures-count :
      (n : ℕ) (rows : List (Dict Value)) (columns : List ColumnMapping)
      (checked : ℕ × List RowFailure)
      → all_failures n rows columns ≡ ok checked
      → checked.0 ≡ n + length rows
  unfolding all_failures
  all_failures-count n [] columns checked h =
      let same = ap (λ (p : ℕ × List RowFailure). p.0) (ok-injective h) in omega (arith, same)
  all_failures-count n (row ∷ rows) columns checked h =
      let (here, tried, h1) = >>=-eq-ok (row_failures (suc n) row columns) _ h in
      let (later, rest, h2) = >>=-eq-ok (all_failures (suc n) rows columns) _ h1 in
      let same = ap (λ (p : ℕ × List RowFailure). p.0) (ok-injective h2) in
      omega (arith, same, all_failures-count (suc n) rows columns later rest)

  -- Validation ends without an exception and reports no failure exactly when every row passes the
  -- whole transform of a load; and whenever it ends without an exception, its counter has counted
  -- every row of the File.
  pub validate_file-loads :
      (rows : List (Dict Value)) (columns : List ColumnMapping)
      → (((r : ValidationResult) × (validate_file rows columns ≡ ok r) × (r.failures ≡ []))
          ↔ (all (loads columns) rows ≡ true))
        × ((r : ValidationResult)
            → validate_file rows columns ≡ ok r
            → r.rows_checked ≡ length rows)
  unfolding validate_file
  validate_file-loads rows columns = (
    (
      λ found.
          let (checked, ran, same) = >>=-eq-ok (all_failures 0 rows columns) _ found.1 in
          let clean : checked.1 ≡ [] =
            ap (λ (v : ValidationResult). v.failures) (ok-injective same) ∙ found.2 in
          let count : checked.0 ≡ length rows =
            all_failures-count 0 rows columns checked ran ∙ omega arith in
          let whole : checked ≡ (length rows, []) = λ i. (count i, clean i) in
          (all_failures-loads 0 (length rows) rows columns (omega arith)).0 (ran ∙ ap ok whole),
      λ h.
          let ran = (all_failures-loads 0 (length rows) rows columns (omega arith)).1 h in
          (_, >>=-ok-next _ _ ran refl, refl),
    ),
    λ r e.
        let (checked, ran, same) = >>=-eq-ok (all_failures 0 rows columns) _ e in
        sym (ap (λ (v : ValidationResult). v.rows_checked) (ok-injective same))
        ∙ all_failures-count 0 rows columns checked ran
        ∙ omega arith,
  )
