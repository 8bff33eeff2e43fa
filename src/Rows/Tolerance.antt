-- ===== src/Rows/Tolerance.antt =====
-- What `transform_row` of filedge/transform.py returns, by declared and by undeclared columns.
use filedge.Base.{
  String, ◌≡◌, refl, ◌∙◌, ap, sym, subst, false, some, List, [], ◌∷◌, ◌++◌, map, ◌||◌, arith,
  contains, eq_iff, eq_refl,
}
use mathlib.Core.Path.{fun_ext}
use mathlib.Core.List.{append-nil, append_assoc}
use filedge.Base.Dict
use filedge.Base.Dict.{Dict, lookup-insert}
use filedge.Base.Result.{ok, >>=-eq-ok}
use filedge.Rows.Python.{Python}
use filedge.Rows.Columns.{ColumnMapping}
use filedge.Rows.Transform.{cell, transform_from, transform_row}

abbrev pub sources : List ColumnMapping → List String
sources columns = map (λ (c : ColumnMapping). c.source) columns

abbrev pub dests : List ColumnMapping → List String
dests columns = map (λ (c : ColumnMapping). c.dest) columns

-- No two columns have one destination.
abbrev pub DistinctDests : List ColumnMapping → Type 0
DistinctDests [] = Unit
DistinctDests (c ∷ columns) = (contains c.dest (dests columns) ≡ false) × DistinctDests columns

insert-fresh {ℓ} :
    {V : Type ℓ} (k : String) (v : V) (d : Dict V)
    → contains k (Dict.keys d) ≡ false
    → Dict.insert k v d ≡ d ++ (k, v) ∷ []
unfolding Dict.insert
insert-fresh k v [] h = refl
insert-fresh k v ((j, w) ∷ d) h = ground (arith, insert-fresh k v d)

keys-append {ℓ} : {V : Type ℓ} (d e : Dict V) → Dict.keys (d ++ e) ≡ Dict.keys d ++ Dict.keys e
keys-append [] e = refl
keys-append ((k, v) ∷ d) e = ap (λ (l : List String). k ∷ l) (keys-append d e)

contains-append :
    (k : String) (xs ys : List String) → contains k (xs ++ ys) ≡ (contains k xs || contains k ys)
contains-append k [] ys = refl
contains-append k (x ∷ xs) ys = ground (arith, contains-append k xs ys)

-- None of the keys is a destination of the columns.
abbrev Apart : List String → List ColumnMapping → Type 0
Apart ks [] = Unit
Apart ks (c ∷ columns) = (contains c.dest ks ≡ false) × Apart ks columns

Apart-nil : (columns : List ColumnMapping) → Apart [] columns
Apart-nil [] = tt
Apart-nil (c ∷ columns) = (refl, Apart-nil columns)

Apart-snoc :
    (ks : List String) (k : String) (columns : List ColumnMapping)
    → Apart ks columns
    → contains k (dests columns) ≡ false
    → Apart (ks ++ k ∷ []) columns
Apart-snoc ks k [] a h = tt
Apart-snoc ks k (c ∷ columns) (x, a) h = (
  ground (arith, contains-append c.dest ks (k ∷ []), eq_iff k c.dest, eq_iff c.dest k),
  Apart-snoc ks k columns a (ground arith),
)

module _ (py : Python) where
  open py use {Value}

  keys-transform_from :
      (row : Dict Value) (columns : List ColumnMapping) (result out : Dict Value)
      → DistinctDests columns
      → Apart (Dict.keys result) columns
      → transform_from py row columns result ≡ ok out
      → Dict.keys out ≡ Dict.keys result ++ dests columns
  unfolding transform_from
  keys-transform_from row [] result out d a e = ground (arith, append-nil (Dict.keys result))
  keys-transform_from row (c ∷ columns) result out (fresh, d) (apart, a) e =
      let (v, _, rest) = >>=-eq-ok (cell py (Dict.lookup c.source row) c) _ e in
      let grown =
        ap Dict.keys (insert-fresh c.dest v result apart) ∙ keys-append result ((c.dest, v) ∷ []) in
      keys-transform_from row columns (Dict.insert c.dest v result) out d
        (subst (λ ks. Apart ks columns) (sym grown) (Apart-snoc _ c.dest columns a fresh)) rest
      ∙ rw grown (append_assoc (Dict.keys result) (c.dest ∷ []) (dests columns))

  lookup-transform_from :
      (row : Dict Value) (columns : List ColumnMapping) (result out : Dict Value) (k : String)
      → contains k (dests columns) ≡ false
      → transform_from py row columns result ≡ ok out
      → Dict.lookup k out ≡ Dict.lookup k result
  unfolding transform_from
  lookup-transform_from row [] result out k h e = ground arith
  lookup-transform_from row (c ∷ columns) result out k h e =
      let (v, _, rest) = >>=-eq-ok (cell py (Dict.lookup c.source row) c) _ e in
      lookup-transform_from row columns (Dict.insert c.dest v result) out k (ground arith) rest
      ∙ lookup-insert k c.dest v result
      ∙ ground arith

  cell-transform_from :
      (row : Dict Value) (before : List ColumnMapping) (c : ColumnMapping)
      (after : List ColumnMapping) (result out : Dict Value)
      → contains c.dest (dests after) ≡ false
      → transform_from py row (before ++ c ∷ after) result ≡ ok out
      → (v : Value) × (cell py (Dict.lookup c.source row) c ≡ ok v)
        × (Dict.lookup c.dest out ≡ some v)
  unfolding transform_from
  cell-transform_from row [] c after result out h e =
      let (v, found, rest) = >>=-eq-ok (cell py (Dict.lookup c.source row) c) _ e in
      (
        v,
        found,
        lookup-transform_from row after (Dict.insert c.dest v result) out c.dest h rest
            ∙ lookup-insert c.dest c.dest v result
            ∙ rw (eq_refl c.dest),
      )
  cell-transform_from row (b ∷ before) c after result out h e =
      let (v, _, rest) = >>=-eq-ok (cell py (Dict.lookup b.source row) b) _ e in
      cell-transform_from row before c after (Dict.insert b.dest v result) out h rest

  transform_from-undeclared :
      (k : String) (v : Value) (row : Dict Value) (columns : List ColumnMapping)
      (result : Dict Value)
      → contains k (sources columns) ≡ false
      → transform_from py (Dict.insert k v row) columns result
        ≡ transform_from py row columns result
  unfolding transform_from
  transform_from-undeclared k v row [] result h = refl
  transform_from-undeclared k v row (c ∷ columns) result h = rw (lookup-insert c.source k v row) (
      rw
        (fun_ext (λ (w : Value).
          transform_from-undeclared k v row columns (Dict.insert c.dest w result) (ground arith)))
        (ground (arith, eq_iff k c.source, eq_iff c.source k)))

  -- A transformed row has exactly the destinations of the columns as its keys, in their order, if
  -- they are distinct.
  pub keys-transform_row :
      (row : Dict Value) (columns : List ColumnMapping) (out : Dict Value)
      → DistinctDests columns
      → transform_row py row columns ≡ ok out
      → Dict.keys out ≡ dests columns
  unfolding transform_row
  keys-transform_row row columns out d e =
      keys-transform_from row columns [] out d (Apart-nil columns) e

  -- A transformed row holds under the destination of a column the value of that column's own cell,
  -- if no later column has the same destination.
  pub cell-transform_row :
      (row : Dict Value) (before : List ColumnMapping) (c : ColumnMapping)
      (after : List ColumnMapping) (out : Dict Value)
      → contains c.dest (dests after) ≡ false
      → transform_row py row (before ++ c ∷ after) ≡ ok out
      → (v : Value) × (cell py (Dict.lookup c.source row) c ≡ ok v)
        × (Dict.lookup c.dest out ≡ some v)
  unfolding transform_row
  cell-transform_row row before c after out h e = cell-transform_from row before c after [] out h e

  -- A column that no mapping names as its source changes nothing of the transform, whatever its
  -- value and whether or not the row had it before.
  pub transform_row-undeclared :
      (k : String) (v : Value) (row : Dict Value) (columns : List ColumnMapping)
      → contains k (sources columns) ≡ false
      → transform_row py (Dict.insert k v row) columns ≡ transform_row py row columns
  unfolding transform_row
  transform_row-undeclared k v row columns h = transform_from-undeclared k v row columns [] h
