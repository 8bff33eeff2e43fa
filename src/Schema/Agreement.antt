-- ===== src/Schema/Agreement.antt =====
-- When `schema_mismatches` of filedge/schema.py finds nothing.
use filedge.Base.{
  String, ◌≡◌, ◌↔◌, refl, ◌∙◌, sym, true, false, Option, none, some, List, [], ◌∷◌, ◌++◌, ◌==◌,
  eq_iff, eq_refl, contains, All, arith, Option-cases, Bool-cases, subst, inl, inr,
}
use filedge.Base.Dict
use filedge.Base.Dict.{Dict}
use filedge.Schema.Columns.{
  ExpectedColumn, compare_types, compare_declared, declared_mismatches, undeclared_mismatches,
  expected_by_name, existing_by_name, schema_mismatches,
}

append-eq-nil {ℓ} : {A : Type ℓ} (xs ys : List A) → (xs ++ ys ≡ []) ↔ ((xs ≡ []) × (ys ≡ []))
append-eq-nil [] ys = (λ h. (refl, h), λ h. h.1)
append-eq-nil (x ∷ xs) ys = (λ h. cc, λ h. cc)

lookup-keys :
    {V : Type 0} (k : String) (d : Dict V)
    → contains k (Dict.keys d) ≡ false
    → Dict.lookup k d ≡ none
unfolding Dict.lookup
lookup-keys k [] h = refl
lookup-keys k ((j, v) ∷ d) h = ground (arith, lookup-keys k d)

lookup-contains :
    {V : Type 0} (k : String) (d : Dict V)
    → contains k (Dict.keys d) ≡ true
    → (v : V) × (Dict.lookup k d ≡ some v)
unfolding Dict.lookup
lookup-contains k [] h = cc
lookup-contains k ((j, v) ∷ d) h = elim (Bool-cases (j == k)) [
  | inl same ↦ (v, rw same)
  | inr other ↦ rw other (lookup-contains k d (ground (arith, h)))
]

contains-lookup :
    {V : Type 0} (k : String) (d : Dict V) (v : V)
    → Dict.lookup k d ≡ some v
    → contains k (Dict.keys d) ≡ true
unfolding Dict.lookup
contains-lookup k [] v h = cc
contains-lookup k ((j, u) ∷ d) v h = ground (arith, contains-lookup k d v)

-- All the names of a list, and the names that the list contains.
All-contains :
    (P : String → Type 0) (names : List String)
    → All P names ↔ ((name : String) → contains name names ≡ true → P name)
All-contains P [] = (λ h name at. cc, λ h. tt)
All-contains P (n ∷ names) = (
  λ (p, h) name at. elim (Bool-cases (n == name)) [
    | inl same ↦ subst P ((eq_iff n name).0 same) p
    | inr other ↦ (All-contains P names).0 h name (ground (arith, at, other))
  ],
  λ h. (
    h n (ground (arith, eq_refl n)),
    (All-contains P names).1 (λ name at. h name (ground (arith, at))),
  ),
)

module _ (sorted : List String → List String) (one_spaced : String → String)
    (aliases : Dict String) where
  Declared : Dict String → Dict String → String → Type 0
  Declared e w name =
      compare_types sorted one_spaced aliases name (Dict.lookup name e) (Dict.lookup name w) ≡ []

  Known : Dict String → String → Type 0
  Known w name = compare_declared sorted one_spaced aliases name (Dict.lookup name w) ≡ []

  declared_mismatches-All :
      (e w : Dict String) (names : List String)
      → (declared_mismatches sorted one_spaced aliases e w names ≡ []) ↔ All (Declared e w) names
  unfolding declared_mismatches Declared
  declared_mismatches-All e w [] = (λ h. tt, λ h. refl)
  declared_mismatches-All e w (n ∷ names) = ground (
    arith,
    append-eq-nil (compare_types sorted one_spaced aliases n (Dict.lookup n e) (Dict.lookup n w))
        (declared_mismatches sorted one_spaced aliases e w names),
    declared_mismatches-All e w names,
  )

  undeclared_mismatches-All :
      (w : Dict String) (names : List String)
      → (undeclared_mismatches sorted one_spaced aliases w names ≡ []) ↔ All (Known w) names
  unfolding undeclared_mismatches Known
  undeclared_mismatches-All w [] = (λ h. tt, λ h. refl)
  undeclared_mismatches-All w (n ∷ names) = ground (
    arith,
    append-eq-nil (compare_declared sorted one_spaced aliases n (Dict.lookup n w))
        (undeclared_mismatches sorted one_spaced aliases w names),
    undeclared_mismatches-All w names,
  )

  Declared-same :
      (name t : String) (o : Option String)
      → compare_types sorted one_spaced aliases name o (some t) ≡ []
      → o ≡ some t
  unfolding compare_types
  Declared-same name t none h = cc
  Declared-same name t (some u) h = ground (arith, eq_iff u t)

  same-Declared :
      (name t : String) → compare_types sorted one_spaced aliases name (some t) (some t) ≡ []
  unfolding compare_types
  same-Declared name t = ground (arith, eq_refl t)

  undeclared-absurd :
      (name : String) → compare_declared sorted one_spaced aliases name none ≡ [] → ⊥
  unfolding compare_declared
  undeclared-absurd name h = cc

  module _
      (keeps : (names : List String) (k : String) → contains k (sorted names) ≡ contains k names)
      (e w : Dict String) where
    found-same :
        All (Declared e w) (sorted (Dict.keys w))
        → All (Known w) (sorted (Dict.keys e))
        → (name : String) → Dict.lookup name e ≡ Dict.lookup name w
    unfolding Declared Known
    found-same declared known name = elim (Option-cases (Dict.lookup name w)) [
      | inr (t, found) ↦
          let at = keeps (Dict.keys w) name ∙ contains-lookup name w t found in
          let ok_name = (All-contains (Declared e w) (sorted (Dict.keys w))).0 declared name at in
          Declared-same name t (Dict.lookup name e) (
            subst (λ o. compare_types sorted one_spaced aliases name (Dict.lookup name e) o ≡ [])
              found ok_name)
          ∙ sym found
      | inl absent ↦ elim (Option-cases (Dict.lookup name e)) [
        | inl none_too ↦ none_too ∙ sym absent
        | inr (u, found) ↦
            let at = keeps (Dict.keys e) name ∙ contains-lookup name e u found in
            let ok_name = (All-contains (Known w) (sorted (Dict.keys e))).0 known name at in
            absurd (
              undeclared-absurd name (
                subst (λ o. compare_declared sorted one_spaced aliases name o ≡ []) absent ok_name))
      ]
    ]

    same-found :
        ((name : String) → Dict.lookup name e ≡ Dict.lookup name w)
        → All (Declared e w) (sorted (Dict.keys w)) × All (Known w) (sorted (Dict.keys e))
    unfolding Declared Known compare_declared
    same-found same = (
      (All-contains (Declared e w) (sorted (Dict.keys w))).1 (λ name at.
          let (t, found) = lookup-contains name w (sym (keeps (Dict.keys w) name) ∙ at) in
          rw (same name) (rw found (same-Declared name t))),
      (All-contains (Known w) (sorted (Dict.keys e))).1 (λ name at.
          let (t, found) = lookup-contains name e (sym (keeps (Dict.keys e) name) ∙ at) in
          rw (sym (same name) ∙ found)),
    )

  -- The schema check reports nothing exactly when the table and the config have the same columns
  -- with the same normalized types, if sorted keeps the members of a list.
  pub schema_mismatches-agree :
      (keeps : (names : List String) (k : String) → contains k (sorted names) ≡ contains k names)
      (existing : Dict String) (expected : List ExpectedColumn)
      → (schema_mismatches sorted one_spaced aliases existing expected ≡ []) ↔ (
          (name : String)
          → Dict.lookup name (existing_by_name sorted one_spaced aliases existing [])
            ≡ Dict.lookup name (expected_by_name sorted one_spaced aliases expected []))
  unfolding schema_mismatches
  schema_mismatches-agree keeps existing expected =
      let e = existing_by_name sorted one_spaced aliases existing [] in
      let w = expected_by_name sorted one_spaced aliases expected [] in
      let parts =
        append-eq-nil (declared_mismatches sorted one_spaced aliases e w (sorted (Dict.keys w)))
          (undeclared_mismatches sorted one_spaced aliases w (sorted (Dict.keys e))) in
      let declared = declared_mismatches-All e w (sorted (Dict.keys w)) in
      let known = undeclared_mismatches-All w (sorted (Dict.keys e)) in
      (
        λ h. found-same keeps e w (declared.0 (parts.0 h).0) (known.0 (parts.0 h).1),
        λ same.
            parts.1
              (declared.1 (same-found keeps e w same).0, known.1 (same-found keeps e w same).1),
      )
