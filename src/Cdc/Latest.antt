-- ===== src/Cdc/Latest.antt =====
-- Which sequence the plan of filedge/cdc.py holds for a key.
use filedge.Base.{
  ◌≡◌, refl, ◌∙◌, sym, ◌⊎◌, inl, inr, true, false, Option, none, some, List, [], ◌∷◌, arith,
  Bool-cases,
}
use mathlib.Core.Option.{some-injective}
use filedge.Base.Dict.{Dict}
use filedge.Base.Result.{ok, >>=-eq-ok}
use filedge.Quarantine.Stream.{end, from_list}
use filedge.Cdc.Values.{CdcValues, IsLawful}
use filedge.Cdc.Plan.{
  CdcConfig, Key, Latest, LatestByKey, same_key, latest_of, set_latest, key_of, place, read_change,
  plan_step, plan_from,
}
use filedge.Cdc.Keys.{same_key_refl, latest_of-set_latest, latest_of-same}

-- The item stands in the list.
abbrev pub Occurs : {A : Type 0} → A → List A → Type 0
Occurs x [] = ⊥
Occurs x (y ∷ ys) = (x ≡ y) ⊎ Occurs x ys

module _ (v : CdcValues) (law : IsLawful v) (c : CdcConfig) where
  -- The entry is no older than the sequence.
  abbrev pub AtLeast : Latest v → v.Value → Type 0
  AtLeast e s = (e.sequence ≡ s) ⊎ (v.greater e.sequence s ≡ some true)

  -- The map has an entry for the key that is no older than the sequence.
  abbrev pub Covers : LatestByKey v → Key v → v.Value → Type 0
  Covers latest k s = (e : Latest v) × (latest_of v k latest ≡ some e) × AtLeast e s

  AtLeast-trans : (d e : Latest v) (s : v.Value) → AtLeast d e.sequence → AtLeast e s → AtLeast d s
  AtLeast-trans d e s (inl p) (inl q) = inl (p ∙ q)
  AtLeast-trans d e s (inl p) (inr q) = inr (rw p q)
  AtLeast-trans d e s (inr p) (inl q) = inr (rw (← q) p)
  AtLeast-trans d e s (inr p) (inr q) = inr (law.greater_trans d.sequence e.sequence s p q)

  Covers-set :
      (k j : Key v) (e x : Latest v) (latest : LatestByKey v)
      → latest_of v j latest ≡ some x
      → (same_key v k j ≡ true → AtLeast e x.sequence)
      → Covers (set_latest v k e latest) j x.sequence
  Covers-set k j e x latest found newer = elim (Bool-cases (same_key v k j)) [
    | inl same ↦ (e, latest_of-set_latest v law j k e latest ∙ rw same, newer same)
    | inr other ↦ (x, latest_of-set_latest v law j k e latest ∙ rw other found, inl refl)
  ]

  place-newer :
      (k : Key v) (e old : Latest v) (latest latest' : LatestByKey v)
      → place v k e (some old) latest ≡ ok latest'
      → ((v.greater e.sequence old.sequence ≡ some true) × (latest' ≡ set_latest v k e latest))
        ⊎ ((v.same old.sequence e.sequence ≡ false)
            × (v.greater e.sequence old.sequence ≡ some false)
            × (latest' ≡ latest))
  unfolding place
  place-newer k e old latest latest' h = ground arith

  -- The existing entry of a key is that of each key that equals it.
  found_same :
      (k j : Key v) (latest : LatestByKey v) (o : Option (Latest v)) (x : Latest v)
      → latest_of v k latest ≡ o
      → latest_of v j latest ≡ some x
      → same_key v k j ≡ true
      → o ≡ some x
  found_same k j latest o x f g same = sym f ∙ latest_of-same v law j k latest same ∙ g

  -- One placement keeps what is covered.
  place-Covers :
      (k : Key v) (e : Latest v) (latest latest' : LatestByKey v) (o : Option (Latest v))
      → latest_of v k latest ≡ o
      → place v k e o latest ≡ ok latest'
      → (j : Key v) (x : Latest v) → latest_of v j latest ≡ some x
      → Covers latest' j x.sequence
  place-Covers k e latest latest' none absent h j x g =
      let set : latest' ≡ set_latest v k e latest = unfold place in ground arith in
      rw set (
        Covers-set k j e x latest g
          (λ same. absurd (cc (found_same k j latest none x absent g same))))
  place-Covers k e latest latest' (some old) found h j x g =
      elim (place-newer k e old latest latest' h) [
        | inl (newer, set) ↦ rw set (
            Covers-set k j e x latest g (λ same. inr (
              rw (← some-injective old x (found_same k j latest (some old) x found g same)) newer)))
        | inr (_, _, kept) ↦ rw kept (x, g, inl refl)
      ]

  -- It covers the row's own key and sequence.
  place-Covers_self :
      (k : Key v) (e : Latest v) (latest latest' : LatestByKey v) (o : Option (Latest v))
      → latest_of v k latest ≡ o
      → place v k e o latest ≡ ok latest'
      → Covers latest' k e.sequence
  place-Covers_self k e latest latest' none absent h =
      let set : latest' ≡ set_latest v k e latest = unfold place in ground arith in
      rw set (e, latest_of-set_latest v law k k e latest ∙ rw (same_key_refl v law k), inl refl)
  place-Covers_self k e latest latest' (some old) found h =
      elim (place-newer k e old latest latest' h) [
        | inl (newer, set) ↦
            rw set
              (e, latest_of-set_latest v law k k e latest ∙ rw (same_key_refl v law k), inl refl)
        | inr (differ, older, kept) ↦
            rw kept (old, found, inr (law.greater_total old.sequence e.sequence differ older))
      ]

  step-Covers :
      (row : Dict v.Value) (latest latest' : LatestByKey v)
      → plan_step v c row latest ≡ ok latest'
      → (j : Key v) (x : Latest v) → latest_of v j latest ≡ some x
      → Covers latest' j x.sequence
  unfolding plan_step
  step-Covers row latest latest' h j x g =
      let (e, _, placed) = >>=-eq-ok (read_change v c row) _ h in
      place-Covers (key_of v c row) e latest latest' _ refl placed j x g

  step-Covers_self :
      (row : Dict v.Value) (latest latest' : LatestByKey v) (e : Latest v)
      → plan_step v c row latest ≡ ok latest'
      → read_change v c row ≡ ok e
      → Covers latest' (key_of v c row) e.sequence
  unfolding plan_step
  step-Covers_self row latest latest' e h read =
      place-Covers_self (key_of v c row) e latest latest' _ refl (rw read at h)

  plan_from-Covers :
      (rows : List (Dict v.Value)) (latest final : LatestByKey v)
      → plan_from v c (from_list rows end) latest ≡ ok final
      → (j : Key v) (x : Latest v) → latest_of v j latest ≡ some x
      → Covers final j x.sequence
  unfolding plan_from
  plan_from-Covers [] latest final h j x g = (x, ground arith, inl refl)
  plan_from-Covers (row ∷ rows) latest final h j x g =
      let (latest', step, rest) = >>=-eq-ok (plan_step v c row latest) _ h in
      let (y, at, newer) = step-Covers row latest latest' step j x g in
      let (z, final_at, newest) = plan_from-Covers rows latest' final rest j y at in
      (z, final_at, AtLeast-trans z y x.sequence newest newer)

  -- If the plan of a File succeeds, it has an entry for the key of every row that the File holds,
  -- and that entry's sequence is the row's or a later one.
  pub plan_from-newest :
      (rows : List (Dict v.Value)) (latest final : LatestByKey v)
      → plan_from v c (from_list rows end) latest ≡ ok final
      → (row : Dict v.Value) (e : Latest v) → Occurs row rows
      → read_change v c row ≡ ok e
      → Covers final (key_of v c row) e.sequence
  unfolding plan_from
  plan_from-newest [] latest final h row e at read = absurd at
  plan_from-newest (r ∷ rows) latest final h row e (inl same) read =
      let (latest', step, rest) = >>=-eq-ok (plan_step v c r latest) _ h in
      let (y, at, newer) = step-Covers_self row latest latest' e (rw (← same) at step) read in
      let (z, final_at, newest) = plan_from-Covers rows latest' final rest (key_of v c row) y at in
      (z, final_at, AtLeast-trans z y e.sequence newest newer)
  plan_from-newest (r ∷ rows) latest final h row e (inr later) read =
      let (latest', step, rest) = >>=-eq-ok (plan_step v c r latest) _ h in
      plan_from-newest rows latest' final rest row e later read
