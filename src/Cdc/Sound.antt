-- ===== src/Cdc/Sound.antt =====
-- Where the changes of `plan_cdc_changes` (filedge/cdc.py) come from, and what becomes of a row.
use filedge.Base.{
  ◌≡◌, refl, ◌∙◌, sym, ap, subst, ◌⊎◌, inl, inr, true, false, Option, none, some, List, [], ◌∷◌,
  arith, Bool-cases, map, All, any,
}
use mathlib.Core.Option.{some-injective}
use mathlib.Core.Path.{subst₂}
use filedge.Base.Dict.{Dict}
use filedge.Base.Result.{ok, >>=-eq-ok}
use filedge.Quarantine.Stream.{end, from_list}
use filedge.Cdc.Values.{CdcValues, IsLawful}
use filedge.Cdc.Plan.{
  CdcConfig, Key, Latest, LatestByKey, same_key, latest_of, set_latest, key_of, get_value,
  operation_of, place, read_change, plan_step, plan_from, CdcChange, change_of, plan_cdc_changes,
}
use filedge.Cdc.Keys.{same_key_refl}
use filedge.Cdc.Latest.{Occurs, plan_from-newest}

All-map {ℓ} :
    {A : Type 0} {P Q : A → Type ℓ} (xs : List A) → ((a : A) → P a → Q a) → All P xs → All Q xs
All-map [] f h = tt
All-map (x ∷ xs) f h = (f x h.0, All-map xs f h.1)

Occurs-All :
    {A : Type 0} (xs ys : List A)
    → ((a : A) → Occurs a xs → Occurs a ys)
    → All (λ a. Occurs a ys) xs
Occurs-All [] ys f = tt
Occurs-All (x ∷ xs) ys f = (f x (inl refl), Occurs-All xs ys (λ a h. f a (inr h)))

module _ (v : CdcValues) (law : IsLawful v) (c : CdcConfig) where
  -- What the entry of a key says of its row.
  abbrev pub IsRead : (Dict v.Value → Type 0) → Key v → Latest v → Type 0
  IsRead P k e = P e.row × (read_change v c e.row ≡ ok e) × (same_key v k (key_of v c e.row) ≡ true)

  abbrev AllRead : (Dict v.Value → Type 0) → LatestByKey v → Type 0
  AllRead P = All (λ (k, e). IsRead P k e)

  row-read_change : (row : Dict v.Value) (e : Latest v) → read_change v c row ≡ ok e → e.row ≡ row
  unfolding read_change
  row-read_change row e h = ground arith

  AllRead-set :
      (P : Dict v.Value → Type 0) (e : Latest v) (latest : LatestByKey v)
      → P e.row
      → read_change v c e.row ≡ ok e
      → AllRead P latest
      → AllRead P (set_latest v (key_of v c e.row) e latest)
  unfolding set_latest
  AllRead-set P e [] p read h = ((p, read, same_key_refl v law (key_of v c e.row)), tt)
  AllRead-set P e ((k, old) ∷ latest) p read (x, h) =
      elim (Bool-cases (same_key v k (key_of v c e.row))) [
        | inl same ↦ rw (same, set_latest) ((p, read, same), h)
        | inr other ↦ rw (other, set_latest) (x, AllRead-set P e latest p read h)
      ]

  place-set :
      (k : Key v) (e : Latest v) (o : Option (Latest v)) (latest latest' : LatestByKey v)
      → place v k e o latest ≡ ok latest'
      → (latest' ≡ set_latest v k e latest) ⊎ (latest' ≡ latest)
  unfolding place
  place-set k e none latest latest' h = inl (ground arith)
  place-set k e (some old) latest latest' h = ground arith

  place-AllRead :
      (P : Dict v.Value → Type 0) (e : Latest v) (latest latest' : LatestByKey v)
      (o : Option (Latest v))
      → P e.row
      → read_change v c e.row ≡ ok e
      → place v (key_of v c e.row) e o latest ≡ ok latest'
      → AllRead P latest
      → AllRead P latest'
  place-AllRead P e latest latest' o p read h all_read =
      elim (place-set (key_of v c e.row) e o latest latest' h) [
        | inl set ↦ rw set (AllRead-set P e latest p read all_read)
        | inr kept ↦ rw kept all_read
      ]

  plan_from-AllRead :
      (P : Dict v.Value → Type 0) (rows : List (Dict v.Value)) (latest final : LatestByKey v)
      → All P rows
      → AllRead P latest
      → plan_from v c (from_list rows end) latest ≡ ok final
      → AllRead P final
  unfolding plan_from plan_step
  plan_from-AllRead P [] latest final ps h e =
      let same : latest ≡ final = ground arith in subst (AllRead P) same h
  plan_from-AllRead P (row ∷ rows) latest final (p, ps) h e =
      let (latest', step, rest) = >>=-eq-ok (plan_step v c row latest) _ e in
      let (x, read, placed) = >>=-eq-ok (read_change v c row) _ step in
      let own = sym (row-read_change row x read) in
      plan_from-AllRead P rows latest' final ps
        (place-AllRead P x latest latest' _ (subst P own p)
          (subst (λ r. read_change v c r ≡ ok x) own read)
          (subst
            (λ r. place v (key_of v c r) x (latest_of v (key_of v c r) latest) latest ≡ ok latest')
            own placed)
          h)
        rest

  latest_of-Occurs :
      (k : Key v) (e : Latest v) (latest : LatestByKey v)
      → latest_of v k latest ≡ some e
      → (j : Key v) × Occurs (change_of v (j, e)) (map (change_of v) latest)
        × (same_key v j k ≡ true)
  unfolding latest_of
  latest_of-Occurs k e [] h = cc
  latest_of-Occurs k e ((i, old) ∷ latest) h = elim (Bool-cases (same_key v i k)) [
    | inl same ↦ (
      i,
      inl (ap (λ x. change_of v (i, x)) (sym (some-injective old e (rw (same, latest_of) at h)))),
      same,
    )
    | inr other ↦
        let (j, at, same) = latest_of-Occurs k e latest (rw (other, latest_of) at h) in
        (j, inr at, same)
  ]

  -- What a change says: it carries a row of the File, that row's operation and a key that equals
  -- the row's and has no null.
  abbrev pub FromRow : List (Dict v.Value) → CdcChange v → Type 0
  FromRow rows change =
      Occurs change.row rows
      × (operation_of v c change.row ≡ some change.operation)
      × (same_key v change.key (key_of v c change.row) ≡ true)
      × (any v.is_null (key_of v c change.row) ≡ false)

  FromRow-read :
      (rows : List (Dict v.Value)) (latest : LatestByKey v)
      → AllRead (λ r. Occurs r rows) latest
      → All (FromRow rows) (map (change_of v) latest)
  unfolding read_change
  FromRow-read rows [] h = tt
  FromRow-read rows ((k, e) ∷ latest) ((at, read, same), h) =
      ((at, ground arith, same, ground arith), FromRow-read rows latest h)

  -- Each change of a successful plan comes from a row of the File, under the row's own operation
  -- and an equal key that holds no null, if the values are lawful.
  pub plan_cdc_changes-FromRow :
      (rows : List (Dict v.Value)) (changes : List (CdcChange v))
      → plan_cdc_changes v c (from_list rows end) ≡ ok changes
      → All (FromRow rows) changes
  unfolding plan_cdc_changes
  plan_cdc_changes-FromRow rows changes h =
      let (latest, plan, done) = >>=-eq-ok (plan_from v c (from_list rows end) []) _ h in
      let same : map (change_of v) latest ≡ changes = ground arith in
      subst (All (FromRow rows)) same (
        FromRow-read rows latest (
          plan_from-AllRead (λ r. Occurs r rows) rows [] latest (Occurs-All rows rows (λ a x. x)) tt
            plan))

  -- The sequence of a row.
  abbrev pub sequence_of : Dict v.Value → v.Value
  sequence_of row = get_value v row c.sequence_by

  latest_of-sequence :
      (k : Key v) (e : Latest v) (latest : LatestByKey v)
      → AllRead (λ _. Unit) latest
      → latest_of v k latest ≡ some e
      → e.sequence ≡ sequence_of e.row
  unfolding latest_of read_change
  latest_of-sequence k e [] h f = cc
  latest_of-sequence k e ((i, old) ∷ latest) ((_, read, _), h) f =
      ground (arith, latest_of-sequence k e latest h)

  sequence-read_change :
      (row : Dict v.Value) (e : Latest v)
      → read_change v c row ≡ ok e
      → e.sequence ≡ sequence_of row
  unfolding read_change
  sequence-read_change row e h = ground arith

  plan_from-read :
      (rows : List (Dict v.Value)) (latest final : LatestByKey v)
      → plan_from v c (from_list rows end) latest ≡ ok final
      → (row : Dict v.Value) → Occurs row rows
      → (e : Latest v) × (read_change v c row ≡ ok e)
  unfolding plan_from plan_step
  plan_from-read [] latest final h row at = absurd at
  plan_from-read (r ∷ rows) latest final h row (inl same) =
      let (latest', step, rest) = >>=-eq-ok (plan_step v c r latest) _ h in
      let (e, read, _) = >>=-eq-ok (read_change v c r) _ step in
      (e, subst (λ x. read_change v c x ≡ ok e) (sym same) read)
  plan_from-read (r ∷ rows) latest final h row (inr later) =
      let (latest', step, rest) = >>=-eq-ok (plan_step v c r latest) _ h in
      plan_from-read rows latest' final rest row later

  Units : (rows : List (Dict v.Value)) → All (λ _. Unit {0}) rows
  Units [] = tt
  Units (r ∷ rows) = (tt, Units rows)

  -- For every row of a File that is planned, the plan has a change of the row's key whose sequence
  -- is the row's own or greater, if Python's equality and order are lawful.
  pub plan_cdc_changes-newest :
      (rows : List (Dict v.Value)) (changes : List (CdcChange v)) (row : Dict v.Value)
      → plan_cdc_changes v c (from_list rows end) ≡ ok changes
      → Occurs row rows
      → (change : CdcChange v) × Occurs change changes
        × (same_key v change.key (key_of v c row) ≡ true)
        × ((sequence_of change.row ≡ sequence_of row)
            ⊎ (v.greater (sequence_of change.row) (sequence_of row) ≡ some true))
  unfolding plan_cdc_changes
  plan_cdc_changes-newest rows changes row h at =
      let (latest, plan, done) = >>=-eq-ok (plan_from v c (from_list rows end) []) _ h in
      let same : map (change_of v) latest ≡ changes = ground arith in
      let (e, read) = plan_from-read rows [] latest plan row at in
      let (f, found, newer) = plan_from-newest v law c rows [] latest plan row e at read in
      let (k, held, key) = latest_of-Occurs (key_of v c row) f latest found in
      let own =
        latest_of-sequence (key_of v c row) f latest
          (plan_from-AllRead (λ _. Unit) rows [] latest (Units rows) tt plan) found in
      let read_own = sequence-read_change row e read in
      (
        change_of v (k, f),
        subst (λ l. Occurs (change_of v (k, f)) l) same held,
        key,
        elim newer [
          | inl equal ↦ inl (sym own ∙ equal ∙ read_own)
          | inr later ↦ inr (subst₂ (λ a b. v.greater a b ≡ some true) own read_own later)
        ],
      )
