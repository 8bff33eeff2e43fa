-- ===== src/Quarantine/Partition.antt =====
-- What `quarantining_rows` of filedge/quarantine/processor.py makes of the rows of a File.
use filedge.Base.{
  ℕ, ◌+◌, ◌<◌, String, ◌≡◌, ◌≢◌, ◌↔◌, ◌⊎◌, refl, ◌∙◌, sym, ap, true, Option, none, some, inl, inr,
  List, [], ◌∷◌, ◌++◌, All, arith, length, Bool-cases,
}
use mathlib.Core.List.{append-nil, append_assoc}
use filedge.Base.Dict.{Dict}
use filedge.Base.Result.{Result, ok, err, Result-cases}
use filedge.Rows.Python.{Python}
use filedge.Rows.Columns.{ColumnMapping}
use filedge.Quarantine.Stream.{raise, over_threshold, end, from_list}
use filedge.Quarantine.Processor.{
  over_rows, over_fraction, is_over_threshold, caught, uncaught, QuarantineConfig, QuarantinedRow,
  Buffer, attempt, finish, quarantined, quarantine_from, quarantining_rows,
}
use filedge.Quarantine.Blame.{Blames, attempt-Blames}

module _ (py : Python) (q : QuarantineConfig py) where
  -- More rows are invalid than `max_invalid_rows`, or a greater part of all than
  -- `max_invalid_fraction`; a threshold that is not given is never passed.
  abbrev pub OverThreshold : ℕ → ℕ → Type 0
  OverThreshold invalid total =
      ((limit : ℕ) × (q.max_invalid_rows ≡ some limit) × (limit < invalid))
      ⊎ ((limit : py.Float) × (q.max_invalid_fraction ≡ some limit)
          × (0 < total)
          × (py.ratio_exceeds invalid total limit ≡ true))

  over_rows_iff :
      (o : Option ℕ) (invalid : ℕ)
      → (over_rows py o invalid ≡ true) ↔ ((limit : ℕ) × (o ≡ some limit) × (limit < invalid))
  unfolding over_rows
  over_rows_iff none invalid = (λ h. cc, λ h. cc (h.1))
  over_rows_iff (some k) invalid = (λ h. (k, refl, ground arith), λ h. ground (arith, h.1, h.2))

  over_fraction_iff :
      (o : Option py.Float) (invalid total : ℕ)
      → (over_fraction py o invalid total ≡ true) ↔ (
          (limit : py.Float) × (o ≡ some limit)
          × (0 < total)
          × (py.ratio_exceeds invalid total limit ≡ true))
  unfolding over_fraction
  over_fraction_iff none invalid total = (λ h. cc, λ h. cc (h.1))
  over_fraction_iff (some k) invalid total =
      (λ h. (k, refl, ground arith, ground arith), λ h. ground (arith, h.1, h.2, h.3))

  is_over_threshold_iff :
      (invalid total : ℕ)
      → (is_over_threshold py q invalid total ≡ true) ↔ OverThreshold invalid total
  unfolding is_over_threshold
  is_over_threshold_iff invalid total = (
    λ h. elim (Bool-cases (over_rows py q.max_invalid_rows invalid)) [
      | inl rows ↦ inl ((over_rows_iff q.max_invalid_rows invalid).0 rows)
      | inr few ↦
          inr ((over_fraction_iff q.max_invalid_fraction invalid total).0 (ground (arith, few)))
    ],
    λ over. elim over [
      | inl rows ↦ ground (arith, (over_rows_iff q.max_invalid_rows invalid).1 rows)
      | inr part ↦ ground (arith, (over_fraction_iff q.max_invalid_fraction invalid total).1 part)
    ],
  )

module _ (py : Python) (post : Dict py.Value → Result String (Dict py.Value))
    (columns : List ColumnMapping) (q : QuarantineConfig py) where
  -- The rows from the number `n` on are split into those passed on and those buffered, each kind in
  -- order: a row whose attempt gives a value, and a row whose attempt raises a row error, with its
  -- number, its own values, the error and the column to blame.
  abbrev pub Split : ℕ → List (Dict py.Value) → List (Dict py.Value) → Buffer py → Type 0
  Split n [] goods bads = (goods ≡ []) × (bads ≡ [])
  Split n (raw ∷ raws) goods bads =
      ((t : Dict py.Value) × (later : List (Dict py.Value)) × (attempt py post columns raw ≡ ok t)
        × (goods ≡ t ∷ later)
        × Split (n + 1) raws later bads)
      ⊎ ((b : QuarantinedRow py) × (later : Buffer py) × (attempt py post columns raw
            ≡ err (caught b.error))
          × (b.row_number ≡ n + 1)
          × (b.row ≡ raw)
          × Blames py post columns raw b.column b.error
          × (bads ≡ b ∷ later)
          × Split (n + 1) raws goods later)

  length-Split :
      (n : ℕ) (raws goods : List (Dict py.Value)) (bads : Buffer py)
      → Split n raws goods bads
      → length goods + length bads ≡ length raws
  length-Split n [] goods bads (g, b) = omega (arith, ap length g, ap length b)
  length-Split n (raw ∷ raws) goods bads (inl (t, later, good, g, split)) =
      omega (arith, ap length g, length-Split (n + 1) raws later bads split)
  length-Split n (raw ∷ raws) goods bads (inr (b, later, bad, number, row, blame, g, split)) =
      omega (arith, ap length g, length-Split (n + 1) raws goods later split)

  -- No row of the File raises an OverflowError.
  abbrev pub Converts : List (Dict py.Value) → Type 0
  Converts raws = All (λ raw. attempt py post columns raw ≢ err uncaught) raws

  -- How the loop goes on from any counters and buffer.
  abbrev Ends : List (Dict py.Value) → ℕ → ℕ → Buffer py → List (Dict py.Value) → Buffer py → Type 0
  Ends raws total invalid buffer goods bads =
      (all_rows all_bad : ℕ) (full : Buffer py)
      → all_rows ≡ total + length raws
      → all_bad ≡ invalid + length bads
      → full ≡ buffer ++ bads
      → quarantine_from py post columns q (from_list raws end) total invalid buffer ≡ (
        from_list goods (finish py post columns q all_rows all_bad full).0,
        (finish py post columns q all_rows all_bad full).1,
      )

  quarantine_from-Split :
      (raws : List (Dict py.Value)) (total invalid : ℕ) (buffer : Buffer py)
      → Converts raws
      → (goods : List (Dict py.Value)) × (bads : Buffer py) × Split total raws goods bads
        × Ends raws total invalid buffer goods bads
  unfolding quarantine_from
  quarantine_from-Split [] total invalid buffer fine = (
    [],
    [],
    (refl, refl),
    λ all_rows all_bad full n b f.
        let n' : all_rows ≡ total = omega (arith, n) in
        let b' : all_bad ≡ invalid = omega (arith, b) in
        let f' = f ∙ append-nil buffer in rw (n', b', f'),
  )
  quarantine_from-Split (raw ∷ raws) total invalid buffer (here, fine) =
      elim (Result-cases (attempt py post columns raw)) [
        | inl (t, good) ↦
            let (goods, bads, split, run) =
              quarantine_from-Split raws (total + 1) invalid buffer fine in
            (
              t ∷ goods,
              bads,
              inl (t, goods, good, refl, split),
              λ all_rows all_bad full n b f.
                  rw (good, quarantine_from)
                    (rw (run all_rows all_bad full (omega (arith, n)) b f) refl),
            )
        | inr (uncaught, bad) ↦ absurd (here bad)
        | inr (caught e, bad) ↦
            let (column, found, blame) = attempt-Blames py post columns raw e bad in
            let b : QuarantinedRow py = quarantined py post columns q (total + 1) column e raw in
            let (goods, bads, split, run) =
              quarantine_from-Split raws (total + 1) (invalid + 1) (buffer ++ b ∷ []) fine in
            (
              goods,
              b ∷ bads,
              inr (
                b,
                bads,
                unfold quarantined in bad,
                unfold quarantined in refl,
                unfold quarantined in refl,
                unfold quarantined in blame,
                refl,
                split,
              ),
              λ all_rows all_bad full n k f.
                  rw (bad, quarantine_from)
                    (rw (found, quarantine_from)
                      (run all_rows all_bad full (omega (arith, n)) (omega (arith, k))
                        (f ∙ sym (append_assoc buffer (b ∷ []) bads)))),
            )
      ]

  -- The split of a File, and what its consumer and the buffer get.
  abbrev pub Quarantines : List (Dict py.Value) → Type 0
  Quarantines raws =
      (goods : List (Dict py.Value)) × (bads : Buffer py) × Split 0 raws goods bads
      × (length goods + length bads ≡ length raws)
      × ((OverThreshold py q (length bads) (length raws)
            × (quarantining_rows py post columns q (from_list raws end)
                ≡ (from_list goods (raise (over_threshold (length bads) (length raws))), [])))
          ⊎ ((OverThreshold py q (length bads) (length raws) → ⊥)
              × (quarantining_rows py post columns q (from_list raws end)
                  ≡ (from_list goods end, bads))))

  -- A File that is read to its end, and none of whose rows raises an OverflowError: its rows are
  -- split in order into those passed on as the attempt gives them and those buffered, each with its
  -- number, values and error and with the first column that the transform rejects, or no column if
  -- the row was transformed. The two kinds add up to the rows of the File. If more rows are bad than
  -- a given threshold allows, the consumer sees the good rows and then the threshold's exception, and
  -- the buffer is empty; otherwise it sees the good rows and the end, and the buffer has the bad ones.
  pub quarantining_rows-from_list : (raws : List (Dict py.Value)) → Converts raws → Quarantines raws
  unfolding quarantining_rows finish
  quarantining_rows-from_list raws fine =
      let (goods, bads, split, run) = quarantine_from-Split raws 0 0 [] fine in
      let ran = run (length raws) (length bads) bads (omega arith) (omega arith) refl in
      (
        goods,
        bads,
        split,
        length-Split 0 raws goods bads split,
        elim (Bool-cases (is_over_threshold py q (length bads) (length raws))) [
          | inl over ↦
              inl (
                (is_over_threshold_iff py q (length bads) (length raws)).0 over,
                ran ∙ rw over refl,
              )
          | inr under ↦ inr (
            λ over. cc (under, (is_over_threshold_iff py q (length bads) (length raws)).1 over),
            ran ∙ rw under refl,
          )
        ],
      )
