-- ===== src/Load/Yields.antt =====
-- The streams that `load_file` (filedge/loader.py) hands to a connector: how they end, and the
-- columns of what they yield.
use filedge.Base.{
  ℕ, suc, ◌+◌, ◌++◌, String, ◌≡◌, refl, ◌∙◌, sym, ap, Bool, true, false, subst, if◌then◌else◌,
  Option, none, some, List, [], ◌∷◌, ◌⊎◌, inl, inr, All, length, arith, Option-cases,
}
use filedge.Base.Dict
use filedge.Base.Dict.{Dict}
use filedge.Base.Result.{Result, ok, err, >>=-eq-ok, Result-cases}
use filedge.Rows.Python.{Python}
use filedge.Rows.Columns.{ColumnMapping}
use filedge.Rows.Transform.{transform_row}
use filedge.Rows.Tolerance.{dests, DistinctDests, keys-transform_row}
use filedge.Quarantine.Stream.{
  unexpected, over_threshold, LoadError, Stream, end, raise, yield, from_list,
}
use filedge.Quarantine.Processor.{
  is_over_threshold, QuarantineConfig, RowFault, caught, uncaught, Buffer, offending_column,
  attempt, post_attempt, finish, quarantined, quarantine_from, quarantining_rows,
}
use filedge.Destination.Table.{append}
use filedge.Cdc.Plan.{CdcConfig}
use filedge.Load.Crypto.{Ciphers, Engine, Operation, apply_operations, apply_to_row, cell_bytes}
use filedge.Load.Connector.{Connector}
use filedge.Load.Config.{PipelineConfig}
use filedge.Load.LoadFile.{yields, load_row, row_iter, active_quarantine, iterator, with_operation}

-- What holds of everything that a stream yields.
abbrev pub EachYield {ℓ κ} : {A : Type ℓ} → (A → Type κ) → Stream A → Type κ
EachYield P end = Unit
EachYield P (raise e) = Unit
EachYield P (yield a rows) = P a × EachYield P rows

-- A stream yields the items of a list, and then ends or raises.
abbrev pub Ends {ℓ} : {A : Type ℓ} → Stream A → Type ℓ
Ends {A} st =
    ((xs : List A) × (st ≡ from_list xs end))
    ⊎ ((xs : List A) × (e : LoadError) × (st ≡ from_list xs (raise e)))

pub Stream-Ends {ℓ} : {A : Type ℓ} (st : Stream A) → Ends st
Stream-Ends end = inl ([], refl)
Stream-Ends (raise e) = inr ([], e, refl)
Stream-Ends (yield a st) = elim (Stream-Ends st) [
  | inl (xs, same) ↦ inl (a ∷ xs, ap (yield a) same)
  | inr (xs, e, same) ↦ inr (a ∷ xs, e, ap (yield a) same)
]

pub yields-from_list {ℓ} : {A : Type ℓ} (xs : List A) → yields (from_list xs end) ≡ length xs
unfolding yields
yields-from_list [] = refl
yields-from_list (x ∷ xs) = ap suc (yields-from_list xs)

pub EachYield-from_list {ℓ κ} :
    {A : Type ℓ} (P : A → Type κ) (xs : List A) (tail : Stream A)
    → EachYield P (from_list xs tail)
    → All P xs
EachYield-from_list P [] tail h = tt
EachYield-from_list P (x ∷ xs) tail (p, h) = (p, EachYield-from_list P xs tail h)

keys-insert_there :
    {V : Type 0} (k : String) (v u : V) (d : Dict V)
    → Dict.lookup k d ≡ some u
    → Dict.keys (Dict.insert k v d) ≡ Dict.keys d
unfolding Dict.lookup Dict.insert
keys-insert_there k v u [] h = cc
keys-insert_there k v u ((j, w) ∷ d) h = ground (arith, keys-insert_there k v u d)

module _ (py : Python) (ciphers : Ciphers) where
  cell_bytes-some :
      (o : Option py.Value) (bytes : String)
      → cell_bytes py ciphers o ≡ ok bytes
      → (u : py.Value) × (o ≡ some u)
  unfolding cell_bytes
  cell_bytes-some none bytes e = cc
  cell_bytes-some (some u) bytes e = (u, refl)

  keys-apply_operations :
      (cipher : ciphers.KeyBytes → String → Result String String)
      (operations : List (Operation py ciphers)) (row out : Dict py.Value)
      → apply_operations py ciphers cipher operations row ≡ ok out
      → Dict.keys out ≡ Dict.keys row
  unfolding apply_operations
  keys-apply_operations cipher [] row out e = ground arith
  keys-apply_operations cipher (op ∷ operations) row out e =
      let (bytes, there, rest) = >>=-eq-ok (cell_bytes py ciphers (Dict.lookup op.dest row)) _ e in
      let (sealed, _, more) = >>=-eq-ok (cipher op.key bytes) _ rest in
      let (u, found) = cell_bytes-some (Dict.lookup op.dest row) bytes there in
      keys-apply_operations cipher operations (Dict.insert op.dest (py.text sealed) row) out more
      ∙ keys-insert_there op.dest (py.text sealed) u row found

  keys-apply_to_row :
      (engine : Engine py ciphers) (row out : Dict py.Value)
      → apply_to_row py ciphers engine row ≡ ok out
      → Dict.keys out ≡ Dict.keys row
  unfolding apply_to_row
  keys-apply_to_row engine row out e =
      let (encrypted, first, second) =
        >>=-eq-ok (apply_operations py ciphers ciphers.encrypt engine.encrypt_operations row) _ e in
      keys-apply_operations ciphers.digest engine.hash_operations encrypted out second
      ∙ keys-apply_operations ciphers.encrypt engine.encrypt_operations row encrypted first

  module _ (columns : List ColumnMapping) (distinct : DistinctDests columns)
      (engine : Engine py ciphers) where
    -- A transformed row has the destinations of the columns.
    abbrev pub HasColumns : Dict py.Value → Type 0
    HasColumns row = Dict.keys row ≡ dests columns

    attempt-HasColumns :
        (raw out : Dict py.Value)
        → attempt py (apply_to_row py ciphers engine) columns raw ≡ ok out
        → HasColumns out
    unfolding attempt post_attempt
    attempt-HasColumns raw out e = elim (Result-cases (transform_row py raw columns)) [
      | inr (x, bad) ↦ absurd (ground (arith, bad))
      | inl (t, good) ↦ elim (Result-cases (apply_to_row py ciphers engine t)) [
        | inr (x, bad) ↦ absurd (ground (arith, good, bad))
        | inl (u, sealed) ↦
            let same : u ≡ out = ground (arith, good, sealed) in
            ap Dict.keys (sym same)
            ∙ keys-apply_to_row engine t u sealed
            ∙ keys-transform_row py raw columns t distinct good
      ]
    ]

    run : QuarantineConfig py → Stream (Dict py.Value) → ℕ → ℕ → Buffer py → Stream (Dict py.Value)
    run q rows total invalid buffer =
        (quarantine_from py (apply_to_row py ciphers engine) columns q rows total invalid buffer).0

    EachYield-finish :
        (q : QuarantineConfig py) (b : Bool) (total invalid : ℕ)
        → EachYield HasColumns (if b then raise (over_threshold invalid total) else end)
    EachYield-finish q true total invalid = tt
    EachYield-finish q false total invalid = tt

    finish-stream :
        (q : QuarantineConfig py) (total invalid : ℕ) (buffer : Buffer py)
        → (if is_over_threshold py q invalid total
            then raise (over_threshold invalid total)
            else end)
          ≡ run q end total invalid buffer
    unfolding run quarantine_from finish
    finish-stream q total invalid buffer = ground arith

    run-good :
        (q : QuarantineConfig py) (raw t : Dict py.Value) (rows : Stream (Dict py.Value))
        (total invalid : ℕ) (buffer : Buffer py)
        → attempt py (apply_to_row py ciphers engine) columns raw ≡ ok t
        → yield t (run q rows (total + 1) invalid buffer)
          ≡ run q (yield raw rows) total invalid buffer
    unfolding run quarantine_from
    run-good q raw t rows total invalid buffer good = ground (arith, good)

    -- A row that is not passed on: the loop goes on, or it raises.
    run-bad :
        (q : QuarantineConfig py) (raw : Dict py.Value) (e : RowFault)
        (rows : Stream (Dict py.Value)) (total invalid : ℕ) (buffer : Buffer py)
        → attempt py (apply_to_row py ciphers engine) columns raw ≡ err e
        → ((next : Buffer py) × (run q rows (total + 1) (invalid + 1) next
              ≡ run q (yield raw rows) total invalid buffer))
          ⊎ ((x : LoadError) × (raise x ≡ run q (yield raw rows) total invalid buffer))
    unfolding run quarantine_from
    run-bad q raw uncaught rows total invalid buffer bad =
        inr (unexpected "OverflowError", ground (arith, bad))
    run-bad q raw (caught e) rows total invalid buffer bad =
        elim (Option-cases (offending_column py raw columns)) [
          | inl fails ↦ inr (unexpected "OverflowError", ground (arith, bad, fails))
          | inr (column, found) ↦ inl (
            buffer
                ++ quarantined py (apply_to_row py ciphers engine) columns q (total + 1) column e
                    raw
                  ∷ [],
            ground (arith, bad, found),
          )
        ]

    run-HasColumns :
        (q : QuarantineConfig py) (rows : Stream (Dict py.Value)) (total invalid : ℕ)
        (buffer : Buffer py)
        → EachYield HasColumns (run q rows total invalid buffer)
    run-HasColumns q end total invalid buffer =
        subst (EachYield HasColumns) (finish-stream q total invalid buffer)
          (EachYield-finish q (is_over_threshold py q invalid total) total invalid)
    run-HasColumns q (raise e) total invalid buffer = unfold run in unfold quarantine_from in tt
    run-HasColumns q (yield raw rows) total invalid buffer =
        elim (Result-cases (attempt py (apply_to_row py ciphers engine) columns raw)) [
          | inl (t, good) ↦
              subst (EachYield HasColumns) (run-good q raw t rows total invalid buffer good)
                (attempt-HasColumns raw t good, run-HasColumns q rows (total + 1) invalid buffer)
          | inr (e, bad) ↦ elim (run-bad q raw e rows total invalid buffer bad) [
            | inl (next, same) ↦
                subst (EachYield HasColumns) same
                  (run-HasColumns q rows (total + 1) (invalid + 1) next)
            | inr (x, same) ↦ subst (EachYield HasColumns) same tt
          ]
        ]

  module _ (k : Connector py.Value) (config : PipelineConfig py)
      (distinct : DistinctDests config.columns) (engine : Engine py ciphers) where
    load_row-HasColumns :
        (cdc : Option CdcConfig) (raw out : Dict py.Value)
        → config.write_mode ≡ append
        → load_row py ciphers k config engine cdc raw ≡ ok out
        → Dict.keys out ≡ dests config.columns
    unfolding load_row with_operation
    load_row-HasColumns cdc raw out mode e =
        elim (Result-cases (transform_row py raw config.columns)) [
          | inr (x, bad) ↦ absurd (ground (arith, bad))
          | inl (t, good) ↦ elim (Result-cases (apply_to_row py ciphers engine t)) [
            | inr (x, bad) ↦ absurd (ground (arith, good, bad))
            | inl (u, sealed) ↦
                let same : u ≡ out = ground (arith, good, sealed) in
                ap Dict.keys (sym same)
                ∙ keys-apply_to_row engine t u sealed
                ∙ keys-transform_row py raw config.columns t distinct good
          ]
        ]

    row_iter-HasColumns :
        (cdc : Option CdcConfig) (rows : Stream (Dict py.Value))
        → config.write_mode ≡ append
        → EachYield
            (λ row. Dict.keys row ≡ dests config.columns)
            (row_iter py ciphers k config engine cdc rows)
    unfolding row_iter
    row_iter-HasColumns cdc end mode = tt
    row_iter-HasColumns cdc (raise e) mode = tt
    row_iter-HasColumns cdc (yield raw rows) mode =
        go (load_row py ciphers k config engine cdc raw) refl (row_iter-HasColumns cdc rows mode)
      where
        go :
            (r : Result LoadError (Dict py.Value))
            → load_row py ciphers k config engine cdc raw ≡ r
            → EachYield
                (λ row. Dict.keys row ≡ dests config.columns)
                (row_iter py ciphers k config engine cdc rows)
            → EachYield
                (λ row. Dict.keys row ≡ dests config.columns)
                (elim r [
                  | err e ↦ raise e
                  | ok row ↦ yield row (row_iter py ciphers k config engine cdc rows)
                ])
        go (err e) same rest = tt
        go (ok row) same rest = (load_row-HasColumns cdc raw row mode same, rest)

    -- Whichever iterator a load uses, in append mode all rows that it yields have the destinations
    -- of the columns.
    pub iterator-HasColumns :
        (finalize : QuarantineConfig py → String → Buffer py → Result String String)
        (cdc : Option CdcConfig) (rows : Stream (Dict py.Value))
        → config.write_mode ≡ append
        → EachYield
            (λ row. Dict.keys row ≡ dests config.columns)
            (iterator py ciphers k finalize config engine cdc rows).0
    unfolding iterator run quarantining_rows
    iterator-HasColumns finalize cdc rows mode = go (active_quarantine py ciphers k config)
      where
        go :
            (o : Option (QuarantineConfig py))
            → EachYield
                (λ row. Dict.keys row ≡ dests config.columns)
                (elim o as (λ _. Stream (Dict py.Value) × Buffer py) [
                  | none ↦ (row_iter py ciphers k config engine cdc rows, [])
                  | some q ↦
                      quarantining_rows py (apply_to_row py ciphers engine) config.columns q rows
                ]).0
        go none = row_iter-HasColumns cdc rows mode
        go (some q) = run-HasColumns config.columns distinct engine q rows 0 0 []
