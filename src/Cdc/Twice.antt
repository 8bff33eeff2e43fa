-- ===== src/Cdc/Twice.antt =====
-- `write_cdc_rows` of filedge/connectors/sql_base.py, once and again.
use filedge.Base.{
  ℕ, String, ◌≡◌, refl, ◌∙◌, sym, ap, subst, Bool, true, false, not, Option, none, some, List, [],
  ◌∷◌, ◌==◌, eq_iff, select, any, All, map, arith, contains,
}
use filedge.Base.Dict
use filedge.Base.Dict.{Dict}
use filedge.Base.Result.{Result, ok, err, >>=-eq-ok}
use filedge.Quarantine.Stream.{LoadError, Stream, from_list, end}
use filedge.Destination.Table.{DestRow, Connection, commit, rollback}
use filedge.Cdc.Values.{CdcValues, IsLawful}
use filedge.Cdc.Plan.{CdcConfig, CdcChange, Key, same_key, key_of, get_value, plan_cdc_changes}
use filedge.Cdc.Sound.{FromRow, plan_cdc_changes-FromRow}
use filedge.Cdc.Apply.{has_key, inserted, apply_transactional_cdc, write_cdc_rows, settle_cdc}
use filedge.Cdc.Reapply.{OwnKey, apply_changes-written, apply_changes-again}

lookup-select_ne {ℓ} :
    {V : Type ℓ} (gone k : String) (d : Dict V)
    → (gone == k) ≡ false
    → Dict.lookup k (select (λ (j, _). not (j == gone)) d) ≡ Dict.lookup k d
unfolding Dict.lookup
lookup-select_ne gone k [] h = refl
lookup-select_ne gone k ((j, x) ∷ d) h =
    ground (arith, lookup-select_ne gone k d h, eq_iff j gone, eq_iff j k, eq_iff gone k)

module _ (v : CdcValues) (law : IsLawful v) (accepts : List (DestRow v.Value) → Bool)
    (c : CdcConfig) where
  -- The columns of a key are found in the row that was inserted, if the operation column is none.
  has_key-own :
      (columns : List String) (key : Key v) (h : String) (t : ℕ) (change : CdcChange v)
      → contains c.operation_column columns ≡ false
      → same_key v key (map (get_value v change.row) columns) ≡ true
      → any v.is_null (map (get_value v change.row) columns) ≡ false
      → has_key v accepts columns key (inserted v accepts c h t change) ≡ true
  unfolding has_key get_value
  has_key-own [] key h t change out same full = refl
  has_key-own (k ∷ columns) [] h t change out same full = cc
  has_key-own (k ∷ columns) (x ∷ key) h t change out same full = ground (
    arith,
    lookup-select_ne c.operation_column k change.row,
    eq_iff c.operation_column k,
    eq_iff k c.operation_column,
    law.found_by_same x (get_value v change.row k),
    has_key-own columns key h t change,
  )

  OwnKey-FromRow :
      (rows : List (Dict v.Value)) (h : String) (t : ℕ) (changes : List (CdcChange v))
      → contains c.operation_column c.keys ≡ false
      → All (FromRow v law c rows) changes
      → All (OwnKey v accepts c h t) changes
  unfolding key_of
  OwnKey-FromRow rows h t [] out a = tt
  OwnKey-FromRow rows h t (change ∷ changes) out ((_, _, same, full), a) = (
    has_key-own c.keys change.key h t change out same full,
    OwnKey-FromRow rows h t changes out a,
  )

  -- Applying a CDC File twice, at two times, leaves the table that applying it once leaves at the
  -- second time, if the operation column is no key.
  pub apply_transactional_cdc-twice :
      (rows : List (Dict v.Value)) (h : String) (t later : ℕ)
      (table mid out once : List (DestRow v.Value))
      → contains c.operation_column c.keys ≡ false
      → apply_transactional_cdc v accepts c h t (from_list rows end) table ≡ ok mid
      → apply_transactional_cdc v accepts c h later (from_list rows end) mid ≡ ok out
      → apply_transactional_cdc v accepts c h later (from_list rows end) table ≡ ok once
      → out ≡ once
  unfolding apply_transactional_cdc
  apply_transactional_cdc-twice rows h t later table mid out once sep first again direct =
      let (changes, plan, x) = >>=-eq-ok (plan_cdc_changes v c (from_list rows end)) _ first in
      let own =
        OwnKey-FromRow rows h t changes sep (plan_cdc_changes-FromRow v law c rows changes plan) in
      apply_changes-again v accepts c h t later changes table mid out own x (rw plan at again)
      ∙ sym (apply_changes-written v accepts c h later changes table once (rw plan at direct))

  settle_cdc-none :
      (h : String) (t : ℕ) (conn d : Connection v.Value)
      (r : Result LoadError (List (DestRow v.Value)))
      → settle_cdc v accepts c h t conn r ≡ (d, none)
      → (table : List (DestRow v.Value)) × (r ≡ ok table)
        × (d ≡ record { working = table; durable = table })
  unfolding settle_cdc commit
  settle_cdc-none h t conn d (ok table) e =
      (table, refl, ap (λ (p : Connection v.Value × Option LoadError). p.0) (sym e))
  settle_cdc-none h t conn d (err x) e = cc

  -- Loading a CDC File twice leaves the connection that loading it once at the second time leaves,
  -- if the loads succeed, the operation column is no key column and the values are lawful.
  pub write_cdc_rows-twice :
      (rows : List (Dict v.Value)) (h : String) (t later : ℕ) (conn d e once : Connection v.Value)
      → contains c.operation_column c.keys ≡ false
      → write_cdc_rows v accepts c h t (from_list rows end) conn ≡ (d, none)
      → write_cdc_rows v accepts c h later (from_list rows end) d ≡ (e, none)
      → write_cdc_rows v accepts c h later (from_list rows end) conn ≡ (once, none)
      → e ≡ once
  unfolding write_cdc_rows
  write_cdc_rows-twice rows h t later conn d e once sep first again direct =
      let (mid, one, is_d) = settle_cdc-none h t conn d _ first in
      let (out, two, is_e) = settle_cdc-none h later d e _ again in
      let (only, three, is_once) = settle_cdc-none h later conn once _ direct in
      let start : d.working ≡ mid = ap (λ (q : Connection v.Value). q.working) is_d in
      is_e
      ∙ rw
          (apply_transactional_cdc-twice rows h t later conn.working mid out only sep one
            (subst
              (λ w. apply_transactional_cdc v accepts c h later (from_list rows end) w ≡ ok out)
              start two)
            three)
          (sym is_once)

  -- A CDC load that fails, in its rows, its plan or the engine, has changed nothing.
  pub write_cdc_rows-error :
      (rows : Stream (Dict v.Value)) (h : String) (t : ℕ) (conn d : Connection v.Value)
      (x : LoadError)
      → write_cdc_rows v accepts c h t rows conn ≡ (d, some x)
      → d ≡ record { working = conn.durable; durable = conn.durable }
  unfolding write_cdc_rows settle_cdc rollback
  write_cdc_rows-error rows h t conn d x e = ground arith
