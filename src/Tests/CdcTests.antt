-- ===== src/Tests/CdcTests.antt =====
-- The theorems on CDC, at a File that inserts, updates and deletes.
use filedge.Base.{ℕ, String, ◌≡◌, refl, ◌⊎◌, inl, Bool, true, none, some, List, [], ◌∷◌}
use filedge.Base.Dict
use filedge.Base.Dict.{Dict}
use filedge.Base.Result.{ok}
use filedge.Quarantine.Stream.{end, from_list}
use filedge.Destination.Table.{DestRow, Connection, commit}
use filedge.Cdc.Plan.{
  CdcConfig, CdcChange, same_key, key_of, get_value, latest_of, set_latest, operation_by_value,
  operation_of, place, read_change, plan_step, plan_from, plan_cdc_changes,
}
use filedge.Cdc.Latest.{Occurs}
use filedge.Cdc.Sound.{sequence_of, plan_cdc_changes-newest}
use filedge.Cdc.Apply.{
  has_key, delete_by_key, insert_row, apply_change, apply_changes, apply_transactional_cdc,
  settle_cdc, write_cdc_rows,
}
use filedge.Cdc.Twice.{write_cdc_rows-twice}
use filedge.Tests.Data.{Value, word, amount, small_values, small_values-IsLawful}

abbrev cdc : CdcConfig
cdc = record {
  keys = "id" ∷ [];
  operation_column = "op";
  sequence_by = "seq";
  operations = ("insert", "I" ∷ []) ∷ ("update", "U" ∷ []) ∷ ("delete", "D" ∷ []) ∷ [];
}

abbrev change_row : String → String → ℕ → Dict Value
change_row op key seq = ("op", word op) ∷ ("id", word key) ∷ ("seq", amount seq) ∷ []

abbrev rows : List (Dict Value)
rows = change_row "I" "x" 1 ∷ change_row "D" "y" 2 ∷ change_row "U" "x" 5 ∷ []

abbrev changes : List (CdcChange small_values)
changes =
    record { operation = "update"; key = word "x" ∷ []; row = change_row "U" "x" 5 }
    ∷ record { operation = "delete"; key = word "y" ∷ []; row = change_row "D" "y" 2 }
    ∷ []

planned : plan_cdc_changes small_values cdc (from_list rows end) ≡ ok changes
unfolding plan_cdc_changes plan_from plan_step read_change place key_of operation_of
    operation_by_value get_value latest_of set_latest Dict.lookup Dict.insert
planned = refl

plan_cdc_changes-newest_example :
    (change : CdcChange small_values) × Occurs change changes
    × (same_key small_values change.key (key_of small_values cdc (change_row "I" "x" 1)) ≡ true)
    × ((sequence_of small_values small_values-IsLawful cdc change.row
          ≡ sequence_of small_values small_values-IsLawful cdc (change_row "I" "x" 1))
        ⊎ (small_values.greater
              (sequence_of small_values small_values-IsLawful cdc change.row)
              (sequence_of small_values small_values-IsLawful cdc (change_row "I" "x" 1))
            ≡ some true))
plan_cdc_changes-newest_example =
    plan_cdc_changes-newest small_values small_values-IsLawful cdc rows changes
      (change_row "I" "x" 1) planned (inl refl)

abbrev any_rows : List (DestRow Value) → Bool
any_rows table = true

abbrev dest_row : String → ℕ → String → ℕ → DestRow Value
dest_row key seq h t = record {
  cells = ("id", word key) ∷ ("seq", amount seq) ∷ [];
  source_file_hash = h;
  ingested_at = t;
}

abbrev table : List (DestRow Value)
table = dest_row "y" 1 "aa" 3 ∷ dest_row "z" 1 "aa" 3 ∷ []

abbrev after : ℕ → List (DestRow Value)
after t = dest_row "z" 1 "aa" 3 ∷ dest_row "x" 5 "bb" t ∷ []

applied : apply_changes small_values any_rows cdc "bb" 20 changes table ≡ ok (after 20)
unfolding apply_changes apply_change delete_by_key has_key insert_row get_value Dict.lookup
applied = refl

abbrev conn : List (DestRow Value) → Connection Value
conn rows_ = record { working = rows_; durable = rows_ }

loads :
    (t : ℕ)
    → write_cdc_rows small_values any_rows cdc "bb" t (from_list rows end) (conn table)
      ≡ (conn (after t), none)
unfolding write_cdc_rows settle_cdc commit apply_transactional_cdc apply_changes apply_change
    delete_by_key has_key insert_row plan_cdc_changes plan_from plan_step read_change place key_of
    operation_of operation_by_value get_value latest_of set_latest Dict.lookup Dict.insert
loads t = refl

loads_again :
    write_cdc_rows small_values any_rows cdc "bb" 21 (from_list rows end) (conn (after 20))
    ≡ (conn (after 21), none)
unfolding write_cdc_rows settle_cdc commit apply_transactional_cdc apply_changes apply_change
    delete_by_key has_key insert_row plan_cdc_changes plan_from plan_step read_change place key_of
    operation_of operation_by_value get_value latest_of set_latest Dict.lookup Dict.insert
loads_again = refl

write_cdc_rows-twice_example : conn (after 21) ≡ conn (after 21)
write_cdc_rows-twice_example =
    write_cdc_rows-twice small_values small_values-IsLawful any_rows cdc rows "bb" 20 21
      (conn table) (conn (after 20)) (conn (after 21)) (conn (after 21)) refl (loads 20) loads_again
      (loads 21)
