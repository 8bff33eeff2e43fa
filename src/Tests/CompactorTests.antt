-- ===== src/Tests/CompactorTests.antt =====
-- A compaction of three small files into batches of two, without deletion.
use Prim.Native.String.{len}
use text.Mathlib.TextPositions.{len-append}
use filedge.Base.{
  ℕ, zero, suc, ◌+◌, ◌<◌, String, ◌<>◌, ◌≡◌, ◌==◌, refl, ◌∙◌, ap, false, Option, some, List, [],
  ◌∷◌, length, Bool-cases, inl, inr, arith, eq_iff,
}
use filedge.Base.Result.{ok}
use filedge.Compactor.Compact.{SourceFile, Store, Compacted, batch_rows, pending, compact}
use filedge.Compactor.Rows.{output_rows, compact-Wrote}
use filedge.Compactor.Done.{compact-again}

abbrev file_of : String → String → SourceFile
file_of name line = record { path = name; basename = name; lines = line ∷ "" ∷ [] }

abbrev strip : String → String
strip s = s

abbrev same_row : String → Option String
same_row s = some s

-- As many primes as the number of the batch.
abbrev batch_name : ℕ → String
batch_name zero = "batch"
batch_name (suc n) = "'" <> batch_name n

len-batch_name : (n : ℕ) → len (batch_name n) ≡ n + 5
len-batch_name zero = refl
len-batch_name (suc n) = len-append "'" (batch_name n) ∙ omega (arith, len-batch_name n)

batch_name-distinct : (i j : ℕ) → i < j → (batch_name i == batch_name j) ≡ false
batch_name-distinct i j later = elim (Bool-cases (batch_name i == batch_name j)) [
  | inr other ↦ other
  | inl same ↦
      let lengths = ap len ((eq_iff (batch_name i) (batch_name j)).0 same) in
      absurd (omega (arith, lengths, len-batch_name i, len-batch_name j))
]

abbrev store : Store
store = record {
  sources = file_of "a" "1" ∷ file_of "b" "2" ∷ file_of "c" "3" ∷ [];
  outputs = [];
  manifest = ("a" ∷ []) ∷ [];
}

abbrev after : Store
after = record store {
  outputs = record { name = "'batch"; rows = "2" ∷ "3" ∷ [] } ∷ [];
  manifest = ("a" ∷ []) ∷ ("b" ∷ "c" ∷ []) ∷ [];
}

abbrev two_files : Compacted
two_files = record { batches = 1; files_compacted = 2 }

compacted : compact strip same_row false 2 batch_name store ≡ (after, ok two_files)
unfolding compact
compacted = refl

compact-Wrote_example :
    (rows : List String) × (batch_rows strip same_row (pending strip same_row false store)
      ≡ ok rows)
    × (output_rows after.outputs ≡ rows)
    × (2 ≡ length (pending strip same_row false store))
compact-Wrote_example =
    compact-Wrote strip same_row false 1 batch_name store after two_files batch_name-distinct
      (λ i. tt) compacted

compact-again_example :
    compact strip same_row false 5 batch_name after
    ≡ (after, ok (record { batches = 0; files_compacted = 0 }))
compact-again_example =
    compact-again strip same_row false 1 5 batch_name batch_name store after two_files compacted
