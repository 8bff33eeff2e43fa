-- ===== src/FixedWidth/Layout.antt =====
-- filedge/fixed_width.py. A line is a list of characters; which of them are white space, and which
-- end a line, are parameters. Positions and widths are natural numbers: an int below zero is
-- refused by the code where zero is.
use filedge.Base.{
  ℕ, ◌+◌, ◌-◌, String, Bool, true, false, Option, none, some, List, [], ◌∷◌, ◌&&◌, if◌then◌else◌,
  ltb, leb, length, take, drop,
}
use filedge.Base.Dict
use filedge.Base.Dict.{Dict}
use filedge.Base.Result.{Result, ok, err, ◌>>=◌}
use filedge.Rows.Columns.{ColumnMapping}
use filedge.Quarantine.Stream.{Stream, end, raise, yield, unexpected}

pub record LayoutColumn : Type 0 where
  pub name : String
  pub start : ℕ
  pub width : ℕ

-- The columns of a config that is fixed-width have both numbers; `none` stands for one that lacks
-- them, which the config loader refuses before.
unfoldable pub layout_from_columns : List ColumnMapping → Option (List LayoutColumn)
layout_from_columns [] = some []
layout_from_columns (c ∷ columns) =
    let rest = layout_from_columns columns in
    elim c.start [
      | none ↦ none
      | some start ↦ elim c.width [
        | none ↦ none
        | some width ↦ elim rest [
          | none ↦ none
          | some layout ↦ some (record { name = c.source; start = start; width = width } ∷ layout)
        ]
      ]
    ]

-- `FixedWidthLayoutError`, one constructor for each message.
pub data LayoutError : Type 0 where
  empty_width : LayoutColumn → LayoutError
  start_below_one : LayoutColumn → LayoutError
  not_sorted : (current previous : LayoutColumn) → LayoutError
  overlap : (a b : LayoutColumn) (first last : ℕ) → LayoutError

abbrev smaller : ℕ → ℕ → ℕ
smaller a b = if leb a b then a else b

abbrev pub larger : ℕ → ℕ → ℕ
larger a b = if leb a b then b else a

-- The last byte of a column.
abbrev pub end_of : LayoutColumn → ℕ
end_of c = c.start + c.width - 1

-- The first loop.
unfoldable pub check_numbers : List LayoutColumn → Result LayoutError (Unit {0})
check_numbers [] = ok tt
check_numbers (c ∷ layout) =
    let rest = check_numbers layout in
    if leb c.width 0
    then err (empty_width c)
    else if ltb c.start 1
    then err (start_below_one c)
    else rest

-- The second loop, over each column and the next.
unfoldable pub check_sorted : LayoutColumn → List LayoutColumn → Result LayoutError (Unit {0})
check_sorted previous [] = ok tt
check_sorted previous (current ∷ layout) =
    let rest = check_sorted current layout in
    if ltb current.start previous.start then err (not_sorted current previous) else rest

unfoldable pub check_order : List LayoutColumn → Result LayoutError (Unit {0})
unfolding check_sorted
check_order [] = ok tt
check_order (c ∷ layout) = check_sorted c layout

-- The third loop: its inner loop, then the outer one.
unfoldable pub check_overlaps_with :
    LayoutColumn → List LayoutColumn → Result LayoutError (Unit {0})
check_overlaps_with a [] = ok tt
check_overlaps_with a (b ∷ layout) =
    let rest = check_overlaps_with a layout in
    if leb a.start (end_of b) && leb b.start (end_of a)
    then err (overlap a b (larger a.start b.start) (smaller (end_of a) (end_of b)))
    else rest

unfoldable pub check_overlaps : List LayoutColumn → Result LayoutError (Unit {0})
unfolding check_overlaps_with
check_overlaps [] = ok tt
check_overlaps (a ∷ layout) = check_overlaps_with a layout >>= λ _. check_overlaps layout

unfoldable pub validate_layout : List LayoutColumn → Result LayoutError (Unit {0})
unfolding check_numbers check_order check_overlaps
validate_layout layout = do _ ← check_numbers layout; _ ← check_order layout; check_overlaps layout

unfoldable pub required_line_length : List LayoutColumn → ℕ
required_line_length [] = 0
required_line_length (c ∷ layout) = larger (end_of c) (required_line_length layout)

module _ {Char : Type 0} (is_space is_line_end : Char → Bool) where
  abbrev pub Line : Type 0
  Line = List Char

  -- `s.rstrip(…)` and `s.lstrip()` for a set of characters
  unfoldable pub right_strip : (Char → Bool) → Line → Line
  right_strip p [] = []
  right_strip p (ch ∷ line) =
      let rest = right_strip p line in
      elim rest [ [] ↦ if p ch then [] else ch ∷ [] | kept ∷ more ↦ ch ∷ kept ∷ more ]

  left_strip : (Char → Bool) → Line → Line
  left_strip p [] = []
  left_strip p (ch ∷ line) = let rest = left_strip p line in if p ch then rest else ch ∷ line

  unfoldable pub strip : Line → Line
  unfolding right_strip left_strip
  strip line = right_strip is_space (left_strip is_space line)

  -- `line[start - 1 : start - 1 + width]`
  unfoldable pub slice : LayoutColumn → Line → Line
  slice c line = take c.width (drop (c.start - 1) line)

  -- The dict comprehension, from the entries so far.
  slice_from : Line → List LayoutColumn → Dict Line → Dict Line
  unfolding slice strip
  slice_from line [] row = row
  slice_from line (c ∷ layout) row =
      slice_from line layout (Dict.insert c.name (strip (slice c line)) row)

  unfoldable pub slice_line : Line → List LayoutColumn → Dict Line
  unfolding slice_from
  slice_line line layout = slice_from line layout []

  -- A blank line is skipped.
  unfoldable pub is_blank : Line → Bool
  unfolding strip
  is_blank line = elim (strip line) [ [] ↦ true | ch ∷ rest ↦ false ]

  unfoldable pub parse : List LayoutColumn → List Line → Stream (Dict Line)
  unfolding slice_line is_blank right_strip required_line_length
  parse layout [] = end
  parse layout (raw ∷ lines) =
      let rest = parse layout lines in
      let line = right_strip is_line_end raw in
      if is_blank line
      then rest
      else if ltb (length line) (required_line_length layout)
      then raise (unexpected "FixedWidthLineTooShortError")
      else yield (slice_line line layout) rest
