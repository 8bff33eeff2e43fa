-- ===== src/FixedWidth/Slices.antt =====
-- What `parse` of filedge/fixed_width.py makes of a line that is long enough.
use filedge.Base.{
  ℕ, zero, suc, ◌+◌, ◌-◌, ◌≤◌, ◌≡◌, refl, ◌∙◌, sym, ap, Bool, true, false, List, [], ◌∷◌, ◌++◌, All,
  arith, ltb, leb, length, take, drop, map,
}
use filedge.FixedWidth.Layout.{
  LayoutColumn, end_of, required_line_length, Line, slice, right_strip, is_blank, slice_line, parse,
}
use filedge.Quarantine.Stream.{from_list, end}
use filedge.Base.Dict.{Dict}
use filedge.Base.{all, select, not}
use filedge.FixedWidth.Disjoint.{Positive}

length-take : {A : Type 0} (n : ℕ) (xs : List A) → n ≤ length xs → length (take n xs) ≡ n
length-take zero xs h = refl
length-take (suc n) [] h = omega arith
length-take (suc n) (x ∷ xs) h = omega (arith, length-take n xs (omega arith))

take-drop : {A : Type 0} (n : ℕ) (xs : List A) → take n xs ++ drop n xs ≡ xs
take-drop zero xs = refl
take-drop (suc n) [] = refl
take-drop (suc n) (x ∷ xs) = ap (λ l. x ∷ l) (take-drop n xs)

length-drop :
    {A : Type 0} (n : ℕ) (xs : List A) → n ≤ length xs → length (drop n xs) + n ≡ length xs
length-drop zero xs h = omega arith
length-drop (suc n) [] h = omega arith
length-drop (suc n) (x ∷ xs) h = omega (arith, length-drop n xs (omega arith))

module _ {Char : Type 0} (is_space is_line_end : Char → Bool) where
  -- Where a column stands in a line: what is before it has one character less than its 1-based
  -- start, and it has its width.
  abbrev pub StandsAt :
      LayoutColumn → Line is_space is_line_end → Line is_space is_line_end → Type 0
  StandsAt c line found =
      (before : Line is_space is_line_end) × (after : Line is_space is_line_end) × (line
        ≡ before ++ (found ++ after))
      × (length before + 1 ≡ c.start)
      × (length found ≡ c.width)

  length-slice :
      (c : LayoutColumn) (line : Line is_space is_line_end)
      → Positive c
      → end_of c ≤ length line
      → length (slice is_space is_line_end c line) ≡ c.width
  unfolding slice
  length-slice c line pos h =
      length-take c.width (drop (c.start - 1) line)
        (omega (arith, length-drop (c.start - 1) line (omega arith)))

  slice-StandsAt :
      (c : LayoutColumn) (line : Line is_space is_line_end)
      → Positive c
      → end_of c ≤ length line
      → StandsAt c line (slice is_space is_line_end c line)
  unfolding slice
  slice-StandsAt c line pos h = (
    take (c.start - 1) line,
    drop c.width (drop (c.start - 1) line),
    sym (take-drop (c.start - 1) line)
        ∙ ap (λ l. take (c.start - 1) line ++ l)
            (sym (take-drop c.width (drop (c.start - 1) line))),
    omega (arith, length-take (c.start - 1) line (omega arith)),
    unfold slice in length-slice c line pos h,
  )

  -- On a line that passes the length check, the slice of every column of a layout with positive
  -- numbers is the part of the line that begins with the character at the column's 1-based start
  -- and has exactly the column's width.
  pub required-slices :
      (layout : List LayoutColumn) (line : Line is_space is_line_end)
      → All Positive layout
      → ltb (length line) (required_line_length layout) ≡ false
      → All (λ c. StandsAt c line (slice is_space is_line_end c line)) layout
  unfolding required_line_length
  required-slices [] line pos h = tt
  required-slices (c ∷ layout) line (here, pos) h =
      (slice-StandsAt c line here (ground arith), required-slices layout line pos (ground arith))

  -- The lines that hold data, without their line ends.
  unfoldable pub data_lines : List (Line is_space is_line_end) → List (Line is_space is_line_end)
  data_lines lines =
      select (λ line. not (is_blank is_space is_line_end line))
        (map (right_strip is_space is_line_end is_line_end) lines)

  -- Every line that holds data is long enough.
  unfoldable pub fits : List LayoutColumn → List (Line is_space is_line_end) → Bool
  fits layout lines =
      all (λ line. leb (required_line_length layout) (length line)) (data_lines lines)

  unfoldable pub rows_of :
      List LayoutColumn → List (Line is_space is_line_end) → List (Dict (Line is_space is_line_end))
  rows_of layout lines =
      map (λ line. slice_line is_space is_line_end line layout) (data_lines lines)

  -- The fixed-width parser yields a row for each line that is not blank, in order, and reaches the
  -- end of the File, if all these lines are as long as the layout requires.
  pub parse-rows_of :
      (layout : List LayoutColumn) (lines : List (Line is_space is_line_end))
      → fits layout lines ≡ true
      → parse is_space is_line_end layout lines ≡ from_list (rows_of layout lines) end
  unfolding parse fits rows_of data_lines
  parse-rows_of layout [] h = refl
  parse-rows_of layout (raw ∷ lines) h = ground (arith, parse-rows_of layout lines)
