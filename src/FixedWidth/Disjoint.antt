-- ===== src/FixedWidth/Disjoint.antt =====
-- What `validate_layout` of filedge/fixed_width.py accepts, in its three loops over numbers,
-- neighbours and pairs.
use filedge.Base.{◌+◌, ◌≤◌, ◌<◌, ◌≡◌, ◌↔◌, refl, List, [], ◌∷◌, All, arith}
use filedge.Base.Result.{Result, ok, err, ◌>>=◌}
use filedge.FixedWidth.Layout.{
  LayoutColumn, LayoutError, check_numbers, check_sorted, check_order, check_overlaps_with,
  check_overlaps, validate_layout,
}

-- The column ends before the other one starts.
abbrev pub Before : LayoutColumn → LayoutColumn → Type 0
Before a b = a.start + a.width ≤ b.start

abbrev pub Positive : LayoutColumn → Type 0
Positive c = (0 < c.width) × (0 < c.start)

-- Each column has a byte, and ends before every later one starts.
abbrev pub IsDisjoint : List LayoutColumn → Type 0
IsDisjoint [] = Unit
IsDisjoint (c ∷ layout) = Positive c × All (Before c) layout × IsDisjoint layout

-- No column starts before an earlier one.
abbrev IsSorted : LayoutColumn → List LayoutColumn → Type 0
IsSorted p [] = Unit
IsSorted p (c ∷ layout) = (p.start ≤ c.start) × IsSorted c layout

check_numbers-Positive :
    (layout : List LayoutColumn) → (check_numbers layout ≡ ok tt) ↔ All Positive layout
unfolding check_numbers
check_numbers-Positive [] = (λ h. tt, λ h. refl)
check_numbers-Positive (c ∷ layout) = ground (arith, check_numbers-Positive layout)

check_sorted-IsSorted :
    (p : LayoutColumn) (layout : List LayoutColumn)
    → (check_sorted p layout ≡ ok tt) ↔ IsSorted p layout
unfolding check_sorted
check_sorted-IsSorted p [] = (λ h. tt, λ h. refl)
check_sorted-IsSorted p (c ∷ layout) = ground (arith, check_sorted-IsSorted c layout)

-- Two columns of one layout overlap exactly when the later does not start behind the earlier.
check_overlaps_with-Before :
    (a p : LayoutColumn) (layout : List LayoutColumn)
    → Positive a
    → All Positive layout
    → a.start ≤ p.start
    → IsSorted p layout
    → (check_overlaps_with a layout ≡ ok tt) ↔ All (Before a) layout
unfolding check_overlaps_with
check_overlaps_with-Before a p [] pos all_pos le sorted = (λ h. tt, λ h. refl)
check_overlaps_with-Before a p (b ∷ layout) pos (here, all_pos) le (next, sorted) =
    ground (arith, check_overlaps_with-Before a b layout pos all_pos (omega arith) sorted)

>>=-ok-cons :
    (first rest : Result LayoutError (Unit {0}))
    → ((first >>= λ _. rest) ≡ ok tt) ↔ ((first ≡ ok tt) × (rest ≡ ok tt))
>>=-ok-cons (ok tt) rest = ground arith
>>=-ok-cons (err e) rest = ground arith

-- The order of a whole layout, as the second loop tests it.
abbrev Sorted : List LayoutColumn → Type 0
Sorted [] = Unit
Sorted (c ∷ layout) = IsSorted c layout

tail-Sorted : (c : LayoutColumn) (layout : List LayoutColumn) → IsSorted c layout → Sorted layout
tail-Sorted c [] h = tt
tail-Sorted c (b ∷ layout) h = h.1

check_overlaps-IsDisjoint :
    (layout : List LayoutColumn)
    → All Positive layout
    → Sorted layout
    → (check_overlaps layout ≡ ok tt) ↔ IsDisjoint layout
unfolding check_overlaps
check_overlaps-IsDisjoint [] pos sorted = (λ h. tt, λ h. refl)
check_overlaps-IsDisjoint (c ∷ layout) (here, pos) sorted = ground (
  arith,
  here,
  >>=-ok-cons (check_overlaps_with c layout) (check_overlaps layout),
  check_overlaps_with-Before c c layout here pos (omega arith) sorted,
  check_overlaps-IsDisjoint layout pos (tail-Sorted c layout sorted),
)

IsDisjoint-Positive : (layout : List LayoutColumn) → IsDisjoint layout → All Positive layout
IsDisjoint-Positive [] h = tt
IsDisjoint-Positive (c ∷ layout) (pos, before, h) = (pos, IsDisjoint-Positive layout h)

IsDisjoint-Sorted : (layout : List LayoutColumn) → IsDisjoint layout → Sorted layout
IsDisjoint-Sorted [] h = tt
IsDisjoint-Sorted (c ∷ []) h = tt
IsDisjoint-Sorted (c ∷ b ∷ layout) (pos, (before, more), h) =
    (omega arith, IsDisjoint-Sorted (b ∷ layout) h)

check_order-Sorted : (layout : List LayoutColumn) → (check_order layout ≡ ok tt) ↔ Sorted layout
unfolding check_order
check_order-Sorted [] = (λ h. tt, λ h. refl)
check_order-Sorted (c ∷ layout) = check_sorted-IsSorted c layout

-- A fixed-width layout is accepted exactly when each column has a byte, starts at 1 or later, and
-- ends before every later column starts, so that no byte belongs to two columns.
pub validate_layout-IsDisjoint :
    (layout : List LayoutColumn) → (validate_layout layout ≡ ok tt) ↔ IsDisjoint layout
unfolding validate_layout
validate_layout-IsDisjoint layout = (
  λ h.
      let numbers = (>>=-ok-cons (check_numbers layout) _).0 h in
      let orders = (>>=-ok-cons (check_order layout) (check_overlaps layout)).0 numbers.1 in
      (check_overlaps-IsDisjoint layout ((check_numbers-Positive layout).0 numbers.0)
          ((check_order-Sorted layout).0 orders.0)).0
        orders.1,
  λ d.
      let pos = IsDisjoint-Positive layout d in
      let sorted = IsDisjoint-Sorted layout d in
      (>>=-ok-cons (check_numbers layout) _).1 (
        (check_numbers-Positive layout).1 pos,
        (>>=-ok-cons (check_order layout) (check_overlaps layout)).1 (
          (check_order-Sorted layout).1 sorted,
          (check_overlaps-IsDisjoint layout pos sorted).1 d,
        ),
      ),
)
