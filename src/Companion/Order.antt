-- ===== src/Companion/Order.antt =====
-- The order in which `promote` (filedge/companion/promotion.py) makes the two files visible.
use filedge.Base.{
  refl, ◌++◌, true, String, ◌≡◌, ◌∙◌, sym, ap, ◌&&◌, false, Option, none, some, List, [], ◌∷◌, ◌==◌,
  eq_refl, All, All-append, arith, Bool-cases, inl, inr, ◌⊎◌,
}
use filedge.Base.Dict
use filedge.Base.Dict.{Dict, lookup-insert, lookup-erase}
use filedge.Companion.Promotion.{
  Disk, Moving, renamed, copied, not_copied, copy_broken, not_removed, is_moved, Trace, last_state,
  move_states, move_found, move, then_move, promote,
}

-- Where the data File is, the sidecar is too, and whole.
abbrev pub HasSidecar :
    {Content : Type 0} → (data_dest sidecar_dest : String) → Content → Dict Content → Type 0
HasSidecar data_dest sidecar_dest sidecar s =
    (Dict.lookup data_dest s ≡ none) ⊎ (Dict.lookup sidecar_dest s ≡ some sidecar)

module _ {Content : Type 0} (partial : Content → Content) (disk : Disk) where
  move_states-others :
      (how : Moving) (src dest path : String) (content : Content) (fs : Dict Content)
      (o : Option Content)
      → (src == path) ≡ false
      → (dest == path) ≡ false
      → Dict.lookup path fs ≡ o
      → All (λ s. Dict.lookup path s ≡ o) (move_states partial disk how src dest content fs)
  unfolding move_states
  move_states-others how src dest path content fs o apart_src apart_dest e = ground (
    arith,
    lookup-erase path src (Dict.insert dest content fs),
    lookup-insert path dest content fs,
    lookup-insert path dest (partial content) fs,
  )

  -- A move leaves every other path as it was, in each of its states.
  move-others :
      (src dest path : String) (fs : Dict Content) (o : Option Content)
      → (src == path) ≡ false
      → (dest == path) ≡ false
      → Dict.lookup path fs ≡ o
      → All (λ s. Dict.lookup path s ≡ o) (move partial disk src dest fs).states
  unfolding move move_found
  move-others src dest path fs o apart_src apart_dest e = go (Dict.lookup src fs)
    where
      go :
          (c : Option Content)
          → All (λ s. Dict.lookup path s ≡ o) (move_found partial disk src dest fs c).states
      go none = tt
      go (some content) =
          move_states-others (disk.moves src dest) src dest path content fs o apart_src apart_dest e

  -- A move that ends has put the content under the destination and taken it from the source.
  last_state-move_states :
      (how : Moving) (src dest : String) (content : Content) (fs : Dict Content)
      → is_moved how ≡ true
      → last_state fs (move_states partial disk how src dest content fs)
        ≡ Dict.erase src (Dict.insert dest content fs)
  unfolding move_states
  last_state-move_states renamed src dest content fs h = refl
  last_state-move_states copied src dest content fs h = refl
  last_state-move_states not_copied src dest content fs h = cc
  last_state-move_states copy_broken src dest content fs h = cc
  last_state-move_states not_removed src dest content fs h = cc

  -- A finished move of a file that is there leaves its content at the other path.
  last_state-move :
      (src dest : String) (content : Content) (fs : Dict Content)
      → (src == dest) ≡ false
      → Dict.lookup src fs ≡ some content
      → is_moved (disk.moves src dest) ≡ true
      → Dict.lookup dest (last_state fs (move partial disk src dest fs).states) ≡ some content
  unfolding move move_found
  last_state-move src dest content fs apart found works =
      ap (λ c. Dict.lookup dest (last_state fs (move_found partial disk src dest fs c).states))
        found
      ∙ ap (Dict.lookup dest)
          (last_state-move_states (disk.moves src dest) src dest content fs works)
      ∙ ground (
        arith,
        eq_refl dest,
        lookup-erase dest src (Dict.insert dest content fs),
        lookup-insert dest dest content fs,
      )

  All-weaken :
      {P Q : Dict Content → Type 0} (states : List (Dict Content))
      → ((s : Dict Content) → P s → Q s)
      → All P states
      → All Q states
  All-weaken [] f h = tt
  All-weaken (s ∷ states) f h = (f s h.0, All-weaken states f h.1)

  then-HasSidecar :
      (first : Trace Content) (staged_data data_dest sidecar_dest : String) (sidecar : Content)
      (fs : Dict Content)
      → (staged_data == sidecar_dest) ≡ false
      → (data_dest == sidecar_dest) ≡ false
      → All (HasSidecar data_dest sidecar_dest sidecar) first.states
      → (first.finished ≡ true
          → Dict.lookup sidecar_dest (last_state fs first.states) ≡ some sidecar)
      → All
          (HasSidecar data_dest sidecar_dest sidecar)
          (then_move partial disk first staged_data data_dest fs).states
  unfolding then_move
  then-HasSidecar first staged_data data_dest sidecar_dest sidecar fs d e before landed =
      elim (Bool-cases first.finished) [
        | inr stopped ↦ rw stopped before
        | inl done ↦ rw done (
            All-append _ first.states _ before (
              All-weaken _ (λ s x. inr x)
                (move-others staged_data data_dest sidecar_dest (last_state fs first.states)
                  (some sidecar) d e (landed done))))
      ]

  finished-move :
      (src dest : String) (content : Content) (fs : Dict Content)
      → Dict.lookup src fs ≡ some content
      → (move partial disk src dest fs).finished ≡ is_moved (disk.moves src dest)
  unfolding move move_found
  finished-move src dest content fs found =
      ap (λ c. (move_found partial disk src dest fs c).finished) found

  -- In every state that a promotion passes through, also if it stops at an exception and where
  -- files are copied because they cannot be renamed, the data File is not visible yet or its
  -- sidecar is there and whole, if the File is not there before and the paths are distinct.
  pub promote-HasSidecar :
      (staged_data staged_sidecar data_dest sidecar_dest : String) (sidecar : Content)
      (fs : Dict Content)
      → (staged_sidecar == data_dest) ≡ false
      → (sidecar_dest == data_dest) ≡ false
      → (staged_sidecar == sidecar_dest) ≡ false
      → (staged_data == sidecar_dest) ≡ false
      → (data_dest == sidecar_dest) ≡ false
      → Dict.lookup staged_sidecar fs ≡ some sidecar
      → Dict.lookup data_dest fs ≡ none
      → All
          (HasSidecar data_dest sidecar_dest sidecar)
          (promote partial disk staged_data staged_sidecar data_dest sidecar_dest fs).states
  unfolding promote
  promote-HasSidecar staged_data staged_sidecar data_dest sidecar_dest sidecar fs a b c d e found
        hidden =
      then-HasSidecar (move partial disk staged_sidecar sidecar_dest fs) staged_data data_dest
        sidecar_dest sidecar fs d e
        (All-weaken _ (λ s x. inl x)
          (move-others staged_sidecar sidecar_dest data_dest fs none a b hidden))
        (λ done.
          last_state-move staged_sidecar sidecar_dest sidecar fs c found
            (sym (finished-move staged_sidecar sidecar_dest sidecar fs found) ∙ done))

  last_state-append :
      (fs : Dict Content) (xs ys : List (Dict Content))
      → last_state fs (xs ++ ys) ≡ last_state (last_state fs xs) ys
  last_state-append fs [] ys = refl
  last_state-append fs (x ∷ xs) ys = last_state-append x xs ys

  last_state-All :
      (P : Dict Content → Type 0) (fs : Dict Content) (states : List (Dict Content))
      → P fs
      → All P states
      → P (last_state fs states)
  last_state-All P fs [] p h = p
  last_state-All P fs (s ∷ states) p (q, h) = last_state-All P s states q h

  then_move-finished :
      (first : Trace Content) (src dest : String) (fs : Dict Content)
      → first.finished ≡ true
      → then_move partial disk first src dest fs ≡ record {
        states = first.states ++ (move partial disk src dest (last_state fs first.states)).states;
        finished = (move partial disk src dest (last_state fs first.states)).finished;
      }
  unfolding then_move
  then_move-finished first src dest fs done = rw done

  then_move-stopped :
      (first : Trace Content) (src dest : String) (fs : Dict Content)
      → first.finished ≡ false
      → then_move partial disk first src dest fs ≡ first
  unfolding then_move
  then_move-stopped first src dest fs stopped = rw stopped

  -- A promotion whose two staged files are there comes to its end exactly if both moves work, by
  -- renaming or by copying, and then leaves the contents of both under the landed paths, if the
  -- paths are distinct.
  pub promote-landed :
      (staged_data staged_sidecar data_dest sidecar_dest : String) (batch sidecar : Content)
      (fs : Dict Content)
      → (staged_sidecar == staged_data) ≡ false
      → (sidecar_dest == staged_data) ≡ false
      → (staged_sidecar == sidecar_dest) ≡ false
      → (staged_data == data_dest) ≡ false
      → (staged_data == sidecar_dest) ≡ false
      → (data_dest == sidecar_dest) ≡ false
      → Dict.lookup staged_sidecar fs ≡ some sidecar
      → Dict.lookup staged_data fs ≡ some batch
      → let t = promote partial disk staged_data staged_sidecar data_dest sidecar_dest fs in
        (t.finished ≡ (
          is_moved (disk.moves staged_sidecar sidecar_dest)
          && is_moved (disk.moves staged_data data_dest)))
        × (t.finished ≡ true
            → (Dict.lookup data_dest (last_state fs t.states) ≡ some batch)
              × (Dict.lookup sidecar_dest (last_state fs t.states) ≡ some sidecar))
  unfolding promote
  promote-landed staged_data staged_sidecar data_dest sidecar_dest batch sidecar fs a b c d e f
        found_sidecar found_data =
      let first = move partial disk staged_sidecar sidecar_dest fs in
      let first_ends = finished-move staged_sidecar sidecar_dest sidecar fs found_sidecar in
      let mid = last_state fs first.states in
      let still : Dict.lookup staged_data mid ≡ some batch =
        last_state-All (λ s. Dict.lookup staged_data s ≡ some batch) fs first.states found_data
          (move-others staged_sidecar sidecar_dest staged_data fs (some batch) a b found_data) in
      elim (Bool-cases (is_moved (disk.moves staged_sidecar sidecar_dest))) [
        | inr fails ↦
            let stopped = then_move-stopped first staged_data data_dest fs (first_ends ∙ fails) in
            (
              ap (λ (t : Trace Content). t.finished) stopped
                  ∙ first_ends
                  ∙ fails
                  ∙ ap (λ x. x && is_moved (disk.moves staged_data data_dest)) (sym fails),
              λ done. cc (fails, first_ends, done, stopped),
            )
        | inl works ↦
            let second = move partial disk staged_data data_dest mid in
            let whole = then_move-finished first staged_data data_dest fs (first_ends ∙ works) in
            let ends = finished-move staged_data data_dest batch mid still in
            let landed =
              last_state-move staged_sidecar sidecar_dest sidecar fs c found_sidecar works in
            let final =
              ap (λ (t : Trace Content). last_state fs t.states) whole
              ∙ last_state-append fs first.states second.states in
            (
              ap (λ (t : Trace Content). t.finished) whole
                  ∙ ends
                  ∙ ap (λ x. x && is_moved (disk.moves staged_data data_dest)) (sym works),
              λ done. (
                ap (Dict.lookup data_dest) final
                    ∙ last_state-move staged_data data_dest batch mid d still
                        (sym ends ∙ sym (ap (λ (t : Trace Content). t.finished) whole) ∙ done),
                ap (Dict.lookup sidecar_dest) final
                    ∙ last_state-All (λ s. Dict.lookup sidecar_dest s ≡ some sidecar) mid
                        second.states landed
                        (move-others staged_data data_dest sidecar_dest mid (some sidecar) e f
                          landed),
              ),
            )
      ]
