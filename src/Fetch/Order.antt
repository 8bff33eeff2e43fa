-- ===== src/Fetch/Order.antt =====
-- When `run_fetch` (filedge/fetch/orchestrator.py) advances the cursor.
use filedge.Base.{
  String, ◌≡◌, refl, Bool, true, false, Option, none, some, List, [], ◌∷◌, ◌++◌, map, length, All,
  All-append, arith, inl, inr, ◌⊎◌, eq_refl,
}
use filedge.Base.Dict
use filedge.Base.Dict.{Dict, lookup-insert}
use filedge.Base.Result.{Result, ok}
use filedge.Companion.Promotion.{Disk}
use filedge.Companion.Deliver.{
  Area, Paths, Delivery, delivered, lock_held, os_error, IsApart, HasLanded, deliver, promoted,
  released,
}
use filedge.Fetch.Plan.{FetchPlan, FetchResult}
use filedge.Fetch.Run.{
  Site, FetchEnd, fetched, advance, advanced, with_cursors, file_name, content, finish_fetch,
  after_delivery, unless_empty, with_result, run_fetch,
}

All-map :
    {A B : Type 0} (P : B → Type 0) (f : A → B) (xs : List A)
    → ((x : A) → P (f x))
    → All P (map f xs)
All-map P f [] h = tt
All-map P f (x ∷ xs) h = (h x, All-map P f xs h)

module _ {Record Content : Type 0} (partial : Content → Content) (disk : Disk)
    (cleaned : String → String) (dumps : Record → String) (plain compressed : String → Content)
    (plan : FetchPlan) (paths_of : String → Paths)
    (sidecar_of : FetchResult Record → Option String → Content)
    (fetch : Option String → Result String (FetchResult Record))
    (apart : (name : String) → IsApart partial disk (paths_of name)) where
  abbrev run : Bool → Site Content → List (Site Content) × FetchEnd
  run = run_fetch partial disk cleaned dumps plain compressed plan paths_of sidecar_of fetch

  module _ (site : Site Content) where
    abbrev start : Option String
    start = Dict.lookup plan.source_name site.cursors

    abbrev HasCursor : Option String → Site Content → Type 0
    HasCursor c s = Dict.lookup plan.source_name s.cursors ≡ c

    -- The File that a result makes, whole in the Watched Directory beside its sidecar.
    abbrev pub Landed : FetchResult Record → Site Content → Type 0
    Landed result s =
        HasLanded partial disk
          (paths_of (
            file_name partial disk cleaned dumps plain compressed plan paths_of sidecar_of fetch
              start result))
          (content partial disk cleaned dumps plain compressed plan paths_of sidecar_of fetch
            result)
          (sidecar_of result start) s.area

    -- The cursor is the one before the run, or it is the result's and the result's File has landed.
    abbrev pub CursorBehindFile : FetchResult Record → Site Content → Type 0
    CursorBehindFile result s =
        HasCursor start s ⊎ (HasCursor result.next_cursor s × Landed result s)

    abbrev finish :
        FetchResult Record → List (Area Content) × Delivery → List (Site Content) × FetchEnd
    finish result =
        finish_fetch partial disk cleaned dumps plain compressed plan paths_of sidecar_of fetch
          start result site

    seen-CursorBehindFile :
        (result : FetchResult Record) (areas : List (Area Content))
        → All (CursorBehindFile result) (
            map
              (with_cursors partial disk cleaned dumps plain compressed plan paths_of sidecar_of
                fetch site.cursors)
              areas)
    seen-CursorBehindFile result areas = All-map _ _ areas (λ area. inl refl)

    advanced-CursorBehindFile :
        (result : FetchResult Record) (s : Site Content) (c : Option String)
        → result.next_cursor ≡ c
        → Landed result s
        → All (CursorBehindFile result) (
            advanced partial disk cleaned dumps plain compressed plan paths_of sidecar_of fetch c s)
    unfolding advanced advance
    advanced-CursorBehindFile result s none e landed = tt
    advanced-CursorBehindFile result s (some c) e landed = (
      inr (
        (ground (
          arith,
          lookup-insert plan.source_name plan.source_name c s.cursors,
          eq_refl plan.source_name,
          e,
        )),
        landed,
      ),
      tt,
    )

    abbrev pub paths : FetchResult Record → Paths
    paths result = paths_of (
        file_name partial disk cleaned dumps plain compressed plan paths_of sidecar_of fetch start
          result)

    delivery : FetchResult Record → List (Area Content) × Delivery
    delivery result =
        deliver partial disk (paths result)
          (content partial disk cleaned dumps plain compressed plan paths_of sidecar_of fetch
            result)
          (sidecar_of result start) site.area

    -- The site after a delivery, before the cursor.
    abbrev after : FetchResult Record → Site Content
    after result =
        with_cursors partial disk cleaned dumps plain compressed plan paths_of sidecar_of fetch
          site.cursors
          (released partial disk (paths result)
            (content partial disk cleaned dumps plain compressed plan paths_of sidecar_of fetch
              result)
            (sidecar_of result start) site.area)

    finish-CursorBehindFile :
        (result : FetchResult Record) (r : List (Area Content) × Delivery)
        → (r.1 ≡ delivered → Landed result (after result))
        → All (CursorBehindFile result) (finish result r).0
    unfolding finish_fetch
    finish-CursorBehindFile result (areas, lock_held) landed = seen-CursorBehindFile result areas
    finish-CursorBehindFile result (areas, os_error) landed = seen-CursorBehindFile result areas
    finish-CursorBehindFile result (areas, delivered) landed =
        All-append _ _ _ (seen-CursorBehindFile result areas)
          (advanced-CursorBehindFile result (after result) result.next_cursor refl (landed refl))

    delivery-Landed :
        (result : FetchResult Record)
        → (delivery result).1 ≡ delivered
        → Landed result (after result)
    unfolding delivery
    delivery-Landed result e =
        promoted partial disk (paths result) (apart _) _ (sidecar_of result start) site.area e

    -- In every state that a fetch passes through, however it ends, the source's cursor is the one
    -- before the fetch, or it is that of the result and the result's File has landed whole beside
    -- its sidecar, if the client returns a result and the paths of a File are distinct.
    pub run_fetch-CursorBehindFile :
        (dry_run : Bool) (result : FetchResult Record)
        → fetch start ≡ ok result
        → All (CursorBehindFile result) (run dry_run site).0
    unfolding run_fetch after_delivery delivery
    run_fetch-CursorBehindFile true result got = tt
    run_fetch-CursorBehindFile false result got =
        rw (got, with_result)
          (nonempty result.records _
            (finish-CursorBehindFile result (delivery result) (delivery-Landed result)))
      where
        nonempty :
            (records : List Record) (done : List (Site Content) × FetchEnd)
            → All (CursorBehindFile result) done.0
            → All
                (CursorBehindFile result)
                (unless_empty partial disk cleaned dumps plain compressed plan paths_of sidecar_of
                  fetch records start done).0
        nonempty [] done h = tt
        nonempty (r ∷ records) done h = h

    -- What a fetch that advances leaves.
    abbrev pub Advances : FetchResult Record → String → List (Site Content) × FetchEnd → Type 0
    Advances result c r =
        (r.1 ≡ fetched (length result.records) start (some c))
        × (front : List (Site Content)) × (s : Site Content) × (r.0 ≡ front ++ s ∷ [])
        × HasCursor (some c) s
        × Landed result s
