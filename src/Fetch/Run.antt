-- ===== src/Fetch/Run.antt =====
-- `run_fetch` of filedge/fetch/orchestrator.py with the Cursor State of filedge/fetch/cursor_state.py,
-- as every state that another process can see. The client's `fetch` is a parameter, and so are the
-- paths of the File and the content of its sidecar, which depend on the clock and a random id.
use filedge.Base.{
  ℕ, String, Bool, true, false, Option, none, some, List, [], ◌∷◌, ◌++◌, map, length,
}
use filedge.Base.Dict
use filedge.Base.Dict.{Dict}
use filedge.Base.Result.{Result, ok, err}
use filedge.Fetch.Plan.{FetchPlan, FetchResult}
use filedge.Companion.Staging.{staged_filename, staged_content}
use filedge.Companion.Promotion.{Disk}
use filedge.Companion.Deliver.{
  Area, Paths, Delivery, delivered, lock_held, os_error, deliver, released,
}

-- The files and locks, and the cursor that each API Source has advanced to.
pub record Site (Content : Type 0) : Type 0 where
  pub area : Area Content
  pub cursors : Dict String

pub data FetchEnd : Type 0 where
  -- The name that a dry run reports.
  would_write : String → FetchEnd
  skipped : Option String → FetchEnd
  fetched : ℕ → (from_cursor to_cursor : Option String) → FetchEnd
  client_error : String → FetchEnd
  not_promoted : Delivery → FetchEnd

module _ {Record Content : Type 0} (partial : Content → Content) (disk : Disk)
    (cleaned : String → String) (dumps : Record → String) (plain compressed : String → Content)
    (plan : FetchPlan) (paths_of : String → Paths)
    (sidecar_of : FetchResult Record → Option String → Content)
    (fetch : Option String → Result String (FetchResult Record)) where
  -- `CursorStore.advance`: the replacement of the cursor file is atomic.
  unfoldable pub advance : String → String → Dict String → Dict String
  advance source_name cursor cursors = Dict.insert source_name cursor cursors

  -- `if to_cursor is not None:`
  unfoldable pub advanced : Option String → Site Content → List (Site Content)
  unfolding advance
  advanced none site = []
  advanced (some cursor) site =
      record site { cursors = advance plan.source_name cursor site.cursors } ∷ []

  abbrev pub with_cursors : Dict String → Area Content → Site Content
  with_cursors cursors area = record { area = area; cursors = cursors }

  -- The name of the staged File.
  abbrev pub file_name : Option String → FetchResult Record → String
  file_name from_cursor result =
      staged_filename cleaned plan.source_name from_cursor result.next_cursor result.finished_at
        plan.gzip

  abbrev pub content : FetchResult Record → Content
  content result = staged_content dumps plain compressed result.records plan.gzip

  -- What follows the delivery.
  unfoldable pub finish_fetch :
      Option String
      → FetchResult Record
      → Site Content
      → List (Area Content) × Delivery
      → List (Site Content) × FetchEnd
  unfolding advanced
  finish_fetch from_cursor result site (areas, delivered) = (
    map (with_cursors site.cursors) areas
        ++ advanced result.next_cursor (
            with_cursors site.cursors (
              released partial disk (paths_of (file_name from_cursor result)) (content result)
                (sidecar_of result from_cursor) site.area)),
    fetched (length result.records) from_cursor result.next_cursor,
  )
  finish_fetch from_cursor result site (areas, lock_held) =
      (map (with_cursors site.cursors) areas, not_promoted lock_held)
  finish_fetch from_cursor result site (areas, os_error) =
      (map (with_cursors site.cursors) areas, not_promoted os_error)

  unfoldable pub after_delivery :
      Option String → FetchResult Record → Site Content → List (Site Content) × FetchEnd
  unfolding finish_fetch
  after_delivery from_cursor result site = finish_fetch from_cursor result site (
      deliver partial disk (paths_of (file_name from_cursor result)) (content result)
        (sidecar_of result from_cursor) site.area)

  -- `if not result.records:`
  abbrev pub unless_empty :
      List Record → Option String → List (Site Content) × FetchEnd → List (Site Content) × FetchEnd
  unless_empty [] from_cursor done = ([], skipped from_cursor)
  unless_empty (r ∷ records) from_cursor done = done

  unfoldable pub with_result :
      Option String
      → Result String (FetchResult Record)
      → Site Content
      → List (Site Content) × FetchEnd
  unfolding after_delivery
  with_result from_cursor (err e) site = ([], client_error e)
  with_result from_cursor (ok result) site =
      unless_empty result.records from_cursor (after_delivery from_cursor result site)

  unfoldable pub run_fetch : Bool → Site Content → List (Site Content) × FetchEnd
  unfolding with_result
  run_fetch dry_run site =
      let from_cursor = Dict.lookup plan.source_name site.cursors in
      elim dry_run [
        | true ↦ (
          [],
          would_write
              (staged_filename cleaned plan.source_name from_cursor none "DRYRUN" plan.gzip),
        )
        | false ↦ with_result from_cursor (fetch from_cursor) site
      ]
