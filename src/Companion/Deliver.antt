-- ===== src/Companion/Deliver.antt =====
-- How a companion delivers one complete File: `write_staged_ndjson`, `emit_manifest`, and `promote`
-- under the Fetch Lock (filedge/companion/promotion.py), in the order that
-- filedge/fetch/orchestrator.py and filedge/materialize/orchestrator.py share. The result is every
-- state that another process can see, and how the delivery ended.
use filedge.Base.{
  String, ◌≡◌, ◌==◌, refl, Bool, true, false, not, some, List, [], ◌∷◌, ◌++◌, if◌then◌else◌, select,
  contains, map, arith, eq_refl, ◌∙◌, sym, ap, ◌&&◌, Bool-cases, inl, inr,
}
use filedge.Base.Dict
use filedge.Base.Dict.{Dict, lookup-insert}
use filedge.Companion.Promotion.{
  Disk, is_written, is_moved, Writing, written, not_opened, write_broken, Trace, last_state,
  write_as, write_file, then_write, promote,
}
use filedge.Companion.Order.{promote-landed}

-- The files, and the lock directories that exist.
pub record Area (Content : Type 0) : Type 0 where
  pub files : Dict Content
  pub locks : List String

pub record Paths : Type 0 where
  pub staged_data : String
  pub staged_sidecar : String
  pub data_dest : String
  pub sidecar_dest : String
  pub lock : String

-- FetchLockHeld, and an OSError of the promotion.
pub data Delivery : Type 0 where
  delivered lock_held os_error : Delivery

module _ {Content : Type 0} (partial : Content → Content) (disk : Disk) where
  abbrev pub stage : Paths → Content → Content → Dict Content → Dict Content
  stage paths batch sidecar fs =
      Dict.insert paths.staged_sidecar sidecar (Dict.insert paths.staged_data batch fs)

  -- `write_staged_ndjson` and `emit_manifest`: the staged File, then its sidecar.
  unfoldable pub staging : Paths → Content → Content → Dict Content → Trace Content
  unfolding then_write
  staging paths batch sidecar fs =
      then_write partial disk (write_file partial disk paths.staged_data batch fs)
        paths.staged_sidecar sidecar fs

  abbrev pub with_locks : List String → Dict Content → Area Content
  with_locks locks fs = record { files = fs; locks = locks }

  abbrev pub promotion : Paths → Content → Content → Dict Content → Trace Content
  promotion paths batch sidecar fs =
      promote partial disk paths.staged_data paths.staged_sidecar paths.data_dest paths.sidecar_dest
        (stage paths batch sidecar fs)

  -- The area after the promotion, with the lock released.
  abbrev pub released : Paths → Content → Content → Area Content → Area Content
  released paths batch sidecar area = with_locks (select (λ l. not (l == paths.lock)) area.locks) (
      last_state (stage paths batch sidecar area.files)
        (promotion paths batch sidecar area.files).states)

  unfoldable pub locked_states : Paths → Content → Content → Area Content → List (Area Content)
  locked_states paths batch sidecar area =
      let locks = paths.lock ∷ area.locks in
      with_locks locks (stage paths batch sidecar area.files)
        ∷ map (with_locks locks) (promotion paths batch sidecar area.files).states
      ++ released paths batch sidecar area ∷ []

  -- Under the lock: what `promote` does, and its exception.
  unfoldable pub deliver_staged :
      Paths
      → Content
      → Content
      → Area Content
      → List (Area Content)
      → List (Area Content) × Delivery
  unfolding locked_states
  deliver_staged paths batch sidecar area staged =
      if contains paths.lock area.locks then (staged, lock_held) else (
        staged ++ locked_states paths batch sidecar area,
        if (promotion paths batch sidecar area.files).finished then delivered else os_error,
      )

  unfoldable pub deliver : Paths → Content → Content → Area Content → List (Area Content) × Delivery
  unfolding staging deliver_staged
  deliver paths batch sidecar area =
      let first = staging paths batch sidecar area.files in
      let staged = map (with_locks area.locks) first.states in
      elim first.finished [
        | false ↦ (staged, os_error)
        | true ↦ deliver_staged paths batch sidecar area staged
      ]

  -- The paths are different from each other.
  pub record IsApart (paths : Paths) : Type 0 where
    pub staged : (paths.staged_sidecar == paths.staged_data) ≡ false
    pub sidecar_data : (paths.sidecar_dest == paths.staged_data) ≡ false
    pub sidecars : (paths.staged_sidecar == paths.sidecar_dest) ≡ false
    pub data_files : (paths.staged_data == paths.data_dest) ≡ false
    pub data_sidecar : (paths.staged_data == paths.sidecar_dest) ≡ false
    pub landed : (paths.data_dest == paths.sidecar_dest) ≡ false

  abbrev pub HasLanded : Paths → Content → Content → Area Content → Type 0
  HasLanded paths batch sidecar area =
      (Dict.lookup paths.data_dest area.files ≡ some batch)
      × (Dict.lookup paths.sidecar_dest area.files ≡ some sidecar)

  -- Both writes into the staging directory work, and both moves out of it.
  pub record Works (paths : Paths) : Type 0 where
    pub data_written : is_written (disk.writes paths.staged_data) ≡ true
    pub sidecar_written : is_written (disk.writes paths.staged_sidecar) ≡ true
    pub sidecar_moved : is_moved (disk.moves paths.staged_sidecar paths.sidecar_dest) ≡ true
    pub data_moved : is_moved (disk.moves paths.staged_data paths.data_dest) ≡ true

  finished-write_as :
      (how : Writing) (path : String) (content : Content) (fs : Dict Content)
      → (write_as partial disk how path content fs).finished ≡ is_written how
  unfolding write_as
  finished-write_as written path content fs = refl
  finished-write_as not_opened path content fs = refl
  finished-write_as write_broken path content fs = refl

  then_write-finished :
      (first : Trace Content) (path : String) (content : Content) (fs : Dict Content)
      → first.finished ≡ true
      → is_written (disk.writes path) ≡ true
      → (then_write partial disk first path content fs).finished ≡ true
  unfolding then_write write_file
  then_write-finished first path content fs done works =
      rw done (finished-write_as (disk.writes path) path content _ ∙ works)

  staging-finished :
      (paths : Paths) (batch sidecar : Content) (fs : Dict Content)
      → Works paths
      → (staging paths batch sidecar fs).finished ≡ true
  unfolding staging write_file
  staging-finished paths batch sidecar fs works =
      then_write-finished _ paths.staged_sidecar sidecar fs
        (finished-write_as (disk.writes paths.staged_data) paths.staged_data batch fs
          ∙ works.data_written)
        works.sidecar_written

  delivered-if : (b : Bool) → (if b then delivered else os_error) ≡ delivered → b ≡ true
  delivered-if true e = refl
  delivered-if false e = cc

  deliver_staged-finished :
      (paths : Paths) (batch sidecar : Content) (area : Area Content) (staged : List (Area Content))
      → (deliver_staged paths batch sidecar area staged).1 ≡ delivered
      → (promotion paths batch sidecar area.files).finished ≡ true
  unfolding deliver_staged
  deliver_staged-finished paths batch sidecar area staged e =
      elim (Bool-cases (contains paths.lock area.locks)) [
        | inl held ↦ absurd (ground (arith, held))
        | inr free ↦ delivered-if _ (ground (arith, free))
      ]

  -- Only a promotion that has come to its end makes a delivery.
  pub deliver-finished :
      (paths : Paths) (batch sidecar : Content) (area : Area Content)
      → (deliver paths batch sidecar area).1 ≡ delivered
      → (promotion paths batch sidecar area.files).finished ≡ true
  unfolding deliver
  deliver-finished paths batch sidecar area e =
      elim (Bool-cases (staging paths batch sidecar area.files).finished) [
        | inl done ↦ deliver_staged-finished paths batch sidecar area _ (
            ap
              (λ (b : Bool).
                (elim b as (λ _. List (Area Content) × Delivery) [
                  | false ↦ (
                    map (with_locks area.locks) (staging paths batch sidecar area.files).states,
                    os_error,
                  )
                  | true ↦
                      deliver_staged paths batch sidecar area (
                        map (with_locks area.locks) (staging paths batch sidecar area.files).states)
                ]).1)
              (sym done)
            ∙ e)
        | inr stopped ↦
            let failed : os_error ≡ delivered =
              ap
                (λ (b : Bool).
                  (elim b as (λ _. List (Area Content) × Delivery) [
                    | false ↦ (
                      map (with_locks area.locks) (staging paths batch sidecar area.files).states,
                      os_error,
                    )
                    | true ↦ deliver_staged paths batch sidecar area (
                        map (with_locks area.locks) (staging paths batch sidecar area.files).states)
                  ]).1)
                (sym stopped)
              ∙ e in
            cc
      ]

  module _ (paths : Paths) (apart : IsApart paths) (batch sidecar : Content)
      (area : Area Content) where
    landing :
        let t = promotion paths batch sidecar area.files in
        let fs = stage paths batch sidecar area.files in
        (t.finished ≡ (
          is_moved (disk.moves paths.staged_sidecar paths.sidecar_dest)
          && is_moved (disk.moves paths.staged_data paths.data_dest)))
        × (t.finished ≡ true
            → (Dict.lookup paths.data_dest (last_state fs t.states) ≡ some batch)
              × (Dict.lookup paths.sidecar_dest (last_state fs t.states) ≡ some sidecar))
    landing =
        promote-landed partial disk paths.staged_data paths.staged_sidecar paths.data_dest
          paths.sidecar_dest batch sidecar (stage paths batch sidecar area.files) apart.staged
          apart.sidecar_data apart.sidecars apart.data_files apart.data_sidecar apart.landed
          (ground (
            arith,
            eq_refl paths.staged_sidecar,
            lookup-insert paths.staged_sidecar paths.staged_sidecar sidecar
                (Dict.insert paths.staged_data batch area.files),
          ))
          (ground (
            arith,
            eq_refl paths.staged_data,
            apart.staged,
            lookup-insert paths.staged_data paths.staged_sidecar sidecar
                (Dict.insert paths.staged_data batch area.files),
            lookup-insert paths.staged_data paths.staged_data batch area.files,
          ))

    -- After a delivery the File is there whole beside its sidecar.
    pub promoted :
        (deliver paths batch sidecar area).1 ≡ delivered
        → HasLanded paths batch sidecar (released paths batch sidecar area)
    promoted e =
        let (whole, side) = landing.1 (deliver-finished paths batch sidecar area e) in (whole, side)

    -- Where no other process holds the lock and the file systems work, a delivery between distinct
    -- paths comes to its end.
    pub deliver-delivered :
        Works paths
        → contains paths.lock area.locks ≡ false
        → (deliver paths batch sidecar area).1 ≡ delivered
    unfolding deliver deliver_staged
    deliver-delivered works free =
        let ends : (promotion paths batch sidecar area.files).finished ≡ true =
          landing.0 ∙ rw (works.sidecar_moved, works.data_moved) refl in
        rw (staging-finished paths batch sidecar area.files works, deliver)
          (rw (free, deliver_staged) (rw ends refl))
