-- ===== src/Materialize/Commits.antt =====
-- Which offsets `run_materialize` (filedge/materialize/orchestrator.py) commits.
use filedge.Base.{◌+◌, String, ◌≡◌, Bool, Option, none, some, List, [], ◌∷◌, ◌++◌, ◌↔◌, ◌⊎◌}
use filedge.Base.Json.{Fields}
use filedge.Base.Result.{Result, ok}
use filedge.Companion.Promotion.{Disk}
use filedge.Companion.Deliver.{Area, Paths, Delivery, deliver, HasLanded, IsApart}
use filedge.Companion.Deliver
use filedge.Materialize.Consumer.{MicroBatch}
use filedge.Materialize.Run.{
  MaterializeError, Codec, decode_all, Progress, content, materialize_batch, materialize_all,
}

module _ {Content : Type 0} (partial : Content → Content) (disk : Disk) (codec : Codec)
    (dumps : Fields → String) (plain compressed : String → Content) (gzip : Bool)
    (paths_of : MicroBatch → Paths) (sidecar_of : MicroBatch → List Fields → Content) where
  abbrev run : List MicroBatch → Progress Content → Progress Content × Option MaterializeError
  run = materialize_all partial disk codec dumps plain compressed gzip paths_of sidecar_of

  abbrev step : MicroBatch → Progress Content → Progress Content × Option MaterializeError
  step = materialize_batch partial disk codec dumps plain compressed gzip paths_of sidecar_of

  abbrev delivery : MicroBatch → List Fields → Progress Content → List (Area Content) × Delivery
  delivery batch records p =
      deliver partial disk (paths_of batch)
        (content partial disk codec dumps plain compressed gzip paths_of sidecar_of records)
        (sidecar_of batch records) p.area

  -- The batch has been decoded whole, and its File is there whole beside its sidecar.
  abbrev pub Lands : MicroBatch → Progress Content → Type 0
  Lands batch p =
      (records : List Fields) × (decode_all codec batch.messages ≡ ok records)
      × HasLanded partial disk (paths_of batch)
          (content partial disk codec dumps plain compressed gzip paths_of sidecar_of records)
          (sidecar_of batch records) p.area

  -- What a run has committed and listed when it has gone through these batches from `p` to `r`: for
  -- each, at the moment of its commit, its File has landed.
  abbrev pub Commits : List MicroBatch → Progress Content → Progress Content → Type 0
  Commits [] p r = (r.commits ≡ p.commits) × (r.promoted ≡ p.promoted)
  Commits (batch ∷ batches) p r =
      (next : Progress Content) × Lands batch next
      × (next.commits ≡ p.commits ++ (batch.source, batch.end_offset + 1) ∷ [])
      × (next.promoted ≡ p.promoted ++ (paths_of batch).data_dest ∷ [])
      × Commits batches next r

  -- Each batch either fails with nothing committed, or its File has landed, its offset is committed
  -- and its File listed.
  abbrev pub Booked :
      MicroBatch → Progress Content → Progress Content × Option MaterializeError → Type 0
  Booked batch p r =
      ((r.1 ≡ none)
        × Lands batch r.0
        × (r.0.commits ≡ p.commits ++ (batch.source, batch.end_offset + 1) ∷ [])
        × (r.0.promoted ≡ p.promoted ++ (paths_of batch).data_dest ∷ []))
      ⊎ ((e : MaterializeError) × (r.1 ≡ some e)
          × (r.0.commits ≡ p.commits)
          × (r.0.promoted ≡ p.promoted))

  module _ (apart : (batch : MicroBatch) → IsApart partial disk (paths_of batch)) where
    -- The batches that are done, and those that are left because of an error.
    abbrev pub Ordered :
        List MicroBatch → Progress Content → Progress Content × Option MaterializeError → Type 0
    Ordered batches p r =
        (done : List MicroBatch) × (left : List MicroBatch) × (batches ≡ done ++ left)
        × Commits done p r.0
        × ((left ≡ []) ↔ (r.1 ≡ none))
