-- ===== src/Materialize/Run.antt =====
-- `run_materialize` of filedge/materialize/orchestrator.py over the Micro-batches of its consumer,
-- with the decoder of filedge/materialize/decoder.py. The paths of a File and the content of its
-- sidecar depend on the clock and a random id, and are parameters.
use filedge.Base.{ℕ, ◌+◌, String, Bool, Option, none, some, List, [], ◌∷◌, ◌++◌, length}
use filedge.Base.Json.{Json, Fields, object}
use filedge.Base.Result.{Result, ok, err, ◌>>=◌}
use filedge.Companion.Staging.{staged_content}
use filedge.Companion.Promotion.{Disk}
use filedge.Companion.Deliver.{
  Area, Paths, Delivery, delivered, lock_held, os_error, deliver, released,
}
use filedge.Materialize.Consumer.{TopicPartition, MicroBatch}

pub data MaterializeError : Type 0 where
  decode_error : String → MaterializeError
  not_promoted : Delivery → MaterializeError

-- `payload.decode("utf-8")` and `json.loads`; `none` is the exception that the decoder turns into
-- a DecodeError.
pub record Codec : Type 0 where
  pub utf8 : String → Option String
  pub loads : String → Option Json

module _ (codec : Codec) where
  unfoldable pub json_row : Option Json → Result MaterializeError Fields
  json_row none = err (decode_error "Queue payload is not valid JSON")
  json_row (some (object fields)) = ok fields
  json_row (some _) = err (decode_error "Queue payload must be a JSON object")

  unfoldable pub decode_text : Option String → Result MaterializeError Fields
  unfolding json_row
  decode_text none = err (decode_error "Queue payload is not valid UTF-8.")
  decode_text (some text) = json_row (codec.loads text)

  -- `JsonDecoder.decode`
  unfoldable pub decode : String → Result MaterializeError Fields
  unfolding decode_text
  decode payload = decode_text (codec.utf8 payload)

  unfoldable pub decode_all : List String → Result MaterializeError (List Fields)
  unfolding decode
  decode_all [] = ok []
  decode_all (payload ∷ payloads) = do
    row ← decode payload
    rows ← decode_all payloads
    ok (row ∷ rows)

-- The files and locks, the offsets committed at the broker in order, and the outcome's counters.
pub record Progress (Content : Type 0) : Type 0 where
  pub area : Area Content
  pub commits : List (TopicPartition × ℕ)
  pub promoted : List String
  pub record_count : ℕ

module _ {Content : Type 0} (partial : Content → Content) (disk : Disk) (codec : Codec)
    (dumps : Fields → String) (plain compressed : String → Content) (gzip : Bool)
    (paths_of : MicroBatch → Paths) (sidecar_of : MicroBatch → List Fields → Content) where
  -- The area after a delivery that ended in this way.
  abbrev pub last_area : Area Content → List (Area Content) → Area Content
  last_area area [] = area
  last_area area (next ∷ areas) = last_area next areas

  abbrev pub content : List Fields → Content
  content records = staged_content dumps plain compressed records gzip

  unfoldable pub finish_batch :
      MicroBatch
      → List Fields
      → Progress Content
      → List (Area Content) × Delivery
      → Progress Content × Option MaterializeError
  finish_batch batch records p (areas, delivered) = (
    record {
      area =
          released partial disk (paths_of batch) (content records) (sidecar_of batch records)
            p.area;
      commits = p.commits ++ (batch.source, batch.end_offset + 1) ∷ [];
      promoted = p.promoted ++ (paths_of batch).data_dest ∷ [];
      record_count = p.record_count + length records;
    },
    none,
  )
  finish_batch batch records p (areas, lock_held) =
      (record p { area = last_area p.area areas }, some (not_promoted lock_held))
  finish_batch batch records p (areas, os_error) =
      (record p { area = last_area p.area areas }, some (not_promoted os_error))

  unfoldable pub with_records :
      MicroBatch
      → Progress Content
      → Result MaterializeError (List Fields)
      → Progress Content × Option MaterializeError
  unfolding finish_batch
  with_records batch p (err e) = (p, some e)
  with_records batch p (ok records) =
      finish_batch batch records p
        (deliver partial disk (paths_of batch) (content records) (sidecar_of batch records) p.area)

  -- `_materialize_batch` and `commit_batch`, with the counters.
  unfoldable pub materialize_batch :
      MicroBatch → Progress Content → Progress Content × Option MaterializeError
  unfolding with_records
  materialize_batch batch p = with_records batch p (decode_all codec batch.messages)

  -- The exception of a batch ends the loop.
  abbrev pub unless_failed :
      Option MaterializeError
      → Progress Content
      → Progress Content × Option MaterializeError
      → Progress Content × Option MaterializeError
  unless_failed none next rest = rest
  unless_failed (some e) next rest = (next, some e)

  unfoldable pub materialize_all :
      List MicroBatch → Progress Content → Progress Content × Option MaterializeError
  unfolding materialize_batch
  materialize_all [] p = (p, none)
  materialize_all (batch ∷ batches) p =
      let (next, failure) = materialize_batch batch p in
      let rest = materialize_all batches next in unless_failed failure next rest
