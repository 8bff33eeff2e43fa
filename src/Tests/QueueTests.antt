-- ===== src/Tests/QueueTests.antt =====
-- Drains, fetches and materializations at small concrete inputs.
use filedge.Base.{
  ℕ, ◌+◌, String, ◌≡◌, refl, true, false, Option, none, some, List, [], ◌∷◌, All, if◌then◌else◌,
  ◌==◌,
}
use filedge.Base.Json.{text, object, end, field}
use filedge.Base.Result.{Result, ok, err}
use filedge.Companion.Promotion.{Disk, written, copied}
use filedge.Companion.Deliver.{Paths, IsApart}
use filedge.Companion.Manifest.{
  Produced, build_manifest, emit_manifest, recorded, emit_manifest-discover,
}
use filedge.Pipeline.Manifest.{JsonText, discover_and_parse}
use filedge.Fetch.Plan.{FetchPlan, FetchResult}
use filedge.Fetch.Run.{Site, run_fetch}
use filedge.Tests.ClientTests.{api}
use filedge.Fetch.Order.{CursorBehindFile, run_fetch-CursorBehindFile}
use filedge.Materialize.Consumer.{
  buffer_of, put, pop, same_partition, TopicPartition, Message, MicroBatch, Draining, drain,
}
use filedge.Materialize.Buffers.{delivered}
use filedge.Materialize.Drained.{drain-delivered}
use filedge.Materialize.Run.{Codec, Progress}

abbrev next : ℕ → ℕ
next now = now + 1

abbrev orders : TopicPartition
orders = record { topic = "orders"; partition = 0 }

abbrev at_offset : ℕ → String → Message
at_offset n v = record { source = orders; offset = n; value = v }

abbrev three_polls : List (List Message × ℕ)
three_polls =
    (at_offset 0 "a" ∷ at_offset 1 "b" ∷ [], 10)
    ∷ (at_offset 2 "c" ∷ at_offset 3 "d" ∷ [], 20)
    ∷ ([], 30)
    ∷ []

abbrev ends : TopicPartition → Option ℕ
ends tp = some 3

abbrev drained : Result Draining Draining
drained = drain next 2 100 ends (orders ∷ []) three_polls 0

abbrev after_drain : Draining
after_drain = elim drained [ ok st ↦ st | err st ↦ st ]

drained-ok : drained ≡ ok after_drain
unfolding drain buffer_of put same_partition pop
drained-ok = refl

drain-delivered_example : delivered orders after_drain.yielded ≡ "a" ∷ "b" ∷ "c" ∷ []
unfolding same_partition
drain-delivered_example =
    drain-delivered next 2 100 ends orders 3 refl (orders ∷ []) refl three_polls 0 after_drain
      drained-ok

abbrev truncated : ℕ → ℕ
truncated content = 0

-- Every write works, and every move copies.
abbrev copying : Disk
copying = record { writes = λ path. written; moves = λ src dest. copied }

abbrev paths_for : String → Paths
paths_for name = record {
  staged_data = "stage/a";
  staged_sidecar = "stage/a.manifest.json";
  data_dest = "in/a";
  sidecar_dest = "in/a.manifest.json";
  lock = "state/orders.lock";
}

paths_for-IsApart : (name : String) → IsApart truncated copying (paths_for name)
paths_for-IsApart name = record {
  staged = refl;
  sidecar_data = refl;
  sidecars = refl;
  data_files = refl;
  data_sidecar = refl;
  landed = refl;
}

abbrev plan : FetchPlan
plan = record api { source_name = "orders" }

abbrev page : FetchResult String
page = record {
  records = "r" ∷ [];
  next_cursor = some "2024";
  started_at = "then";
  finished_at = "now";
}

abbrev site : Site ℕ
site = record { area = record { files = []; locks = [] }; cursors = ("orders", "2023") ∷ [] }

abbrev size_of : String → ℕ
size_of s = 6

run_fetch-CursorBehindFile_example :
    All
      (CursorBehindFile truncated copying
        (λ s. s)
        (λ r. r)
        size_of
        size_of
        plan
        paths_for
        (λ r c. 5)
        (λ c. ok page)
        paths_for-IsApart
        site
        page)
      (run_fetch truncated copying
        (λ s. s)
        (λ r. r)
        size_of
        size_of
        plan
        paths_for
        (λ r c. 5)
        (λ c. ok page)
        false
        site).0
run_fetch-CursorBehindFile_example =
    run_fetch-CursorBehindFile truncated copying (λ s. s) (λ r. r) size_of size_of plan paths_for
      (λ r c. 5) (λ c. ok page) paths_for-IsApart site false page refl

abbrev codec : Codec
codec = record {
  utf8 = λ payload. some payload;
  loads = λ s. if s == "{}" then some (object end) else none;
}

abbrev batch : String → MicroBatch
batch payload = record {
  source = orders;
  start_offset = 0;
  end_offset = 4;
  messages = payload ∷ [];
}

abbrev progress : Progress ℕ
progress = record {
  area = record { files = []; locks = [] };
  commits = [];
  promoted = [];
  record_count = 0;
}

abbrev produced : Produced
produced = record {
  source_type = "kafka";
  source_name = "orders";
  producer = "filedge";
  run_id = "1";
  started_at = "t0";
  finished_at = "t1";
  record_count = 1;
  source_range = some (field "topic" (text "orders") end);
}

-- A reader that knows one text.
abbrev one_text : JsonText
one_text = record {
  loads = λ s. if s == "it" then some (object (build_manifest (λ n. "1") produced "a")) else none;
  is_zero = λ s. false;
}

emit_manifest-discover_example :
    discover_and_parse one_text "stage/a" (some "it")
    ≡ ok (record {
      found = true;
      metadata = some (recorded (λ n. "1") produced "it");
      error_category = none;
      manifest_path = "stage/a.manifest.json";
    })
unfolding emit_manifest
emit_manifest-discover_example =
    emit_manifest-discover (λ n. "1") one_text (λ j. "it") "stage/a" "a" produced refl refl refl
