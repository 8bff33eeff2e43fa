-- ===== src/Companion/Manifest.antt =====
-- filedge/companion/manifest.py: the sidecar that a Fetcher or a Materializer writes.
use filedge.Base.{
  ℕ, String, ◌<>◌, ◌==◌, ◌≡◌, refl, true, false, Option, none, some, Option-cases, inl, inr,
}
use filedge.Base.Json.{Json, number, text, array, object, Items, nil, item, Fields, end, field, get}
use filedge.Base.Result.{ok}
use filedge.Audit.Record.{SourceMetadata}
use filedge.Pipeline.Manifest.{
  JsonText, truthy, truthy_member, members, members_or_empty, inputs_of, manifest_facet, supported,
  ranges_valid, first_range, version_or_default, value_or_null, accepted, check_range, check_job,
  check_version, parse_manifest, discover_and_parse,
}

-- What a caller tells the emitter of a produced File.
pub record Produced : Type 0 where
  pub source_type : String
  pub source_name : String
  pub producer : String
  pub run_id : String
  pub started_at : String
  pub finished_at : String
  pub record_count : ℕ
  pub source_range : Option Fields

-- The literal of a number in JSON.
module _ (literal : ℕ → String) where
  unfoldable pub run_facets : Produced → Fields
  run_facets p =
      field "_filedgeManifest"
        (object (
          field "manifest_version" (text "1") (
            field "started_at" (text p.started_at)
              (field "record_count" (number (literal p.record_count)) end))))
        end

  unfoldable pub range_inputs : Produced → Option Fields → Items
  range_inputs p none = nil
  range_inputs p (some range) =
      item
        (object (
          field "namespace" (text p.source_type) (
            field "name" (text p.source_name)
              (field "facets" (object (field "_sourceRange" (object range) end)) end))))
        nil

  unfoldable pub build_manifest : Produced → String → Fields
  unfolding run_facets range_inputs
  build_manifest p output_name = field "eventType" (text "COMPLETE") (
      field "eventTime" (text p.finished_at) (
        field "producer" (text p.producer) (
          field "run"
            (object (field "runId" (text p.run_id) (field "facets" (object (run_facets p)) end)))
            (field "job"
              (object
                (field "namespace" (text p.source_type) (field "name" (text p.source_name) end)))
              (field "inputs" (array (range_inputs p p.source_range)) (
                field "outputs"
                  (array (
                    item
                      (object
                        (field "namespace" (text "filedge") (field "name" (text output_name) end)))
                      nil))
                  end))))))

  -- The metadata that the audit table records of the File.
  unfoldable pub recorded : Produced → String → SourceMetadata
  recorded p raw = record {
    source_type = text p.source_type;
    source_name = text p.source_name;
    producer = some (text p.producer);
    external_run_id = some (text p.run_id);
    raw_payload = raw;
    manifest_version = text "1";
    started_at = some (text p.started_at);
    finished_at = some (text p.finished_at);
    record_count = some (number (literal p.record_count));
    source_range = p.source_range;
  }

  check_version-built :
      (json : JsonText) (path raw basename : String) (p : Produced)
      → (p.source_type == "") ≡ false
      → (p.source_name == "") ≡ false
      → check_version json path raw (build_manifest p basename)
        ≡ ok (record {
          found = true;
          metadata = some (recorded p raw);
          error_category = none;
          manifest_path = path;
        })
  unfolding build_manifest run_facets recorded check_version check_job check_range accepted
      manifest_facet members_or_empty members supported truthy truthy_member inputs_of get
      value_or_null version_or_default
  check_version-built json path raw basename p typed named = elim (Option-cases p.source_range) [
    | inl bare ↦ rw (typed, named, range_inputs, ranges_valid, first_range, bare) refl
    | inr (range, there) ↦ rw (typed, named, range_inputs, ranges_valid, first_range, there) refl
  ]

  module _ (json : JsonText) (dumps : Json → String) where
    -- `emit_manifest`: the sidecar's path and text.
    unfoldable pub emit_manifest :
        (data_file_path : String) → (basename : String) → Produced → String × String
    unfolding build_manifest
    emit_manifest data_file_path basename p =
        (data_file_path <> ".manifest.json", dumps (object (build_manifest p basename)))

    -- What emit_manifest writes beside a File, discover_and_parse reads back as exactly the
    -- metadata given to it, if the source type and name are not empty and json.loads reads what
    -- json.dumps wrote of it.
    pub emit_manifest-discover :
        (path basename : String) (p : Produced)
        → json.loads (dumps (object (build_manifest p basename)))
          ≡ some (object (build_manifest p basename))
        → (p.source_type == "") ≡ false
        → (p.source_name == "") ≡ false
        → let (sidecar, raw) = emit_manifest path basename p in
          discover_and_parse json path (some raw)
          ≡ ok (record {
            found = true;
            metadata = some (recorded p raw);
            error_category = none;
            manifest_path = sidecar;
          })
    unfolding emit_manifest discover_and_parse parse_manifest
    emit_manifest-discover path basename p readable typed named =
        rw readable (check_version-built json (path <> ".manifest.json") _ basename p typed named)
