-- ===== src/Pipeline/Manifest.antt =====
-- `discover_and_parse` of filedge/source_manifest.py. Reading the sidecar, `json.loads` and the
-- truth of a number are parameters.
use filedge.Base.{
  String, ◌<>◌, Bool, true, false, not, Option, none, some, ◌&&◌, ◌==◌, if◌then◌else◌,
}
use filedge.Base.Json.{
  Json, null, boolean, number, text, array, object, Items, nil, item, Fields, end, field, get,
}
use filedge.Base.Result.{Result, ok, err, ◌>>=◌}
use filedge.Audit.Record.{SourceMetadata}

pub data ManifestError : Type 0 where
  manifest_missing manifest_malformed_json manifest_unsupported_version : ManifestError
  manifest_missing_required_field manifest_invalid_source_range : ManifestError

pub record ManifestResult : Type 0 where
  pub found : Bool
  pub metadata : Option SourceMetadata
  pub error_category : Option ManifestError
  pub manifest_path : String

pub record JsonText : Type 0 where
  -- `json.loads`; `none` is a JSONDecodeError
  pub loads : String → Option Json
  pub is_zero : String → Bool

module _ (json : JsonText) where
  -- `bool(v)`
  unfoldable pub truthy : Json → Bool
  truthy null = false
  truthy (boolean b) = b
  truthy (number n) = not (json.is_zero n)
  truthy (text s) = not (s == "")
  truthy (array nil) = false
  truthy (array (item v rest)) = true
  truthy (object end) = false
  truthy (object (field k v rest)) = true

  unfoldable pub truthy_member : Option Json → Bool
  unfolding truthy
  truthy_member none = false
  truthy_member (some v) = truthy v

  -- The members of a value that the code calls `.get` on; another value raises AttributeError,
  -- which nothing catches.
  unfoldable pub members : Json → Result String Fields
  members (object fs) = ok fs
  members _ = err "AttributeError"

  -- `(d.get(key) or {})`, as a value to call `.get` on.
  unfoldable pub members_or_empty : Option Json → Result String Fields
  unfolding members truthy
  members_or_empty none = ok end
  members_or_empty (some v) = if truthy v then members v else ok end

  -- `payload.get("inputs") or []`, as the values to loop over; looping over a number raises.
  unfoldable pub inputs_of : Option Json → Result String Items
  unfolding truthy
  inputs_of none = ok nil
  inputs_of (some (array vs)) = ok vs
  inputs_of (some v) = if truthy v then err "AttributeError" else ok nil

  unfoldable pub manifest_facet : Fields → Result String Fields
  unfolding members_or_empty
  manifest_facet payload = do
    run ← members_or_empty (get "run" payload)
    facets ← members_or_empty (get "facets" run)
    members_or_empty (get "_filedgeManifest" facets)

  -- `version not in {"1"}`; a list or an object cannot be hashed.
  unfoldable pub supported : Option Json → Result String Bool
  supported none = ok true
  supported (some (text s)) = ok (s == "1")
  supported (some (array vs)) = err "TypeError"
  supported (some (object fs)) = err "TypeError"
  supported (some _) = ok false

  unfoldable pub range_valid : Option Json → Bool
  range_valid none = true
  range_valid (some (object fs)) = true
  range_valid (some _) = false

  unfoldable pub ranges_valid : Items → Result String Bool
  unfolding members members_or_empty range_valid
  ranges_valid nil = ok true
  ranges_valid (item v rest) = do
    inp ← members v
    facets ← members_or_empty (get "facets" inp)
    if range_valid (get "_sourceRange" facets) then ranges_valid rest else ok false

  unfoldable pub range_or :
      Option Json → Result String (Option Fields) → Result String (Option Fields)
  range_or (some (object fs)) later = ok (some fs)
  range_or _ later = later

  unfoldable pub first_range : Items → Result String (Option Fields)
  unfolding members members_or_empty range_or
  first_range nil = ok none
  first_range (item v rest) = do
    inp ← members v
    facets ← members_or_empty (get "facets" inp)
    range_or (get "_sourceRange" facets) (first_range rest)

  unfoldable pub version_or_default : Option Json → Json
  version_or_default none = text "1"
  version_or_default (some v) = v

  refused : String → Bool → ManifestError → ManifestResult
  refused path found e = record {
    found = found;
    metadata = none;
    error_category = some e;
    manifest_path = path;
  }

  unfoldable pub value_or_null : Option Json → Json
  value_or_null none = null
  value_or_null (some v) = v

  unfoldable pub accepted : String → String → Fields → Fields → Result String ManifestResult
  unfolding members_or_empty manifest_facet inputs_of first_range version_or_default value_or_null
  accepted path raw payload job = do
    run ← members_or_empty (get "run" payload)
    facet ← manifest_facet payload
    inputs ← inputs_of (get "inputs" payload)
    range ← first_range inputs
    ok (record {
      found = true;
      metadata = some (record {
        source_type = value_or_null (get "namespace" job);
        source_name = value_or_null (get "name" job);
        producer = get "producer" payload;
        external_run_id = get "runId" run;
        raw_payload = raw;
        manifest_version = version_or_default (get "manifest_version" facet);
        started_at = get "started_at" facet;
        finished_at = get "eventTime" payload;
        record_count = get "record_count" facet;
        source_range = range;
      });
      error_category = none;
      manifest_path = path;
    })

  unfoldable pub check_range : String → String → Fields → Fields → Result String ManifestResult
  unfolding inputs_of ranges_valid accepted refused
  check_range path raw payload job = do
    inputs ← inputs_of (get "inputs" payload)
    valid ← ranges_valid inputs
    if valid
        then accepted path raw payload job
        else ok (refused path true manifest_invalid_source_range)

  unfoldable pub check_job : String → String → Fields → Result String ManifestResult
  unfolding members_or_empty check_range truthy_member refused
  check_job path raw payload = do
    job ← members_or_empty (get "job" payload)
    let named = truthy_member (get "namespace" job) && truthy_member (get "name" job)
    if named
        then check_range path raw payload job
        else ok (refused path true manifest_missing_required_field)

  unfoldable pub check_version : String → String → Fields → Result String ManifestResult
  unfolding check_job supported manifest_facet refused
  check_version path raw payload = do
    facet ← manifest_facet payload
    fine ← supported (get "manifest_version" facet)
    if fine then check_job path raw payload else ok (refused path true manifest_unsupported_version)

  unfoldable pub parse_manifest : String → String → Option Json → Result String ManifestResult
  unfolding members check_version refused
  parse_manifest path raw none = ok (refused path true manifest_malformed_json)
  parse_manifest path raw (some payload) = do fs ← members payload; check_version path raw fs

  -- `raw` is what the sidecar holds, if there is one. An error is an exception of Python that no
  -- caller catches: it ends the whole Run.
  unfoldable pub discover_and_parse : String → Option String → Result String ManifestResult
  unfolding parse_manifest refused
  discover_and_parse data_file_path none =
      ok (refused (data_file_path <> ".manifest.json") false manifest_missing)
  discover_and_parse data_file_path (some raw) =
      parse_manifest (data_file_path <> ".manifest.json") raw (json.loads raw)
