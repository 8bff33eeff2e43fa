-- ===== src/Fetch/Client.antt =====
-- The API Source client of filedge/fetch/source_client.py. A computation goes over the state of the
-- rest of the world, which the transport and the waiting change; its loops over pages are on fuel,
-- and `none` stands for a loop that has not ended.
use filedge.Base.{
  ℕ, zero, suc, ◌+◌, String, Bool, true, false, not, Option, none, some, List, [], ◌∷◌, ◌++◌, ◌==◌,
  ◌||◌, ◌<>◌, if◌then◌else◌, eqb, ltb, length, select, is_none,
}
use filedge.Base.Dict
use filedge.Base.Dict.{Dict}
use filedge.Base.Json
use filedge.Base.Json.{
  Json, Items, nil, item, Fields, null, boolean, number, text, array, object, end,
}
use filedge.Base.Result.{Result, ok, err}
use filedge.Fetch.Plan.{FetchPlan, FetchResult}

-- The SourceClientErrors.
pub data ClientError : Type 0 where
  unreachable rate_limited non_json not_an_array not_an_object : String → ClientError
  http_status : ℕ → String → ClientError

pub record Response (Body : Type 0) : Type 0 where
  pub status : ℕ
  pub headers : Dict String
  pub body : Body

-- A computation that changes the world and may raise.
abbrev pub Io : Type 0 → Type 0 → Type 0
Io World A = World → Result ClientError A × World

abbrev pub pure : {World A : Type 0} → A → Io World A
pure a w = (ok a, w)

abbrev pub raise : {World A : Type 0} → ClientError → Io World A
raise e w = (err e, w)

abbrev pub continue :
    {World A B : Type 0}
    → (A → Io World B)
    → Result ClientError A × World
    → Result ClientError B × World
continue f (ok a, w) = f a w
continue f (err e, w) = (err e, w)

infixl 5 ◌>>=◌
abbrev pub ◌>>=◌ : {World A B : Type 0} → Io World A → (A → Io World B) → Io World B
◌>>=◌ m f w = continue f (m w)

-- The client's settings, and what it uses of Python: json.loads, urlencode, str.split("."), str() of
-- a number and of a value, float(), os.environ.get, and `a > b` on texts.
pub record Http (World Body Delay : Type 0) : Type 0 where
  pub transport : String → Dict String → Io World (Response Body)
  pub sleep : Delay → World → World
  pub now : World → String × World
  pub max_retries : ℕ
  pub backoff : Delay
  pub loads : Body → Option Json
  pub urlencode : Dict Json → String
  pub split : String → List String
  pub shown : ℕ → String
  pub str : Json → String
  pub float : String → Option Delay
  pub is_zero : String → Bool
  pub environ : String → Option String
  pub greater : String → String → Bool

-- `x is None`, for a value that json.loads gives
abbrev pub not_null : Json → Option Json
not_null null = none
not_null j = some j

-- `_dotted_get`, on the parts of the path
unfoldable pub dotted_get : List String → Json → Option Json
unfolding Json.get
dotted_get [] current = not_null current
dotted_get (part ∷ parts) (object members) = elim (Json.get part members) [
  | none ↦ none
  | some current ↦ dotted_get parts current
]
dotted_get (part ∷ parts) current = none

abbrev pub to_list : Items → List Json
to_list nil = []
to_list (item j items) = j ∷ to_list items

-- The text, if it is there and not empty.
abbrev pub non_empty_text : Option String → Option String
non_empty_text none = none
non_empty_text (some s) = if s == "" then none else some s

-- `{**d, **e}`
unfoldable pub update {ℓ} : {A : Type ℓ} → Dict A → Dict A → Dict A
unfolding Dict.insert
update d [] = d
update d ((k, v) ∷ e) = update (Dict.insert k v d) e

unfoldable pub is_rate_limited : Dict String → Bool
unfolding Dict.lookup
is_rate_limited headers =
    not (is_none (Dict.lookup "Retry-After" headers))
    || elim (Dict.lookup "X-RateLimit-Remaining" headers) [
      | none ↦ false
      | some remaining ↦ remaining == "0"
    ]

module _ {World Body Delay : Type 0} (http : Http World Body Delay) where
  open http use {
    transport, sleep, now, max_retries, backoff, loads, urlencode, split, shown, str, float,
    is_zero, environ, greater,
  }

  -- `bool(v)`
  abbrev pub truthy : Json → Bool
  truthy null = false
  truthy (boolean b) = b
  truthy (number n) = not (is_zero n)
  truthy (text s) = not (s == "")
  truthy (array nil) = false
  truthy (array (item j items)) = true
  truthy (object end) = false
  truthy (object members) = true

  unfoldable pub credential : FetchPlan → Option String
  credential plan = elim (non_empty_text plan.credential_env) [
    | none ↦ none
    | some name ↦ environ name
  ]

  unfoldable pub request_headers : FetchPlan → Dict String
  unfolding credential update Dict.insert
  request_headers plan =
      let headers = update (("Accept", "application/json") ∷ []) plan.headers in
      elim (non_empty_text (credential plan)) [
        | none ↦ headers
        | some token ↦ Dict.insert "Authorization" ("Bearer " <> token) headers
      ]

  unfoldable pub retry_delay : Dict String → Delay
  unfolding Dict.lookup
  retry_delay headers = elim (non_empty_text (Dict.lookup "Retry-After" headers)) [
    | none ↦ backoff
    | some retry_after ↦ elim (float retry_after) [ none ↦ backoff | some delay ↦ delay ]
  ]

  -- `status in _RATE_LIMIT_STATUSES and self._is_rate_limited(resp_headers)`
  abbrev pub limited : Response Body → Bool
  limited r = if eqb r.status 403 || eqb r.status 429 then is_rate_limited r.headers else false

  -- The attempts of `_get`, by the number of retries that are left.
  unfoldable pub get_attempts : String → Dict String → ℕ → Io World Body
  unfolding is_rate_limited retry_delay
  get_attempts url headers zero = transport url headers >>= λ r.
      (if eqb r.status 200
        then pure r.body
        else raise (if limited r then rate_limited url else http_status r.status url))
  get_attempts url headers (suc retries) = transport url headers >>= λ r.
      (let again =
          λ (w : World). get_attempts url headers retries (sleep (retry_delay r.headers) w) in
        if eqb r.status 200
        then pure r.body
        else if limited r
        then again
        else raise (http_status r.status url))

  unfoldable pub get : FetchPlan → String → Io World Body
  unfolding get_attempts request_headers
  get plan url = get_attempts url (request_headers plan) max_retries

  -- `extract_records`, after json.loads
  unfoldable pub located_records : String → Option String → Json → Result ClientError (List Json)
  unfolding dotted_get
  located_records url none (array items) = ok (to_list items)
  located_records url none payload = err (not_an_array url)
  located_records url (some path) payload = elim (dotted_get (split path) payload) [
    | some (array items) ↦ ok (to_list items)
    | none ↦ ok []
    | some located ↦ err (not_an_array url)
  ]

  unfoldable pub extract_records : Body → String → Option String → Result ClientError (List Json)
  unfolding located_records
  extract_records body url record_path = elim (loads body) [
    | none ↦ err (non_json url)
    | some payload ↦ located_records url record_path payload
  ]

  unfoldable pub request : FetchPlan → String → Io World (List Json)
  unfolding get extract_records
  request plan url = get plan url >>= λ body w. (extract_records body url plan.record_path, w)

  abbrev pub object_of : String → Option Json → Result ClientError Fields
  object_of url none = err (non_json url)
  object_of url (some (object members)) = ok members
  object_of url (some payload) = err (not_an_object url)

  unfoldable pub request_object : FetchPlan → String → Io World Fields
  unfolding get
  request_object plan url = get plan url >>= λ body w. (object_of url (loads body), w)

  -- `params[key] = value` if the text is there
  abbrev pub with_text : String → Option String → Dict Json → Dict Json
  with_text key value params = elim (non_empty_text value) [
    | none ↦ params
    | some s ↦ Dict.insert key (text s) params
  ]

  unfoldable pub server_url : FetchPlan → Option String → ℕ → String
  unfolding Dict.insert
  server_url plan cursor page =
      plan.url
      <> "?"
      <> urlencode (
          Dict.insert plan.per_page_param (number (shown plan.page_size)) (
            Dict.insert plan.page_param (number (shown page))
              (with_text plan.cursor_param cursor plan.query)))

  unfoldable pub client_url : FetchPlan → String
  client_url plan = elim plan.query [
    | [] ↦ plan.url
    | p ∷ query ↦ plan.url <> "?" <> urlencode (p ∷ query)
  ]

  abbrev pub with_start : Option Json → Dict Json → Dict Json
  with_start none params = params
  with_start (some id) params = Dict.insert "starting_after" id params

  unfoldable pub stripe_url : FetchPlan → Option String → Option Json → String
  unfolding Dict.insert
  stripe_url plan cursor starting_after =
      plan.url
      <> "?"
      <> urlencode (
          with_start starting_after (
            with_text plan.cursor_param cursor
              (Dict.insert "limit" (number (shown plan.page_size)) plan.query)))

  -- What the loop of `_fetch_server` does with a page, by what it does next.
  abbrev pub after_page :
      ℕ
      → (List Json → Io World (Option (List Json)))
      → List Json
      → List Json
      → Io World (Option (List Json))
  after_page page_size next_page records [] = pure (some records)
  after_page page_size next_page records (r ∷ batch) =
      if ltb (length (r ∷ batch)) page_size
      then pure (some (records ++ (r ∷ batch)))
      else next_page (records ++ (r ∷ batch))

  -- The loop of `_fetch_server`.
  unfoldable pub fetch_pages :
      FetchPlan → Option String → ℕ → ℕ → List Json → Io World (Option (List Json))
  unfolding request server_url
  fetch_pages plan cursor zero page records = pure none
  fetch_pages plan cursor (suc fuel) page records =
      request plan (server_url plan cursor page)
      >>= after_page plan.page_size (fetch_pages plan cursor fuel (page + 1)) records

  unfoldable pub fetch_server : ℕ → FetchPlan → Option String → Io World (Option (List Json))
  unfolding fetch_pages
  fetch_server fuel plan cursor = fetch_pages plan cursor fuel 1 []

  -- `value is not None and str(value) > cursor`
  abbrev pub newer_value : Option Json → String → Bool
  newer_value none cursor = false
  newer_value (some value) cursor = greater (str value) cursor

  unfoldable pub is_newer : FetchPlan → Option String → Json → Bool
  unfolding dotted_get
  is_newer plan none record_ = true
  is_newer plan (some cursor) record_ =
      newer_value (dotted_get (split plan.cursor_field) record_) cursor

  unfoldable pub fetch_client : FetchPlan → Option String → Io World (List Json)
  unfolding request client_url is_newer
  fetch_client plan cursor = do
    records ← request plan (client_url plan)
    pure (select (is_newer plan cursor) records)

  -- `payload.get(plan.record_path or "data") or []`, which has to be a list
  abbrev pub list_path : Option String → String
  list_path none = "data"
  list_path (some path) = path

  abbrev pub list_of : String → Option Json → Result ClientError (List Json)
  list_of url none = ok []
  list_of url (some (array items)) = ok (to_list items)
  list_of url (some value) = if truthy value then err (not_an_array url) else ok []

  unfoldable pub stripe_batch : FetchPlan → Fields → Result ClientError (List Json)
  unfolding Json.get
  stripe_batch plan payload =
      list_of plan.url (Json.get (list_path (non_empty_text plan.record_path)) payload)

  abbrev pub has_more : Fields → Bool
  has_more payload = elim (Json.get "has_more" payload) [ none ↦ false | some value ↦ truthy value ]

  abbrev pub last_of : Json → List Json → Json
  last_of r [] = r
  last_of r (s ∷ rest) = last_of s rest

  -- `last.get("id") if isinstance(last, dict) else None`, where an id that is not truthy ends the loop
  abbrev pub truthy_id : Option Json → Option Json
  truthy_id none = none
  truthy_id (some id) = if truthy id then some id else none

  unfoldable pub next_start : Json → Option Json
  unfolding Json.get
  next_start (object members) = truthy_id (Json.get "id" members)
  next_start last = none

  -- What the loop of `_fetch_stripe` does with a list, by what it does next.
  abbrev pub continue_list :
      List Json
      → (Json → List Json → Io World (Option (List Json)))
      → Bool
      → Option Json
      → Io World (Option (List Json))
  continue_list records next_list false start = pure (some records)
  continue_list records next_list true none = pure (some records)
  continue_list records next_list true (some id) = next_list id records

  abbrev pub after_list :
      (Json → List Json → Io World (Option (List Json)))
      → List Json
      → Bool
      → List Json
      → Io World (Option (List Json))
  after_list next_list records more [] = pure (some records)
  after_list next_list records more (r ∷ batch) =
      continue_list (records ++ (r ∷ batch)) next_list more (next_start (last_of r batch))

  -- The loop of `_fetch_stripe`.
  unfoldable pub fetch_lists :
      FetchPlan → Option String → ℕ → Option Json → List Json → Io World (Option (List Json))
  unfolding request_object stripe_url stripe_batch next_start Json.get
  fetch_lists plan cursor zero starting_after records = pure none
  fetch_lists plan cursor (suc fuel) starting_after records =
      request_object plan (stripe_url plan cursor starting_after) >>= λ payload.
      (λ w. (stripe_batch plan payload, w))
      >>= after_list (λ id. fetch_lists plan cursor fuel (some id)) records (has_more payload)

  unfoldable pub fetch_stripe : ℕ → FetchPlan → Option String → Io World (Option (List Json))
  unfolding fetch_lists
  fetch_stripe fuel plan cursor = fetch_lists plan cursor fuel none []

  -- `value > best`, or the first value
  abbrev pub better : Option String → String → Option String
  better none value = some value
  better (some best) value = if greater value best then some value else some best

  abbrev pub with_value : Option String → Option Json → Option String
  with_value best none = best
  with_value best (some value) = better best (str value)

  unfoldable pub max_cursor : FetchPlan → List Json → Option String → Option String
  unfolding dotted_get
  max_cursor plan [] best = best
  max_cursor plan (r ∷ records) best =
      max_cursor plan records (with_value best (dotted_get (split plan.cursor_field) r))

  unfoldable pub fetch_records : ℕ → FetchPlan → Option String → Io World (Option (List Json))
  unfolding fetch_client fetch_stripe fetch_server
  fetch_records fuel plan cursor =
      if plan.cursor_mode == "client"
      then (fetch_client plan cursor >>= λ records. pure (some records))
      else if plan.cursor_mode == "stripe"
      then fetch_stripe fuel plan cursor
      else fetch_server fuel plan cursor

  abbrev pub read_clock : Io World String
  read_clock w = let (time, w') = now w in (ok time, w')

  abbrev pub result_of :
      FetchPlan → Option String → String → Option (List Json) → String → Option (FetchResult Json)
  result_of plan cursor started_at none finished_at = none
  result_of plan cursor started_at (some records) finished_at = some (record {
    records = records;
    next_cursor = max_cursor plan records cursor;
    started_at = started_at;
    finished_at = finished_at;
  })

  unfoldable pub client_fetch : ℕ → FetchPlan → Option String → Io World (Option (FetchResult Json))
  unfolding fetch_records max_cursor
  client_fetch fuel plan cursor = do
    started_at ← read_clock
    records ← fetch_records fuel plan cursor
    finished_at ← read_clock
    pure (result_of plan cursor started_at records finished_at)
