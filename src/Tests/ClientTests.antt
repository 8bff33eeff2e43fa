-- ===== src/Tests/ClientTests.antt =====
-- An API with three records, in pages of two.
use filedge.Base.{
  ℕ, zero, suc, String, ◌≡◌, refl, Bool, false, true, Option, none, some, List, [], ◌∷◌, ◌==◌,
  if◌then◌else◌, ltb, take, drop, arith,
}
use filedge.Base.Dict
use filedge.Base.Dict.{Dict}
use filedge.Base.Json.{Json, nil, item, text, array, object, field, end, number}
use filedge.Base.Result.{ok}
use filedge.Fetch.Plan.{FetchPlan}
use filedge.Fetch.Client.{
  Http, request, server_url, client_url, fetch_server, fetch_client, max_cursor,
}
use filedge.Fetch.Paging.{fetch_server-all}
use filedge.Fetch.Cursor.{IsOrder, fetch_client-again}

abbrev pub api : FetchPlan
api = record {
  source_name = "commits";
  source_type = "http";
  url = "api";
  staging_dir = "stage";
  watched_directory = "in";
  state_dir = "state";
  cursor_param = "since";
  cursor_field = "t";
  query = [];
  credential_env = none;
  headers = [];
  page_param = "page";
  per_page_param = "per_page";
  page_size = 2;
  gzip = false;
  producer = "filedge";
  record_path = none;
  cursor_mode = "server";
  cik = none;
  taxonomy = none;
  concept = none;
  unit = none;
  user_agent = none;
  resource = none;
}

abbrev at_time : String → Json
at_time t = object (field "t" (text t) end)

abbrev page_number : ℕ → String
page_number zero = "0"
page_number (suc zero) = "1"
page_number (suc (suc zero)) = "2"
page_number (suc (suc (suc n))) = "3"

abbrev shown_page : Option Json → String
shown_page (some (number n)) = n
shown_page _ = ""

abbrev text_of : Json → String
text_of (text s) = s
text_of _ = ""

abbrev body_of : String → Json
body_of url =
    if url == "api?1"
    then array (item (at_time "5") (item (at_time "7") nil))
    else if url == "api?2"
    then array (item (at_time "6") nil)
    else if url == "api"
    then array (item (at_time "5") (item (at_time "7") nil))
    else array nil

abbrev rank : String → ℕ
rank s = if s == "5" then 5 else if s == "6" then 6 else if s == "7" then 7 else 0

abbrev later : String → String → Bool
later a b = ltb (rank b) (rank a)

-- The world counts the requests.
abbrev http : Http ℕ Json ℕ
http = record {
  transport =
      λ url headers n. (ok (record { status = 200; headers = []; body = body_of url }), suc n);
  sleep = λ seconds n. n;
  now = λ n. ("now", n);
  max_retries = 3;
  backoff = 1;
  loads = λ body. some body;
  urlencode = λ params. shown_page (Dict.lookup "page" params);
  split = λ s. s ∷ [];
  shown = page_number;
  str = text_of;
  float = λ s. none;
  is_zero = λ s. s == "0";
  environ = λ s. none;
  greater = later;
}

abbrev rest : ℕ → List Json
rest zero = at_time "5" ∷ at_time "7" ∷ at_time "6" ∷ []
rest (suc zero) = at_time "6" ∷ []
rest (suc (suc k)) = []

page_served :
    (k w : ℕ) → (request http api (server_url http api none (suc k)) w).0 ≡ ok (take 2 (rest k))
unfolding fetch_server Dict.lookup
page_served zero w = refl
page_served (suc zero) w = refl
page_served (suc (suc k)) w = refl

rest_after : (k : ℕ) → rest (suc k) ≡ drop 2 (rest k)
rest_after zero = refl
rest_after (suc zero) = refl
rest_after (suc (suc k)) = refl

fetch_server-all_example :
    (fetch_server http 4 api none 0).0 ≡ ok (some (at_time "5" ∷ at_time "7" ∷ at_time "6" ∷ []))
fetch_server-all_example =
    fetch_server-all http api none 4 rest 0 (record { page = page_served; next = rest_after })
      (omega arith) (omega arith)

document_served :
    (w : ℕ) → (request http api (client_url http api) w).0 ≡ ok (at_time "5" ∷ at_time "7" ∷ [])
unfolding fetch_client
document_served w = refl

only_newer : (fetch_client http api (some "5") 0).0 ≡ ok (at_time "7" ∷ [])
unfolding fetch_client
only_newer = refl

newest : max_cursor http api (at_time "7" ∷ []) (some "5") ≡ some "7"
unfolding max_cursor
newest = refl

ltb_asym : (m n : ℕ) → ltb m n ≡ true → ltb n m ≡ false
ltb_asym m n h = ground arith

ltb_trans : (m n k : ℕ) → ltb m n ≡ false → ltb k m ≡ false → ltb k n ≡ false
ltb_trans m n k h l = ground arith

ltb_irrefl : (m : ℕ) → ltb m m ≡ false
ltb_irrefl m = ground arith

rank-IsOrder : IsOrder later
rank-IsOrder = record {
  irreflexive = λ a. ltb_irrefl (rank a);
  asymmetric = λ a b h. ltb_asym (rank b) (rank a) h;
  transitive = λ a b c h k. ltb_trans (rank b) (rank a) (rank c) h k;
}

fetch_client-again_example : (fetch_client http api (some "7") 1).0 ≡ ok []
fetch_client-again_example =
    fetch_client-again http api (at_time "7" ∷ []) (at_time "5" ∷ at_time "7" ∷ []) (some "5") "7" 0
      1 rank-IsOrder document_served only_newer newest
