-- ===== src/Fetch/Plan.antt =====
-- `FetchPlan` of filedge/fetch/sources_config.py and `FetchResult` of filedge/fetch/source_client.py.
use filedge.Base.{ℕ, String, Bool, Option, List}
use filedge.Base.Dict.{Dict}
use filedge.Base.Json.{Json}

pub record FetchPlan : Type 0 where
  pub source_name : String
  pub source_type : String
  pub url : String
  pub staging_dir : String
  pub watched_directory : String
  pub state_dir : String
  pub cursor_param : String
  pub cursor_field : String
  pub query : Dict Json
  pub credential_env : Option String
  pub headers : Dict String
  pub page_param : String
  pub per_page_param : String
  pub page_size : ℕ
  pub gzip : Bool
  pub producer : String
  pub record_path : Option String
  pub cursor_mode : String
  pub cik : Option String
  pub taxonomy : Option String
  pub concept : Option String
  pub unit : Option String
  pub user_agent : Option String
  pub resource : Option String

pub record FetchResult (Record : Type 0) : Type 0 where
  pub records : List Record
  pub next_cursor : Option String
  pub started_at : String
  pub finished_at : String
