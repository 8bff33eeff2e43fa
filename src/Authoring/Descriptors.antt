-- ===== src/Authoring/Descriptors.antt =====
-- The descriptors of the Connector Registry, in filedge/connectors/__init__.py.
use filedge.Base.{String, Bool, true, false, Option, List, [], ◌∷◌}
use filedge.Base.Dict
use filedge.Base.Dict.{Dict}

pub record ConnectorSetting : Type 0 where
  pub name : String
  pub required : Bool
  pub default : String

pub record CredentialPlaceholder : Type 0 where
  pub env_var : String
  pub purpose : String

pub record ConnectorDescriptor : Type 0 where
  pub type : String
  pub settings : List ConnectorSetting
  pub credential_placeholders : List CredentialPlaceholder

-- A setting that is required and has no default.
abbrev pub setting : String → ConnectorSetting
setting name = record { name = name; required = true; default = "" }

abbrev pub placeholder : String → String → CredentialPlaceholder
placeholder env_var purpose = record { env_var = env_var; purpose = purpose }

abbrev pub descriptors : Dict ConnectorDescriptor
descriptors =
    (
      "sqlite",
      record {
        type = "sqlite";
        settings = record (setting "url") { default = "sqlite:///REPLACE_ME.db" } ∷ [];
        credential_placeholders = [];
      },
    )
    ∷ (
      "postgres",
      record {
        type = "postgres";
        settings = [];
        credential_placeholders = placeholder "DATABASE_URL" "PostgreSQL connection URL" ∷ [];
      },
    )
    ∷ (
      "bigquery",
      record {
        type = "bigquery";
        settings = setting "project" ∷ setting "dataset" ∷ [];
        credential_placeholders =
            placeholder "GOOGLE_APPLICATION_CREDENTIALS" "BigQuery Application Default Credentials"
            ∷ [];
      },
    )
    ∷ (
      "databricks",
      record {
        type = "databricks";
        settings =
            setting "server_hostname"
            ∷ setting "http_path"
            ∷ setting "catalog"
            ∷ setting "schema"
            ∷ [];
        credential_placeholders = placeholder "DATABRICKS_TOKEN" "Databricks access token" ∷ [];
      },
    )
    ∷ (
      "duckdb",
      record {
        type = "duckdb";
        settings = record (setting "path") { default = "./analytics.duckdb" } ∷ [];
        credential_placeholders = [];
      },
    )
    ∷ (
      "snowflake",
      record {
        type = "snowflake";
        settings =
            setting "account"
            ∷ setting "user"
            ∷ setting "warehouse"
            ∷ setting "database"
            ∷ setting "schema"
            ∷ record (setting "role") { required = false }
            ∷ [];
        credential_placeholders =
            placeholder "SNOWFLAKE_PRIVATE_KEY_PATH"
              "Snowflake key-pair auth: PEM private-key file (recommended)"
            ∷ placeholder "SNOWFLAKE_PASSWORD"
                "Snowflake password auth (fallback; disabled on many accounts)"
            ∷ [];
      },
    )
    ∷ []

-- `connector_descriptor`, and `none` for the ValueError; the registry has the same keys.
unfoldable pub connector_descriptor : String → Option ConnectorDescriptor
unfolding Dict.lookup
connector_descriptor connector_type = Dict.lookup connector_type descriptors
