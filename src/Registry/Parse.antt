-- ===== src/Registry/Parse.antt =====
-- filedge/pipeline_registry.py. The values of an entry are texts; the directories of the workspace
-- are a parameter.
use filedge.Base.{
  ℕ, String, Bool, not, Option, none, some, List, [], ◌∷◌, ◌++◌, ◌==◌, ◌&&◌, ◌||◌, if◌then◌else◌,
  contains, map, eqb,
}
use filedge.Base.Dict
use filedge.Base.Dict.{Dict}
use filedge.Base.Result.{Result, ok, err, ◌>>=◌}
use filedge.Registry.Reference.{after_prefix}
use text.Mathlib.Text.{starts_with}

pub record RegistryEntry : Type 0 where
  pub id : String
  pub folder : String
  pub watched_directory : String
  pub audit_db : String
  pub audit_export : String

-- An item of `pipelines:` as YAML gives it, and the whole file.
pub data RawEntry : Type 0 where
  mapping : Dict String → RawEntry
  no_mapping : RawEntry

pub data RawRegistry : Type 0 where
  -- The version, if it is a number, and the pipelines, if they are a list.
  registry : (version : Option ℕ) (pipelines : Option (List RawEntry)) → RawRegistry
  not_a_mapping : RawRegistry

pub data RegistryError : Type 0 where
  must_be_mapping unsupported_version no_pipelines entry_not_mapping : RegistryError
  missing_field duplicate_id literal_audit_db folder_missing no_config_file : String → RegistryError
  shared_audit_db : (audit_db owner id : String) → RegistryError

-- `RegistryEntry.to_dict` and `PipelineRegistry.to_dict`, whose version is always 1.
unfoldable pub entry_fields : RegistryEntry → Dict String
entry_fields e =
    ("id", e.id)
    ∷ ("folder", e.folder)
    ∷ ("watched_directory", e.watched_directory)
    ∷ ("audit_db", e.audit_db)
    ∷ ("audit_export", e.audit_export)
    ∷ []

unfoldable pub to_dict : List RegistryEntry → RawRegistry
unfolding entry_fields
to_dict entries = registry (some 1) (some (map (λ e. mapping (entry_fields e)) entries))

unfoldable pub is_placeholder : String → Bool
unfolding after_prefix
is_placeholder value =
    (starts_with value "env:" && not (after_prefix value "env:" == ""))
    || (starts_with value "secrets:/" && not (after_prefix value "secrets:" == ""))

-- `raw.get(required)`, if it is truthy.
unfoldable pub required_field : String → Dict String → Result RegistryError String
required_field key raw = elim (Dict.lookup key raw) [
  | none ↦ err (missing_field key)
  | some value ↦ if value == "" then err (missing_field key) else ok value
]

-- What of a folder is there, under the workspace: the directory, and its pipeline.yaml.
pub record Workspace : Type 0 where
  pub is_folder : String → Bool
  pub has_config : String → Bool

unfoldable pub entry_of : RawEntry → Result RegistryError RegistryEntry
unfolding required_field
entry_of no_mapping = err entry_not_mapping
entry_of (mapping raw) = do
  id ← required_field "id" raw
  folder ← required_field "folder" raw
  watched_directory ← required_field "watched_directory" raw
  audit_db ← required_field "audit_db" raw
  audit_export ← required_field "audit_export" raw
  ok (record {
    id = id;
    folder = folder;
    watched_directory = watched_directory;
    audit_db = audit_db;
    audit_export = audit_export;
  })

unfoldable pub check_folder : Option Workspace → RegistryEntry → Option RegistryError
check_folder none e = none
check_folder (some workspace) e =
    if not (workspace.is_folder e.folder)
    then some (folder_missing e.id)
    else if not (workspace.has_config e.folder)
    then some (no_config_file e.id)
    else none

-- The checks of an entry against those before it: its error, if there is one.
unfoldable pub check_entry :
    Option Workspace → List String → Dict String → RegistryEntry → Option RegistryError
unfolding is_placeholder check_folder
check_entry workspace seen_ids audit_db_owner e =
    if contains e.id seen_ids
    then some (duplicate_id e.id)
    else if not (is_placeholder e.audit_db)
    then some (literal_audit_db e.id)
    else elim (Dict.lookup e.audit_db audit_db_owner) [
      | some owner ↦ some (shared_audit_db e.audit_db owner e.id)
      | none ↦ check_folder workspace e
    ]

abbrev pub unless_error :
    Option RegistryError
    → Result RegistryError (List RegistryEntry)
    → Result RegistryError (List RegistryEntry)
unless_error none rest = rest
unless_error (some e) rest = err e

-- The loop over the raw entries.
unfoldable pub parse_entries :
    Option Workspace
    → List RawEntry
    → List String
    → Dict String
    → Result RegistryError (List RegistryEntry)
unfolding entry_of check_entry
parse_entries workspace [] seen_ids audit_db_owner = ok []
parse_entries workspace (raw ∷ raws) seen_ids audit_db_owner = do
  e ← entry_of raw
  entries ←
      unless_error (check_entry workspace seen_ids audit_db_owner e) (
        parse_entries workspace raws (e.id ∷ seen_ids) (Dict.insert e.audit_db e.id audit_db_owner))
  ok (e ∷ entries)

unfoldable pub parse_registry :
    Option Workspace → RawRegistry → Result RegistryError (List RegistryEntry)
unfolding parse_entries
parse_registry workspace not_a_mapping = err must_be_mapping
parse_registry workspace (registry none pipelines) = err unsupported_version
parse_registry workspace (registry (some version) pipelines) =
    if not (eqb version 1)
    then err unsupported_version
    else elim pipelines [ none ↦ err no_pipelines | some raws ↦ parse_entries workspace raws [] [] ]

-- `load_registry(workspace) if registry_exists(workspace) else PipelineRegistry()`
unfoldable pub stored_entries :
    Option Workspace → Option RawRegistry → Result RegistryError (List RegistryEntry)
unfolding parse_registry
stored_entries workspace none = ok []
stored_entries workspace (some raw) = parse_registry workspace raw

-- `_write_registry`, which an error does not reach.
abbrev pub rewritten :
    Option RawRegistry → Result RegistryError (List RegistryEntry) → Option RawRegistry
rewritten file (ok entries) = some (to_dict entries)
rewritten file (err e) = file

-- The file after the call, and its result; an error leaves the file as it was.
unfoldable pub add_entry :
    Workspace
    → Option RawRegistry
    → RegistryEntry
    → Option RawRegistry × Result RegistryError (List RegistryEntry)
unfolding stored_entries
add_entry workspace file entry =
    let validated = (do
      entries ← stored_entries (some workspace) file
      parse_registry (some workspace) (to_dict (entries ++ entry ∷ []))) in
    (rewritten file validated, validated)
