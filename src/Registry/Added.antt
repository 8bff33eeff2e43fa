-- ===== src/Registry/Added.antt =====
-- `add_entry` of filedge/pipeline_registry.py.
use filedge.Base.{
  String, ◌≡◌, refl, ◌∙◌, sym, ap, Option, none, some, List, [], ◌∷◌, ◌++◌, map, arith,
}
use filedge.Base.Dict
use filedge.Base.Dict.{Dict}
use filedge.Base.Result.{Result, ok, >>=-eq-ok, ok-injective}
use filedge.Registry.Parse.{
  RegistryEntry, mapping, RawRegistry, RegistryError, entry_fields, to_dict, required_field,
  Workspace, entry_of, check_entry, unless_error, parse_entries, parse_registry, stored_entries,
  rewritten, add_entry,
}
use filedge.Registry.Valid.{
  IsRegistry, unless_error-ok, parse_registry-IsRegistry, parse_registry-to_dict,
}

required_field-lookup :
    (key : String) (raw : Dict String) (o : Option String) (value : String)
    → Dict.lookup key raw ≡ o
    → required_field key raw ≡ ok value
    → o ≡ some value
unfolding required_field
required_field-lookup key raw none value e h = ground (arith, e)
required_field-lookup key raw (some v) value e h = ground (arith, e)

entry_of-same : (e x : RegistryEntry) → entry_of (mapping (entry_fields e)) ≡ ok x → x ≡ e
unfolding entry_of entry_fields Dict.lookup
entry_of-same e x h =
    let raw = entry_fields e in
    let (id, a, h1) = >>=-eq-ok (required_field "id" raw) _ h in
    let (folder, b, h2) = >>=-eq-ok (required_field "folder" raw) _ h1 in
    let (watched, c, h3) = >>=-eq-ok (required_field "watched_directory" raw) _ h2 in
    let (db, d, h4) = >>=-eq-ok (required_field "audit_db" raw) _ h3 in
    let (export, f, h5) = >>=-eq-ok (required_field "audit_export" raw) _ h4 in
    let id_same : e.id ≡ id = cc (required_field-lookup "id" raw (some e.id) id refl a) in
    let folder_same : e.folder ≡ folder =
      cc (required_field-lookup "folder" raw (some e.folder) folder refl b) in
    let watched_same : e.watched_directory ≡ watched =
      cc
        (required_field-lookup "watched_directory" raw (some e.watched_directory) watched refl c) in
    let db_same : e.audit_db ≡ db =
      cc (required_field-lookup "audit_db" raw (some e.audit_db) db refl d) in
    let export_same : e.audit_export ≡ export =
      cc (required_field-lookup "audit_export" raw (some e.audit_export) export refl f) in
    sym (ok-injective h5)
    ∙ sym (λ i. record {
      id = id_same i;
      folder = folder_same i;
      watched_directory = watched_same i;
      audit_db = db_same i;
      audit_export = export_same i;
    })

module _ (workspace : Option Workspace) where
  parse_entries-same :
      (entries parsed : List RegistryEntry) (seen : List String) (owners : Dict String)
      → parse_entries workspace (map (λ e. mapping (entry_fields e)) entries) seen owners
        ≡ ok parsed
      → parsed ≡ entries
  unfolding parse_entries
  parse_entries-same [] parsed seen owners h = sym (ok-injective h)
  parse_entries-same (e ∷ entries) parsed seen owners h =
      let (x, given, h1) = >>=-eq-ok (entry_of (mapping (entry_fields e))) _ h in
      let (rest, checked, h2) =
        >>=-eq-ok
          (unless_error (check_entry workspace seen owners x) (
            parse_entries workspace (map (λ e. mapping (entry_fields e)) entries) (x.id ∷ seen)
              (Dict.insert x.audit_db x.id owners)))
          _ h1 in
      let (fine, parsed_rest) = unless_error-ok workspace _ _ rest checked in
      sym (ok-injective h2)
      ∙ ap (λ y. y ∷ rest) (entry_of-same e x given)
      ∙ ap (λ l. e ∷ l) (parse_entries-same entries rest _ _ parsed_rest)

  parse_to_dict-same :
      (entries parsed : List RegistryEntry)
      → parse_registry workspace (to_dict entries) ≡ ok parsed
      → parsed ≡ entries
  unfolding parse_registry to_dict
  parse_to_dict-same entries parsed h = parse_entries-same entries parsed [] [] h

-- What a successful `add_entry` leaves.
abbrev pub Extends :
    Workspace
    → Option RawRegistry
    → RegistryEntry
    → Option RawRegistry
    → List RegistryEntry
    → Type 0
Extends workspace file entry file' entries =
    (old : List RegistryEntry) × (stored_entries (some workspace) file ≡ ok old)
    × (entries ≡ old ++ entry ∷ [])
    × IsRegistry (some workspace) entries
    × (stored_entries (some workspace) file' ≡ ok entries)

-- An entry that is added comes after the entries that the file held, which are kept as they were;
-- the file then holds a Registry in which ids and audit databases are different, and is read back
-- as just these entries.
pub add_entry-Extends :
    (workspace : Workspace) (file file' : Option RawRegistry) (entry : RegistryEntry)
    (entries : List RegistryEntry)
    → add_entry workspace file entry ≡ (file', ok entries)
    → Extends workspace file entry file' entries
unfolding add_entry stored_entries
add_entry-Extends workspace file file' entry entries h =
    let valid =
      ap (λ (p : Option RawRegistry × Result RegistryError (List RegistryEntry)). p.1) h in
    let (old, stored, validated) =
      >>=-eq-ok (stored_entries (some workspace) file)
        (λ old. parse_registry (some workspace) (to_dict (old ++ entry ∷ []))) valid in
    let written : some (to_dict entries) ≡ file' =
      sym (ap (rewritten file) valid)
      ∙ ap (λ (p : Option RawRegistry × Result RegistryError (List RegistryEntry)). p.0) h in
    (
      old,
      stored,
      parse_to_dict-same (some workspace) (old ++ entry ∷ []) entries validated,
      parse_registry-IsRegistry (some workspace) (to_dict (old ++ entry ∷ [])) entries validated,
      ap (stored_entries (some workspace)) (sym written)
          ∙ parse_registry-to_dict (some workspace) (to_dict (old ++ entry ∷ [])) entries validated,
    )
