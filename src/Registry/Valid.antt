-- ===== src/Registry/Valid.antt =====
-- What `parse_registry` of filedge/pipeline_registry.py accepts, and the round trip of a Registry
-- through its file.
use filedge.Base.{
  String, ◌≡◌, refl, ◌∙◌, sym, ap, subst, true, false, Option, none, some, List, [], ◌∷◌, ◌==◌,
  if◌then◌else◌, contains, map, arith, eq_iff, eq_refl, All, ◌≢◌, ◌⊎◌, inl, inr, ◌<>◌, Bool-cases,
}
use Prim.Native.String.{len, slice}
use text.Mathlib.Text.{starts_with}
use text.Mathlib.TextEquality.{starts_with_iff}
use text.Mathlib.TextLemmas.{append_assoc}
use text.Mathlib.TextPositions.{len-append, slice-append_right, starts_with-append}
use filedge.Base.Dict
use filedge.Base.Dict.{Dict, lookup-insert, lookup-nil}
use filedge.Base.Result.{Result, ok, err, >>=-eq-ok, ok-injective}
use filedge.Registry.Reference.{after_prefix}
use filedge.Registry.Parse.{
  RegistryEntry, RawEntry, mapping, RawRegistry, registry, not_a_mapping, RegistryError,
  entry_fields, to_dict, is_placeholder, required_field, Workspace, entry_of, check_folder,
  check_entry, unless_error, parse_entries, parse_registry,
}

-- No value is in the list twice.
abbrev pub Distinct : List String → Type 0
Distinct [] = Unit
Distinct (x ∷ xs) = (contains x xs ≡ false) × Distinct xs

abbrev pub ids : List RegistryEntry → List String
ids entries = map (λ (e : RegistryEntry). e.id) entries

abbrev pub audit_dbs : List RegistryEntry → List String
audit_dbs entries = map (λ (e : RegistryEntry). e.audit_db) entries

-- `env:` or `secrets:` before a text that is not empty, which for `secrets:` begins with a slash.
abbrev pub Refers : String → Type 0
Refers value =
    ((name : String) × (value ≡ "env:" <> name) × (name ≢ ""))
    ⊎ ((path : String) × (value ≡ "secrets:/" <> path))

-- In a workspace the folder is there, and a pipeline.yaml in it.
abbrev pub InPlace : Option Workspace → RegistryEntry → Type 0
InPlace none e = Unit
InPlace (some workspace) e =
    (workspace.is_folder e.folder ≡ true) × (workspace.has_config e.folder ≡ true)

-- What `value[len(prefix):]` gives of a text that begins so.
after_prefix-append : (prefix rest : String) → after_prefix (prefix <> rest) prefix ≡ rest
unfolding after_prefix
after_prefix-append prefix rest =
    ap (slice (prefix <> rest) (len prefix)) (len-append prefix rest)
    ∙ slice-append_right prefix rest

is_placeholder-Refers : (value : String) → is_placeholder value ≡ true → Refers value
unfolding is_placeholder
is_placeholder-Refers value h = elim (Bool-cases (starts_with value "env:")) [
  | inl env ↦ elim (Bool-cases (after_prefix value "env:" == "")) [
    | inl blank ↦ secrets (ground (arith, env, blank))
    | inr some_name ↦
        let (name, same) = (starts_with_iff value "env:").0 env in
        inl (
          name,
          sym same,
          λ e. cc (
            some_name,
            (eq_iff (after_prefix value "env:") "").1
                (ap (λ v. after_prefix v "env:") (sym same) ∙ after_prefix-append "env:" name ∙ e),
          ),
        )
  ]
  | inr other ↦ secrets (ground (arith, other))
]
  where
    secrets : starts_with value "secrets:/" ≡ true → Refers value
    secrets there =
        let (path, same) = (starts_with_iff value "secrets:/").0 there in inr (path, sym same)

slash-given : (path : String) → (("/" <> path) == "") ≡ false
slash-given path = elim (Bool-cases (("/" <> path) == "")) [
  | inr given ↦ given
  | inl blank ↦
      let same = ap len ((eq_iff ("/" <> path) "").0 blank) in
      absurd (omega (arith, sym (len-append "/" path) ∙ same))
]

Refers-is_placeholder : (value : String) → Refers value → is_placeholder value ≡ true
unfolding is_placeholder
Refers-is_placeholder value (inl (name, e, some_name)) =
    let there : starts_with value "env:" ≡ true =
      ap (λ v. starts_with v "env:") e ∙ starts_with-append "env:" name in
    let rest : after_prefix value "env:" ≡ name =
      ap (λ v. after_prefix v "env:") e ∙ after_prefix-append "env:" name in
    ground (arith, there, rest, eq_iff name "", some_name)
Refers-is_placeholder value (inr (path, e)) =
    let there : starts_with value "secrets:/" ≡ true =
      ap (λ v. starts_with v "secrets:/") e ∙ starts_with-append "secrets:/" path in
    let rest : after_prefix value "secrets:" ≡ "/" <> path =
      ap (λ v. after_prefix v "secrets:") (e ∙ append_assoc "secrets:" "/" path)
      ∙ after_prefix-append "secrets:" ("/" <> path) in
    let given : (after_prefix value "secrets:" == "") ≡ false =
      ap (λ v. v == "") rest ∙ slash-given path in
    ground (arith, there, given)

check_folder-InPlace :
    (workspace : Option Workspace) (e : RegistryEntry)
    → check_folder workspace e ≡ none
    → InPlace workspace e
unfolding check_folder
check_folder-InPlace none e h = tt
check_folder-InPlace (some workspace) e h = (ground arith, ground arith)

InPlace-check_folder :
    (workspace : Option Workspace) (e : RegistryEntry)
    → InPlace workspace e
    → check_folder workspace e ≡ none
unfolding check_folder
InPlace-check_folder none e h = refl
InPlace-check_folder (some workspace) e (there, configured) = ground arith

-- An entry by itself: every field is given, the audit database is a reference, and the folder is
-- there with its configuration.
pub record IsSound (workspace : Option Workspace) (e : RegistryEntry) : Type 0 where
  pub complete :
      ((e.id == "") ≡ false)
      × ((e.folder == "") ≡ false)
      × ((e.watched_directory == "") ≡ false)
      × ((e.audit_db == "") ≡ false)
      × ((e.audit_export == "") ≡ false)
  pub placeholder : Refers e.audit_db
  pub folder : InPlace workspace e

-- A Registry of which each Pipeline has its own id and its own audit database.
pub record IsRegistry (workspace : Option Workspace) (entries : List RegistryEntry) : Type 0 where
  pub sound : All (IsSound workspace) entries
  pub distinct_ids : Distinct (ids entries)
  pub distinct_audit_dbs : Distinct (audit_dbs entries)

module _ (workspace : Option Workspace) where
  -- What the loop accepts after it has seen these ids and these audit databases.
  Accepted : List String → Dict String → List RegistryEntry → Type 0
  Accepted seen owners [] = Unit
  Accepted seen owners (e ∷ entries) =
      (contains e.id seen ≡ false)
      × (Dict.lookup e.audit_db owners ≡ none)
      × Accepted (e.id ∷ seen) (Dict.insert e.audit_db e.id owners) entries

  required_field-ok :
      (key : String) (raw : Dict String) (value : String)
      → required_field key raw ≡ ok value
      → (value == "") ≡ false
  unfolding required_field
  required_field-ok key raw value e = go (Dict.lookup key raw) e
    where
      go :
          (o : Option String)
          → elim o as (λ _. Result RegistryError String) [
            | none ↦ err (RegistryError.missing_field key)
            | some v ↦ if v == "" then err (RegistryError.missing_field key) else ok v
          ]
            ≡ ok value
          → (value == "") ≡ false
      go none f = cc
      go (some v) f = ground (arith)

  entry_of_complete :
      (raw : RawEntry) (e : RegistryEntry)
      → entry_of raw ≡ ok e
      → ((e.id == "") ≡ false)
        × ((e.folder == "") ≡ false)
        × ((e.watched_directory == "") ≡ false)
        × ((e.audit_db == "") ≡ false)
        × ((e.audit_export == "") ≡ false)
  unfolding entry_of
  entry_of_complete (mapping raw) e h =
      let (id, a, h1) = >>=-eq-ok (required_field "id" raw) _ h in
      let (folder, b, h2) = >>=-eq-ok (required_field "folder" raw) _ h1 in
      let (watched, c, h3) = >>=-eq-ok (required_field "watched_directory" raw) _ h2 in
      let (db, d, h4) = >>=-eq-ok (required_field "audit_db" raw) _ h3 in
      let (export, f, h5) = >>=-eq-ok (required_field "audit_export" raw) _ h4 in
      subst
        (λ (x : RegistryEntry).
          ((x.id == "") ≡ false)
          × ((x.folder == "") ≡ false)
          × ((x.watched_directory == "") ≡ false)
          × ((x.audit_db == "") ≡ false)
          × ((x.audit_export == "") ≡ false))
        (ok-injective h5)
        (
          required_field-ok "id" raw id a,
          required_field-ok "folder" raw folder b,
          required_field-ok "watched_directory" raw watched c,
          required_field-ok "audit_db" raw db d,
          required_field-ok "audit_export" raw export f,
        )
  entry_of_complete RawEntry.no_mapping e h = cc

  check_entry-none :
      (seen : List String) (owners : Dict String) (e : RegistryEntry)
      → check_entry workspace seen owners e ≡ none
      → (contains e.id seen ≡ false)
        × (is_placeholder e.audit_db ≡ true)
        × (Dict.lookup e.audit_db owners ≡ none)
        × (check_folder workspace e ≡ none)
  unfolding check_entry
  check_entry-none seen owners e h = ground arith

  entry_of-fields :
      (e : RegistryEntry) → IsSound workspace e → entry_of (mapping (entry_fields e)) ≡ ok e
  unfolding entry_of entry_fields required_field Dict.lookup
  entry_of-fields e sound = let (a, b, c, d, f) = sound.complete in rw (a, b, c, d, f) refl

  check_entry-fine :
      (seen : List String) (owners : Dict String) (e : RegistryEntry)
      → IsSound workspace e
      → contains e.id seen ≡ false
      → Dict.lookup e.audit_db owners ≡ none
      → check_entry workspace seen owners e ≡ none
  unfolding check_entry
  check_entry-fine seen owners e sound fresh own = ground (
    arith,
    Refers-is_placeholder e.audit_db sound.placeholder,
    InPlace-check_folder workspace e sound.folder,
  )

  pub unless_error-ok :
      (o : Option RegistryError) (rest : Result RegistryError (List RegistryEntry))
      (entries : List RegistryEntry)
      → unless_error o rest ≡ ok entries
      → (o ≡ none) × (rest ≡ ok entries)
  unless_error-ok none rest entries h = (refl, h)
  unless_error-ok (some e) rest entries h = cc

  parse_entries-Accepted :
      (raws : List RawEntry) (seen : List String) (owners : Dict String)
      (entries : List RegistryEntry)
      → parse_entries workspace raws seen owners ≡ ok entries
      → All (IsSound workspace) entries × Accepted seen owners entries
  unfolding parse_entries Accepted
  parse_entries-Accepted [] seen owners entries h =
      subst (λ l. All (IsSound workspace) l × Accepted seen owners l) (ok-injective h) (tt, tt)
  parse_entries-Accepted (raw ∷ raws) seen owners entries h =
      let (e, given, h1) = >>=-eq-ok (entry_of raw) _ h in
      let (rest, checked, h2) =
        >>=-eq-ok
          (unless_error (check_entry workspace seen owners e)
            (parse_entries workspace raws (e.id ∷ seen) (Dict.insert e.audit_db e.id owners)))
          _ h1 in
      let (fine, parsed) = unless_error-ok _ _ rest checked in
      let (fresh, placed, own, folder) = check_entry-none seen owners e fine in
      let (sound, accepted) = parse_entries-Accepted raws _ _ rest parsed in
      subst (λ l. All (IsSound workspace) l × Accepted seen owners l) (ok-injective h2)
        (
          (
            record {
              complete = entry_of_complete raw e given;
              placeholder = is_placeholder-Refers e.audit_db placed;
              folder = check_folder-InPlace workspace e folder;
            },
            sound,
          ),
          (fresh, own, accepted),
        )

  parse_entries-fields :
      (entries : List RegistryEntry) (seen : List String) (owners : Dict String)
      → All (IsSound workspace) entries
      → Accepted seen owners entries
      → parse_entries workspace (map (λ e. mapping (entry_fields e)) entries) seen owners
        ≡ ok entries
  unfolding parse_entries Accepted
  parse_entries-fields [] seen owners sound accepted = refl
  parse_entries-fields (e ∷ entries) seen owners (here, sound) (fresh, own, accepted) =
      rw (entry_of-fields e here, check_entry-fine seen owners e here fresh own)
        (rw (parse_entries-fields entries _ _ sound accepted) refl)

  -- From the values seen to the values of each other.
  fresh_ids :
      (entries : List RegistryEntry) (seen : List String) (owners : Dict String) (j : String)
      → Accepted seen owners entries
      → contains j seen ≡ true
      → contains j (ids entries) ≡ false
  unfolding Accepted
  fresh_ids [] seen owners j accepted there = refl
  fresh_ids (e ∷ entries) seen owners j (fresh, own, accepted) there = ground (
    arith,
    eq_iff e.id j,
    fresh_ids entries (e.id ∷ seen) (Dict.insert e.audit_db e.id owners) j accepted,
  )

  fresh_audit_dbs :
      (entries : List RegistryEntry) (seen : List String) (owners : Dict String) (j owner : String)
      → Accepted seen owners entries
      → Dict.lookup j owners ≡ some owner
      → contains j (audit_dbs entries) ≡ false
  unfolding Accepted
  fresh_audit_dbs [] seen owners j owner accepted there = refl
  fresh_audit_dbs (e ∷ entries) seen owners j owner (fresh, own, accepted) there = ground (
    arith,
    eq_iff e.audit_db j,
    lookup-insert j e.audit_db e.id owners,
    fresh_audit_dbs entries (e.id ∷ seen) (Dict.insert e.audit_db e.id owners) j owner accepted,
  )

  Accepted-Distinct :
      (entries : List RegistryEntry) (seen : List String) (owners : Dict String)
      → Accepted seen owners entries
      → Distinct (ids entries) × Distinct (audit_dbs entries)
  unfolding Accepted
  Accepted-Distinct [] seen owners accepted = (tt, tt)
  Accepted-Distinct (e ∷ entries) seen owners (fresh, own, accepted) =
      let (rest_ids, rest_dbs) = Accepted-Distinct entries _ _ accepted in
      (
        (fresh_ids entries (e.id ∷ seen) _ e.id accepted (ground (arith, eq_refl e.id)), rest_ids),
        (
          fresh_audit_dbs entries (e.id ∷ seen) (Dict.insert e.audit_db e.id owners) e.audit_db e.id
              accepted
              (ground (arith, eq_refl e.audit_db, lookup-insert e.audit_db e.audit_db e.id owners)),
          rest_dbs,
        ),
      )

  parse_registry-Accepted :
      (raw : RawRegistry) (entries : List RegistryEntry)
      → parse_registry workspace raw ≡ ok entries
      → All (IsSound workspace) entries × Accepted [] [] entries
  unfolding parse_registry
  parse_registry-Accepted not_a_mapping entries h = cc
  parse_registry-Accepted (registry none pipelines) entries h = cc
  parse_registry-Accepted (registry (some version) none) entries h = absurd (ground arith)
  parse_registry-Accepted (registry (some version) (some raws)) entries h =
      parse_entries-Accepted raws [] [] entries (ground arith)

  -- Whatever the file holds, the entries of a Registry that is accepted have no empty field, name
  -- their audit database by env: with a name or secrets: with an absolute path, and have different
  -- ids and different audit databases; where a workspace is given, the folder of each is there with
  -- its pipeline.yaml.
  pub parse_registry-IsRegistry :
      (raw : RawRegistry) (entries : List RegistryEntry)
      → parse_registry workspace raw ≡ ok entries
      → IsRegistry workspace entries
  parse_registry-IsRegistry raw entries h =
      let (sound, accepted) = parse_registry-Accepted raw entries h in
      let (distinct_ids, distinct_dbs) = Accepted-Distinct entries [] [] accepted in
      record { sound = sound; distinct_ids = distinct_ids; distinct_audit_dbs = distinct_dbs }

  -- An accepted Registry is read back from its own file.
  pub parse_registry-to_dict :
      (raw : RawRegistry) (entries : List RegistryEntry)
      → parse_registry workspace raw ≡ ok entries
      → parse_registry workspace (to_dict entries) ≡ ok entries
  unfolding to_dict
  parse_registry-to_dict raw entries h =
      let (sound, accepted) = parse_registry-Accepted raw entries h in
      unfold parse_registry in parse_entries-fields entries [] [] sound accepted
