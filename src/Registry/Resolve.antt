-- ===== src/Registry/Resolve.antt =====
-- `resolve_pipeline` of filedge/pipeline_resolution.py. Joining paths is a parameter.
use filedge.Base.{
  String, ◌≡◌, refl, ◌∙◌, sym, ap, true, false, Option, none, some, List, [], ◌∷◌, ◌==◌, contains,
  if◌then◌else◌, arith, eq_iff, Bool-cases, ◌⊎◌, inl, inr,
}
use filedge.Base.Result.{Result, ok, err, ◌>>=◌, >>=-eq-ok, ok-injective}
use filedge.Registry.Reference.{ReferenceError, resolve_reference}
use filedge.Registry.Parse.{RegistryEntry, RawRegistry, RegistryError, Workspace, parse_registry}
use filedge.Registry.Valid.{Distinct, audit_dbs, parse_registry-IsRegistry}

pub record ResolvedPipeline : Type 0 where
  pub id : String
  pub config_path : String
  pub watched_directory : String
  pub audit_db_url : String
  pub audit_export : String

pub data ResolveError : Type 0 where
  registry_error : RegistryError → ResolveError
  no_registry_file : ResolveError
  pipeline_not_found : String → ResolveError
  reference_error : ReferenceError → ResolveError

-- The loop over the entries: the first with the id.
unfoldable pub find_entry : String → List RegistryEntry → Option RegistryEntry
find_entry pipeline_id [] = none
find_entry pipeline_id (e ∷ entries) =
    let rest = find_entry pipeline_id entries in if e.id == pipeline_id then some e else rest

module _ (environ secrets_text : String → Option String) (join : String → String → String)
    (root : String) where
  abbrev pub or_reference_error : {A : Type 0} → Result ReferenceError A → Result ResolveError A
  or_reference_error (ok a) = ok a
  or_reference_error (err e) = err (reference_error e)

  unfoldable pub resolve_entry : RegistryEntry → Result ResolveError ResolvedPipeline
  resolve_entry e = do
    url ← or_reference_error (resolve_reference environ secrets_text e.audit_db)
    ok (record {
      id = e.id;
      config_path = join (join root e.folder) "pipeline.yaml";
      watched_directory = e.watched_directory;
      audit_db_url = url;
      audit_export = e.audit_export;
    })

  unfoldable pub resolve_found :
      String → Option RegistryEntry → Result ResolveError ResolvedPipeline
  unfolding resolve_entry
  resolve_found pipeline_id none = err (pipeline_not_found pipeline_id)
  resolve_found pipeline_id (some e) = resolve_entry e

  unfoldable pub resolve_loaded :
      String → Result RegistryError (List RegistryEntry) → Result ResolveError ResolvedPipeline
  unfolding resolve_found find_entry
  resolve_loaded pipeline_id (err e) = err (registry_error e)
  resolve_loaded pipeline_id (ok entries) =
      resolve_found pipeline_id (find_entry pipeline_id entries)

  -- `load_registry`, and the search.
  unfoldable pub resolve_pipeline :
      Workspace → Option RawRegistry → String → Result ResolveError ResolvedPipeline
  unfolding resolve_loaded
  resolve_pipeline workspace none pipeline_id = err no_registry_file
  resolve_pipeline workspace (some raw) pipeline_id =
      resolve_loaded pipeline_id (parse_registry (some workspace) raw)

find_entry-here :
    (i : String) (x e : RegistryEntry) (entries : List RegistryEntry)
    → find_entry i (x ∷ entries) ≡ some e
    → (x.id == i) ≡ true
    → x ≡ e
unfolding find_entry
find_entry-here i x e entries h here = let found : some x ≡ some e = rw here at h in cc found

find_entry-later :
    (i : String) (x e : RegistryEntry) (entries : List RegistryEntry)
    → find_entry i (x ∷ entries) ≡ some e
    → (x.id == i) ≡ false
    → find_entry i entries ≡ some e
unfolding find_entry
find_entry-later i x e entries h other = rw other at h

-- The audit database of an entry that is found is one of the Registry's.
find_entry-contains :
    (i : String) (entries : List RegistryEntry) (e : RegistryEntry)
    → find_entry i entries ≡ some e
    → contains e.audit_db (audit_dbs entries) ≡ true
find_entry-contains i [] e h = unfold find_entry in cc
find_entry-contains i (x ∷ entries) e h = elim (Bool-cases (x.id == i)) [
  | inl here ↦
      let same = ap (λ (y : RegistryEntry). y.audit_db) (find_entry-here i x e entries h here) in
      ground (arith, eq_iff x.audit_db e.audit_db, same)
  | inr other ↦
      ground (arith, find_entry-contains i entries e (find_entry-later i x e entries h other))
]

clash :
    {A : Type 0} (x f : RegistryEntry) (entries : List RegistryEntry) (j : String)
    → contains x.audit_db (audit_dbs entries) ≡ false
    → find_entry j entries ≡ some f
    → x.audit_db ≡ f.audit_db
    → A
clash x f entries j fresh found same =
    let there : contains x.audit_db (audit_dbs entries) ≡ true =
      ap (λ d. contains d (audit_dbs entries)) same ∙ find_entry-contains j entries f found in
    cc

-- Two ids whose entries share an audit database are one id.
find_entry-audit_db :
    (i j : String) (entries : List RegistryEntry) (e f : RegistryEntry)
    → Distinct (audit_dbs entries)
    → find_entry i entries ≡ some e
    → find_entry j entries ≡ some f
    → e.audit_db ≡ f.audit_db
    → i ≡ j
find_entry-audit_db i j [] e f distinct h g same = unfold find_entry in cc
find_entry-audit_db i j (x ∷ entries) e f (fresh, distinct) h g same =
    go (λ later_h later_g. find_entry-audit_db i j entries e f distinct later_h later_g same)
      (Bool-cases (x.id == i)) (Bool-cases (x.id == j))
  where
    db : {y : RegistryEntry} → x ≡ y → x.audit_db ≡ y.audit_db
    db same_entry = ap (λ (z : RegistryEntry). z.audit_db) same_entry

    go :
        (find_entry i entries ≡ some e → find_entry j entries ≡ some f → i ≡ j)
        → ((x.id == i) ≡ true) ⊎ ((x.id == i) ≡ false)
        → ((x.id == j) ≡ true) ⊎ ((x.id == j) ≡ false)
        → i ≡ j
    go both (inl here) (inl there) = sym ((eq_iff x.id i).0 here) ∙ (eq_iff x.id j).0 there
    go both (inl here) (inr there) =
        clash x f entries j fresh (find_entry-later j x f entries g there)
          (db (find_entry-here i x e entries h here) ∙ same)
    go both (inr here) (inl there) =
        clash x e entries i fresh (find_entry-later i x e entries h here)
          (db (find_entry-here j x f entries g there) ∙ sym same)
    go both (inr here) (inr there) =
        both (find_entry-later i x e entries h here) (find_entry-later j x f entries g there)

-- The entry that a Pipeline id has in the file of a Registry.
abbrev pub EntryOf : Workspace → RawRegistry → String → RegistryEntry → Type 0
EntryOf workspace raw pipeline_id e =
    (entries : List RegistryEntry) × (parse_registry (some workspace) raw ≡ ok entries)
    × (find_entry pipeline_id entries ≡ some e)

-- The id that is searched for is the entry's.
find_entry-id :
    (i : String) (entries : List RegistryEntry) (e : RegistryEntry)
    → find_entry i entries ≡ some e
    → e.id ≡ i
find_entry-id i [] e h = unfold find_entry in cc
find_entry-id i (x ∷ entries) e h = elim (Bool-cases (x.id == i)) [
  | inl here ↦
      ap (λ (y : RegistryEntry). y.id) (sym (find_entry-here i x e entries h here))
      ∙ (eq_iff x.id i).0 here
  | inr other ↦ find_entry-id i entries e (find_entry-later i x e entries h other)
]

or_reference_error-ok :
    (environ secrets_text : String → Option String) (join : String → String → String)
    (root : String) {A : Type 0} (r : Result ReferenceError A) (a : A)
    → or_reference_error environ secrets_text join root r ≡ ok a
    → r ≡ ok a
or_reference_error-ok environ secrets_text join root (ok b) a h = cc
or_reference_error-ok environ secrets_text join root (err e) a h = cc

module _ (environ secrets_text : String → Option String) (join : String → String → String)
    (root : String) (workspace : Workspace) (raw : RawRegistry) where
  -- What a Pipeline is resolved to: the entry's own values, its configuration under the workspace
  -- root, and the text that its audit database reference stands for.
  pub record ResolvedFrom (e : RegistryEntry) (p : ResolvedPipeline) : Type 0 where
    pub id : p.id ≡ e.id
    pub config_path : p.config_path ≡ join (join root e.folder) "pipeline.yaml"
    pub watched_directory : p.watched_directory ≡ e.watched_directory
    pub audit_export : p.audit_export ≡ e.audit_export
    pub audit_db_url : resolve_reference environ secrets_text e.audit_db ≡ ok p.audit_db_url

  resolve_entry-ResolvedFrom :
      (e : RegistryEntry) (p : ResolvedPipeline)
      → resolve_entry environ secrets_text join root e ≡ ok p
      → ResolvedFrom e p
  unfolding resolve_entry
  resolve_entry-ResolvedFrom e p h =
      let (url, found, rest) = >>=-eq-ok _ _ h in
      let same = ok-injective rest in
      record {
        id = ap (λ (x : ResolvedPipeline). x.id) (sym same);
        config_path = ap (λ (x : ResolvedPipeline). x.config_path) (sym same);
        watched_directory = ap (λ (x : ResolvedPipeline). x.watched_directory) (sym same);
        audit_export = ap (λ (x : ResolvedPipeline). x.audit_export) (sym same);
        audit_db_url =
            or_reference_error-ok environ secrets_text join root _ url found
            ∙ ap (λ (x : ResolvedPipeline). ok x.audit_db_url) same;
      }

  -- Of two Pipelines that are resolved against one Registry, each is resolved from an entry of it
  -- that has its id: it has the entry's watched directory and audit export, the pipeline.yaml of
  -- the entry's folder, and the URL that the entry's audit database reference stands for. They are
  -- one Pipeline if their entries refer to one audit database.
  pub resolve_pipeline-audit_db :
      (i j : String) (p q : ResolvedPipeline)
      → resolve_pipeline environ secrets_text join root workspace (some raw) i ≡ ok p
      → resolve_pipeline environ secrets_text join root workspace (some raw) j ≡ ok q
      → (e : RegistryEntry) × (f : RegistryEntry) × EntryOf workspace raw i e
        × EntryOf workspace raw j f
        × ResolvedFrom e p
        × ResolvedFrom f q
        × (p.id ≡ i)
        × (q.id ≡ j)
        × (e.audit_db ≡ f.audit_db → p.id ≡ q.id)
  resolve_pipeline-audit_db i j p q h g =
      let (e, (entries, parsed, found), from) = resolved i p h in
      let (f, (others, parsed', found'), from') = resolved j q g in
      let id_p = from.id ∙ find_entry-id i entries e found in
      let id_q = from'.id ∙ find_entry-id j others f found' in
      let same : entries ≡ others = ok-injective (sym parsed ∙ parsed') in
      (
        e,
        f,
        (entries, parsed, found),
        (others, parsed', found'),
        from,
        from',
        id_p,
        id_q,
        λ shared.
            id_p
            ∙ find_entry-audit_db i j entries e f
                (parse_registry-IsRegistry (some workspace) raw entries parsed).distinct_audit_dbs
                found (ap (find_entry j) same ∙ found') shared
            ∙ sym id_q,
      )
    where
      in_entries :
          (i : String) (p : ResolvedPipeline) (entries : List RegistryEntry)
          (o : Option RegistryEntry)
          → find_entry i entries ≡ o
          → resolve_found environ secrets_text join root i o ≡ ok p
          → (e : RegistryEntry) × (find_entry i entries ≡ some e) × ResolvedFrom e p
      in_entries i p entries none found h = unfold resolve_found in cc
      in_entries i p entries (some e) found h =
          (e, found, resolve_entry-ResolvedFrom e p (unfold resolve_found in h))

      loaded :
          (i : String) (p : ResolvedPipeline) (r : Result RegistryError (List RegistryEntry))
          → parse_registry (some workspace) raw ≡ r
          → resolve_loaded environ secrets_text join root i r ≡ ok p
          → (e : RegistryEntry) × EntryOf workspace raw i e × ResolvedFrom e p
      loaded i p (err x) parsed h = unfold resolve_loaded in cc
      loaded i p (ok entries) parsed h =
          let (e, found, from) =
            in_entries i p entries (find_entry i entries) refl (unfold resolve_loaded in h) in
          (e, (entries, parsed, found), from)

      resolved :
          (i : String) (p : ResolvedPipeline)
          → resolve_pipeline environ secrets_text join root workspace (some raw) i ≡ ok p
          → (e : RegistryEntry) × EntryOf workspace raw i e × ResolvedFrom e p
      resolved i p h =
          loaded i p (parse_registry (some workspace) raw) refl (unfold resolve_pipeline in h)
