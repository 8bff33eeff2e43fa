-- ===== src/Pipeline/Kept.antt =====
-- What `register_files` (filedge/file_registration.py) leaves alone: the rows that are there.
use filedge.Base.{
  ℕ, String, ◌≡◌, refl, ◌∙◌, ap, subst, ◌≢◌, false, Option, none, some, List, [], ◌∷◌, map,
  contains, All, arith, Bool-cases, inl, inr, ◌⊎◌, eq_iff, ◌==◌,
}
use filedge.Base.Dict
use filedge.Base.Dict.{Dict, lookup-insert, lookup-nil}
use filedge.Base.Result.{Result, ok, ◌>>=◌, >>=-eq-ok, ok-injective}
use filedge.Audit.Record.{FileState, pending, processing, committed, failed, FileRecord, AuditTable}
use filedge.Audit.Store.{find_file_by_hash, claim_processing, mark_failed}
use filedge.Audit.States.{get_hash_states_lem}
use filedge.Audit.Consistency.{IsConsistent}
use filedge.Audit.Lifecycle.{Kept, Kept-insert}
use filedge.Load.Config.{ManifestPolicy}
use filedge.Pipeline.Manifest.{ManifestResult}
use filedge.Pipeline.Register.{
  SourceFile, Registering, apply_policy, noted, register_new, register_file, register_all,
  fail_pre_load, add_candidate, sort_file, sort_all, begin, register_files,
}
use filedge.Pipeline.Outcome.{find-mark_other, claimed-other}

module _ (tick : ℕ → ℕ) (policy : ManifestPolicy) (watched_dir : String) (run_id : Option String)
    (discover : String → Result String ManifestResult) (describe : ManifestResult → String)
    (r : FileRecord) (s : FileState) where
  -- The row is there, and no manifest error stands under its hash.
  record Safe (g : Registering) : Type 0 where
    pub kept : Kept r g.audit
    pub clean : Dict.lookup r.content_hash g.manifest_errors ≡ none

  -- The row's state is known to the loops, or none of the Files has its hash.
  Knows : List SourceFile → Registering → Type 0
  Knows files g =
      (Dict.lookup r.content_hash g.hash_states ≡ some s)
      ⊎ All (λ (f : SourceFile). (f.content_hash == r.content_hash) ≡ false) files

  Knows-rest :
      (f : SourceFile) (files : List SourceFile) (g : Registering)
      → Knows (f ∷ files) g
      → Knows files g
  unfolding Knows
  Knows-rest f files g (inl k) = inl k
  Knows-rest f files g (inr (d, ds)) = inr ds

  new-differs :
      (f : SourceFile) (files : List SourceFile) (g : Registering)
      → Knows (f ∷ files) g
      → Dict.lookup f.content_hash g.hash_states ≡ none
      → (f.content_hash == r.content_hash) ≡ false
  unfolding Knows
  new-differs f files g (inr (d, ds)) unknown = d
  new-differs f files g (inl k) unknown = elim (Bool-cases (f.content_hash == r.content_hash)) [
    | inr other ↦ other
    | inl same ↦ cc (
      unknown,
      k,
      ap (λ h. Dict.lookup h g.hash_states) ((eq_iff f.content_hash r.content_hash).0 same),
    )
  ]

  noted-clean :
      (h : String) (e : Option String) (errors : Dict String)
      → (h == r.content_hash) ≡ false
      → Dict.lookup r.content_hash errors ≡ none
      → Dict.lookup r.content_hash (noted tick policy watched_dir discover describe h e errors)
        ≡ none
  unfolding noted
  noted-clean h none errors other clean = clean
  noted-clean h (some e) errors other clean =
      lookup-insert r.content_hash h e errors ∙ rw other clean

  register_new-Safe :
      (f : SourceFile) (files : List SourceFile) (g : Registering) (found : _)
      → (f.content_hash == r.content_hash) ≡ false
      → Safe g
      → Knows (f ∷ files) g
      → let q = register_new tick policy watched_dir discover describe f g found in
        Safe q × Knows files q
  unfolding register_new Knows
  register_new-Safe f files g (metadata, e) other safe knows = (
    record {
      kept =
          Kept-insert g.now g.audit f.basename f.content_hash (some watched_dir) metadata r
            safe.kept;
      clean = noted-clean f.content_hash e g.manifest_errors other safe.clean;
    },
    later knows,
  )
    where
      later :
          Knows (f ∷ files) g
          → Knows files (register_new tick policy watched_dir discover describe f g (metadata, e))
      later (inl k) =
          inl (lookup-insert r.content_hash f.content_hash pending g.hash_states ∙ rw other k)
      later (inr (d, ds)) = inr ds

  register_all-Safe :
      (files : List SourceFile) (g q : Registering)
      → register_all tick policy watched_dir discover describe files g ≡ ok q
      → Safe g
      → Knows files g
      → Safe q
  unfolding register_all register_file
  register_all-Safe [] g q e safe knows = subst Safe (ok-injective e) safe
  register_all-Safe (f ∷ files) g q e safe knows =
      let (p, head, rest) =
        >>=-eq-ok (register_file tick policy watched_dir discover describe f g) _ e in
      let (safe', knows') = step (Dict.lookup f.content_hash g.hash_states) refl p head in
      register_all-Safe files p q rest safe' knows'
    where
      step :
          (o : Option FileState)
          → Dict.lookup f.content_hash g.hash_states ≡ o
          → (p : Registering)
          → elim o as (λ _. Result String Registering) [
            | some state ↦ ok g
            | none ↦
                apply_policy tick policy watched_dir discover describe f
                >>= (λ found. ok (register_new tick policy watched_dir discover describe f g found))
          ]
            ≡ ok p
          → Safe p × Knows files p
      step (some state) known p h =
          subst (λ (x : Registering). Safe x × Knows files x) (ok-injective h)
            (safe, Knows-rest f files g knows)
      step none unknown p h =
          let (found, _, same) =
            >>=-eq-ok (apply_policy tick policy watched_dir discover describe f) _ h in
          subst (λ (x : Registering). Safe x × Knows files x) (ok-injective same)
            (register_new-Safe f files g found (new-differs f files g knows unknown) safe knows)

  fail_pre_load-Safe :
      (f : SourceFile) (error : String) (g : Registering)
      → f.content_hash ≢ r.content_hash
      → Safe g
      → Safe (fail_pre_load tick run_id f error g)
  unfolding fail_pre_load find_file_by_hash mark_failed
  fail_pre_load-Safe f error g other safe = record {
    kept =
        find-mark_other _ f.content_hash r.content_hash
          (claim_processing g.now g.audit f.content_hash none run_id).0 (λ q. refl) other
        ∙ unfold find_file_by_hash in
          claimed-other g.now g.audit f.content_hash r.content_hash none run_id other ∙ safe.kept;
    clean = safe.clean;
  }

  add_candidate-Safe :
      (f : SourceFile) (o : Option FileState) (g : Registering)
      → Safe g
      → Safe (add_candidate tick run_id f o g)
  unfolding add_candidate
  add_candidate-Safe f none g safe = safe
  add_candidate-Safe f (some pending) g safe = record { kept = safe.kept; clean = safe.clean }
  add_candidate-Safe f (some processing) g safe = safe
  add_candidate-Safe f (some committed) g safe = safe
  add_candidate-Safe f (some failed) g safe = record { kept = safe.kept; clean = safe.clean }

  sort_all-Safe :
      (files : List SourceFile) (g : Registering) → Safe g → Safe (sort_all tick run_id files g)
  unfolding sort_all sort_file
  sort_all-Safe [] g safe = safe
  sort_all-Safe (f ∷ files) g safe =
      sort_all-Safe files _ (step (Dict.lookup f.content_hash g.manifest_errors) refl)
    where
      step :
          (o : Option String)
          → Dict.lookup f.content_hash g.manifest_errors ≡ o
          → Safe (elim o as (λ _. Registering) [
            | some error ↦ fail_pre_load tick run_id f error g
            | none ↦ add_candidate tick run_id f (Dict.lookup f.content_hash g.hash_states) g
          ])
      step none e = add_candidate-Safe f _ g safe
      step (some error) e =
          fail_pre_load-Safe f error g
            (λ same. cc (e, safe.clean, ap (λ h. Dict.lookup h g.manifest_errors) same)) safe

  no-hash :
      (files : List SourceFile)
      → contains r.content_hash (map (λ (f : SourceFile). f.content_hash) files) ≡ false
      → All (λ (f : SourceFile). (f.content_hash == r.content_hash) ≡ false) files
  no-hash [] e = tt
  no-hash (f ∷ files) e = (ground arith, no-hash files (ground arith))

  -- Registration leaves every row that was there as it was.
  pub register_files-keeps :
      (now : ℕ) (audit : AuditTable) (files : List SourceFile) (q : Registering)
      → register_files tick policy watched_dir run_id discover describe now audit files ≡ ok q
      → IsConsistent audit
      → r.state ≡ s
      → Kept r audit
      → Kept r q.audit
  unfolding register_files begin Knows
  register_files-keeps now audit files q e c state kept =
      let (p, head, rest) = >>=-eq-ok _ _ e in
      let start : Safe (begin now audit files) = record {
        kept = kept;
        clean = lookup-nil r.content_hash;
      } in
      let safe = register_all-Safe files (begin now audit files) p head start knows in
      (subst Safe (ok-injective rest) (sort_all-Safe files p safe)).kept
    where
      knows : Knows files (begin now audit files)
      knows =
          elim (Bool-cases
            (contains r.content_hash (map (λ (f : SourceFile). f.content_hash) files))) [
              | inr absent ↦ inr (no-hash files absent)
              | inl there ↦ inl (
                  get_hash_states_lem audit _ r.content_hash c.unique
                  ∙ rw (there, kept) (ap some state))
            ]
