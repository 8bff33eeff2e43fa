-- ===== src/Pipeline/Commits.antt =====
-- What a Run (filedge/pipeline.py) does to the audit table before it loads anything: it marks no
-- File COMMITTED (filedge/file_registration.py and filedge/db.py).
use filedge.Base.{
  ℕ, String, ◌≡◌, refl, ◌∙◌, sym, ap, subst, Bool, true, false, Option, none, some, List, [], ◌∷◌,
  arith, Bool-cases, inl, inr,
}
use filedge.Base.Dict
use filedge.Base.Result.{Result, ok, ◌>>=◌, >>=-eq-ok}
use filedge.Audit.Record.{
  FileState, pending, processing, committed, failed, SourceMetadata, FileRecord, AuditTable,
}
use filedge.Audit.Sql.{first, update, has_hash, on_row, first-update, first-append}
use filedge.Audit.Store.{
  find_file_by_hash, pending_row, stored_metadata, insert_pending, claim_processing, mark_failed,
  reset_eligible_failed, reclaim_stale_processing,
}
use filedge.Audit.Consistency.{
  IsConsistent, insert_pending-IsConsistent, claim_processing-IsConsistent,
  mark_failed-IsConsistent, reset-IsConsistent, reclaim-IsConsistent,
}
use filedge.Load.Config.{ManifestPolicy}
use filedge.Pipeline.Manifest.{ManifestResult}
use filedge.Pipeline.Register.{
  SourceFile, Registering, apply_policy, register_new, register_file, register_all, fail_pre_load,
  add_candidate, sort_file, sort_all, begin, register_files,
}

-- The second table is consistent if the first is, and its COMMITTED rows are rows of the first.
pub record CommitsNothing (before after : AuditTable) : Type 0 where
  pub consistent : IsConsistent before → IsConsistent after
  pub kept :
      (h : String) (r : FileRecord)
      → find_file_by_hash after h ≡ some r
      → r.state ≡ committed
      → find_file_by_hash before h ≡ some r

CommitsNothing-refl : (db : AuditTable) → CommitsNothing db db
CommitsNothing-refl db = record { consistent = λ c. c; kept = λ h r e done. e }

pub CommitsNothing-trans :
    {a b c : AuditTable} → CommitsNothing a b → CommitsNothing b c → CommitsNothing a c
CommitsNothing-trans x y = record {
  consistent = λ c. y.consistent (x.consistent c);
  kept = λ h r e done. x.kept h r (y.kept h r e done) done;
}

-- What is known of the value that a successful computation has is known of its result.
CommitsNothing-result :
    (audit : AuditTable) (m : Result String Registering) (q : Registering)
    → m ≡ ok q
    → (r : Registering) → CommitsNothing audit r.audit
    → m ≡ ok r
    → CommitsNothing audit q.audit
CommitsNothing-result audit m q e r c f =
    let same : r ≡ q = cc in subst (λ (x : Registering). CommitsNothing audit x.audit) same c

-- An update that leaves no row that it reaches COMMITTED.
kept-update :
    (where_ : FileRecord → Bool) (set_ : FileRecord → FileRecord) (db : AuditTable)
    → ((r : FileRecord) → (set_ r).content_hash ≡ r.content_hash)
    → ((r : FileRecord) → (set_ r).state ≡ committed → ⊥)
    → (h : String) (r : FileRecord) → first (has_hash h) (update where_ set_ db.rows) ≡ some r
    → r.state ≡ committed
    → find_file_by_hash db h ≡ some r
unfolding find_file_by_hash
kept-update where_ set_ db keeps open_ h r e done =
    go (first (has_hash h) db.rows) refl (sym (first-update where_ set_ keeps h db.rows) ∙ e)
  where
    go :
        (o : Option FileRecord)
        → first (has_hash h) db.rows ≡ o
        → on_row where_ set_ o ≡ some r
        → first (has_hash h) db.rows ≡ some r
    go none f g = cc
    go (some q) f g = elim (Bool-cases (where_ q)) [
      | inl hit ↦ absurd (open_ q (ap (λ x. x.state) (hit_row q hit g) ∙ done))
      | inr miss ↦ f ∙ ap some (miss_row q miss g)
    ]
      where
        hit_row :
            (q : FileRecord) → where_ q ≡ true → on_row where_ set_ (some q) ≡ some r → set_ q ≡ r
        hit_row q hit g = ground (arith, hit)

        miss_row :
            (q : FileRecord) → where_ q ≡ false → on_row where_ set_ (some q) ≡ some r → q ≡ r
        miss_row q miss g = ground (arith, miss)

module _ (now : ℕ) (db : AuditTable) where
  claim-CommitsNothing :
      (h : String) (w run : Option String) → CommitsNothing db (claim_processing now db h w run).0
  claim-CommitsNothing h w run = record {
    consistent = λ c. claim_processing-IsConsistent now db c h w run;
    kept = unfold claim_processing find_file_by_hash in kept-update _ _ db (λ r. refl) (λ r e. cc);
  }

  mark_failed-CommitsNothing : (h e : String) → CommitsNothing db (mark_failed now db h e)
  mark_failed-CommitsNothing h e = record {
    consistent = λ c. mark_failed-IsConsistent now db c h e;
    kept = unfold mark_failed find_file_by_hash in kept-update _ _ db (λ r. refl) (λ r e. cc);
  }

  pub reset-CommitsNothing : (cap : ℕ) → CommitsNothing db (reset_eligible_failed now db cap).0
  reset-CommitsNothing cap = record {
    consistent = λ c. reset-IsConsistent now db c cap;
    kept =
        unfold reset_eligible_failed find_file_by_hash in
        kept-update _ _ db (λ r. refl) (λ r e. cc);
  }

  pub reclaim-CommitsNothing :
      (stale : ℕ) → CommitsNothing db (reclaim_stale_processing now db stale).0
  reclaim-CommitsNothing stale = record {
    consistent = λ c. reclaim-IsConsistent now db c stale;
    kept =
        unfold reclaim_stale_processing find_file_by_hash in
        kept-update _ _ db (λ r. refl) (λ r e. cc);
  }

  insert-kept :
      (name h : String) (dir : Option String) (m : Option SourceMetadata) (j : String)
      (r : FileRecord)
      → find_file_by_hash (insert_pending now db name h dir m) j ≡ some r
      → r.state ≡ committed
      → find_file_by_hash db j ≡ some r
  unfolding insert_pending find_file_by_hash pending_row
  insert-kept name h dir m j r e done =
      ground
        (arith, first-append j db.rows (pending_row now db.next_id name h dir (stored_metadata m)))

  insert-CommitsNothing :
      (name h : String) (dir : Option String) (m : Option SourceMetadata)
      → CommitsNothing db (insert_pending now db name h dir m)
  insert-CommitsNothing name h dir m = record {
    consistent = insert_pending-IsConsistent now db name h dir m;
    kept = insert-kept name h dir m;
  }

module _ (tick : ℕ → ℕ) (policy : ManifestPolicy) (watched_dir : String) (run_id : Option String)
    (discover : String → Result String ManifestResult) (describe : ManifestResult → String) where
  register_file-CommitsNothing :
      (f : SourceFile) (r q : Registering)
      → register_file tick policy watched_dir discover describe f r ≡ ok q
      → CommitsNothing r.audit q.audit
  unfolding register_file register_new
  register_file-CommitsNothing f r q e = go (Dict.lookup f.content_hash r.hash_states) e
    where
      go :
          (o : Option FileState)
          → elim o as (λ _. Result String Registering) [
            | some state ↦ ok r
            | none ↦
                apply_policy tick policy watched_dir discover describe f
                >>= (λ found. ok (register_new tick policy watched_dir discover describe f r found))
          ]
            ≡ ok q
          → CommitsNothing r.audit q.audit
      go (some state) g =
          CommitsNothing-result r.audit (ok r) q g r (CommitsNothing-refl r.audit) refl
      go none g =
          let (found, _, same) =
            >>=-eq-ok (apply_policy tick policy watched_dir discover describe f)
              (λ o. ok (register_new tick policy watched_dir discover describe f r o)) g in
          CommitsNothing-result r.audit
            (ok (register_new tick policy watched_dir discover describe f r found)) q same
            (register_new tick policy watched_dir discover describe f r found)
            (insert-CommitsNothing r.now r.audit f.basename f.content_hash (some watched_dir)
              found.0)
            refl

  register_all-CommitsNothing :
      (files : List SourceFile) (r q : Registering)
      → register_all tick policy watched_dir discover describe files r ≡ ok q
      → CommitsNothing r.audit q.audit
  unfolding register_all
  register_all-CommitsNothing [] r q e =
      CommitsNothing-result r.audit (ok r) q e r (CommitsNothing-refl r.audit) refl
  register_all-CommitsNothing (f ∷ files) r q e =
      let (p, head, rest) = >>=-eq-ok _ _ e in
      CommitsNothing-trans (register_file-CommitsNothing f r p head)
        (register_all-CommitsNothing files p q rest)

  sort_file-CommitsNothing :
      (f : SourceFile) (r : Registering) → CommitsNothing r.audit (sort_file tick run_id f r).audit
  unfolding sort_file fail_pre_load add_candidate
  sort_file-CommitsNothing f r = go (Dict.lookup f.content_hash r.manifest_errors)
    where
      candidate :
          (o : Option FileState) → CommitsNothing r.audit (add_candidate tick run_id f o r).audit
      candidate none = CommitsNothing-refl r.audit
      candidate (some pending) = CommitsNothing-refl r.audit
      candidate (some processing) = CommitsNothing-refl r.audit
      candidate (some committed) = CommitsNothing-refl r.audit
      candidate (some failed) = CommitsNothing-refl r.audit

      go :
          (o : Option String)
          → CommitsNothing r.audit
              (elim o as (λ _. Registering) [
                | some error ↦ fail_pre_load tick run_id f error r
                | none ↦ add_candidate tick run_id f (Dict.lookup f.content_hash r.hash_states) r
              ]).audit
      go none = candidate (Dict.lookup f.content_hash r.hash_states)
      go (some error) =
          CommitsNothing-trans (claim-CommitsNothing r.now r.audit f.content_hash none run_id)
            (mark_failed-CommitsNothing (tick r.now) _ f.content_hash error)

  sort_all-CommitsNothing :
      (files : List SourceFile) (r : Registering)
      → CommitsNothing r.audit (sort_all tick run_id files r).audit
  unfolding sort_all
  sort_all-CommitsNothing [] r = CommitsNothing-refl r.audit
  sort_all-CommitsNothing (f ∷ files) r =
      CommitsNothing-trans (sort_file-CommitsNothing f r)
        (sort_all-CommitsNothing files (sort_file tick run_id f r))

  pub register_files-CommitsNothing :
      (now : ℕ) (audit : AuditTable) (files : List SourceFile) (q : Registering)
      → register_files tick policy watched_dir run_id discover describe now audit files ≡ ok q
      → CommitsNothing audit q.audit
  unfolding register_files begin
  register_files-CommitsNothing now audit files q e =
      let (p, head, rest) = >>=-eq-ok _ _ e in
      CommitsNothing-result audit _ q rest (sort_all tick run_id files p)
        (CommitsNothing-trans (register_all-CommitsNothing files _ p head)
          (sort_all-CommitsNothing files p))
        refl
