-- ===== src/Load/Exact.antt =====
-- What `load_file` (filedge/loader.py) leaves in the destination of an atomic connector, in append
-- mode.
use filedge.Base.{
  ℕ, String, ◌≡◌, ◌≢◌, refl, ◌∙◌, sym, ap, subst, Option, none, some, [], ◌∷◌, inl, inr, length,
  arith, Option-cases,
}
use filedge.Base.Dict
use filedge.Base.Dict.{Dict}
use filedge.Base.Result.{Result, Result-cases}
use filedge.Rows.Python.{Python}
use filedge.Rows.Tolerance.{dests, DistinctDests}
use filedge.Quarantine.Stream.{LoadError, Stream, end, from_list}
use filedge.Quarantine.Processor.{QuarantineConfig, Buffer}
use filedge.Destination.Table.{append}
use filedge.Destination.Added.{Uniform}
use filedge.Cdc.Plan.{CdcConfig}
use filedge.Load.Crypto.{Ciphers, Engine, for_pipeline}
use filedge.Load.Connector.{Connector, IsAtomic}
use filedge.Load.Config.{PipelineConfig}
use filedge.Load.LoadFile.{
  LoadOutcome, loaded, destination_cdc_config, yields, write, finish_sink, written_outcome,
  iterator, load_with, load_file,
}
use filedge.Load.Yields.{
  EachYield, Stream-Ends, yields-from_list, EachYield-from_list, iterator-HasColumns,
}

-- What a load of a File may leave behind in the destination.
pub record IsFaithful {V : Type 0} (k : Connector V) (h : String) (s : k.State)
    (r : k.State × LoadOutcome) : Type 0 where
  pub settled : k.IsSettled r.0
  pub counted :
      (n quarantined : ℕ) (p : Option String)
      → r.1 ≡ loaded n quarantined p
      → length (k.rows_of r.0 h) ≡ n
  pub others : (j : String) → h ≢ j → k.rows_of r.0 j ≡ k.rows_of s j

module _ (py : Python) (ciphers : Ciphers) (k : Connector py.Value) (law : IsAtomic k)
    (finalize : QuarantineConfig py → String → Buffer py → Result String String)
    (config : PipelineConfig py) (distinct : DistinctDests config.columns)
    (mode : config.write_mode ≡ append) where
  seen : Engine py ciphers → Stream (Dict py.Value) → Stream (Dict py.Value)
  seen engine rows =
      (iterator py ciphers k finalize config engine
        (destination_cdc_config config.columns config.cdc) rows).0

  seen-HasColumns :
      (engine : Engine py ciphers) (rows : Stream (Dict py.Value))
      → EachYield (λ row. Dict.keys row ≡ dests config.columns) (seen engine rows)
  unfolding seen
  seen-HasColumns engine rows =
      iterator-HasColumns py ciphers k config distinct engine finalize
        (destination_cdc_config config.columns config.cdc) rows mode

  write-append :
      (cdc : Option CdcConfig) (h : String) (now : ℕ) (rows : Stream (Dict py.Value)) (s : k.State)
      → write py ciphers k config cdc h now rows s ≡ k.write_rows h now rows s
  unfolding write
  write-append cdc h now rows s = ground (arith, mode)

  finish_sink-loaded :
      (rows n quarantined : ℕ) (q : Option (QuarantineConfig py)) (h : String) (buffer : Buffer py)
      (p : Option String)
      → finish_sink py ciphers k finalize rows q h buffer ≡ loaded n quarantined p
      → rows ≡ n
  unfolding finish_sink
  finish_sink-loaded rows n quarantined none h buffer p e = ground arith
  finish_sink-loaded rows n quarantined (some q) h [] p e = ground arith
  finish_sink-loaded rows n quarantined (some q) h (b ∷ buffer) p e = ground arith

  -- The state after `load_with` is that after the write.
  state-written_outcome :
      (rows : ℕ) (q : Option (QuarantineConfig py)) (h : String) (buffer : Buffer py)
      (r : k.State × Option LoadError)
      → (written_outcome py ciphers k finalize rows q h buffer r).0 ≡ r.0
  unfolding written_outcome
  state-written_outcome rows q h buffer (s, none) = refl
  state-written_outcome rows q h buffer (s, some e) = refl

  loaded-written_outcome :
      (rows n quarantined : ℕ) (q : Option (QuarantineConfig py)) (h : String) (buffer : Buffer py)
      (p : Option String) (r : k.State × Option LoadError)
      → (written_outcome py ciphers k finalize rows q h buffer r).1 ≡ loaded n quarantined p
      → (r.1 ≡ none) × (rows ≡ n)
  unfolding written_outcome
  loaded-written_outcome rows n quarantined q h buffer p (s, none) e =
      (refl, finish_sink-loaded rows n quarantined q h buffer p e)
  loaded-written_outcome rows n quarantined q h buffer p (s, some x) e = cc

  module _ (h : String) (now : ℕ) (s : k.State) (settled : k.IsSettled s) where
    written : Engine py ciphers → Stream (Dict py.Value) → k.State × Option LoadError
    written engine rows = k.write_rows h now (seen engine rows) s

    state-load_with :
        (engine : Engine py ciphers) (rows : Stream (Dict py.Value))
        → (load_with py ciphers k finalize config engine h now rows s).0 ≡ (written engine rows).0
    unfolding load_with written seen
    state-load_with engine rows =
        state-written_outcome _ _ h _ _
        ∙ ap (λ (r : k.State × Option LoadError). r.0) (write-append _ h now (seen engine rows) s)

    loaded-load_with :
        (engine : Engine py ciphers) (rows : Stream (Dict py.Value)) (n quarantined : ℕ)
        (p : Option String)
        → (load_with py ciphers k finalize config engine h now rows s).1 ≡ loaded n quarantined p
        → ((written engine rows).1 ≡ none) × (yields (seen engine rows) ≡ n)
    unfolding load_with written seen
    loaded-load_with engine rows n quarantined p e =
        let parts = loaded-written_outcome _ n quarantined _ h _ p _ e in
        (
          ap (λ (r : k.State × Option LoadError). r.1)
                (sym (write-append _ h now (seen engine rows) s))
              ∙ parts.0,
          parts.1,
        )

    -- A write that succeeds was given the rows of a list, which are now those of the File.
    landed :
        (engine : Engine py ciphers) (rows : Stream (Dict py.Value))
        → (written engine rows).1 ≡ none
        → (length (k.rows_of (written engine rows).0 h) ≡ yields (seen engine rows))
          × ((j : String) → h ≢ j → k.rows_of (written engine rows).0 j ≡ k.rows_of s j)
    unfolding written
    landed engine rows fine = elim (Stream-Ends (seen engine rows)) [
      | inr (xs, e, same) ↦ absurd (
          law.stopped h now xs e s _ (
            ap (λ st. k.write_rows h now st s) (sym same)
            ∙ (λ i. ((written engine rows).0, fine i))))
      | inl (xs, same) ↦
          let done : k.write_rows h now (from_list xs end) s ≡ ((written engine rows).0, none) =
            ap (λ st. k.write_rows h now st s) (sym same)
            ∙ (λ i. ((written engine rows).0, fine i)) in
          let uniform : Uniform (dests config.columns) xs =
            EachYield-from_list (λ row. Dict.keys row ≡ dests config.columns) xs end
              (subst (EachYield (λ row. Dict.keys row ≡ dests config.columns)) same
                (seen-HasColumns engine rows)) in
          (
            ap length (law.written (dests config.columns) h now xs s _ uniform settled done)
                ∙ sym (yields-from_list xs)
                ∙ ap yields (sym same),
            λ j apart. law.others (dests config.columns) h j now xs s _ uniform settled done apart,
          )
    ]

    -- An error of the write changes nothing, and what follows the write does not touch the state.
    others-load_with :
        (engine : Engine py ciphers) (rows : Stream (Dict py.Value)) (j : String)
        → h ≢ j
        → k.rows_of (written engine rows).0 j ≡ k.rows_of s j
    unfolding written
    others-load_with engine rows j apart = elim (Option-cases (written engine rows).1) [
      | inl fine ↦ (landed engine rows fine).1 j apart
      | inr (e, failed) ↦
          law.failed h now (seen engine rows) s _ e settled
            (λ i. ((written engine rows).0, failed i)) j
    ]

    load_with-IsFaithful :
        (engine : Engine py ciphers) (rows : Stream (Dict py.Value))
        → IsFaithful k h s (load_with py ciphers k finalize config engine h now rows s)
    unfolding written
    load_with-IsFaithful engine rows = record {
      settled =
          subst k.IsSettled (sym (state-load_with engine rows))
            (law.settled h now (seen engine rows) s settled);
      counted = λ n quarantined p e.
          let (fine, count) = loaded-load_with engine rows n quarantined p e in
          ap (λ state. length (k.rows_of state h)) (state-load_with engine rows)
          ∙ (landed engine rows fine).0
          ∙ count;
      others = λ j apart.
          ap (λ state. k.rows_of state j) (state-load_with engine rows)
          ∙ others-load_with engine rows j apart;
    }

    -- In append mode, with an atomic connector, no open transaction, and columns with different
    -- destinations, a load that reports a number of rows leaves that many rows of the File in the
    -- destination; whatever it reports, the rows of every other File are as they were and no
    -- transaction is open.
    pub load_file-IsFaithful :
        (rows : Stream (Dict py.Value))
        → IsFaithful k h s (load_file py ciphers k finalize config h now rows s)
    unfolding load_file
    load_file-IsFaithful rows = elim (Result-cases (for_pipeline py ciphers config.columns)) [
      | inl (engine, e) ↦ rw (load_file, e) (load_with-IsFaithful engine rows)
      | inr (x, e) ↦
          rw (load_file, e)
            (record {
              settled = settled;
              counted = λ n quarantined p e. cc;
              others = λ j apart. refl;
            })
    ]
