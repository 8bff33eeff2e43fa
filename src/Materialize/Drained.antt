-- ===== src/Materialize/Drained.antt =====
-- What a Drain cycle of filedge/materialize/consumer.py yields of one partition.
use filedge.Base.{
  ℕ, ◌+◌, String, ◌≡◌, refl, ◌∙◌, sym, ap, subst, Bool, true, false, Option, none, some, List, [],
  ◌∷◌, ◌++◌, if◌then◌else◌, leb, all, select, arith, Bool-cases, Option-cases, inl, inr, ◌&&◌, ◌||◌,
}
use filedge.Base.Result.{ok, >>=-eq-ok, ok-injective}
use mathlib.Core.List.{append-nil, append_assoc}
use filedge.Materialize.Consumer.{
  TopicPartition, same_partition, Message, Buffer, Buffers, buffer_of, member, Draining, values,
  cut, cut_found, cut_all, is_empty, flush, ready_from, cut_ready, hold, held_in, cut_full,
  exhaust_at, accept, take_message, take_messages, is_finished, drain_from, no_messages, drain,
}
use filedge.Materialize.Buffers.{same_iff, delivered, total, flush-total, flush-empty}
use filedge.Materialize.Delivered.{
  of_partition, payloads, window, polled, yielded_all, hold-total, cut_full-total, cut_ready-total,
}

exhausted-cut : (q : TopicPartition) (st : Draining) → (cut q st).exhausted ≡ st.exhausted
unfolding cut cut_found
exhausted-cut q st = ground arith

exhausted-cut_all :
    (qs : List TopicPartition) (st : Draining) → (cut_all qs st).exhausted ≡ st.exhausted
unfolding cut_all
exhausted-cut_all [] st = refl
exhausted-cut_all (q ∷ qs) st = exhausted-cut_all qs (cut q st) ∙ exhausted-cut q st

module _ (tick : ℕ → ℕ) (batch_size batch_timeout : ℕ) (hwm : TopicPartition → Option ℕ) where
  exhausted-cut_ready :
      (st : Draining) → (cut_ready tick batch_size batch_timeout st).exhausted ≡ st.exhausted
  unfolding cut_ready
  exhausted-cut_ready st =
      let (ready, clock) =
        ready_from tick batch_size batch_timeout st.exhausted st.clock st.buffers in
      exhausted-cut_all ready (record st { clock = clock })

  exhausted-hold :
      (m : Message) (o : Option Buffer) (st : Draining)
      → (hold tick batch_size batch_timeout m o st).exhausted ≡ st.exhausted
  unfolding hold
  exhausted-hold m none st = refl
  exhausted-hold m (some b) st = refl

  exhausted-cut_full :
      (q : TopicPartition) (st : Draining)
      → (cut_full tick batch_size batch_timeout q st).exhausted ≡ st.exhausted
  unfolding cut_full
  exhausted-cut_full q st = ground (arith, exhausted-cut q st)

  abbrev after_hold : Message → Draining → Draining
  after_hold m st = hold tick batch_size batch_timeout m (buffer_of m.source st.buffers) st

  member-accept :
      (tp : TopicPartition) (end_ : ℕ) (m : Message) (st : Draining)
      → member tp (accept tick batch_size batch_timeout hwm end_ m st).exhausted
        ≡ ((same_partition m.source tp && leb end_ (m.offset + 1)) || member tp st.exhausted)
  unfolding accept exhaust_at
  member-accept tp end_ m st = ground (
    arith,
    exhausted-cut_full m.source (exhaust_at tick batch_size batch_timeout end_ m (after_hold m st)),
    exhausted-hold m (buffer_of m.source st.buffers) st,
  )

  total-accept :
      (tp : TopicPartition) (end_ : ℕ) (m : Message) (st : Draining)
      → total tp (accept tick batch_size batch_timeout hwm end_ m st)
        ≡ (if leb end_ m.offset then total tp st else total tp st ++ payloads tp (m ∷ []))
  unfolding accept exhaust_at
  total-accept tp end_ m st = ground (
    arith,
    cut_full-total tick batch_size batch_timeout tp m.source
        (exhaust_at tick batch_size batch_timeout end_ m (after_hold m st)),
    hold-total tick batch_size batch_timeout tp m (buffer_of m.source st.buffers) st refl,
  )

  module _ (tp : TopicPartition) (end_ : ℕ) (known : hwm tp ≡ some end_) where
    -- What a Drain is still to take of the partition.
    abbrev remaining : Draining → List Message → List String
    remaining st messages =
        if member tp st.exhausted then [] else values (window end_ (of_partition tp messages))

    -- One message, of the partition or of another one.
    balance :
        (t : List String) (here out : Bool) (h : ℕ) (m : Message) (rest : List Message)
        → (here ≡ true → h ≡ end_)
        → (here ≡ true → out ≡ false)
        → (if leb h m.offset
              then t
              else t ++ values (elim here as (λ _. List Message) [ true ↦ m ∷ [] | false ↦ [] ]))
            ++ (if (here && leb h (m.offset + 1)) || out then [] else values (window end_ rest))
          ≡ t
            ++ (if out
                then []
                else values (
                    window end_
                      (elim here as (λ _. List Message) [ true ↦ m ∷ rest | false ↦ rest ])))
    balance t true true h m rest own open_ = cc (open_ refl)
    balance t false true h m rest own open_ = ground (arith, append-nil t)
    balance t false false h m rest own open_ = ground (arith, append-nil t)
    balance t true false h m rest own open_ =
        let same : h ≡ end_ = own refl in
        ground (
          arith,
          same,
          append-nil t,
          append-nil (t ++ m.value ∷ []),
          append_assoc t (m.value ∷ []) (values (window end_ rest)),
        )

    accept-remaining :
        (h : ℕ) (m : Message) (messages : List Message) (st : Draining)
        → hwm m.source ≡ some h
        → member m.source st.exhausted ≡ false
        → let next = accept tick batch_size batch_timeout hwm h m st in
          total tp next ++ remaining next messages ≡ total tp st ++ remaining st (m ∷ messages)
    accept-remaining h m messages st found open_ =
        rw (total-accept tp h m st, member-accept tp h m st)
          (balance (total tp st) (same_partition m.source tp) (member tp st.exhausted) h m
            (of_partition tp messages) (λ same. ground (arith, same_iff m.source tp, found, known))
            (λ same.
              subst (λ q. member q st.exhausted ≡ false) ((same_iff m.source tp).0 same) open_))

    skipped-remaining :
        (m : Message) (messages : List Message) (st : Draining)
        → member m.source st.exhausted ≡ true
        → remaining st messages ≡ remaining st (m ∷ messages)
    skipped-remaining m messages st out = elim (Bool-cases (same_partition m.source tp)) [
      | inr other ↦ ground (arith, other)
      | inl same ↦
          rw (subst (λ q. member q st.exhausted ≡ true) ((same_iff m.source tp).0 same) out) refl
    ]

    take_message-total :
        (m : Message) (messages : List Message) (st st' : Draining)
        → take_message tick batch_size batch_timeout hwm m st ≡ ok st'
        → total tp st' ++ remaining st' messages ≡ total tp st ++ remaining st (m ∷ messages)
    unfolding take_message
    take_message-total m messages st st' e = elim (Bool-cases (member m.source st.exhausted)) [
      | inl out ↦
          subst
            (λ x. total tp x ++ remaining x messages ≡ total tp st ++ remaining st (m ∷ messages))
            (ok-injective (rw out at e))
            (ap (λ l. total tp st ++ l) (skipped-remaining m messages st out))
      | inr open_ ↦ elim (Option-cases (hwm m.source)) [
        | inl unknown ↦ absurd (ground (arith, open_, unknown))
        | inr (h, found) ↦
            let same : accept tick batch_size batch_timeout hwm h m st ≡ st' =
              ok-injective (rw (open_, found) at e) in
            subst
              (λ x. total tp x ++ remaining x messages ≡ total tp st ++ remaining st (m ∷ messages))
              same (accept-remaining h m messages st found open_)
      ]
    ]

    take_messages-total :
        (messages later : List Message) (st st' : Draining)
        → take_messages tick batch_size batch_timeout hwm messages st ≡ ok st'
        → total tp st' ++ remaining st' later ≡ total tp st ++ remaining st (messages ++ later)
    unfolding take_messages
    take_messages-total [] later st st' e =
        subst (λ x. total tp x ++ remaining x later ≡ total tp st ++ remaining st later)
          (ok-injective e) refl
    take_messages-total (m ∷ messages) later st st' e =
        let (next, first, rest) =
          >>=-eq-ok (take_message tick batch_size batch_timeout hwm m st) _ e in
        take_messages-total messages later next st' rest
        ∙ take_message-total m (messages ++ later) st next first

    cut_ready-remaining :
        (st : Draining) (messages : List Message)
        → remaining (cut_ready tick batch_size batch_timeout st) messages ≡ remaining st messages
    cut_ready-remaining st messages =
        ap (λ l. if member tp l then [] else values (window end_ (of_partition tp messages)))
          (exhausted-cut_ready st)

    remaining-nil : (st : Draining) → remaining st [] ≡ []
    remaining-nil st = ground arith

    all-member :
        (partitions exhausted : List TopicPartition)
        → member tp partitions ≡ true
        → all (λ q. member q exhausted) partitions ≡ true
        → member tp exhausted ≡ true
    all-member [] exhausted there every = cc
    all-member (q ∷ partitions) exhausted there every = elim (Bool-cases (same_partition q tp)) [
      | inl same ↦
          subst (λ x. member x exhausted ≡ true) ((same_iff q tp).0 same) (ground (arith, every))
      | inr other ↦
          all-member partitions exhausted (ground (arith, there, other)) (ground (arith, every))
    ]

    window-nothing : (messages : List Message) → leb end_ 0 ≡ true → window end_ messages ≡ []
    window-nothing [] none_there = refl
    window-nothing (m ∷ messages) none_there = ground arith

    member-select_out :
        (tps : List TopicPartition)
        → no_messages tick batch_size batch_timeout hwm tp ≡ false
        → member tp (select (no_messages tick batch_size batch_timeout hwm) tps) ≡ false
    member-select_out [] some_there = refl
    member-select_out (q ∷ tps) some_there = elim (Bool-cases (same_partition q tp)) [
      | inl same ↦
          let here : no_messages tick batch_size batch_timeout hwm q ≡ false =
            subst (λ x. no_messages tick batch_size batch_timeout hwm x ≡ false)
              (sym ((same_iff q tp).0 same)) some_there in
          ground (arith, here, member-select_out tps some_there)
      | inr other ↦ ground (arith, other, member-select_out tps some_there)
    ]

    member-select_in :
        (tps : List TopicPartition)
        → no_messages tick batch_size batch_timeout hwm tp ≡ true
        → member tp tps ≡ true
        → member tp (select (no_messages tick batch_size batch_timeout hwm) tps) ≡ true
    member-select_in [] none_there there = cc
    member-select_in (q ∷ tps) none_there there = elim (Bool-cases (same_partition q tp)) [
      | inl same ↦
          let here : no_messages tick batch_size batch_timeout hwm q ≡ true =
            subst (λ x. no_messages tick batch_size batch_timeout hwm x ≡ true)
              (sym ((same_iff q tp).0 same)) none_there in
          ground (arith, here, same)
      | inr other ↦ ground (arith, other, member-select_in tps none_there)
    ]

    member-select :
        (tps : List TopicPartition)
        → member tp tps ≡ true
        → member tp (select (no_messages tick batch_size batch_timeout hwm) tps) ≡ leb end_ 0
    member-select tps there = elim (Bool-cases (leb end_ 0)) [
      | inl nothing_there ↦
          member-select_in tps (ground (arith, known, nothing_there)) there ∙ sym nothing_there
      | inr some_there ↦ member-select_out tps (ground (arith, known, some_there)) ∙ sym some_there
    ]

    module _ (partitions : List TopicPartition) (assigned : member tp partitions ≡ true) where
      -- When the loop ends of itself nothing is held or left.
      finished-remaining :
          (st : Draining) (messages : List Message)
          → is_finished tick batch_size batch_timeout hwm partitions st ≡ true
          → (held_in tp st.buffers ≡ []) × (remaining st messages ≡ [])
      finished-remaining st messages done = (
        empty st.buffers (ground (arith, done)),
        rw (all-member partitions st.exhausted assigned (ground (arith, done))) refl,
      )
        where
          empty : (bs : Buffers) → is_empty bs ≡ true → held_in tp bs ≡ []
          empty [] e = unfold buffer_of in refl
          empty (b ∷ bs) e = cc

      flushed : (st : Draining) → delivered tp (flush st).yielded ≡ total tp st
      flushed st = sym (yielded_all tp (flush st) (flush-empty tp st)) ∙ flush-total tp st

      abbrev ready : Draining → Draining
      ready st = cut_ready tick batch_size batch_timeout st

      ended :
          (st : Draining) (messages : List Message)
          → is_finished tick batch_size batch_timeout hwm partitions (ready st) ≡ true
          → delivered tp (ready st).yielded ≡ total tp st ++ remaining st messages
      ended st messages done =
          let (none_held, none_left) = finished-remaining (ready st) messages done in
          sym (yielded_all tp (ready st) none_held)
          ∙ cut_ready-total tick batch_size batch_timeout tp st
          ∙ sym (append-nil (total tp st))
          ∙ ap (λ l. total tp st ++ l) (sym none_left ∙ cut_ready-remaining st messages)

      stopped :
          (st : Draining) (clock : ℕ)
          → delivered tp (flush (record (ready st) { clock = clock })).yielded
            ≡ total tp st ++ remaining st []
      stopped st clock =
          flushed (record (ready st) { clock = clock })
          ∙ cut_ready-total tick batch_size batch_timeout tp st
          ∙ sym (append-nil (total tp st))
          ∙ ap (λ l. total tp st ++ l) (sym (remaining-nil st))

      drain_from-delivered :
          (polls : List (List Message × ℕ)) (st st' : Draining)
          → drain_from tick batch_size batch_timeout hwm partitions polls st ≡ ok st'
          → delivered tp st'.yielded ≡ total tp st ++ remaining st (polled polls)
      unfolding drain_from
      drain_from-delivered [] st st' e =
          elim (Bool-cases (is_finished tick batch_size batch_timeout hwm partitions (ready st))) [
            | inl done ↦
                subst (λ x. delivered tp x.yielded ≡ total tp st ++ remaining st [])
                  (ok-injective (rw (done, drain_from) at e)) (ended st [] done)
            | inr busy ↦
                subst (λ x. delivered tp x.yielded ≡ total tp st ++ remaining st [])
                  (ok-injective (rw (busy, drain_from) at e)) (stopped st (ready st).clock)
          ]
      drain_from-delivered (([], clock) ∷ polls) st st' e =
          elim (Bool-cases (is_finished tick batch_size batch_timeout hwm partitions (ready st))) [
            | inl done ↦
                subst (λ x. delivered tp x.yielded ≡ total tp st ++ remaining st [])
                  (ok-injective (rw (done, drain_from) at e)) (ended st [] done)
            | inr busy ↦
                subst (λ x. delivered tp x.yielded ≡ total tp st ++ remaining st [])
                  (ok-injective (rw (busy, drain_from) at e)) (stopped st clock)
          ]
      drain_from-delivered ((m ∷ messages, clock) ∷ polls) st st' e =
          elim (Bool-cases (is_finished tick batch_size batch_timeout hwm partitions (ready st))) [
            | inl done ↦
                subst
                  (λ x.
                    delivered tp x.yielded
                    ≡ total tp st ++ remaining st (m ∷ messages ++ polled polls))
                  (ok-injective (rw (done, drain_from) at e))
                  (ended st (m ∷ messages ++ polled polls) done)
            | inr busy ↦
                let taken = >>=-eq-ok _ _ (rw (busy, drain_from) at e) in
                drain_from-delivered polls taken.0 st' taken.2
                ∙ take_messages-total (m ∷ messages) (polled polls)
                    (record (ready st) { clock = clock }) taken.0 taken.1
                ∙ rw (cut_ready-total tick batch_size batch_timeout tp st) (
                    ap (λ l. total tp st ++ l)
                      (cut_ready-remaining st (m ∷ messages ++ polled polls)))
          ]

      start-remaining :
          (messages : List Message) (clock : ℕ)
          → remaining
              (record {
                buffers = [];
                exhausted = select (no_messages tick batch_size batch_timeout hwm) partitions;
                clock = clock;
                yielded = [];
              })
              messages
            ≡ values (window end_ (of_partition tp messages))
      start-remaining messages clock =
          ground
            (arith, member-select partitions assigned, window-nothing (of_partition tp messages))

      -- If a Drain ends without a KeyError, the batches of an assigned partition hold, in order,
      -- the payloads of exactly the messages of its window: those that the polls up to the first
      -- empty one bring, up to the high-water mark. So it is for every batch size, timeout and
      -- clock.
      pub drain-delivered :
          (polls : List (List Message × ℕ)) (clock : ℕ) (st : Draining)
          → drain tick batch_size batch_timeout hwm partitions polls clock ≡ ok st
          → delivered tp st.yielded ≡ values (window end_ (of_partition tp (polled polls)))
      unfolding drain
      drain-delivered polls clock st e =
          drain_from-delivered polls _ st e
          ∙ unfold buffer_of in start-remaining (polled polls) clock
