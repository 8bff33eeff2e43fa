-- ===== src/Materialize/Delivered.antt =====
-- What a Drain cycle and the continuous mode of filedge/materialize/consumer.py yield of one
-- partition.
use filedge.Base.{
  ℕ, ◌+◌, String, ◌≡◌, refl, ◌∙◌, sym, ap, Option, none, some, List, [], ◌∷◌, ◌++◌, if◌then◌else◌,
  leb, select, select-append, arith,
}
use mathlib.Core.List.{append-nil, append_assoc, map-append}
use filedge.Materialize.Consumer.{
  TopicPartition, same_partition, Message, Buffer, buffer_of, Draining, values, flush, ready_from,
  cut_ready, hold, held_in, cut_full, append_message, append_messages, continue_from,
  consume_continuous,
}
use filedge.Materialize.Buffers.{
  same_iff, buffer_of-put, delivered, total, cut-total, cut_all-total, flush-total, flush-empty,
}

-- The messages of a partition, in the order of polling.
abbrev pub of_partition : TopicPartition → List Message → List Message
of_partition tp messages = select (λ (m : Message). same_partition m.source tp) messages

abbrev pub payloads : TopicPartition → List Message → List String
payloads tp messages = values (of_partition tp messages)

pub payloads-append :
    (tp : TopicPartition) (xs ys : List Message)
    → payloads tp (xs ++ ys) ≡ payloads tp xs ++ payloads tp ys
payloads-append tp xs ys =
    ap values (select-append (λ (m : Message). same_partition m.source tp) xs ys)
    ∙ map-append (λ (m : Message). m.value) (of_partition tp xs) (of_partition tp ys)

-- The messages of a partition that a Drain takes, if it ends at an offset: those before the first
-- that lies at the end or after it, and none after the last offset before the end.
abbrev pub window : ℕ → List Message → List Message
window end_ [] = []
window end_ (m ∷ messages) =
    let rest = window end_ messages in
    if leb end_ m.offset then [] else if leb end_ (m.offset + 1) then m ∷ [] else m ∷ rest

-- What the polls up to the first empty one bring.
abbrev pub polled : List (List Message × ℕ) → List Message
polled [] = []
polled (([], clock) ∷ polls) = []
polled ((m ∷ messages, clock) ∷ polls) = (m ∷ messages) ++ polled polls

pub yielded_all :
    (tp : TopicPartition) (st : Draining)
    → held_in tp st.buffers ≡ []
    → total tp st ≡ delivered tp st.yielded
yielded_all tp st none_held = rw none_held (append-nil (delivered tp st.yielded))

module _ (tick : ℕ → ℕ) (batch_size batch_timeout : ℕ) where
  pub hold-total :
      (tp : TopicPartition) (m : Message) (o : Option Buffer) (st : Draining)
      → buffer_of m.source st.buffers ≡ o
      → total tp (hold tick batch_size batch_timeout m o st) ≡ total tp st ++ payloads tp (m ∷ [])
  unfolding hold
  hold-total tp m none st e = ground (
    arith,
    e,
    buffer_of-put tp m.source (record { opened_at = st.clock; held = m ∷ [] }) st.buffers,
    same_iff m.source tp,
    append-nil (delivered tp st.yielded),
    append-nil (total tp st),
  )
  hold-total tp m (some b) st e = ground (
    arith,
    e,
    buffer_of-put tp m.source (record b { held = b.held ++ m ∷ [] }) st.buffers,
    same_iff m.source tp,
    map-append (λ (n : Message). n.value) b.held (m ∷ []),
    append_assoc (delivered tp st.yielded) (values b.held) (values (m ∷ [])),
    append-nil (total tp st),
  )

  pub cut_full-total :
      (tp q : TopicPartition) (st : Draining)
      → total tp (cut_full tick batch_size batch_timeout q st) ≡ total tp st
  unfolding cut_full
  cut_full-total tp q st = ground (arith, cut-total tp q st)

  pub cut_ready-total :
      (tp : TopicPartition) (st : Draining)
      → total tp (cut_ready tick batch_size batch_timeout st) ≡ total tp st
  unfolding cut_ready
  cut_ready-total tp st =
      let (ready, clock) =
        ready_from tick batch_size batch_timeout st.exhausted st.clock st.buffers in
      cut_all-total tp ready (record st { clock = clock })

  append_message-total :
      (tp : TopicPartition) (m : Message) (st : Draining)
      → total tp (append_message tick batch_size batch_timeout m st)
        ≡ total tp st ++ payloads tp (m ∷ [])
  unfolding append_message
  append_message-total tp m st =
      cut_full-total tp m.source _ ∙ hold-total tp m (buffer_of m.source st.buffers) st refl

  append_messages-total :
      (tp : TopicPartition) (messages : List Message) (st : Draining)
      → total tp (append_messages tick batch_size batch_timeout messages st)
        ≡ total tp st ++ payloads tp messages
  unfolding append_messages
  append_messages-total tp [] st = sym (append-nil _)
  append_messages-total tp (m ∷ messages) st =
      append_messages-total tp messages _
      ∙ rw (append_message-total tp m st)
          (append_assoc (total tp st) (payloads tp (m ∷ [])) (payloads tp messages))
      ∙ ap (λ l. total tp st ++ l) (sym (payloads-append tp (m ∷ []) messages))

  abbrev pub all_polled : List (List Message × ℕ) → List Message
  all_polled [] = []
  all_polled ((messages, clock) ∷ polls) = messages ++ all_polled polls

  pub continue_from-total :
      (tp : TopicPartition) (polls : List (List Message × ℕ)) (st : Draining)
      → delivered tp (continue_from tick batch_size batch_timeout polls st).yielded
        ≡ total tp st ++ payloads tp (all_polled polls)
  unfolding continue_from
  continue_from-total tp [] st =
      sym (yielded_all tp (flush st) (flush-empty tp st))
      ∙ flush-total tp st
      ∙ sym (append-nil (total tp st))
  continue_from-total tp ((messages, clock) ∷ polls) st =
      continue_from-total tp polls _
      ∙ rw
          (
            append_messages-total tp messages
                (record (cut_ready tick batch_size batch_timeout st) { clock = clock }),
            cut_ready-total tp st,
          )
          (append_assoc (total tp st) (payloads tp messages) (payloads tp (all_polled polls)))
      ∙ ap (λ l. total tp st ++ l) (sym (payloads-append tp messages (all_polled polls)))

  -- In the continuous mode the batches of a partition hold, in order, the payloads of exactly the
  -- messages of the partition that were polled, for every batch size, timeout and clock: the stop
  -- loses none of them.
  pub consume_continuous-delivered :
      (tp : TopicPartition) (polls : List (List Message × ℕ)) (clock : ℕ)
      → delivered tp (consume_continuous tick batch_size batch_timeout polls clock).yielded
        ≡ payloads tp (all_polled polls)
  unfolding consume_continuous buffer_of
  consume_continuous-delivered tp polls clock = continue_from-total tp polls _
