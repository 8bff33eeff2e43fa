-- ===== src/Materialize/Buffers.antt =====
-- The buffers of filedge/materialize/consumer.py: what each operation on them does to the messages
-- of one partition, those yielded and those still held.
use filedge.Base.{
  String, ◌≡◌, ◌↔◌, refl, ◌∙◌, ap, true, false, Option, none, some, List, [], ◌∷◌, ◌++◌,
  if◌then◌else◌, arith, eq_iff, eq_refl, subst, Bool-cases, ◌⊎◌, inl, inr,
}
use mathlib.Core.List.{append-nil, append_assoc}
use filedge.Materialize.Consumer.{
  TopicPartition, same_partition, Message, MicroBatch, Buffer, Buffers, buffer_of, put, pop, member,
  Draining, values, batch_of, cut_found, cut, cut_all, non_empty, flush, held_in,
}

pub same_iff : (p q : TopicPartition) → (same_partition p q ≡ true) ↔ (p ≡ q)
unfolding same_partition
same_iff p q = (there, back)
  where
    there : same_partition p q ≡ true → p ≡ q
    there e =
        let topics : p.topic ≡ q.topic = ground (arith, eq_iff p.topic q.topic) in
        let partitions : p.partition ≡ q.partition = ground (arith, eq_iff p.topic q.topic) in
        λ i. record { topic = topics i; partition = partitions i }

    back : p ≡ q → same_partition p q ≡ true
    back e = subst (λ x. same_partition p x ≡ true) e (ground (arith, eq_refl p.topic))

pub buffer_of-put :
    (tp q : TopicPartition) (b : Buffer) (bs : Buffers)
    → buffer_of tp (put q b bs) ≡ (if same_partition q tp then some b else buffer_of tp bs)
unfolding buffer_of put
buffer_of-put tp q b [] = refl
buffer_of-put tp q b ((k, old) ∷ bs) =
    ground (arith, same_iff q tp, same_iff k q, same_iff k tp, buffer_of-put tp q b bs)

buffer_of-pop :
    (tp q : TopicPartition) (bs : Buffers)
    → buffer_of tp (pop q bs) ≡ (if same_partition q tp then none else buffer_of tp bs)
unfolding buffer_of pop
buffer_of-pop tp q [] = ground arith
buffer_of-pop tp q ((k, old) ∷ bs) =
    ground (arith, same_iff q tp, same_iff k q, same_iff k tp, buffer_of-pop tp q bs)

-- The payloads of a partition's batches, in order.
abbrev pub delivered : TopicPartition → List MicroBatch → List String
delivered tp [] = []
delivered tp (b ∷ batches) =
    let rest = delivered tp batches in
    if same_partition b.source tp then b.messages ++ rest else rest

delivered-append :
    (tp : TopicPartition) (xs ys : List MicroBatch)
    → delivered tp (xs ++ ys) ≡ delivered tp xs ++ delivered tp ys
delivered-append tp [] ys = refl
delivered-append tp (b ∷ xs) ys =
    ground (
      arith,
      delivered-append tp xs ys,
      append_assoc b.messages (delivered tp xs) (delivered tp ys),
    )

delivered-batch_of :
    (tp q : TopicPartition) (held : List Message)
    → delivered tp (batch_of q held) ≡ (if same_partition q tp then values held else [])
unfolding batch_of
delivered-batch_of tp q [] = ground arith
delivered-batch_of tp q (m ∷ held) = ground (arith, append-nil (values (m ∷ held)))

-- What is known of a partition: the payloads that were yielded, and those still held.
abbrev pub total : TopicPartition → Draining → List String
total tp st = delivered tp st.yielded ++ values (held_in tp st.buffers)

pub total-yield :
    (tp : TopicPartition) (xs ys : List MicroBatch) (a b : List String)
    → delivered tp ys ++ a ≡ b
    → delivered tp (xs ++ ys) ++ a ≡ delivered tp xs ++ b
total-yield tp xs ys a b e = rw (delivered-append, append_assoc) (ap (λ l. delivered tp xs ++ l) e)

pub cut-total : (tp q : TopicPartition) (st : Draining) → total tp (cut q st) ≡ total tp st
unfolding cut cut_found
cut-total tp q st = go (buffer_of q st.buffers) refl
  where
    go :
        (o : Option Buffer) → buffer_of q st.buffers ≡ o → total tp (cut_found q o st) ≡ total tp st
    go none e = refl
    go (some b) e = total-yield tp st.yielded (batch_of q b.held) _ _ (
        ground (
          arith,
          delivered-batch_of tp q b.held,
          buffer_of-pop tp q st.buffers,
          same_iff q tp,
          append-nil (values b.held),
        ))

pub cut_all-total :
    (tp : TopicPartition) (qs : List TopicPartition) (st : Draining)
    → total tp (cut_all qs st) ≡ total tp st
unfolding cut_all
cut_all-total tp [] st = refl
cut_all-total tp (q ∷ qs) st = cut_all-total tp qs (cut q st) ∙ cut-total tp q st

-- Nothing is held of a partition once its buffer is cut, and it stays so.
cut-empty :
    (tp q : TopicPartition) (st : Draining)
    → (held_in tp st.buffers ≡ []) ⊎ (same_partition q tp ≡ true)
    → held_in tp (cut q st).buffers ≡ []
unfolding cut cut_found
cut-empty tp q st why = go (buffer_of q st.buffers) refl
  where
    go :
        (o : Option Buffer)
        → buffer_of q st.buffers ≡ o
        → held_in tp (cut_found q o st).buffers ≡ []
    go none e = ground (arith, why, same_iff q tp)
    go (some b) e = ground (arith, why, buffer_of-pop tp q st.buffers)

cut_all-empty :
    (tp : TopicPartition) (qs : List TopicPartition) (st : Draining)
    → (held_in tp st.buffers ≡ []) ⊎ (member tp qs ≡ true)
    → held_in tp (cut_all qs st).buffers ≡ []
unfolding cut_all
cut_all-empty tp [] st (inl e) = e
cut_all-empty tp [] st (inr e) = cc
cut_all-empty tp (q ∷ qs) st why =
    cut_all-empty tp qs (cut q st) (go (Bool-cases (same_partition q tp)) why)
  where
    go :
        (same_partition q tp ≡ true) ⊎ (same_partition q tp ≡ false)
        → (held_in tp st.buffers ≡ []) ⊎ (member tp (q ∷ qs) ≡ true)
        → (held_in tp (cut q st).buffers ≡ []) ⊎ (member tp qs ≡ true)
    go (inl e) why = inl (cut-empty tp q st (inr e))
    go (inr e) (inl gone) = inl (cut-empty tp q st (inl gone))
    go (inr e) (inr there) = inr (ground (arith, e, there))

held-non_empty :
    (tp : TopicPartition) (bs : Buffers) → (held_in tp bs ≡ []) ⊎ (member tp (non_empty bs) ≡ true)
unfolding buffer_of non_empty
held-non_empty tp [] = inl refl
held-non_empty tp ((k, b) ∷ bs) = elim (Bool-cases (same_partition k tp)) [
  | inr other ↦ ground (arith, other, held-non_empty tp bs)
  | inl same ↦ ground (arith, same)
]

pub flush-total : (tp : TopicPartition) (st : Draining) → total tp (flush st) ≡ total tp st
unfolding flush
flush-total tp st = cut_all-total tp (non_empty st.buffers) st

pub flush-empty : (tp : TopicPartition) (st : Draining) → held_in tp (flush st).buffers ≡ []
unfolding flush
flush-empty tp st = cut_all-empty tp (non_empty st.buffers) st (held-non_empty tp st.buffers)
