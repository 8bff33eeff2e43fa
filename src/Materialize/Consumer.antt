-- ===== src/Materialize/Consumer.antt =====
-- `QueueConsumer` of filedge/materialize/consumer.py: the Drain cycle and the continuous mode. The
-- broker client is the sequence of the answers to `poll`; after the last of them `poll` returns
-- nothing. Each reading of the monotonic clock advances it by `tick`.
use filedge.Base.{
  ℕ, ◌+◌, ◌-◌, String, Bool, true, false, not, Option, none, some, List, [], ◌∷◌, ◌++◌, ◌&&◌, ◌||◌,
  ◌==◌, if◌then◌else◌, leb, eqb, length, map, all, any, select,
}
use filedge.Base.Result.{Result, ok, err, ◌>>=◌}

pub record TopicPartition : Type 0 where
  pub topic : String
  pub partition : ℕ

unfoldable pub same_partition : TopicPartition → TopicPartition → Bool
same_partition p q = p.topic == q.topic && eqb p.partition q.partition

pub record Message : Type 0 where
  pub source : TopicPartition
  pub offset : ℕ
  pub value : String

-- `topic` and `partition` are in `source`.
pub record MicroBatch : Type 0 where
  pub source : TopicPartition
  pub start_offset : ℕ
  pub end_offset : ℕ
  pub messages : List String

-- A partition's buffer, with the time that it was opened at.
pub record Buffer : Type 0 where
  pub opened_at : ℕ
  pub held : List Message

abbrev pub Buffers : Type 0
Buffers = List (TopicPartition × Buffer)

unfoldable pub buffer_of : TopicPartition → Buffers → Option Buffer
buffer_of tp [] = none
buffer_of tp ((key, buffer) ∷ buffers) =
    if same_partition key tp then some buffer else buffer_of tp buffers

abbrev pub held_in : TopicPartition → Buffers → List Message
held_in tp buffers = elim (buffer_of tp buffers) [ none ↦ [] | some buffer ↦ buffer.held ]

-- `buffers[tp] = buffer`
unfoldable pub put : TopicPartition → Buffer → Buffers → Buffers
put tp buffer [] = (tp, buffer) ∷ []
put tp buffer ((key, old) ∷ buffers) =
    if same_partition key tp then (key, buffer) ∷ buffers else (key, old) ∷ put tp buffer buffers

-- `buffers.pop(tp)`
unfoldable pub pop : TopicPartition → Buffers → Buffers
pop tp [] = []
pop tp ((key, old) ∷ buffers) =
    let rest = pop tp buffers in if same_partition key tp then rest else (key, old) ∷ rest

abbrev pub member : TopicPartition → List TopicPartition → Bool
member tp tps = any (λ q. same_partition q tp) tps

-- The local variables of the loop, the clock, and what has been yielded.
pub record Draining : Type 0 where
  pub buffers : Buffers
  pub exhausted : List TopicPartition
  pub clock : ℕ
  pub yielded : List MicroBatch

abbrev pub last_offset : Message → List Message → ℕ
last_offset m [] = m.offset
last_offset m (n ∷ rest) = last_offset n rest

abbrev pub values : List Message → List String
values messages = map (λ (m : Message). m.value) messages

-- `cut` of a buffer that holds something; an empty one would raise, and is not cut.
unfoldable pub batch_of : TopicPartition → List Message → List MicroBatch
batch_of tp [] = []
batch_of tp (m ∷ rest) =
    record {
      source = tp;
      start_offset = m.offset;
      end_offset = last_offset m rest;
      messages = values (m ∷ rest);
    }
    ∷ []

unfoldable pub cut_found : TopicPartition → Option Buffer → Draining → Draining
unfolding batch_of
cut_found tp none st = st
cut_found tp (some buffer) st = record st {
  buffers = pop tp st.buffers;
  yielded = st.yielded ++ batch_of tp buffer.held;
}

-- `yield cut(tp)`. `pop` and `buf[0]` raise where there is no buffer or an empty one; the loops below
-- call it only for a partition whose buffer holds a message, and here such a call does nothing.
unfoldable pub cut : TopicPartition → Draining → Draining
unfolding cut_found
cut tp st = cut_found tp (buffer_of tp st.buffers) st

unfoldable pub cut_all : List TopicPartition → Draining → Draining
unfolding cut
cut_all [] st = st
cut_all (tp ∷ tps) st = cut_all tps (cut tp st)

abbrev pub is_empty {ℓ} : {A : Type ℓ} → List A → Bool
is_empty [] = true
is_empty (x ∷ xs) = false

-- `[tp for tp in list(buffers) if buffers[tp]]`
unfoldable pub non_empty : Buffers → List TopicPartition
non_empty [] = []
non_empty ((tp, buffer) ∷ buffers) =
    let rest = non_empty buffers in if is_empty buffer.held then rest else tp ∷ rest

unfoldable pub flush : Draining → Draining
unfolding cut_all non_empty
flush st = cut_all (non_empty st.buffers) st

module _ (tick : ℕ → ℕ) (batch_size batch_timeout : ℕ) where
  -- The buffers that are `ready`, and the clock after its readings.
  unfoldable pub ready_from : List TopicPartition → ℕ → Buffers → List TopicPartition × ℕ
  ready_from exhausted clock [] = ([], clock)
  ready_from exhausted clock ((tp, buffer) ∷ buffers) =
      let consulted = not (is_empty buffer.held) && not (member tp exhausted) in
      let (rest, clock') = ready_from exhausted (if consulted then tick clock else clock) buffers in
      let due = member tp exhausted || leb batch_timeout (clock - buffer.opened_at) in
      (if not (is_empty buffer.held) && due then tp ∷ rest else rest, clock')

  unfoldable pub cut_ready : Draining → Draining
  unfolding ready_from cut_all
  cut_ready st =
      let (ready, clock) = ready_from st.exhausted st.clock st.buffers in
      cut_all ready (record st { clock = clock })

  -- `open_buffer`, and the append.
  unfoldable pub hold : Message → Option Buffer → Draining → Draining
  hold m none st = record st {
    buffers = put m.source (record { opened_at = st.clock; held = m ∷ [] }) st.buffers;
    clock = tick st.clock;
  }
  hold m (some buffer) st = record st {
    buffers = put m.source (record buffer { held = buffer.held ++ m ∷ [] }) st.buffers;
  }

  unfoldable pub cut_full : TopicPartition → Draining → Draining
  unfolding cut
  cut_full tp st =
      let cut_now = cut tp st in
      if leb batch_size (length (held_in tp st.buffers)) then cut_now else st

  unfoldable pub exhaust_at : ℕ → Message → Draining → Draining
  exhaust_at end_ m st =
      if leb end_ (m.offset + 1) then record st { exhausted = m.source ∷ st.exhausted } else st

  -- The body of the loop over the messages of a poll in Drain; an error is the KeyError of a
  -- partition without a high-water mark, and carries what was done before.
  module _ (hwm : TopicPartition → Option ℕ) where
    unfoldable pub accept : ℕ → Message → Draining → Draining
    unfolding hold cut_full exhaust_at
    accept end_ m st =
        if leb end_ m.offset
        then record st { exhausted = m.source ∷ st.exhausted }
        else cut_full m.source (exhaust_at end_ m (hold m (buffer_of m.source st.buffers) st))

    unfoldable pub take_message : Message → Draining → Result Draining Draining
    unfolding accept
    take_message m st =
        if member m.source st.exhausted
        then ok st
        else elim (hwm m.source) [ none ↦ err st | some end_ ↦ ok (accept end_ m st) ]

    unfoldable pub take_messages : List Message → Draining → Result Draining Draining
    unfolding take_message
    take_messages [] st = ok st
    take_messages (m ∷ messages) st = do next ← take_message m st; take_messages messages next

    -- The loop; a poll comes with the clock after it.
    abbrev pub is_finished : List TopicPartition → Draining → Bool
    is_finished partitions st = all (λ tp. member tp st.exhausted) partitions && is_empty st.buffers

    unfoldable pub drain_from :
        List TopicPartition → List (List Message × ℕ) → Draining → Result Draining Draining
    unfolding cut_ready flush take_messages
    drain_from partitions [] st =
        let cut_st = cut_ready st in
        ok (if is_finished partitions cut_st then cut_st else flush cut_st)
    drain_from partitions ((messages, clock) ∷ polls) st =
        let cut_st = cut_ready st in
        elim (is_finished partitions cut_st) [
          | true ↦ ok cut_st
          | false ↦ elim messages [
            | [] ↦ ok (flush (record cut_st { clock = clock }))
            | m ∷ rest ↦ do
              taken ← take_messages (m ∷ rest) (record cut_st { clock = clock })
              drain_from partitions polls taken
          ]
        ]

    abbrev pub no_messages : TopicPartition → Bool
    no_messages tp = elim (hwm tp) [ none ↦ true | some end_ ↦ leb end_ 0 ]

    unfoldable pub drain :
        List TopicPartition → List (List Message × ℕ) → ℕ → Result Draining Draining
    unfolding drain_from
    drain partitions polls clock = drain_from partitions polls (record {
      buffers = [];
      exhausted = select no_messages partitions;
      clock = clock;
      yielded = [];
    })

  -- The continuous mode: one round for each poll before `should_stop` turns true.
  unfoldable pub append_message : Message → Draining → Draining
  unfolding hold cut_full
  append_message m st = cut_full m.source (hold m (buffer_of m.source st.buffers) st)

  unfoldable pub append_messages : List Message → Draining → Draining
  unfolding append_message
  append_messages [] st = st
  append_messages (m ∷ messages) st = append_messages messages (append_message m st)

  unfoldable pub continue_from : List (List Message × ℕ) → Draining → Draining
  unfolding cut_ready append_messages flush
  continue_from [] st = flush st
  continue_from ((messages, clock) ∷ polls) st =
      continue_from polls (append_messages messages (record (cut_ready st) { clock = clock }))

  unfoldable pub consume_continuous : List (List Message × ℕ) → ℕ → Draining
  unfolding continue_from
  consume_continuous polls clock =
      continue_from polls (record { buffers = []; exhausted = []; clock = clock; yielded = [] })
