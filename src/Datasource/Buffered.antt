-- ===== src/Datasource/Buffered.antt =====
-- pkg/datasource/buffered.go: the ring buffer, and the loops that fill and drain it. Each method of
-- the ring holds its lock, and one round of a loop is one step.
use nuts.Base.{
  zero, ℕ, ◌+◌, ◌-◌, ◌%◌, Bool, ◌&&◌, Option, none, some, List, [], ◌∷◌, ◌++◌, ◌==◌, suc,
  if◌then◌else◌, get_or, set, replicate,
}
mod Window
mod Drop
mod Newest
mod Drain
mod Tests

-- `DropPolicy`
pub data DropPolicy : Type 0 where
  drop_oldest drop_newest block : DropPolicy

-- `RingBuffer`; an element is a pointer to an event, `none` for nil.
pub record RingBuffer (E : Type 0) : Type 0 where
  pub data_ : List (Option E)
  pub head : ℕ
  pub tail : ℕ
  pub size : ℕ
  pub cap : ℕ

-- `BufferStats`
pub record BufferStats : Type 0 where
  pub buffered_events : ℕ
  pub dropped_events : ℕ
  pub processed_events : ℕ
  pub full_count : ℕ

-- `BufferedDataSource`: what the loops read and write; `out` is what was sent on the channel.
pub record BufferedDataSource (E : Type 0) : Type 0 where
  pub buffer_size : ℕ
  pub drop_policy : DropPolicy
  pub buffer : RingBuffer E
  pub stats : BufferStats
  pub out : List E

abbrev count_dropped : BufferStats → BufferStats
count_dropped s = record s { dropped_events = suc s.dropped_events }

abbrev count_buffered : BufferStats → BufferStats
count_buffered s = record s { buffered_events = suc s.buffered_events }

module _ {E : Type 0} where
  -- `NewRingBuffer`
  unfoldable pub new_ring_buffer : ℕ → RingBuffer E
  new_ring_buffer capacity = record {
    data_ = replicate capacity none;
    head = 0;
    tail = 0;
    size = 0;
    cap = capacity;
  }

  unfoldable pub is_full : RingBuffer E → Bool
  is_full rb = rb.size == rb.cap

  -- The oldest element leaves: the `default` of `Push`, and `Pop`.
  unfoldable pub take_head : RingBuffer E → RingBuffer E
  take_head rb = record rb { head = (rb.head + 1) % rb.cap; size = rb.size - 1 }

  unfoldable pub put_tail : Option E → RingBuffer E → RingBuffer E
  put_tail event rb = record rb {
    data_ = set rb.data_ rb.tail event;
    tail = (rb.tail + 1) % rb.cap;
    size = suc rb.size;
  }

  -- `Push`: the result is the named result `dropped`, which the last `return nil` overwrites.
  unfoldable pub push : Option E → RingBuffer E → Option E × RingBuffer E
  push event rb =
      if (rb.size == rb.cap) && (rb.cap == 0)
      then (event, rb)
      else (none, put_tail event (if rb.size == rb.cap then take_head rb else rb))

  -- `Pop`
  unfoldable pub pop : RingBuffer E → Option E × RingBuffer E
  pop rb = if rb.size == 0 then (none, rb) else (get_or rb.data_ rb.head none, take_head rb)

  -- `NewBufferedDataSource`
  unfoldable pub new_buffered_data_source : ℕ → DropPolicy → BufferedDataSource E
  new_buffered_data_source buffer_size policy = record {
    buffer_size = buffer_size;
    drop_policy = policy;
    buffer = new_ring_buffer buffer_size;
    stats = record {
      buffered_events = 0;
      dropped_events = 0;
      processed_events = 0;
      full_count = 0;
    };
    out = [];
  }

  -- The last `if` of the round.
  unfoldable pub count_full : ℕ → BufferedDataSource E → BufferedDataSource E
  count_full before b =
      if before == b.buffer_size
      then record b { stats = record b.stats { full_count = suc b.stats.full_count } }
      else b

  -- One event through `bufferEvents`. Under `Block` a full buffer makes the round wait: `none`.
  unfoldable pub buffer_event : Option E → BufferedDataSource E → Option (BufferedDataSource E)
  buffer_event event b =
      let before = b.buffer.size in
      let (dropped, pushed) = push event b.buffer in
      let kept = record b { buffer = pushed; stats = count_buffered b.stats } in
      elim b.drop_policy [
        | drop_oldest ↦
            let counted : BufferStats = elim dropped [
              | none ↦ b.stats
              | some _ ↦ count_dropped b.stats
            ] in
            some (count_full before (record b { buffer = pushed; stats = count_buffered counted }))
        | drop_newest ↦
            if is_full b.buffer
            then some (record b { stats = count_dropped b.stats })
            else some (count_full before kept)
        | block ↦ if is_full b.buffer then none else some (count_full before kept)
      ]

  -- The inner loop of `flushEvents`: it ends at the first nil; a round takes one element out, so
  -- the size of the buffer is enough fuel.
  unfoldable pub flush : ℕ → BufferedDataSource E → BufferedDataSource E
  flush zero b = b
  flush (suc fuel) b =
      let (event, rest) = pop b.buffer in
      elim event [
        | none ↦ record b { buffer = rest }
        | some e ↦ flush fuel (record b {
          buffer = rest;
          stats = record b.stats { processed_events = suc b.stats.processed_events };
          out = b.out ++ (e ∷ []);
        })
      ]
