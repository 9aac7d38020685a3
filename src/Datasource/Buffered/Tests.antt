-- ===== src/Datasource/Buffered/Tests.antt =====
-- Three events into a buffer of two.
use nuts.Base.{refl, ◌≡◌, Option, some, List, [], ◌∷◌, ℕ, arith, length, keep_last, take, ◌+◌}
use nuts.Datasource.Buffered.{
  flush, put_tail, BufferedDataSource, drop_oldest, drop_newest, new_buffered_data_source,
  new_ring_buffer, push, RingBuffer,
}
use nuts.Datasource.Buffered.Window.{IsValid, contents, push-contents, new_ring_buffer-IsValid}
use nuts.Datasource.Buffered.Drain.{flush_lem}
use nuts.Datasource.Buffered.Newest.{drop_newest_lem}
use nuts.Datasource.Buffered.Drop.{buffer_events, drop_oldest_lem}

abbrev events : List (Option ℕ)
events = some 1 ∷ some 2 ∷ some 3 ∷ []

drop_oldest_lem_example :
    (b : BufferedDataSource ℕ) × (buffer_events events (new_buffered_data_source 2 drop_oldest)
      ≡ some b)
    × (contents b.buffer ≡ keep_last 2 events)
    × (b.stats.buffered_events ≡ length events)
    × (b.stats.dropped_events ≡ 0)
drop_oldest_lem_example = drop_oldest_lem 2 events (omega arith)

abbrev one_in : RingBuffer ℕ
one_in = (push (some 1) (new_ring_buffer 2)).1

one_in-IsValid : IsValid one_in
one_in-IsValid =
    (push-contents (some 1) (new_ring_buffer 2) (new_ring_buffer-IsValid 2 (omega arith))).0

drop_newest_lem_example :
    (b : BufferedDataSource ℕ) × (buffer_events events (new_buffered_data_source 2 drop_newest)
      ≡ some b)
    × (contents b.buffer ≡ take 2 events)
    × (b.stats.buffered_events ≡ 2)
    × (b.stats.buffered_events + b.stats.dropped_events ≡ 3)
drop_newest_lem_example = drop_newest_lem 2 events (omega arith)

abbrev one_waiting : BufferedDataSource ℕ
one_waiting = record (new_buffered_data_source 2 drop_oldest) { buffer = one_in }

one_in-contents : contents one_in ≡ some 1 ∷ []
unfolding contents push put_tail new_ring_buffer
one_in-contents = refl

flush_lem_example :
    let b = flush 2 one_waiting in
    (b.out ≡ 1 ∷ []) × (contents b.buffer ≡ []) × (b.stats.processed_events ≡ 1)
unfolding new_buffered_data_source
flush_lem_example = flush_lem 2 (1 ∷ []) one_waiting one_in-IsValid one_in-contents (omega arith)
