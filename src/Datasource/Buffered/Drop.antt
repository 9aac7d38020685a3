-- ===== src/Datasource/Buffered/Drop.antt =====
-- What the buffer keeps and counts over a sequence of events, for the policies that drop.
use nuts.Base.{
  append-step, append-nil, keep_last-nil, ◌≡◌, refl, sym, ◌∙◌, ℕ, suc, ◌<◌, Option, none, some,
  List, [], ◌∷◌, ◌++◌, ◌==◌, length, arith, keep_last, keep_last-append, length-append, Bool-cases,
  inl, inr,
}
use nuts.Datasource.Buffered.{
  BufferedDataSource, drop_oldest, buffer_event, new_buffered_data_source, push, count_full,
  new_ring_buffer,
}
use nuts.Datasource.Buffered.Window.{
  nothing_in, IsValid, contents, push-contents, new_ring_buffer-IsValid,
}

module _ {E : Type 0} where
  -- `bufferEvents` over the events that arrive, while none of them has to wait.
  unfoldable pub buffer_events :
      List (Option E) → BufferedDataSource E → Option (BufferedDataSource E)
  buffer_events [] b = some b
  buffer_events (event ∷ more) b = elim (buffer_event event b) [
    | none ↦ none
    | some b' ↦ buffer_events more b'
  ]

  -- The state after the events of `seen`, under `DropOldest`.
  record Kept (n : ℕ) (seen : List (Option E)) (b : BufferedDataSource E) : Type 0 where
    policy : b.drop_policy ≡ drop_oldest
    valid : IsValid b.buffer
    capacity : b.buffer.cap ≡ n
    holds : contents b.buffer ≡ keep_last n seen
    counted : b.stats.buffered_events ≡ length seen
    uncounted : b.stats.dropped_events ≡ 0

  -- Counting a full buffer leaves the buffer and the other counts alone.
  pub same-count_full :
      (m : ℕ) (b : BufferedDataSource E)
      → ((count_full m b).buffer ≡ b.buffer)
        × ((count_full m b).drop_policy ≡ b.drop_policy)
        × ((count_full m b).stats.buffered_events ≡ b.stats.buffered_events)
        × ((count_full m b).stats.dropped_events ≡ b.stats.dropped_events)
  unfolding count_full
  same-count_full m b = elim (Bool-cases (m == b.buffer_size)) [
    | inl e ↦ rw (e, count_full) (refl, refl, refl, refl)
    | inr e ↦ rw (e, count_full) (refl, refl, refl, refl)
  ]

  buffer_event-Kept :
      (n : ℕ) (seen : List (Option E)) (b : BufferedDataSource E) (x : Option E)
      → 0 < n
      → Kept n seen b
      → (b' : BufferedDataSource E) × (buffer_event x b ≡ some b') × Kept n (seen ++ (x ∷ [])) b'
  unfolding buffer_event
  buffer_event-Kept n seen b x h k =
      let p = push-contents x b.buffer k.valid in
      let filled = record b {
        buffer = (push x b.buffer).1;
        stats = record b.stats { buffered_events = suc b.stats.buffered_events };
      } in
      let same = same-count_full b.buffer.size filled in
      (
        count_full b.buffer.size filled,
        ground (arith, k.policy, p.1),
        record {
          policy = same.1 ∙ k.policy;
          valid = rw same.0 p.0;
          capacity = rw same.0 (p.2 ∙ k.capacity);
          holds = rw same.0 (p.3 ∙ (rw (k.holds, k.capacity) (sym (keep_last-append n seen x h))));
          counted = ground (arith, same.2, k.counted, length-append seen (x ∷ []));
          uncounted = same.3 ∙ k.uncounted;
        },
      )

  buffer_events-Kept :
      (n : ℕ) (seen more : List (Option E)) (b : BufferedDataSource E)
      → 0 < n
      → Kept n seen b
      → (b' : BufferedDataSource E) × (buffer_events more b ≡ some b') × Kept n (seen ++ more) b'
  unfolding buffer_events
  buffer_events-Kept n seen [] b h k = (b, refl, rw (append-nil seen) k)
  buffer_events-Kept n seen (x ∷ more) b h k =
      let (b₁, e₁, k₁) = buffer_event-Kept n seen b x h k in
      let (b₂, e₂, k₂) = buffer_events-Kept n (seen ++ (x ∷ [])) more b₁ h k₁ in
      (b₂, rw (e₁, buffer_events) e₂, rw (append-step seen more x) at k₂)

  pub new_ring_buffer-nil : (n : ℕ) → contents (new_ring_buffer {E = E} n) ≡ []
  unfolding new_ring_buffer
  new_ring_buffer-nil n = nothing_in (new_ring_buffer n) refl

  -- Under `DropOldest` a new buffer of a positive size takes any events without waiting: it then
  -- holds the last of them, as many as it has room for, has counted each as buffered, and none as
  -- dropped, however many have left it.
  pub drop_oldest_lem :
      (n : ℕ) (events : List (Option E))
      → 0 < n
      → (b : BufferedDataSource E) × (buffer_events events (new_buffered_data_source n drop_oldest)
          ≡ some b)
        × (contents b.buffer ≡ keep_last n events)
        × (b.stats.buffered_events ≡ length events)
        × (b.stats.dropped_events ≡ 0)
  unfolding new_buffered_data_source
  drop_oldest_lem n events h =
      let (b, e, k) =
        buffer_events-Kept n [] events (new_buffered_data_source n drop_oldest) h (record {
          policy = refl;
          valid = new_ring_buffer-IsValid n h;
          capacity = unfold new_ring_buffer in refl;
          holds = new_ring_buffer-nil n ∙ sym (keep_last-nil n);
          counted = refl;
          uncounted = refl;
        }) in
      (b, e, k.holds, k.counted, k.uncounted)
