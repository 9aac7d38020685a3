-- ===== src/Datasource/Buffered/Newest.antt =====
-- What the buffer keeps and counts over a sequence of events under `DropNewest`.
use nuts.Base.{
  ◌≡◌, refl, ap, sym, ◌∙◌, ℕ, suc, ◌+◌, ◌<◌, Option, some, List, [], ◌∷◌, ◌++◌, ◌==◌, length, take,
  arith, take-snoc, length-append, append-step, append-nil, Bool-cases, inl, inr, take-nil, true,
  false,
}
use nuts.Datasource.Buffered.{
  BufferedDataSource, drop_newest, buffer_event, new_buffered_data_source, push, count_full,
  new_ring_buffer, is_full,
}
use nuts.Datasource.Buffered.Window.{
  IsValid, contents, push-contents, new_ring_buffer-IsValid, length-contents,
}
use nuts.Datasource.Buffered.Drop.{buffer_events, same-count_full, new_ring_buffer-nil}

module _ {E : Type 0} where
  -- The state after the events of `seen`.
  record Refused (n : ℕ) (seen : List (Option E)) (b : BufferedDataSource E) : Type 0 where
    policy : b.drop_policy ≡ drop_newest
    valid : IsValid b.buffer
    capacity : b.buffer.cap ≡ n
    holds : contents b.buffer ≡ take n seen
    buffered : b.stats.buffered_events ≡ length (take n seen)
    counted : b.stats.buffered_events + b.stats.dropped_events ≡ length seen

  buffer_event-Refused :
      (n : ℕ) (seen : List (Option E)) (b : BufferedDataSource E) (x : Option E)
      → Refused n seen b
      → (b' : BufferedDataSource E) × (buffer_event x b ≡ some b') × Refused n (seen ++ (x ∷ [])) b'
  unfolding buffer_event is_full
  buffer_event-Refused n seen b x k = elim (Bool-cases (b.buffer.size == b.buffer.cap)) [
    | inl full ↦
        let long : (length (take n seen) == n) ≡ true =
          ground (arith, length-contents b.buffer, k.holds, k.capacity, full) in
        let same : take n (seen ++ (x ∷ [])) ≡ take n seen = take-snoc n seen x ∙ (rw long refl) in
        (
          record b { stats = record b.stats { dropped_events = suc b.stats.dropped_events } },
          ground (arith, k.policy, full),
          record {
            policy = k.policy;
            valid = k.valid;
            capacity = k.capacity;
            holds = k.holds ∙ sym same;
            buffered = k.buffered ∙ ap length (sym same);
            counted = ground (arith, k.counted, length-append seen (x ∷ []));
          },
        )
    | inr open_ ↦
        let short : (length (take n seen) == n) ≡ false =
          ground (arith, length-contents b.buffer, k.holds, k.capacity, open_) in
        let more : take n (seen ++ (x ∷ [])) ≡ take n seen ++ (x ∷ []) =
          take-snoc n seen x ∙ (rw short refl) in
        let p = push-contents x b.buffer k.valid in
        let room : (length (contents b.buffer) == b.buffer.cap) ≡ false =
          ground (arith, length-contents b.buffer, open_) in
        let filled = record b {
          buffer = (push x b.buffer).1;
          stats = record b.stats { buffered_events = suc b.stats.buffered_events };
        } in
        let kept = same-count_full b.buffer.size filled in
        (
          count_full b.buffer.size filled,
          ground (arith, k.policy, open_),
          record {
            policy = kept.1 ∙ k.policy;
            valid = rw kept.0 p.0;
            capacity = rw kept.0 (p.2 ∙ k.capacity);
            holds = rw kept.0 (p.3 ∙ (rw room (ap (λ ys. ys ++ (x ∷ [])) k.holds)) ∙ sym more);
            buffered =
                kept.2 ∙ ground (arith, more, k.buffered, length-append (take n seen) (x ∷ []));
            counted = ground (arith, kept.2, kept.3, k.counted, length-append seen (x ∷ []));
          },
        )
  ]

  buffer_events-Refused :
      (n : ℕ) (seen more : List (Option E)) (b : BufferedDataSource E)
      → Refused n seen b
      → (b' : BufferedDataSource E) × (buffer_events more b ≡ some b') × Refused n (seen ++ more) b'
  unfolding buffer_events
  buffer_events-Refused n seen [] b k = (b, refl, rw (append-nil seen) k)
  buffer_events-Refused n seen (x ∷ more) b k =
      let (b₁, e₁, k₁) = buffer_event-Refused n seen b x k in
      let (b₂, e₂, k₂) = buffer_events-Refused n (seen ++ (x ∷ [])) more b₁ k₁ in
      (b₂, rw (e₁, buffer_events) e₂, rw (append-step seen more x) at k₂)

  -- Under `DropNewest` a new buffer of a positive size takes any events without waiting: it then
  -- holds the first of them, up to its size, and each event is counted once, as buffered if it is
  -- held and as dropped if not.
  pub drop_newest_lem :
      (n : ℕ) (events : List (Option E))
      → 0 < n
      → (b : BufferedDataSource E) × (buffer_events events (new_buffered_data_source n drop_newest)
          ≡ some b)
        × (contents b.buffer ≡ take n events)
        × (b.stats.buffered_events ≡ length (take n events))
        × (b.stats.buffered_events + b.stats.dropped_events ≡ length events)
  unfolding new_buffered_data_source
  drop_newest_lem n events h =
      let (b, e, k) =
        buffer_events-Refused n [] events (new_buffered_data_source n drop_newest) (record {
          policy = refl;
          valid = new_ring_buffer-IsValid n h;
          capacity = unfold new_ring_buffer in refl;
          holds = new_ring_buffer-nil n ∙ sym (take-nil n);
          buffered = sym (ap length (take-nil {A = Option E} n));
          counted = refl;
        }) in
      (b, e, k.holds, k.buffered, k.counted)
