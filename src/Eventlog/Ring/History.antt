-- ===== src/Eventlog/Ring/History.antt =====
-- The log after any number of entries: what it retains, and what the queries by task and by trace
-- return.
use nuts.Base.{
  lookup, append-step, append-nil, keep_last-nil, get_or, refl, ap, sym, subst, ◌∙◌, ◌≡◌, ◌<◌, ℕ,
  String, true, false, List, [], ◌∷◌, ◌++◌, ◌==◌, is_empty, arith, lookup_list, length, drop,
  keep_last, keep_last-append, some, Bool-cases, inl, inr,
}
use nuts.Base.Int.{pos}
use nuts.Eventlog.{EventLogEntry}
use nuts.Eventlog.Ring.{RingLog, in_order, store_entry, forget_oldest, append, new_ring_log}
use nuts.Eventlog.Ring.Window.{
  IsValid, in_order-grown, in_order-full, oldest-full, new_ring_log-IsValid, forget_oldest-IsValid,
  in_order-forget_oldest, store_entry-IsValid, length-in_order,
}
use nuts.Eventlog.Ring.Index.{Agrees, ids_of, add_id-Agrees, drop_id-Agrees}

module _ {P : Type 0} (zero_entry : EventLogEntry P) where
  unfoldable pub append_all : List (EventLogEntry P) → RingLog P → RingLog P
  append_all [] r = r
  append_all (e ∷ more) r = append_all more (append zero_entry (some e) r)

  -- The log of size `n` after the entries of `seen`.
  record Holds (n : ℕ) (seen : List (EventLogEntry P)) (r : RingLog P) : Type 0 where
    valid : IsValid r
    sized : r.size ≡ n
    order : in_order zero_entry r ≡ keep_last n seen
    by_trace : Agrees (λ e. e.trace_id) r.trace_index (in_order zero_entry r)
    by_task : Agrees (λ e. e.task_id) r.task_index (in_order zero_entry r)

  -- The new entry over the retained ones, `kept`, that the index agrees with.
  stored-Holds :
      (n : ℕ) (seen kept : List (EventLogEntry P)) (e : EventLogEntry P) (r : RingLog P)
      → IsValid r
      → r.size ≡ n
      → in_order zero_entry (store_entry zero_entry e r) ≡ kept ++ (e ∷ [])
      → kept ++ (e ∷ []) ≡ keep_last n seen
      → Agrees (λ x. x.trace_id) r.trace_index kept
      → Agrees (λ x. x.task_id) r.task_index kept
      → Holds n seen (store_entry zero_entry e r)
  unfolding store_entry
  stored-Holds n seen kept e r v sized grown last t k = record {
    valid = store_entry-IsValid zero_entry e r v;
    sized = sized;
    order = grown ∙ last;
    by_trace =
        subst (Agrees (λ x. x.trace_id) (store_entry zero_entry e r).trace_index) (sym grown)
          (add_id-Agrees (λ x. x.trace_id) r.trace_index kept e t);
    by_task =
        subst (Agrees (λ x. x.task_id) (store_entry zero_entry e r).task_index) (sym grown)
          (add_id-Agrees (λ x. x.task_id) r.task_index kept e k);
  }

  append-Holds :
      (n : ℕ) (seen : List (EventLogEntry P)) (e : EventLogEntry P) (r : RingLog P)
      → 0 < n
      → Holds n seen r
      → Holds n (seen ++ (e ∷ [])) (append zero_entry (some e) r)
  unfolding append forget_oldest
  append-Holds n seen e r h k = elim (Bool-cases (r.count == r.size)) [
    | inl full ↦
        let same : r.count ≡ r.size = ground (arith, full) in
        let old = get_or r.entries r.head zero_entry in
        let rest = drop 1 (in_order zero_entry r) in
        let whole : in_order zero_entry r ≡ old ∷ rest = oldest-full zero_entry r k.valid same in
        let f = forget_oldest zero_entry r in
        let vf = forget_oldest-IsValid zero_entry r k.valid in
        let long : (length (keep_last n seen) == n) ≡ true =
          ground (arith, length-in_order zero_entry r, k.order, k.sized, full) in
        let grown : in_order zero_entry (store_entry zero_entry e f) ≡ rest ++ (e ∷ []) =
          in_order-full zero_entry e f vf same
          ∙ ap (λ ys. drop 1 ys ++ (e ∷ [])) (in_order-forget_oldest zero_entry r) in
        let last : rest ++ (e ∷ []) ≡ keep_last n (seen ++ (e ∷ [])) =
          ap (λ ys. drop 1 ys ++ (e ∷ [])) k.order
          ∙ sym (keep_last-append n seen e h ∙ (rw long refl)) in
        rw (full, append)
          (stored-Holds n (seen ++ (e ∷ [])) rest e f vf k.sized grown last
            (drop_id-Agrees (λ x. x.trace_id) r.trace_index rest old
              (subst (Agrees (λ x. x.trace_id) r.trace_index) whole k.by_trace))
            (drop_id-Agrees (λ x. x.task_id) r.task_index rest old
              (subst (Agrees (λ x. x.task_id) r.task_index) whole k.by_task)))
    | inr open_ ↦
        let free : r.count < r.size = ground (arith, open_, k.valid.count_in) in
        let short : (length (keep_last n seen) == n) ≡ false =
          ground (arith, length-in_order zero_entry r, k.order, k.sized, open_) in
        let last : in_order zero_entry r ++ (e ∷ []) ≡ keep_last n (seen ++ (e ∷ [])) =
          ap (λ ys. ys ++ (e ∷ [])) k.order ∙ sym (keep_last-append n seen e h ∙ (rw short refl)) in
        rw (open_, append)
          (stored-Holds n (seen ++ (e ∷ [])) (in_order zero_entry r) e r k.valid k.sized
            (in_order-grown zero_entry e r k.valid free) last k.by_trace k.by_task)
  ]

  append_all-Holds :
      (n : ℕ) (seen more : List (EventLogEntry P)) (r : RingLog P)
      → 0 < n
      → Holds n seen r
      → Holds n (seen ++ more) (append_all more r)
  unfolding append_all
  append_all-Holds n seen [] r h k = rw (append-nil seen) k
  append_all-Holds n seen (e ∷ more) r h k =
      rw (sym (append-step seen more e))
        (append_all-Holds n (seen ++ (e ∷ [])) more _ h (append-Holds n seen e r h k))

  nothing-Agrees : (key : EventLogEntry P → String) → Agrees key [] []
  unfolding lookup_list lookup
  nothing-Agrees key k = elim (Bool-cases (is_empty k)) [ inl e ↦ rw e refl | inr e ↦ rw e refl ]

  new_ring_log-Holds : (n : ℕ) → 0 < n → Holds n [] (new_ring_log zero_entry (pos n))
  unfolding new_ring_log in_order
  new_ring_log-Holds n h = record {
    valid = new_ring_log-IsValid zero_entry (pos n);
    sized = ground (arith, h);
    order = sym (keep_last-nil n);
    by_trace = nothing-Agrees λ x. x.trace_id;
    by_task = nothing-Agrees λ x. x.task_id;
  }

  -- A log of a positive size retains, of any entries appended to it, the last ones, up to its size,
  -- in the order in which they came.
  pub retained :
      (n : ℕ) (es : List (EventLogEntry P))
      → 0 < n
      → in_order zero_entry (append_all es (new_ring_log zero_entry (pos n))) ≡ keep_last n es
  retained n es h = (append_all-Holds n [] es _ h (new_ring_log-Holds n h)).order

  -- The task index of such a log holds, under each task, the ids of the retained entries about it.
  pub indexed_by_task :
      (n : ℕ) (es : List (EventLogEntry P)) (task_id : String)
      → 0 < n
      → is_empty task_id ≡ false
      → lookup_list task_id (append_all es (new_ring_log zero_entry (pos n))).task_index
        ≡ ids_of (λ e. e.task_id) task_id (keep_last n es)
  indexed_by_task n es task_id h named =
      let k = append_all-Holds n [] es _ h (new_ring_log-Holds n h) in
      k.by_task task_id ∙ (rw named (ap (ids_of (λ e. e.task_id) task_id) k.order))
