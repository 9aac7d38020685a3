-- ===== src/Datasource/Buffered/Window.antt =====
-- The ring buffer as a bounded queue.
use nuts.Base.{
  refl, ◌==◌, Bool-cases, inl, inr, ap, sym, ◌∙◌, wrap_next, wrap_apart, tabulate-drop,
  get_or-tabulate, length-tabulate, suc, ℕ, ◌+◌, ◌-◌, ◌%◌, ◌≡◌, ◌<◌, ◌≤◌, Option, none, List, [],
  ◌∷◌, ◌++◌, if◌then◌else◌, get_or, set, length, drop, arith, tabulate, tabulate-eq, tabulate-suc,
  mod_once, get_or-set_self, get_or-set_ne, length-set, length-replicate, ◌∙◌, suc, wrap_apart, sym,
  ap, wrap_next, tabulate-drop, true, false,
}
use nuts.Datasource.Buffered.{RingBuffer, push, pop, put_tail, take_head, new_ring_buffer}

pub record IsValid {E : Type 0} (rb : RingBuffer E) : Type 0 where
  pub storage : length rb.data_ ≡ rb.cap
  pub positive : 0 < rb.cap
  pub head_in : rb.head < rb.cap
  pub size_in : rb.size ≤ rb.cap
  pub tail_at : rb.tail ≡ (rb.head + rb.size) % rb.cap

-- The elements, the oldest first.
unfoldable pub contents : {E : Type 0} → RingBuffer E → List (Option E)
contents rb = tabulate (λ i. get_or rb.data_ ((rb.head + i) % rb.cap) none) rb.size

module _ {E : Type 0} where
  tail_in : (rb : RingBuffer E) → IsValid rb → rb.tail < rb.cap
  tail_in rb v = ground (
    arith,
    v.tail_at,
    v.head_in,
    v.size_in,
    mod_once (rb.head + rb.size) rb.cap (omega (arith, v.head_in, v.size_in)),
  )

  pub new_ring_buffer-IsValid : (n : ℕ) → 0 < n → IsValid (new_ring_buffer {E = E} n)
  unfolding new_ring_buffer
  new_ring_buffer-IsValid n h = record {
    storage = length-replicate n none;
    positive = h;
    head_in = h;
    size_in = omega arith;
    tail_at = ground (arith, h, mod_once 0 n (omega (arith, h)));
  }

  put_tail-IsValid :
      (x : Option E) (rb : RingBuffer E) → IsValid rb → rb.size < rb.cap → IsValid (put_tail x rb)
  unfolding put_tail
  put_tail-IsValid x rb v h = record {
    storage = ground (arith, v.storage, length-set rb.data_ rb.tail x);
    positive = v.positive;
    head_in = v.head_in;
    size_in = omega (arith, h);
    tail_at = ground (
      arith,
      v.tail_at,
      v.head_in,
      h,
      mod_once (rb.head + rb.size) rb.cap (omega (arith, v.head_in, h)),
      mod_once (rb.tail + 1) rb.cap (omega (arith, tail_in rb v, v.positive)),
      mod_once (rb.head + (rb.size + 1)) rb.cap (omega (arith, v.head_in, h)),
    );
  }

  take_head-IsValid : (rb : RingBuffer E) → IsValid rb → 0 < rb.size → IsValid (take_head rb)
  unfolding take_head
  take_head-IsValid rb v h = record {
    storage = v.storage;
    positive = v.positive;
    head_in =
        ground
          (arith, v.head_in, mod_once (rb.head + 1) rb.cap (omega (arith, v.head_in, v.positive)));
    size_in = omega (arith, v.size_in);
    tail_at =
        v.tail_at
        ∙ ap (λ k. k % rb.cap) {x = rb.head + rb.size} {y = rb.head + suc (rb.size - 1)}
            (omega (arith, h))
        ∙ sym (wrap_next rb.head (rb.size - 1) rb.cap);
  }

  contents-put_tail :
      (x : Option E) (rb : RingBuffer E)
      → IsValid rb
      → rb.size < rb.cap
      → contents (put_tail x rb) ≡ contents rb ++ (x ∷ [])
  unfolding contents put_tail
  contents-put_tail x rb v h =
      let at = λ (i : ℕ). (rb.head + i) % rb.cap in
      let written = λ (i : ℕ). get_or (set rb.data_ rb.tail x) (at i) none in
      let older : tabulate written rb.size ≡ contents rb =
        tabulate-eq written (λ i. get_or rb.data_ (at i) none) rb.size
          (λ i l.
            get_or-set_ne rb.data_ x none
              (λ e. wrap_apart rb.head i rb.size rb.cap v.head_in l h (sym v.tail_at ∙ e))) in
      let newest : written rb.size ≡ x =
        ap (λ k. get_or (set rb.data_ rb.tail x) k none) (sym v.tail_at)
        ∙ get_or-set_self rb.data_ rb.tail x none (ground (arith, v.storage, tail_in rb v)) in
      tabulate-suc written rb.size ∙ cc (older, newest)

  contents-take_head :
      (rb : RingBuffer E)
      → IsValid rb
      → 0 < rb.size
      → contents (take_head rb) ≡ drop 1 (contents rb)
  unfolding contents take_head
  contents-take_head rb v h =
      let at = λ (i : ℕ). (rb.head + i) % rb.cap in
      tabulate-eq (λ i. get_or rb.data_ (((rb.head + 1) % rb.cap + i) % rb.cap) none)
        (λ i. get_or rb.data_ (at (suc i)) none) (rb.size - 1)
        (λ i l. ap (λ k. get_or rb.data_ k none) (wrap_next rb.head i rb.cap))
      ∙ tabulate-drop (λ i. get_or rb.data_ (at i) none) rb.size h

  pub length-contents : (rb : RingBuffer E) → length (contents rb) ≡ rb.size
  unfolding contents
  length-contents rb = length-tabulate _ rb.size

  take_head-is_free :
      (rb : RingBuffer E)
      → IsValid rb
      → (rb.size == rb.cap) ≡ true
      → (take_head rb).size < (take_head rb).cap
  unfolding take_head
  take_head-is_free rb v full = ground (arith, full, v.positive)

  -- On a valid ring `Push` keeps the representation, and appends to the queue; a full queue loses its
  -- oldest element. It returns nil in either case.
  pub push-contents :
      (x : Option E) (rb : RingBuffer E)
      → IsValid rb
      → let (dropped, rb') = push x rb in
        IsValid rb'
        × (dropped ≡ none)
        × (rb'.cap ≡ rb.cap)
        × (contents rb'
            ≡ (if length (contents rb) == rb.cap then drop 1 (contents rb) else contents rb)
              ++ (x ∷ []))
  unfolding push
  push-contents x rb v = elim (Bool-cases (rb.size == rb.cap)) [
    | inl full ↦
        let room = take_head-IsValid rb v (ground (arith, full, v.positive)) in
        let some_in : 0 < rb.size = ground (arith, full, v.positive) in
        let room = take_head-IsValid rb v some_in in
        let some_cap : (rb.cap == 0) ≡ false = ground (arith, v.positive) in
        let free = take_head-is_free rb v full in
        let long : (length (contents rb) == rb.cap) ≡ true =
          ground (arith, length-contents rb, full) in
        rw (full, some_cap, long, push)
          (
            put_tail-IsValid x (take_head rb) room free,
            refl,
            (unfold put_tail take_head in refl),
            rw (sym (contents-take_head rb v some_in))
                (contents-put_tail x (take_head rb) room free),
          )
    | inr open_ ↦
        let free : rb.size < rb.cap = ground (arith, open_, v.size_in) in
        let short : (length (contents rb) == rb.cap) ≡ false =
          ground (arith, length-contents rb, open_) in
        rw (open_, short, push)
          (
            put_tail-IsValid x rb v free,
            refl,
            (unfold put_tail in refl),
            contents-put_tail x rb v free,
          )
  ]

  first_in :
      (rb : RingBuffer E)
      → IsValid rb
      → 0 < rb.size
      → get_or rb.data_ rb.head none ≡ get_or (contents rb) 0 none
  unfolding contents
  first_in rb v held =
      let at = λ (i : ℕ). get_or rb.data_ ((rb.head + i) % rb.cap) none in
      ap (λ k. get_or rb.data_ k none)
        (ground (arith, v.head_in, mod_once (rb.head + 0) rb.cap (omega (arith, v.head_in))))
      ∙ sym (get_or-tabulate at rb.size none held)

  pub nothing_in : (rb : RingBuffer E) → (rb.size == 0) ≡ true → contents rb ≡ []
  unfolding contents
  nothing_in rb e =
      ap (tabulate (λ i. get_or rb.data_ ((rb.head + i) % rb.cap) none)) {x = rb.size} {y = 0}
        (ground (arith, e))

  -- On a valid ring `Pop` keeps the representation, and takes the oldest element, or nil from an empty queue.
  pub pop-contents :
      (rb : RingBuffer E)
      → IsValid rb
      → let (event, rb') = pop rb in
        IsValid rb'
        × (rb'.cap ≡ rb.cap)
        × (event ≡ get_or (contents rb) 0 none)
        × (contents rb' ≡ drop 1 (contents rb))
  unfolding pop
  pop-contents rb v = elim (Bool-cases (rb.size == 0)) [
    | inl empty ↦ rw (empty, nothing_in rb empty, pop) (v, refl, refl, refl)
    | inr some_in ↦
        let held : 0 < rb.size = ground (arith, some_in) in
        rw (some_in, pop)
          (
            take_head-IsValid rb v held,
            (unfold take_head in refl),
            first_in rb v held,
            contents-take_head rb v held,
          )
  ]
