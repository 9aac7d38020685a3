-- ===== src/Task/Validator/Reachable.antt =====
-- pkg/task/sm_validator.go: `reachableStates` finds what the edges reach.
use nuts.Base.{
  ◌≡◌, ◌⊎◌, ◌↔◌, refl, true, false, List, [], ◌∷◌, ◌++◌, String, ℕ, zero, suc, ◌+◌, ◌≤◌, ◌<◌,
  contains, contains-append, lookup_list, length, length-append, arith, eq_iff, Bool-cases,
  str_eq_cases, inl, inr, eq_refl, subst, sym,
}
use nuts.Task.Validator.{Graph, targets, enqueue, search, reachable_states}
use nuts.Task.Validator.Search.{
  unseen-length, Edge, Reach, here, step, Closed, Within, Reach-Closed, Edge-targets, unseen,
  unseen-cons,
}

-- What one turn of the loop adds.
record Enqueued (us reach queue next reach' queue' : List String) : Type 0 where
  keeps : Within reach reach'
  waits : Within queue queue'
  reaches : Within next reach'
  only :
      (s : String) → contains reach' s ≡ true → (contains reach s ≡ true) ⊎ (contains next s ≡ true)
  queued :
      (s : String) → contains reach' s ≡ true → contains reach s ≡ false → contains queue' s ≡ true
  late :
      (s : String)
      → contains queue' s ≡ true
      → (contains queue s ≡ true) ⊎ (contains reach' s ≡ true)
  measure : unseen us reach' + length queue' ≤ unseen us reach + length queue

enqueue-Enqueued :
    (us reach queue next : List String)
    → Within next us
    → Enqueued us reach queue next (enqueue reach queue next).0 (enqueue reach queue next).1
unfolding enqueue
enqueue-Enqueued us reach queue [] h = record {
  keeps = λ s i. i;
  waits = λ s i. i;
  reaches = λ s i. absurd (ground (arith, i));
  only = λ s i. inl i;
  queued = λ s i n. absurd (ground (arith, i, n));
  late = λ s i. inl i;
  measure = omega arith;
}
enqueue-Enqueued us reach queue (x ∷ next) h = elim (Bool-cases (contains reach x)) [
  | inl e ↦
      let r = enqueue-Enqueued us reach queue next (λ s i. h s (ground (arith, i))) in
      rw e (record {
        keeps = r.keeps;
        waits = r.waits;
        reaches = λ s i. ground (arith, i, r.reaches s, r.keeps s, e, eq_iff x s);
        only = λ s i. elim (r.only s i) [ inl a ↦ inl a | inr b ↦ inr (ground (arith, b)) ];
        queued = r.queued;
        late = r.late;
        measure = r.measure;
      })
  | inr e ↦
      let r =
        enqueue-Enqueued us (x ∷ reach) (queue ++ (x ∷ [])) next (λ s i. h s (ground (arith, i))) in
      rw e (record {
        keeps = λ s i. r.keeps s (ground (arith, i));
        waits = λ s i. r.waits s (ground (arith, i, contains-append queue (x ∷ []) s));
        reaches = λ s i. elim (str_eq_cases x s) [
          | inl y ↦ r.keeps s (ground (arith, y, eq_iff x s))
          | inr n ↦ r.reaches s (ground (arith, i, n))
        ];
        only = λ s i. elim (r.only s i) [
          | inl a ↦ elim (str_eq_cases x s) [
            | inl y ↦ inr (ground (arith, y, eq_iff x s))
            | inr n ↦ inl (ground (arith, a, n))
          ]
          | inr b ↦ inr (ground (arith, b))
        ];
        queued = λ s i n. elim (str_eq_cases x s) [
          | inl y ↦ r.waits s (ground (arith, y, eq_iff x s, contains-append queue (x ∷ []) s))
          | inr m ↦ r.queued s i (ground (arith, n, m))
        ];
        late = λ s i. elim (r.late s i) [
          | inr b ↦ inr b
          | inl a ↦ elim (str_eq_cases x s) [
            | inl y ↦ inr (r.keeps s (ground (arith, y, eq_iff x s)))
            | inr n ↦ inl (ground (arith, a, n, contains-append queue (x ∷ []) s))
          ]
        ];
        measure = ground (
          arith,
          r.measure,
          length-append queue (x ∷ []),
          unseen-cons us reach x (h x (ground (arith, eq_refl x))) e,
        );
      })
]

module _ (graph : Graph) where
  -- What is reached is expanded, or waits in the queue.
  Expanded : List String → List String → Type 0
  Expanded reach queue =
      (s : String)
      → contains reach s ≡ true
      → contains queue s ≡ false
      → (t : String) → Edge graph s t
      → contains reach t ≡ true

  search-Closed :
      (n : ℕ) (reach queue : List String)
      → unseen (targets graph) reach + length queue < n
      → Expanded reach queue
      → Within reach (search n graph reach queue) × Closed graph (search n graph reach queue)
  unfolding search Expanded
  search-Closed zero reach queue h inv = absurd (ground (arith, h))
  search-Closed (suc n) reach [] h inv = (λ s i. i, λ s t i e. inv s i refl t e)
  search-Closed (suc n) reach (cur ∷ queue) h inv =
      let next = lookup_list cur graph in
      let r =
        enqueue-Enqueued (targets graph) reach queue next (λ s i. Edge-targets graph cur s i) in
      let (keep, closed) =
        search-Closed n (enqueue reach queue next).0 (enqueue reach queue next).1
          (ground (arith, h, r.measure))
          (λ s i q t e. elim (str_eq_cases cur s) [
            | inl y ↦ r.reaches t (subst (λ x. Edge graph x t) (sym y) e)
            | inr n ↦ elim (Bool-cases (contains reach s)) [
              | inl i' ↦ r.keeps t (inv s i' (ground (arith, q, n, r.waits s)) t e)
              | inr i' ↦ absurd (ground (arith, q, r.queued s i i'))
            ]
          ]) in
      (λ s i. keep s (r.keeps s i), closed)

  search-Reach :
      (start : String) (n : ℕ) (reach queue : List String)
      → ((s : String) → contains reach s ≡ true → Reach graph start s)
      → Within queue reach
      → (s : String) → contains (search n graph reach queue) s ≡ true
      → Reach graph start s
  unfolding search
  search-Reach start zero reach queue h q s i = h s i
  search-Reach start (suc n) reach [] h q s i = h s i
  search-Reach start (suc n) reach (cur ∷ queue) h q s i =
      let next = lookup_list cur graph in
      let r =
        enqueue-Enqueued (targets graph) reach queue next (λ s i. Edge-targets graph cur s i) in
      search-Reach start n (enqueue reach queue next).0 (enqueue reach queue next).1
        (λ t j. elim (r.only t j) [
          | inl a ↦ h t a
          | inr e ↦ step (h cur (q cur (ground (arith, eq_refl cur)))) e
        ])
        (λ t j. elim (r.late t j) [ inl a ↦ r.keeps t (q t (ground (arith, a))) | inr b ↦ b ]) s i

  -- The search names exactly the states that the edges reach from the start; its fuel is enough.
  pub reachable_states_lem :
      (start s : String) → (contains (reachable_states start graph) s ≡ true) ↔ Reach graph start s
  unfolding reachable_states Expanded
  reachable_states_lem start s =
      let (keep, closed) =
        search-Closed (suc (suc (length (targets graph)))) (start ∷ []) (start ∷ [])
          (ground (arith, unseen-length (targets graph) (start ∷ [])))
          (λ u i q t e. absurd (ground (arith, i, q))) in
      (
        search-Reach start (suc (suc (length (targets graph)))) (start ∷ []) (start ∷ [])
            (λ t i. subst (Reach graph start) (ground (arith, i, eq_iff start t)) here) (λ t i. i)
            s,
        Reach-Closed graph (reachable_states start graph) start s closed
            (keep start (ground (arith, eq_refl start))),
      )
