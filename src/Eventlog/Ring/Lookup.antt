-- ===== src/Eventlog/Ring/Lookup.antt =====
-- `QueryByTaskID` finds what a search of the retained entries would.
use nuts.Base.{
  subst, refl, ap, sym, ◌∙◌, ◌≡◌, ◌<◌, ℕ, String, Bool, true, false, List, [], ◌∷◌, ◌==◌,
  if◌then◌else◌, select, str_eq, is_empty, eq_iff, arith, length, contains, Distinct, keep_last,
  All, Bool-cases, inl, inr,
}
use nuts.Base.Int.{pos}
use nuts.Eventlog.{EventLogEntry}
use nuts.Eventlog.Ring.{new_ring_log, find_by_ids, query_by_task_id}
use nuts.Eventlog.Ring.History.{append_all, retained, indexed_by_task}
use nuts.Eventlog.Ring.Index.{ids_of}

select-eq {ℓ} :
    {A : Type ℓ} (p q : A → Bool) (xs : List A)
    → All (λ x. p x ≡ q x) xs
    → select p xs ≡ select q xs
select-eq p q [] h = refl
select-eq p q (x ∷ xs) h = ground (arith, h.0, select-eq p q xs h.1)

select-none {ℓ} : {A : Type ℓ} (xs : List A) → select (λ x. false) xs ≡ []
select-none [] = refl
select-none (x ∷ xs) = select-none xs

length-none {ℓ} : {A : Type ℓ} (xs : List A) → (length xs == 0) ≡ true → xs ≡ []
length-none [] h = refl
length-none (x ∷ xs) h = absurd (ground (arith, h))

module _ {P : Type 0} (t : String) where
  abbrev pub about : EventLogEntry P → Bool
  about e = str_eq e.task_id t

  abbrev pub all_ids : List (EventLogEntry P) → List String
  all_ids [] = []
  all_ids (e ∷ es) = e.id ∷ all_ids es

  abbrev ids : List (EventLogEntry P) → List String
  ids es = ids_of (λ e. e.task_id) t es

  contains-ids :
      (es : List (EventLogEntry P)) (id : String)
      → contains (all_ids es) id ≡ false
      → contains (ids es) id ≡ false
  contains-ids [] id h = refl
  contains-ids (e ∷ es) id h = ground (arith, h, contains-ids es id)

  All-skip :
      (id : String) (found : List String) (es : List (EventLogEntry P))
      → contains (all_ids es) id ≡ false
      → All (λ e. contains found e.id ≡ about e) es
      → All (λ e. contains (id ∷ found) e.id ≡ about e) es
  All-skip id found [] h a = a
  All-skip id found (e ∷ es) h a = (
    ground (arith, h, a.0, eq_iff id e.id, eq_iff e.id id),
    All-skip id found es (ground (arith, h)) a.1,
  )

  All-found :
      (es : List (EventLogEntry P))
      → Distinct (all_ids es)
      → All (λ e. contains (ids es) e.id ≡ about e) es
  All-found [] d = tt
  All-found (e ∷ es) d = elim (Bool-cases (about e)) [
    | inl same ↦ (
      ground (arith, same, eq_iff e.id e.id),
      (let grown : ids (e ∷ es) ≡ e.id ∷ ids es = rw same refl in
          subst (λ js. All (λ x. contains js x.id ≡ about x) es) (sym grown)
            (All-skip e.id (ids es) es d.0 (All-found es d.1))),
    )
    | inr other ↦ (
      ground (arith, other, contains-ids es e.id d.0),
      (let alike : ids (e ∷ es) ≡ ids es = rw other refl in
          subst (λ js. All (λ x. contains js x.id ≡ about x) es) (sym alike) (All-found es d.1)),
    )
  ]

  module _ (zero_entry : EventLogEntry P) where
    -- If the ids of the retained entries differ from one another, `QueryByTaskID` with a nonempty task
    -- returns, of a log of a positive size, the retained entries about that task, in their order.
    pub query_by_task_id_lem :
        (n : ℕ) (es : List (EventLogEntry P))
        → 0 < n
        → is_empty t ≡ false
        → Distinct (all_ids (keep_last n es))
        → query_by_task_id zero_entry t (append_all zero_entry es (new_ring_log zero_entry (pos n)))
          ≡ select about (keep_last n es)
    unfolding query_by_task_id find_by_ids
    query_by_task_id_lem n es h named d =
        let r = append_all zero_entry es (new_ring_log zero_entry (pos n)) in
        let kept = keep_last n es in
        let found : select (λ e. contains (ids kept) e.id) kept ≡ select about kept =
          select-eq (λ e. contains (ids kept) e.id) about kept (All-found kept d) in
        let read : query_by_task_id zero_entry t r
            ≡ (if length (ids kept) == 0 then [] else select (λ e. contains (ids kept) e.id) kept) =
          rw (indexed_by_task zero_entry n es t h named, retained zero_entry n es h) refl in
        read ∙ elim (Bool-cases (length (ids kept) == 0)) [
          | inl none_there ↦ rw none_there (
              sym (select-none kept)
              ∙ ap (λ js. select (λ e. contains js e.id) kept)
                  (sym (length-none (ids kept) none_there))
              ∙ found)
          | inr some_there ↦ rw some_there found
        ]
