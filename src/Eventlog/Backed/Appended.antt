-- ===== src/Eventlog/Backed/Appended.antt =====
-- pkg/eventlog/store.go: the entries of a task are those appended about it.
use nuts.Base.{
  ◌≡◌, refl, sym, subst, true, false, Option, none, some, List, [], ◌∷◌, ◌++◌, String, str_eq,
  str_eq-join, is_empty, contains, select, lookup_list, length, ◌==◌, All, arith, Option-cases, inl,
  inr, eq_refl, str_eq_sym, Distinct, append-nil, append-step,
}
use nuts.Db.{Db, DbLaws, Json, encoded, is_some}
use nuts.Eventlog.{EventLogEntry}
use nuts.Eventlog.Ring.Index.{Agrees, ids_of, add_id-Agrees}
use nuts.Eventlog.Ring.Lookup.{about, all_ids}
use nuts.Eventlog.Backed.{
  BackedLog, entry_key, read_entry, get_by_ids, index_entry, append_entry, entries_of_task,
}

module _ {D P : Type 0} (db : Db D (Json (EventLogEntry P))) (laws : DbLaws db) where
  -- The log holds the entries: each can be read, and the index by task names them in order.
  pub record Holds (l : BackedLog D) (es : List (EventLogEntry P)) : Type 0 where
    pub readable : All (λ e. read_entry db l.backing (entry_key e.id) ≡ some e) es
    pub indexed : Agrees (λ e. e.task_id) l.task_index es

  -- Entries appended one after another; an error ends it.
  unfoldable pub append_each : List (EventLogEntry P) → BackedLog D → Option (BackedLog D)
  append_each [] l = some l
  append_each (e ∷ es) l = elim (append_entry db "" (some e) l) [
    | none ↦ none
    | some l' ↦ append_each es l'
  ]

  readable-write :
      (d d' : D) (e : EventLogEntry P) (es : List (EventLogEntry P))
      → contains (all_ids "" es) e.id ≡ false
      → db.write d (entry_key e.id) (encoded e) ≡ some d'
      → All (λ x. read_entry db d (entry_key x.id) ≡ some x) es
      → All (λ x. read_entry db d' (entry_key x.id) ≡ some x) (es ++ (e ∷ []))
  unfolding read_entry entry_key
  readable-write d d' e [] n w a = (
    ground (
      arith,
      laws.get-write d d' (entry_key e.id) (entry_key e.id) (encoded e) w,
      eq_refl (entry_key e.id),
    ),
    tt,
  )
  readable-write d d' e (x ∷ es) n w a = (
    ground (
      arith,
      laws.get-write d d' (entry_key e.id) (entry_key x.id) (encoded e) w,
      str_eq-join "eventlog:" e.id x.id,
      a.0,
      n,
      str_eq_sym e.id x.id,
    ),
    readable-write d d' e es (ground (arith, n)) w a.1,
  )

  append-Holds :
      (e : EventLogEntry P) (l l' : BackedLog D) (es : List (EventLogEntry P))
      → is_empty e.id ≡ false
      → contains (all_ids "" es) e.id ≡ false
      → Holds l es
      → append_entry db "" (some e) l ≡ some l'
      → Holds l' (es ++ (e ∷ []))
  unfolding append_entry index_entry
  append-Holds e l l' es named fresh h done =
      elim (Option-cases (db.write l.backing (entry_key e.id) (encoded e))) [
        | inl n ↦ absurd (ground (arith, named, n, done))
        | inr (d, w) ↦
            let out : index_entry db e (record l { backing = d }) ≡ l' =
              ground (arith, named, w, done) in
            subst (λ x. Holds x (es ++ (e ∷ []))) out
              (record {
                readable = readable-write l.backing d e es fresh w h.readable;
                indexed =
                    add_id-Agrees (λ (x : EventLogEntry P). x.task_id) l.task_index es e h.indexed;
              })
      ]

  get_by_ids-ids_of :
      (d : D) (task_id : String) (es : List (EventLogEntry P))
      → All (λ e. read_entry db d (entry_key e.id) ≡ some e) es
      → get_by_ids db d (ids_of (λ e. e.task_id) task_id es) ≡ select (about task_id) es
  unfolding get_by_ids
  get_by_ids-ids_of d task_id [] a = refl
  get_by_ids-ids_of d task_id (e ∷ es) a = ground (arith, a.0, get_by_ids-ids_of d task_id es a.1)

  get_by_ids-none :
      (d : D) (ids : List String) → (length ids == 0) ≡ true → get_by_ids db d ids ≡ []
  unfolding get_by_ids
  get_by_ids-none d [] e = refl
  get_by_ids-none d (id ∷ ids) e = absurd (ground (arith, e))

  -- Of a log that holds some entries, the entries of a task are those about it, in their order.
  entries_of_task-Holds :
      (task_id : String) (l : BackedLog D) (es : List (EventLogEntry P))
      → is_empty task_id ≡ false
      → Holds l es
      → entries_of_task db task_id l ≡ select (about task_id) es
  unfolding entries_of_task
  entries_of_task-Holds task_id l es named h =
      let ids = lookup_list task_id l.task_index in
      let same : ids ≡ ids_of (λ e. e.task_id) task_id es =
        ground (arith, h.indexed task_id, named) in
      let found = get_by_ids-ids_of l.backing task_id es h.readable in
      let all : get_by_ids db l.backing ids ≡ select (about task_id) es = rw same found in
      ground (arith, all, get_by_ids-none l.backing ids)

  Distinct-middle :
      (before : List (EventLogEntry P)) (e : EventLogEntry P) (es : List (EventLogEntry P))
      → Distinct (all_ids "" (before ++ (e ∷ es)))
      → contains (all_ids "" before) e.id ≡ false
  Distinct-middle [] e es d = refl
  Distinct-middle (x ∷ before) e es (n, d) =
      ground (arith, Distinct-middle before e es d, apart before n)
    where
      apart :
          (xs : List (EventLogEntry P))
          → contains (all_ids "" (xs ++ (e ∷ es))) x.id ≡ false
          → str_eq x.id e.id ≡ false
      apart [] h = ground (arith, h, str_eq_sym x.id e.id)
      apart (y ∷ ys) h = apart ys (ground (arith, h))

  append_each-Holds :
      ((d : D) (k : String) (x : Json (EventLogEntry P)) → is_some (db.write d k x) ≡ true)
      → (es before : List (EventLogEntry P)) (l : BackedLog D) → All (λ e. is_empty e.id ≡ false) es
      → Distinct (all_ids "" (before ++ es))
      → Holds l before
      → (l' : BackedLog D) × (append_each es l ≡ some l') × Holds l' (before ++ es)
  unfolding append_each
  append_each-Holds writes [] before l named d h = (l, refl, rw (append-nil before) h)
  append_each-Holds writes (e ∷ es) before l (named, more) d h =
      elim (Option-cases (append_entry db "" (some e) l)) [
        | inl n ↦ absurd (
            unfold append_entry in
            (ground (arith, named, n, writes l.backing (entry_key e.id) (encoded e))))
        | inr (l₁, n) ↦
            let h₁ = append-Holds e l l₁ before named (Distinct-middle before e es d) h n in
            let shift = append-step before es e in
            let (l', done, holds) =
              append_each-Holds writes es (before ++ (e ∷ [])) l₁ more
                (subst (λ x. Distinct (all_ids "" x)) (sym shift) d) h₁ in
            (l', rw (append_each, n) done, subst (Holds l') shift holds)
      ]

  -- On a backend whose writes succeed, entries with identities of their own are all appended to a log
  -- that holds some, and the entries of a task are then those about it, the old ones and the new, in
  -- the order in which they came.
  pub entries_of_task_lem :
      ((d : D) (k : String) (x : Json (EventLogEntry P)) → is_some (db.write d k x) ≡ true)
      → (es before : List (EventLogEntry P)) (l : BackedLog D) (task_id : String)
      → All (λ e. is_empty e.id ≡ false) es
      → Distinct (all_ids "" (before ++ es))
      → Holds l before
      → is_empty task_id ≡ false
      → (l' : BackedLog D) × (append_each es l ≡ some l')
        × (entries_of_task db task_id l' ≡ select (about task_id) (before ++ es))
  entries_of_task_lem writes es before l task_id named d h some_task =
      let (l', done, holds) = append_each-Holds writes es before l named d h in
      (l', done, entries_of_task-Holds task_id l' (before ++ es) some_task holds)
