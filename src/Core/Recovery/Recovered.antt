-- ===== src/Core/Recovery/Recovered.antt =====
-- pkg/core/core.go: after the recovery, archived tasks are exactly those in a terminal state.
use nuts.Base.{
  ◌≡◌, refl, sym, ap, ◌∙◌, subst, ℕ, ◌≤◌, String, true, false, List, arith, Bool-cases, inl, inr,
  Memᴰ,
}
use nuts.Base.Int.{ℤ}
use nuts.Db.{Db, DbLaws, Json, is_some}
use nuts.Task.{Time, Task, ok, Result-cases, ok-injective}
use nuts.Task.Config.{is_terminal_state}
use nuts.Task.Store.{TaskStore, match_filter}
use nuts.Task.Store.Ops.{get, bumped}
use nuts.Task.Store.Query.{list, count}
use nuts.Task.Store.Invariant.{Inv}
use nuts.Task.Store.Rebuild.{Keyed}
use nuts.Task.Store.Members.{mem-list}
use nuts.Task.Engine.{Engine}
use nuts.Task.Engine.Paths.{Archives}
use nuts.Core.Recovery.{
  restored_slots, slot_limit, active_tasks, is_orphan, recover_each, recover_orphaned_tasks,
}
use nuts.Core.Recovery.Rescue.{rescued, Rescued, Changed, recover_each-Rescued}

module _ {D : Type 0} (db : Db D (Json Task)) (laws : DbLaws db) (e : Engine)
    (writes : (d : D) (k : String) (x : Json Task) → is_some (db.write d k x) ≡ true) where
  active-match : (t : Task) → is_some t.archived_at ≡ false → match_filter t active_tasks ≡ true
  unfolding match_filter
  active-match t h = ground (arith, h)

  settled :
      (s s' : TaskStore D) (ts : List Task)
      → Inv db s
      → ((id : String) (t : Task)
          → get db s id ≡ ok t
          → is_some t.archived_at ≡ true
          → is_terminal_state e.config t.state ≡ true)
      → ((t : Task) → get db s t.id ≡ ok t → is_some t.archived_at ≡ false → Memᴰ t ts)
      → ((t : Task) → Memᴰ t ts → is_orphan db e t ≡ true → Rescued db laws e writes s' t)
      → (id : String) (u : Task) → Changed db laws e writes s s' id
      → get db s' id ≡ ok u
      → is_some u.archived_at ≡ is_terminal_state e.config u.state
  unfolding is_orphan rescued bumped
  settled s s' ts v only listed done id u (inr (t, at, now, r₀, o, out)) r =
      let same : u ≡ rescued at now t = ok-injective (sym r ∙ out) in
      subst (λ x. is_some x.archived_at ≡ is_terminal_state e.config x.state) (sym same)
        (ground (arith, o))
  settled s s' ts v only listed done id u (inl as_before) r =
      let r₀ : get db s id ≡ ok u = sym as_before ∙ r in
      let own : u.id ≡ id = v.keyed id u r₀ in
      elim (Bool-cases (is_some u.archived_at)) [
        | inl a ↦ ground (arith, a, only id u r₀ a)
        | inr n ↦ elim (Bool-cases (is_terminal_state e.config u.state)) [
          | inr f ↦ ground (arith, n, f)
          | inl f ↦
              let m = listed u (subst (λ k. get db s k ≡ ok u) (sym own) r₀) n in
              let (at, now, out) = done u m (ground (arith, n, f)) in
              let same : u ≡ rescued at now u =
                ok-injective (subst (λ k. ok u ≡ get db s' k) (sym own) (sym r) ∙ out) in
              absurd (ground (arith, n, ap (λ (x : Task). x.archived_at) same))
        ]
      ]

  -- From a store with its invariant whose tasks lie under their own keys and whose archived tasks are
  -- in terminal states, on a backend that lists and whose writes succeed, the recovery keeps the
  -- invariant, and afterwards the archived tasks are exactly those in a terminal state, as every
  -- command then keeps them.
  pub recover_orphaned_tasks-Archives :
      (clock : ℕ → Time × Time) (s : TaskStore D)
      → Inv db s
      → Keyed db s.backing
      → is_some (db.list s.backing "task:") ≡ true
      → ((id : String) (t : Task)
          → get db s id ≡ ok t
          → is_some t.archived_at ≡ true
          → is_terminal_state e.config t.state ≡ true)
      → Inv db (recover_orphaned_tasks db e clock s)
        × Archives db e (recover_orphaned_tasks db e clock s)
  unfolding recover_orphaned_tasks
  recover_orphaned_tasks-Archives clock s v keyed lists only =
      elim (Result-cases (list db s active_tasks)) [
        | inl (x, bad) ↦ absurd (unfold list in (ground (arith, bad, lists)))
        | inr (ts, listing) ↦
            let member =
              λ (t : Task). mem-list db laws s active_tasks ts t keyed refl refl refl listing in
            let (v', ch, done) =
              recover_each-Rescued db laws e writes clock ts 0 s v
                (λ t m. inl ((member t).0 m).0) in
            rw (recover_orphaned_tasks, listing)
              (
                v',
                λ id u r.
                    settled s (recover_each db e clock 0 ts s) ts v only
                      (λ t g n. (member t).1 (g, active-match t n)) done id u (ch id) r,
              )
      ]

  -- No more slots are taken at the start than there are.
  pub restored_slots-le :
      (max_concurrent : ℤ) (s : TaskStore D)
      → restored_slots db e max_concurrent s ≤ slot_limit db e max_concurrent
  unfolding restored_slots
  restored_slots-le max_concurrent s = elim (Result-cases (count db s active_tasks)) [
    | inl (x, bad) ↦ ground (arith, bad)
    | inr (n, good) ↦ ground (arith, good)
  ]
