-- ===== src/Task/Archive/Cleaned.antt =====
-- pkg/task/archive.go: a cleanup removes exactly the old archived tasks.
use nuts.Base.{
  ◌+◌, ◌<◌, ◌≡◌, ◌↔◌, refl, sym, ◌∙◌, subst, Bool, true, false, ◌&&◌, ◌||◌, some, List, [], ◌∷◌,
  String, ℕ, if◌then◌else◌, str_eq, arith, eq_iff, Bool-cases, Option-cases, inl, inr, Memᴰ,
}
use mathlib.Core.List.Memᴰ
use nuts.Db.{Db, DbLaws, Json, is_some}
use nuts.Task.{Time, Task, ok, err, not_found, Result-cases, ok-injective}
use nuts.Task.Store.{TaskStore, task_key, match_filter}
use nuts.Task.Store.Ops.{get, delete}
use nuts.Task.Store.Query.{list}
use nuts.Task.Store.Invariant.{Inv}
use nuts.Task.Store.Keeps.{get-delete, delete-Inv}
use nuts.Task.Store.{match_filter}
use nuts.Task.Store.Rebuild.{Keyed}
use nuts.Task.Store.Members.{mem-list}
use nuts.Task.Archive.{ArchiveCleaner, is_old, every_task, clean_each, cleanup}

-- The task was archived longer ago than the retention.
abbrev pub Expired : ℕ → Time → Task → Type 0
Expired retention now t = (at : Time) × (t.archived_at ≡ some at) × (at + retention < now)

is_old-Expired :
    (retention : ℕ) (now : Time) (t : Task) (at : Time)
    → t.archived_at ≡ some at
    → at + retention < now
    → is_old retention now t ≡ true
unfolding is_old
is_old-Expired retention now t at a past = ground (arith, a, past)

Expired-is_old :
    (retention : ℕ) (now : Time) (t : Task)
    → is_old retention now t ≡ true
    → Expired retention now t
unfolding is_old
Expired-is_old retention now t e = elim (Option-cases t.archived_at) [
  | inl n ↦ absurd (ground (arith, n, e))
  | inr (at, a) ↦ (at, a, ground (arith, a, e))
]

every-match : (t : Task) → match_filter t every_task ≡ true
unfolding match_filter
every-match t = refl

module _ {D : Type 0} (db : Db D (Json Task)) (laws : DbLaws db) where
  -- Is there an old task of that id among them?
  doomed : ℕ → Time → String → List Task → Bool
  doomed retention now id [] = false
  doomed retention now id (t ∷ ts) =
      (str_eq t.id id && is_old retention now t) || doomed retention now id ts

  clean_each-doomed :
      ((d : D) (k : String) → is_some (db.delete d k) ≡ true)
      → (retention : ℕ) (now : Time) (ts : List Task) (s : TaskStore D) → Inv db s
      → Inv db (clean_each db retention now ts s).0
        × ((id : String)
            → get db (clean_each db retention now ts s).0 id
              ≡ (if doomed retention now id ts then err not_found else get db s id))
  unfolding clean_each doomed
  clean_each-doomed deletes retention now [] s v = (v, λ id. refl)
  clean_each-doomed deletes retention now (t ∷ ts) s v =
      elim (Bool-cases (is_old retention now t)) [
        | inr young ↦
            let (v', got) = clean_each-doomed deletes retention now ts s v in
            rw (clean_each, young) (v', λ id. ground (arith, got id, young))
        | inl old ↦ elim (Result-cases (delete db s t.id)) [
          | inl (x, bad) ↦
              absurd (unfold delete in (ground (arith, bad, deletes s.backing (task_key t.id))))
          | inr (s', done) ↦
              let (v', got) =
                clean_each-doomed deletes retention now ts s'
                  (delete-Inv db laws s s' t.id v done) in
              rw (clean_each, old, done)
                (v', λ id. ground (arith, got id, old, (get-delete db laws s s' t.id id done).2))
        ]
      ]

  doomed-mem :
      (retention : ℕ) (now : Time) (id : String) (ts : List Task)
      → doomed retention now id ts ≡ true
        ↔ ((t : Task) × Memᴰ t ts × (t.id ≡ id) × (is_old retention now t ≡ true))
  unfolding doomed
  doomed-mem retention now id [] =
      (λ e. absurd (ground (arith, e)), λ (t, m, i, o). absurd (Memᴰ.not-nil m))
  doomed-mem retention now id (x ∷ ts) = (
    λ e. elim (Bool-cases (str_eq x.id id && is_old retention now x)) [
      | inl y ↦ (x, Memᴰ.head refl, ground (arith, y, eq_iff x.id id), ground (arith, y))
      | inr n ↦
          let (t, m, i, o) = (doomed-mem retention now id ts).0 (ground (arith, e, n)) in
          (t, Memᴰ.tail m, i, o)
    ],
    λ (t, m, i, o). elim (Memᴰ.cases_cons m) [
      | inl y ↦
          subst
            (λ z. ((str_eq z.id id && is_old retention now z) || doomed retention now id ts) ≡ true)
            y (ground (arith, o, i, eq_iff t.id id))
      | inr m' ↦ ground (arith, (doomed-mem retention now id ts).1 (t, m', i, o))
    ],
  )

  cleanup-is_old :
      ((d : D) (k : String) → is_some (db.delete d k) ≡ true)
      → (now : Time) (c : ArchiveCleaner D) → Inv db c.store
      → Keyed db c.store.backing
      → is_some (db.list c.store.backing "task:") ≡ true
      → Inv db (cleanup db now c).store
        × ((id : String) (t : Task)
            → get db c.store id ≡ ok t
            → get db (cleanup db now c).store id
              ≡ (if is_old c.retention now t then err not_found else ok t))
  unfolding cleanup
  cleanup-is_old deletes now c v keyed lists = elim (Result-cases (list db c.store every_task)) [
    | inl (x, bad) ↦ absurd (unfold list in (ground (arith, bad, lists)))
    | inr (ts, e) ↦
        let (v', got) = clean_each-doomed deletes c.retention now ts c.store v in
        rw (cleanup, e)
          (
            v',
            λ id t r.
                let own : t.id ≡ id = v.keyed id t r in
                let (to, from) = doomed-mem c.retention now id ts in
                elim (Bool-cases (is_old c.retention now t)) [
                  | inl old ↦
                      let there =
                        (mem-list db laws c.store every_task ts t keyed refl refl refl e).1
                          (subst (λ k. get db c.store k ≡ ok t) (sym own) r, every-match t) in
                      ground (arith, got id, old, from (t, there, own, old))
                  | inr young ↦ elim (Bool-cases (doomed c.retention now id ts)) [
                    | inr n ↦ ground (arith, got id, young, n, r)
                    | inl y ↦
                        let (u, m, i, o) = to y in
                        let r' : get db c.store id ≡ ok u =
                          subst (λ k. get db c.store k ≡ ok u) i
                            ((mem-list db laws c.store every_task ts u keyed refl refl refl e).0
                              m).0 in
                        let same : u ≡ t = ok-injective (sym r' ∙ r) in
                        absurd (
                          ground
                            (arith, young, subst (λ z. is_old c.retention now z ≡ true) same o))
                  ]
                ],
          )
  ]

  -- From a store with its invariant whose tasks lie under their own keys, on a backend that lists
  -- and whose deletes succeed, a cleanup keeps the invariant, removes every task that was archived
  -- longer ago than the retention, and leaves every other one as it was.
  pub cleanup_lem :
      ((d : D) (k : String) → is_some (db.delete d k) ≡ true)
      → (now : Time) (c : ArchiveCleaner D) → Inv db c.store
      → Keyed db c.store.backing
      → is_some (db.list c.store.backing "task:") ≡ true
      → Inv db (cleanup db now c).store
        × ((id : String) (t : Task)
            → get db c.store id ≡ ok t
            → (Expired c.retention now t → get db (cleanup db now c).store id ≡ err not_found)
              × (¬ Expired c.retention now t → get db (cleanup db now c).store id ≡ ok t))
  cleanup_lem deletes now c v keyed lists =
      let (v', got) = cleanup-is_old deletes now c v keyed lists in
      (
        v',
        λ id t r. (
          λ (at, a, past). ground (arith, got id t r, is_old-Expired c.retention now t at a, past),
          λ young. elim (Bool-cases (is_old c.retention now t)) [
            | inr n ↦ ground (arith, got id t r, n)
            | inl y ↦ absurd (young (Expired-is_old c.retention now t y))
          ],
        ),
      )
