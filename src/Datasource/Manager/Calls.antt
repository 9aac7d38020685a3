-- ===== src/Datasource/Manager/Calls.antt =====
-- pkg/datasource/manager.go: any sequence of calls on the manager, and what a switch reaches.
use nuts.Base.{
  ◌≡◌, refl, ◌∙◌, true, false, Option, none, List, [], ◌∷◌, String, is_empty, str_eq, contains,
  arith, Bool-cases, Option-cases, inl, inr, lookup,
}
use nuts.Datasource.Manager.{
  DataSource, DataSourceManager, Creator, register, unregister, start_by_name, stop, stop_all,
  switch, ensure_registered, switch_from, switch_to, first_active,
}
use nuts.Datasource.Manager.OneActive.{
  supported_filled, OneActive, is_active, register-OneActive, unregister-OneActive, stop-OneActive,
  stop_all-OneActive, switch_to-OneActive,
}

-- A call on the manager.
pub data Call (S C : Type 0) : Type 0 where
  registered : String → S → Option C → Call S C
  unregistered stopped switched : String → Call S C
  all_stopped : Call S C

module _ {S C V : Type 0} (ops : DataSource S) (creator : Creator S V) where
  unfoldable pub perform : Call S C → DataSourceManager S C → DataSourceManager S C
  perform (registered name source config) m = (register m name source config).1
  perform (unregistered name) m = (unregister ops m name).1
  perform (stopped name) m = (stop ops m name).1
  perform (switched name) m = (switch_to ops creator m name).1
  perform all_stopped m = (stop_all ops m).1

  unfoldable pub perform_all : List (Call S C) → DataSourceManager S C → DataSourceManager S C
  perform_all [] m = m
  perform_all (call ∷ calls) m = perform_all calls (perform call m)

  -- Registering, unregistering, stopping and switching sources, in any order and whatever fails on the
  -- way, keep that no source is active but the one whose name the manager keeps, when it keeps one. No
  -- type of source is called by the empty text.
  pub perform_all-OneActive :
      (calls : List (Call S C)) (m : DataSourceManager S C)
      → contains creator.supported_types "" ≡ false
      → OneActive m
      → OneActive (perform_all calls m)
  unfolding perform_all perform
  perform_all-OneActive [] m named v = v
  perform_all-OneActive (registered name source config ∷ calls) m named v =
      perform_all-OneActive calls (register m name source config).1 named
        (register-OneActive m name source config v).0
  perform_all-OneActive (unregistered name ∷ calls) m named v =
      perform_all-OneActive calls (unregister ops m name).1 named
        (unregister-OneActive ops m name v)
  perform_all-OneActive (stopped name ∷ calls) m named v =
      perform_all-OneActive calls (stop ops m name).1 named (stop-OneActive ops m name v).0
  perform_all-OneActive (switched name ∷ calls) m named v =
      perform_all-OneActive calls (switch_to ops creator m name).1 named
        (switch_to-OneActive ops creator m name named v)
  perform_all-OneActive (all_stopped ∷ calls) m named v =
      perform_all-OneActive calls (stop_all ops m).1 named (stop_all-OneActive ops m)

  started_name :
      (m : DataSourceManager S C) (name : String)
      → (start_by_name ops m name).0 ≡ none
      → (start_by_name ops m name).1.active_name ≡ name
  unfolding start_by_name
  started_name m name done = elim (Option-cases (lookup name m.sources)) [
    | inl n ↦ absurd (ground (arith, n, done))
    | inr (w, there) ↦ elim (Bool-cases w.active) [
      | inl busy ↦ absurd (ground (arith, there, busy, done))
      | inr idle ↦ elim (Bool-cases (ops.start true w.data_source).0) [
        | inr bad ↦ absurd (ground (arith, there, idle, bad, done))
        | inl good ↦ rw (start_by_name, there, idle, good) refl
      ]
    ]
  ]

  switched_name :
      (m : DataSourceManager S C) (previous name : String)
      → (switch_from ops m previous name).0 ≡ none
      → (switch_from ops m previous name).1.active_name ≡ name
  unfolding switch_from switch
  switched_name m previous name done = elim (Bool-cases (str_eq previous name)) [
    | inl y ↦ absurd (ground (arith, y, done))
    | inr n ↦ elim (Bool-cases (is_empty previous)) [
      | inl e ↦ rw (switch_from, n, e) (started_name m name (ground (arith, n, e, done)))
      | inr e ↦ elim (Option-cases (stop ops m previous).0) [
        | inr (x, bad) ↦ absurd (ground (arith, n, e, bad, done))
        | inl good ↦
            rw (switch_from, n, e, good)
              (started_name (stop ops m previous).1 name (ground (arith, n, e, good, done)))
      ]
    ]
  ]

  switch_to_name :
      (m : DataSourceManager S C) (name : String)
      → (switch_to ops creator m name).0 ≡ none
      → ((switch_to ops creator m name).1.active_name ≡ name)
        × (contains creator.supported_types name ≡ true)
  unfolding switch_to
  switch_to_name m name done = elim (Bool-cases (contains creator.supported_types name)) [
    | inr n ↦ absurd (ground (arith, n, done))
    | inl y ↦
        let there = (ensure_registered ops creator m name).1 in
        elim (Option-cases (ensure_registered ops creator m name).0) [
          | inr (x, bad) ↦ absurd (ground (arith, y, bad, done))
          | inl good ↦ elim (Bool-cases (is_empty there.active_name)) [
            | inl e ↦
                rw (switch_to, y, good, e)
                  (
                    switched_name there (first_active there.sources) name
                        (ground (arith, y, good, e, done)),
                    refl,
                  )
            | inr e ↦
                rw (switch_to, y, good, e)
                  (
                    switched_name there there.active_name name (ground (arith, y, good, e, done)),
                    refl,
                  )
          ]
        ]
  ]

  -- A switch that returns no error, from a manager whose one active source is the one whose name it
  -- keeps, leaves the source it names active and every other one not. No type of source is called by
  -- the empty text.
  pub switch_to_lem :
      (m : DataSourceManager S C) (name other : String)
      → contains creator.supported_types "" ≡ false
      → OneActive m
      → (switch_to ops creator m name).0 ≡ none
      → is_active (switch_to ops creator m name).1.sources other ≡ str_eq name other
  switch_to_lem m name other named v done =
      let (same, y) = switch_to_name m name done in
      let filled = supported_filled creator.supported_types name named y in
      switch_to-OneActive ops creator m name named v other ∙ ground (arith, same, filled)
