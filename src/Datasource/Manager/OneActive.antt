-- ===== src/Datasource/Manager/OneActive.antt =====
-- pkg/datasource/manager.go: at one time no more than one source is active.
use nuts.Base.{
  ◌≡◌, ◌⊎◌, refl, sym, ap, ◌∙◌, Bool, true, false, not, ◌&&◌, Option, none, some, List, [], ◌∷◌,
  String, if◌then◌else◌, is_empty, str_eq, contains, join, lookup, insert, erase, arith, eq_iff,
  eq_refl, Bool-cases, Option-cases, inl, inr, lookup-insert, lookup-erase,
}
use nuts.Datasource.Manager.{
  DataSource, DataSourceWrapper, DataSourceManager, Creator, register, put_source, unregister,
  start_by_name, stop, stop_each, stop_all, switch, ensure_registered, switch_from, switch_to,
  first_active,
}

pub supported_filled :
    (types : List String) (name : String)
    → contains types "" ≡ false
    → contains types name ≡ true
    → is_empty name ≡ false
supported_filled types name named y = elim (Bool-cases (is_empty name)) [
  | inr n ↦ n
  | inl e ↦
      let same : name ≡ "" = (eq_iff name "").0 e in
      absurd (ground (arith, y, named, ap (contains types) same))
]

module _ {S C : Type 0} where
  abbrev pub is_active : List (String × DataSourceWrapper S C) → String → Bool
  is_active sources name = elim (lookup name sources) [ none ↦ false | some w ↦ w.active ]

  -- The source whose name the manager keeps is active, and no other is.
  abbrev pub OneActive : DataSourceManager S C → Type 0
  OneActive m =
      (name : String)
      → is_active m.sources name ≡ (not (is_empty m.active_name) && str_eq m.active_name name)

  is_active-put_source :
      (m : DataSourceManager S C) (name other : String) (w : DataSourceWrapper S C) (source : S)
      (active : Bool)
      → is_active (put_source m name w source active) other
        ≡ (if str_eq name other then active else is_active m.sources other)
  unfolding put_source
  is_active-put_source m name other w source active = ground (
    arith,
    lookup-insert name other (record w { data_source = source; active = active }) m.sources,
  )

  pub register-OneActive :
      (m : DataSourceManager S C) (name : String) (source : S) (config : Option C)
      → OneActive m
      → OneActive (register m name source config).1
        × ((register m name source config).1.active_name ≡ m.active_name)
  unfolding register
  register-OneActive m name source config v = elim (Option-cases (lookup name m.sources)) [
    | inr (w, there) ↦ rw (register, there) (v, refl)
    | inl fresh ↦
        let w : DataSourceWrapper S C = record {
          data_source = source;
          config = config;
          active = false;
        } in
        rw (register, fresh)
          (
            λ other.
                ground
                  (arith, v other, fresh, eq_iff name other, lookup-insert name other w m.sources),
            refl,
          )
  ]

  -- Writing a source back as active as it was keeps the others.
  put_source-same :
      (m : DataSourceManager S C) (name other : String) (w : DataSourceWrapper S C) (source : S)
      (active : Bool)
      → lookup name m.sources ≡ some w
      → w.active ≡ active
      → is_active (put_source m name w source active) other ≡ is_active m.sources other
  put_source-same m name other w source active there same =
      is_active-put_source m name other w source active
      ∙ ground (arith, there, same, eq_iff name other)

  others-idle :
      (m : DataSourceManager S C) (name other : String) (w : DataSourceWrapper S C)
      → OneActive m
      → lookup name m.sources ≡ some w
      → w.active ≡ true
      → (if str_eq name other then false else is_active m.sources other) ≡ false
  others-idle m name other w v there busy = ground (
    arith,
    there,
    busy,
    v name,
    v other,
    eq_iff name other,
    eq_iff m.active_name name,
    eq_iff m.active_name other,
  )

  is_active-erase :
      (m : DataSourceManager S C) (name other : String)
      → is_active (erase name m.sources) other
        ≡ (if str_eq name other then false else is_active m.sources other)
  is_active-erase m name other = ground (arith, lookup-erase name other m.sources)

  -- The name that is kept once `name` is gone.
  left-idle :
      (m : DataSourceManager S C) (name other : String)
      → OneActive m
      → let left = if str_eq m.active_name name then "" else m.active_name in
        (if str_eq name other then false else is_active m.sources other)
        ≡ (not (is_empty left) && str_eq left other)
  left-idle m name other v = elim (Bool-cases (str_eq m.active_name name)) [
    | inl y ↦ rw y (
        ground (
          arith,
          v other,
          y,
          eq_refl "",
          eq_iff m.active_name name,
          eq_iff m.active_name other,
          eq_iff name other,
        ))
    | inr n ↦ rw n (ground (arith, v other, n, eq_iff m.active_name name, eq_iff name other))
  ]

  module _ (ops : DataSource S) where
    pub stop-OneActive :
        (m : DataSourceManager S C) (name : String)
        → OneActive m
        → OneActive (stop ops m name).1
          × (is_empty m.active_name ≡ true → is_empty (stop ops m name).1.active_name ≡ true)
    unfolding stop
    stop-OneActive m name v = elim (Option-cases (lookup name m.sources)) [
      | inl n ↦ rw (stop, n) (v, λ e. e)
      | inr (w, there) ↦
          let source = (ops.stop w.data_source).1 in
          elim (Bool-cases w.active) [
            | inr idle ↦ rw (stop, there, idle) (v, λ e. e)
            | inl busy ↦ elim (Bool-cases (ops.stop w.data_source).0) [
              | inr bad ↦
                  rw (stop, there, busy, bad)
                    (
                      λ other. put_source-same m name other w source true there busy ∙ v other,
                      λ e. e,
                    )
              | inl good ↦
                  rw (stop, there, busy, good)
                    (
                      λ other.
                          is_active-put_source m name other w source false
                          ∙ others-idle m name other w v there busy,
                      λ e. eq_refl "",
                    )
            ]
          ]
    ]

    stop_clears :
        (m : DataSourceManager S C) (name : String)
        → OneActive m
        → name ≡ m.active_name
        → is_empty name ≡ false
        → (stop ops m name).0 ≡ none
        → is_empty (stop ops m name).1.active_name ≡ true
    unfolding stop
    stop_clears m name v kept named done = elim (Option-cases (lookup name m.sources)) [
      | inl n ↦ absurd (ground (arith, n, done))
      | inr (w, there) ↦
          let busy : w.active ≡ true =
            ground
              (arith, there, v name, ap is_empty kept, named, eq_iff m.active_name name, kept) in
          elim (Bool-cases (ops.stop w.data_source).0) [
            | inr bad ↦ absurd (ground (arith, there, busy, bad, done))
            | inl good ↦ rw (stop, there, busy, good) (eq_refl "")
          ]
    ]

    pub unregister-OneActive :
        (m : DataSourceManager S C) (name : String)
        → OneActive m
        → OneActive (unregister ops m name).1
    unfolding unregister
    unregister-OneActive m name v = elim (Option-cases (lookup name m.sources)) [
      | inl n ↦ rw (unregister, n) v
      | inr (w, there) ↦ elim (Bool-cases w.active) [
        | inr idle ↦
            rw (unregister, there, idle)
              (λ other. is_active-erase m name other ∙ left-idle m name other v)
        | inl busy ↦ elim (Bool-cases (ops.stop w.data_source).0) [
          | inr bad ↦
              rw (unregister, there, busy, bad)
                (λ other.
                  put_source-same m name other w (ops.stop w.data_source).1 true there busy
                  ∙ v other)
          | inl good ↦
              rw (unregister, there, busy, good)
                (λ other. is_active-erase m name other ∙ left-idle m name other v)
        ]
      ]
    ]

    start_by_name-OneActive :
        (m : DataSourceManager S C) (name : String)
        → OneActive m
        → is_empty m.active_name ≡ true
        → is_empty name ≡ false
        → OneActive (start_by_name ops m name).1
    unfolding start_by_name
    start_by_name-OneActive m name v none_kept named = elim (Option-cases (lookup name m.sources)) [
      | inl n ↦ rw (start_by_name, n) v
      | inr (w, there) ↦
          let source = (ops.start true w.data_source).1 in
          let idle : w.active ≡ false = ground (arith, there, v name, none_kept) in
          elim (Bool-cases (ops.start true w.data_source).0) [
            | inr bad ↦
                rw (start_by_name, there, idle, bad)
                  (λ other. put_source-same m name other w source false there idle ∙ v other)
            | inl good ↦
                rw (start_by_name, there, idle, good)
                  (λ other.
                    is_active-put_source m name other w source true
                    ∙ ground (arith, v other, none_kept, named))
          ]
    ]

    stop_each_lem :
        (sources : List (String × DataSourceWrapper S C)) (name : String)
        → is_active (stop_each ops sources).1 name ≡ false
    unfolding stop_each lookup
    stop_each_lem [] name = refl
    stop_each_lem ((key, w) ∷ more) name = elim (Bool-cases w.active) [
      | inr idle ↦ rw (stop_each, idle) (ground (arith, idle, stop_each_lem more name))
      | inl busy ↦ rw (stop_each, busy) (ground (arith, stop_each_lem more name))
    ]

    pub stop_all-OneActive : (m : DataSourceManager S C) → OneActive (stop_all ops m).1
    unfolding stop_all
    stop_all-OneActive m name = ground (arith, stop_each_lem m.sources name, eq_refl "")

    switch-OneActive :
        (m : DataSourceManager S C) (previous name : String)
        → OneActive m
        → is_empty name ≡ false
        → (is_empty m.active_name ≡ true) ⊎ (previous ≡ m.active_name)
        → OneActive (switch ops m previous name).1
    unfolding switch
    switch-OneActive m previous name v named kept = elim (Bool-cases (is_empty previous)) [
      | inl e ↦
          let idle : is_empty m.active_name ≡ true = elim kept [
            | inl a ↦ a
            | inr a ↦ sym (ap is_empty a) ∙ e
          ] in
          rw (switch, e) (start_by_name-OneActive m name v idle named)
      | inr e ↦
          let (v', clear) = stop-OneActive m previous v in
          elim (Option-cases (stop ops m previous).0) [
            | inr (x, bad) ↦ rw (switch, e, bad) v'
            | inl good ↦
                rw (switch, e, good)
                  (start_by_name-OneActive (stop ops m previous).1 name v'
                    (elim kept [ inl a ↦ clear a | inr a ↦ stop_clears m previous v a e good ])
                    named)
          ]
    ]

    switch_from-OneActive :
        (m : DataSourceManager S C) (previous name : String)
        → OneActive m
        → is_empty name ≡ false
        → (is_empty m.active_name ≡ true) ⊎ (previous ≡ m.active_name)
        → OneActive (switch_from ops m previous name).1
    unfolding switch_from
    switch_from-OneActive m previous name v named kept = elim (Bool-cases (str_eq previous name)) [
      | inl y ↦ rw (switch_from, y) v
      | inr n ↦ rw (switch_from, n) (switch-OneActive m previous name v named kept)
    ]

    module _ {V : Type 0} (creator : Creator S V) where
      ensure_registered-OneActive :
          (m : DataSourceManager S C) (name : String)
          → OneActive m
          → OneActive (ensure_registered ops creator m name).1
      unfolding ensure_registered
      ensure_registered-OneActive m name v = elim (Option-cases (lookup name m.sources)) [
        | inr (w, there) ↦ rw (ensure_registered, there) v
        | inl fresh ↦ elim (Option-cases creator.cfg) [
          | inl n ↦ rw (ensure_registered, fresh, n) v
          | inr (get_map, set) ↦ elim (Option-cases (get_map (join "datasource." name))) [
            | inl n ↦ rw (ensure_registered, fresh, set, n) v
            | inr (section, found) ↦
                let typed =
                  insert "name" (creator.text name) (insert "type" (creator.text name) section) in
                elim (Option-cases (creator.create_with_map typed)) [
                  | inl n ↦ rw (ensure_registered, fresh, set, found, n) v
                  | inr (source, made) ↦
                      rw (ensure_registered, fresh, set, found, made)
                        (register-OneActive m name source none v).0
                ]
          ]
        ]
      ]

      pub switch_to-OneActive :
          (m : DataSourceManager S C) (name : String)
          → contains creator.supported_types "" ≡ false
          → OneActive m
          → OneActive (switch_to ops creator m name).1
      unfolding switch_to
      switch_to-OneActive m name named v =
          elim (Bool-cases (contains creator.supported_types name)) [
            | inr n ↦ rw (switch_to, n) v
            | inl y ↦
                let v' = ensure_registered-OneActive m name v in
                let there = (ensure_registered ops creator m name).1 in
                let filled = supported_filled creator.supported_types name named y in
                elim (Option-cases (ensure_registered ops creator m name).0) [
                  | inr (x, bad) ↦ rw (switch_to, y, bad) v'
                  | inl good ↦ elim (Bool-cases (is_empty there.active_name)) [
                    | inl e ↦
                        rw (switch_to, y, good, e)
                          (switch_from-OneActive there (first_active there.sources) name v' filled
                            (inl e))
                    | inr e ↦
                        rw (switch_to, y, good, e)
                          (switch_from-OneActive there there.active_name name v' filled (inr refl))
                  ]
                ]
          ]
