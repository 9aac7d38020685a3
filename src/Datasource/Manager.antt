-- ===== src/Datasource/Manager.antt =====
-- pkg/datasource/manager.go, `DataSourceManager`. A source is a value of type `S`, which its calls
-- change; `C` are the configurations of sources and `V` the values in a configuration's section.
-- The calls run one at a time here.
use nuts.Base.{
  Bool, true, false, not, Option, none, some, List, [], ◌∷◌, String, if◌then◌else◌, is_empty,
  str_eq, contains, join, lookup, insert, erase,
}
mod OneActive
mod Calls
mod Tests

-- `DataSource`: whether the call succeeds, and the source after it. `Start` is told whether there is
-- a context.
pub record DataSource (S : Type 0) : Type 0 where
  pub start : Bool → S → Bool × S
  pub stop : S → Bool × S

-- `DataSourceWrapper`; `Config` may be nil.
pub record DataSourceWrapper (S C : Type 0) : Type 0 where
  pub data_source : S
  pub config : Option C
  pub active : Bool

-- `DataSourceManager`; `has_context` tells that `ctx` is not nil.
pub record DataSourceManager (S C : Type 0) : Type 0 where
  pub sources : List (String × DataSourceWrapper S C)
  pub active_name : String
  pub has_context : Bool

-- The errors of the manager.
pub data DataSourceError : Type 0 where
  already_registered not_found already_active start_failed stop_failed : DataSourceError
  unknown_type no_config no_section create_failed : DataSourceError

-- What creates sources: the configuration manager, which may be nil, and the factory.
pub record Creator (S V : Type 0) : Type 0 where
  pub cfg : Option (String → Option (List (String × V)))
  pub text : String → V
  pub supported_types : List String
  pub create_with_map : List (String × V) → Option S

-- `NewDataSourceManager`
abbrev pub new_data_source_manager : {S C : Type 0} → DataSourceManager S C
new_data_source_manager = record { sources = []; active_name = ""; has_context = false }

module _ {S C : Type 0} where
  unfoldable pub register :
      DataSourceManager S C → String → S → Option C → Option DataSourceError × DataSourceManager S C
  register m name source config = elim (lookup name m.sources) [
    | some wrapper ↦ (some already_registered, m)
    | none ↦
        let wrapper : DataSourceWrapper S C = record {
          data_source = source;
          config = config;
          active = false;
        } in
        (none, record m { sources = insert name wrapper m.sources })
  ]

  -- `m.sources[name]` when its source is `source` and it is active or not.
  unfoldable pub put_source :
      DataSourceManager S C
      → String
      → DataSourceWrapper S C
      → S
      → Bool
      → List (String × DataSourceWrapper S C)
  put_source m name wrapper source active =
      insert name (record wrapper { data_source = source; active = active }) m.sources

  -- The loop of `SwitchTo` for the source that is active, when no name is kept.
  unfoldable pub first_active : List (String × DataSourceWrapper S C) → String
  first_active [] = ""
  first_active ((name, wrapper) ∷ more) =
      let rest = first_active more in if wrapper.active then name else rest

  module _ (ops : DataSource S) where
    unfoldable pub unregister :
        DataSourceManager S C → String → Option DataSourceError × DataSourceManager S C
    unfolding put_source
    unregister m name = elim (lookup name m.sources) [
      | none ↦ (some not_found, m)
      | some wrapper ↦
          let (fine, source) = ops.stop wrapper.data_source in
          let left = if str_eq m.active_name name then "" else m.active_name in
          let gone : DataSourceManager S C = record m {
            sources = erase name m.sources;
            active_name = left;
          } in
          if not wrapper.active
          then (none, gone)
          else if not fine
          then (some stop_failed, record m { sources = put_source m name wrapper source true })
          else (none, gone)
    ]

    unfoldable pub start_by_name :
        DataSourceManager S C → String → Option DataSourceError × DataSourceManager S C
    unfolding put_source
    start_by_name m name = elim (lookup name m.sources) [
      | none ↦ (some not_found, m)
      | some wrapper ↦
          let (fine, source) = ops.start true wrapper.data_source in
          if wrapper.active
          then (some already_active, m)
          else if not fine
          then (
            some start_failed,
            record m { sources = put_source m name wrapper source false; has_context = true },
          )
          else (
            none,
            record m {
              sources = put_source m name wrapper source true;
              active_name = name;
              has_context = true;
            },
          )
    ]

    unfoldable pub stop :
        DataSourceManager S C → String → Option DataSourceError × DataSourceManager S C
    unfolding put_source
    stop m name = elim (lookup name m.sources) [
      | none ↦ (some not_found, m)
      | some wrapper ↦
          let (fine, source) = ops.stop wrapper.data_source in
          if not wrapper.active
          then (none, m)
          else if not fine
          then (some stop_failed, record m { sources = put_source m name wrapper source true })
          else (
            none,
            record m { sources = put_source m name wrapper source false; active_name = "" },
          )
    ]

    -- The loop of `StopAll`: a source that does not stop is no longer active either.
    unfoldable pub stop_each :
        List (String × DataSourceWrapper S C)
        → Option DataSourceError × List (String × DataSourceWrapper S C)
    stop_each [] = (none, [])
    stop_each ((name, wrapper) ∷ more) =
        let (failed, rest) = stop_each more in
        let (fine, source) = ops.stop wrapper.data_source in
        let stopped : DataSourceWrapper S C = record wrapper {
          data_source = source;
          active = false;
        } in
        if not wrapper.active
        then (failed, (name, wrapper) ∷ rest)
        else (if fine then failed else some stop_failed, (name, stopped) ∷ rest)

    unfoldable pub stop_all : DataSourceManager S C → Option DataSourceError × DataSourceManager S C
    stop_all m =
        let (failed, sources) = stop_each m.sources in
        (failed, record m { sources = sources; active_name = "" })

    -- `Switch`
    unfoldable pub switch :
        DataSourceManager S C → String → String → Option DataSourceError × DataSourceManager S C
    switch m from_name to_name =
        if is_empty from_name
        then start_by_name m to_name
        else let (failed, stopped) = stop m from_name in
          elim failed [ some x ↦ (some x, stopped) | none ↦ start_by_name stopped to_name ]

    -- The end of `SwitchTo`, from the source that was active.
    unfoldable pub switch_from :
        DataSourceManager S C → String → String → Option DataSourceError × DataSourceManager S C
    unfolding switch
    switch_from m previous name =
        if str_eq previous name then (some already_active, m) else switch m previous name

    module _ {V : Type 0} (creator : Creator S V) where
      unfoldable pub ensure_registered :
          DataSourceManager S C → String → Option DataSourceError × DataSourceManager S C
      ensure_registered m name = elim (lookup name m.sources) [
        | some wrapper ↦ (none, m)
        | none ↦ elim creator.cfg [
          | none ↦ (some no_config, m)
          | some get_map ↦ elim (get_map (join "datasource." name)) [
            | none ↦ (some no_section, m)
            | some section ↦
                let typed = insert "type" (creator.text name) section in
                elim (creator.create_with_map (insert "name" (creator.text name) typed)) [
                  | none ↦ (some create_failed, m)
                  | some source ↦ register m name source none
                ]
          ]
        ]
      ]

      -- `SwitchTo`, without the name it returns.
      unfoldable pub switch_to :
          DataSourceManager S C → String → Option DataSourceError × DataSourceManager S C
      switch_to m name =
          if not (contains creator.supported_types name)
          then (some unknown_type, m)
          else let (failed, there) = ensure_registered m name in
            let previous =
              if is_empty there.active_name
              then first_active there.sources
              else there.active_name in
            elim failed [ some x ↦ (some x, there) | none ↦ switch_from there previous name ]
