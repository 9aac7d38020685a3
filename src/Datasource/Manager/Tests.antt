-- ===== src/Datasource/Manager/Tests.antt =====
-- pkg/datasource/manager.go on two kinds of sources.
use nuts.Base.{
  ◌≡◌, refl, true, false, none, some, List, [], ◌∷◌, String, ℕ, suc, ltb, str_eq, lookup, insert,
  join,
}
use nuts.Datasource.Manager.{
  DataSource, DataSourceManager, Creator, new_data_source_manager, switch_to, ensure_registered,
  switch_from, switch, stop, start_by_name, register, put_source, first_active,
}
use nuts.Datasource.Manager.OneActive.{OneActive, is_active}
use nuts.Datasource.Manager.Calls.{
  Call, registered, switched, perform, perform_all, perform_all-OneActive, switch_to_lem,
}

-- A source counts its starts, and does not start a third time.
abbrev counting : DataSource ℕ
counting = record { start = λ context n. (ltb n 2, suc n); stop = λ n. (true, n) }

abbrev creator : Creator ℕ String
creator = record {
  cfg = some (λ section. some []);
  text = λ s. s;
  supported_types = "nri" ∷ "mock" ∷ [];
  create_with_map = λ section. some 0;
}

abbrev empty_manager : DataSourceManager ℕ Unit
empty_manager = new_data_source_manager

abbrev calls : List (Call ℕ Unit)
calls = registered "nri" 0 none ∷ switched "nri" ∷ switched "mock" ∷ []

empty-OneActive : OneActive empty_manager
unfolding lookup
empty-OneActive name = refl

abbrev running : DataSourceManager ℕ Unit
running = perform_all counting creator calls empty_manager

running-mock : (is_active running.sources "mock" ≡ true) × (is_active running.sources "nri" ≡ false)
unfolding perform_all perform register switch_to ensure_registered switch_from switch stop
    start_by_name put_source first_active lookup insert join
running-mock = (refl, refl)

perform_all-OneActive_example : OneActive running
perform_all-OneActive_example =
    perform_all-OneActive counting creator calls empty_manager refl empty-OneActive

switch_to_lem_example :
    is_active (switch_to counting creator running "nri").1.sources "mock" ≡ str_eq "nri" "mock"
unfolding perform_all perform register switch_to ensure_registered switch_from switch stop
    start_by_name put_source first_active lookup insert join
switch_to_lem_example =
    switch_to_lem counting creator running "nri" "mock" refl perform_all-OneActive_example refl
