-- ===== src/Controller/Env.antt =====
-- `mergeEnvironmentVariables` of internal/controller/agent_config.go
pub mod Order
pub mod Names
pub mod Overrides
pub mod Merge
use Prim.Native.String.{compare}
use text.Mathlib.Text.{is_le}
use agent_runtime_operator.Base.{
  String, Bool, Option, none, some, List, [], ◌∷◌, ◌++◌, map, Map, if◌then◌else◌,
}
use agent_runtime_operator.Base.Maps
use agent_runtime_operator.Api.Meta.{EnvVar}

-- `userEnvMap`: the last entry of a name counts
unfoldable pub user_env_map_from : Map EnvVar → List EnvVar → Map EnvVar
user_env_map_from m [] = m
user_env_map_from m (e ∷ es) = user_env_map_from (Maps.insert e.name e m) es

unfoldable pub user_env_map : List EnvVar → Map EnvVar
unfolding user_env_map_from
user_env_map es = user_env_map_from [] es

-- The loop over the template variables: what it appends to `result`, and what it leaves of
-- `userEnvMap`.
abbrev pub Overridden : Type 0
Overridden = List EnvVar × Map EnvVar

abbrev append_entry : EnvVar → Overridden → Overridden
append_entry e (result, m) = (e ∷ result, m)

unfoldable pub override : List EnvVar → Map EnvVar → Overridden
override [] m = ([], m)
override (t ∷ ts) m =
    let overridden = override ts (Maps.delete t.name m) in
    let kept = override ts m in
    elim (Maps.lookup t.name m) [
      | some user ↦ append_entry user overridden
      | none ↦ append_entry t kept
    ]

-- `a <= b` on Go strings, which compares bytes
abbrev pub str_le : String → String → Bool
str_le a b = is_le (compare a b)

-- `sort.Slice` by name. Go's sort is not stable; `Merge` shows that this does not matter here.
unfoldable pub insert_sorted : EnvVar → List EnvVar → List EnvVar
insert_sorted e [] = e ∷ []
insert_sorted e (f ∷ fs) = if str_le e.name f.name then e ∷ f ∷ fs else f ∷ insert_sorted e fs

unfoldable pub sort_by_name : List EnvVar → List EnvVar
unfolding insert_sorted
sort_by_name [] = []
sort_by_name (e ∷ es) = insert_sorted e (sort_by_name es)

-- `order` is the order in which `range userEnvMap` visits the values of a map. Go leaves it open.
module _ (order : Map EnvVar → List EnvVar) where
  -- `result` before it is sorted
  unfoldable pub merged_entries : List EnvVar → List EnvVar → List EnvVar
  unfolding user_env_map override
  merged_entries template user =
      let (result, remaining) = override template (user_env_map user) in result ++ order remaining

  unfoldable pub merge_environment_variables : List EnvVar → List EnvVar → List EnvVar
  unfolding merged_entries sort_by_name
  merge_environment_variables template user = sort_by_name (merged_entries template user)

-- the values of a map, in the order of the model's list
abbrev pub values : Map EnvVar → List EnvVar
values [] = []
values ((k, e) ∷ m) = e ∷ values m
