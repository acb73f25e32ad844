-- ===== src/Controller/Env/Merge.antt =====
-- What `mergeEnvironmentVariables` returns: the user's last entry of a name wins, nothing else of
-- either list is lost, and the result does not depend on the order in which Go visits its map.
use mathlib.Core.List.{Permᴰ}
use agent_runtime_operator.Base.{
  String, ◌≡◌, refl, sym, ap₂, ◌∙◌, true, none, some, List, [], ◌∷◌, ◌++◌, ◌==◌, eq_iff, eq_refl,
  arith, All, Bool-cases, inl, inr, is_some, Map,
}
use agent_runtime_operator.Base.Maps
use agent_runtime_operator.Base.Maps.{over}
use agent_runtime_operator.Api.Meta.{EnvVar}
use agent_runtime_operator.Controller.Util.{find_env_var}
use agent_runtime_operator.Controller.Env.{
  str_le, user_env_map, override, merged_entries, merge_environment_variables, values,
}
use agent_runtime_operator.Controller.Env.Order.{str_le_antisym}
use agent_runtime_operator.Controller.Env.Names.{
  HasDistinctNames, IsSorted, SameNames, find-cons, find-append, perm-SameNames, sort-find,
  sort-distinct, sort-IsSorted,
}
use agent_runtime_operator.Controller.Env.Overrides.{
  last_named, IsKeyed, IsOverride, override-IsOverride, user_env_map-IsKeyed, user_env_map-lookup,
}

-- `range` over a map visits each of its values once.
abbrev pub VisitsEachOnce : (Map EnvVar → List EnvVar) → Type 0
VisitsEachOnce order = (m : Map EnvVar) → Permᴰ (values m) (order m)

IsKeyed-tail :
    (k : String) (e : EnvVar) (m : Map EnvVar) → IsKeyed ((k, e) ∷ m) → (e.name ≡ k) × IsKeyed m
unfolding Maps.lookup
IsKeyed-tail k e m keyed = (
  keyed.named k e (rw (eq_refl k)),
  record {
    distinct = keyed.distinct.1;
    named = λ n f h. ground (arith, keyed.named n f, keyed.distinct.0, eq_iff k n);
  },
)

-- The values of such a map, as a list: each key finds its value, and no name stands twice.
values-find :
    (m : Map EnvVar) (n : String) → IsKeyed m → find_env_var (values m) n ≡ Maps.lookup n m
unfolding Maps.lookup
values-find [] n keyed = unfold find_env_var in refl
values-find ((k, e) ∷ m) n keyed =
    let (name, tail) = IsKeyed-tail k e m keyed in
    ground (arith, find-cons e (values m) n, values-find m n tail, name)

values-distinct : (m : Map EnvVar) → IsKeyed m → HasDistinctNames (values m)
values-distinct [] keyed = tt
values-distinct ((k, e) ∷ m) keyed =
    let (name, tail) = IsKeyed-tail k e m keyed in
    (values-find m e.name tail ∙ rw name keyed.distinct.0, values-distinct m tail)

append-distinct :
    (es fs : List EnvVar)
    → HasDistinctNames es
    → HasDistinctNames fs
    → ((n : String) → is_some (find_env_var es n) ≡ true → find_env_var fs n ≡ none)
    → HasDistinctNames (es ++ fs)
append-distinct [] fs d d' apart = d'
append-distinct (e ∷ es) fs (fresh, d) d' apart = (
  ground (arith, find-append es fs e.name, apart e.name, find-cons e es e.name, eq_refl e.name),
  append-distinct es fs d d' (λ n h. apart n (ground (arith, find-cons e es n))),
)

below-find :
    (m n : String) (es : List EnvVar) (e : EnvVar)
    → All (λ f. str_le m f.name ≡ true) es
    → find_env_var es n ≡ some e
    → str_le m n ≡ true
below-find m n [] e b h = unfold find_env_var in cc
below-find m n (f ∷ es) e (first, b) h =
    ground (arith, find-cons f es n, below-find m n es e b, eq_iff f.name n)

-- Sorted lists with distinct names that agree on every lookup are equal.
sorted_unique :
    (es fs : List EnvVar)
    → IsSorted es
    → IsSorted fs
    → HasDistinctNames es
    → HasDistinctNames fs
    → ((n : String) → find_env_var es n ≡ find_env_var fs n)
    → es ≡ fs
sorted_unique [] [] s t d d' same = refl
sorted_unique [] (f ∷ fs) s t d d' same =
    unfold find_env_var in ground (arith, same f.name, eq_refl f.name)
sorted_unique (e ∷ es) [] s t d d' same =
    unfold find_env_var in ground (arith, same e.name, eq_refl e.name)
sorted_unique (e ∷ es) (f ∷ fs) (b, s) (c, t) (fresh, d) (fresh', d') same =
    elim (Bool-cases (e.name == f.name)) [
      | inl equal ↦
          let heads : e ≡ f = ground (
            arith,
            same e.name,
            find-cons e es e.name,
            find-cons f fs e.name,
            eq_refl e.name,
            eq_iff e.name f.name,
            eq_iff f.name e.name,
          ) in
          ap₂ ◌∷◌ heads (
            sorted_unique es fs s t d d' (λ n. ground (
              arith,
              same n,
              find-cons e es n,
              find-cons f fs n,
              eq_iff e.name n,
              eq_iff f.name n,
              eq_iff e.name f.name,
            )))
      | inr differ ↦
          let later = below-find f.name e.name fs e c (
            ground (
              arith,
              same e.name,
              find-cons e es e.name,
              find-cons f fs e.name,
              eq_refl e.name,
              eq_iff f.name e.name,
              eq_iff e.name f.name,
            )) in
          let earlier = below-find e.name f.name es f b (
            ground (
              arith,
              same f.name,
              find-cons e es f.name,
              find-cons f fs f.name,
              eq_refl f.name,
              eq_iff f.name e.name,
              eq_iff e.name f.name,
            )) in
          let equal = str_le_antisym e.name f.name earlier later in
          ground (arith, eq_iff e.name f.name)
    ]

module _ (order : Map EnvVar → List EnvVar) (visits : VisitsEachOnce order)
    (template user : List EnvVar) (distinct : HasDistinctNames template) where
  overridden : IsOverride template (user_env_map user) (override template (user_env_map user))
  overridden = override-IsOverride template (user_env_map user) distinct (user_env_map-IsKeyed user)

  visited :
      SameNames
        (values (override template (user_env_map user)).1)
        (order (override template (user_env_map user)).1)
  visited =
      perm-SameNames (visits (override template (user_env_map user)).1)
        (values-distinct (override template (user_env_map user)).1 overridden.keyed)

  merged_entries-find :
      (n : String)
      → find_env_var (merged_entries order template user) n
        ≡ over (last_named user n) (find_env_var template n)
  unfolding merged_entries
  merged_entries-find n =
      let (result, remaining) = override template (user_env_map user) in
      ground (
        arith,
        find-append result (order remaining) n,
        overridden.finds n,
        overridden.remains n,
        visited.finds n,
        values-find remaining n overridden.keyed,
        user_env_map-lookup user n,
      )

  merged_entries-distinct : HasDistinctNames (merged_entries order template user)
  unfolding merged_entries
  merged_entries-distinct =
      let (result, remaining) = override template (user_env_map user) in
      append-distinct result (order remaining) overridden.distinct visited.distinct λ n h. ground (
        arith,
        overridden.finds n,
        overridden.remains n,
        visited.finds n,
        values-find remaining n overridden.keyed,
      )

-- If the template's names are distinct, the merged list is ascending by name with distinct names,
-- and it has under each name the user's last entry of the name, or else the template's entry,
-- whatever the order in which Go visits its map.
pub merge_environment_variables_outcome :
    (order : Map EnvVar → List EnvVar) (template user : List EnvVar)
    → VisitsEachOnce order
    → HasDistinctNames template
    → IsSorted (merge_environment_variables order template user)
      × HasDistinctNames (merge_environment_variables order template user)
      × ((n : String)
          → find_env_var (merge_environment_variables order template user) n
            ≡ over (last_named user n) (find_env_var template n))
unfolding merge_environment_variables
merge_environment_variables_outcome order template user visits distinct =
    let entries = merged_entries order template user in
    (
      sort-IsSorted entries,
      sort-distinct entries (merged_entries-distinct order visits template user distinct),
      λ n. sort-find entries n ∙ merged_entries-find order visits template user distinct n,
    )

-- If the template's names are distinct, the result is the same for every order in which Go visits
-- the map and for every ascending rearrangement that an unstable sort may return.
pub merge_environment_variables_unique :
    (order order' : Map EnvVar → List EnvVar) (template user out : List EnvVar)
    → VisitsEachOnce order
    → VisitsEachOnce order'
    → HasDistinctNames template
    → Permᴰ (merged_entries order' template user) out
    → IsSorted out
    → out ≡ merge_environment_variables order template user
merge_environment_variables_unique order order' template user out visits visits' distinct p sorted =
    let (s, d, finds) = merge_environment_variables_outcome order template user visits distinct in
    let same = perm-SameNames p (merged_entries-distinct order' visits' template user distinct) in
    sorted_unique out (merge_environment_variables order template user) sorted s same.distinct d
      λ n.
        sym (same.finds n)
        ∙ merged_entries-find order' visits' template user distinct n
        ∙ sym (finds n)

-- two runs that differ in the order in which Go visits the map
pub merge_environment_variables_same :
    (order order' : Map EnvVar → List EnvVar) (template user : List EnvVar)
    → VisitsEachOnce order
    → VisitsEachOnce order'
    → HasDistinctNames template
    → merge_environment_variables order' template user
      ≡ merge_environment_variables order template user
merge_environment_variables_same order order' template user visits visits' distinct =
    let (s, d, finds) = merge_environment_variables_outcome order template user visits distinct in
    let (s', d', finds') =
      merge_environment_variables_outcome order' template user visits' distinct in
    sorted_unique _ _ s' s d' d (λ n. finds' n ∙ sym (finds n))
