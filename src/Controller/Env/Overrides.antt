-- ===== src/Controller/Env/Overrides.antt =====
-- The two loops of `mergeEnvironmentVariables`: the map of the user's entries, and the overriding of
-- the template's.
use agent_runtime_operator.Base.{
  String, ◌≡◌, refl, Option, none, some, List, [], ◌∷◌, ◌==◌, eq_iff, arith, Option-cases, inl, inr,
  if◌then◌else◌, is_some, Map,
}
use agent_runtime_operator.Base.Maps
use agent_runtime_operator.Base.Maps.{
  HasDistinctKeys, over, over_assoc, lookup-insert, lookup-delete, insert-HasDistinctKeys,
  delete-HasDistinctKeys,
}
use agent_runtime_operator.Api.Meta.{EnvVar}
use agent_runtime_operator.Controller.Util.{find_env_var}
use agent_runtime_operator.Controller.Env.{user_env_map_from, user_env_map, Overridden, override}
use agent_runtime_operator.Controller.Env.Names.{HasDistinctNames, find-cons}

-- the last entry of a name, which is the one that counts
abbrev pub last_named : List EnvVar → String → Option EnvVar
last_named [] n = none
last_named (e ∷ es) n = over (last_named es n) (if e.name == n then some e else none)

-- Every entry of `userEnvMap` stands under its own name, and no name twice.
pub record IsKeyed (m : Map EnvVar) : Type 0 where
  pub distinct : HasDistinctKeys m
  pub named : (n : String) (e : EnvVar) → Maps.lookup n m ≡ some e → e.name ≡ n

insert-IsKeyed : (e : EnvVar) (m : Map EnvVar) → IsKeyed m → IsKeyed (Maps.insert e.name e m)
insert-IsKeyed e m k = record {
  distinct = insert-HasDistinctKeys e.name e m k.distinct;
  named = λ n f h. ground (arith, lookup-insert n e.name e m, k.named n f, eq_iff e.name n);
}

delete-IsKeyed : (n : String) (m : Map EnvVar) → IsKeyed m → IsKeyed (Maps.delete n m)
delete-IsKeyed n m k = record {
  distinct = delete-HasDistinctKeys n m k.distinct;
  named = λ j f h. ground (arith, lookup-delete j n m k.distinct, k.named j f);
}

user_env_map_from-IsKeyed :
    (m : Map EnvVar) (es : List EnvVar) → IsKeyed m → IsKeyed (user_env_map_from m es)
unfolding user_env_map_from
user_env_map_from-IsKeyed m [] k = k
user_env_map_from-IsKeyed m (e ∷ es) k =
    user_env_map_from-IsKeyed (Maps.insert e.name e m) es (insert-IsKeyed e m k)

user_env_map_from-lookup :
    (m : Map EnvVar) (es : List EnvVar) (n : String)
    → Maps.lookup n (user_env_map_from m es) ≡ over (last_named es n) (Maps.lookup n m)
unfolding user_env_map_from
user_env_map_from-lookup m [] n = refl
user_env_map_from-lookup m (e ∷ es) n =
    ground
      (arith, user_env_map_from-lookup (Maps.insert e.name e m) es n, lookup-insert n e.name e m)

pub user_env_map-IsKeyed : (es : List EnvVar) → IsKeyed (user_env_map es)
unfolding user_env_map
user_env_map-IsKeyed es =
    user_env_map_from-IsKeyed [] es
      (record { distinct = tt; named = λ n e h. unfold Maps.lookup in cc })

pub user_env_map-lookup :
    (es : List EnvVar) (n : String) → Maps.lookup n (user_env_map es) ≡ last_named es n
unfolding user_env_map Maps.lookup
user_env_map-lookup es n = ground (arith, user_env_map_from-lookup [] es n)

-- What the loop over the template yields: under each template name the user's entry or else the
-- template's, and the map without the template's names.
pub record IsOverride (ts : List EnvVar) (m : Map EnvVar) (r : Overridden) : Type 0 where
  pub finds :
      (n : String)
      → find_env_var r.0 n
        ≡ (if is_some (find_env_var ts n) then over (Maps.lookup n m) (find_env_var ts n) else none)
  pub remains :
      (n : String)
      → Maps.lookup n r.1 ≡ (if is_some (find_env_var ts n) then none else Maps.lookup n m)
  pub distinct : HasDistinctNames r.0
  pub keyed : IsKeyed r.1

pub override-IsOverride :
    (ts : List EnvVar) (m : Map EnvVar)
    → HasDistinctNames ts
    → IsKeyed m
    → IsOverride ts m (override ts m)
unfolding override
override-IsOverride [] m d k =
    unfold find_env_var in
    record { finds = λ n. refl; remains = λ n. refl; distinct = tt; keyed = k }
override-IsOverride (t ∷ ts) m (fresh, d) k = elim (Option-cases (Maps.lookup t.name m)) [
  | inl missing ↦
      let ih = override-IsOverride ts m d k in
      rw (missing, override)
        (record {
          finds = λ n. ground (
            arith,
            find-cons t (override ts m).0 n,
            find-cons t ts n,
            ih.finds n,
            eq_iff t.name n,
          );
          remains = λ n. ground (arith, find-cons t ts n, ih.remains n, eq_iff t.name n);
          distinct = (ground (arith, ih.finds t.name), ih.distinct);
          keyed = ih.keyed;
        })
  | inr (user, found) ↦
      let ih = override-IsOverride ts (Maps.delete t.name m) d (delete-IsKeyed t.name m k) in
      let same = k.named t.name user found in
      let d' = k.distinct in
      rw (found, override)
        (record {
          finds = λ n. ground (
            arith,
            find-cons user (override ts (Maps.delete t.name m)).0 n,
            find-cons t ts n,
            ih.finds n,
            lookup-delete n t.name m d',
            eq_iff t.name n,
            eq_iff user.name n,
          );
          remains = λ n.
              ground (
                arith,
                find-cons t ts n,
                ih.remains n,
                lookup-delete n t.name m d',
                eq_iff t.name n,
              );
          distinct = (ground (arith, ih.finds user.name), ih.distinct);
          keyed = ih.keyed;
        })
]
