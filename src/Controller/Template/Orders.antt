-- ===== src/Controller/Template/Orders.antt =====
-- The template variables do not depend on the order in which Go visits the map of the sub-agents, if
-- the sanitised names of the sub-agents are distinct.
use mathlib.Core.List.{Permᴰ}
use mathlib.Core.List.Permᴰ
use agent_runtime_operator.Base.{
  String, ◌≡◌, refl, sym, ap, ◌∙◌, Option, none, List, [], ◌∷◌, arith, Map, Bool-cases, inl, inr,
  eq_iff, is_nil,
}
use agent_runtime_operator.Base.Maps
use agent_runtime_operator.Base.Maps.{over}
use agent_runtime_operator.Base.Everywhere.{All-Permᴰ}
use agent_runtime_operator.Api.Meta.{EnvVar}
use agent_runtime_operator.Api.Agent.{Agent}
use agent_runtime_operator.Cluster.{Result, ok, bind-ok, ◌>>=◌}
use agent_runtime_operator.Controller.SubAgents.{ResolvedSubAgent}
use agent_runtime_operator.Controller.Tools.{ResolvedTool}
use agent_runtime_operator.Controller.Names.{sanitize_agent_name}
use agent_runtime_operator.Controller.Template.{
  Runtime, sub_agents_map, visited_sub_agents, marshalled, sub_agents_json, tools_json,
  build_template_environment_vars,
}
use agent_runtime_operator.Controller.Template.Laws.{
  last_sanitized, sub_agents_map-ok_iff, sub_agents_map-lookup, build_template_environment_vars-ok,
}

-- no two sub-agents have one sanitised name
abbrev pub HasDistinctSanitized : Map ResolvedSubAgent → Type 0
HasDistinctSanitized [] = Unit
HasDistinctSanitized ((name, sub) ∷ rest) =
    (last_sanitized rest (sanitize_agent_name name) ≡ none) × HasDistinctSanitized rest

-- `range` over the map visits each of its entries once.
abbrev pub VisitsEachEntry : (Map ResolvedSubAgent → Map ResolvedSubAgent) → Type 0
VisitsEachEntry order = (m : Map ResolvedSubAgent) → Permᴰ (order m) m

-- json.Marshal sorts the keys of a map: its text depends only on what the map has under each key.
abbrev pub MarshalsByKey : (Map (Map String) → Result String) → Type 0
MarshalsByKey marshal =
    (m n : Map (Map String))
    → ((key : String) → Maps.lookup key m ≡ Maps.lookup key n)
    → marshal m ≡ marshal n

record SameSanitized (xs ys : Map ResolvedSubAgent) : Type 0 where
  distinct : HasDistinctSanitized ys
  finds : (key : String) → last_sanitized xs key ≡ last_sanitized ys key

sanitized-cons :
    (e : String × ResolvedSubAgent) (xs ys : Map ResolvedSubAgent)
    → SameSanitized xs ys
    → last_sanitized xs (sanitize_agent_name e.0) ≡ none
    → SameSanitized (e ∷ xs) (e ∷ ys)
sanitized-cons (name, sub) xs ys same fresh = record {
  distinct = (sym (same.finds (sanitize_agent_name name)) ∙ fresh, same.distinct);
  finds = λ key. rw (same.finds key) refl;
}

sanitized-swap :
    (e f : String × ResolvedSubAgent) (xs : Map ResolvedSubAgent)
    → HasDistinctSanitized (e ∷ f ∷ xs)
    → SameSanitized (e ∷ f ∷ xs) (f ∷ e ∷ xs)
sanitized-swap (name, sub) (name', sub') xs (fresh, (fresh', d)) =
    let a = sanitize_agent_name name in
    let b = sanitize_agent_name name' in
    record {
      distinct = (ground (arith, eq_iff a b, eq_iff b a), (ground arith, d));
      finds = λ key. ground (arith, eq_iff a key, eq_iff b key, eq_iff b a);
    }

perm-SameSanitized :
    {xs ys : Map ResolvedSubAgent} → Permᴰ xs ys → HasDistinctSanitized xs → SameSanitized xs ys
perm-SameSanitized Permᴰ.nil d = record { distinct = d; finds = λ key. refl }
perm-SameSanitized (Permᴰ.cons {a} {l₁ = xs} {l₂ = ys} e p) (fresh, d) =
    rw (← e) (sanitized-cons a xs ys (perm-SameSanitized p d) fresh)
perm-SameSanitized (Permᴰ.swap {a} {b} {l = xs} e f) d = rw (← e, ← f) (sanitized-swap a b xs d)
perm-SameSanitized (Permᴰ.trans p q) d =
    let s = perm-SameSanitized p d in
    let t = perm-SameSanitized q s.distinct in
    record { distinct = t.distinct; finds = λ key. s.finds key ∙ t.finds key }

module _ (go : Runtime) (order : Map ResolvedSubAgent → Map ResolvedSubAgent)
    (marshals : MarshalsByKey go.marshal_sub_agents) (visits : VisitsEachEntry go.sub_agent_order)
    (visits' : VisitsEachEntry order) where
  abbrev reordered : Runtime
  reordered = record go { sub_agent_order = order }

  sub_agents_map_same :
      (xs ys : Map ResolvedSubAgent) (m : Map (Map String))
      → HasDistinctSanitized xs
      → Permᴰ xs ys
      → sub_agents_map go xs [] ≡ ok m
      → (n : Map (Map String)) × (sub_agents_map reordered ys [] ≡ ok n)
        × ((key : String) → Maps.lookup key m ≡ Maps.lookup key n)
  sub_agents_map_same xs ys m distinct p h =
      let typed = (sub_agents_map-ok_iff go xs []).0 (m, h) in
      let (n, e) = (sub_agents_map-ok_iff reordered ys []).1 (All-Permᴰ _ p typed) in
      let same = perm-SameSanitized p distinct in
      (
        n,
        e,
        λ key.
            sub_agents_map-lookup go xs [] m key h
            ∙ ap (λ o. over o (Maps.lookup key [])) (same.finds key)
            ∙ sym (sub_agents_map-lookup reordered ys [] n key e),
      )

  visited_same :
      (subs : Map ResolvedSubAgent) (m : Map (Map String))
      → HasDistinctSanitized subs
      → visited_sub_agents go subs ≡ ok m
      → (n : Map (Map String)) × (visited_sub_agents reordered subs ≡ ok n)
        × ((key : String) → Maps.lookup key m ≡ Maps.lookup key n)
  unfolding visited_sub_agents
  visited_same subs m distinct h = elim (Bool-cases (is_nil subs)) [
    | inl empty ↦ (m, rw empty (rw empty at h), λ key. refl)
    | inr some_sub ↦
        let back = Permᴰ.symm (visits subs) in
        let there = perm-SameSanitized back distinct in
        let (n, e, same) =
          sub_agents_map_same (go.sub_agent_order subs) (order subs) m there.distinct
            (Permᴰ.trans (visits subs) (Permᴰ.symm (visits' subs))) (rw some_sub at h) in
        (n, rw some_sub e, same)
  ]

  sub_agents_json_same :
      (subs : Map ResolvedSubAgent) (text : String)
      → HasDistinctSanitized subs
      → sub_agents_json go subs ≡ ok text
      → sub_agents_json reordered subs ≡ ok text
  unfolding sub_agents_json
  sub_agents_json_same subs text distinct h =
      let rest = λ (x : Map (Map String)). marshalled go "subAgents" (go.marshal_sub_agents x) in
      let (m, e, h') = bind-ok (visited_sub_agents go subs) rest h in
      let (n, e', same) = visited_same subs m distinct e in
      ap (λ r. r >>= rest) e' ∙ ap (marshalled go "subAgents") (sym (marshals m n same)) ∙ h'

  pub build_template_environment_vars_same :
      (agent : Agent) (subs : Map ResolvedSubAgent) (tools : Map ResolvedTool)
      (gateway_url : Option String) (env : List EnvVar)
      → HasDistinctSanitized subs
      → build_template_environment_vars go agent subs tools gateway_url ≡ ok env
      → build_template_environment_vars
          (record go { sub_agent_order = order })
          agent
          subs
          tools
          gateway_url
        ≡ ok env
  unfolding build_template_environment_vars tools_json
  build_template_environment_vars_same agent subs tools gateway_url env distinct h =
      let (a, t, ea, et, e) =
        build_template_environment_vars-ok go agent subs tools gateway_url env h in
      rw (sub_agents_json_same subs a distinct ea, et) (ap ok (sym e))
