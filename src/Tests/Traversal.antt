-- ===== src/Tests/Traversal.antt =====
-- The traversal and the reconciliation of a workforce whose one agent refers to itself and to a remote agent.
use mathlib.Core.List.{Memᴰ}
use mathlib.Core.List.Memᴰ
use mathlib.Core.List.Permᴰ
use agent_runtime_operator.Base.{
  ◌≡◌, refl, sym, ap, ◌∙◌, ◌⊎◌, ◌↔◌, true, false, none, some, List, [], ◌∷◌, ◌==◌, arith, inl, inr,
  some-injective,
}
use agent_runtime_operator.Base.{Map, Bool, String, map, is_nil}
use agent_runtime_operator.Base.Maps.Values.{values}
use agent_runtime_operator.Api.Meta.{ObjectReference, NamespacedName}
use agent_runtime_operator.Api.Agent.{SubAgent, Agent}
use agent_runtime_operator.Api.Workforce.{TransitiveAgent, AgenticWorkforce}
use agent_runtime_operator.Cluster.{Outcome, ok, Reader, ok-injective}
use agent_runtime_operator.Controller.Util.{get_namespace_with_default}
use agent_runtime_operator.Controller.SubAgents.{agent_key}
use agent_runtime_operator.Controller.Workforce.Traverse.{
  Traversal, empty_traversal, text_of, is_visited, traverse_entries,
}
use agent_runtime_operator.Controller.Workforce.Traverse.Steps.{IsUniverse}
use agent_runtime_operator.Controller.Workforce.Traverse.Reach.{Reach, IsSound}
use agent_runtime_operator.Controller.Workforce.Traverse.Correct.{
  HasEntries, traverse_entries_correct,
}
use agent_runtime_operator.Controller.Workforce.Reconcile.{validate_entry_point_agents, reconcile}
use agent_runtime_operator.Controller.Workforce.Reconcile.Entries.{
  AllThere, missing_keys, validate_entry_point_agents_outcome,
}
use agent_runtime_operator.Controller.Workforce.Reconcile.Outcomes.{IsCurrent, reconcile-IsCurrent}
use agent_runtime_operator.Tests.Memory.{
  Memory, reader_of, memory_server, memory_server-IsApiServer,
}
use agent_runtime_operator.Tests.Samples.{
  crew, server_of, workforce_of, reference, sub_agent_of, agent_of, team, before,
}

abbrev by_url : SubAgent
by_url = record {
  name = "remote";
  agent_ref = none;
  url = "https://x";
  interaction_type = "tool_call";
}

abbrev pub looper : Agent
looper = agent_of "looper" (sub_agent_of "looper" ∷ by_url ∷ []) []

abbrev pub with_looper : Memory
with_looper = record {
  agent = looper;
  tool_server = server_of "files" "";
  workforce = workforce_of "loopers" (some (reference "looper") ∷ []);
  service = none;
}

abbrev pub loop_server : Reader
loop_server = reader_of with_looper

abbrev pub loop_keys : List NamespacedName
loop_keys = team "looper" ∷ []

loop_found :
    (k : NamespacedName) (a : Agent)
    → Memᴰ k loop_keys
    → loop_server.get_agent k ≡ ok a
    → looper ≡ a
loop_found k a m got = ok-injective (ap loop_server.get_agent (sym (Memᴰ.eq_of_singleton m)) ∙ got)

loop_subs :
    (sub : SubAgent)
    → Memᴰ sub looper.spec.sub_agents
    → (sub ≡ sub_agent_of "looper") ⊎ (sub ≡ by_url)
loop_subs sub m = elim (Memᴰ.cases_cons m) [
  | inl here ↦ inl here
  | inr later ↦ inr (Memᴰ.eq_of_singleton later)
]

loop_references :
    (sub : SubAgent) (ref : ObjectReference)
    → Memᴰ sub looper.spec.sub_agents
    → sub.agent_ref ≡ some ref
    → Memᴰ (agent_key ref "team") loop_keys
unfolding get_namespace_with_default
loop_references sub ref m has = elim (loop_subs sub m) [
  | inl here ↦
      let same : reference "looper" ≡ ref =
        some-injective (ap (λ x. x.agent_ref) (sym here) ∙ has) in
      rw (← same) (Memᴰ.head refl)
  | inr remote ↦ cc
]

loop_urls :
    (sub : SubAgent)
    → Memᴰ sub looper.spec.sub_agents
    → (sub.url == text_of (team "looper")) ≡ false
loop_urls sub m = elim (loop_subs sub m) [
  | inl here ↦ ap (λ (x : SubAgent). x.url == text_of (team "looper")) here
  | inr remote ↦ ap (λ (x : SubAgent). x.url == text_of (team "looper")) remote
]

pub loop_keys-IsUniverse : IsUniverse loop_server loop_keys
loop_keys-IsUniverse = record {
  names = λ k m. rw (Memᴰ.eq_of_singleton m) (refl, (refl, (refl, (refl, tt))));
  references = λ k a sub ref m got in_a has.
      let same = loop_found k a m got in
      rw (← same) (loop_references sub ref (rw (← same) at in_a) has);
  urls = λ j k a sub mj m got in_a.
      rw (Memᴰ.eq_of_singleton mj) (loop_urls sub (rw (← loop_found k a m got) at in_a));
}

pub loop_entries-HasEntries :
    HasEntries loop_server loop_keys loop_keys-IsUniverse "team" (some (reference "looper") ∷ [])
unfolding get_namespace_with_default
loop_entries-HasEntries ref m =
    let same : ref ≡ reference "looper" = some-injective (Memᴰ.eq_of_singleton m) in
    rw same (Memᴰ.head refl)

traverse_entries_correct_example :
    (s : Traversal) × (traverse_entries loop_server 2 "team"
        (some (reference "looper") ∷ [])
        empty_traversal
      ≡ some s)
    × ((k : NamespacedName)
        → Memᴰ k loop_keys
        → (is_visited (text_of k) s ≡ true)
          ↔ ∥ Reach loop_server "team" (some (reference "looper") ∷ []) k ∥₁)
    × IsSound loop_server "team" (some (reference "looper") ∷ []) s
unfolding get_namespace_with_default
traverse_entries_correct_example =
    traverse_entries_correct loop_server loop_keys loop_keys-IsUniverse "team"
      (some (reference "looper") ∷ []) loop_entries-HasEntries 2 (omega arith)

-- the order of the entries
abbrev pub agents_order : Map TransitiveAgent → List TransitiveAgent
agents_order m = values m

abbrev pub tools_order : Map Bool → List String
tools_order m = map (λ e. e.0) m

reconcile-IsCurrent_example :
    (o : Outcome) × (s' : Memory) × (reconcile memory_server agents_order tools_order 2
        (team "loopers")
        with_looper
      ≡ some (o, s'))
    × (o ≡ ok tt
        → (stored : AgenticWorkforce) × (memory_server.get_workforce (team "loopers") s'
            ≡ ok stored)
          × IsCurrent loop_server loop_keys loop_keys-IsUniverse with_looper.workforce
              stored.status)
reconcile-IsCurrent_example =
    reconcile-IsCurrent memory_server memory_server-IsApiServer agents_order tools_order
      (λ m. Permᴰ.refl (values m)) 2 (team "loopers") with_looper.workforce with_looper refl
      loop_keys loop_keys-IsUniverse loop_entries-HasEntries (omega arith)

validate_entry_point_agents_outcome_example :
    let v = validate_entry_point_agents before crew in
    ((v.all_ready ≡ true) ↔ AllThere before "team" (none ∷ some (reference "planner") ∷ []))
    × (v.all_ready ≡ is_nil v.missing_agents)
    × (v.missing_agents ≡ missing_keys before "team" (none ∷ some (reference "planner") ∷ []))
validate_entry_point_agents_outcome_example = validate_entry_point_agents_outcome before crew
