-- ===== src/Tests/Loops.antt =====
-- The watch on agents, for the workforce of `Traversal` after its reconciliation.
use mathlib.Core.List.{Memᴰ}
use mathlib.Core.List.Memᴰ
use mathlib.Core.List.Permᴰ
use agent_runtime_operator.Base.{◌≡◌, refl, true, some, List, [], ◌∷◌, arith, some-injective}
use agent_runtime_operator.Base.Maps.Values.{values}
use agent_runtime_operator.Api.Meta.{Condition, condition_true, key_of}
use agent_runtime_operator.Api.Workforce.{TransitiveAgent, AgenticWorkforce}
use agent_runtime_operator.Cluster.{ok, Reader}
use agent_runtime_operator.Controller.Util.{get_namespace_with_default, find_ready_condition}
use agent_runtime_operator.Controller.Workforce.{contains, find_workforces_referencing_agent}
use agent_runtime_operator.Controller.Workforce.Traverse.Reach.{entry}
use agent_runtime_operator.Controller.Workforce.Traverse.Listed.{
  collect_transitive_agents_and_tools_correct,
}
use agent_runtime_operator.Controller.Workforce.Reconcile.Entries.{AllThere}
use agent_runtime_operator.Controller.Workforce.Reconcile.Outcomes.{IsCurrent}
use agent_runtime_operator.Controller.Workforce.Reconcile.Watched.{current_workforce-enqueued}
use agent_runtime_operator.Tests.Samples.{reference, before}
use agent_runtime_operator.Tests.Traversal.{
  looper, with_looper, loop_server, loop_keys, agents_order, tools_order, loop_keys-IsUniverse,
  loop_entries-HasEntries,
}

abbrev ready : Condition
ready = record {
  type = "Ready";
  status = condition_true;
  observed_generation = with_looper.workforce.metadata.generation;
  reason = "AllAgentsReady";
  message = "All entry point agents are available";
}

abbrev listed : List TransitiveAgent
listed =
    (collect_transitive_agents_and_tools_correct loop_server loop_keys loop_keys-IsUniverse
      with_looper.workforce agents_order tools_order (λ m. Permᴰ.refl (values m))
      loop_entries-HasEntries 2 (omega arith)).0

abbrev reconciled : AgenticWorkforce
reconciled = record with_looper.workforce {
  status = record { conditions = ready ∷ []; transitive_agents = listed; transitive_tools = [] };
}

loopers_there : AllThere loop_server "team" (some (reference "looper") ∷ [])
unfolding get_namespace_with_default
loopers_there ref m =
    let same : ref ≡ reference "looper" = some-injective (Memᴰ.eq_of_singleton m) in rw same refl

reconciled-IsCurrent :
    IsCurrent loop_server loop_keys loop_keys-IsUniverse reconciled reconciled.status
unfolding find_ready_condition
reconciled-IsCurrent =
    let (_, _, _, complete, sound) =
      collect_transitive_agents_and_tools_correct loop_server loop_keys loop_keys-IsUniverse
        with_looper.workforce agents_order tools_order (λ m. Permᴰ.refl (values m))
        loop_entries-HasEntries 2 (omega arith) in
    record {
      complete = complete;
      sound = sound;
      shown = (ready, refl, (λ h. loopers_there, λ h. refl), refl);
    }

abbrev with_reconciled : Reader
with_reconciled = record before { list_workforces = ok (reconciled ∷ []) }

current_workforce-enqueued_example :
    contains (key_of reconciled.metadata) (find_workforces_referencing_agent with_reconciled looper)
    ≡ true
unfolding get_namespace_with_default
current_workforce-enqueued_example =
    current_workforce-enqueued loop_server loop_keys loop_keys-IsUniverse reconciled
      reconciled-IsCurrent looper (Memᴰ.head refl)
      (∣ entry (reference "looper") (Memᴰ.head refl) ∣₁) with_reconciled (reconciled ∷ []) refl
      (Memᴰ.head refl)
