-- ===== src/Controller/AgentDeployment/Idempotent.antt =====
-- A second update of an agent's Deployment or Service changes nothing.
use agent_runtime_operator.Base.{
  String, Map, ◌≡◌, refl, ap, ◌∙◌, Option, none, some, List, [], ◌∷◌, or_else, ℕ,
}
use agent_runtime_operator.Base.Maps
use agent_runtime_operator.Base.Maps.{HasDistinctKeys}
use agent_runtime_operator.Api.Meta.{ObjectMeta, EnvVar}
use agent_runtime_operator.Api.Agent.{Agent}
use agent_runtime_operator.Cluster.{Result, ok, err, ◌>>=◌, bind-ok}
use agent_runtime_operator.Controller.Env.{merge_environment_variables}
use agent_runtime_operator.Controller.Env.Merge.{VisitsEachOnce, merge_environment_variables_same}
use agent_runtime_operator.Controller.SubAgents.{ResolvedSubAgent}
use agent_runtime_operator.Controller.Template.{build_template_environment_vars}
use agent_runtime_operator.Controller.Template.Laws.{build_template_environment_vars-distinct}
use agent_runtime_operator.Controller.Template.Orders.{
  HasDistinctSanitized, VisitsEachEntry, MarshalsByKey, build_template_environment_vars_same,
}
use agent_runtime_operator.Controller.Util.{app_label, labels_of, annotations_of}
use agent_runtime_operator.Controller.Names.{agent_container_name}
use agent_runtime_operator.Controller.Workload.{Container, Deployment, Service}
use agent_runtime_operator.Controller.Workload.Laws.{update_container_idempotent}
use agent_runtime_operator.Controller.Workload.Again.{
  SetsOwner, owned, mutate, mutate_again, apply_labels_again, selector_again, deployment-eq,
}
use agent_runtime_operator.Controller.AgentDeployment.{
  Platform, Resolved, gateway_url, prefixed, selector_labels, managed_labels, all_env_vars,
  update_agent_container, update_deployment, mutate_deployment, update_service, mutate_service,
}

-- The labels and annotations of `commonMetadata` have no key twice.
pub record HasDistinctMetadata (agent : Agent) : Type 0 where
  pub labels : HasDistinctKeys (labels_of agent.spec.common_metadata)
  pub annotations : HasDistinctKeys (annotations_of agent.spec.common_metadata)

managed_labels-HasDistinctKeys :
    (agent : Agent) (resolved : Resolved) → HasDistinctKeys (managed_labels agent resolved.config)
unfolding Maps.lookup
managed_labels-HasDistinctKeys agent resolved = (refl, (refl, tt))

prefixed-ok : (r : Result (List EnvVar)) (env : List EnvVar) → prefixed r ≡ ok env → r ≡ ok env
prefixed-ok (ok x) env h = h
prefixed-ok (err e) env h = absurd (cc h)

replicas_again :
    (wanted old : Option ℕ)
    → some (or_else wanted (or_else (some (or_else wanted (or_else old 0))) 0))
      ≡ some (or_else wanted (or_else old 0))
replicas_again none old = refl
replicas_again (some n) old = refl

-- the same platform, where Go visits its two maps in other orders
abbrev pub reordered :
    Platform → (Map EnvVar → List EnvVar) → (Map ResolvedSubAgent → Map ResolvedSubAgent) → Platform
reordered p order sub_agent_order = record p {
  env_order = order;
  go = record p.go { sub_agent_order = sub_agent_order };
}

module _ (p : Platform) (agent : Agent) (resolved : Resolved) where
  update_deployment_again :
      (env : List EnvVar) (d : Deployment) (owners : List String)
      → HasDistinctMetadata agent
      → HasDistinctKeys (or_else d.metadata.labels [])
      → let once = update_deployment p agent resolved env d in
        let with_owner : Deployment = record once { metadata = owned owners once.metadata } in
        update_deployment p agent resolved env with_owner ≡ with_owner
  unfolding update_deployment
  update_deployment_again env d owners distinct labels =
      deployment-eq _ _
        (apply_labels_again owners d.metadata agent.spec.common_metadata
          (managed_labels agent resolved.config) labels distinct.labels distinct.annotations
          (managed_labels-HasDistinctKeys agent resolved))
        (selector_again owners d.metadata agent.spec.common_metadata
          (managed_labels agent resolved.config) (selector_labels agent) d.selector)
        (replicas_again agent.spec.replicas d.replicas) refl refl
        (ap
          (λ (cs : List Container). record d.pod { containers = cs; volumes = agent.spec.volumes })
          (update_container_idempotent agent_container_name
            (update_agent_container p agent resolved env)
            (unfold update_agent_container in λ c. refl)
            (unfold update_agent_container in λ c. refl) d.pod.containers))

  module _ (order : Map EnvVar → List EnvVar)
      (sub_agent_order : Map ResolvedSubAgent → Map ResolvedSubAgent) where
    all_env_vars_same :
        (env : List EnvVar)
        → VisitsEachOnce p.env_order
        → VisitsEachOnce order
        → VisitsEachEntry p.go.sub_agent_order
        → VisitsEachEntry sub_agent_order
        → MarshalsByKey p.go.marshal_sub_agents
        → HasDistinctSanitized resolved.sub_agents
        → all_env_vars p agent resolved ≡ ok env
        → all_env_vars (reordered p order sub_agent_order) agent resolved ≡ ok env
    unfolding all_env_vars
    all_env_vars_same env visits visits' visits_subs visits_subs' marshals names h =
        let url = gateway_url resolved.ai_gateway in
        let merged = λ (order : Map EnvVar → List EnvVar) (template : List EnvVar).
          merge_environment_variables order template agent.spec.env in
        let (template, e, h') =
          bind-ok
            (prefixed
              (build_template_environment_vars p.go agent resolved.sub_agents resolved.tools url))
            (λ template. ok (merged p.env_order template)) h in
        let built = prefixed-ok _ template e in
        let again =
          build_template_environment_vars_same p.go sub_agent_order marshals visits_subs
            visits_subs' agent resolved.sub_agents resolved.tools url template names built in
        let (distinct, _, _, _, _) =
          build_template_environment_vars-distinct p.go agent resolved.sub_agents resolved.tools url
            template built in
        ap (λ r. prefixed r >>= λ template. ok (merged order template)) again
        ∙ ap ok (
            merge_environment_variables_same p.env_order order template agent.spec.env visits
              visits' distinct)
        ∙ h'

    -- Let no map of labels or annotations have a key twice, let SetControllerReference write only the
    -- owner and find it in place a second time, let json.Marshal depend only on what a map has under
    -- each key, let the sanitised names of the sub-agents be distinct, and let Go visit each entry of
    -- its maps once, in any orders and in other orders the second time. Then a second update of the
    -- agent's Deployment changes nothing.
    pub mutate_deployment_idempotent :
        (d d' : Deployment)
        → SetsOwner p.set_controller_reference
        → VisitsEachOnce p.env_order
        → VisitsEachOnce order
        → VisitsEachEntry p.go.sub_agent_order
        → VisitsEachEntry sub_agent_order
        → MarshalsByKey p.go.marshal_sub_agents
        → HasDistinctSanitized resolved.sub_agents
        → HasDistinctMetadata agent
        → HasDistinctKeys (or_else d.metadata.labels [])
        → mutate_deployment p agent resolved d ≡ ok d'
        → mutate_deployment (reordered p order sub_agent_order) agent resolved d' ≡ ok d'
    unfolding mutate_deployment update_deployment update_agent_container
    mutate_deployment_idempotent d d' laws visits visits' visits_subs visits_subs' marshals names
          distinct labels h =
        let once = λ (env : List EnvVar).
          mutate p.set_controller_reference laws agent.metadata (λ (x : Deployment). x.metadata)
            (λ x m. record x { metadata = m }) (λ x. refl) (λ x m. refl)
            (update_deployment p agent resolved env) in
        let (env, e, h') = bind-ok (all_env_vars p agent resolved) (λ env. once env d) h in
        ap (λ r. r >>= λ env. once env d')
          (all_env_vars_same env visits visits' visits_subs visits_subs' marshals names e)
        ∙ mutate_again p.set_controller_reference laws agent.metadata
            (λ (x : Deployment). x.metadata) (λ x m. record x { metadata = m }) (λ x. refl)
            (λ x m. refl) (update_deployment p agent resolved env) d d'
            (λ owners. update_deployment_again env d owners distinct labels) h'

-- If no map of labels or annotations has a key twice, and SetControllerReference writes only the
-- owner and finds it in place a second time, then a second update of the agent's Service changes
-- nothing.
pub mutate_service_idempotent :
    (p : Platform) (agent : Agent) (s s' : Service)
    → SetsOwner p.set_controller_reference
    → HasDistinctMetadata agent
    → HasDistinctKeys (or_else s.metadata.labels [])
    → mutate_service p agent s ≡ ok s'
    → mutate_service p agent s' ≡ ok s'
unfolding mutate_service Maps.lookup
mutate_service_idempotent p agent s s' laws distinct labels h =
    mutate_again p.set_controller_reference laws agent.metadata (λ (x : Service). x.metadata)
      (λ x m. record x { metadata = m }) (λ x. refl) (λ x m. refl) (update_service p agent) s s'
      (λ owners.
        unfold update_service in
        ap (λ (m : ObjectMeta). record (update_service p agent s) { metadata = m })
          (apply_labels_again owners s.metadata agent.spec.common_metadata
            ((app_label, agent.name) ∷ []) labels distinct.labels distinct.annotations (refl, tt)))
      h
