-- ===== src/Controller/AgentDeployment/Reached.antt =====
-- The Service of an agent reaches the pods of its Deployment.
use mathlib.Core.Path.{subst}
use agent_runtime_operator.Base.{◌≡◌, refl, sym, ap, ◌∙◌, List, [], ◌∷◌, map, or_else}
use agent_runtime_operator.Base.Maps
use agent_runtime_operator.Base.Maps.{HasDistinctKeys}
use agent_runtime_operator.Api.Meta.{EnvVar, ObjectMeta}
use agent_runtime_operator.Api.Agent.{AgentProtocol, Agent}
use agent_runtime_operator.Cluster.{ok}
use agent_runtime_operator.Controller.Names.{agent_container_name}
use agent_runtime_operator.Controller.Util.{build_pod_template_metadata}
use agent_runtime_operator.Controller.Workload.{
  ContainerPort, ServicePort, Deployment, Service, blank_container,
}
use agent_runtime_operator.Controller.Workload.Laws.{find_container}
use agent_runtime_operator.Controller.Workload.Reached.{
  Selects, Reaches, OwnsPods, build_pod_template_metadata-Holds, selector-OwnsPods, mutated,
}
use agent_runtime_operator.Controller.AgentDeployment.{
  Platform, Resolved, selector_labels, container_port, service_port, update_agent_container,
  update_deployment, mutate_deployment, update_service, mutate_service,
}
use agent_runtime_operator.Controller.AgentDeployment.Laws.{
  mutate_deployment-ok, mutate_deployment-containers,
}

target_ports :
    (ps : List AgentProtocol)
    → map (λ (q : ServicePort). q.target_port) (map service_port ps)
      ≡ map (λ (q : ContainerPort). q.container_port) (map container_port ps)
target_ports [] = refl
target_ports (p ∷ ps) = ap (λ l. p.port ∷ l) (target_ports ps)

port_names :
    (ps : List AgentProtocol)
    → map (λ (q : ServicePort). q.name) (map service_port ps)
      ≡ map (λ (q : ContainerPort). q.name) (map container_port ps)
port_names [] = refl
port_names (p ∷ ps) = ap (λ l. p.name ∷ l) (port_names ps)

module _ (p : Platform) (agent : Agent) where
  mutate_service-ok :
      (s s' : Service)
      → mutate_service p agent s ≡ ok s'
      → (meta : ObjectMeta) × (s' ≡ record (update_service p agent s) { metadata = meta })
  unfolding mutate_service
  mutate_service-ok s s' h =
      mutated (p.set_controller_reference agent.metadata (update_service p agent s).metadata)
        (λ meta. record (update_service p agent s) { metadata = meta }) s' h

  updated-Selects :
      (resolved : Resolved) (env : List EnvVar) (meta : ObjectMeta) (d : Deployment)
      → Selects
          (selector_labels agent)
          (record (update_deployment p agent resolved env d) { metadata = meta })
  unfolding update_deployment Maps.lookup
  updated-Selects resolved env meta d = (
    (build_pod_template_metadata (selector_labels agent) agent.spec.common_metadata
        agent.spec.pod_metadata).0,
    refl,
    build_pod_template_metadata-Holds (selector_labels agent) agent.spec.common_metadata
        agent.spec.pod_metadata (refl, tt),
  )

  -- If the Deployment and the Service of an agent are updated, the Service selects the Deployment's
  -- pods, and its ports lead to the ports of the agent's container, under the same names. The
  -- Deployment itself keeps the selector that it was created with, or has one that selects its pods.
  pub mutate_service-Reaches :
      (resolved : Resolved) (d d' : Deployment) (s s' : Service)
      → mutate_deployment p agent resolved d ≡ ok d'
      → mutate_service p agent s ≡ ok s'
      → Reaches agent_container_name s' d' × OwnsPods d d'
  unfolding update_service update_agent_container
  mutate_service-Reaches resolved d d' s s' hd hs =
      let (env, meta, _, _, same) = mutate_deployment-ok p agent resolved d d' hd in
      let (_, (env', _, found)) = mutate_deployment-containers p agent resolved d d' hd in
      let (meta', same') = mutate_service-ok s s' hs in
      let selects : Selects (selector_labels agent) d' =
        subst (Selects (selector_labels agent)) (sym same) (updated-Selects resolved env meta d) in
      let container = update_agent_container p agent resolved env' (
        or_else (find_container agent_container_name d.pod.containers)
          (blank_container agent_container_name)) in
      (
        rw same' (record {
          selects = selects;
          container = container;
          found = found;
          target_ports = target_ports agent.spec.protocols;
          port_names = port_names agent.spec.protocols;
        }),
        selector-OwnsPods d d' (selector_labels agent)
            (ap (λ x. x.selector) same ∙ unfold update_deployment in refl) selects,
      )
