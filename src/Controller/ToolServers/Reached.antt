-- ===== src/Controller/ToolServers/Reached.antt =====
-- The Service of a tool server reaches the pods of its Deployment, where the readiness probe asks.
use mathlib.Core.Path.{subst}
use agent_runtime_operator.Base.{◌≡◌, refl, ap, sym, ◌∙◌, some, [], ◌∷◌, or_else}
use agent_runtime_operator.Base.Maps
use agent_runtime_operator.Api.Meta.{ObjectMeta}
use agent_runtime_operator.Api.ToolServer.{ToolServer}
use agent_runtime_operator.Cluster.{ok}
use agent_runtime_operator.Controller.Protocols.{Probe, tcp_socket}
use agent_runtime_operator.Controller.Util.{build_pod_template_metadata}
use agent_runtime_operator.Controller.Workload.{Deployment, Service, ServicePort, blank_container}
use agent_runtime_operator.Controller.Workload.Laws.{find_container, update_container-find}
use agent_runtime_operator.Controller.Workload.Reached.{
  Selects, Reaches, OwnsPods, build_pod_template_metadata-Holds, selector-OwnsPods, mutated,
}
use agent_runtime_operator.Controller.AgentDeployment.{Platform}
use agent_runtime_operator.Controller.ToolServers.{
  service_port, tool_server_container_name, tool_server_selector, build_readiness_probe,
  update_tool_server_container, update_tool_server_deployment, mutate_tool_server_deployment,
  update_tool_server_service, mutate_tool_server_service,
}

module _ (p : Platform) (t : ToolServer) where
  deployment-ok :
      (d d' : Deployment)
      → mutate_tool_server_deployment p t d ≡ ok d'
      → (meta : ObjectMeta) × (d'
          ≡ record (update_tool_server_deployment p t d) { metadata = meta })
  unfolding mutate_tool_server_deployment
  deployment-ok d d' h =
      mutated (p.set_controller_reference t.metadata (update_tool_server_deployment p t d).metadata)
        (λ meta. record (update_tool_server_deployment p t d) { metadata = meta }) d' h

  service-ok :
      (s s' : Service)
      → mutate_tool_server_service p t s ≡ ok s'
      → (meta : ObjectMeta) × (s' ≡ record (update_tool_server_service p t s) { metadata = meta })
  unfolding mutate_tool_server_service
  service-ok s s' h =
      mutated (p.set_controller_reference t.metadata (update_tool_server_service p t s).metadata)
        (λ meta. record (update_tool_server_service p t s) { metadata = meta }) s' h

  updated-Selects :
      (meta : ObjectMeta) (d : Deployment)
      → Selects
          (tool_server_selector t)
          (record (update_tool_server_deployment p t d) { metadata = meta })
  unfolding update_tool_server_deployment Maps.lookup
  updated-Selects meta d = (
    (build_pod_template_metadata (tool_server_selector t) t.spec.common_metadata
        t.spec.pod_metadata).0,
    refl,
    build_pod_template_metadata-Holds (tool_server_selector t) t.spec.common_metadata
        t.spec.pod_metadata (refl, tt),
  )

  updated-container :
      (d : Deployment)
      → find_container tool_server_container_name
          (update_tool_server_deployment p t d).pod.containers
        ≡ some (
            update_tool_server_container p t (
              or_else
                (find_container tool_server_container_name d.pod.containers)
                (blank_container tool_server_container_name)))
  unfolding update_tool_server_deployment
  updated-container d =
      update_container-find tool_server_container_name (update_tool_server_container p t)
        (unfold update_tool_server_container in λ c. refl) d.pod.containers

  -- If the Deployment and the Service of a tool server are updated, the Service selects the
  -- Deployment's pods, its one port leads to the port of the tool server's container, under the same
  -- name, and the container's readiness probe connects to that port. The Deployment itself keeps the
  -- selector that it was created with, or has one that selects its pods.
  pub mutate_tool_server_service-Reaches :
      (d d' : Deployment) (s s' : Service)
      → mutate_tool_server_deployment p t d ≡ ok d'
      → mutate_tool_server_service p t s ≡ ok s'
      → (reaches : Reaches tool_server_container_name s' d') × ((probe : Probe)
          × (port : ServicePort) × (reaches.container.readiness_probe ≡ some probe)
          × (probe.handler ≡ tcp_socket port.target_port)
          × (s'.ports ≡ port ∷ []))
        × OwnsPods d d'
  unfolding update_tool_server_service update_tool_server_container build_readiness_probe
  mutate_tool_server_service-Reaches d d' s s' hd hs =
      let (meta, same) = deployment-ok d d' hd in
      let (meta', same') = service-ok s s' hs in
      let selects : Selects (tool_server_selector t) d' =
        subst (Selects (tool_server_selector t)) (sym same) (updated-Selects meta d) in
      let container = update_tool_server_container p t (
        or_else (find_container tool_server_container_name d.pod.containers)
          (blank_container tool_server_container_name)) in
      rw same' (
        record {
          selects = selects;
          container = container;
          found =
              ap (λ x. find_container tool_server_container_name x.pod.containers) same
              ∙ updated-container d;
          target_ports = refl;
          port_names = refl;
        },
        (build_readiness_probe t.spec.port, service_port t, refl, refl, refl),
        selector-OwnsPods d d' (tool_server_selector t)
            (ap (λ x. x.selector) same ∙ unfold update_tool_server_deployment in refl) selects,
      )
