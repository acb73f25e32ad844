-- ===== src/Controller/ToolServers/Laws.antt =====
-- What the update of a tool server's Deployment and Service guarantees.
use mathlib.Core.Path.{fun_ext}
use agent_runtime_operator.Base.{Map, String, ◌∙◌, ◌≡◌, refl, ap, List, [], or_else}
use agent_runtime_operator.Base.Maps
use agent_runtime_operator.Base.Maps.{HasDistinctKeys, over}
use agent_runtime_operator.Api.Meta.{ObjectMeta, EnvVar}
use agent_runtime_operator.Api.ToolServer.{ToolServer}
use agent_runtime_operator.Cluster.{ok, ◌>>=◌}
use agent_runtime_operator.Controller.Util.{labels_of, annotations_of, find_env_var}
use agent_runtime_operator.Controller.Env.Merge.{
  VisitsEachOnce, merge_environment_variables_outcome, merge_environment_variables_same,
}
use agent_runtime_operator.Controller.Env.Names.{HasDistinctNames}
use agent_runtime_operator.Controller.Env.Overrides.{last_named}
use agent_runtime_operator.Controller.Workload.{update_container, Container, Deployment, Service}
use agent_runtime_operator.Controller.Workload.Laws.{update_container_idempotent}
use agent_runtime_operator.Controller.Workload.Again.{
  SetsOwner, owned, mutate_again, apply_labels_again, selector_again, deployment-eq,
}
use agent_runtime_operator.Controller.AgentDeployment.{Platform}
use agent_runtime_operator.Controller.ToolServers.{
  tool_server_container_name, default_tool_server_env_vars, tool_server_selector,
  tool_server_labels, update_tool_server_container, update_tool_server_deployment,
  mutate_tool_server_deployment, update_tool_server_service, mutate_tool_server_service,
}

-- The labels and annotations of `commonMetadata` have no key twice.
pub record HasDistinctMetadata (t : ToolServer) : Type 0 where
  pub labels : HasDistinctKeys (labels_of t.spec.common_metadata)
  pub annotations : HasDistinctKeys (annotations_of t.spec.common_metadata)

tool_server_labels-HasDistinctKeys : (t : ToolServer) → HasDistinctKeys (tool_server_labels t)
unfolding Maps.lookup
tool_server_labels-HasDistinctKeys t = (refl, (refl, (refl, tt)))

default-HasDistinctNames : (t : ToolServer) → HasDistinctNames (default_tool_server_env_vars t)
unfolding default_tool_server_env_vars find_env_var
default-HasDistinctNames t = (refl, (refl, tt))

module _ (p : Platform) (t : ToolServer) where
  -- Under each name the tool server's container has the user's last entry of the name, or else the
  -- default entry, if Go's `range` visits each value of a map once.
  pub update_tool_server_container-env :
      (c : Container) (name : String)
      → VisitsEachOnce p.env_order
      → find_env_var (update_tool_server_container p t c).env name
        ≡ over (last_named t.spec.env name) (find_env_var (default_tool_server_env_vars t) name)
  unfolding update_tool_server_container
  update_tool_server_container-env c name visits =
      let (_, _, finds) =
        merge_environment_variables_outcome p.env_order (default_tool_server_env_vars t) t.spec.env
          visits (default-HasDistinctNames t) in
      finds name

  update_container_twice :
      (c : Container)
      → update_tool_server_container p t (update_tool_server_container p t c)
        ≡ update_tool_server_container p t c
  unfolding update_tool_server_container
  update_container_twice c = refl

  update_deployment_again :
      (d : Deployment) (owners : List String)
      → HasDistinctMetadata t
      → HasDistinctKeys (or_else d.metadata.labels [])
      → let once = update_tool_server_deployment p t d in
        let with_owner : Deployment = record once { metadata = owned owners once.metadata } in
        update_tool_server_deployment p t with_owner ≡ with_owner
  unfolding update_tool_server_deployment
  update_deployment_again d owners distinct labels =
      deployment-eq _ _
        (apply_labels_again owners d.metadata t.spec.common_metadata (tool_server_labels t) labels
          distinct.labels distinct.annotations (tool_server_labels-HasDistinctKeys t))
        (selector_again owners d.metadata t.spec.common_metadata (tool_server_labels t)
          (tool_server_selector t) d.selector)
        refl refl refl
        (ap
          (λ (cs : List Container). record d.pod {
            containers = cs;
            image_pull_secrets = t.spec.image_pull_secrets;
          })
          (update_container_idempotent tool_server_container_name (update_tool_server_container p t)
            (unfold update_tool_server_container in λ c. refl) update_container_twice
            d.pod.containers))

  update_container_same :
      (order' : Map EnvVar → List EnvVar) (c : Container)
      → VisitsEachOnce p.env_order
      → VisitsEachOnce order'
      → update_tool_server_container (record p { env_order = order' }) t c
        ≡ update_tool_server_container p t c
  unfolding update_tool_server_container
  update_container_same order' c visits visits' =
      rw
        (merge_environment_variables_same p.env_order order' (default_tool_server_env_vars t)
          t.spec.env visits visits' (default-HasDistinctNames t))
        refl

  update_deployment_same :
      (order' : Map EnvVar → List EnvVar) (d : Deployment)
      → VisitsEachOnce p.env_order
      → VisitsEachOnce order'
      → update_tool_server_deployment (record p { env_order = order' }) t d
        ≡ update_tool_server_deployment p t d
  unfolding update_tool_server_deployment
  update_deployment_same order' d visits visits' = deployment-eq _ _ refl refl refl refl refl (
      ap
        (λ (f : Container → Container). record d.pod {
          containers = update_container tool_server_container_name f d.pod.containers;
          image_pull_secrets = t.spec.image_pull_secrets;
        })
        (fun_ext (λ c. update_container_same order' c visits visits')))

  -- Let no map of labels or annotations have a key twice, let SetControllerReference write only the
  -- owner and find it in place a second time, and let Go visit each value of a map once, in any order
  -- and in another order the second time. Then a second update of the Deployment changes nothing.
  pub mutate_tool_server_deployment_idempotent :
      (order' : Map EnvVar → List EnvVar) (d d' : Deployment)
      → SetsOwner p.set_controller_reference
      → VisitsEachOnce p.env_order
      → VisitsEachOnce order'
      → HasDistinctMetadata t
      → HasDistinctKeys (or_else d.metadata.labels [])
      → mutate_tool_server_deployment p t d ≡ ok d'
      → mutate_tool_server_deployment (record p { env_order = order' }) t d' ≡ ok d'
  unfolding mutate_tool_server_deployment
  mutate_tool_server_deployment_idempotent order' d d' laws visits visits' distinct labels h =
      ap
        (λ (x : Deployment).
          p.set_controller_reference t.metadata x.metadata >>= λ m. ok (record x { metadata = m }))
        (update_deployment_same order' d' visits visits')
      ∙ mutate_again p.set_controller_reference laws t.metadata (λ (x : Deployment). x.metadata)
          (λ x m. record x { metadata = m }) (λ x. refl) (λ x m. refl)
          (update_tool_server_deployment p t) d d'
          (λ owners. update_deployment_again d owners distinct labels) h

  -- If no map of labels or annotations has a key twice, and SetControllerReference writes only the
  -- owner and finds it in place a second time, then a second update of the Service changes nothing.
  pub mutate_tool_server_service_idempotent :
      (s s' : Service)
      → SetsOwner p.set_controller_reference
      → HasDistinctMetadata t
      → HasDistinctKeys (or_else s.metadata.labels [])
      → mutate_tool_server_service p t s ≡ ok s'
      → mutate_tool_server_service p t s' ≡ ok s'
  unfolding mutate_tool_server_service
  mutate_tool_server_service_idempotent s s' laws distinct labels h =
      mutate_again p.set_controller_reference laws t.metadata (λ (x : Service). x.metadata)
        (λ x m. record x { metadata = m }) (λ x. refl) (λ x m. refl)
        (update_tool_server_service p t) s s'
        (λ owners.
          unfold update_tool_server_service in
          ap (λ (m : ObjectMeta). record (update_tool_server_service p t s) { metadata = m })
            (apply_labels_again owners s.metadata t.spec.common_metadata (tool_server_labels t)
              labels distinct.labels distinct.annotations (tool_server_labels-HasDistinctKeys t)))
        h
