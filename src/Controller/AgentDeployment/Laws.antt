-- ===== src/Controller/AgentDeployment/Laws.antt =====
-- What the update of an agent's Deployment and Service guarantees.
use agent_runtime_operator.Base.{◌≡◌, refl, sym, some, List, or_else}
use agent_runtime_operator.Api.Meta.{ObjectMeta, EnvVar}
use agent_runtime_operator.Api.Agent.{Agent}
use agent_runtime_operator.Cluster.{ok, ◌>>=◌, bind-ok, ok-injective}
use agent_runtime_operator.Controller.Names.{agent_container_name}
use agent_runtime_operator.Controller.Workload.{Container, Deployment, blank_container}
use agent_runtime_operator.Controller.Workload.Laws.{
  others, find_container, update_container-others, update_container-find,
}
use agent_runtime_operator.Controller.AgentDeployment.{
  Platform, Resolved, all_env_vars, update_agent_container, update_deployment, mutate_deployment,
}

module _ (p : Platform) (agent : Agent) (resolved : Resolved) where
  pub mutate_deployment-ok :
      (d d' : Deployment)
      → mutate_deployment p agent resolved d ≡ ok d'
      → (env : List EnvVar) × (meta : ObjectMeta) × (all_env_vars p agent resolved ≡ ok env)
        × (p.set_controller_reference agent.metadata
              (update_deployment p agent resolved env d).metadata
            ≡ ok meta)
        × (d' ≡ record (update_deployment p agent resolved env d) { metadata = meta })
  unfolding mutate_deployment
  mutate_deployment-ok d d' h =
      let (env, e, h') =
        bind-ok (all_env_vars p agent resolved)
          (λ env.
            p.set_controller_reference agent.metadata
              (update_deployment p agent resolved env d).metadata
            >>= λ meta. ok (record (update_deployment p agent resolved env d) { metadata = meta }))
          h in
      let (meta, e', h'') =
        bind-ok
          (p.set_controller_reference agent.metadata
            (update_deployment p agent resolved env d).metadata)
          (λ meta. ok (record (update_deployment p agent resolved env d) { metadata = meta })) h' in
      (env, meta, e, e', sym (ok-injective h''))

  -- If the update of the Deployment succeeds, the containers that are not the agent's stay as they
  -- were, and the agent's container is the update of the one that was there, or of a blank one.
  pub mutate_deployment-containers :
      (d d' : Deployment)
      → mutate_deployment p agent resolved d ≡ ok d'
      → (others agent_container_name d'.pod.containers
          ≡ others agent_container_name d.pod.containers)
        × ((env : List EnvVar) × (all_env_vars p agent resolved ≡ ok env)
            × (find_container agent_container_name d'.pod.containers
                ≡ some (
                    update_agent_container p agent resolved env (
                      or_else
                        (find_container agent_container_name d.pod.containers)
                        (blank_container agent_container_name)))))
  unfolding update_deployment
  mutate_deployment-containers d d' h =
      let (env, meta, e, _, e') = mutate_deployment-ok d d' h in
      let update = update_agent_container p agent resolved env in
      let keeps : (c : Container) → (update c).name ≡ c.name =
        unfold update_agent_container in λ c. refl in
      rw e' (
        update_container-others agent_container_name update keeps d.pod.containers,
        (env, e, update_container-find agent_container_name update keeps d.pod.containers),
      )
