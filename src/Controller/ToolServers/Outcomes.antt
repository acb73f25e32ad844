-- ===== src/Controller/ToolServers/Outcomes.antt =====
-- What a reconciliation of a tool server leaves behind.
use mathlib.Core.Path.{subst}
use agent_runtime_operator.Base.{
  String, ◌≡◌, ◌≢◌, refl, sym, ap, ap₂, ◌∙◌, some, List, ◌<>◌, decimal, ◌⊎◌, inl, inr, ◌==◌, eq_iff,
  Bool-cases,
}
use agent_runtime_operator.Api.Meta.{NamespacedName, Condition, key_of}
use agent_runtime_operator.Api.ToolServer.{ToolServer, ToolServerStatus}
use agent_runtime_operator.Cluster.{Outcome, Error, ok, err}
use agent_runtime_operator.Controller.Util.{find_ready_condition}
use agent_runtime_operator.Controller.AgentDeployment.{Platform}
use agent_runtime_operator.Controller.Server.{ApiServer}
use agent_runtime_operator.Controller.Server.Laws.{IsSetTo, IsApiServer}
use agent_runtime_operator.Controller.Server.Retried.{write, retried}
use agent_runtime_operator.Controller.ToolServers.Reconcile.{
  tool_server_url, tool_server_ready, tool_server_not_ready, set_tool_server_ready,
  set_tool_server_not_ready, update_tool_server_status_ready, update_tool_server_status_not_ready,
  reconcile_tool_server, tool_server_failed, tool_server_succeeded, record_tool_server_status,
  reconcile_found_tool_server, reconcile,
}

-- `condition` is the tool server's Ready condition
abbrev pub Shows : ToolServerStatus → Condition → Type 0
Shows status condition =
    (found : Condition) × (find_ready_condition status.conditions ≡ some found)
    × IsSetTo condition found

-- the port and the path of the tool server at the name of its Service
abbrev pub server_address : ToolServer → String
server_address t =
    "http://"
    <> t.name
    <> "."
    <> t.namespace
    <> ".svc.cluster.local:"
    <> decimal t.spec.port
    <> t.spec.path

-- the address for the transports http and sse, and nothing for any other
abbrev pub IsUrlOf : ToolServer → String → Type 0
IsUrlOf t url =
    (((t.spec.transport_type ≡ "http") ⊎ (t.spec.transport_type ≡ "sse"))
      × (url ≡ server_address t))
    ⊎ ((t.spec.transport_type ≢ "http") × (t.spec.transport_type ≢ "sse") × (url ≡ ""))

tool_server_url-IsUrlOf : (t : ToolServer) → IsUrlOf t (tool_server_url t)
unfolding tool_server_url
tool_server_url-IsUrlOf t =
    let transport = t.spec.transport_type in
    elim (Bool-cases (transport == "http")) [
      | inl http ↦ rw http (inl (inl ((eq_iff transport "http").0 http), refl))
      | inr other ↦ elim (Bool-cases (transport == "sse")) [
        | inl sse ↦ rw (other, sse) (inl (inr ((eq_iff transport "sse").0 sse), refl))
        | inr neither ↦
            rw (other, neither)
              (inr (
                λ e. cc (sym other ∙ (eq_iff transport "http").1 e),
                λ e. cc (sym neither ∙ (eq_iff transport "sse").1 e),
                refl,
              ))
      ]
    ]

-- the tool server, but for its conditions and, where `status_url` says so, its URL
abbrev IsToolServer : ToolServer → ToolServer → Type 0
IsToolServer t a = a ≡ record t { status = a.status }

abbrev IsToolServerWithUrl : ToolServer → ToolServer → Type 0
IsToolServerWithUrl t a =
    a ≡ record t { status = record t.status { conditions = a.status.conditions } }

module _ (api : ApiServer) (laws : IsApiServer api) where
  -- a status that a retried update has stored
  retried_tool_server :
      (set : ToolServer → ToolServer) (IsSame : ToolServer → ToolServer → Type 0)
      → ((t a : ToolServer) → IsSame t a → IsSame t (set a))
      → ((t a : ToolServer) → IsSame t a → key_of a.metadata ≡ key_of t.metadata)
      → (t t' : ToolServer) (s s' : api.State) → IsSame t t
      → api.retry_on_conflict
          (ToolServer × api.State)
          (write api laws "failed to update toolserver status: " api.update_tool_server_status set)
          (t, s)
        ≡ (ok tt, (t', s'))
      → (a : ToolServer) × IsSame t a
        × ((stored : ToolServer) × ((api.reader s').get_tool_server (key_of t.metadata) ≡ ok stored)
            × (stored.status ≡ (set a).status))
  retried_tool_server set IsSame keeps key t t' s s' same h =
      let (a, same', (u, ends)) =
        retried api laws "failed to update toolserver status: " api.update_tool_server_status set
          IsSame keeps t t' s s' same h in
      let (stored, got, is_written) = laws.tool_server_status_written (set a) u s' ends in
      (
        a,
        same',
        (
          stored,
          ap (api.reader s').get_tool_server (sym (key t (set a) (keeps t a same'))) ∙ got,
          is_written,
        ),
      )

  ready_status :
      (t : ToolServer) (status : ToolServerStatus)
      → let after = (set_tool_server_ready api (record t { status = status })).status in
        (after.url ≡ tool_server_url t) × Shows after (tool_server_ready t)
  unfolding set_tool_server_ready tool_server_url
  ready_status t status = (refl, laws.set_condition status.conditions (tool_server_ready t) refl)

  failed_status :
      (message : String) (t : ToolServer) (cs : List Condition)
      → let before = record t { status = record t.status { conditions = cs } } in
        let after = (set_tool_server_not_ready api "ReconciliationFailed" message before).status in
        (after.url ≡ t.status.url)
        × Shows after (tool_server_not_ready t "ReconciliationFailed" message)
  unfolding set_tool_server_not_ready
  failed_status message t cs =
      (refl, laws.set_condition cs (tool_server_not_ready t "ReconciliationFailed" message) refl)

  -- what a retried update to Ready has stored
  ready-written :
      (t t' : ToolServer) (s s' : api.State)
      → api.retry_on_conflict (ToolServer × api.State) (update_tool_server_status_ready api) (t, s)
        ≡ (ok tt, (t', s'))
      → (stored : ToolServer) × ((api.reader s').get_tool_server (key_of t.metadata) ≡ ok stored)
        × ((stored.status.url ≡ tool_server_url t) × Shows stored.status (tool_server_ready t))
  unfolding update_tool_server_status_ready
  ready-written t t' s s' h =
      let set = set_tool_server_ready api in
      let (a, same, (stored, got, is_written)) =
        retried_tool_server set IsToolServer
          (unfold set_tool_server_ready in
            λ t a same. ap (λ (x : ToolServer). record x { status = (set a).status }) same)
          (λ t a same. ap (λ x. key_of x.metadata) same) t t' s s' refl h in
      (
        stored,
        got,
        subst
            (λ (st : ToolServerStatus).
              (st.url ≡ tool_server_url t) × Shows st (tool_server_ready t))
            (ap (λ x. (set x).status) (sym same) ∙ sym is_written) (ready_status t a.status),
      )

  -- what a retried update to not Ready has stored
  failed-written :
      (message : String) (t t' : ToolServer) (s s' : api.State)
      → api.retry_on_conflict
          (ToolServer × api.State)
          (update_tool_server_status_not_ready api "ReconciliationFailed" message)
          (t, s)
        ≡ (ok tt, (t', s'))
      → (stored : ToolServer) × ((api.reader s').get_tool_server (key_of t.metadata) ≡ ok stored)
        × ((stored.status.url ≡ t.status.url)
            × Shows stored.status (tool_server_not_ready t "ReconciliationFailed" message))
  unfolding update_tool_server_status_not_ready
  failed-written message t t' s s' h =
      let set = set_tool_server_not_ready api "ReconciliationFailed" message in
      let (a, same, (stored, got, is_written)) =
        retried_tool_server set IsToolServerWithUrl
          (unfold set_tool_server_not_ready in
            λ t a same.
              ap
                (λ (x : ToolServer). record x {
                  status = record x.status { conditions = (set a).status.conditions };
                })
                same)
          (λ t a same. ap (λ x. key_of x.metadata) same) t t' s s' refl h in
      (
        stored,
        got,
        subst
            (λ (st : ToolServerStatus).
              (st.url ≡ t.status.url)
              × Shows st (tool_server_not_ready t "ReconciliationFailed" message))
            (ap (λ x. (set x).status) (sym same) ∙ sym is_written)
            (failed_status message t a.status.conditions),
      )

  module _ (p : Platform) where
    record_status-ok :
        (t : ToolServer) (o : Outcome × api.State) (s' : api.State)
        → record_tool_server_status api p t o ≡ (ok tt, s')
        → (u : api.State) × ((t' : ToolServer) × (tool_server_succeeded api p t u
              ≡ (ok tt, (t', s'))))
    record_status-ok t (err e, u) s' h = absurd (cc (ap (λ x. x.0) h))
    record_status-ok t (ok tt, u) s' h =
        let t' = (tool_server_succeeded api p t u).1.0 in
        (
          u,
          (
            t',
            ap₂ (λ (o : Outcome) (x : api.State). (o, (t', x))) (ap (λ x. x.0) h) (ap (λ x. x.1) h),
          ),
        )

    stored_ready :
        (key : NamespacedName) (t : ToolServer) (s s' : api.State)
        → (api.reader s).get_tool_server key ≡ ok t
        → reconcile api p key s ≡ (ok tt, s')
        → (stored : ToolServer) × ((api.reader s').get_tool_server key ≡ ok stored)
          × ((stored.status.url ≡ tool_server_url t) × Shows stored.status (tool_server_ready t))
    unfolding reconcile
    stored_ready key t s s' found h =
        let (u, (t', ends)) =
          record_status-ok t (reconcile_tool_server api p t s) s'
            (ap (λ x. reconcile_found_tool_server api p x s) (sym found) ∙ h) in
        let (stored, got, shown) = ready-written t t' u s' ends in
        (
          stored,
          ap (api.reader s').get_tool_server (sym (laws.tool_server_key key s t found)) ∙ got,
          shown,
        )

    -- If the tool server is there and the reconciliation reports no error, the tool server is stored
    -- with a true Ready condition of its generation, and with a URL: for the transports http and sse
    -- the port and the path at the name of its Service, and the empty one for any other transport.
    pub tool_server-ready :
        (key : NamespacedName) (t : ToolServer) (s s' : api.State)
        → (api.reader s).get_tool_server key ≡ ok t
        → reconcile api p key s ≡ (ok tt, s')
        → (stored : ToolServer) × ((api.reader s').get_tool_server key ≡ ok stored)
          × (IsUrlOf t stored.status.url × Shows stored.status (tool_server_ready t))
    tool_server-ready key t s s' found h =
        let (stored, got, (same, shown)) = stored_ready key t s s' found h in
        (stored, got, (subst (IsUrlOf t) (sym same) (tool_server_url-IsUrlOf t), shown))

    -- If the reconciliation of the tool server fails, its error is returned, and if the status update
    -- then succeeds, the tool server is stored with the URL it had and with the error's message in a
    -- false Ready condition of its generation.
    pub tool_server-not_ready :
        (key : NamespacedName) (t t' : ToolServer) (e : Error) (s u u' : api.State)
        → (api.reader s).get_tool_server key ≡ ok t
        → reconcile_tool_server api p t s ≡ (err e, u)
        → tool_server_failed api p t e u ≡ (ok tt, (t', u'))
        → (reconcile api p key s ≡ (err e, u'))
          × ((stored : ToolServer) × ((api.reader u').get_tool_server key ≡ ok stored)
              × ((stored.status.url ≡ t.status.url)
                  × Shows stored.status (tool_server_not_ready t "ReconciliationFailed" e.message)))
    unfolding reconcile
    tool_server-not_ready key t t' e s u u' found failed h =
        let (stored, got, shown) = failed-written e.message t t' u u' h in
        (
          ap (λ x. reconcile_found_tool_server api p x s) found
              ∙ ap (record_tool_server_status api p t) failed
              ∙ ap (λ (x : Outcome × (ToolServer × api.State)). (err e, x.1.1)) h,
          (
            stored,
            ap (api.reader u').get_tool_server (sym (laws.tool_server_key key s t found)) ∙ got,
            shown,
          ),
        )
