-- ===== src/Tests/Memory.antt =====
-- An API server with one agent, one tool server, one workforce and at most one Service, each under its own key.
use agent_runtime_operator.Base.{
  ◌≡◌, refl, sym, ap, ◌∙◌, true, Option, none, some, [], ◌∷◌, ◌==◌, arith, inl, inr, if◌then◌else◌,
  Bool-cases,
}
use agent_runtime_operator.Api.Meta.{NamespacedName, ObjectMeta, Condition, key_of, same_key}
use agent_runtime_operator.Api.Keys.{same_key-eq}
use agent_runtime_operator.Api.Agent.{Agent}
use agent_runtime_operator.Api.ToolServer.{ToolServer}
use agent_runtime_operator.Api.Workforce.{AgenticWorkforce}
use agent_runtime_operator.Cluster.{Outcome, Result, ok, err, Reader, ok-injective}
use agent_runtime_operator.Controller.Util.{condition_type_ready, find_ready_condition}
use agent_runtime_operator.Controller.Workload.{Deployment, Service}
use agent_runtime_operator.Controller.Server.{ApiServer}
use agent_runtime_operator.Controller.Server.Laws.{IsApiServer, last}
use agent_runtime_operator.Tests.Samples.{absent, before}

pub record Memory : Type 0 where
  pub agent : Agent
  pub tool_server : ToolServer
  pub workforce : AgenticWorkforce
  pub service : Option Service

-- what is under the key, if the object has it
abbrev pub under : {A : Type 0} → NamespacedName → ObjectMeta → A → Result A
under k meta a = if same_key k (key_of meta) then ok a else err absent

abbrev pub reader_of : Memory → Reader
reader_of s = record before {
  get_agent = λ k. under k s.agent.metadata s.agent;
  get_tool_server = λ k. under k s.tool_server.metadata s.tool_server;
}

abbrev pub service_under : NamespacedName → Option Service → Result Service
service_under k none = err absent
service_under k (some svc) = under k svc.metadata svc

abbrev pub created_or_updated : Result Service → Memory → Outcome × Memory
created_or_updated (ok svc) s = (ok tt, record s { service = some svc })
created_or_updated (err e) s = (err e, s)

abbrev pub attempted : Result Deployment → Memory → Outcome × Memory
attempted (ok d) s = (ok tt, s)
attempted (err e) s = (err e, s)

abbrev pub memory_server : ApiServer
memory_server = record {
  State = Memory;
  reader = reader_of;
  get_workforce = λ k s. under k s.workforce.metadata s.workforce;
  get_service = λ k s. service_under k s.service;
  delete_service = λ svc s. (ok tt, record s { service = none });
  create_or_update_deployment = λ d f s. attempted (f d) s;
  create_or_update_service = λ svc f s. created_or_updated (f svc) s;
  update_agent_status = λ a s.
      if same_key (key_of a.metadata) (key_of s.agent.metadata)
      then (ok tt, record s { agent = record s.agent { status = a.status } })
      else (err absent, s);
  update_tool_server_status = λ t s.
      if same_key (key_of t.metadata) (key_of s.tool_server.metadata)
      then (ok tt, record s { tool_server = record s.tool_server { status = t.status } })
      else (err absent, s);
  update_workforce_status = λ w s.
      if same_key (key_of w.metadata) (key_of s.workforce.metadata)
      then (ok tt, record s { workforce = record s.workforce { status = w.status } })
      else (err absent, s);
  retry_on_conflict = λ S f s. f s;
  set_status_condition = λ cs c. c ∷ [];
}

pub under-key :
    {A : Type 0} (k : NamespacedName) (meta : ObjectMeta) (a b : A)
    → under k meta a ≡ ok b
    → (a ≡ b) × (key_of meta ≡ k)
under-key k meta a b h = elim (Bool-cases (same_key k (key_of meta))) [
  | inl same ↦ (ok-injective (rw same at h), sym (same_key-eq k (key_of meta) same))
  | inr other ↦ absurd (cc (rw other at h))
]

agent_written :
    (a : Agent) (s s' : Memory)
    → memory_server.update_agent_status a s ≡ (ok tt, s')
    → (stored : Agent) × ((reader_of s').get_agent (key_of a.metadata) ≡ ok stored)
      × (stored.status ≡ a.status)
agent_written a s s' h =
    elim (Bool-cases (same_key (key_of a.metadata) (key_of s.agent.metadata))) [
      | inr other ↦ absurd (cc (ap (λ x. x.0) (rw other at h)))
      | inl same ↦
          let stored = record s.agent { status = a.status } in
          let after : record s { agent = stored } ≡ s' = ap (λ x. x.1) (rw same at h) in
          (stored, rw (← after) (rw same refl), refl)
    ]

tool_server_written :
    (t : ToolServer) (s s' : Memory)
    → memory_server.update_tool_server_status t s ≡ (ok tt, s')
    → (stored : ToolServer) × ((reader_of s').get_tool_server (key_of t.metadata) ≡ ok stored)
      × (stored.status ≡ t.status)
tool_server_written t s s' h =
    elim (Bool-cases (same_key (key_of t.metadata) (key_of s.tool_server.metadata))) [
      | inr other ↦ absurd (cc (ap (λ x. x.0) (rw other at h)))
      | inl same ↦
          let stored = record s.tool_server { status = t.status } in
          let after : record s { tool_server = stored } ≡ s' = ap (λ x. x.1) (rw same at h) in
          (stored, rw (← after) (rw same refl), refl)
    ]

workforce_written :
    (w : AgenticWorkforce) (s s' : Memory)
    → memory_server.update_workforce_status w s ≡ (ok tt, s')
    → (stored : AgenticWorkforce) × (memory_server.get_workforce (key_of w.metadata) s' ≡ ok stored)
      × (stored.status ≡ w.status)
workforce_written w s s' h =
    elim (Bool-cases (same_key (key_of w.metadata) (key_of s.workforce.metadata))) [
      | inr other ↦ absurd (cc (ap (λ x. x.0) (rw other at h)))
      | inl same ↦
          let stored = record s.workforce { status = w.status } in
          let after : record s { workforce = stored } ≡ s' = ap (λ x. x.1) (rw same at h) in
          (stored, rw (← after) (rw same refl), refl)
    ]

find_set_condition :
    (c : Condition)
    → (c.type == condition_type_ready) ≡ true
    → find_ready_condition (c ∷ []) ≡ some c
unfolding find_ready_condition
find_set_condition c h = ground (arith, h)

pub memory_server-IsApiServer : IsApiServer memory_server
memory_server-IsApiServer = record {
  retries = λ f s. last s;
  set_condition = λ cs c h. (
    c,
    find_set_condition c h,
    record { status = refl; reason = refl; message = refl; observed_generation = refl },
  );
  agent_key = λ k s a h.
      let (same, key) = under-key k s.agent.metadata s.agent a h in
      ap (λ x. key_of x.metadata) (sym same) ∙ key;
  agent_status_written = agent_written;
  tool_server_key = λ k s t h.
      let (same, key) = under-key k s.tool_server.metadata s.tool_server t h in
      ap (λ x. key_of x.metadata) (sym same) ∙ key;
  tool_server_status_written = tool_server_written;
  workforce_key = λ k s w h.
      let (same, key) = under-key k s.workforce.metadata s.workforce w h in
      ap (λ x. key_of x.metadata) (sym same) ∙ key;
  workforce_status_written = workforce_written;
}
