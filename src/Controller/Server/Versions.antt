-- ===== src/Controller/Server/Versions.antt =====
-- The documented behaviour of the API server towards an update of an agent's status that is based on
-- an old version of the agent: optimistic concurrency.
use agent_runtime_operator.Base.{◌≡◌, ◌≢◌, true}
use agent_runtime_operator.Api.Meta.{key_of}
use agent_runtime_operator.Api.Agent.{Agent}
use agent_runtime_operator.Cluster.{Error, ok, err, is_conflict}
use agent_runtime_operator.Controller.Server.{ApiServer}

-- the agent as stored has another version than the agent in memory
abbrev pub IsStale : (api : ApiServer) → Agent → api.State → Type 0
IsStale api a s =
    (stored : Agent) × ((api.reader s).get_agent (key_of a.metadata) ≡ ok stored)
    × (stored.metadata.resource_version ≢ a.metadata.resource_version)

pub record ChecksVersions (api : ApiServer) : Type 0 where
  pub stale_refused :
      (a : Agent) (s : api.State)
      → IsStale api a s
      → (e : Error) × (api.update_agent_status a s ≡ (err e, s)) × (is_conflict e ≡ true)
