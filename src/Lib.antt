-- ===== src/Lib.antt =====
-- The agent runtime operator: a Kubernetes operator that turns Agent resources into Deployments and
-- Services, resolves the references between agents, tools and AI gateways, and keeps them current.
--
-- Base holds what the parts share: numbers, tests, lists, Go's maps as association lists with each
-- key once (Base/Maps), and the functions of Go's `strings` package that the code uses (Base/Text).
-- Api holds the resources of api/v1alpha1 as records, a file for each kind; Api/Meta has the types of
-- Kubernetes that they are built from. A nil pointer or map that the code tells apart from an empty
-- one is an Option. Ports and replicas are natural numbers, as the schemas demand.
-- Cluster is what a controller sees of the API server: errors by the kind that the code tests for,
-- and a Reader, any choice of answers to `Get` and `List`. The client is controller-runtime's, so it
-- is a parameter throughout.
--
-- Controller models internal/controller, a module for each part:
--   Util              util.go, and the loop that the watch handlers share
--   SubAgents         agent_subagent.go: resolveSubAgentUrl, resolveAllSubAgents and its watch
--   Tools             agent_tool.go: resolveToolUrl, resolveAllTools and its two watches
--   AiGateways        agent_aigateway.go: resolveAiGateway, the service URL and the watch
--   Env               mergeEnvironmentVariables of agent_config.go
--   Names             sanitizeAgentName of agent_config.go
--   Protocols         the A2A URLs of agent_config.go, and agent_probe.go
--   Template          buildTemplateEnvironmentVars of agent_config.go
--   Workload          Deployments and Services, and the steps on them that the reconcilers share
--   AgentDeployment   the functions that ensureDeployment and ensureService of agent_reconciler.go
--                     pass to CreateOrUpdate, and the choice of framework and image
--   Server            what the reconcilers use of the API server and of controller-runtime: a record
--                     of calls on a state (ApiServer), and their documented laws (Server/Laws)
--   Status            agent_status.go
--   Reconcile         Reconcile, reconcileAgent and getAgentRuntimeConfiguration of
--                     agent_reconciler.go, and the calls of CreateOrUpdate and of the deletion
--   ToolServers       toolserver_reconciler.go: Deployment and Service, and in ToolServers/Reconcile
--                     the status and Reconcile
--   Workforce         agenticworkforce_reconciler.go: the watch, in Traverse the traversal that
--                     collects the agents and tools of a workforce, in Reconcile the check
--                     of the entry points, the status and Reconcile
--   Watches           SetupWithManager of agent_reconciler.go
--   System            the reconcilers at work: a step relation with the calls of the three Reconcile
--                     functions and the changes that others make
-- The modules below each of these hold its theorems. A reconciliation resolves sub-agents, tools and
-- the gateway (SubAgents, Tools, AiGateways), builds the environment from them (Template, Env) and
-- writes it into the container (AgentDeployment). The watches of the first three decide which agents
-- are reconciled again when another resource changes.
--
-- Webhook models internal/webhook/v1alpha1, what the API server asks before it stores a resource and
-- so before a reconciliation sees it:
--   Fields            the kinds of field errors, and what the checks read of a parsed URL
--   Agent             agent_webhook.go: the defaults, and all the checks of validateAgent; the errors
--                     keep their kind and path
--   ToolServer        toolserver_webhook.go: the defaults and the check of port and path
--   AgentGateway      agentgateway_webhook.go: the defaults
--
-- Parameters: the order in which Go visits a map, json.Marshal and %q, strings.ToLower,
-- url.Parse, filepath.Clean, ctrl.SetControllerReference, the handler that `Owns` installs, and the
-- client, whose reads are taken to show every write. A second update may visit its maps in another
-- order than the first one. The loops of the program are structural
-- recursion on a list or a text. Two recursions run on fuel: traverseAgent, for which any number
-- above the number of keys that the references lead to is enough (Traverse/Correct), and the decimal
-- digits of a number, one unit for each digit, which are given the number plus one.
--
-- CreateOrUpdate, RetryOnConflict and SetStatusCondition are calls of ApiServer. A retried call is
-- any sequence of runs in which a run follows only a conflict. A step of System is one whole call of a
-- Reconcile function. Server/Frame says what other clients may do before, after and during the calls:
-- anything but write the status of an agent, which only the operator does. Server/Healthy is a server
-- on which no call fails, Server/Versions one that refuses a status for an old version of an agent.
--
-- Not modelled: logging and events, the wiring in cmd/main.go and in SetupWithManager of the other
-- two controllers, generated code, and resources that no code here reads (guards, tool gateways, the
-- classes). Tests holds instances of the theorems at concrete resources.
pub mod Base
pub mod Api
pub mod Cluster
pub mod Controller
pub mod Tests
pub mod Webhook
