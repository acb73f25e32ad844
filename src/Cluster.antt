-- ===== src/Cluster.antt =====
-- What the controllers see of the cluster: errors of the API server, and the reads of the client.
-- The client is controller-runtime's, so its answers are parameters: a `Reader` is any choice of
-- answers to `Get` and `List`, errors included.
use agent_runtime_operator.Base.{◌≡◌, refl, inl, inr, ◌⊎◌, String, ◌<>◌, Bool, true, false, List}
use agent_runtime_operator.Api.Meta.{NamespacedName}
use agent_runtime_operator.Api.Agent.{Agent}
use agent_runtime_operator.Api.ToolServer.{ToolServer}
use agent_runtime_operator.Api.Workforce.{AgenticWorkforce}
use agent_runtime_operator.Api.Gateways.{AiGateway, ToolRoute, AgentRuntimeConfiguration}

-- what `errors.IsNotFound`, `meta.IsNoMatchError` and `errors.IsConflict` tell apart
pub data ErrorKind : Type 0 where
  not_found no_match conflict other : ErrorKind

pub record Error : Type 0 where
  pub kind : ErrorKind
  pub message : String

pub data Result {ℓ} (A : Type ℓ) : Type ℓ where
  ok : A → Result A
  err : Error → Result A

-- the error that a Go function with no other result returns, if any
abbrev pub Outcome : Type 0
Outcome = Result (Unit {0})

infixl 5 ◌>>=◌
abbrev pub ◌>>=◌ {ℓ κ} : {A : Type ℓ} {B : Type κ} → Result A → (A → Result B) → Result B
ok a >>= f = f a
err e >>= f = err e

pub Result-cases {ℓ} :
    {A : Type ℓ} (r : Result A) → ((a : A) × (r ≡ ok a)) ⊎ ((e : Error) × (r ≡ err e))
Result-cases (ok a) = inl (a, refl)
Result-cases (err e) = inr (e, refl)

pub ok-injective {ℓ} : {A : Type ℓ} {a b : A} → ok a ≡ ok b → a ≡ b
ok-injective e = cc

pub bind-ok {ℓ κ} :
    {A : Type ℓ} {B : Type κ} (r : Result A) (f : A → Result B) {b : B}
    → (r >>= f) ≡ ok b
    → (a : A) × (r ≡ ok a) × (f a ≡ ok b)
bind-ok (ok a) f h = (a, refl, h)
bind-ok (err e) f h = cc

abbrev pub is_not_found : Error → Bool
is_not_found e = elim e.kind [ not_found ↦ true | _ ↦ false ]

abbrev pub is_no_match_error : Error → Bool
is_no_match_error e = elim e.kind [ no_match ↦ true | _ ↦ false ]

abbrev pub is_conflict : Error → Bool
is_conflict e = elim e.kind [ conflict ↦ true | _ ↦ false ]

-- `fmt.Errorf` with no `%w`
abbrev pub errorf : String → Error
errorf message = record { kind = other; message = message }

-- `fmt.Errorf` with the cause as `%w` at the end: the predicates look through it
abbrev pub wrap : String → Error → Error
wrap prefix e = record e { message = prefix <> e.message }

pub record Reader : Type 0 where
  pub get_agent : NamespacedName → Result Agent
  pub get_tool_route : NamespacedName → Result ToolRoute
  pub get_tool_server : NamespacedName → Result ToolServer
  pub get_ai_gateway : NamespacedName → Result AiGateway
  pub list_agents : Result (List Agent)
  pub list_workforces : Result (List AgenticWorkforce)
  pub list_ai_gateways : String → Result (List AiGateway)
  pub list_configurations : String → Result (List AgentRuntimeConfiguration)
