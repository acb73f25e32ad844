-- ===== src/Tests/Ports.antt =====
-- The theorems on the names of ports, at concrete protocols.
use agent_runtime_operator.Base.{◌↔◌, String, ◌≡◌, refl, ◌≤◌, arith}
use agent_runtime_operator.Base.Digits.{read_number, size}
use agent_runtime_operator.Api.Agent.{AgentProtocol}
use agent_runtime_operator.Webhook.Agent.{AgentCustomDefaulter, default_protocol}
use agent_runtime_operator.Webhook.Agent.PortNames.{IsPortName}
use agent_runtime_operator.Webhook.Agent.PortNumbers.{
  default_protocol-read_number, default_protocol-same_iff, default_protocol-IsPortName,
}

abbrev same_text : String → String
same_text s = s

abbrev defaulter : AgentCustomDefaulter
defaulter = record { default_replicas = 1; default_port = 8000 }

abbrev plain : AgentProtocol
plain = record { name = ""; type = "a2a"; port = 0; path = "" }

abbrev on_9000 : AgentProtocol
on_9000 = record plain { port = 9000 }

default_protocol-read_number_example :
    read_number (default_protocol same_text defaulter plain).name 0
    ≡ (default_protocol same_text defaulter plain).port
default_protocol-read_number_example = default_protocol-read_number same_text defaulter plain refl

default_protocol-IsPortName_example :
    IsPortName (default_protocol same_text defaulter on_9000).name
    × (size (default_protocol same_text defaulter on_9000).name ≤ 15)
default_protocol-IsPortName_example =
    default_protocol-IsPortName same_text defaulter on_9000 refl (omega arith) (omega arith)
      (omega arith)

default_protocol-same_iff_example :
    ((default_protocol same_text defaulter plain).name
      ≡ (default_protocol same_text defaulter on_9000).name)
    ↔ ((default_protocol same_text defaulter plain).port
        ≡ (default_protocol same_text defaulter on_9000).port)
default_protocol-same_iff_example =
    default_protocol-same_iff same_text defaulter plain on_9000 refl refl refl
