-- ===== src/Webhook/Fields.antt =====
-- What the checks report, and what they use of Go's libraries.
use agent_runtime_operator.Base.{String, Bool, List, [], ◌∷◌, if◌then◌else◌}

-- `field.Error` by its kind and its path
pub data FieldError : Type 0 where
  invalid forbidden required : (path : String) → FieldError

-- the error if the condition holds
abbrev pub when : Bool → FieldError → List FieldError
when b e = if b then e ∷ [] else []

-- what the code reads of a `url.URL`
pub record ParsedUrl : Type 0 where
  pub scheme : String
  pub host : String
  pub path : String
