-- ===== src/Gateways.antt =====
-- packages/gateways/src/contracts.ts: what tools and models are to the rest of the program. Values
-- that are only carried stand as their JSON texts.
pub mod Tools
pub mod Budget
pub mod Router
use janus_core.Base.{String, Bool, Option, List}
use janus_core.Base.Number.{Number}

pub record ToolExecutionAuthorization : Type 0 where
  pub privileged : Bool
  pub authority_decision_hash : Option String
  pub principal_id : Option String

pub record ToolRequest : Type 0 where
  pub tool : String
  pub action : String
  pub input : List (String × String)
  pub idempotency_key : Option String
  pub authorization : Option ToolExecutionAuthorization

pub data ToolPhase : Type 0 where
  started progress completed : ToolPhase

pub record ToolProgress : Type 0 where
  pub phase : ToolPhase
  pub message : String
  pub percent : Option Number
  pub data_ : List (String × String)

pub record ToolResult : Type 0 where
  pub ok : Bool
  pub output : Option (List (String × String))
  pub error : Option String
  pub external_reference : Option String

pub data ModelRole : Type 0 where
  system user assistant tool : ModelRole

pub record ModelMessage : Type 0 where
  pub role : ModelRole
  pub content : String

pub data ResponseFormat : Type 0 where
  text json : ResponseFormat

pub record ModelRequest : Type 0 where
  pub messages : List ModelMessage
  pub temperature : Option Number
  pub response_format : Option ResponseFormat

-- In `usage`, `none` is a value that is no finite number.
pub record ModelResponse : Type 0 where
  pub text : String
  pub model : String
  pub provider : String
  pub usage : List (String × Option Number)
