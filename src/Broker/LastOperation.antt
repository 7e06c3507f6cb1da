-- ===== src/Broker/LastOperation.antt =====
-- internal/broker/lastop.go: `GetLastOperation`.
pub mod Read
use helm_broker.Common.{
  String, Option, none, some, wrap, if◌then◌else◌, is_not_found, Result, ok, err,
}
use helm_broker.Model.Operations.{InstanceId, OperationId, OperationState}
use helm_broker.Broker.Backend.{Backend}
use helm_broker.Broker.Deprovision.{pass_not_found}

pub record LastOperationResponse : Type 0 where
  pub state : OperationState
  pub description : Option String

-- A missing operation key reads as the empty id.
abbrev pub key_or_empty : Option OperationId → OperationId
key_or_empty none = ""
key_or_empty (some k) = k

unfoldable pub get_last_operation :
    {S : Type 0} → Backend S → InstanceId → Option OperationId → S → Result LastOperationResponse
get_last_operation b i op_key s = elim (b.get_operation i (key_or_empty op_key) s) [
  | err e ↦ err (pass_not_found "while getting instance operation" e)
  | ok op ↦ ok (record { state = op.state; description = op.state_description })
]
