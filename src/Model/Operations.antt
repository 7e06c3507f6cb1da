-- ===== src/Model/Operations.antt =====
-- Operations: the asynchronous requests on instances and bindings, with their states.
use helm_broker.Common.{ℕ, String, Bool, true, false, Option}
use helm_broker.Model.Values.{Fields}

abbrev pub InstanceId : Type 0
InstanceId = String

abbrev pub OperationId : Type 0
OperationId = String

abbrev pub BindingId : Type 0
BindingId = String

pub data OperationState : Type 0 where
  in_progress succeeded failed : OperationState

pub data OperationType : Type 0 where
  create remove undefined : OperationType

-- The tests `op.State == …` and `op.Type == …`.
abbrev pub is_in_progress : OperationState → Bool
is_in_progress in_progress = true
is_in_progress _ = false

abbrev pub is_succeeded : OperationState → Bool
is_succeeded succeeded = true
is_succeeded _ = false

abbrev pub is_create : OperationType → Bool
is_create create = true
is_create _ = false

abbrev pub is_remove : OperationType → Bool
is_remove remove = true
is_remove _ = false

-- A `Data` that is a nil map is `none`.
pub record RequestParameters : Type 0 where
  pub params : Option Fields

pub record InstanceOperation : Type 0 where
  pub instance_id : InstanceId
  pub operation_id : OperationId
  pub type : OperationType
  pub state : OperationState
  pub state_description : Option String
  pub provisioning_parameters : Option RequestParameters
  pub created_at : ℕ

pub record BindOperation : Type 0 where
  pub instance_id : InstanceId
  pub binding_id : BindingId
  pub operation_id : OperationId
  pub type : OperationType
  pub state : OperationState
  pub state_description : Option String
  pub created_at : ℕ
