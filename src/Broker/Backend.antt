-- ===== src/Broker/Backend.antt =====
-- The storage interfaces of internal/broker/broker.go, over a state that an implementation chooses.
-- Reads return what is stored, or an error; writes return an error, if there is one, and the state.
pub mod Keeps
use helm_broker.Common.{String, Bool, Option, List, Error, Result}
use helm_broker.Model.Addons.{Addon, AddonId, Namespace, ChartRef}
use helm_broker.Model.Charts.{Chart}
use helm_broker.Model.Instances.{ServiceInstance, InstanceBindData}
use helm_broker.Model.Operations.{
  InstanceId, BindingId, OperationId, OperationState, InstanceOperation, BindOperation,
}

pub record Backend (S : Type 0) : Type 0 where
  -- operationStorage
  pub get_operations : InstanceId → S → Result (List InstanceOperation)
  pub get_operation : InstanceId → OperationId → S → Result InstanceOperation
  pub insert_operation : InstanceOperation → S → Option Error × S
  pub update_operation :
      InstanceId → OperationId → OperationState → Option String → S → Option Error × S
  -- bindOperationStorage
  pub get_bind_operations : InstanceId → S → Result (List BindOperation)
  pub get_bind_operation : InstanceId → BindingId → OperationId → S → Result BindOperation
  pub insert_bind_operation : BindOperation → S → Option Error × S
  pub update_bind_operation :
      InstanceId → BindingId → OperationId → OperationState → Option String → S → Option Error × S
  -- instanceStorage
  pub get_instance : InstanceId → S → Result ServiceInstance
  pub get_instances : S → Result (List ServiceInstance)
  pub upsert_instance : ServiceInstance → S → Result Bool × S
  pub remove_instance : InstanceId → S → Option Error × S
  -- instanceBindDataStorage
  pub get_bind_data : InstanceId → S → Result InstanceBindData
  pub insert_bind_data : InstanceBindData → S → Option Error × S
  pub remove_bind_data : InstanceId → S → Option Error × S
  -- addonStorage and chartStorage
  pub get_addon_by_id : Namespace → AddonId → S → Result Addon
  pub find_addons : Namespace → S → Result (List Addon)
  pub get_chart : Namespace → ChartRef → S → Result Chart
