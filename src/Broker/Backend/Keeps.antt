-- ===== src/Broker/Backend/Keeps.antt =====
-- A property of the state that every write of the broker's storage keeps.
use helm_broker.Common.{String, ◌≡◌, false, Option}
use helm_broker.Model.Instances.{ServiceInstance, InstanceBindData}
use helm_broker.Model.Operations.{
  InstanceId, BindingId, OperationId, OperationState, InstanceOperation, BindOperation,
  is_in_progress,
}
use helm_broker.Broker.Backend.{Backend}
use helm_broker.Broker.Action.Keeps.{KeepsWrite}

-- The writes of a storage that the broker uses, each keeping `P`. An operation's state is only
-- rewritten to a final one.
pub record KeepsWrites {S : Type 0} (b : Backend S) (P : S → Type 0) : Type 0 where
  pub insert_operation : (op : InstanceOperation) → KeepsWrite P (b.insert_operation op)
  pub update_operation :
      (i : InstanceId) (k : OperationId) (state : OperationState) (desc : Option String)
      → is_in_progress state ≡ false
      → KeepsWrite P (b.update_operation i k state desc)
  pub insert_bind_operation : (op : BindOperation) → KeepsWrite P (b.insert_bind_operation op)
  pub update_bind_operation :
      (i : InstanceId) (j : BindingId) (k : OperationId) (state : OperationState)
      (desc : Option String)
      → is_in_progress state ≡ false
      → KeepsWrite P (b.update_bind_operation i j k state desc)
  pub upsert_instance : (inst : ServiceInstance) → KeepsWrite P (b.upsert_instance inst)
  pub remove_instance : (i : InstanceId) → KeepsWrite P (b.remove_instance i)
  pub insert_bind_data : (ibd : InstanceBindData) → KeepsWrite P (b.insert_bind_data ibd)
  pub remove_bind_data : (i : InstanceId) → KeepsWrite P (b.remove_bind_data i)
