-- ===== src/Broker/Memory.antt =====
-- The storage interfaces of the broker, filled by the in-memory driver.
use helm_broker.Common.{ℕ, some, List}
use helm_broker.Model.Addons.{Addon}
use helm_broker.Model.Instances.{ServiceInstance}
use helm_broker.Model.Operations.{InstanceOperation, BindOperation}
use helm_broker.Storage.Operations
use helm_broker.Storage.Operations.{InstanceOperations}
use helm_broker.Storage.BindOperations
use helm_broker.Storage.BindOperations.{BindOperations}
use helm_broker.Storage.Instances
use helm_broker.Storage.Instances.{Instances}
use helm_broker.Storage.BindData
use helm_broker.Storage.BindData.{BindData}
use helm_broker.Storage.Addons
use helm_broker.Storage.Addons.{AddonStore}
use helm_broker.Storage.Charts
use helm_broker.Storage.Charts.{Charts}
use helm_broker.Broker.Backend.{Backend}

pub record Stores : Type 0 where
  pub operations : InstanceOperations
  pub bind_operations : BindOperations
  pub instances : Instances
  pub bind_data : BindData
  pub addons : AddonStore
  pub charts : Charts

-- What the driver takes from outside: the clock, and the orders in which maps are visited.
pub record Driver : Type 0 where
  pub now : ℕ
  pub operation_order : List InstanceOperation → List InstanceOperation
  pub bind_operation_order : List BindOperation → List BindOperation
  pub instance_order : List ServiceInstance → List ServiceInstance
  pub addon_order : List Addon → List Addon

abbrev pub memory : Driver → Backend Stores
memory d = record {
  get_operations = λ i s. Operations.get_all d.operation_order i s.operations;
  get_operation = λ i k s. Operations.get i k s.operations;
  insert_operation = λ op s.
      let (e, t) = Operations.insert d.now (some op) s.operations in
      (e, record s { operations = t });
  update_operation = λ i k state desc s.
      let (e, t) = Operations.update_state_desc i k state desc s.operations in
      (e, record s { operations = t });
  get_bind_operations = λ i s. BindOperations.get_all d.bind_operation_order i s.bind_operations;
  get_bind_operation = λ i j k s. BindOperations.get i j k s.bind_operations;
  insert_bind_operation = λ op s.
      let (e, t) = BindOperations.insert d.now op s.bind_operations in
      (e, record s { bind_operations = t });
  update_bind_operation = λ i j k state desc s.
      let (e, t) = BindOperations.update_state_desc i j k state desc s.bind_operations in
      (e, record s { bind_operations = t });
  get_instance = λ i s. Instances.get i s.instances;
  get_instances = λ s. Instances.get_all d.instance_order s.instances;
  upsert_instance = λ inst s.
      let (r, t) = Instances.upsert (some inst) s.instances in (r, record s { instances = t });
  remove_instance =
      λ i s. let (e, t) = Instances.remove i s.instances in (e, record s { instances = t });
  get_bind_data = λ i s. BindData.get i s.bind_data;
  insert_bind_data = λ ibd s.
      let (e, t) = BindData.insert (some ibd) s.bind_data in (e, record s { bind_data = t });
  remove_bind_data =
      λ i s. let (e, t) = BindData.remove i s.bind_data in (e, record s { bind_data = t });
  get_addon_by_id = λ n i s. Addons.get_by_id n i s.addons;
  find_addons = λ n s. Addons.find_all d.addon_order n s.addons;
  get_chart = λ n c s. Charts.get n c.name c.version s.charts;
}
