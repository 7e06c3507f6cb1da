-- ===== src/Broker/Steps.antt =====
-- The broker on the in-memory driver as a system of steps. A handler is one step, since it holds its
-- mutex, and so is the task that it started, at any later time; between them the controller may replace
-- the addons and charts. The orders and the time of `Driver` are those of the step.
use helm_broker.Common.{some, [], Result, arith, count_if}
use helm_broker.Dict.{lookup, values}
use helm_broker.Model.Addons.{Namespace}
use helm_broker.Model.Operations.{InstanceId, BindingId, OperationId}
use helm_broker.Storage.Operations.Invariant.{
  IsValid, empty-IsValid, insert-IsValid, update_state_desc-IsValid,
}
use helm_broker.Storage.BindOperations.Exclusive.{
  IsExclusive, insert-IsExclusive, update_state_desc-IsExclusive,
}
use helm_broker.Storage.Addons.{AddonStore}
use helm_broker.Storage.Charts.{Charts}
use helm_broker.Broker.Backend.Keeps.{KeepsWrites}
use helm_broker.Broker.Memory.{Stores, Driver, memory}
use helm_broker.Broker.Provision.{ProvisionRequest, ProvisioningInput, provision}
use helm_broker.Broker.Provision.Installing.{HelmInstaller, do_provision}
use helm_broker.Broker.Provision.Keeps.{provision-KeepsWrite, do_provision-KeepsWrite}
use helm_broker.Broker.Deprovision.{
  DeprovisionRequest, DeprovisioningInput, HelmDeleter, deprovision, do_deprovision,
}
use helm_broker.Broker.Deprovision.Keeps.{deprovision-KeepsWrite, do_deprovision-KeepsWrite}
use helm_broker.Broker.Bind.{BindRequest, BindingInput, bind, finish_bind, get_bind_data}
use helm_broker.Broker.Bind.Resolving.{BindTemplates, do_bind}
use helm_broker.Broker.Bind.Keeps.{
  bind-KeepsWrite, finish_bind-KeepsWrite, get_bind_data-KeepsWrite, do_bind-KeepsWrite,
}

pub data Step : Stores → Stores → Type 0 where
  provisions :
      (d : Driver) (new_id : Result OperationId) (ns : Namespace) (req : ProvisionRequest)
      (s : Stores)
      → Step s (provision (memory d) new_id ns req s).1
  runs_provision :
      (d : Driver) (helm : HelmInstaller) (input : ProvisioningInput) (s : Stores)
      → Step s (do_provision (memory d) helm input s)
  deprovisions :
      (d : Driver) (new_id : Result OperationId) (req : DeprovisionRequest) (s : Stores)
      → Step s (deprovision (memory d) new_id req s).1
  runs_deprovision :
      (d : Driver) (helm : HelmDeleter) (input : DeprovisioningInput) (s : Stores)
      → Step s (do_deprovision (memory d) helm input s)
  binds :
      (d : Driver) (new_id : Result OperationId) (ns : Namespace) (req : BindRequest) (s : Stores)
      → Step s (bind (memory d) new_id ns req s).1
  finishes_bind : (d : Driver) (i : InstanceId) (s : Stores) → Step s (finish_bind (memory d) i s).1
  runs_bind :
      (d : Driver) (templates : BindTemplates) (input : BindingInput) (s : Stores)
      → Step s (do_bind (memory d) templates input s)
  gets_bind_data :
      (d : Driver) (i : InstanceId) (j : BindingId) (s : Stores)
      → Step s (get_bind_data (memory d) i j s).1
  syncs :
      (addons : AddonStore) (charts : Charts) (s : Stores)
      → Step s (record s { addons = addons; charts = charts })

-- The stores of a process that has just started.
abbrev pub no_stores : AddonStore → Charts → Stores
no_stores addons charts = record {
  operations = [];
  bind_operations = [];
  instances = [];
  bind_data = [];
  addons = addons;
  charts = charts;
}

pub data Reachable : Stores → Type 0 where
  starts : (addons : AddonStore) (charts : Charts) → Reachable (no_stores addons charts)
  goes : {s t : Stores} → Reachable s → Step s t → Reachable t

-- What holds of the operations in every reachable state.
pub record IsSafe (s : Stores) : Type 0 where
  pub operations : IsValid s.operations
  pub bind_operations : IsExclusive s.bind_operations

memory-KeepsWrites : (d : Driver) → KeepsWrites (memory d) IsSafe
memory-KeepsWrites d = record {
  insert_operation = λ op s p. record {
    operations = insert-IsValid d.now (some op) p.operations;
    bind_operations = p.bind_operations;
  };
  update_operation = λ i k state desc idle s p. record {
    operations = update_state_desc-IsValid i k state desc idle p.operations;
    bind_operations = p.bind_operations;
  };
  insert_bind_operation = λ op s p. record {
    operations = p.operations;
    bind_operations = insert-IsExclusive d.now op s.bind_operations p.bind_operations;
  };
  update_bind_operation = λ i j k state desc idle s p. record {
    operations = p.operations;
    bind_operations =
        update_state_desc-IsExclusive i j k state desc s.bind_operations idle p.bind_operations;
  };
  upsert_instance =
      λ inst s p. record { operations = p.operations; bind_operations = p.bind_operations };
  remove_instance =
      λ i s p. record { operations = p.operations; bind_operations = p.bind_operations };
  insert_bind_data =
      λ ibd s p. record { operations = p.operations; bind_operations = p.bind_operations };
  remove_bind_data =
      λ i s p. record { operations = p.operations; bind_operations = p.bind_operations };
}

Step-IsSafe : {s t : Stores} → Step s t → IsSafe s → IsSafe t
Step-IsSafe (provisions d new_id ns req s) p =
    provision-KeepsWrite (memory d) IsSafe (memory-KeepsWrites d) new_id ns req s p
Step-IsSafe (runs_provision d helm input s) p =
    do_provision-KeepsWrite (memory d) IsSafe (memory-KeepsWrites d) helm input s p
Step-IsSafe (deprovisions d new_id req s) p =
    deprovision-KeepsWrite (memory d) IsSafe (memory-KeepsWrites d) new_id req s p
Step-IsSafe (runs_deprovision d helm input s) p =
    do_deprovision-KeepsWrite (memory d) IsSafe (memory-KeepsWrites d) helm input s p
Step-IsSafe (binds d new_id ns req s) p =
    bind-KeepsWrite (memory d) IsSafe (memory-KeepsWrites d) new_id ns req s p
Step-IsSafe (finishes_bind d i s) p =
    finish_bind-KeepsWrite (memory d) IsSafe (memory-KeepsWrites d) i s p
Step-IsSafe (runs_bind d templates input s) p =
    do_bind-KeepsWrite (memory d) IsSafe (memory-KeepsWrites d) templates input s p
Step-IsSafe (gets_bind_data d i j s) p =
    get_bind_data-KeepsWrite (memory d) IsSafe (memory-KeepsWrites d) i j s p
Step-IsSafe (syncs addons charts s) p = record {
  operations = p.operations;
  bind_operations = p.bind_operations;
}

-- In every state that the broker can reach on the in-memory driver, whatever the order of requests and
-- tasks, every stored operation stands under its own ids, each instance has at most one operation in
-- progress, and at most one bind operation in progress.
pub Reachable-IsSafe : {s : Stores} → Reachable s → IsSafe s
unfolding values count_if lookup
Reachable-IsSafe (starts addons charts) = record {
  operations = empty-IsValid;
  bind_operations = λ i. omega arith;
}
Reachable-IsSafe (goes r step) = Step-IsSafe step (Reachable-IsSafe r)
