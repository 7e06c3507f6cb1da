-- ===== src/Broker/Tests.antt =====
-- Runs of the broker on concrete stores.
mod Server
use mathlib.Core.List.{Perm, Permᴰ}
use mathlib.Core.List.Perm as Perms
use Prim.Native.String.{◌++◌}
use helm_broker.Common.{
  ◌⊎◌, Bool, Every, Error, active_operation_in_progress, ◌==◌, ◌≡◌, refl, true, false, none, some,
  List, [], ◌∷◌, ok, err, plain, not_found, wrap, exists_in, error_text, count_if, ◌≤◌, ◌+◌, ◌&&◌,
  not, arith,
}
use helm_broker.Dict.{lookup, insert, delete, values}
use helm_broker.Dict.Nested.{find}
use helm_broker.Model.Values.{str, num, no_fields, field, lookup_field}
use helm_broker.Model.Addons.{Addon, AddonPlan, Version, ready, no_reason}
use helm_broker.Model.Instances.{ServiceInstance, is_provisioning_allowed}
use helm_broker.Model.Operations.{
  InstanceOperation, BindOperation, create, remove, in_progress, succeeded, failed,
}
use helm_broker.Storage.Operations
use helm_broker.Storage.Addons
use helm_broker.Storage.Instances
use helm_broker.Storage.BindData
use helm_broker.Storage.BindOperations
use helm_broker.Storage.Charts
use helm_broker.Broker.Action.{done, failed as failed_with, ◌>>=◌, bad_request}
use helm_broker.Broker.Memory.{Stores, Driver, memory}
use helm_broker.Broker.Provision.{
  ProvisionRequest, ProvisioningInput, new_operation, started_input, started_answer, provision,
}
use helm_broker.Broker.Provision.Installing.{HelmInstaller, do_provision, install_release}
use helm_broker.Broker.Steps.{
  no_stores, Reachable, starts, goes, provisions, IsSafe, Reachable-IsSafe,
}
use helm_broker.Broker.OperationState.{
  is_binding_in_progress, is_provisioned, is_provisioning_in_progress, is_bound, is_bind_created,
  is_bind_removed,
}
use helm_broker.Broker.OperationState.Order.{is_provisioned-eq, is_provisioning_in_progress-perm}
use helm_broker.Broker.LastOperation.{get_last_operation}
use helm_broker.Broker.Provision.Started.{provision-provision_only_once}
use helm_broker.Broker.Provision.Repeat.{provision-repeat}
use helm_broker.Broker.Provision.Plan.{provision-provision_no_plan}
use helm_broker.Broker.Deprovision.{DeprovisioningInput, HelmDeleter, do_deprovision}
use helm_broker.Broker.Deprovision.Task.{do_deprovision-removes, do_deprovision-keeps}
use helm_broker.Broker.Bind.Missing.{bind-no_instance}
use helm_broker.Broker.Bind.{
  BindRequest, validate_bind_request, bind, new_bind_operation, get_bind_data,
}
use helm_broker.Broker.Bind.Credentials.{get_bind_data-once}
use helm_broker.Broker.ReleaseName.{
  create_release_name, byte_length, byte_length-create_release_name-le,
}
use helm_broker.Broker.Provision.Task.{
  IsPending, IsInstalled, provision-IsPending, last_operation-do_provision,
}

abbrev clock : Driver
clock = record {
  now = 7;
  operation_order = λ ops. ops;
  bind_operation_order = λ ops. ops;
  instance_order = λ is. is;
  addon_order = λ bs. bs;
}

abbrev version : Version
version = record { original = "1.0.0"; canonical = "1.0.0" }

abbrev micro : AddonPlan
micro = record {
  id = "plan-1";
  name = "micro";
  description = "";
  schemas = [];
  chart_ref = record { name = "redis"; version = version };
  chart_values = some (field "memory" (num 1) no_fields);
  display_name = "";
  bindable = none;
  free = none;
  bind_template = none;
}

abbrev redis : Addon
redis = record {
  id = "addon-1";
  name = "redis";
  version = version;
  description = "";
  plans = ("plan-1", micro) ∷ [];
  metadata = record {
    display_name = "";
    provider_display_name = "";
    long_description = "";
    documentation_url = "";
    support_url = "";
    provision_only_once = true;
    image_url = "";
    labels = none;
  };
  repository_url = "https://addons";
  tags = [];
  requires = [];
  bindable = true;
  bindings_retrievable = true;
  plan_updatable = none;
  docs = [];
  status = ready;
  reason = no_reason;
  message = "";
}

abbrev request : ProvisionRequest
request = record {
  instance_id = "i";
  accepts_incomplete = true;
  service_id = "addon-1";
  plan_id = "plan-1";
  parameters = none;
  context = field "namespace" (str "shop") no_fields;
}

abbrev empty_stores : Stores
empty_stores =
    no_stores (record { key_to_id = []; storage = ("", ("addon-1", redis) ∷ []) ∷ [] }) []

abbrev input : ProvisioningInput
input = started_input request "" "shop" redis micro "op-1"

abbrev pending : Stores
pending = (provision (memory clock) (ok "op-1") "" request empty_stores).1

provision_run :
    provision (memory clock) (ok "op-1") "" request empty_stores
    ≡ (done (started_answer request "" "shop" redis micro "op-1"), pending)
unfolding provision ◌>>=◌ Operations.get_all lookup lookup_field Addons.get_by_id Instances.get_all
    is_provisioning_allowed values Operations.insert insert exists_in Instances.upsert
provision_run = refl

provision-provision_only_once_example :
    (addon : Addon) × (instances : List ServiceInstance) × (between : Stores) × (replaced : Bool)
    × ((memory clock).get_addon_by_id "" "addon-1" empty_stores ≡ ok addon)
    × ((memory clock).get_instances empty_stores ≡ ok instances)
    × (lookup_field "namespace" request.context ≡ some (str "shop"))
    × (lookup "plan-1" addon.plans ≡ some micro)
    × ((addon.metadata.provision_only_once ≡ false)
        ⊎ Every (λ i. ((i.namespace == "shop") && (i.service_id == addon.id)) ≡ false) instances)
    × ((memory clock).insert_operation
          (record {
            instance_id = "i";
            operation_id = "op-1";
            type = create;
            state = in_progress;
            state_description = none;
            provisioning_parameters = some (record { params = none });
            created_at = 0;
          })
          empty_stores
        ≡ (none, between))
    × ((memory clock).upsert_instance input.instance_to_update between ≡ (ok replaced, pending))
    × (input.instance_to_update.id ≡ "i")
    × (input.instance_to_update.service_id ≡ "addon-1")
    × (input.instance_to_update.namespace ≡ "shop")
    × ((started_answer request "" "shop" redis micro "op-1").0
        ≡ record { async = true; operation_key = some "op-1" })
provision-provision_only_once_example =
    provision-provision_only_once (memory clock) (ok "op-1") "" request empty_stores provision_run

provision-IsPending_example :
    IsPending clock request input pending
    × ((started_answer request "" "shop" redis micro "op-1").0
        ≡ record { async = true; operation_key = some "op-1" })
provision-IsPending_example =
    provision-IsPending clock (ok "op-1") "" request empty_stores provision_run

-- No chart is stored, so that the task fails.
abbrev helm : HelmInstaller
helm = record {
  install = λ c values name namespace. err (plain "no cluster");
  is_forbidden = λ e. false;
}

last_operation-do_provision_example :
    ((get_last_operation
          (memory clock)
          "i"
          (some "op-1")
          (do_provision (memory clock) helm input pending)
        ≡ ok (record { state = succeeded; description = some "provisioning succeeded" }))
      × IsInstalled clock helm input pending)
    ⊎ ((e : Error) × ((install_release (memory clock) helm input pending).0 ≡ some e)
        × (get_last_operation
              (memory clock)
              "i"
              (some "op-1")
              (do_provision (memory clock) helm input pending)
            ≡ ok (record {
              state = failed;
              description = some ("provisioning failed on error: " ++ error_text e);
            })))
unfolding lookup provision ◌>>=◌ Operations.get_all lookup_field Addons.get_by_id Instances.get_all
    is_provisioning_allowed values Operations.insert insert exists_in Instances.upsert
last_operation-do_provision_example =
    last_operation-do_provision clock helm input pending refl refl refl

Reachable-pending : Reachable pending
Reachable-pending =
    goes (starts empty_stores.addons []) (provisions clock (ok "op-1") "" request empty_stores)

Reachable-IsSafe_example : IsSafe pending
Reachable-IsSafe_example = Reachable-IsSafe Reachable-pending

same_order : (ops : List InstanceOperation) → Perm ops ops
same_order = Perms.refl

provision-repeat_example :
    provision (memory clock) (ok "op-2") "" request pending
    ≡ (done (record { async = true; operation_key = some "op-1" }, none), pending)
unfolding is_provisioned lookup provision ◌>>=◌ Operations.get_all lookup_field Addons.get_by_id
    Instances.get_all is_provisioning_allowed values Operations.insert insert exists_in
    Instances.upsert
provision-repeat_example =
    provision-repeat clock same_order (ok "op-2") "" request "op-1" Reachable-pending refl refl refl
      refl

abbrev deleter : HelmDeleter
deleter = record {
  delete_release = λ name namespace. some (plain "no such release");
  is_release_not_found = λ e. true;
}

abbrev removal : DeprovisioningInput
removal = record { instance' = input.instance_to_update; operation_id = "op-1" }

do_deprovision-removes_example :
    (Instances.get "i" (do_deprovision (memory clock) deleter removal pending).instances
      ≡ err not_found)
    × (BindData.get "i" (do_deprovision (memory clock) deleter removal pending).bind_data
        ≡ err not_found)
    × (get_last_operation
          (memory clock)
          "i"
          (some "op-1")
          (do_deprovision (memory clock) deleter removal pending)
        ≡ ok (record { state = succeeded; description = some "deprovisioning succeeded" }))
unfolding lookup provision ◌>>=◌ Operations.get_all lookup_field Addons.get_by_id Instances.get_all
    is_provisioning_allowed values Operations.insert insert exists_in Instances.upsert
do_deprovision-removes_example =
    do_deprovision-removes clock deleter removal pending refl refl refl refl

abbrev broken_deleter : HelmDeleter
broken_deleter = record {
  delete_release = λ name namespace. some (plain "no cluster");
  is_release_not_found = λ e. false;
}

do_deprovision-keeps_example :
    ((do_deprovision (memory clock) broken_deleter removal pending).instances ≡ pending.instances)
    × ((do_deprovision (memory clock) broken_deleter removal pending).bind_data ≡ pending.bind_data)
    × (get_last_operation
          (memory clock)
          "i"
          (some "op-1")
          (do_deprovision (memory clock) broken_deleter removal pending)
        ≡ ok (record {
          state = failed;
          description =
              some
                "deprovisioning failed on error: while deleting helm release \"hb-redis-micro-i\": no cluster";
        }))
unfolding lookup provision ◌>>=◌ Operations.get_all lookup_field Addons.get_by_id Instances.get_all
    is_provisioning_allowed values Operations.insert insert exists_in Instances.upsert error_text
    create_release_name
do_deprovision-keeps_example =
    do_deprovision-keeps clock broken_deleter removal pending refl refl refl refl

-- The plan of this request is none of the addon's.
abbrev planless : ProvisionRequest
planless = record request { plan_id = "plan-2" }

abbrev after_planless : Stores
after_planless = (provision (memory clock) (ok "op-1") "" planless empty_stores).1

provision-provision_no_plan_example :
    ((provision (memory clock) (ok "op-1") "" planless empty_stores).0
      ≡ failed_with (record {
        status_code = 400;
        error_message = plain "addon does not contain requested plan";
      }))
    × (find "i" "op-1" after_planless.operations
        ≡ some (record {
          instance_id = "i";
          operation_id = "op-1";
          type = create;
          state = in_progress;
          state_description = none;
          provisioning_parameters = some (record { params = none });
          created_at = 7;
        }))
    × (provision (memory clock) (ok "op-2") "" request after_planless
        ≡ (done (record { async = true; operation_key = some "op-1" }, none), after_planless))
unfolding is_provisioned Operations.get_all lookup is_provisioning_in_progress lookup_field
    Addons.get_by_id Instances.get_all is_provisioning_allowed values Operations.insert insert
    exists_in
provision-provision_no_plan_example =
    provision-provision_no_plan clock same_order "op-1" "" planless request (ok "op-2") empty_stores
      (starts empty_stores.addons []) refl refl refl refl refl refl refl refl refl refl refl refl
      refl

abbrev bound_stores : Stores
bound_stores = record empty_stores {
  bind_data = ("i", record { instance_id = "i"; credentials = ("host", "redis") ∷ [] }) ∷ [];
}

get_bind_data_run :
    get_bind_data (memory clock) "i" "b" bound_stores
    ≡ (done (("host", "redis") ∷ []), empty_stores)
unfolding get_bind_data ◌>>=◌ BindOperations.get_all lookup BindData.get BindData.remove delete
get_bind_data_run = refl

get_bind_data-once_example : get_bind_data (memory clock) "i" "b" empty_stores ≡ (
  failed_with (record {
    status_code = 404;
    error_message = wrap "while getting bind data from storage" not_found;
  }),
  empty_stores,
)
get_bind_data-once_example = get_bind_data-once clock "i" "b" bound_stores get_bind_data_run

-- The operations of an instance that was created and then removed.
abbrev creation : InstanceOperation
creation = record {
  instance_id = "i";
  operation_id = "op-1";
  type = create;
  state = succeeded;
  state_description = none;
  provisioning_parameters = none;
  created_at = 0;
}

abbrev removal_op : InstanceOperation
removal_op = record creation { operation_id = "op-2"; type = remove }

is_provisioned-eq_example : is_provisioned (ok (removal_op ∷ creation ∷ [])) ≡ ok false
unfolding exists_in
is_provisioned-eq_example = is_provisioned-eq (removal_op ∷ creation ∷ [])

abbrev active : InstanceOperation
active = record creation { operation_id = "op-3"; state = in_progress }

abbrev bound_op : BindOperation
bound_op = record {
  instance_id = "i";
  binding_id = "b";
  operation_id = "op-1";
  type = create;
  state = succeeded;
  state_description = none;
  created_at = 0;
}

byte_length-create_release_name-le_example :
    byte_length (create_release_name "redis-enterprise" "micro" "i") ≤ byte_length "i" + 17
byte_length-create_release_name-le_example =
    byte_length-create_release_name-le "redis-enterprise" "micro" "i"

abbrev bind_request : BindRequest
bind_request = record {
  instance_id = "i";
  binding_id = "b";
  service_id = "addon-1";
  plan_id = "plan-1";
  accepts_incomplete = true;
  has_parameters = false;
}

abbrev after_bind : Stores
after_bind = (bind (memory clock) (ok "op-1") "" bind_request empty_stores).1

-- A later operation of another binding of the instance.
abbrev other_binding : BindOperation
other_binding = record bound_op { binding_id = "other"; operation_id = "op-2"; state = in_progress }

bind-no_instance_example :
    ((bind (memory clock) (ok "op-1") "" bind_request empty_stores).0
      ≡ failed_with (record {
        status_code = 400;
        error_message = wrap "while getting instance from storage" not_found;
      }))
    × (find "i" "op-1" after_bind.bind_operations
        ≡ some (record {
          instance_id = "i";
          binding_id = "b";
          operation_id = "op-1";
          type = create;
          state = in_progress;
          state_description = none;
          created_at = 7;
        }))
    × ((BindOperations.insert 9 other_binding after_bind.bind_operations).0
        ≡ some active_operation_in_progress)
unfolding validate_bind_request is_binding_in_progress is_bound BindOperations.get_all
    BindOperations.insert lookup insert exists_in values Instances.get
bind-no_instance_example =
    bind-no_instance clock "op-1" "" bind_request empty_stores 9 other_binding refl refl refl refl
      refl refl refl refl refl
