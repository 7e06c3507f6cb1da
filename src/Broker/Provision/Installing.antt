-- ===== src/Broker/Provision/Installing.antt =====
-- internal/broker/provision.go: the task that the `Provision` handler starts.
use Prim.Native.String.{◌++◌}
use helm_broker.Common.{
  String, Bool, Option, none, some, if◌then◌else◌, Error, wrap, Result, ok, err, error_text, cause,
}
use helm_broker.Model.Values.{str, Fields, no_fields, set_field}
use helm_broker.Model.Values.Merge.{merge_values}
use helm_broker.Model.Addons.{ChartValues, Namespace}
use helm_broker.Model.Charts.{Chart}
use helm_broker.Model.Instances.{ReleaseInfo}
use helm_broker.Model.Operations.{OperationState, succeeded, failed as operation_failed}
use helm_broker.Broker.Backend.{Backend}
use helm_broker.Broker.Provision.{ProvisioningInput}

-- `helmInstaller`, the Helm client, and how the broker tells its errors apart.
pub record HelmInstaller : Type 0 where
  pub install : Chart → Fields → String → Namespace → Result ReleaseInfo
  pub is_forbidden : Error → Bool

-- `deepCopy`: a round trip through JSON, which gives back every JSON value, and the empty map for nil.
abbrev pub deep_copy : ChartValues → Fields
deep_copy none = no_fields
deep_copy (some fs) = fs

abbrev override_fields : ChartValues → Fields
override_fields none = no_fields
override_fields (some fs) = fs

-- The values that the chart is installed with.
unfoldable pub install_values : ProvisioningInput → Fields
install_values input =
    set_field "addonsRepositoryURL" (str input.addons_repository_url) (
      merge_values (deep_copy input.addon_plan.chart_values)
        (override_fields input.chart_overrides))

-- The state and the description that the task leaves.
abbrev pub provision_state : Option Error → OperationState
provision_state none = succeeded
provision_state (some e) = operation_failed

abbrev pub provision_description : Option Error → String
provision_description none = "provisioning succeeded"
provision_description (some e) = "provisioning failed on error: " ++ error_text e

module _ {S : Type 0} (b : Backend S) (helm : HelmInstaller) where
  -- The error of a failed installation.
  abbrev install_error : Error → Error
  install_error e =
      if helm.is_forbidden (cause e)
      then wrap "user has no sufficient permissions to provision a service" (cause e)
      else wrap "while installing helm release" e

  -- `fDo`
  unfoldable pub install_release : ProvisioningInput → S → Option Error × S
  unfolding install_values
  install_release input s = elim (b.get_chart input.broker_namespace input.addon_plan.chart_ref s) [
    | err e ↦ (some (wrap "while getting chart from storage" e), s)
    | ok c ↦ elim (helm.install c (install_values input) input.release_name input.namespace) [
      | err e ↦ (some (install_error e), s)
      | ok info ↦
          let (r, s') =
            b.upsert_instance (record input.instance_to_update { release_info = info }) s in
          (
            elim r [ err e ↦ some (wrap "while updating instance in storage" e) | ok exist ↦ none ],
            s',
          )
    ]
  ]

  -- `do`, the task: an error of its last write is only logged.
  unfoldable pub do_provision : ProvisioningInput → S → S
  unfolding install_release
  do_provision input s =
      let (e, s') = install_release input s in
      (b.update_operation input.instance_id input.operation_id (provision_state e)
        (some (provision_description e)) s').1
