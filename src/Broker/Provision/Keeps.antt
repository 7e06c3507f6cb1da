-- ===== src/Broker/Provision/Keeps.antt =====
-- `Provision` and its task keep a property that the writes of the storage keep.
use helm_broker.Common.{
  String, false, Option, none, some, Error, Result, ◌≡◌, refl, Result-cases, Option-cases, inl, inr,
  arith,
}
use helm_broker.Dict.{lookup}
use helm_broker.Model.Values.{Value, str, Fields, lookup_field}
use helm_broker.Model.Addons.{Addon, Namespace}
use helm_broker.Model.Operations.{InstanceId, OperationId, is_in_progress, RequestParameters}
use helm_broker.Broker.Backend.{Backend}
use helm_broker.Broker.Backend.Keeps.{KeepsWrites}
use helm_broker.Broker.Action.{fail, unit_result}
use helm_broker.Broker.Action.Keeps.{
  KeepsWrite, then-KeepsWrite, pure-KeepsWrite, require-KeepsWrite, read-KeepsWrite,
  write-KeepsWrite, if-KeepsWrite,
}
use helm_broker.Broker.Provision.{
  ProvisionRequest, ProvisioningInput, assert_text, get_namespace_from_context, find_plan,
  requested_parameters_are_different, provision_again, provision_new, provision_unless_in_progress,
  provision,
}
use helm_broker.Broker.Provision.Installing.{
  HelmInstaller, install_release, install_values, provision_state, provision_description,
  do_provision,
}

module _ {S : Type 0} (b : Backend S) (P : S → Type 0) (kept : KeepsWrites b P) where
  assert_text-KeepsWrite : (v : Value) → KeepsWrite P (assert_text v)
  unfolding assert_text
  assert_text-KeepsWrite (str ns) s p = p
  assert_text-KeepsWrite _ s p = p

  namespace-KeepsWrite : (context : Fields) → KeepsWrite P (get_namespace_from_context context)
  unfolding get_namespace_from_context fail
  namespace-KeepsWrite context s p = elim (Option-cases (lookup_field "namespace" context)) [
    | inl q ↦ rw (q, get_namespace_from_context) p
    | inr (v, q) ↦ rw (q, get_namespace_from_context) (assert_text-KeepsWrite v s p)
  ]

  find_plan-KeepsWrite :
      (addon : Addon) (plan_id : String) → KeepsWrite P (find_plan b addon plan_id)
  unfolding find_plan fail
  find_plan-KeepsWrite addon plan_id s p = elim (Option-cases (lookup plan_id addon.plans)) [
    | inl q ↦ rw (q, find_plan) p
    | inr (v, q) ↦ rw (q, find_plan) p
  ]

  unit_result-KeepsWrite :
      (g : S → Option Error × S) → KeepsWrite P g → KeepsWrite P (unit_result g)
  unit_result-KeepsWrite g k s p = k s p

  differ-KeepsWrite :
      (i : InstanceId) (requested : RequestParameters)
      → KeepsWrite P (requested_parameters_are_different b i requested)
  unfolding requested_parameters_are_different
  differ-KeepsWrite i requested s p = elim (Result-cases (b.get_instance i s)) [
    | inl (e, q) ↦ rw (q, requested_parameters_are_different) p
    | inr (inst, q) ↦ ground (
      arith,
      kept.upsert_instance
          (record inst { params_hash = ""; provisioning_parameters = some requested }) s p,
    )
  ]

  again-KeepsWrite : (req : ProvisionRequest) → KeepsWrite P (provision_again b req)
  unfolding provision_again
  again-KeepsWrite req =
      then-KeepsWrite P _ _ (write-KeepsWrite P _ _ _ (differ-KeepsWrite _ _))
        λ differ. then-KeepsWrite P _ _ (require-KeepsWrite P _ _ _) λ _. pure-KeepsWrite P _

  new-KeepsWrite :
      (new_id : Result OperationId) (broker_namespace : Namespace) (req : ProvisionRequest)
      → KeepsWrite P (provision_new b new_id broker_namespace req)
  unfolding provision_new
  new-KeepsWrite new_id broker_namespace req =
      then-KeepsWrite P _ _ (namespace-KeepsWrite _) λ namespace.
        then-KeepsWrite P _ _ (read-KeepsWrite P _ _ _) λ addon.
          then-KeepsWrite P _ _ (read-KeepsWrite P _ _ _) λ instances.
            then-KeepsWrite P _ _ (require-KeepsWrite P _ _ _) λ _.
              then-KeepsWrite P _ _ (read-KeepsWrite P _ _ _) λ op_id.
                then-KeepsWrite P _ _ (write-KeepsWrite P _ _ _ (kept.insert_operation _)) λ _.
                  then-KeepsWrite P _ _ (find_plan-KeepsWrite addon _) λ plan.
                    then-KeepsWrite P _ _ (write-KeepsWrite P _ _ _ (kept.upsert_instance _))
                      λ exist. pure-KeepsWrite P _

  unless_in_progress-KeepsWrite :
      (new_id : Result OperationId) (broker_namespace : Namespace) (req : ProvisionRequest)
      → KeepsWrite P (provision_unless_in_progress b new_id broker_namespace req)
  unfolding provision_unless_in_progress
  unless_in_progress-KeepsWrite new_id broker_namespace req =
      then-KeepsWrite P _ _ (read-KeepsWrite P _ _ _) λ answer.
        if-KeepsWrite P answer.1 _ _ (pure-KeepsWrite P _)
          (new-KeepsWrite new_id broker_namespace req)

  pub provision-KeepsWrite :
      (new_id : Result OperationId) (broker_namespace : Namespace) (req : ProvisionRequest)
      → KeepsWrite P (provision b new_id broker_namespace req)
  unfolding provision
  provision-KeepsWrite new_id broker_namespace req =
      then-KeepsWrite P _ _ (require-KeepsWrite P _ _ _) λ _.
        then-KeepsWrite P _ _ (read-KeepsWrite P _ _ _) λ provisioned.
          if-KeepsWrite P provisioned _ _ (again-KeepsWrite req)
            (unless_in_progress-KeepsWrite new_id broker_namespace req)

  install-KeepsWrite :
      (helm : HelmInstaller) (input : ProvisioningInput)
      → KeepsWrite P (install_release b helm input)
  unfolding install_release
  install-KeepsWrite helm input s p =
      elim (Result-cases (b.get_chart input.broker_namespace input.addon_plan.chart_ref s)) [
        | inl (e, q) ↦ rw (q, install_release) p
        | inr (c, q) ↦
            elim (Result-cases
              (helm.install c (install_values input) input.release_name input.namespace)) [
                | inl (e, q') ↦ rw (q, q', install_release) p
                | inr (info, q') ↦
                    rw (q, q', install_release)
                      (kept.upsert_instance
                        (record input.instance_to_update { release_info = info }) s p)
              ]
      ]

  provision_state-is_final : (e : Option Error) → is_in_progress (provision_state e) ≡ false
  provision_state-is_final none = refl
  provision_state-is_final (some e) = refl

  pub do_provision-KeepsWrite :
      (helm : HelmInstaller) (input : ProvisioningInput) (s : S)
      → P s
      → P (do_provision b helm input s)
  unfolding do_provision
  do_provision-KeepsWrite helm input s p =
      let r = install_release b helm input s in
      kept.update_operation input.instance_id input.operation_id (provision_state r.0)
        (some (provision_description r.0)) (provision_state-is_final r.0) r.1
        (install-KeepsWrite helm input s p)
