-- ===== src/Broker/Provision/Task.antt =====
-- The provisioning task on the in-memory driver, from the handler that starts it to the last state of
-- its operation.
use Prim.Native.String.{◌++◌}
use helm_broker.Common.{
  ◌≡◌, refl, ap, ◌∙◌, sym, true, false, none, some, Result, ok, arith, is_empty, eq_refl,
  some-eq-some, Option, Error, error_text, Option-cases, Result-cases, ◌⊎◌, inl, inr,
}
use helm_broker.Model.Charts.{Chart}
use helm_broker.Model.Instances.{ReleaseInfo}
use helm_broker.Model.Addons.{Namespace}
use helm_broker.Model.Operations.{
  OperationId, InstanceOperation, create, in_progress, succeeded, failed,
}
use helm_broker.Dict.Nested.{find}
use helm_broker.Storage.Operations
use helm_broker.Storage.Operations.Views as OperationViews
use helm_broker.Storage.Instances
use helm_broker.Broker.Action.{done}
use helm_broker.Broker.Memory.{Stores, Driver, memory}
use helm_broker.Broker.LastOperation.{LastOperationResponse, get_last_operation}
use helm_broker.Broker.LastOperation.Read.{get_last_operation-update_operation}
use helm_broker.Broker.Provision.{
  ProvisionRequest, ProvisionResponse, ProvisioningInput, provision, new_operation, new_instance,
  started_input,
}
use helm_broker.Broker.Provision.Installing.{
  HelmInstaller, install_release, install_values, provision_state, provision_description,
  do_provision,
}
use helm_broker.Broker.Provision.Started.{provision-IsStarted}

-- What stands in the stores once the task of `input` is started.
pub record IsPending (d : Driver) (req : ProvisionRequest) (input : ProvisioningInput) (t : Stores)
    : Type 0 where
  pub instance_set : is_empty input.instance_id ≡ false
  pub operation_set : is_empty input.operation_id ≡ false
  pub for_request : input.instance_id ≡ req.instance_id
  pub operation :
      find input.instance_id input.operation_id t.operations
      ≡ some (record {
        instance_id = req.instance_id;
        operation_id = input.operation_id;
        type = create;
        state = in_progress;
        state_description = none;
        provisioning_parameters = some (record { params = req.parameters });
        created_at = d.now;
      })
  pub stored_instance : Instances.get input.instance_id t.instances ≡ ok input.instance_to_update

module _ (d : Driver) where
  -- On the in-memory stores, a `Provision` that starts a task leaves its operation stored under the
  -- request's instance and a set id, in progress, and the instance stored, and answers with the
  -- operation's id.
  pub provision-IsPending :
      (new_id : Result OperationId) (broker_namespace : Namespace) (req : ProvisionRequest)
      (s : Stores) {response : ProvisionResponse} {input : ProvisioningInput} {t : Stores}
      → provision (memory d) new_id broker_namespace req s ≡ (done (response, some input), t)
      → IsPending d req input t
        × (response ≡ record { async = true; operation_key = some input.operation_id })
  provision-IsPending new_id broker_namespace req s {response} {input} {t} h =
      let st = provision-IsStarted (memory d) new_id broker_namespace req s h in
      let input_eq : input
          ≡ started_input req broker_namespace st.namespace st.addon st.plan st.op_id =
        some-eq-some (ap (λ a. a.1) st.answered) in
      let inserted : Operations.insert d.now (some (new_operation req st.op_id)) s.operations
          ≡ (none, st.between.operations) =
        ap (λ p. (p.0, p.1.operations)) st.inserted in
      let facts = OperationViews.insert-eq-none d.now _ s.operations inserted in
      let kept : st.between.operations ≡ t.operations = ap (λ p. p.1.operations) st.upserted in
      let upserted : (Instances.upsert (some (new_instance req st.namespace st.addon st.plan))
            st.between.instances).1
          ≡ t.instances =
        ap (λ p. p.1.instances) st.upserted in
      rw input_eq (
        record {
          instance_set = facts.0;
          operation_set = facts.1;
          for_request = refl;
          operation = ap (find req.instance_id st.op_id) (sym kept) ∙ facts.2;
          stored_instance =
              ap (Instances.get req.instance_id) (sym upserted)
              ∙ Instances.get-upsert (new_instance req st.namespace st.addon st.plan)
                  st.between.instances req.instance_id
              ∙ rw (eq_refl req.instance_id, facts.0) refl;
        },
        ap (λ a. a.0) st.answered,
      )

  -- The chart of the plan is stored, and Helm installs it with the values of the task.
  abbrev pub IsInstalled : HelmInstaller → ProvisioningInput → Stores → Type 0
  IsInstalled helm input s =
      (chart : Chart) × (info : ReleaseInfo) × ((memory d).get_chart input.broker_namespace
          input.addon_plan.chart_ref s
        ≡ ok chart)
      × (helm.install chart (install_values input) input.release_name input.namespace ≡ ok info)

  installed :
      (helm : HelmInstaller) (input : ProvisioningInput) (s : Stores)
      → (install_release (memory d) helm input s).0 ≡ none
      → IsInstalled helm input s
  unfolding install_release
  installed helm input s h =
      elim (Result-cases
        ((memory d).get_chart input.broker_namespace input.addon_plan.chart_ref s)) [
          | inl (e, q) ↦ absurd (ground (arith, h, q))
          | inr (chart, q) ↦
              elim (Result-cases
                (helm.install chart (install_values input) input.release_name input.namespace)) [
                  | inl (e, k) ↦ absurd (ground (arith, h, q, k))
                  | inr (info, k) ↦ (chart, info, q, k)
                ]
        ]

  abbrev poll_of : Option Error → LastOperationResponse
  poll_of e = record { state = provision_state e; description = some (provision_description e) }

  -- The release task touches no operation.
  operations-install_release :
      (helm : HelmInstaller) (input : ProvisioningInput) (s : Stores)
      → (install_release (memory d) helm input s).1.operations ≡ s.operations
  unfolding install_release
  operations-install_release helm input s = ground arith

  -- For ids that are set: if the operation is stored when its task runs, then after the task a poll answers
  -- that it succeeded if the installation of the release did, and otherwise that it failed, with the error in
  -- the description; and an installation that succeeded has found the chart and has had it installed by Helm.
  pub last_operation-do_provision :
      (helm : HelmInstaller) (input : ProvisioningInput) (s : Stores) {op : InstanceOperation}
      → is_empty input.instance_id ≡ false
      → is_empty input.operation_id ≡ false
      → find input.instance_id input.operation_id s.operations ≡ some op
      → ((get_last_operation
              (memory d)
              input.instance_id
              (some input.operation_id)
              (do_provision (memory d) helm input s)
            ≡ ok (record { state = succeeded; description = some "provisioning succeeded" }))
          × IsInstalled helm input s)
        ⊎ ((e : Error) × ((install_release (memory d) helm input s).0 ≡ some e)
            × (get_last_operation
                  (memory d)
                  input.instance_id
                  (some input.operation_id)
                  (do_provision (memory d) helm input s)
                ≡ ok (record {
                  state = failed;
                  description = some ("provisioning failed on error: " ++ error_text e);
                })))
  unfolding do_provision
  last_operation-do_provision helm input s hi hk stored =
      let r = install_release (memory d) helm input s in
      let polled =
        get_last_operation-update_operation d input.instance_id input.operation_id
          (provision_state r.0) (some (provision_description r.0)) r.1 hi hk
          (ap (find input.instance_id input.operation_id) (operations-install_release helm input s)
            ∙ stored) in
      elim (Option-cases r.0) [
        | inl q ↦ inl (polled ∙ ap (λ x. ok (poll_of x)) q, installed helm input s q)
        | inr (e, q) ↦ inr (e, q, polled ∙ ap (λ x. ok (poll_of x)) q)
      ]
