-- ===== src/Broker/Provision/Started.antt =====
-- What `Provision` has done when it starts a task, for any implementation of the storage.
use helm_broker.Common.{
  String, ◌≡◌, refl, ap, ◌∙◌, sym, Bool, true, none, some, List, Result, ok, arith, Bool-cases,
  Option-cases, inl, inr, ◌⊎◌, false, Every, ◌==◌, ◌&&◌, some-eq-some,
}
use helm_broker.Dict.{lookup}
use helm_broker.Model.Values.{Value, str, Fields, lookup_field}
use helm_broker.Model.Addons.{Addon, AddonPlan, Namespace}
use helm_broker.Model.Instances.{
  ServiceInstance, is_provisioning_allowed, is_provisioning_allowed-Every,
}
use helm_broker.Model.Operations.{OperationId, create, in_progress}
use helm_broker.Broker.Backend.{Backend}
use helm_broker.Broker.Action.{done, Action, ◌>>=◌}
use helm_broker.Broker.Action.Inversion.{
  after_read, after_write, after_require, after_unit_write, pure-eq-done,
}
use helm_broker.Broker.Provision.{
  ProvisionRequest, ProvisioningInput, ProvisionResponse, Answer, assert_text, started_answer,
  started_input, get_namespace_from_context, find_plan, new_operation, new_instance, provision_new,
  provision_unless_in_progress, provision_again, provision,
}

-- The steps on the way to a started task, from the state `s` to the state `t`.
pub record IsStarted {S : Type 0} (b : Backend S) (new_id : Result OperationId)
    (broker_namespace : Namespace) (req : ProvisionRequest) (s t : S) (answer : Answer)
    : Type 0 where
  pub namespace : Namespace
  pub addon : Addon
  pub instances : List ServiceInstance
  pub op_id : OperationId
  pub plan : AddonPlan
  pub between : S
  pub replaced : Bool
  pub namespace_given : lookup_field "namespace" req.context ≡ some (str namespace)
  pub addon_found : b.get_addon_by_id broker_namespace req.service_id s ≡ ok addon
  pub instances_read : b.get_instances s ≡ ok instances
  pub is_allowed : is_provisioning_allowed addon namespace instances ≡ true
  pub id_made : new_id ≡ ok op_id
  pub inserted : b.insert_operation (new_operation req op_id) s ≡ (none, between)
  pub plan_found : lookup req.plan_id addon.plans ≡ some plan
  pub upserted :
      b.upsert_instance (new_instance req namespace addon plan) between ≡ (ok replaced, t)
  pub answered : answer ≡ started_answer req broker_namespace namespace addon plan op_id

text_value :
    {S B P : Type 0} (v : Value) (f : Namespace → Action S B) (s : S) {x : B} {t : S}
    → (assert_text v >>= f) s ≡ (done x, t)
    → ((namespace : Namespace) → v ≡ str namespace → f namespace s ≡ (done x, t) → P)
    → P
unfolding assert_text ◌>>=◌
text_value (str ns) f s h use' = use' ns refl h
text_value _ f s h use' = absurd (ground arith)

after_namespace :
    {S B P : Type 0} (context : Fields) (f : Namespace → Action S B) (s : S) {x : B} {t : S}
    → (get_namespace_from_context context >>= f) s ≡ (done x, t)
    → ((namespace : Namespace)
        → lookup_field "namespace" context ≡ some (str namespace)
        → f namespace s ≡ (done x, t)
        → P)
    → P
unfolding get_namespace_from_context ◌>>=◌
after_namespace context f s h use' = elim (Option-cases (lookup_field "namespace" context)) [
  | inl q ↦ absurd (ground arith)
  | inr (v, q) ↦
      text_value v f s (unfold assert_text ◌>>=◌ in ground arith)
        (λ ns e k. use' ns (q ∙ ap some e) k)
]

module _ {S : Type 0} (b : Backend S) where
  after_plan :
      {B P : Type 0} (addon : Addon) (plan_id : String) (f : AddonPlan → Action S B) (s : S) {x : B}
      {t : S}
      → (find_plan b addon plan_id >>= f) s ≡ (done x, t)
      → ((plan : AddonPlan) → lookup plan_id addon.plans ≡ some plan → f plan s ≡ (done x, t) → P)
      → P
  unfolding find_plan ◌>>=◌
  after_plan addon plan_id f s h use' = elim (Option-cases (lookup plan_id addon.plans)) [
    | inl q ↦ absurd (ground arith)
    | inr (plan, q) ↦ use' plan q (ground arith)
  ]

  provision_new-IsStarted :
      (new_id : Result OperationId) (broker_namespace : Namespace) (req : ProvisionRequest) (s : S)
      {answer : Answer} {t : S}
      → provision_new b new_id broker_namespace req s ≡ (done answer, t)
      → IsStarted b new_id broker_namespace req s t answer
  unfolding provision_new
  provision_new-IsStarted new_id broker_namespace req s h =
      after_namespace req.context _ s h λ namespace namespace_given h1.
        after_read _ _ _ _ s h1 λ addon addon_found h2.
          after_read _ _ _ _ s h2 λ instances instances_read h3.
            after_require _ _ _ _ s h3 λ is_allowed h4. after_read _ _ _ _ s h4 λ op_id id_made h5.
              after_unit_write _ _ _ _ s h5 λ between inserted h6.
                after_plan addon req.plan_id _ between h6 λ plan plan_found h7.
                  after_write _ _ _ _ between h7 λ replaced t' upserted h8.
                    let (answered, last) = pure-eq-done _ t' h8 in
                    record {
                      namespace = namespace;
                      addon = addon;
                      instances = instances;
                      op_id = op_id;
                      plan = plan;
                      between = between;
                      replaced = replaced;
                      namespace_given = namespace_given;
                      addon_found = addon_found;
                      instances_read = instances_read;
                      is_allowed = is_allowed;
                      id_made = id_made;
                      inserted = inserted;
                      plan_found = plan_found;
                      upserted = upserted ∙ (λ i. (ok replaced, last i));
                      answered = sym answered;
                    }

  again-starts_nothing :
      (req : ProvisionRequest) (s : S) {response : ProvisionResponse} {input : ProvisioningInput}
      {t : S}
      → provision_again b req s ≡ (done (response, some input), t)
      → ⊥
  unfolding provision_again
  again-starts_nothing req s h = after_write _ _ _ _ s h λ differ s' compared h1.
      after_require _ _ _ _ s' h1 λ same h2. let (e, _) = pure-eq-done _ s' h2 in ground arith

  unless_in_progress-IsStarted :
      (new_id : Result OperationId) (broker_namespace : Namespace) (req : ProvisionRequest) (s : S)
      {response : ProvisionResponse} {input : ProvisioningInput} {t : S}
      → provision_unless_in_progress b new_id broker_namespace req s
        ≡ (done (response, some input), t)
      → IsStarted b new_id broker_namespace req s t (response, some input)
  unfolding provision_unless_in_progress
  unless_in_progress-IsStarted new_id broker_namespace req s h =
      after_read _ _ _ _ s h λ answer read_eq h1. elim (Bool-cases answer.1) [
        | inl e ↦ let (e', _) = pure-eq-done _ s (rw e at h1) in absurd (ground arith)
        | inr e ↦ provision_new-IsStarted new_id broker_namespace req s (rw e at h1)
      ]

  -- For any implementation of the storage: a `Provision` that starts a task has a namespace in its context,
  -- found the addon, is allowed by `provisionOnlyOnce`, has a new id, inserted the operation without an
  -- error, found the plan, and last stored the instance; and its answer and the task's input are made of
  -- these.
  pub provision-IsStarted :
      (new_id : Result OperationId) (broker_namespace : Namespace) (req : ProvisionRequest) (s : S)
      {response : ProvisionResponse} {input : ProvisioningInput} {t : S}
      → provision b new_id broker_namespace req s ≡ (done (response, some input), t)
      → IsStarted b new_id broker_namespace req s t (response, some input)
  unfolding provision
  provision-IsStarted new_id broker_namespace req s {response} {input} {t} h =
      after_require _ _ _ _ s h λ accepts h1.
        after_read _ _ _ _ s h1 λ provisioned provisioned_eq h2. elim (Bool-cases provisioned) [
          | inl e ↦ absurd (again-starts_nothing req s (rw e at h2))
          | inr e ↦ unless_in_progress-IsStarted new_id broker_namespace req s (rw e at h2)
        ]

  -- For any implementation of the storage: a `Provision` that starts a task has found the addon and the plan of
  -- the request, and the addon is not for one instance only or no stored instance of it is in the namespace of
  -- the request's context; and it has inserted an operation in progress and stored the instance in this
  -- namespace, without an error, and answers with the operation's id.
  pub provision-provision_only_once :
      (new_id : Result OperationId) (broker_namespace : Namespace) (req : ProvisionRequest) (s : S)
      {response : ProvisionResponse} {input : ProvisioningInput} {t : S}
      → provision b new_id broker_namespace req s ≡ (done (response, some input), t)
      → (addon : Addon) × (instances : List ServiceInstance) × (between : S) × (replaced : Bool)
        × (b.get_addon_by_id broker_namespace req.service_id s ≡ ok addon)
        × (b.get_instances s ≡ ok instances)
        × (lookup_field "namespace" req.context ≡ some (str input.namespace))
        × (lookup req.plan_id addon.plans ≡ some input.addon_plan)
        × ((addon.metadata.provision_only_once ≡ false)
            ⊎ Every
                (λ i. ((i.namespace == input.namespace) && (i.service_id == addon.id)) ≡ false)
                instances)
        × (b.insert_operation
              (record {
                instance_id = req.instance_id;
                operation_id = input.operation_id;
                type = create;
                state = in_progress;
                state_description = none;
                provisioning_parameters = some (record { params = req.parameters });
                created_at = 0;
              })
              s
            ≡ (none, between))
        × (b.upsert_instance input.instance_to_update between ≡ (ok replaced, t))
        × (input.instance_to_update.id ≡ req.instance_id)
        × (input.instance_to_update.service_id ≡ req.service_id)
        × (input.instance_to_update.namespace ≡ input.namespace)
        × (response ≡ record { async = true; operation_key = some input.operation_id })
  provision-provision_only_once new_id broker_namespace req s {response} {input} {t} h =
      let st = provision-IsStarted new_id broker_namespace req s h in
      let input_eq : input
          ≡ started_input req broker_namespace st.namespace st.addon st.plan st.op_id =
        some-eq-some (ap (λ a. a.1) st.answered) in
      rw input_eq (
        st.addon,
        st.instances,
        st.between,
        st.replaced,
        st.addon_found,
        st.instances_read,
        st.namespace_given,
        st.plan_found,
        is_provisioning_allowed-Every st.addon st.namespace st.instances st.is_allowed,
        st.inserted,
        st.upserted,
        refl,
        refl,
        refl,
        ap (λ a. a.0) st.answered,
      )
