-- ===== src/Broker/Bind/Keeps.antt =====
-- `Bind`, its task and the reads of a binding keep a property that the writes of the storage keep.
use helm_broker.Common.{
  String, false, Option, none, some, Error, Result, ok, err, ◌≡◌, refl, Result-cases, Option-cases,
  Bool-cases, inl, inr, wrap,
}
use helm_broker.Dict.{lookup}
use helm_broker.Model.Addons.{Addon, AddonPlan, Namespace}
use helm_broker.Model.Charts.{Chart}
use helm_broker.Model.Instances.{ServiceInstance, InstanceCredentials}
use helm_broker.Model.Operations.{InstanceId, BindingId, OperationId, BindOperation, is_in_progress}
use helm_broker.Broker.Backend.{Backend}
use helm_broker.Broker.Backend.Keeps.{KeepsWrites}
use helm_broker.Broker.Action.{Outcome, fail}
use helm_broker.Broker.Action.Keeps.{
  KeepsWrite, then-KeepsWrite, pure-KeepsWrite, fail-KeepsWrite, require-KeepsWrite,
  read-KeepsWrite, write-KeepsWrite, if-KeepsWrite,
}
use helm_broker.Broker.Bind.{
  BindRequest, BindingInput, BindProgress, find_bind_plan, prepare_bind_input, bind_new, bind_again,
  bind_unless_in_progress, bind_valid, bind, finish_bind, get_bind_data,
}
use helm_broker.Broker.Bind.Resolving.{
  BindTemplates, store_credentials, render_and_resolve_bind_data, resolve_binding, run_binding,
  is_bindable, bind_state, bind_description, do_bind,
}

module _ {S : Type 0} (b : Backend S) (P : S → Type 0) (kept : KeepsWrites b P) where
  plan-KeepsWrite :
      (addon : Addon) (plan_id : String) → KeepsWrite P (find_bind_plan b addon plan_id)
  unfolding find_bind_plan fail
  plan-KeepsWrite addon plan_id s p = elim (Option-cases (lookup plan_id addon.plans)) [
    | inl q ↦ rw (q, find_bind_plan) p
    | inr (v, q) ↦ rw (q, find_bind_plan) p
  ]

  prepare-KeepsWrite :
      (broker_namespace : Namespace) (req : BindRequest) (op_id : OperationId)
      → KeepsWrite P (prepare_bind_input b broker_namespace req op_id)
  unfolding prepare_bind_input
  prepare-KeepsWrite broker_namespace req op_id =
      then-KeepsWrite P _ _ (read-KeepsWrite P _ _ _) λ inst.
        then-KeepsWrite P _ _ (read-KeepsWrite P _ _ _)
          λ addon. then-KeepsWrite P _ _ (plan-KeepsWrite addon _) λ plan. pure-KeepsWrite P _

  new-KeepsWrite :
      (new_id : Result OperationId) (broker_namespace : Namespace) (req : BindRequest)
      → KeepsWrite P (bind_new b new_id broker_namespace req)
  unfolding bind_new
  new-KeepsWrite new_id broker_namespace req =
      then-KeepsWrite P _ _ (read-KeepsWrite P _ _ _) λ op_id.
        then-KeepsWrite P _ _ (write-KeepsWrite P _ _ _ (kept.insert_bind_operation _)) λ _.
          then-KeepsWrite P _ _ (prepare-KeepsWrite broker_namespace req op_id)
            λ input. pure-KeepsWrite P _

  again-KeepsWrite :
      (broker_namespace : Namespace) (req : BindRequest) (op : BindOperation)
      → KeepsWrite P (bind_again b broker_namespace req op)
  unfolding bind_again
  again-KeepsWrite broker_namespace req op =
      then-KeepsWrite P _ _ (prepare-KeepsWrite broker_namespace req _) λ input. pure-KeepsWrite P _

  bound-KeepsWrite :
      (new_id : Result OperationId) (broker_namespace : Namespace) (req : BindRequest)
      (bound : Option BindOperation)
      → KeepsWrite {R = Outcome BindProgress} P (elim bound [
        | none ↦ bind_new b new_id broker_namespace req
        | some op ↦ bind_again b broker_namespace req op
      ])
  bound-KeepsWrite new_id broker_namespace req none = new-KeepsWrite new_id broker_namespace req
  bound-KeepsWrite new_id broker_namespace req (some op) = again-KeepsWrite broker_namespace req op

  unless_in_progress-KeepsWrite :
      (new_id : Result OperationId) (broker_namespace : Namespace) (req : BindRequest)
      → KeepsWrite P (bind_unless_in_progress b new_id broker_namespace req)
  unfolding bind_unless_in_progress
  unless_in_progress-KeepsWrite new_id broker_namespace req =
      then-KeepsWrite P _ _ (read-KeepsWrite P _ _ _)
        λ bound. bound-KeepsWrite new_id broker_namespace req bound

  valid-KeepsWrite :
      (new_id : Result OperationId) (broker_namespace : Namespace) (req : BindRequest)
      → KeepsWrite P (bind_valid b new_id broker_namespace req)
  unfolding bind_valid
  valid-KeepsWrite new_id broker_namespace req =
      then-KeepsWrite P _ _ (read-KeepsWrite P _ _ _) λ answer.
        if-KeepsWrite P answer.1 _ _ (pure-KeepsWrite P _)
          (unless_in_progress-KeepsWrite new_id broker_namespace req)

  validated-KeepsWrite :
      (new_id : Result OperationId) (broker_namespace : Namespace) (req : BindRequest)
      (e : Option Error)
      → KeepsWrite {R = Outcome BindProgress} P (elim e [
        | some e' ↦ fail 400 (wrap "while validating bind request" e')
        | none ↦ bind_valid b new_id broker_namespace req
      ])
  validated-KeepsWrite new_id broker_namespace req none =
      valid-KeepsWrite new_id broker_namespace req
  validated-KeepsWrite new_id broker_namespace req (some e) = fail-KeepsWrite P BindProgress _ _

  pub bind-KeepsWrite :
      (new_id : Result OperationId) (broker_namespace : Namespace) (req : BindRequest)
      → KeepsWrite P (bind b new_id broker_namespace req)
  unfolding bind
  bind-KeepsWrite new_id broker_namespace req =
      then-KeepsWrite P _ _ (require-KeepsWrite P _ _ _) λ _.
        then-KeepsWrite P _ _ (require-KeepsWrite P _ _ _)
          λ _. validated-KeepsWrite new_id broker_namespace req _

  pub finish_bind-KeepsWrite : (i : InstanceId) → KeepsWrite P (finish_bind b i)
  unfolding finish_bind fail
  finish_bind-KeepsWrite i s p = elim (Result-cases (b.get_bind_data i s)) [
    | inl (e, q) ↦ rw (q, finish_bind) p
    | inr (ibd, q) ↦ rw (q, finish_bind) (kept.remove_bind_data i s p)
  ]

  pub get_bind_data-KeepsWrite :
      (i : InstanceId) (j : BindingId) → KeepsWrite P (get_bind_data b i j)
  unfolding get_bind_data
  get_bind_data-KeepsWrite i j = then-KeepsWrite P _ _ (read-KeepsWrite P _ _ _) λ answer.
      then-KeepsWrite P _ _ (require-KeepsWrite P _ _ _)
        λ _. then-KeepsWrite P _ _ (read-KeepsWrite P _ _ _) λ ibd s p. kept.remove_bind_data i s p

  store-KeepsWrite :
      (templates : BindTemplates) (inst : ServiceInstance) (creds : Result InstanceCredentials)
      → KeepsWrite P (store_credentials b templates inst creds)
  unfolding store_credentials
  store-KeepsWrite templates inst (err e) s p = p
  store-KeepsWrite templates inst (ok creds) s p =
      kept.insert_bind_data (record { instance_id = inst.id; credentials = creds }) s p

  render-KeepsWrite :
      (templates : BindTemplates) (plan : AddonPlan) (inst : ServiceInstance) (ch : Chart)
      → KeepsWrite P (render_and_resolve_bind_data b templates plan inst ch)
  unfolding render_and_resolve_bind_data
  render-KeepsWrite templates plan inst ch s p =
      elim (Result-cases (templates.render plan.bind_template inst ch)) [
        | inl (e, q) ↦ rw (q, render_and_resolve_bind_data) p
        | inr (rendered, q) ↦
            rw (q, render_and_resolve_bind_data) (store-KeepsWrite templates inst _ s p)
      ]

  resolve-KeepsWrite :
      (templates : BindTemplates) (input : BindingInput)
      → KeepsWrite P (resolve_binding b templates input)
  unfolding resolve_binding
  resolve-KeepsWrite templates input s p =
      elim (Result-cases (b.get_chart input.broker_namespace input.addon_plan.chart_ref s)) [
        | inl (e, q) ↦ rw (q, resolve_binding) p
        | inr (c, q) ↦
            rw (q, resolve_binding)
              (render-KeepsWrite templates input.addon_plan input.instance' c s p)
      ]

  run-KeepsWrite :
      (templates : BindTemplates) (input : BindingInput)
      → KeepsWrite P (run_binding b templates input)
  unfolding run_binding
  run-KeepsWrite templates input s p =
      elim (Bool-cases (is_bindable input.addon_plan input.is_addon_bindable)) [
        | inl q ↦ rw (q, run_binding) (resolve-KeepsWrite templates input s p)
        | inr q ↦ rw (q, run_binding) p
      ]

  bind_state-is_final : (e : Option Error) → is_in_progress (bind_state e) ≡ false
  bind_state-is_final none = refl
  bind_state-is_final (some e) = refl

  pub do_bind-KeepsWrite :
      (templates : BindTemplates) (input : BindingInput) (s : S)
      → P s
      → P (do_bind b templates input s)
  unfolding do_bind
  do_bind-KeepsWrite templates input s p =
      let r = run_binding b templates input s in
      kept.update_bind_operation input.instance'.id input.binding_id input.operation_id
        (bind_state r.0) (some (bind_description r.0)) (bind_state-is_final r.0) r.1
        (run-KeepsWrite templates input s p)
