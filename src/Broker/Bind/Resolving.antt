-- ===== src/Broker/Bind/Resolving.antt =====
-- internal/broker/bind.go: the task that the `Bind` handler starts.
use Prim.Native.String.{◌++◌}
use helm_broker.Common.{
  String, Bool, Option, none, some, if◌then◌else◌, Error, wrap, Result, ok, err, error_text,
}
use helm_broker.Model.Addons.{AddonPlan, Namespace}
use helm_broker.Model.Charts.{Chart}
use helm_broker.Model.Instances.{ServiceInstance, InstanceCredentials}
use helm_broker.Model.Operations.{OperationState, succeeded, failed as operation_failed}
use helm_broker.Broker.Backend.{Backend}
use helm_broker.Broker.Bind.{BindingInput}

-- `isBindable`: a flag of the plan overrides that of the addon.
unfoldable pub is_bindable : AddonPlan → Bool → Bool
is_bindable plan is_addon_bindable = elim plan.bindable [
  | none ↦ is_addon_bindable
  | some flag ↦ flag
]

-- `bindTemplateRenderer` and `bindTemplateResolver`
pub record BindTemplates : Type 0 where
  pub render : Option String → ServiceInstance → Chart → Result String
  pub resolve : String → Namespace → Result InstanceCredentials

abbrev pub bind_state : Option Error → OperationState
bind_state none = succeeded
bind_state (some e) = operation_failed

abbrev pub bind_description : Option Error → String
bind_description none = "binding succeeded"
bind_description (some e) = "binding failed on error: " ++ error_text e

module _ {S : Type 0} (b : Backend S) (templates : BindTemplates) where
  -- `renderAndResolveBindData`, from the resolved credentials on
  unfoldable pub store_credentials :
      ServiceInstance → Result InstanceCredentials → S → Option Error × S
  store_credentials inst (err e) s = (some (wrap "while resolving bind yaml values" e), s)
  store_credentials inst (ok creds) s =
      let (e, s') = b.insert_bind_data (record { instance_id = inst.id; credentials = creds }) s in
      (
        elim e [
          | none ↦ none
          | some e' ↦ some (wrap "while inserting instance bind data to memory" e')
        ],
        s',
      )

  -- `renderAndResolveBindData`
  unfoldable pub render_and_resolve_bind_data :
      AddonPlan → ServiceInstance → Chart → S → Option Error × S
  unfolding store_credentials
  render_and_resolve_bind_data plan inst ch s = elim (templates.render plan.bind_template inst ch) [
    | err e ↦ (some (wrap "while rendering bind yaml template" e), s)
    | ok rendered ↦ store_credentials inst (templates.resolve rendered inst.namespace) s
  ]

  -- The branch of `fDo` for a plan that is bindable
  unfoldable pub resolve_binding : BindingInput → S → Option Error × S
  unfolding render_and_resolve_bind_data
  resolve_binding input s = elim (b.get_chart input.broker_namespace input.addon_plan.chart_ref s) [
    | err e ↦ (some (wrap "while getting chart from storage" e), s)
    | ok c ↦
        let (e, s') = render_and_resolve_bind_data input.addon_plan input.instance' c s in
        (elim e [ none ↦ none | some e' ↦ some (wrap "while resolving bind data" e') ], s')
  ]

  -- `fDo`
  unfoldable pub run_binding : BindingInput → S → Option Error × S
  unfolding resolve_binding is_bindable
  run_binding input s =
      if is_bindable input.addon_plan input.is_addon_bindable
      then resolve_binding input s
      else (none, s)

  -- `do`, the task: an error of its last write is only logged.
  unfoldable pub do_bind : BindingInput → S → S
  unfolding run_binding
  do_bind input s =
      let (e, s') = run_binding input s in
      (b.update_bind_operation input.instance'.id input.binding_id input.operation_id (bind_state e)
        (some (bind_description e)) s').1
