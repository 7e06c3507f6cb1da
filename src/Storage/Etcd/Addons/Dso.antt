-- ===== src/Storage/Etcd/Addons/Dso.antt =====
-- What internal/storage/driver/etcd/entity_addon.go stores of an addon, with the encoding of chart references of
-- internal/model.go.
use helm_broker.Common.{
  String, Bool, false, Option, none, List, [], ◌∷◌, Result, ok, err, wrap_result,
}
use helm_broker.Common.Outcomes.{Outcome, done, panicked, outcome_of, wrap_outcome, and_then}
use helm_broker.Dict.{Dict}
use helm_broker.Model.Addons.{
  Addon, AddonPlan, AddonMetadata, ChartRef, ChartValues, Version, unset, no_reason,
}
use helm_broker.Storage.Etcd.{Codec}

-- What `GobEncode` writes of a `ChartRef`.
pub record ChartRefDto : Type 0 where
  pub name : String
  pub version : String

-- `addonPlanDSO`; its chart reference stands as it is written. The chart values are JSON text.
pub record AddonPlanDso : Type 0 where
  pub id : String
  pub name : String
  pub description : String
  pub schemas : Dict String
  pub chart_ref : ChartRefDto
  pub chart_values : String
  pub display_name : String
  pub bind_template : Option String
  pub bindable : Option Bool
  pub free : Option Bool

-- `addonDSO`
pub record AddonDso : Type 0 where
  pub id : String
  pub name : String
  pub version : String
  pub description : String
  pub plans : Dict AddonPlanDso
  pub metadata : AddonMetadata
  pub tags : List String
  pub requires : List String
  pub bindable : Bool
  pub bindings_retrievable : Bool
  pub plan_updatable : Option Bool
  pub repository_url : String

-- The encodings that the store calls: `json.Marshal` and `json.Unmarshal` of chart values, `semver.NewVersion`, and
-- gob, which calls `GobEncode` and `GobDecode`.
pub record Encoding : Type 0 where
  pub values : Codec ChartValues
  pub new_version : String → Result Version
  pub gob : Codec AddonDso

-- `GobEncode`
abbrev pub gob_encode : ChartRef → ChartRefDto
gob_encode cr = record { name = cr.name; version = cr.version.canonical }

module _ (e : Encoding) where
  -- `GobDecode`: of a version that does not parse, the nil pointer is read.
  unfoldable pub gob_decode : ChartRefDto → Outcome ChartRef
  gob_decode dto = elim (e.new_version dto.version) [
    | err x ↦ panicked
    | ok ver ↦ done (record { name = dto.name; version = ver })
  ]

  -- `newAddonPlanDSO`, with `newChartValuesDSO`
  unfoldable pub new_addon_plan_dso : AddonPlan → Result AddonPlanDso
  new_addon_plan_dso plan =
      elim (wrap_result "while converting AddonPlan to DSO"
        (wrap_result "while converting ChartValues to DSO" (e.values.encode plan.chart_values))) [
          | err x ↦ err x
          | ok values ↦ ok (record {
            id = plan.id;
            name = plan.name;
            description = plan.description;
            schemas = plan.schemas;
            chart_ref = gob_encode plan.chart_ref;
            chart_values = values;
            display_name = plan.display_name;
            bind_template = plan.bind_template;
            bindable = plan.bindable;
            free = none;
          })
        ]

  -- The loop of `newAddonDSO`.
  unfoldable pub plan_dsos : Dict AddonPlan → Result (Dict AddonPlanDso)
  unfolding new_addon_plan_dso
  plan_dsos [] = ok []
  plan_dsos ((k, plan) ∷ rest) =
      let later = plan_dsos rest in
      elim (wrap_result "while converting Addon to DSO" (new_addon_plan_dso plan)) [
        | err x ↦ err x
        | ok dso ↦ elim later [ err x ↦ err x | ok dsos ↦ ok ((k, dso) ∷ dsos) ]
      ]

  abbrev pub dso_of : Addon → Dict AddonPlanDso → AddonDso
  dso_of a plans = record {
    id = a.id;
    name = a.name;
    version = a.version.canonical;
    description = a.description;
    plans = plans;
    metadata = a.metadata;
    tags = a.tags;
    requires = [];
    bindable = a.bindable;
    bindings_retrievable = false;
    plan_updatable = none;
    repository_url = a.repository_url;
  }

  -- `newAddonDSO`
  unfoldable pub new_addon_dso : Addon → Result AddonDso
  unfolding plan_dsos
  new_addon_dso a = elim (plan_dsos a.plans) [ err x ↦ err x | ok plans ↦ ok (dso_of a plans) ]

  -- `encodeDMToDSO`
  unfoldable pub encode_addon : Addon → Result String
  unfolding new_addon_dso
  encode_addon a = elim (wrap_result "while encoding Addon to DSO" (new_addon_dso a)) [
    | err x ↦ err x
    | ok dso ↦ wrap_result "while encoding entity" (e.gob.encode dso)
  ]

  -- `ToModel` of a plan, from its chart reference on.
  abbrev plan_model : AddonPlanDso → ChartRef → ChartValues → AddonPlan
  plan_model dso ref values = record {
    id = dso.id;
    name = dso.name;
    description = dso.description;
    schemas = dso.schemas;
    chart_ref = ref;
    chart_values = values;
    display_name = dso.display_name;
    bindable = dso.bindable;
    free = dso.free;
    bind_template = dso.bind_template;
  }

  -- `ToModel` of a plan, with that of the chart values
  unfoldable pub plan_to_model : AddonPlanDso → ChartRef → Outcome AddonPlan
  plan_to_model dso ref =
      and_then
        (outcome_of (
          wrap_result "while converting addonPlanDSO to model" (
            wrap_result "while converting ChartValuesDSO to model"
              (e.values.decode dso.chart_values))))
        (λ values. done (plan_model dso ref values))

  -- The chart references, which gob decodes with the plans, before any plan is converted.
  unfoldable pub decode_refs : Dict AddonPlanDso → Outcome (Dict (AddonPlanDso × ChartRef))
  unfolding gob_decode
  decode_refs [] = done []
  decode_refs ((k, dso) ∷ rest) =
      let later = decode_refs rest in
      and_then (gob_decode dso.chart_ref)
        (λ ref. and_then later (λ dsos. done ((k, (dso, ref)) ∷ dsos)))

  -- The loop of `NewModel`.
  unfoldable pub plan_models : Dict (AddonPlanDso × ChartRef) → Outcome (Dict AddonPlan)
  unfolding plan_to_model
  plan_models [] = done []
  plan_models ((k, (dso, ref)) ∷ rest) =
      let later = plan_models rest in
      and_then (wrap_outcome "while converting AddonDSO to model" (plan_to_model dso ref))
        (λ plan. and_then later (λ plans. done ((k, plan) ∷ plans)))

  abbrev pub model_of : AddonDso → Dict AddonPlan → Version → Addon
  model_of dto plans ver = record {
    id = dto.id;
    name = dto.name;
    version = ver;
    description = dto.description;
    plans = plans;
    metadata = dto.metadata;
    repository_url = dto.repository_url;
    tags = dto.tags;
    requires = dto.requires;
    bindable = dto.bindable;
    bindings_retrievable = dto.bindings_retrievable;
    plan_updatable = dto.plan_updatable;
    docs = [];
    status = unset;
    reason = no_reason;
    message = "";
  }

  -- `NewModel`, after the chart references are decoded.
  unfoldable pub new_model : AddonDso → Dict (AddonPlanDso × ChartRef) → Outcome Addon
  unfolding plan_models
  new_model dto decoded = and_then (plan_models decoded) (λ plans.
      and_then (outcome_of (wrap_result "while decoding version" (e.new_version dto.version)))
        (λ ver. done (model_of dto plans ver)))

  -- `decodeDSOToDM`
  unfoldable pub decode_addon : String → Outcome Addon
  unfolding decode_refs new_model
  decode_addon text =
      and_then (outcome_of (wrap_result "while decoding DSO" (e.gob.decode text))) (λ dso.
        and_then (decode_refs dso.plans)
          (λ decoded. wrap_outcome "while creating model from DSO" (new_model dso decoded)))
