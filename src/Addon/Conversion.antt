-- ===== src/Addon/Conversion.antt =====
-- internal/addon/form.go: `ToModel` of a form and of its plans. A dereference of a nil pointer panics.
pub mod Valid
pub mod Plans
use Prim.Native.String.{◌++◌}
use helm_broker.Common.{
  String, Bool, Option, none, some, List, [], ◌∷◌, Error, plain, wrap, Result, ok, err,
  if◌then◌else◌, map,
}
use helm_broker.Common.Split.{split}
use helm_broker.Common.Outcomes.{Outcome, done, failed_with, panicked, wrap_outcome, and_then}
use helm_broker.Dict.{Dict, insert}
use helm_broker.Model.Addons.{Addon, AddonPlan, AddonMetadata, ChartRef, Version, unset, no_reason}
use helm_broker.Model.Charts.{Chart, ChartMetadata}
use helm_broker.Addon.Form.{Form, FormMeta, FormPlan, FormPlanMeta, Texts}

-- `MapLabelsToModel`, which copies the map.
abbrev map_labels_to_model : FormMeta → Option (Dict String)
map_labels_to_model m = some m.labels

-- The schemas of a plan, by their type.
abbrev put_schema : String → Option String → Dict String → Dict String
put_schema type none schemas = schemas
put_schema type (some schema) schemas = insert type schema schemas

abbrev mapped_schemas : FormPlan → Dict String
mapped_schemas p =
    put_schema "bind" p.schemas_bind
      (put_schema "provision" p.schemas_create (put_schema "update" p.schemas_update []))

abbrev pub plan_of : FormPlan → FormPlanMeta → ChartRef → AddonPlan
plan_of p m ref = record {
  id = m.id;
  name = m.name;
  description = m.description;
  schemas = mapped_schemas p;
  chart_ref = ref;
  chart_values = p.values;
  display_name = m.display_name;
  bindable = m.bindable;
  free = m.free;
  bind_template = p.bind_template;
}

abbrev plan_with : FormPlan → Option FormPlanMeta → ChartRef → Outcome AddonPlan
plan_with p none ref = panicked
plan_with p (some m) ref = done (plan_of p m ref)

abbrev docs_of : Option (List String) → List String
docs_of none = []
docs_of (some docs) = docs

module _ (x : Texts) where
  -- `MapTagsToModel`
  unfoldable pub map_tags_to_model : FormMeta → List String
  unfolding split
  map_tags_to_model m = map x.trim_space (split b',' m.tags)

  -- The reference of a chart, with the errors of `formPlan.ToModel`.
  unfoldable pub chart_ref_of : Option Chart → Outcome ChartRef
  chart_ref_of none = failed_with (plain "missing input param chart")
  chart_ref_of (some c) = elim c.metadata [
    | none ↦ failed_with (plain "missing Metadata field in input param chart")
    | some m ↦ elim (x.new_version m.version) [
      | err e ↦ failed_with (wrap "while converting chart string version to semver type" e)
      | ok version ↦ done (record { name = m.name; version = version })
    ]
  ]

  -- `formPlan.ToModel`
  unfoldable pub plan_to_model : Option Chart → FormPlan → Outcome AddonPlan
  unfolding chart_ref_of
  plan_to_model c p = and_then (chart_ref_of c) (plan_with p p.meta)

  -- The loop over the plans in `form.ToModel`, with the plans that are mapped so far; the key is the id of
  -- the plan's metadata, which is that of the mapped plan.
  unfoldable pub mapped_plans :
      Option Chart → Dict FormPlan → Dict AddonPlan → Outcome (Dict AddonPlan)
  unfolding plan_to_model insert
  mapped_plans c [] mapped = done mapped
  mapped_plans c ((name, p) ∷ plans) mapped =
      and_then
        (wrap_outcome ("while mapping to model " ++ (x.quote name ++ " plan")) (plan_to_model c p))
        (λ plan. mapped_plans c plans (insert plan.id plan mapped))

  abbrev addon_of : Form → FormMeta → Version → Dict AddonPlan → Addon
  unfolding map_tags_to_model
  addon_of f m version plans = record {
    id = m.id;
    name = m.name;
    version = version;
    description = m.description;
    plans = plans;
    metadata = record {
      display_name = m.display_name;
      provider_display_name = m.provider_display_name;
      long_description = m.long_description;
      documentation_url = m.documentation_url;
      support_url = m.support_url;
      provision_only_once = m.provision_only_once;
      image_url = m.image_url;
      labels = map_labels_to_model m;
    };
    repository_url = "";
    tags = map_tags_to_model m;
    requires = m.requires;
    bindable = m.bindable;
    bindings_retrievable = m.bindings_retrievable;
    plan_updatable = m.plan_updatable;
    docs = docs_of f.docs_meta;
    status = unset;
    reason = no_reason;
    message = "";
  }

  abbrev with_meta : Option Chart → Form → Option FormMeta → Outcome Addon
  unfolding mapped_plans addon_of
  with_meta c f none = panicked
  with_meta c f (some m) = elim (x.new_version m.version) [
    | err e ↦ failed_with (wrap "while converting form string version to semver type" e)
    | ok version ↦
        and_then (mapped_plans c (x.plan_order f.plans) [])
          (λ plans. done (addon_of f m version plans))
  ]

  -- `form.ToModel`
  unfoldable pub to_model : Option Chart → Form → Outcome Addon
  unfolding with_meta
  to_model c f = with_meta c f f.meta
