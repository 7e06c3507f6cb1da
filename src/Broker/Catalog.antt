-- ===== src/Broker/Catalog.antt =====
-- internal/broker/catalog.go: the services of the catalog that addons are shown as. The maps that `ToMap` makes of
-- the metadata are the library's; the metadata stands for them.
pub mod Plans
use helm_broker.Common.{
  String, Bool, true, false, Option, none, some, List, [], ◌∷◌, Error, Result, ok, err, wrap,
  if◌then◌else◌,
}
use helm_broker.Dict.{Dict, lookup, insert, values}
use helm_broker.Model.Addons.{Addon, AddonPlan, AddonMetadata}

-- `osb.ServiceInstanceSchema`, by the parameters of its two parts
pub record InstanceSchema : Type 0 where
  pub create : Option String
  pub update : Option String

-- `osb.Schemas`; the schema of bindings has only a part for creations.
pub record Schemas : Type 0 where
  pub service_instance : Option InstanceSchema
  pub service_binding : Option String

-- `osb.Plan`
pub record ServicePlan : Type 0 where
  pub id : String
  pub name : String
  pub bindable : Option Bool
  pub description : String
  pub display_name : String
  pub free : Option Bool
  pub schemas : Option Schemas

-- `osb.Service`
pub record Service : Type 0 where
  pub id : String
  pub name : String
  pub description : String
  pub bindable : Bool
  pub bindings_retrievable : Bool
  pub requires : List String
  pub plan_updatable : Option Bool
  pub plans : List ServicePlan
  pub metadata : AddonMetadata
  pub tags : List String

abbrev ensure_service_instances_init : Option InstanceSchema → InstanceSchema
ensure_service_instances_init none = record { create = none; update = none }
ensure_service_instances_init (some s) = s

-- The three steps of `mapToParametersSchemas`.
abbrev put_create : Option String → Schemas → Schemas
put_create none out = out
put_create (some schema) out = record out {
  service_instance =
      some (record (ensure_service_instances_init out.service_instance) { create = some schema });
}

abbrev put_update : Option String → Schemas → Schemas
put_update none out = out
put_update (some schema) out = record out {
  service_instance =
      some (record (ensure_service_instances_init out.service_instance) { update = some schema });
}

abbrev put_binding : Option String → Schemas → Schemas
put_binding none out = out
put_binding (some schema) out = record out { service_binding = some schema }

-- `mapToParametersSchemas`
unfoldable pub map_to_parameters_schemas : Dict String → Schemas
unfolding lookup
map_to_parameters_schemas schemas = put_binding (lookup "bind" schemas) (
    put_update (lookup "update" schemas) (
      put_create (lookup "provision" schemas)
        (record { service_instance = none; service_binding = none })))

-- The schemas of a plan that has any.
abbrev plan_schemas : Dict String → Option Schemas
unfolding map_to_parameters_schemas
plan_schemas [] = none
plan_schemas (s ∷ ss) = some (map_to_parameters_schemas (s ∷ ss))

abbrev pub service_plan : AddonPlan → ServicePlan
unfolding plan_schemas
service_plan p = record {
  id = p.id;
  name = p.name;
  bindable = p.bindable;
  description = p.description;
  display_name = p.display_name;
  free = p.free;
  schemas = plan_schemas p.schemas;
}

-- The loop over the plans.
unfoldable pub service_plans : List AddonPlan → List ServicePlan
unfolding service_plan
service_plans [] = []
service_plans (p ∷ ps) = service_plan p ∷ service_plans ps

abbrev labels_of : Option (Dict String) → Dict String
labels_of none = []
labels_of (some labels) = labels

-- `applyOverridesOnAddonMetadata`
unfoldable pub apply_overrides_on_addon_metadata : AddonMetadata → AddonMetadata
unfolding insert
apply_overrides_on_addon_metadata m =
    let labels = insert "local" "true" (labels_of m.labels) in
    record m {
      labels =
          some (if m.provision_only_once then insert "provisionOnlyOnce" "true" labels else labels);
    }

-- `Convert`; `order` is the order in which `range` visits the plans.
unfoldable pub convert : (List AddonPlan → List AddonPlan) → Addon → Service
unfolding service_plans apply_overrides_on_addon_metadata values
convert order a = record {
  id = a.id;
  name = a.name;
  description = a.description;
  bindable = a.bindable;
  bindings_retrievable = true;
  requires = a.requires;
  plan_updatable = a.plan_updatable;
  plans = service_plans (order (values a.plans));
  metadata = apply_overrides_on_addon_metadata a.metadata;
  tags = a.tags;
}

unfoldable pub convert_all : (List AddonPlan → List AddonPlan) → List Addon → List Service
unfolding convert
convert_all order [] = []
convert_all order (a ∷ as') = convert order a ∷ convert_all order as'

-- `GetCatalog`, by what `FindAll` returned. `Convert` returns no error.
unfoldable pub get_catalog :
    (List AddonPlan → List AddonPlan) → Result (List Addon) → Result (List Service)
unfolding convert_all
get_catalog order (err e) = err (wrap "while finding all addons" e)
get_catalog order (ok addons) = ok (convert_all order addons)
