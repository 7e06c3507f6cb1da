-- ===== src/Addon/Loader.antt =====
-- internal/addon/loader.go: `loadDir`, the loading of an addon from a directory. The file system, the parsers of
-- YAML and JSON and Helm's loader of charts are a parameter.
pub mod Loaded
pub mod Archive
use Prim.Native.String.{◌++◌}
use helm_broker.Common.{
  ℕ, String, Bool, true, false, Option, none, some, List, [], ◌∷◌, Error, plain, wrap, Result, ok,
  err, wrap_result, if◌then◌else◌, leb,
}
use helm_broker.Common.Split.{join}
use helm_broker.Broker.ReleaseName.{byte_length}
use helm_broker.Common.Outcomes.{
  Outcome, done, failed_with, panicked, wrap_outcome, and_then, outcome_of,
}
use helm_broker.Dict.{Dict, insert}
use helm_broker.Model.Addons.{Addon, ChartValues}
use helm_broker.Model.Charts.{Chart}
use helm_broker.Addon.Form.{Form, FormMeta, FormPlan, FormPlanMeta, Texts, validate}
use helm_broker.Addon.Conversion.{to_model}

-- A read of a file or a directory: what it gives, or an error, of which `os.IsNotExist` is told apart.
pub data Read (A : Type 0) : Type 0 where
  content : A → Read A
  not_exist : Error → Read A
  unreadable : Error → Read A

-- `os.FileInfo`
pub record FileInfo : Type 0 where
  pub name : String
  pub is_dir : Bool

pub record Directory : Type 0 where
  -- the name of the directory of the chart, its entries, and the charts in it
  pub chart_dir : String
  pub chart_entries : Read (List FileInfo)
  pub load_chart : String → Read Chart
  -- the files of the addon, the directory of plans, and a file of a plan
  pub meta_file : Read String
  pub docs_file : Read String
  pub plan_entries : Read (List FileInfo)
  pub plan_path : String → Option Error
  pub plan_file : String → String → Read String
  -- `yaml.Unmarshal` and `json.Unmarshal` into the fields of a form
  pub parse_meta : String → Result (Option FormMeta)
  pub parse_docs : String → Result (Option (List String))
  pub parse_plan_meta : String → Result (Option FormPlanMeta)
  pub parse_values : String → Result ChartValues
  pub parse_schema : String → Result String

module _ {A B : Type 0} where
  abbrev then_result : Result A → (A → Result B) → Result B
  then_result (ok a) f = f a
  then_result (err e) f = err e

-- The directories of `splitForDirectoriesAndFiles`.
directories : List FileInfo → List String
directories [] = []
directories (f ∷ fs) = let rest = directories fs in if f.is_dir then f.name ∷ rest else rest

-- The choice of a directory in `discoverPathToHelmChart`.
only_directory : List String → Result String
only_directory [] =
    err (plain "\"chart\" directory SHOULD contain one Helm Chart folder but it's empty")
only_directory (d ∷ []) = ok d
only_directory (d ∷ e ∷ ds) = err (
    plain (
      "\"chart\" directory MUST contain only one Helm Chart folder but found multiple directories: ["
      ++ (join ", " (d ∷ e ∷ ds) ++ "]")))

module _ (dir : Directory) where
  -- `discoverPathToHelmChart`
  unfoldable pub discover_path_to_helm_chart : Result String
  unfolding directories only_directory
  discover_path_to_helm_chart = elim dir.chart_entries [
    | content fs ↦ only_directory (directories fs)
    | not_exist e ↦ err (plain "addon does not contains \"chart\" directory")
    | unreadable e ↦ err (wrap ("while reading directory " ++ dir.chart_dir) e)
  ]

  abbrev chart_read : Read Chart → Result Chart
  chart_read (content c) = ok c
  chart_read (not_exist e) = err (plain "addon does not contains \"chart\" directory")
  chart_read (unreadable e) = err (wrap "while loading chart" e)

  -- `loadChartFromDir`
  unfoldable pub load_chart_from_dir : Result Chart
  unfolding discover_path_to_helm_chart
  load_chart_from_dir =
      then_result
        (wrap_result
          "while discovering the name of the Helm Chart under the \"chart\" addon directory"
          discover_path_to_helm_chart)
        (λ path. chart_read (dir.load_chart path))

  -- `yamlUnmarshal` of the required metadata of a plan, and of its values, which it may lack.
  abbrev plan_meta_read : Read String → Result (Option FormPlanMeta)
  plan_meta_read (content b) = dir.parse_plan_meta b
  plan_meta_read (not_exist e) = err (plain "\"meta.yaml\" is required but is not present")
  plan_meta_read (unreadable e) = err e

  abbrev values_read : Read String → Result ChartValues
  values_read (content b) = dir.parse_values b
  values_read (not_exist e) = ok none
  values_read (unreadable e) = err e

  abbrev parsed_schema : String → String → Result (Option String)
  parsed_schema file_name b =
      if leb 65536 (byte_length b)
      then err (plain ("schema " ++ (file_name ++ " is larger than 64 kB")))
      else wrap_result "while loading plan shcema"
          (then_result (dir.parse_schema b) (λ s. ok (some s)))

  -- `loadPlanSchema`, and the word of its caller.
  abbrev schema_read : String → Read String → Result (Option String)
  schema_read file_name (content b) = parsed_schema file_name b
  schema_read file_name (not_exist e) = ok none
  schema_read file_name (unreadable e) = err (wrap "while loading plan schema" e)

  abbrev unmarshaled : {A : Type 0} → String → Result A → Result A
  unmarshaled file_name = wrap_result ("while unmarshaling plan \"" ++ (file_name ++ "\" file"))

  load_plan_schema : String → String → Result (Option String)
  load_plan_schema plan file_name =
      unmarshaled file_name (schema_read file_name (dir.plan_file plan file_name))

  -- `loadRaw`
  abbrev raw_read : Read String → Result (Option String)
  raw_read (content b) = ok (some b)
  raw_read (not_exist e) = ok none
  raw_read (unreadable e) = err e

  -- `loadPlanDefinition`
  unfoldable pub load_plan_definition : String → Result FormPlan
  unfolding load_plan_schema
  load_plan_definition plan = elim (dir.plan_path plan) [
    | some e ↦ err e
    | none ↦
        then_result (unmarshaled "meta.yaml" (plan_meta_read (dir.plan_file plan "meta.yaml")))
          λ meta.
            then_result (unmarshaled "values.yaml" (values_read (dir.plan_file plan "values.yaml")))
              λ values. then_result (load_plan_schema plan "create-instance-schema.json") λ create.
                then_result (load_plan_schema plan "bind-instance-schema.json") λ bind.
                  then_result (load_plan_schema plan "update-instance-schema.json") λ update.
                    then_result
                      (wrap_result "while loading plan \"bind.yaml\" file"
                        (raw_read (dir.plan_file plan "bind.yaml")))
                      λ template. ok (record {
                        meta = meta;
                        schemas_create = create;
                        schemas_bind = bind;
                        schemas_update = update;
                        values = values;
                        bind_template = template;
                      })
  ]

  -- The loop over the directories of plans.
  load_plans : List String → Dict FormPlan → Result (Dict FormPlan)
  unfolding load_plan_definition insert
  load_plans [] plans = ok plans
  load_plans (name ∷ names) plans =
      then_result (load_plan_definition name) (λ plan. load_plans names (insert name plan plans))

  abbrev meta_read : Read String → Result (Option FormMeta)
  meta_read (content b) =
      wrap_result "while unmarshaling addon \"meta.yaml\" file" (dir.parse_meta b)
  meta_read (not_exist e) = err (
      plain
        "missing metadata information about addon, please check if addon contains \"meta.yaml\" file")
  meta_read (unreadable e) = err (wrap "while reading \"meta.yaml\" file" e)

  -- A docs file that does not exist is parsed as an empty one.
  abbrev docs_read : Read String → Result (Option (List String))
  docs_read (content b) =
      wrap_result "while unmarshaling addon \"docs/meta.yaml\" file" (dir.parse_docs b)
  docs_read (not_exist e) =
      wrap_result "while unmarshaling addon \"docs/meta.yaml\" file" (dir.parse_docs "")
  docs_read (unreadable e) = err (wrap "while reading \"docs/meta.yaml\" file" e)

  plans_read : Read (List FileInfo) → Result (Dict FormPlan)
  unfolding load_plans directories
  plans_read (content fs) = load_plans (directories fs) []
  plans_read (not_exist e) = err (
      plain "addon does not contains any plans, please check if addon contains \"plans\" directory")
  plans_read (unreadable e) = err (wrap "while reading \"meta.yaml\" file" e)

  -- `createFormFromAddonDir`
  unfoldable pub create_form_from_addon_dir : Result Form
  unfolding plans_read
  create_form_from_addon_dir = then_result (meta_read dir.meta_file) λ meta.
      then_result (docs_read dir.docs_file) λ docs.
        then_result (plans_read dir.plan_entries)
          λ plans. ok (record { meta = meta; docs_meta = docs; plans = plans })

  module _ (x : Texts) (order : Dict FormPlan → Dict FormPlan) where
    -- `loadDir` from the validation of the form on; `order` is the order of `ToModel`.
    abbrev loaded_form : Chart → Form → Option Error → Outcome (Addon × List Chart)
    unfolding to_model
    loaded_form c f (some e) = failed_with (wrap "while validating form" e)
    loaded_form c f none =
        and_then
          (wrap_outcome "while mapping form to model"
            (to_model (record x { plan_order = order }) (some c) f))
          (λ a. done (a, c ∷ []))

    -- `loadDir`
    unfoldable pub load_dir : Outcome (Addon × List Chart)
    unfolding load_chart_from_dir create_form_from_addon_dir validate loaded_form
    load_dir = and_then (wrap_outcome "while loading chart" (outcome_of load_chart_from_dir)) λ c.
        and_then
          (wrap_outcome "while mapping buffered files to form"
            (outcome_of create_form_from_addon_dir))
          λ f. loaded_form c f (validate x f)
