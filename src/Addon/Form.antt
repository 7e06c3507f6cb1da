-- ===== src/Addon/Form.antt =====
-- internal/addon/form.go: the files of an addon, their validation, and the addon that they make.
use Prim.Native.String.{◌++◌}
use helm_broker.Common.{
  String, Bool, true, false, not, ◌&&◌, Option, none, some, List, [], ◌∷◌, ◌++◌ as ◌+++◌, Error,
  plain, wrap, error_text, Result, is_empty, if◌then◌else◌, length, nat_eq,
}
use helm_broker.Common.Split.{join}
use helm_broker.Dict.{Dict}
use helm_broker.Model.Addons.{ChartValues, Version}

-- `FormMeta`
pub record FormMeta : Type 0 where
  pub id : String
  pub name : String
  pub version : String
  pub description : String
  pub display_name : String
  pub tags : String
  pub provider_display_name : String
  pub long_description : String
  pub documentation_url : String
  pub support_url : String
  pub image_url : String
  pub bindable : Bool
  pub provision_only_once : Bool
  pub labels : Dict String
  pub requires : List String
  pub bindings_retrievable : Bool
  pub plan_updatable : Option Bool

pub record FormPlanMeta : Type 0 where
  pub id : String
  pub name : String
  pub description : String
  pub display_name : String
  pub bindable : Option Bool
  pub free : Option Bool

pub record FormPlan : Type 0 where
  pub meta : Option FormPlanMeta
  pub schemas_create : Option String
  pub schemas_bind : Option String
  pub schemas_update : Option String
  pub values : ChartValues
  pub bind_template : Option String

-- `form`; the docs are those of `DocsMeta`, where the addon has that file.
pub record Form : Type 0 where
  pub meta : Option FormMeta
  pub docs_meta : Option (List String)
  pub plans : Dict FormPlan

-- `errors.New(strings.Join(messages, ", "))`, if there are messages
unfoldable pub joined : List String → Option Error
unfolding join
joined [] = none
joined (m ∷ ms) = some (plain (join ", " (m ∷ ms)))

-- The message for a field that is not set.
abbrev pub missing : String → String → List String
missing value message = if is_empty value then message ∷ [] else []

-- `FormMeta.Validate`
unfoldable pub validate_meta : FormMeta → Option Error
unfolding joined
validate_meta m = joined (
    missing m.id "missing ID field"
    +++ (missing m.name "missing Name field"
        +++ (missing m.version "missing Version field"
            +++ (missing m.description "missing Description field"
                +++ missing m.display_name "missing displayName field"))))

-- `DocsMeta.Validate`
unfoldable pub validate_docs : List String → Option Error
unfolding joined
validate_docs docs =
    joined
      (if not (nat_eq (length docs) 1) then "docs array should have at most one entry" ∷ [] else [])

-- `formPlanMeta.Validate`
unfoldable pub validate_plan_meta : FormPlanMeta → Option Error
unfolding joined
validate_plan_meta m = joined (
    missing m.id "missing ID field"
    +++ (missing m.name "missing Name field"
        +++ (missing m.description "missing Description field"
            +++ missing m.display_name "missing displayName field")))

abbrev is_true : Option Bool → Bool
is_true none = false
is_true (some b) = b

abbrev is_absent : Option String → Bool
is_absent none = true
is_absent (some t) = false

abbrev wrapped : String → Option Error → Option Error
wrapped message none = none
wrapped message (some e) = some (wrap message e)

-- `formPlan.Validate`
unfoldable pub validate_plan : FormPlan → Option Error
unfolding validate_plan_meta
validate_plan p = elim p.meta [
  | none ↦ some (
      plain
        "missing metadata information about plan. Please check if plan contains \"meta.yaml\" file")
  | some m ↦
      if is_true m.bindable && is_absent p.bind_template
      then some (
          plain ("plans is marked as bindable but bind.yaml file was not found in plan " ++ m.name))
      else wrapped "while validating plan meta" (validate_plan_meta m)
]

-- The message for an error, if there is one.
abbrev pub message_of : String → Option Error → List String
message_of text none = []
message_of text (some e) = (text ++ error_text e) ∷ []

-- What the form takes from outside: `%q` of `fmt`, `strings.TrimSpace`, `semver.NewVersion`, and the order in
-- which `range` visits the plans.
pub record Texts : Type 0 where
  pub quote : String → String
  pub trim_space : String → String
  pub new_version : String → Result Version
  pub plan_order : Dict FormPlan → Dict FormPlan

abbrev pub absent_message : {A : Type 0} → Option A → List String
absent_message none =
    "missing metadata information about addon. Please check if addon contains \"meta.yaml\" file"
    ∷ []
absent_message (some m) = []

abbrev pub no_plan_message : Dict FormPlan → List String
no_plan_message [] = "addon does not contains any plans" ∷ []
no_plan_message (p ∷ ps) = []

module _ (x : Texts) where
  -- The loop over the plans in `Validate`.
  unfoldable pub plan_messages : Dict FormPlan → List String
  unfolding validate_plan
  plan_messages [] = []
  plan_messages ((name, plan) ∷ plans) =
      message_of ("while validating " ++ (x.quote name ++ " plan: ")) (validate_plan plan)
      +++ plan_messages plans

  unfoldable pub meta_messages : Option FormMeta → List String
  unfolding validate_meta
  meta_messages none = []
  meta_messages (some m) = message_of "while validating addon meta: " (validate_meta m)

  unfoldable pub docs_messages : Option (List String) → List String
  unfolding validate_docs
  docs_messages none = []
  docs_messages (some docs) = message_of "while validating addon docs meta: " (validate_docs docs)

  -- `form.Validate`
  unfoldable pub validate : Form → Option Error
  unfolding plan_messages meta_messages docs_messages joined
  validate f = joined (
      absent_message f.meta
      +++ (no_plan_message f.plans
          +++ (plan_messages (x.plan_order f.plans)
              +++ (meta_messages f.meta +++ docs_messages f.docs_meta))))
