-- ===== src/Model/Addons.antt =====
-- Addons and their plans, as the Open Service Broker API describes them.
use helm_broker.Common.{String, Bool, Option, List}
use helm_broker.Dict.{Dict}
use helm_broker.Model.Values.{Fields}

abbrev pub AddonId : Type 0
AddonId = String

abbrev pub AddonName : Type 0
AddonName = String

abbrev pub AddonPlanId : Type 0
AddonPlanId = String

abbrev pub Namespace : Type 0
Namespace = String

-- A `semver.Version`, by the two texts that the program reads: `Original()` and `String()`.
pub record Version : Type 0 where
  pub original : String
  pub canonical : String

pub record ChartRef : Type 0 where
  pub name : String
  pub version : Version

-- `ChartValues` that are nil are `none`.
abbrev pub ChartValues : Type 0
ChartValues = Option Fields

-- `PlanSchema` and the texts of the documentation are passed on and never read.
pub record AddonPlan : Type 0 where
  pub id : AddonPlanId
  pub name : String
  pub description : String
  pub schemas : Dict String
  pub chart_ref : ChartRef
  pub chart_values : ChartValues
  pub display_name : String
  pub bindable : Option Bool
  pub free : Option Bool
  pub bind_template : Option String

-- `Labels` that are nil are `none`.
pub record AddonMetadata : Type 0 where
  pub display_name : String
  pub provider_display_name : String
  pub long_description : String
  pub documentation_url : String
  pub support_url : String
  pub provision_only_once : Bool
  pub image_url : String
  pub labels : Option (Dict String)

pub data AddonStatus : Type 0 where
  unset ready failed : AddonStatus

pub data AddonStatusReason : Type 0 where
  no_reason : AddonStatusReason
  loading_error : AddonStatusReason
  fetching_error : AddonStatusReason
  conflict_in_specified_repositories : AddonStatusReason
  conflict_with_already_registered_addons : AddonStatusReason
  unregistering_error : AddonStatusReason
  registering_error : AddonStatusReason

pub record Addon : Type 0 where
  pub id : AddonId
  pub name : AddonName
  pub version : Version
  pub description : String
  pub plans : Dict AddonPlan
  pub metadata : AddonMetadata
  pub repository_url : String
  pub tags : List String
  pub requires : List String
  pub bindable : Bool
  pub bindings_retrievable : Bool
  pub plan_updatable : Option Bool
  pub docs : List String
  pub status : AddonStatus
  pub reason : AddonStatusReason
  pub message : String
