-- ===== src/Controller/Services.antt =====
-- What the controller calls (the interfaces of internal/controller/ext.go and common.go), over a state
-- that an implementation chooses, and its tasks: functions on the state that may fail or panic.
pub mod Inversion
use helm_broker.Common.{
  ℕ, String, Bool, true, false, Option, none, some, List, Error, Result, ok, err, wrap,
}
pub use helm_broker.Common.Outcomes.{Outcome, done, failed_with, panicked, outcome_of, wrap_outcome}
use helm_broker.Model.Addons.{Addon, AddonPlan, AddonName, Version}
use helm_broker.Model.Charts.{Chart}
use helm_broker.Model.Configurations.{CommonAddon, SpecRepository, AddonWithCharts, IndexEntry}

-- `addonGetter`: the index's entries in the order in which `range` visits them.
pub record Getter : Type 0 where
  pub get_index : Result (List IndexEntry)
  pub get_complete_addon : IndexEntry → Result AddonWithCharts

pub record Services (S : Type 0) : Type 0 where
  -- addonStorage and chartStorage, in the controller's namespace
  pub upsert_addon : Addon → S → Result Bool × S
  pub get_addon : AddonName → Version → S → Result Addon × S
  pub remove_addon : AddonName → Version → S → Option Error × S
  pub upsert_chart : Chart → S → Result Bool × S
  pub remove_chart : String → Version → S → Option Error × S
  -- docsProvider
  pub ensure_asset_group : Addon → S → Option Error × S
  pub ensure_asset_group_removed : String → S → Option Error × S
  -- brokerFacade and brokerSyncer
  pub broker_exist : S → Result Bool
  pub sync_broker : S → Option Error × S
  -- commonClient; an update returns the generation that the cluster gave the configuration
  pub list_configurations : S → Result (List CommonAddon)
  pub update_configuration : CommonAddon → S → Result ℕ × S
  pub update_configuration_status : CommonAddon → S → Option Error × S
  pub request_reprocess : String → S → Option Error × S
  -- templateService and addonGetterFactory
  pub template_url : SpecRepository → S → Result String
  pub new_getter : String → S → Result Getter
  -- `semver.NewVersion`: `none` where `semver.MustParse` panics
  pub parse_version : String → Option Version
  -- the order in which `range` visits the plans of an addon
  pub plan_order : List AddonPlan → List AddonPlan
  -- the clock
  pub now : S → ℕ

abbrev pub Task : Type 0 → Type 0 → Type 0
Task S A = S → Outcome A × S

abbrev pub NoResult : Type 0
NoResult = Unit {0}

abbrev pub outcome_of_error : Option Error → Outcome NoResult
outcome_of_error none = done tt
outcome_of_error (some e) = failed_with e

module _ {S A : Type 0} where
  abbrev pub return : A → Task S A
  return a s = (done a, s)

  abbrev pub throw : Error → Task S A
  throw e s = (failed_with e, s)

  unfoldable pub wrapping : String → Task S A → Task S A
  wrapping message m s = let (r, s') = m s in (wrap_outcome message r, s')

module _ {S : Type 0} where
  -- A call that returns no more than an error.
  abbrev pub call : (S → Option Error × S) → Task S NoResult
  call f s = let (e, s') = f s in (outcome_of_error e, s')

module _ {S A B : Type 0} where
  abbrev pub continue : Outcome A → (A → Task S B) → Task S B
  continue (done a) f s = f a s
  continue (failed_with e) f s = (failed_with e, s)
  continue panicked f s = (panicked, s)

  infixl 10 ◌>>=◌
  unfoldable pub ◌>>=◌ : Task S A → (A → Task S B) → Task S B
  unfolding wrapping
  ◌>>=◌ m f s = let (r, s') = m s in continue r f s'

module _ {S B : Type 0} where
  infixl 10 ◌>>◌
  abbrev pub ◌>>◌ : Task S NoResult → Task S B → Task S B
  m >> k = m >>= λ _. k
