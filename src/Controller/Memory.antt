-- ===== src/Controller/Memory.antt =====
-- The services of the controller over the in-memory storage (internal/storage/driver/memory), in one
-- namespace. The rest of the services acts on a state of its own.
pub mod Forgetful
use helm_broker.Common.{ℕ, String, Bool, Option, some, List, Error, Result}
use helm_broker.Model.Addons.{Addon, AddonPlan, AddonName, Namespace, Version}
use helm_broker.Model.Charts.{Chart}
use helm_broker.Model.Configurations.{CommonAddon, SpecRepository}
use helm_broker.Storage.Addons
use helm_broker.Storage.Addons.{AddonStore}
use helm_broker.Storage.Charts
use helm_broker.Storage.Charts.{Charts}
use helm_broker.Controller.Services.{Services, Getter}

pub record Stored (T : Type 0) : Type 0 where
  pub addons : AddonStore
  pub charts : Charts
  pub outside : T

-- The services that are not the storage.
pub record Outside (T : Type 0) : Type 0 where
  pub ensure_asset_group : Addon → T → Option Error × T
  pub ensure_asset_group_removed : String → T → Option Error × T
  pub broker_exist : T → Result Bool
  pub sync_broker : T → Option Error × T
  pub list_configurations : T → Result (List CommonAddon)
  pub update_configuration : CommonAddon → T → Result ℕ × T
  pub update_configuration_status : CommonAddon → T → Option Error × T
  pub request_reprocess : String → T → Option Error × T
  pub template_url : SpecRepository → T → Result String
  pub new_getter : String → T → Result Getter
  pub parse_version : String → Option Version
  pub plan_order : List AddonPlan → List AddonPlan
  pub now : T → ℕ

module _ {T : Type 0} where
  abbrev on_addons : {R : Type 0} → (AddonStore → R × AddonStore) → Stored T → R × Stored T
  on_addons f s = let (r, t) = f s.addons in (r, record s { addons = t })

  abbrev on_charts : {R : Type 0} → (Charts → R × Charts) → Stored T → R × Stored T
  on_charts f s = let (r, t) = f s.charts in (r, record s { charts = t })

  abbrev on_outside : {R : Type 0} → (T → R × T) → Stored T → R × Stored T
  on_outside f s = let (r, t) = f s.outside in (r, record s { outside = t })

  abbrev pub in_memory : Namespace → Outside T → Services (Stored T)
  in_memory namespace o = record {
    upsert_addon = λ b. on_addons (Addons.upsert namespace (some b));
    get_addon = λ name version. on_addons (Addons.get namespace name version);
    remove_addon = λ name version. on_addons (Addons.remove namespace name version);
    upsert_chart = λ ch. on_charts (Charts.upsert namespace (some ch));
    remove_chart = λ name version. on_charts (Charts.remove namespace name version);
    ensure_asset_group = λ b. on_outside (o.ensure_asset_group b);
    ensure_asset_group_removed = λ i. on_outside (o.ensure_asset_group_removed i);
    broker_exist = λ s. o.broker_exist s.outside;
    sync_broker = on_outside o.sync_broker;
    list_configurations = λ s. o.list_configurations s.outside;
    update_configuration = λ a. on_outside (o.update_configuration a);
    update_configuration_status = λ a. on_outside (o.update_configuration_status a);
    request_reprocess = λ name. on_outside (o.request_reprocess name);
    template_url = λ spec s. o.template_url spec s.outside;
    new_getter = λ url s. o.new_getter url s.outside;
    parse_version = o.parse_version;
    plan_order = o.plan_order;
    now = λ s. o.now s.outside;
  }
