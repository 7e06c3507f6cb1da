-- ===== src/Model/Instances.antt =====
-- Service instances and the data that is kept for their bindings.
use helm_broker.Common.{
  ℕ, String, Bool, true, false, Option, List, [], ◌∷◌, ◌==◌, not, if◌then◌else◌, ◌≡◌, ◌&&◌, ◌⊎◌,
  inl, inr, Every, eq_iff, arith, Bool-cases,
}
use helm_broker.Dict.{Dict}
use helm_broker.Model.Values.{Fields}
use helm_broker.Model.Addons.{Addon, Namespace}
use helm_broker.Model.Operations.{InstanceId, RequestParameters}

pub record ReleaseInfo : Type 0 where
  pub release_time : ℕ
  pub revision : ℕ
  pub config_values : Option Fields

pub record ServiceInstance : Type 0 where
  pub id : InstanceId
  pub service_id : String
  pub service_plan_id : String
  pub release_name : String
  pub namespace : Namespace
  pub release_info : ReleaseInfo
  pub provisioning_parameters : Option RequestParameters
  pub params_hash : String

abbrev pub InstanceCredentials : Type 0
InstanceCredentials = Dict String

pub record InstanceBindData : Type 0 where
  pub instance_id : InstanceId
  pub credentials : InstanceCredentials

-- The loop of `IsProvisioningAllowed`.
no_instance_of : Addon → Namespace → List ServiceInstance → Bool
no_instance_of b namespace [] = true
no_instance_of b namespace (instance' ∷ collection) =
    let rest = no_instance_of b namespace collection in
    if not (namespace == instance'.namespace)
    then rest
    else if b.id == instance'.service_id
    then false
    else rest

-- `Addon.IsProvisioningAllowed`
unfoldable pub is_provisioning_allowed : Addon → Namespace → List ServiceInstance → Bool
unfolding no_instance_of
is_provisioning_allowed b namespace collection =
    if not b.metadata.provision_only_once then true else no_instance_of b namespace collection

no_instance_of-Every :
    (b : Addon) (namespace : Namespace) (collection : List ServiceInstance)
    → no_instance_of b namespace collection ≡ true
    → Every (λ i. ((i.namespace == namespace) && (i.service_id == b.id)) ≡ false) collection
unfolding no_instance_of Every
no_instance_of-Every b namespace [] h = tt
no_instance_of-Every b namespace (i ∷ is) h = (
  ground (
    arith,
    h,
    eq_iff namespace i.namespace,
    eq_iff i.namespace namespace,
    eq_iff b.id i.service_id,
    eq_iff i.service_id b.id,
  ),
  no_instance_of-Every b namespace is (ground (arith, h)),
)

-- What is allowed: the addon is not for one instance only, or the namespace has none of its instances.
pub is_provisioning_allowed-Every :
    (b : Addon) (namespace : Namespace) (collection : List ServiceInstance)
    → is_provisioning_allowed b namespace collection ≡ true
    → (b.metadata.provision_only_once ≡ false)
      ⊎ Every (λ i. ((i.namespace == namespace) && (i.service_id == b.id)) ≡ false) collection
unfolding is_provisioning_allowed
is_provisioning_allowed-Every b namespace collection h =
    elim (Bool-cases b.metadata.provision_only_once) [
      | inl q ↦ inr (no_instance_of-Every b namespace collection (ground (arith, h, q)))
      | inr q ↦ inl q
    ]
