-- ===== src/Controller/Registration.antt =====
-- The registration of the broker of a namespace and of the cluster's: internal/controller/broker_controller.go and
-- cluster_broker_controller.go, with the facades of internal/controller/broker and the checks for instances of
-- internal/controller/instance. The two are the same code, with other words and other kinds of objects.
pub mod Exists
pub mod Sync
mod Tests
use Prim.Native.String.{◌++◌}
use helm_broker.Common.{
  ℕ, zero, suc, ◌+◌, String, Bool, true, false, not, ◌&&◌, ◌||◌, ◌==◌, Option, none, some, List, [],
  ◌∷◌, Error, plain, wrap, Result, ok, err, if◌then◌else◌, exists_in,
}

-- The errors of the Kubernetes client that the code tells apart.
pub data Failure : Type 0 where
  absent : Failure
  present : Failure
  conflict : Failure
  other : Error → Failure

abbrev pub error_of_failure : Failure → Error
error_of_failure absent = plain "not found"
error_of_failure present = plain "already exists"
error_of_failure conflict = plain "conflict"
error_of_failure (other e) = e

-- A service class, by its name and its broker's.
pub record ServiceClass : Type 0 where
  pub name : String
  pub broker_name : String

-- The client in one namespace, or of the cluster's objects. A broker is known by its relist requests, an instance by the class that it
-- refers to, if it does, and configurations by their number.
pub record Kube (S : Type 0) : Type 0 where
  pub get_broker : S → Option Failure × ℕ
  pub create_broker : S → Option Failure × S
  pub delete_broker : S → Option Failure × S
  pub update_broker : ℕ → S → Option Failure × S
  pub list_configurations : S → Result ℕ
  pub list_instances : S → Result (List (Option String))
  pub list_classes : S → Result (List ServiceClass)

abbrev pub namespaced_broker_name : String
namespaced_broker_name = "helm-broker"

-- The words in which the two facades differ, and the name that classes have of their broker.
pub record Words : Type 0 where
  pub checking : String
  pub waiting : String
  pub broker_name : String

abbrev pub namespaced : Words
namespaced = record {
  checking = "while checking if ServiceBroker exists";
  waiting = "while waiting for service broker creation";
  broker_name = namespaced_broker_name;
}

abbrev pub cluster_wide : String → Words
cluster_wide name = record {
  checking = "while checking if ClusterServiceBroker exists";
  waiting = "while waiting for cluster service broker creation";
  broker_name = name;
}

abbrev pub positive : ℕ → Bool
positive zero = false
positive (suc n) = true

-- The instance's class is one of the broker.
abbrev is_of_broker : String → List ServiceClass → Option String → Bool
unfolding exists_in
is_of_broker broker classes none = false
is_of_broker broker classes (some name) =
    exists_in (λ c. (c.name == name) && (c.broker_name == broker)) classes

module _ {S : Type 0} (kube : Kube S) (words : Words) where
  abbrev existence : Option Failure → Result Bool
  existence none = ok true
  existence (some absent) = ok false
  existence (some present) = err (wrap words.checking (error_of_failure present))
  existence (some conflict) = err (wrap words.checking (error_of_failure conflict))
  existence (some (other e)) = err (wrap words.checking e)

  -- `Exist`
  unfoldable pub exist : S → Result Bool
  exist s = existence (kube.get_broker s).0

  abbrev deletion : Option Failure → Option Error
  deletion none = none
  deletion (some absent) = none
  deletion (some present) = some (error_of_failure present)
  deletion (some conflict) = some (error_of_failure conflict)
  deletion (some (other e)) = some e

  -- `Delete`
  unfoldable pub delete : S → Option Error × S
  delete s = let (e, s') = kube.delete_broker s in (deletion e, s')

  -- `createServiceBroker`: a broker that exists is read.
  abbrev created : Option Failure × S → Option Failure × S
  created (none, s) = (none, s)
  created (some present, s) = ((kube.get_broker s).0, s)
  created (some absent, s) = (some absent, s)
  created (some conflict, s) = (some conflict, s)
  created (some (other e), s) = (some (other e), s)

  abbrev is_registered : Option Failure → Bool
  is_registered none = true
  is_registered (some present) = true
  is_registered (some absent) = false
  is_registered (some conflict) = false
  is_registered (some (other e)) = false

  -- The polling of `Create`, with the attempts that the time allows.
  poll : ℕ → S → Option Error × S
  poll zero s = (some (wrap words.waiting (plain "timed out waiting for the condition")), s)
  poll (suc n) s =
      let (e, s') = created (kube.create_broker s) in
      let rest = poll n s' in if is_registered e then (none, s') else rest

  -- `Create`
  unfoldable pub create : ℕ → S → Option Error × S
  unfolding poll
  create attempts s = poll attempts s

  -- `AnyServiceInstanceExistsForNamespacedServiceBroker`
  unfoldable pub any_instance : S → Result Bool
  unfolding exists_in is_of_broker
  any_instance s = elim (kube.list_instances s) [
    | err e ↦ err e
    | ok [] ↦ ok false
    | ok (i ∷ is) ↦ elim (kube.list_classes s) [
      | err e ↦ err e
      | ok classes ↦ ok (exists_in (is_of_broker words.broker_name classes) (i ∷ is))
    ]
  ]

  -- `Reconcile` from the decision on.
  settle : ℕ → Bool → Bool → S → Option Error × S
  unfolding create delete
  settle attempts registered needed s =
      if registered && not needed
      then delete s
      else if not registered && needed
      then create attempts s
      else (none, s)

  -- `Reconcile`; `attempts` are those of `Create`.
  unfoldable pub reconcile_broker : ℕ → S → Option Error × S
  unfolding settle exist any_instance
  reconcile_broker attempts s = elim (exist s) [
    | err e ↦ (some e, s)
    | ok registered ↦ elim (kube.list_configurations s) [
      | err e ↦ (some e, s)
      | ok n ↦ elim (any_instance s) [
        | err e ↦ (some e, s)
        | ok instances ↦ settle attempts registered (positive n || instances) s
      ]
    ]
  ]

-- The facade and the controller of the cluster's broker, of the name that the program is started with.
module _ {S : Type 0} (kube : Kube S) (name : String) where
  unfoldable pub cluster_exist : S → Result Bool
  unfolding exist
  cluster_exist = exist kube (cluster_wide name)

  unfoldable pub cluster_delete : S → Option Error × S
  unfolding delete
  cluster_delete = delete kube (cluster_wide name)

  unfoldable pub cluster_create : ℕ → S → Option Error × S
  unfolding create
  cluster_create = create kube (cluster_wide name)

  unfoldable pub any_instance_for_cluster : S → Result Bool
  unfolding any_instance
  any_instance_for_cluster = any_instance kube (cluster_wide name)

  unfoldable pub reconcile_cluster : ℕ → S → Option Error × S
  unfolding reconcile_broker
  reconcile_cluster = reconcile_broker kube (cluster_wide name)
