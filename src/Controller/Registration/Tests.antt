-- ===== src/Controller/Registration/Tests.antt =====
-- A namespace with a configuration and without the broker.
use helm_broker.Common.{
  ℕ, ◌<◌, ◌↔◌, exists_in, ◌≡◌, refl, Bool, true, false, none, some, [], ◌∷◌, ok, if◌then◌else◌,
}
use helm_broker.Controller.Registration.{
  absent, present, namespaced, Kube, reconcile_cluster, reconcile_broker,
}
use helm_broker.Controller.Registration.Exists.{
  Refusals, IsAccepted, IsReconciled, reconcile_broker_iff,
}

-- The state is whether the broker is registered.
abbrev kube : Kube Bool
kube = record {
  get_broker = λ s. (if s then none else some absent, 0);
  create_broker = λ s. (if s then some present else none, true);
  delete_broker = λ s. (if s then none else some absent, false);
  update_broker = λ n s. (none, s);
  list_configurations = λ s. ok 1;
  list_instances = λ s. ok [];
  list_classes = λ s. ok [];
}

registered : reconcile_broker kube namespaced 30 false ≡ (none, true)
unfolding reconcile_broker
registered = refl

reconcile_broker_iff_example :
    (reconcile_broker kube namespaced 30 false ≡ (none, true))
    ↔ ((n : ℕ) × (u : Bool) × (n < 30) × Refusals kube n false u × IsAccepted kube u true)
unfolding IsReconciled exists_in
reconcile_broker_iff_example =
    reconcile_broker_iff kube namespaced 30 1 false [] [] false true refl refl refl refl

-- A cluster with an instance of the broker's class, and without configurations.
abbrev cluster : Kube Bool
cluster = record kube {
  list_configurations = λ s. ok 0;
  list_instances = λ s. ok (none ∷ some "redis" ∷ []);
  list_classes = λ s. ok (record { name = "redis"; broker_name = "helm-broker" } ∷ []);
}

cluster_registered : reconcile_cluster cluster "helm-broker" 30 false ≡ (none, true)
unfolding reconcile_cluster reconcile_broker
cluster_registered = refl

cluster_removed : reconcile_cluster cluster "other-broker" 30 true ≡ (none, false)
unfolding reconcile_cluster reconcile_broker
cluster_removed = refl
