-- ===== src/Controller/Registration/Sync/Tests.antt =====
-- A broker whose first update meets a conflict.
use helm_broker.Common.{ℕ, zero, suc, ◌<◌, ◌≡◌, refl, Option, none, some, [], ok, ◌↔◌}
use helm_broker.Controller.Registration.{Failure, conflict, Kube}
use helm_broker.Controller.Registration.Sync.{sync, cluster_sync}
use helm_broker.Controller.Registration.Sync.Relist.{Conflicts, IsSettled, sync_iff}

-- The conflicts to come, and the broker's relist requests.
abbrev update : ℕ → ℕ × ℕ → Option Failure × (ℕ × ℕ)
update n (zero, r) = (none, (zero, n))
update n (suc c, r) = (some conflict, (c, r))

abbrev kube : Kube (ℕ × ℕ)
kube = record {
  get_broker = λ s. (none, s.1);
  create_broker = λ s. (none, s);
  delete_broker = λ s. (none, s);
  update_broker = update;
  list_configurations = λ s. ok 1;
  list_instances = λ s. ok [];
  list_classes = λ s. ok [];
}

synced : sync kube (1, 3) ≡ (none, (0, 4))
unfolding sync
synced = refl

sync_iff_example :
    ((sync kube (1, 3) ≡ (none, (0, 4)))
      ↔ ((n : ℕ) × (u : ℕ × ℕ) × (n < 5) × Conflicts kube n (1, 3) u × IsSettled kube u (0, 4)))
    × ((cluster_sync kube (1, 3) ≡ (none, (0, 4)))
        ↔ ((n : ℕ) × (u : ℕ × ℕ) × (n < 5) × Conflicts kube n (1, 3) u × IsSettled kube u (0, 4)))
sync_iff_example = sync_iff kube (1, 3) (0, 4)
