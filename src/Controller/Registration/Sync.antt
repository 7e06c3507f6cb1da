-- ===== src/Controller/Registration/Sync.antt =====
-- The request for a relist: internal/controller/broker/broker_syncer.go, and cluster_broker_syncer.go, which
-- does the same for the cluster's broker.
pub mod Relist
mod Tests
use helm_broker.Common.{ℕ, zero, suc, ◌+◌, String, Option, none, some, Error, plain, wrap}
use helm_broker.Controller.Registration.{
  Failure, absent, present, conflict, other, error_of_failure, Kube,
}

-- The words in which the two syncers differ.
pub record Words : Type 0 where
  pub getting : String
  pub updating : String

abbrev pub max_sync_retries : ℕ
max_sync_retries = 5

module _ {S : Type 0} (kube : Kube S) (words : Words) where
  -- What the attempts after an update give, and the update's result.
  abbrev pub after_update : Option Error × S → Option Failure × S → Option Error × S
  after_update rest (none, s) = (none, s)
  after_update rest (some conflict, s) = rest
  after_update rest (some absent, s) = (some (wrap words.updating (error_of_failure absent)), s)
  after_update rest (some present, s) = (some (wrap words.updating (error_of_failure present)), s)
  after_update rest (some (other e), s) = (some (wrap words.updating e), s)

  -- An attempt, by what the read of the broker gives.
  abbrev pub after_get : Option Error × S → S → Option Failure × ℕ → Option Error × S
  after_get updated s (none, relists) = updated
  after_get updated s (some absent, relists) = (none, s)
  after_get updated s (some present, relists) =
      (some (wrap words.getting (error_of_failure present)), s)
  after_get updated s (some conflict, relists) =
      (some (wrap words.getting (error_of_failure conflict)), s)
  after_get updated s (some (other e), relists) = (some (wrap words.getting e), s)

  -- The loop of `Sync`, with the attempts that are left.
  unfoldable pub sync_attempts : ℕ → S → Option Error × S
  sync_attempts zero s = (some (plain "could not sync cluster service broker"), s)
  sync_attempts (suc n) s =
      let updated = kube.update_broker ((kube.get_broker s).1 + 1) s in
      after_get (after_update (sync_attempts n updated.1) updated) s (kube.get_broker s)

-- `Sync` of both syncers.
module _ {S : Type 0} (kube : Kube S) where
  unfoldable pub sync : S → Option Error × S
  unfolding sync_attempts
  sync =
      sync_attempts kube
        (record {
          getting = "while getting ServiceBrokers helm-broker";
          updating = "while updating ServiceBroker helm-broker";
        })
        max_sync_retries

  unfoldable pub cluster_sync : S → Option Error × S
  unfolding sync_attempts
  cluster_sync =
      sync_attempts kube
        (record {
          getting = "while getting ClusterServiceBrokers";
          updating = "while updating ClusterServiceBroker";
        })
        max_sync_retries
