-- ===== src/Broker/LastOperation/Read.antt =====
-- What a poll of the last operation reads from the in-memory driver after a task's last write.
use helm_broker.Common.{String, ◌≡◌, refl, ◌∙◌, false, Option, some, ok, is_empty, eq_refl}
use helm_broker.Model.Operations.{InstanceId, OperationId, OperationState, InstanceOperation}
use helm_broker.Dict.Nested.{find}
use helm_broker.Storage.Operations
use helm_broker.Storage.Operations.Views as OperationViews
use helm_broker.Broker.Memory.{Stores, Driver, memory}
use helm_broker.Broker.LastOperation.{get_last_operation}

module _ (d : Driver) (i : InstanceId) (k : OperationId) where
  pub get_last_operation-get :
      (s : Stores) {op : InstanceOperation}
      → Operations.get i k s.operations ≡ ok op
      → get_last_operation (memory d) i (some k) s
        ≡ ok (record { state = op.state; description = op.state_description })
  unfolding get_last_operation
  get_last_operation-get s e = rw (e, get_last_operation) refl

  -- An operation that is there is read with the state and the description just written.
  pub get_last_operation-update_operation :
      (state : OperationState) (description : Option String) (s : Stores) {op : InstanceOperation}
      → is_empty i ≡ false
      → is_empty k ≡ false
      → find i k s.operations ≡ some op
      → get_last_operation
          (memory d)
          i
          (some k)
          ((memory d).update_operation i k state description s).1
        ≡ ok (record { state = state; description = description })
  get_last_operation-update_operation state description s {op} hi hk e =
      let restated =
        OperationViews.find-update_state_desc i i k k state description s.operations hi hk in
      get_last_operation-get ((memory d).update_operation i k state description s).1
        {op = record op { state = state; state_description = description }}
        (OperationViews.get_found i k
          (Operations.update_state_desc i k state description s.operations).1 hi hk
          (restated ∙ rw (eq_refl i, eq_refl k, e) refl))
