-- ===== src/Broker/Bind/Missing.antt =====
-- A binding of an instance that is not stored, on the in-memory driver.
use helm_broker.Common.{
  ℕ, active_operation_in_progress, ◌≡◌, refl, ap, ◌∙◌, Bool, true, false, none, some, ok, err, wrap,
  not_found, not, eq_refl,
}
use helm_broker.Dict.Nested.{find}
use helm_broker.Model.Addons.{Namespace}
use helm_broker.Model.Operations.{OperationId, BindOperation, create, in_progress}
use helm_broker.Storage.BindOperations
use helm_broker.Storage.BindOperations.Views as BindViews
use helm_broker.Storage.Instances
use helm_broker.Broker.Action.{Outcome, failed, Action, ◌>>=◌, bad_request}
use helm_broker.Broker.Action.Runs.{read-ok, read-err, require-true, unit_write-ok}
use helm_broker.Broker.OperationState.{is_bound, is_binding_in_progress}
use helm_broker.Broker.Memory.{Stores, Driver, memory}
use helm_broker.Broker.Bind.{
  BindRequest, validate_bind_request, new_bind_operation, prepare_bind_input, bind_new,
  bind_unless_in_progress, bind_valid, bind,
}

abbrev no_instance : {A : Type 0} → Outcome A
no_instance = failed (record {
  status_code = bad_request;
  error_message = wrap "while getting instance from storage" not_found;
})

module _ (d : Driver) where
  -- The stores after the insertion of the operation.
  abbrev inserted : BindRequest → OperationId → Stores → Stores
  inserted req op_id s = ((memory d).insert_bind_operation (new_bind_operation req op_id) s).1

  continue_failed :
      {A B : Type 0} (m : Action Stores A) (f : A → Action Stores B) (s : Stores)
      → m s ≡ (no_instance, s)
      → (m >>= f) s ≡ (no_instance, s)
  unfolding ◌>>=◌
  continue_failed m f s e = rw (e, ◌>>=◌) refl

  find-inserted :
      (op_id : OperationId) (req : BindRequest) (s : Stores)
      → (BindOperations.insert d.now (new_bind_operation req op_id) s.bind_operations).0 ≡ none
      → find req.instance_id op_id (inserted req op_id s).bind_operations
        ≡ some (record (new_bind_operation req op_id) { created_at = d.now })
  find-inserted op_id req s ins =
      let bo = new_bind_operation req op_id in
      BindViews.find-insert d.now bo s.bind_operations req.instance_id op_id
      ∙ rw
          (
            eq_refl req.instance_id,
            eq_refl op_id,
            BindViews.insert-idle d.now bo s.bind_operations ins,
          )
          refl

  -- The answer to a request for an instance that is not stored, and its operation.
  bind-missing :
      (op_id : OperationId) (broker_namespace : Namespace) (req : BindRequest) (s : Stores)
      {answer : OperationId × Bool}
      → req.has_parameters ≡ false
      → req.accepts_incomplete ≡ true
      → validate_bind_request req.instance_id req.binding_id req.service_id req.plan_id ≡ none
      → is_binding_in_progress req.binding_id ((memory d).get_bind_operations req.instance_id s)
        ≡ ok answer
      → answer.1 ≡ false
      → is_bound req.binding_id ((memory d).get_bind_operations req.instance_id s) ≡ ok none
      → (BindOperations.insert d.now (new_bind_operation req op_id) s.bind_operations).0 ≡ none
      → Instances.get req.instance_id s.instances ≡ err not_found
      → (bind (memory d) (ok op_id) broker_namespace req s ≡ (no_instance, inserted req op_id s))
        × (find req.instance_id op_id (inserted req op_id s).bind_operations
            ≡ some (record {
              instance_id = req.instance_id;
              binding_id = req.binding_id;
              operation_id = op_id;
              type = create;
              state = in_progress;
              state_description = none;
              created_at = d.now;
            }))
  unfolding bind bind_valid bind_unless_in_progress bind_new prepare_bind_input
  bind-missing op_id broker_namespace req s {answer} plain_request accepts valid idle idle' unbound
        ins missing =
      (
        require-true _ s _ _ (ap not plain_request)
            ∙ require-true _ s _ _ accepts
            ∙ rw valid (
                read-ok _ s _ _ _ idle
                ∙ rw idle' (
                    read-ok _ s _ _ _ unbound
                    ∙ read-ok _ s _ _ _ refl
                    ∙ unit_write-ok _ s _ _ _ {t = inserted req op_id s}
                        (λ i. (ins i, inserted req op_id s))
                    ∙ continue_failed _ _ (inserted req op_id s)
                        (read-err _ (inserted req op_id s) _ _ _ missing))),
        find-inserted op_id req s ins,
      )

  -- A bind request that passes every check up to the insertion of its operation, for an instance that is not
  -- stored, is answered with 400 and starts no task, but its operation is stored, in progress; and whatever bind
  -- operation of the instance is inserted next, of this or another binding, is refused.
  pub bind-no_instance :
      (op_id : OperationId) (broker_namespace : Namespace) (req : BindRequest) (s : Stores)
      (later : ℕ) (next : BindOperation) {answer : OperationId × Bool}
      → req.has_parameters ≡ false
      → req.accepts_incomplete ≡ true
      → validate_bind_request req.instance_id req.binding_id req.service_id req.plan_id ≡ none
      → is_binding_in_progress req.binding_id ((memory d).get_bind_operations req.instance_id s)
        ≡ ok answer
      → answer.1 ≡ false
      → is_bound req.binding_id ((memory d).get_bind_operations req.instance_id s) ≡ ok none
      → (BindOperations.insert d.now (new_bind_operation req op_id) s.bind_operations).0 ≡ none
      → Instances.get req.instance_id s.instances ≡ err not_found
      → next.instance_id ≡ req.instance_id
      → let t = (bind (memory d) (ok op_id) broker_namespace req s).1 in
        ((bind (memory d) (ok op_id) broker_namespace req s).0
          ≡ failed (record {
            status_code = 400;
            error_message = wrap "while getting instance from storage" not_found;
          }))
        × (find req.instance_id op_id t.bind_operations
            ≡ some (record {
              instance_id = req.instance_id;
              binding_id = req.binding_id;
              operation_id = op_id;
              type = create;
              state = in_progress;
              state_description = none;
              created_at = d.now;
            }))
        × ((BindOperations.insert later next t.bind_operations).0
            ≡ some active_operation_in_progress)
  bind-no_instance op_id broker_namespace req s later next plain_request accepts valid idle idle'
        unbound ins missing same =
      let (run, stored) =
        bind-missing op_id broker_namespace req s plain_request accepts valid idle idle' unbound ins
          missing in
      rw run (
        refl,
        stored,
        BindViews.insert-busy later next op_id (inserted req op_id s).bind_operations
            (ap (λ i. find i op_id (inserted req op_id s).bind_operations) same ∙ stored) refl,
      )
