-- ===== src/Broker/Bind/Credentials.antt =====
-- The reads of a binding's credentials, on the in-memory driver.
use helm_broker.Common.{◌≡◌, refl, ap, ◌∙◌, Bool, true, not, ok, err, wrap, not_found, eq_refl}
use helm_broker.Model.Instances.{InstanceCredentials}
use helm_broker.Model.Operations.{InstanceId, BindingId, OperationId}
use helm_broker.Storage.BindData
use helm_broker.Broker.Action.{Outcome, done, failed, not_found_status}
use helm_broker.Broker.Action.Runs.{read-ok, read-err, require-true}
use helm_broker.Broker.Action.Inversion.{after_read, after_require}
use helm_broker.Broker.OperationState.{is_binding_in_progress}
use helm_broker.Broker.Memory.{Stores, Driver, memory}
use helm_broker.Broker.Bind.{get_bind_data}

module _ (d : Driver) where
  abbrev drop : InstanceId → Stores → Stores
  drop i s = ((memory d).remove_bind_data i s).1

  abbrev none_left : Outcome InstanceCredentials
  none_left = failed (record {
    status_code = not_found_status;
    error_message = wrap "while getting bind data from storage" not_found;
  })

  get_bind_data-none :
      (i : InstanceId) (j : BindingId) (s : Stores) {answer : OperationId × Bool}
      → is_binding_in_progress j ((memory d).get_bind_operations i s) ≡ ok answer
      → not answer.1 ≡ true
      → BindData.get i s.bind_data ≡ err not_found
      → get_bind_data (memory d) i j s ≡ (none_left, s)
  unfolding get_bind_data
  get_bind_data-none i j s e idle none_there =
      read-ok _ s _ _ _ e ∙ require-true _ s _ _ idle ∙ read-err _ s _ _ _ none_there

  -- On the in-memory stores, after a `GetBindData` that returned credentials the same request is answered
  -- with 404 and changes nothing: credentials are handed out once.
  pub get_bind_data-once :
      (i : InstanceId) (j : BindingId) (s : Stores) {creds : InstanceCredentials} {t : Stores}
      → get_bind_data (memory d) i j s ≡ (done creds, t)
      → get_bind_data (memory d) i j t ≡ (
        failed (record {
          status_code = not_found_status;
          error_message = wrap "while getting bind data from storage" not_found;
        }),
        t,
      )
  unfolding get_bind_data
  get_bind_data-once i j s {creds} {t} h = after_read _ _ _ _ s h λ answer read_eq h1.
      after_require _ _ _ _ s h1 λ idle h2. after_read _ _ _ _ s h2 λ ibd stored h3.
        let last : drop i s ≡ t = ap (λ p. p.1) h3 in
        rw (← last) (
          get_bind_data-none i j (drop i s) {answer = answer} read_eq idle
            (BindData.get-remove i s.bind_data i ∙ rw (eq_refl i) refl))
