-- ===== src/Broker/Deprovision/Task.antt =====
-- The deprovisioning task on the in-memory driver.
use helm_broker.Common.{
  ◌≡◌, refl, ◌∙◌, false, none, some, Error, ok, err, not_found, arith, Bool-cases, inl, inr,
  is_empty, eq_refl, found, is_not_found,
}
use helm_broker.Dict.{lookup}
use helm_broker.Dict.Nested.{find}
use helm_broker.Model.Instances.{ServiceInstance}
use helm_broker.Model.Operations.{InstanceOperation, succeeded, failed}
use helm_broker.Storage.Instances
use helm_broker.Storage.BindData
use helm_broker.Broker.Memory.{Stores, Driver, memory}
use helm_broker.Broker.LastOperation.{get_last_operation}
use helm_broker.Broker.LastOperation.Read.{get_last_operation-update_operation}
use helm_broker.Broker.Deprovision.{
  delete_error, DeprovisioningInput, HelmDeleter, unless_gone, remove_entity, remove_bind_data,
  remove_release, deprovision_description, do_deprovision,
}

-- The stores without the entities of an instance.
abbrev pub without_instance : ServiceInstance → Stores → Stores
without_instance inst s = record s {
  instances = (Instances.remove inst.id s.instances).1;
  bind_data = (BindData.remove inst.id s.bind_data).1;
}

module _ (d : Driver) (helm : HelmDeleter) where
  remove_entity-eq :
      (inst : ServiceInstance) (s : Stores)
      → remove_entity (memory d) helm inst s
        ≡ (none, record s { instances = (Instances.remove inst.id s.instances).1 })
  unfolding remove_entity Instances.remove
  remove_entity-eq inst s = elim (Bool-cases (found (lookup inst.id s.instances))) [
    | inl e ↦ rw (e, remove_entity) refl
    | inr e ↦ rw (e, remove_entity) refl
  ]

  unless_gone-remove :
      (inst : ServiceInstance) (s : Stores)
      → unless_gone is_not_found (BindData.remove inst.id s.bind_data).0 ≡ none
  unfolding BindData.remove
  unless_gone-remove inst s = ground arith

  -- No error of the in-memory driver stops the removal: it has none but that the entity is gone.
  remove_bind_data-eq :
      (inst : ServiceInstance) (s : Stores)
      → remove_bind_data (memory d) helm inst s ≡ (none, without_instance inst s)
  unfolding remove_bind_data
  remove_bind_data-eq inst s =
      rw (remove_bind_data, unless_gone-remove inst s)
        (remove_entity-eq inst (record s { bind_data = (BindData.remove inst.id s.bind_data).1 }))

  remove_release-eq :
      (inst : ServiceInstance) (s : Stores)
      → unless_gone helm.is_release_not_found (helm.delete_release inst.release_name inst.namespace)
        ≡ none
      → remove_release (memory d) helm inst s ≡ (none, without_instance inst s)
  unfolding remove_release
  remove_release-eq inst s e = rw (remove_release, e) (remove_bind_data-eq inst s)

  remove_release-fails :
      (inst : ServiceInstance) (s : Stores) {e : Error}
      → unless_gone helm.is_release_not_found (helm.delete_release inst.release_name inst.namespace)
        ≡ some e
      → remove_release (memory d) helm inst s ≡ (some (delete_error inst.release_name e), s)
  unfolding remove_release
  remove_release-fails inst s e = rw (remove_release, e) refl

  -- For ids that are set and an operation that is stored: if Helm deletes the release, or says that there is
  -- none, then after the task neither the instance nor its bind data is found, and a poll of the operation
  -- answers that it succeeded.
  pub do_deprovision-removes :
      (input : DeprovisioningInput) (s : Stores) {op : InstanceOperation}
      → unless_gone helm.is_release_not_found
          (helm.delete_release input.instance'.release_name input.instance'.namespace)
        ≡ none
      → is_empty input.instance'.id ≡ false
      → is_empty input.operation_id ≡ false
      → find input.instance'.id input.operation_id s.operations ≡ some op
      → (Instances.get input.instance'.id (do_deprovision (memory d) helm input s).instances
          ≡ err not_found)
        × (BindData.get input.instance'.id (do_deprovision (memory d) helm input s).bind_data
            ≡ err not_found)
        × (get_last_operation
              (memory d)
              input.instance'.id
              (some input.operation_id)
              (do_deprovision (memory d) helm input s)
            ≡ ok (record { state = succeeded; description = some "deprovisioning succeeded" }))
  unfolding do_deprovision
  do_deprovision-removes input s gone hi hk e =
      let inst = input.instance' in
      rw (do_deprovision, remove_release-eq inst s gone)
        (
          Instances.get-remove inst.id s.instances inst.id ∙ rw (eq_refl inst.id) refl,
          BindData.get-remove inst.id s.bind_data inst.id ∙ rw (eq_refl inst.id) refl,
          get_last_operation-update_operation d inst.id input.operation_id succeeded
              (some "deprovisioning succeeded") (without_instance inst s) hi hk e,
        )

  -- For ids that are set and an operation that is stored: if Helm fails to delete the release, the task
  -- leaves every instance and all bind data as they were, and a poll of the operation answers that it
  -- failed on that error.
  pub do_deprovision-keeps :
      (input : DeprovisioningInput) (s : Stores) {op : InstanceOperation} {e : Error}
      → unless_gone helm.is_release_not_found
          (helm.delete_release input.instance'.release_name input.instance'.namespace)
        ≡ some e
      → is_empty input.instance'.id ≡ false
      → is_empty input.operation_id ≡ false
      → find input.instance'.id input.operation_id s.operations ≡ some op
      → ((do_deprovision (memory d) helm input s).instances ≡ s.instances)
        × ((do_deprovision (memory d) helm input s).bind_data ≡ s.bind_data)
        × (get_last_operation
              (memory d)
              input.instance'.id
              (some input.operation_id)
              (do_deprovision (memory d) helm input s)
            ≡ ok (record {
              state = failed;
              description =
                  some
                    (deprovision_description (some (delete_error input.instance'.release_name e)));
            }))
  unfolding do_deprovision
  do_deprovision-keeps input s {op} {e} fails hi hk q =
      let inst = input.instance' in
      rw (do_deprovision, remove_release-fails inst s fails)
        (
          refl,
          refl,
          get_last_operation-update_operation d inst.id input.operation_id failed
              (some (deprovision_description (some (delete_error inst.release_name e)))) s hi hk q,
        )
