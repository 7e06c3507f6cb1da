-- ===== src/Broker/Deprovision/Keeps.antt =====
-- `Deprovision` and its task keep a property that the writes of the storage keep.
use helm_broker.Common.{
  false, Option, none, some, Error, Result, ok, err, ◌≡◌, refl, Result-cases, Option-cases,
  Bool-cases, inl, inr, arith, is_not_found,
}
use helm_broker.Model.Instances.{ServiceInstance}
use helm_broker.Model.Operations.{OperationId, is_in_progress}
use helm_broker.Broker.Backend.{Backend}
use helm_broker.Broker.Backend.Keeps.{KeepsWrites}
use helm_broker.Broker.Action.Keeps.{KeepsWrite}
use helm_broker.Broker.OperationState.{is_deprovisioned, is_deprovisioning_in_progress}
use helm_broker.Broker.Deprovision.{
  DeprovisionRequest, DeprovisioningInput, removal_operation, start_removal, deprovision_new,
  deprovision_unless_in_progress, deprovision, HelmDeleter, unless_gone, remove_entity,
  remove_bind_data, remove_release, deprovision_state, deprovision_description, do_deprovision,
}

module _ {S : Type 0} (b : Backend S) (P : S → Type 0) (kept : KeepsWrites b P) where
  start-KeepsWrite :
      (inst : ServiceInstance) (req : DeprovisionRequest) (op_id : OperationId)
      → KeepsWrite P (start_removal b inst req op_id)
  unfolding start_removal
  start-KeepsWrite inst req op_id s p =
      ground (arith, kept.insert_operation (removal_operation req.instance_id op_id) s p)

  new-KeepsWrite :
      (new_id : Result OperationId) (req : DeprovisionRequest)
      → KeepsWrite P (deprovision_new b new_id req)
  unfolding deprovision_new
  new-KeepsWrite (err e) req s p = p
  new-KeepsWrite (ok op_id) req s p = elim (Result-cases (b.get_instance req.instance_id s)) [
    | inl (e, q) ↦ rw (q, deprovision_new) p
    | inr (inst, q) ↦ rw (q, deprovision_new) (start-KeepsWrite inst req op_id s p)
  ]

  unless_in_progress-KeepsWrite :
      (new_id : Result OperationId) (req : DeprovisionRequest)
      → KeepsWrite P (deprovision_unless_in_progress b new_id req)
  unfolding deprovision_unless_in_progress
  unless_in_progress-KeepsWrite new_id req s p =
      elim (Result-cases (is_deprovisioning_in_progress (b.get_operations req.instance_id s))) [
        | inl (e, q) ↦ rw (q, deprovision_unless_in_progress) p
        | inr (answer, q) ↦ elim (Bool-cases answer.1) [
          | inl c ↦ rw (q, c, deprovision_unless_in_progress) p
          | inr c ↦ rw (q, c, deprovision_unless_in_progress) (new-KeepsWrite new_id req s p)
        ]
      ]

  pub deprovision-KeepsWrite :
      (new_id : Result OperationId) (req : DeprovisionRequest)
      → KeepsWrite P (deprovision b new_id req)
  unfolding deprovision
  deprovision-KeepsWrite new_id req s p = elim (Bool-cases req.accepts_incomplete) [
    | inr a ↦ rw (a, deprovision) p
    | inl a ↦ elim (Result-cases (is_deprovisioned (b.get_operations req.instance_id s))) [
      | inl (e, q) ↦ rw (a, q, deprovision) p
      | inr (c, q) ↦ elim (Bool-cases c) [
        | inl c' ↦ rw (a, q, c', deprovision) p
        | inr c' ↦ rw (a, q, c', deprovision) (unless_in_progress-KeepsWrite new_id req s p)
      ]
    ]
  ]

  entity-KeepsWrite :
      (helm : HelmDeleter) (inst : ServiceInstance) → KeepsWrite P (remove_entity b helm inst)
  unfolding remove_entity
  entity-KeepsWrite helm inst s p = kept.remove_instance inst.id s p

  bind_data-KeepsWrite :
      (helm : HelmDeleter) (inst : ServiceInstance) → KeepsWrite P (remove_bind_data b helm inst)
  unfolding remove_bind_data
  bind_data-KeepsWrite helm inst s p =
      let r = b.remove_bind_data inst.id s in
      elim (Option-cases (unless_gone is_not_found r.0)) [
        | inr (e, q) ↦ rw (q, remove_bind_data) (kept.remove_bind_data inst.id s p)
        | inl q ↦
            rw (q, remove_bind_data)
              (entity-KeepsWrite helm inst r.1 (kept.remove_bind_data inst.id s p))
      ]

  release-KeepsWrite :
      (helm : HelmDeleter) (inst : ServiceInstance) → KeepsWrite P (remove_release b helm inst)
  unfolding remove_release
  release-KeepsWrite helm inst s p =
      elim (Option-cases (
        unless_gone helm.is_release_not_found
          (helm.delete_release inst.release_name inst.namespace))) [
            | inr (e, q) ↦ rw (q, remove_release) p
            | inl q ↦ rw (q, remove_release) (bind_data-KeepsWrite helm inst s p)
          ]

  state-is_final : (e : Option Error) → is_in_progress (deprovision_state e) ≡ false
  state-is_final none = refl
  state-is_final (some e) = refl

  pub do_deprovision-KeepsWrite :
      (helm : HelmDeleter) (input : DeprovisioningInput) (s : S)
      → P s
      → P (do_deprovision b helm input s)
  unfolding do_deprovision
  do_deprovision-KeepsWrite helm input s p =
      let r = remove_release b helm input.instance' s in
      kept.update_operation input.instance'.id input.operation_id (deprovision_state r.0)
        (some (deprovision_description r.0)) (state-is_final r.0) r.1
        (release-KeepsWrite helm input.instance' s p)
