-- ===== src/Broker/OperationState/Order.antt =====
-- What the loops over the operations find does not depend on the order in which a map gives them.
use mathlib.Core.List.{Perm, Permᴰ}
use mathlib.Core.Logic.{∥∥₁_elim}
use mathlib.Core.Path.{ap₂}
use helm_broker.Common.{
  ◌≤◌, ◌≡◌, refl, String-set, ap, sym, count_if_mono, ◌∙◌, Bool, true, false, not, ◌&&◌, ◌||◌,
  Option, none, some, List, [], ◌∷◌, arith, if◌then◌else◌, exists_in, count_if, exists_in-perm,
  count_if-perm, found, ok,
}
use helm_broker.Model.Operations.{OperationId, BindingId, InstanceOperation, BindOperation}
use helm_broker.Storage.Operations.{op_in_progress}
use helm_broker.Broker.OperationState.{
  is_created, is_removed, is_creating, is_removing, provisioned_from, is_provisioned,
  first_operation, is_provisioning_in_progress, any_removed, is_deprovisioned,
  is_deprovisioning_in_progress, is_bind_created, is_bind_removed, bound_from, is_bound,
}

provisioned_from-eq :
    (result : Bool) (ops : List InstanceOperation)
    → provisioned_from result ops
      ≡ ((result || exists_in is_created ops) && not (exists_in is_removed ops))
unfolding provisioned_from exists_in
provisioned_from-eq result [] = ground arith
provisioned_from-eq result (op ∷ ops) =
    ground (arith, provisioned_from-eq result ops, provisioned_from-eq true ops)

-- `IsProvisioned` of the operations in any order is true exactly if a creation succeeded and no removal
-- did.
pub is_provisioned-eq :
    (ops : List InstanceOperation)
    → is_provisioned (ok ops) ≡ ok (exists_in is_created ops && not (exists_in is_removed ops))
unfolding is_provisioned
is_provisioned-eq ops = ap ok (provisioned_from-eq false ops)

any_removed-eq : (ops : List InstanceOperation) → any_removed ops ≡ exists_in is_removed ops
unfolding any_removed exists_in
any_removed-eq [] = refl
any_removed-eq (op ∷ ops) = ground (arith, any_removed-eq ops)

-- An instance is deprovisioned exactly if a removal succeeded.
pub is_deprovisioned-eq :
    (ops : List InstanceOperation) → is_deprovisioned (ok ops) ≡ ok (exists_in is_removed ops)
unfolding is_deprovisioned
is_deprovisioned-eq ops = ap ok (any_removed-eq ops)

first_operation-permᴰ :
    (p : InstanceOperation → Bool) {xs ys : List InstanceOperation}
    → Permᴰ xs ys
    → count_if p xs ≤ 1
    → first_operation p xs ≡ first_operation p ys
unfolding first_operation count_if
first_operation-permᴰ p Permᴰ.nil c = refl
first_operation-permᴰ p (Permᴰ.cons e h) c =
    ap₂ (λ op rest. if p op then (op.operation_id, true) else rest) e
      (first_operation-permᴰ p h (ground arith))
first_operation-permᴰ p (Permᴰ.swap e f) c = rw (← e, ← f) (ground arith)
first_operation-permᴰ p (Permᴰ.trans h k) c =
    first_operation-permᴰ p h c ∙ first_operation-permᴰ p k (omega (arith, count_if-perm p ∣ h ∣₁))

answer_set : IsSet (OperationId × Bool)
answer_set = hlevel String-set

bound_from-eq :
    (b : BindingId) (result : Option BindOperation) (ops : List BindOperation)
    → found (bound_from b result ops) ≡ (
        (found result || exists_in (is_bind_created b) ops)
        && not (exists_in (is_bind_removed b) ops))
unfolding bound_from exists_in
bound_from-eq b result [] = ground arith
bound_from-eq b result (op ∷ ops) =
    ground (arith, bound_from-eq b result ops, bound_from-eq b (some op) ops)

-- `IsProvisioned`, `IsDeprovisioned` and the Boolean of `IsBound` do not depend on the order of the
-- operations.
pub is_provisioned-perm :
    {xs ys : List InstanceOperation} → Perm xs ys → is_provisioned (ok xs) ≡ is_provisioned (ok ys)
is_provisioned-perm {xs} {ys} h =
    rw (is_provisioned-eq, exists_in-perm is_created h, exists_in-perm is_removed h)
      (rw is_provisioned-eq)

pub is_deprovisioned-perm :
    {xs ys : List InstanceOperation}
    → Perm xs ys
    → is_deprovisioned (ok xs) ≡ is_deprovisioned (ok ys)
is_deprovisioned-perm {xs} {ys} h =
    is_deprovisioned-eq xs ∙ ap ok (exists_in-perm is_removed h) ∙ sym (is_deprovisioned-eq ys)

-- If `IsBound` returns without an error, it reports the binding as bound exactly if a bind operation for
-- it succeeded and no removal of it did.
found-is_bound :
    (b : BindingId) (ops : List BindOperation) (r : Option BindOperation)
    → is_bound b (ok ops) ≡ ok r
    → found r ≡ (exists_in (is_bind_created b) ops && not (exists_in (is_bind_removed b) ops))
unfolding is_bound
found-is_bound b ops r h = ground (arith, bound_from-eq b none ops)

is_creating-in_progress :
    (op : InstanceOperation) → is_creating op ≡ true → op_in_progress op ≡ true
is_creating-in_progress op h = ground arith

is_removing-in_progress :
    (op : InstanceOperation) → is_removing op ≡ true → op_in_progress op ≡ true
is_removing-in_progress op h = ground arith

module _ {xs ys : List InstanceOperation} (one : count_if op_in_progress xs ≤ 1)
    (h : Perm xs ys) where
  first_operation-perm :
      (p : InstanceOperation → Bool)
      → ((op : InstanceOperation) → p op ≡ true → op_in_progress op ≡ true)
      → first_operation p xs ≡ first_operation p ys
  first_operation-perm p busy =
      ∥∥₁_elim h (answer_set _ _) (λ d.
        first_operation-permᴰ p d (omega (arith, count_if_mono p op_in_progress xs busy, one)))

  -- If at most one operation is in progress, `IsProvisioningInProgress` gives the same answer, id included,
  -- for every order of the operations.
  pub is_provisioning_in_progress-perm :
      is_provisioning_in_progress (ok xs) ≡ is_provisioning_in_progress (ok ys)
  unfolding is_provisioning_in_progress
  is_provisioning_in_progress-perm =
      ap ok (first_operation-perm is_creating is_creating-in_progress)

  pub is_deprovisioning_in_progress-perm :
      is_deprovisioning_in_progress (ok xs) ≡ is_deprovisioning_in_progress (ok ys)
  unfolding is_deprovisioning_in_progress
  is_deprovisioning_in_progress-perm =
      ap ok (first_operation-perm is_removing is_removing-in_progress)
