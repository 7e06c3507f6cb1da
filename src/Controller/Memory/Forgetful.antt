-- ===== src/Controller/Memory/Forgetful.antt =====
-- The in-memory storage forgets the addons that are removed from it, and the controller's other calls
-- add none.
use helm_broker.Model.Addons.{Namespace}
use helm_broker.Storage.Addons.Forget.{
  get-get, get-remove, get-removed, get-missing, get-same_version,
}
use helm_broker.Controller.Removal.Laws.{IsForgetful}
use helm_broker.Controller.Memory.{Outside, in_memory}

module _ {T : Type 0} where
  pub in_memory-IsForgetful :
      (namespace : Namespace) (o : Outside T) → IsForgetful (in_memory namespace o)
  in_memory-IsForgetful namespace o = record {
    get_shrinks = λ name v s n w b h. get-get namespace name n v w s.addons b h;
    remove_shrinks = λ name v s n w b h. get-remove namespace name n v w s.addons b h;
    remove_chart_shrinks = λ name v s n w b h. h;
    docs_shrinks = λ i s n w b h. h;
    sync_shrinks = λ s n w b h. h;
    update_shrinks = λ a s n w b h. h;
    request_shrinks = λ name s n w b h. h;
    same_version = λ name v w s b e q h. get-same_version namespace name v w s.addons b e q h;
    removed = λ name v s h b r. get-removed namespace name v s.addons b h r;
    missing = λ name v s e h m b r. get-missing namespace name v s.addons e b h m r;
  }
