-- ===== src/Model/Configurations.antt =====
-- The configurations of addons that the controller works on: `CommonAddon` of internal/model.go and
-- the types of pkg/apis/addons/v1alpha1. `metav1.ObjectMeta` is kept by the fields that are read.
use Prim.Native.String.{◌++◌}
use helm_broker.Common.{
  ℕ, String, Bool, true, false, Option, List, [], ◌∷◌, ltb, nat_eq, ◌==◌, ◌&&◌, ◌||◌, if◌then◌else◌,
}
use helm_broker.Model.Addons.{Addon, AddonStatus, AddonStatusReason}
use helm_broker.Model.Charts.{Chart}

-- `AddonsConfigurationPhase`
pub data Phase : Type 0 where
  unset pending ready failed : Phase

pub data RepositoryStatus : Type 0 where
  unset ready failed : RepositoryStatus

pub data RepositoryStatusReason : Type 0 where
  no_reason url_fetching_error url_templating_error empty_url_error : RepositoryStatusReason

-- A secret's name, and its namespace, which may be empty.
pub record SecretRef : Type 0 where
  pub name : String
  pub namespace : String

pub record SpecRepository : Type 0 where
  pub url : String
  pub secret_ref : Option SecretRef

pub record Spec : Type 0 where
  pub reprocess_request : ℕ
  pub repositories : List SpecRepository

-- `v1alpha1.Addon`
pub record StatusAddon : Type 0 where
  pub name : String
  pub version : String
  pub status : AddonStatus
  pub reason : AddonStatusReason
  pub message : String

pub record StatusRepository : Type 0 where
  pub url : String
  pub status : RepositoryStatus
  pub reason : RepositoryStatusReason
  pub message : String
  pub addons : List StatusAddon

-- `CommonAddonsConfigurationStatus`
pub record Status : Type 0 where
  pub phase : Phase
  pub last_processed_time : Option ℕ
  pub observed_generation : ℕ
  pub repositories : List StatusRepository

pub record Meta : Type 0 where
  pub name : String
  pub generation : ℕ
  -- `DeletionTimestamp != nil`
  pub is_deleted : Bool
  pub finalizers : List String

pub record CommonAddon : Type 0 where
  pub meta : Meta
  pub spec : Spec
  pub status : Status

pub record AddonWithCharts : Type 0 where
  pub addon : Addon
  pub charts : List Chart

-- `IndexEntry`
pub record IndexEntry : Type 0 where
  pub name : String
  pub display_name : String
  pub description : String
  pub version : String

abbrev pub is_ready_phase : Phase → Bool
is_ready_phase Phase.ready = true
is_ready_phase _ = false

abbrev pub is_pending_phase : Phase → Bool
is_pending_phase Phase.pending = true
is_pending_phase _ = false

abbrev pub is_failed_repository : RepositoryStatus → Bool
is_failed_repository RepositoryStatus.failed = true
is_failed_repository _ = false

abbrev pub is_ready_repository : RepositoryStatus → Bool
is_ready_repository RepositoryStatus.ready = true
is_ready_repository _ = false

abbrev pub is_url_fetching : RepositoryStatusReason → Bool
is_url_fetching url_fetching_error = true
is_url_fetching _ = false

abbrev pub is_ready_addon : AddonStatus → Bool
is_ready_addon AddonStatus.ready = true
is_ready_addon _ = false

-- `Addon.Key`
unfoldable pub addon_key : StatusAddon → String
addon_key a = a.name ++ ("/" ++ a.version)

-- `CommonAddon.IsReadyForInitialProcessing`
unfoldable pub is_ready_for_initial_processing : CommonAddon → Bool
is_ready_for_initial_processing ca =
    nat_eq ca.status.observed_generation 0 || is_pending_phase ca.status.phase

-- The loop of `IsReadyForReprocessing`.
unfoldable pub any_fetching_error : List StatusRepository → Bool
any_fetching_error [] = false
any_fetching_error (r ∷ rs) =
    let rest = any_fetching_error rs in
    if is_failed_repository r.status && is_url_fetching r.reason then true else rest

-- `CommonAddon.IsReadyForReprocessing`
unfoldable pub is_ready_for_reprocessing : CommonAddon → Bool
unfolding any_fetching_error
is_ready_for_reprocessing ca =
    if ltb ca.status.observed_generation ca.meta.generation
    then true
    else any_fetching_error ca.status.repositories

abbrev same_status : RepositoryStatus → RepositoryStatus → Bool
same_status RepositoryStatus.unset RepositoryStatus.unset = true
same_status RepositoryStatus.ready RepositoryStatus.ready = true
same_status RepositoryStatus.failed RepositoryStatus.failed = true
same_status _ _ = false

abbrev same_reason : RepositoryStatusReason → RepositoryStatusReason → Bool
same_reason no_reason no_reason = true
same_reason url_fetching_error url_fetching_error = true
same_reason url_templating_error url_templating_error = true
same_reason empty_url_error empty_url_error = true
same_reason _ _ = false

abbrev same_phase : Phase → Phase → Bool
same_phase Phase.unset Phase.unset = true
same_phase Phase.pending Phase.pending = true
same_phase Phase.ready Phase.ready = true
same_phase Phase.failed Phase.failed = true
same_phase _ _ = false

-- `StatusRepository.Equal`
abbrev pub repository_equal : StatusRepository → StatusRepository → Bool
repository_equal a b =
    a.url == b.url
    && (same_status a.status b.status && (same_reason a.reason b.reason && a.message == b.message))

-- The loop of `Equals`, with its test of the lengths.
repositories_equal : List StatusRepository → List StatusRepository → Bool
repositories_equal [] [] = true
repositories_equal (a ∷ as') (b ∷ bs) = repository_equal a b && repositories_equal as' bs
repositories_equal _ _ = false

-- `CommonAddonsConfigurationStatus.Equals`
unfoldable pub status_equals : Status → Status → Bool
unfolding repositories_equal
status_equals a b = same_phase a.phase b.phase && repositories_equal a.repositories b.repositories
