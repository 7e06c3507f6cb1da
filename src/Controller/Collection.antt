-- ===== src/Controller/Collection.antt =====
-- internal/controller/repository: repositories with their entries, and the checks for conflicts.
-- The entries are pointers that the checks write to: here they are replaced where they stand.
pub mod Ids
pub mod Registered
use Prim.Native.String.{◌++◌}
use helm_broker.Common.{
  String, Bool, true, false, not, ◌||◌, ◌&&◌, ◌==◌, Option, none, some, List, [], ◌∷◌,
  ◌++◌ as ◌+++◌, Error, error_text, if◌then◌else◌,
}
use helm_broker.Dict.{Dict, lookup, insert}
use helm_broker.Model.Addons.{
  Addon, AddonStatusReason, conflict_in_specified_repositories,
  conflict_with_already_registered_addons,
}
use helm_broker.Model.Configurations.{
  StatusRepository, StatusAddon, CommonAddon, RepositoryStatus, RepositoryStatusReason, no_reason,
  url_fetching_error, url_templating_error, empty_url_error, is_failed_repository, is_url_fetching,
  is_ready_addon,
}
use helm_broker.Controller.Entry.{Entry, is_ready, is_complete, fail_with}

pub record Repository : Type 0 where
  pub repository : StatusRepository
  pub entries : List Entry

abbrev pub Collection : Type 0
Collection = List Repository

-- `NewAddonsRepository`
unfoldable pub new_addons_repository : String → Repository
new_addons_repository url = record {
  repository = record {
    url = url;
    status = RepositoryStatus.ready;
    reason = no_reason;
    message = "";
    addons = [];
  };
  entries = [];
}

-- `Failed`
abbrev pub set_failed : Repository → Repository
set_failed r = record r { repository = record (r.repository) { status = RepositoryStatus.failed } }

-- `IsFailed`
abbrev pub is_failed : Repository → Bool
is_failed r = is_failed_repository r.repository.status

-- `fmt.Sprintf(reason.Message(), err.Error())`; two of the reasons have no message.
abbrev repository_message : RepositoryStatusReason → String → String
repository_message url_fetching_error m = "Fetching repository failed due to error: '" ++ (m ++ "'")
repository_message _ m = "%!(EXTRA string=" ++ (m ++ ")")

abbrev fail_repository : RepositoryStatusReason → String → Repository → Repository
fail_repository reason message r = record r {
  repository = record (r.repository) {
    status = RepositoryStatus.failed;
    reason = reason;
    message = message;
  };
}

-- `FetchingError`, `TemplatingError` and `EmptyURLError`
unfoldable pub fetching_failed : Error → Repository → Repository
fetching_failed e =
    fail_repository url_fetching_error (repository_message url_fetching_error (error_text e))

unfoldable pub templating_failed : Error → Repository → Repository
templating_failed e =
    fail_repository url_templating_error (repository_message url_templating_error (error_text e))

unfoldable pub empty_url_failed : Repository → Repository
empty_url_failed = fail_repository empty_url_error ""

-- `Repository.IsFetchingError`
abbrev pub is_fetching_failed : Repository → Bool
is_fetching_failed r =
    is_failed_repository r.repository.status && is_url_fetching r.repository.reason

-- `HasFailedAddons`
unfoldable pub has_failed_addons : List Entry → Bool
has_failed_addons [] = false
has_failed_addons (e ∷ es) =
    let rest = has_failed_addons es in if not (is_ready e) then true else rest

-- `addons`, all entries in order
unfoldable pub all_entries : Collection → List Entry
all_entries [] = []
all_entries (r ∷ rs) = r.entries +++ all_entries rs

-- `IsRepositoriesFailed`, which marks the repositories that have failed addons.
unfoldable pub is_repositories_failed : Collection → Bool × Collection
unfolding has_failed_addons
is_repositories_failed [] = (false, [])
is_repositories_failed (r ∷ rs) =
    let (result, rest) = is_repositories_failed rs in
    if is_failed r
    then (true, r ∷ rest)
    else if has_failed_addons r.entries
    then (true, set_failed r ∷ rest)
    else (result, r ∷ rest)

-- `IsRepositoriesFetchingError`
unfoldable pub is_repositories_fetching_error : Collection → Bool
is_repositories_fetching_error [] = false
is_repositories_fetching_error (r ∷ rs) =
    let rest = is_repositories_fetching_error rs in if is_fetching_failed r then true else rest

-- `idConflictData`
pub record IdConflictData : Type 0 where
  pub repository_url : String
  pub addons_name : String

abbrev pub conflict_data : Entry → IdConflictData
conflict_data e = record {
  repository_url = e.url;
  addons_name = e.addon.name ++ (":" ++ e.addon.version.original);
}

-- A step of `ReviseAddonDuplicationInRepository`, on an entry and the ids so far.
unfoldable pub revise_id : Entry → Dict IdConflictData → Entry × Dict IdConflictData
revise_id e ids = if not (is_complete e) then (e, ids) else elim (lookup e.id ids) [
  | some d ↦ (
    fail_with conflict_in_specified_repositories
        ("[url: " ++ (d.repository_url ++ (", addons: " ++ (d.addons_name ++ "]")))) e,
    ids,
  )
  | none ↦ (e, insert e.id (conflict_data e) ids)
]

unfoldable pub revise_ids : List Entry → Dict IdConflictData → List Entry × Dict IdConflictData
unfolding revise_id
revise_ids [] ids = ([], ids)
revise_ids (e ∷ es) ids =
    let (e', ids') = revise_id e ids in let (es', last) = revise_ids es ids' in (e' ∷ es', last)

unfoldable pub revise_repositories : Collection → Dict IdConflictData → Collection
unfolding revise_ids
revise_repositories [] ids = []
revise_repositories (r ∷ rs) ids =
    let (es, ids') = revise_ids r.entries ids in
    record r { entries = es } ∷ revise_repositories rs ids'

-- `ReviseAddonDuplicationInRepository`
unfoldable pub revise_addon_duplication_in_repository : Collection → Collection
unfolding revise_repositories
revise_addon_duplication_in_repository rs = revise_repositories rs []

-- `filterReadyAddons`
unfoldable pub filter_ready_addons : List StatusAddon → List StatusAddon
filter_ready_addons [] = []
filter_ready_addons (a ∷ as') =
    let rest = filter_ready_addons as' in if is_ready_addon a.status then a ∷ rest else rest

-- `addonAlreadyRegistered`
unfoldable pub addon_already_registered : Entry → List StatusAddon → Bool
addon_already_registered e [] = false
addon_already_registered e (a ∷ as') =
    let rest = addon_already_registered e as' in
    if e.addon.name == a.name && e.addon.version.original == a.version then true else rest

-- The inner loop of `findExistingAddon`, over one configuration's repositories.
find_in_repositories : String → List StatusRepository → Entry → Entry
unfolding filter_ready_addons addon_already_registered
find_in_repositories configuration [] e = e
find_in_repositories configuration (r ∷ rs) e = find_in_repositories configuration rs (
    if addon_already_registered e (filter_ready_addons r.addons)
    then fail_with conflict_with_already_registered_addons
        ("[ConfigurationName: "
          ++ (configuration
              ++ (", url: "
                  ++ (r.url
                      ++ (", addons: "
                          ++ (e.addon.name ++ (":" ++ (e.addon.version.original ++ "]"))))))))
        e
    else e)

-- `findExistingAddon`
unfoldable pub find_existing_addon : List CommonAddon → Entry → Entry
unfolding find_in_repositories
find_existing_addon [] e = e
find_existing_addon (c ∷ cs) e =
    find_existing_addon cs (find_in_repositories c.meta.name c.status.repositories e)

-- The loop of `ReviseAddonDuplicationInStorage` over the entries of one repository.
unfoldable pub revise_registered : List CommonAddon → List Entry → List Entry
unfolding find_existing_addon
revise_registered list [] = []
revise_registered list (e ∷ es) =
    (if is_complete e then find_existing_addon list e else e) ∷ revise_registered list es

-- `ReviseAddonDuplicationInStorage`
unfoldable pub revise_addon_duplication_in_storage : List CommonAddon → Collection → Collection
unfolding revise_registered
revise_addon_duplication_in_storage list [] = []
revise_addon_duplication_in_storage list (r ∷ rs) =
    record r { entries = revise_registered list r.entries }
    ∷ revise_addon_duplication_in_storage list rs
