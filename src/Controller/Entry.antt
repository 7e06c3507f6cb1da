-- ===== src/Controller/Entry.antt =====
-- internal/controller/repository/repository_entry.go: an addon of a repository, with the status that the
-- controller gives it; the messages are those of pkg/apis/addons/v1alpha1/reason.go.
use Prim.Native.String.{◌++◌}
use helm_broker.Common.{
  String, Bool, false, not, none, Error, error_text, is_empty, if◌then◌else◌, List, [], leb, length,
}
use helm_broker.Common.Split.{split, join, first_parts}
use helm_broker.Model.Addons.{
  Addon, AddonMetadata, AddonStatusReason, ready, failed, no_reason, loading_error, fetching_error,
  conflict_in_specified_repositories, conflict_with_already_registered_addons, unregistering_error,
  registering_error, Version,
}
use helm_broker.Model.Charts.{Chart}
use helm_broker.Model.Configurations.{is_ready_addon}

pub record Entry : Type 0 where
  pub id : String
  pub url : String
  pub addon : Addon
  pub charts : List Chart

abbrev no_metadata : AddonMetadata
no_metadata = record {
  display_name = "";
  provider_display_name = "";
  long_description = "";
  documentation_url = "";
  support_url = "";
  provision_only_once = false;
  image_url = "";
  labels = none;
}

-- `NewRepositoryEntry`, with the version already parsed.
unfoldable pub new_repository_entry : String → Version → String → Entry
new_repository_entry name version url = record {
  id = "";
  url = url;
  addon = record {
    id = "";
    name = name;
    version = version;
    description = "";
    plans = [];
    metadata = no_metadata;
    repository_url = "";
    tags = [];
    requires = [];
    bindable = false;
    bindings_retrievable = false;
    plan_updatable = none;
    docs = [];
    status = ready;
    reason = no_reason;
    message = "";
  };
  charts = [];
}

-- `IsReady`
abbrev pub is_ready : Entry → Bool
is_ready e = is_ready_addon e.addon.status

-- `IsComplete`
abbrev pub is_complete : Entry → Bool
is_complete e = not (is_empty e.id)

-- `fmt.Sprintf(reason.Message(), message)`
unfoldable pub reason_message : AddonStatusReason → String → String
reason_message conflict_in_specified_repositories m =
    "Specified repositories have addons with the same ID: " ++ m
reason_message conflict_with_already_registered_addons m =
    "An addon with the same ID is already registered: " ++ m
reason_message fetching_error m = "Fetching failed due to error: '" ++ (m ++ "'")
reason_message loading_error m = "Loading failed due to error: '" ++ (m ++ "'")
reason_message registering_error m = "Registering failed due to error: '" ++ (m ++ "'")
reason_message unregistering_error m = "Unregistering failed due to error: '" ++ (m ++ "'")
reason_message no_reason m = "%!(EXTRA string=" ++ (m ++ ")")

-- `failed` and `setEntryStatus`
unfoldable pub fail_with : AddonStatusReason → String → Entry → Entry
unfolding reason_message
fail_with reason message e = record e {
  addon = record (e.addon) {
    status = failed;
    reason = reason;
    message = reason_message reason message;
  };
}

-- `limitMessage`
unfoldable pub limit_message : String → String
unfolding split join first_parts
limit_message content =
    let parts = split b':' content in
    if leb (length parts) 4 then content else join ":" (first_parts 4 parts)

-- `FetchingError` and `LoadingError`
unfoldable pub fetching_failed : Error → Entry → Entry
unfolding fail_with limit_message
fetching_failed err e = fail_with fetching_error (limit_message (error_text err)) e

unfoldable pub loading_failed : Error → Entry → Entry
unfolding fail_with
loading_failed err e = fail_with loading_error (error_text err) e
