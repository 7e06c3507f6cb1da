-- ===== src/Lib.antt =====
-- Helm Broker: addons, which are Helm charts with plans, offered as services by the Open Service Broker
-- API. This library models the broker's services, the controller of addon configurations, the forms of
-- addons, and the in-memory storage that these stand on.
--
-- The program and the files here:
--   Common          Go's error values (internal/storage/driver/memory/error.go, errors.Wrap), tests on
--                   texts and numbers, keys of texts with bars between them, strings.Split and Join
--                   (Common/Split), and functions that may fail or panic (Common/Outcomes).
--   Dict            Go's maps, as association lists with text keys; Dict/Nested for maps of maps.
--   Model           the records of internal/model.go, and JSON values with mergeValues of
--                   internal/broker/provision.go (Model/Values/Merge) and reflect.DeepEqual on
--                   them (Model/Values/Compare); Model/Configurations for the configurations of
--                   addons, with the types of pkg/apis/addons/v1alpha1.
--   Storage         internal/storage/driver/memory, one module for each entity_*.go: a store is a value
--                   and a method a function to the new store and the results.
--   Storage/Etcd    internal/storage/driver/etcd over a record of a key-value client, with the
--                   documented behaviour of a cluster that is reached as laws; Storage/Etcd/Addons/Dso for
--                   what is stored of an addon, Storage/Etcd/Charts/Trees for charts with dependencies.
--   Broker/Backend  the storage interfaces of internal/broker/broker.go as a record over any type of
--                   state; Broker/Memory fills it with the in-memory stores.
--   Broker/Action   request handlers: functions on the state to a response, an HTTP error or a panic.
--   Broker          one module for each of internal/broker/provision.go, deprovision.go, bind.go,
--                   lastop.go and operation_state.go, over any Backend; the tasks that the handlers start
--                   stand in Broker/Provision/Installing and Broker/Bind/Resolving; Broker/ReleaseName
--                   for createReleaseName, Broker/Catalog for catalog.go.
--   Bind            internal/bind: the resolver of bind templates (resolver.go, types.go), which the
--                   broker takes as the parameter `BindTemplates.resolve`; Bind/Policy for which value a
--                   credential has; Bind/Renderer for the rendering of a template with its chart
--                   (renderer.go).
--   Broker/Server   internal/broker/server.go, with dto.go (Broker/Server/Http), ctx.go and middleware.go
--                   (Broker/Server/Context): requests to the handlers, and responses from them.
--   Broker/Steps    the broker on the in-memory stores as a transition system.
--   Addon           internal/addon/form.go: the form of an addon's files with its validation
--                   (Addon/Form), and its conversion to an addon (Addon/Conversion); loader.go: the
--                   loading of an addon from a directory (Addon/Loader) and from an archive
--                   (Addon/Loader/Archive). Addon/Provider for
--                   internal/addon/provider: its factory and client, the getters of https.go and
--                   generic_dir_getter.go (Addon/Provider/Getters) with their URLs (Addon/Provider/Urls),
--                   the schemes of addresses (Addon/Provider/Scheme), and how the controller marks
--                   what the client gives (Addon/Provider/Marks).
--   Controller      internal/controller: entries (Entry) and repositories with their checks for
--                   conflicts (Collection), finalizers (Protection), and common.go, cut into the
--                   loading of repositories (Loading), the saving (Saving) and removal (Removal) of
--                   addons, and Reconcile (Reconcile) with OnAdd, OnDelete and the writes of a configuration
--                   (Reconcile/Add, Reconcile/Delete, Reconcile/Updates).
--   Controller/Services  what the controller calls (internal/controller/ext.go), as a record over any
--                   type of state, and its tasks: functions on the state to a result, an error or a
--                   panic. Controller/Removal/Laws states what the removal of addons relies on.
--   Controller/Registration  internal/controller/broker_controller.go and cluster_broker_controller.go with
--                   the facades of internal/controller/broker and the checks for instances of
--                   internal/controller/instance;
--                   Controller/Registration/Sync for broker_syncer.go and cluster_broker_syncer.go.
--   Controller/Memory  fills the services with the in-memory stores and proves these laws.
--
-- How they interact: the server checks requests and calls the handlers. `Provision`, `Deprovision` and `Bind` read the
-- operations of an instance, insert a new one that is in progress, and start a task (`do`) that talks to
-- Helm, writes the instance or its bind data, and ends the operation. A client polls the operation
-- (`GetLastOperation`). The controller fills the stores of addons and charts: `OnAdd` loads the
-- repositories of a configuration, marks conflicts, stores the addons and writes the status, and `OnDelete`
-- removes them. The provider of a repository fetches an addon, which is loaded
-- from a directory by way of the form of its files, and the catalog shows
-- it to clients. Another controller registers the broker in the namespaces that have configurations.
--
-- How code and model correspond:
--   A handler holds its mutex and a store its lock, so a handler is one step. The task that it starts
--   is another step, at any later time: the handler's result carries the task's input. `Bind` for a
--   binding that exists starts its task before its last read, so it is cut in two there: `bind`
--   and `finish_bind`.
--   `range` over a map visits it in any order: the order is a parameter (of `Driver`, `Services`, `Texts` or
--   an operation), and what needs it to be a permutation has that as a hypothesis. The clock and new operation ids are
--   parameters too.
--   Texts stand for their bytes, one character for each. A `nil` map or pointer is `none`. An `error` is an
--   `Option Error`, and a value with an error a `Result`. The HTTP error's message is kept as an `Error`;
--   ids and names that the code prints into the messages of handlers are left out, as are the words of
--   the HTTP status error that the provisioning task makes of a failed last write. A text that is printed
--   with %q is put between quotes, with nothing escaped, save that forms take the quoting as a parameter. The
--   names that the registration of the broker and the resolver of bind templates print are left out too, and
--   so are the ids that the stores print into their messages.
--   Of the records of internal/model.go, Addon is without SecretRef and ReleaseInfo without Time and Config, which
--   nothing that is modelled reads, and the content of a chart is what JSON keeps of it, so not chart.Raw.
--   JSON numbers stand as codes, since they are only compared. `deepCopy` gives back the JSON value that
--   it is given.
--   The controller changes a configuration and the entries of repositories through pointers: here a task
--   returns the changed configuration, and a check the changed repositories. A configuration keeps of its
--   Kubernetes metadata the name, the generation, the finalizers and whether it is being deleted. A period
--   of time stands in seconds. Logging is left out, and so is the namespace that a controller works in,
--   which the services have. The result of `OnAdd` is an error or a panic where it does not end well; then
--   the changed configuration is not used.
--   The stores hold values: that callers share pointers with the in-memory stores is not modelled, save that
--   the renderer of bind templates returns the chart that it has changed.
--   Every loop is structural recursion, on a list or on the attempts of the polling or of a syncer, so there is no other
--   fuel and every function is total.
--
-- Parameters: the Helm client (`HelmInstaller`, `HelmDeleter`), the bind template renderer and
-- resolver (`BindTemplates`), the clock and the orders (`Driver`), the cluster, the documentation,
-- the broker's registration, the getters of addons and the parsing of versions (`Services`), and
-- quoting, trimming and versions for forms (`Addon.Form.Texts`), JSON and the sanitizing of HTML
-- of the server (`Broker.Server.Http.Texts`), the etcd client with gob, JSON and the parsing of versions
-- (`Kv`, `Codec`, `Encoding`, `ChartEncoding`), downloads, archives, uploads, paths and the parsing of
-- URLs for the providers (`Web`, `DirectoryTools`, `ClientFactory`), the Kubernetes client of the
-- resolver with the parsers of YAML and JSON paths (`Reader`),
-- the engine of the renderer with the making of its values (`Renderer`), the file system with the parsers of
-- YAML and JSON (`Directory`) and for archives with their readers (`FileSystem`), and the Kubernetes
-- client of the registration (`Kube`) with the number of attempts that the time of its polling
-- allows.
--
-- Not modelled: the clean-up of downloaded files (internal/addon/provider), the cluster client, the
-- templates of repository URLs and the set-up of controllers (internal/controller), the matching of paths and the
-- listening of the server (internal/broker/server.go), and the commands,
-- migration, health probes, webhook and generated clients, which are I/O and glue.
pub mod Common
pub mod Dict
pub mod Model
pub mod Storage
pub mod Broker
pub mod Addon
pub mod Bind
pub mod Controller
