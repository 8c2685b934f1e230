-- ===== src/Lib.antt =====
-- tmctl, the command line tool that creates and runs TriggerMesh brokers and their components on one
-- machine. It keeps the components of a broker as Kubernetes objects in a manifest file, tells the
-- broker in a second file which events go where, and runs an adapter for each component in docker.
--
-- The files, and the code that they model:
--   Base            the helpers that all modules share: Boolean tests, lists, Go maps as association
--                   lists, the functions of Go's strings package, and results with errors and panics
--   Disk            the file system as a parameter with laws; Disk.Memory fills it
--   Kubernetes      pkg/kubernetes/object.go: Object and Metadata; Kubernetes.Value has the values of
--                   a map[string]interface{}, Kubernetes.Equal is reflect.DeepEqual on objects
--   Component       pkg/triggermesh/interfaces.go: what the methods of a component give
--   Manifest        pkg/manifest/manifest.go: Read, Write, Add and Remove
--   Broker.Config   pkg/triggermesh/components/broker/config.go: the broker's configuration file
--   Broker.Trigger  pkg/triggermesh/components/broker/trigger.go, and GetTargetTriggers of config.go
--   Broker.Container pkg/triggermesh/components/broker/broker.go: the broker as an object and as a
--                   container, its entry point, and CreateBrokerConfig
--   Delete          cmd/delete/cmd.go and cmd/delete/trigger.go: deleteBrokerComponents,
--                   deleteEverything, removeExternalServices, removeObject, cleanupTriggers,
--                   cleanupSecrets, deleteTrigger
--   Create          cmd/create/target.go and cmd/create/trigger.go: createTrigger, updateTriggers,
--                   listTriggers, and trigger from where its target and filters are known;
--                   Create.Arguments is argsToMap of cmd/create/cmd.go
--   Adapter         pkg/triggermesh/adapter: the tables of kinds in ce (Adapter.Ce) and env
--                   (Adapter.Env), and adapter.go (Adapter.Runtime)
--   Gui             pkg/gui/transformation/process.go: the operations of the transformation editor;
--                   keybindings.go: the keys that move the cursor (Gui.Cursor), and what is read from
--                   the input of a value (Gui.Input)
--   Settings        pkg/config: New with the default settings and the overrides; Settings.Keys is Get
--                   and Set
--   Crd             pkg/triggermesh/crd: the schemas (Crd.Schema), Process (Crd.Process), secret.go
--                   (Crd.Secrets), GetAttributesCompletion (Crd.Completion), and CreateObject of
--                   pkg/kubernetes/object.go (Crd.Objects)
--   Secrets         pkg/triggermesh/components/secret/secret.go, GetChildren of sources and targets,
--                   and ProcessSecrets of pkg/triggermesh/components/components.go
--   Service, Transformation
--                   pkg/triggermesh/components/service/service.go and
--                   transformation/transformation.go; Service.Reading is the case of a service in
--                   GetObject
--   Components      pkg/triggermesh/components: New and the objects of source/source.go and
--                   target/target.go, the annotation of external resources (Components.External),
--                   Finalize of sources and of adapter/reconciler/reconciler.go
--                   (Components.External.Finalization),
--                   the containers and exports of targets and transformations (Components.Exports),
--                   the exports of sources (Components.Exports.Sources) and of brokers
--                   (Components.Exports.Brokers), and GetObject of components.go (Components.Found)
--   Docker          pkg/docker/client.go: the look-up by name, ForceStop, the logs (Docker.Logs), the
--                   waiting (Docker.Waiting) and Start (Docker.Starting); pkg/docker/config.go
--                   (Docker.Options)
--   Stop            cmd/stop/stop.go
--   Load            pkg/load/load.go: parseUserInputTags, and the import of a secret
--   Dump            cmd/dump/dump.go: the dump for Kubernetes and Knative, and its formats; the broker's
--                   static configuration (Dump.Static), the dump for Docker Compose and for plain
--                   deployments (Dump.Workloads), and for Digital Ocean (Dump.Apps)
--   Parameters      pkg/triggermesh/pkg/pkg.go: ParseArgs
--   Completion      pkg/completion/completion.go: the lists for the shell's completion
--   Wiretap         pkg/wiretap/wiretap.go, and watch of cmd/watch/watch.go
--   Tests           the theorems at concrete inputs
--
-- The commands work on a world of a manifest in memory, the files, and what is outside. A function of
-- Go type (T, error) gives a Result, which also has the panics that the code can run into; a method
-- that changes its receiver or a file takes the old state and gives the new one, also where it fails
-- halfway. A map is an association list whose order stands for the order of a range loop. The loops
-- run over lists and are recursions on them, but for three. The waiting loop of the docker client recurs
-- on the number of rounds that its ticker wins before the timeout. GetObject, which calls itself for
-- the target of a trigger, has fuel; fuel above the rank of a name is enough where the targets of the
-- triggers are ranked below them. The deletion gives it a call for each object and one more: where
-- these run out a name has come twice, and the calls never end. The keys for the lists of the editor, which call themselves to pass
-- over a header, have fuel too; one more than the rows that the view shows is enough.
--
-- Code of other packages is a parameter: the YAML and JSON libraries, the URL parser, MD5, the file
-- system, the typed objects and MakeAppEnv functions of the TriggerMesh packages, the query of
-- releases, what the docker daemon and the cloud services do, Base 64, the validation against a
-- schema, the lines that are typed at the terminal, and the views of the terminal library. What is
-- assumed of them stands in the records named IsLawful, WellNamed and NoTag. A text is a list of
-- characters, of which case changes and trimming know the ASCII ones.
--
-- Not modelled: the calls by which the reconcilers set up and clean up external services, where those
-- of the clean-up are a parameter of the deletion that may fail or panic; the download and the listing
-- of the CRDs; the commands that create sources, targets and transformations up to
-- their triggers; the loop of the import over all components; the printed form of the dumps of
-- containers; listing and starting; the layout of the terminal's windows; printing and
-- log lines.
pub mod Base
pub mod Kubernetes
pub mod Disk
pub mod Component
pub mod Manifest
pub mod Broker
pub mod Delete
pub mod Adapter
pub mod Gui
pub mod Tests
pub mod Create
pub mod Settings
pub mod Docker
pub mod Stop
pub mod Crd
pub mod Components
pub mod Service
pub mod Transformation
pub mod Secrets
pub mod Load
pub mod Completion
pub mod Wiretap
pub mod Dump
pub mod Parameters
