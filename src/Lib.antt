-- ===== src/Lib.antt =====
-- The core of the operator component framework: how a component reconciles its resources, and how it
-- reports their state as one condition on its owner.
--
-- A component (pkg/component/component.go) is a list of resources with options. Reconcile clears the
-- data cells, checks the REST mapper, the feature gate and the prerequisites, suspends the resources
-- of a suspended component, or reads and applies its resources in order, aggregates their statuses,
-- runs a state machine with a grace period over the result, stores the condition on the owner in
-- memory, and deletes and releases the resources that are registered for that.
--
-- Status models the words of pkg/component/status.go and pkg/component/concepts and their orders.
-- Condition models pkg/component/conditions.go and replaceStatusCondition; Condition/Meta is the
-- interface of k8s.io/apimachinery's FindStatusCondition and SetStatusCondition, with their documented
-- behaviour, and a list that fills it. Aggregate models pkg/component/aggregate.go and GetCondition.
-- Resource has the types of a resource, of its optional interfaces and of its options. Options models
-- the resolution of options in pkg/component/resource_options.go, Feature the gates and mutations of
-- pkg/feature/feature.go. Converge, Grace and Machine model pkg/component/converge.go: the summaries
-- and the grading of results, the deadlines, and newConvergingStatusCondition.
--
-- Cluster has the state that an action changes: everything outside of the package, the owner in
-- memory, and the calls that the package sends out. Cluster/Monad has the actions: they end in a value
-- or in an error, and keep what was written before the error. Cluster/Sends is the postcondition that
-- the proofs about sent calls share. Objects, Apply, Delete and Pipeline model
-- pkg/component/create.go, read.go, delete.go, extract.go, internal/scope/scope.go and
-- pkg/recording/resource_event.go: applyResource, readResource, observeController, deleteEntry,
-- deleteResources, reconcileResources and applyResources. Suspend models pkg/component/suspend.go,
-- Orphan pkg/component/orphan.go. Component models the component, its prerequisites
-- (pkg/component/prerequisite.go) and its grace period; Component/Phases models Reconcile, phase
-- by phase, Component/Deadline repeats what it does to the condition over a sequence of
-- reconciliations, and Component/Inspection what a component tells without one: Preview,
-- RegisteredMutations, FiringSet and DataTopology. Component/Flush models FlushStatus. Topology
-- models validateDataTopology of pkg/component/data.go. Examples has concrete owners, clusters and
-- components, and applies each theorem to them.
--
-- Builder models pkg/component/builder.go, every method of it. Pods has the parts of a pod that are
-- edited, and Pods/Keyed the lists that are searched by name. Editors models pkg/mutation/selectors
-- and the editors of containers, pod specs, metadata and workload specs in pkg/mutation/editors.
-- Workload models the mutators of pkg/primitives/deployment, daemonset, replicaset, statefulset, job,
-- cronjob and pod (mutator.go of each): plans per feature (Workload/Plans, Workload/Mutators), the
-- passes of Apply (Workload), and what differs between the kinds (Workload/Kinds), which fill the
-- interface Kind. Generic models pkg/generic: ApplyMutations of mutate_helper.go, BaseResource of
-- resource_base.go, the extractions of data.go, and the data cells of pkg/component/concepts/data.go.
-- Handlers models the default status handlers of the seven workloads (handlers.go of each), and their
-- suspend mutations.
--
-- The client, the scheme, the REST mapper, the event recorder, the metrics recorder, reflection and
-- SHA-256 are fields of Cluster.Api. Every call of the client takes and returns the outside world, so
-- that other writers may act between any two calls. A resource's methods are fields of Resource: a
-- method that may write through a pointer takes and returns the world. RetryOnConflict is a parameter
-- of Orphan. A Get is given the empty target of the code with the key of the object that is looked up.
-- Errors carry their message and what errors.As finds in them: no API error, or one that is not found,
-- a conflict, or neither, which wrapping keeps.
--
-- Times are natural numbers of nanoseconds, 0 being Go's zero time; durations are not negative, but
-- for the argument of WithGracePeriod. Versions, generations and grace periods do not overflow. Every
-- loop of the code is over a list and is structural recursion, so there is no fuel. Kinds stand for
-- group, version and kind; labels, annotations, spec and data of an object are one text, `content`.
--
-- An edit function of a mutator is a function from the part that it edits to the part it leaves, or to
-- an error. What was written before an error is dropped, as every caller of Apply drops the object
-- then. Objects are values: a planned container is not changed by edits of the copy that is put into a
-- pod, although the code's copy shares its slices with the plan. Where plans are applied a second time,
-- as a suspension does with the plans of the features, the code may so put back a container that the
-- first time has changed, and the model does not. Maps of texts are lists of entries, a
-- nil map being the empty one. Replica counts, generations and exit codes are natural numbers. `%d` is
-- a parameter of the handlers; `%q` and strconv.Quote put quotes around a text and escape nothing.
-- Type assertions and deep copies of objects are parameters (Generic/Typed.ObjectType). A nil
-- resource, option, gate, prerequisite, edit or selector is `none`.
--
-- Not modelled: logging, as pure output; LiftMutation, which changes the type of a mutation only; the
-- builders of pkg/generic and of the primitives, and the primitives other than the seven workloads;
-- the editors of configuration, policies, services and the other integrations; scaffolding, the
-- command line, observability, test support and the examples of the repository.
pub mod Prelude
pub mod Status
pub mod Condition
pub mod Aggregate
pub mod Resource
pub mod Converge
pub mod Grace
pub mod Machine
pub mod Feature
pub mod Options
pub mod Cluster
pub mod Objects
pub mod Apply
pub mod Delete
pub mod Pipeline
pub mod Suspend
pub mod Orphan
pub mod Component
pub mod Topology
pub mod Builder
pub mod Pods
pub mod Editors
pub mod Workload
pub mod Generic
pub mod Handlers
pub mod Examples
