-- ===== src/Workload.antt =====
-- The mutators of pkg/primitives/deployment/mutator.go and of the other workloads, which plan edits and
-- apply them.
--
-- An edit function is a function from the part that it edits to the part it leaves, or to its error.
-- What an edit wrote before it failed is dropped: the callers drop the object then.
pub mod Plans
pub mod Mutators
pub mod Presence
pub mod Snapshot
pub mod Kinds
pub mod Features
use operator_component_frame.Prelude.{
  ℕ, suc, String, Option, none, some, List, [], ◌∷◌, Result, ok, err, if◌then◌else◌,
}
use operator_component_frame.Prelude.Results.{◌>>=◌, Edit, run_edits}
use operator_component_frame.Pods.{Container, PodSpec, ObjectMeta, PodTemplate}
use operator_component_frame.Pods.Keyed.{put, remove_first}
use operator_component_frame.Editors.Selectors.{ContainerSelector}

-- `containerEdit`
pub record ContainerEdit : Type 0 where
  pub selector : ContainerSelector
  pub edit : Edit Container

-- `containerPresenceOp`; no container means that it is removed
pub record ContainerPresenceOp : Type 0 where
  pub name : String
  pub container : Option Container

-- the part of `featurePlan` that every workload with a pod template has
pub record PodPlan : Type 0 where
  pub template_metadata_edits : List (Edit ObjectMeta)
  pub pod_spec_edits : List (Edit PodSpec)
  pub container_presence : List ContainerPresenceOp
  pub container_edits : List ContainerEdit
  pub init_container_presence : List ContainerPresenceOp
  pub init_container_edits : List ContainerEdit

abbrev pub container_name : Container → String
container_name c = c.name

-- `applyPresenceOp`
unfoldable pub apply_presence_op : ContainerPresenceOp → List Container → List Container
apply_presence_op op cs = elim op.container [
  | none ↦ remove_first container_name op.name cs
  | some c ↦ put container_name op.name c cs
]

-- the loop over the presence operations of a plan
unfoldable pub apply_presence_ops : List ContainerPresenceOp → List Container → List Container
apply_presence_ops [] cs = cs
apply_presence_ops (op ∷ ops) cs = apply_presence_ops ops (apply_presence_op op cs)

-- the inner loop of `applyContainerEdits`: the edits for the container at an index
unfoldable pub edit_container : List ContainerEdit → ℕ → (snapshot c : Container) → Result Container
edit_container [] i snapshot c = ok c
edit_container (ce ∷ ces) i snapshot c =
    (if ce.selector i snapshot then ce.edit c else ok c) >>= edit_container ces i snapshot

-- the outer loop of `applyContainerEdits`, from an index on, over the snapshots and the containers
unfoldable pub edit_each :
    List ContainerEdit → ℕ → (snapshots cs : List Container) → Result (List Container)
unfolding edit_container
edit_each ces i (snapshot ∷ snapshots) (c ∷ cs) = edit_container ces i snapshot c >>= λ d.
    edit_each ces (suc i) snapshots cs >>= λ ds. ok (d ∷ ds)
edit_each ces i _ cs = ok cs

-- `applyContainerEdits`: the snapshots are copies of the containers before the first edit
unfoldable pub apply_container_edits : List ContainerEdit → List Container → Result (List Container)
unfolding edit_each
apply_container_edits [] cs = ok cs
apply_container_edits (ce ∷ ces) cs = edit_each (ce ∷ ces) 0 cs cs

-- the regular containers of a pod: presence operations, then edits
unfoldable pub apply_containers : PodPlan → Edit PodSpec
unfolding apply_presence_ops apply_container_edits
apply_containers p s =
    apply_container_edits p.container_edits (apply_presence_ops p.container_presence s.containers)
    >>= λ cs. ok (record s { containers = cs })

-- the init containers of a pod: presence operations, then edits
unfoldable pub apply_init_containers : PodPlan → Edit PodSpec
unfolding apply_presence_ops apply_container_edits
apply_init_containers p s =
    apply_container_edits p.init_container_edits
      (apply_presence_ops p.init_container_presence s.init_containers)
    >>= λ cs. ok (record s { init_containers = cs })

-- the pod spec: its edits, then its containers and its init containers
unfoldable pub apply_to_pod_spec : PodPlan → Edit PodSpec
unfolding run_edits apply_containers apply_init_containers
apply_to_pod_spec p s =
    run_edits p.pod_spec_edits s >>= apply_containers p >>= apply_init_containers p

-- the pod template: its metadata, then its spec
unfoldable pub apply_to_template : PodPlan → Edit PodTemplate
unfolding run_edits apply_to_pod_spec
apply_to_template p t = run_edits p.template_metadata_edits t.metadata >>= λ m.
    apply_to_pod_spec p t.spec >>= λ s. ok (record { metadata = m; spec = s })
