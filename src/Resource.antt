-- ===== src/Resource.antt =====
-- The resource interface of pkg/component and the optional interfaces of pkg/component/concepts
-- that the component asks a resource for.
--
-- `W` is everything outside of the package: the cluster, other writers of it, the internal state of
-- the resources and their data cells. A method that may change it takes it and returns it.
use operator_component_frame.Prelude.{ℕ, String, Bool, Option, List, Result, Error}
use operator_component_frame.Status.{StatusWithReason, ConvergingOperation}

-- `metav1.OwnerReference`
pub record OwnerReference : Type 0 where
  pub kind : String
  pub name : String
  pub uid : String
  pub controller : Bool

-- What the package reads and writes of a `client.Object`; `content` stands for its labels,
-- annotations, spec and data, and `status` for its status subresource.
pub record Object : Type 0 where
  pub kind : String
  pub namespace : String
  pub name : String
  pub uid : String
  pub resource_version : String
  pub generation : ℕ
  pub owner_references : List OwnerReference
  pub managed_fields : List String
  pub deletion_timestamp : Option ℕ
  pub deletion_grace_period_seconds : Option ℕ
  pub self_link : String
  pub status : String
  pub content : String

-- `concepts.Suspendable`
pub record Suspendable (W : Type 0) : Type 0 where
  pub delete_on_suspend : W → Bool
  pub suspend : W → Option Error × W
  pub suspension_status : W → Result StatusWithReason

-- A data cell is told apart by its pointer; its name is for messages.
pub record DataCell : Type 0 where
  pub pointer : ℕ
  pub cell_name : String

-- `concepts.DataConsumption`; a nil cell is `none`
pub record DataConsumption : Type 0 where
  pub cell : Option DataCell
  pub optional : Bool

-- `concepts.MutationInspector`
pub record MutationInspector (W : Type 0) : Type 0 where
  pub registered_mutations : W → List String
  pub firing_set : W → Result (List String)

-- `Resource`, with each optional interface that it may implement. `write_object` and
-- `write_mutated` are writes through the pointers that `Object` returned and that `Mutate` kept.
pub record Resource (W : Type 0) : Type 0 where
  pub identity : String
  pub object : W → Result Object
  pub write_object : Object → W → W
  pub mutate : Object → W → Result Object × W
  pub write_mutated : Object → W → W
  pub alive : Option (ConvergingOperation → W → Result StatusWithReason)
  pub operational : Option (ConvergingOperation → W → Result StatusWithReason)
  pub completable : Option (ConvergingOperation → W → Result StatusWithReason)
  pub graceful : Option (W → Result StatusWithReason)
  pub guardable : Option (W → Result StatusWithReason)
  pub suspendable : Option (Suspendable W)
  pub data_extractable : Option (W → Option Error × W)
  pub observation_recorder : Option (Object → W → Option Error × W)
  pub metrics_identifier : Option String
  pub produced_data : Option (List (Option DataCell))
  pub consumed_data : Option (List DataConsumption)
  pub previewable : Option (W → Result (Option Object))
  pub mutation_inspector : Option (MutationInspector W)

-- `ParticipationMode`; the zero value is the empty string
pub data ParticipationMode : Type 0 where
  unset required auxiliary : ParticipationMode

-- `resourceOptions`
pub record ResourceOptions : Type 0 where
  pub delete : Bool
  pub orphan : Bool
  pub read_only : Bool
  pub unowned : Bool
  pub participation_mode : ParticipationMode
  pub suppress_grace_inconsistency_warning : Bool
  pub block_on_absence : Bool
  pub ignore_if_absent : Bool
  pub block_on_foreign_controller : Bool
  pub delete_only_if_owned : Bool

-- `reconcileEntry`
pub record ReconcileEntry (W : Type 0) : Type 0 where
  pub resource : Resource W
  pub options : ResourceOptions

-- `reconcileResult`
pub record ReconcileResult (W : Type 0) : Type 0 where
  pub entry : ReconcileEntry W
  pub status : StatusWithReason
  pub grace_status : Option StatusWithReason
