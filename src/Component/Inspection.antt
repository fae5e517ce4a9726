-- ===== src/Component/Inspection.antt =====
-- pkg/component/component.go and data.go: what a component tells of itself without a reconcile.
use operator_component_frame.Prelude.{
  ℕ, String, Bool, Option, none, some, List, [], ◌∷◌, ◌++◌, Result, ok, err, new_error, concat,
  ◌==◌, if◌then◌else◌,
}
use operator_component_frame.Prelude.Results.{◌>>=◌, with_context}
use operator_component_frame.Resource.{Object, Resource, DataCell, DataConsumption, ReconcileEntry}
use operator_component_frame.Topology.{or_empty}
use operator_component_frame.Generic.Base.{add_name}
use operator_component_frame.Component.{Component}

-- `concepts.DataEdge`, with the pointer of its cell
pub record DataEdge : Type 0 where
  pub pointer : ℕ
  pub data_name : String
  pub producers : List String
  pub guarded : List String
  pub optional : List String

-- the inner loop of `Component.RegisteredMutations`: names not seen yet are added
unfoldable pub add_names : List String → List String → List String
unfolding add_name
add_names names [] = names
add_names names (n ∷ ns) = add_names (add_name n names) ns

-- a producer of a cell, added to the edge of the cell, which is made if there is none yet
unfoldable pub add_producer : String → DataCell → List DataEdge → List DataEdge
add_producer identity cell [] =
    record {
      pointer = cell.pointer;
      data_name = cell.cell_name;
      producers = identity ∷ [];
      guarded = [];
      optional = [];
    }
    ∷ []
add_producer identity cell (e ∷ es) =
    let rest = add_producer identity cell es in
    if e.pointer == cell.pointer
    then record e { producers = e.producers ++ (identity ∷ []) } ∷ es
    else e ∷ rest

-- a reader of a cell, added to the edge of the cell, if there is one
unfoldable pub add_consumer : String → Bool → ℕ → List DataEdge → List DataEdge
add_consumer identity optional pointer [] = []
add_consumer identity optional pointer (e ∷ es) =
    let rest = add_consumer identity optional pointer es in
    if e.pointer == pointer
    then (if optional
        then record e { optional = e.optional ++ (identity ∷ []) }
        else record e { guarded = e.guarded ++ (identity ∷ []) })
      ∷ es
    else e ∷ rest

-- the loop over the produced cells; a nil cell, which `Build` rejects, is left out
unfoldable pub add_producers : String → List (Option DataCell) → List DataEdge → List DataEdge
unfolding add_producer
add_producers identity [] es = es
add_producers identity (none ∷ cells) es = add_producers identity cells es
add_producers identity (some cell ∷ cells) es =
    add_producers identity cells (add_producer identity cell es)

-- one read; there is no edge for a nil cell
unfoldable pub add_read : String → Bool → Option DataCell → List DataEdge → List DataEdge
unfolding add_consumer
add_read identity optional none es = es
add_read identity optional (some cell) es = add_consumer identity optional cell.pointer es

-- the loop over the consumed cells
unfoldable pub add_consumers : String → List DataConsumption → List DataEdge → List DataEdge
unfolding add_read
add_consumers identity [] es = es
add_consumers identity (c ∷ cs) es =
    add_consumers identity cs (add_read identity c.optional c.cell es)

module _ {W : Type 0} where
  -- the preview of one resource, taken apart
  unfoldable pub preview_of : Resource W → Option (W → Result (Option Object)) → W → Result Object
  preview_of r none w = err (
      new_error (
        concat (
          "resource \"" ∷ r.identity
          ∷ "\" does not implement concepts.Previewable and cannot be previewed" ∷ [])))
  preview_of r (some preview) w =
      with_context ("preview resource \"" ∷ r.identity ∷ "\"" ∷ []) (preview w) >>= λ obj.
      elim obj [
        | none ↦ err (
            new_error
              (concat ("preview resource \"" ∷ r.identity ∷ "\": returned a nil object" ∷ [])))
        | some o ↦ ok o
      ]

  -- the loop of `Preview`: read-only resources are left out
  unfoldable pub preview_all : List (ReconcileEntry W) → W → Result (List Object)
  unfolding preview_of
  preview_all [] w = ok []
  preview_all (e ∷ es) w =
      let rest = preview_all es w in
      if e.options.read_only
      then rest
      else (preview_of e.resource e.resource.previewable w >>= λ o. rest >>= λ os. ok (o ∷ os))

  -- `Component.Preview`
  unfoldable pub preview : Component W → W → Result (List Object)
  unfolding preview_all
  preview c w = preview_all c.reconcile_resources w

  -- the names that one resource registers, if it is asked
  unfoldable pub registered_of : ReconcileEntry W → W → List String
  registered_of e w = if e.options.read_only then [] else elim e.resource.mutation_inspector [
    | none ↦ []
    | some inspector ↦ inspector.registered_mutations w
  ]

  -- the names that one resource fires, if it is asked
  unfoldable pub firing_of : ReconcileEntry W → W → Result (List String)
  firing_of e w = if e.options.read_only then ok [] else elim e.resource.mutation_inspector [
    | none ↦ ok []
    | some inspector ↦
        with_context ("firing set for resource \"" ∷ e.resource.identity ∷ "\"" ∷ [])
          (inspector.firing_set w)
  ]

  -- the loop of `Component.RegisteredMutations`
  unfoldable pub registered_from : List String → List (ReconcileEntry W) → W → List String
  unfolding registered_of add_names
  registered_from names [] w = names
  registered_from names (e ∷ es) w = registered_from (add_names names (registered_of e w)) es w

  -- `Component.RegisteredMutations`
  unfoldable pub component_registered_mutations : Component W → W → List String
  unfolding registered_from
  component_registered_mutations c w = registered_from [] c.reconcile_resources w

  -- the loop of `Component.FiringSet`
  unfoldable pub firing_from : List String → List (ReconcileEntry W) → W → Result (List String)
  unfolding firing_of add_names
  firing_from firing [] w = ok firing
  firing_from firing (e ∷ es) w =
      firing_of e w >>= λ names. firing_from (add_names firing names) es w

  -- `Component.FiringSet`
  unfoldable pub component_firing_set : Component W → W → Result (List String)
  unfolding firing_from
  component_firing_set c w = firing_from [] c.reconcile_resources w

  -- one round of `DataTopology`: the cells that a resource writes, then those that it reads
  unfoldable pub edges_with : ReconcileEntry W → List DataEdge → List DataEdge
  unfolding add_producers add_consumers
  edges_with e es =
      add_consumers e.resource.identity (or_empty e.resource.consumed_data)
        (add_producers e.resource.identity (or_empty e.resource.produced_data) es)

  -- the loop of `DataTopology`
  unfoldable pub edges_from : List (ReconcileEntry W) → List DataEdge → List DataEdge
  unfolding edges_with
  edges_from [] es = es
  edges_from (e ∷ entries) es = edges_from entries (edges_with e es)

  -- `DataTopology`: the edges in the order of their first producers
  unfoldable pub data_topology : Component W → List DataEdge
  unfolding edges_from
  data_topology c = edges_from c.reconcile_resources []
