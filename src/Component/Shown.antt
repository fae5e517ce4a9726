-- ===== src/Component/Shown.antt =====
-- What the data topology of a component shows.
use operator_component_frame.Prelude.{
  ℕ, String, ◌≡◌, refl, ◌∙◌, Bool, true, Option, none, some, List, [], ◌∷◌, All, any, arith,
}
use operator_component_frame.Cluster.Sends.{All-map}
use operator_component_frame.Resource.{DataCell, DataConsumption, ReconcileEntry}
use operator_component_frame.Topology.{or_empty}
use operator_component_frame.Topology.Order.{writes, IsProvided, IsOrdered}
use operator_component_frame.Component.{Component}
use operator_component_frame.Component.Inspection.{
  DataEdge, add_producers, add_consumer, add_read, add_consumers, edges_with, edges_from,
  data_topology,
}
use operator_component_frame.Component.Edges.{
  shows, has_edge, has_edge-add_producers, shows-add_producers, has_edge-add_read,
  has_edge-add_consumers, shows-add_consumers, add_consumer-shows,
}

-- The read of a cell by a resource is shown on the edge of the cell, as needed or as optional.
abbrev pub IsShown : String → Bool → Option DataCell → List DataEdge → Type 0
IsShown identity optional none es = ⊥
IsShown identity optional (some cell) es = shows identity optional cell.pointer es ≡ true

-- There is an edge for a cell.
abbrev IsLinked : Option DataCell → List DataEdge → Type 0
IsLinked none es = ⊥
IsLinked (some cell) es = has_edge cell.pointer es ≡ true

read-IsShown :
    (i : String) (c : DataConsumption) (cell : Option DataCell) (cs : List DataConsumption)
    (es : List DataEdge)
    → IsLinked cell es
    → IsShown i c.optional cell (add_consumers i cs (add_read i c.optional cell es))
unfolding add_read
read-IsShown i c none cs es h = h
read-IsShown i c (some cell) cs es h =
    shows-add_consumers i cs i c.optional cell.pointer (add_consumer i c.optional cell.pointer es)
      (add_consumer-shows i c.optional cell.pointer es h)

read-IsLinked :
    (i : String) (o : Bool) (c d : Option DataCell) (es : List DataEdge)
    → IsLinked d es
    → IsLinked d (add_read i o c es)
read-IsLinked i o c none es h = h
read-IsLinked i o c (some d) es h = has_edge-add_read i o c d.pointer es ∙ h

add_consumers-IsShown :
    (i : String) (cs : List DataConsumption) (es : List DataEdge)
    → All (λ c. IsLinked c.cell es) cs
    → All (λ c. IsShown i c.optional c.cell (add_consumers i cs es)) cs
unfolding add_consumers
add_consumers-IsShown i [] es h = tt
add_consumers-IsShown i (c ∷ cs) es h = (
  read-IsShown i c c.cell cs es h.0,
  add_consumers-IsShown i cs (add_read i c.optional c.cell es) (
      All-map (λ (d : DataConsumption). IsLinked d.cell es)
        (λ (d : DataConsumption). IsLinked d.cell (add_read i c.optional c.cell es)) cs
        (λ d k. read-IsLinked i c.optional c.cell d.cell es k) h.1),
)

module _ {W : Type 0} where
  shows-edges_from :
      (entries : List (ReconcileEntry W)) (i : String) (o : Bool) (p : ℕ) (es : List DataEdge)
      → shows i o p es ≡ true
      → shows i o p (edges_from entries es) ≡ true
  unfolding edges_from edges_with
  shows-edges_from [] i o p es h = h
  shows-edges_from (e ∷ entries) i o p es h = shows-edges_from entries i o p (edges_with e es) (
      shows-add_consumers e.resource.identity (or_empty e.resource.consumed_data) i o p _
        (shows-add_producers e.resource.identity (or_empty e.resource.produced_data) i o p es h))

  edges_from-IsShown :
      (entries : List (ReconcileEntry W)) (i : String) (o : Bool) (c : Option DataCell)
      (es : List DataEdge)
      → IsShown i o c es
      → IsShown i o c (edges_from entries es)
  edges_from-IsShown entries i o none es h = h
  edges_from-IsShown entries i o (some c) es h = shows-edges_from entries i o c.pointer es h

  provided-IsLinked :
      (earlier : List (ReconcileEntry W)) (e : ReconcileEntry W) (es : List DataEdge)
      (c : Option DataCell)
      → ((p : ℕ) → has_edge p es ≡ any (writes p) earlier)
      → IsProvided earlier c
      → IsLinked c (add_producers e.resource.identity (or_empty e.resource.produced_data) es)
  provided-IsLinked earlier e es none h k = k
  provided-IsLinked earlier e es (some c) h k = ground (
    arith,
    has_edge-add_producers e.resource.identity (or_empty e.resource.produced_data) c.pointer es,
    h c.pointer,
    k,
  )

  -- Every read of the entries is shown.
  abbrev pub AllShown : List (ReconcileEntry W) → List DataEdge → Type 0
  AllShown entries es =
      All
        (λ (e : ReconcileEntry W).
          All (λ (c : DataConsumption). IsShown e.resource.identity c.optional c.cell es)
            (or_empty e.resource.consumed_data))
        entries

  edges_from-AllShown :
      (earlier entries : List (ReconcileEntry W)) (es : List DataEdge)
      → ((p : ℕ) → has_edge p es ≡ any (writes p) earlier)
      → IsOrdered earlier entries
      → AllShown entries (edges_from entries es)
  unfolding edges_from edges_with IsOrdered
  edges_from-AllShown earlier [] es h k = tt
  edges_from-AllShown earlier (e ∷ entries) es h k =
      let i = e.resource.identity in
      let cs = or_empty e.resource.consumed_data in
      let made = add_producers i (or_empty e.resource.produced_data) es in
      (
        All-map (λ (c : DataConsumption). IsShown i c.optional c.cell (add_consumers i cs made))
            (λ (c : DataConsumption).
              IsShown i c.optional c.cell (edges_from entries (add_consumers i cs made)))
            cs (λ c s. edges_from-IsShown entries i c.optional c.cell (add_consumers i cs made) s)
            (add_consumers-IsShown i cs made (
              All-map (λ (c : DataConsumption). IsProvided earlier c.cell)
                (λ (c : DataConsumption). IsLinked c.cell made) cs
                (λ c q. provided-IsLinked earlier e es c.cell h q) k.0)),
        edges_from-AllShown (e ∷ earlier) entries (edges_with e es)
            (λ p. ground (
              arith,
              has_edge-add_consumers i cs p made,
              has_edge-add_producers i (or_empty e.resource.produced_data) p es,
              h p,
            ))
            k.1,
      )

  -- In a component whose reads are each of a cell that an earlier resource writes, as those of every
  -- component that is built are, the data topology shows every read on an edge of the cell: among
  -- the optional readers if it is declared optional, else among the guarded ones.
  pub data_topology-AllShown :
      (c : Component W)
      → IsOrdered [] c.reconcile_resources
      → AllShown c.reconcile_resources (data_topology c)
  unfolding data_topology
  data_topology-AllShown c h = edges_from-AllShown [] c.reconcile_resources [] (λ p. refl) h
