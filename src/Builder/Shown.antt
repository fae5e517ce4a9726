-- ===== src/Builder/Shown.antt =====
-- What the data topology of a component that a builder builds shows.
use operator_component_frame.Prelude.{◌≡◌, List, ok}
use operator_component_frame.Resource.{DataCell}
use operator_component_frame.Component.{Component}
use operator_component_frame.Component.Inspection.{data_topology}
use operator_component_frame.Component.Shown.{AllShown, data_topology-AllShown}
use operator_component_frame.Builder.{new_component_builder, build}
use operator_component_frame.Builder.Invariant.{
  BuilderCall, call_all, IsWellFormed, build-IsWellFormed,
}

-- Whatever methods of a new builder are called in whatever order, if `Build` then succeeds, the data
-- topology of the component shows every read of a cell that a resource declares on an edge of the cell:
-- among the optional readers if it is declared optional, else among the guarded ones.
pub build-AllShown :
    {W : Type 0} (clear : DataCell → W → W) (calls : List (BuilderCall W)) (c : Component W)
    → build clear (call_all calls new_component_builder) ≡ ok c
    → AllShown c.reconcile_resources (data_topology c)
build-AllShown clear calls c h =
    let well : IsWellFormed c = build-IsWellFormed clear calls c h in
    data_topology-AllShown c well.ordered
