-- ===== src/Workload/Presence.antt =====
-- What the presence operations of a plan do to the containers, as a map from names to containers.
use operator_component_frame.Prelude.{
  String, ◌≡◌, refl, sym, ap, ◌∙◌, Option, none, some, List, [], ◌∷◌, All, str_eq, if◌then◌else◌,
}
use operator_component_frame.Pods.{Container}
use operator_component_frame.Pods.Keyed.{
  find, IsUnique, find-ensure, find-remove_first, ensure-IsUnique, remove_first-IsUnique,
}
use operator_component_frame.Workload.{
  ContainerPresenceOp, container_name, apply_presence_op, apply_presence_ops,
}

-- The name of the operation is the name of its container.
abbrev IsNamedFor : Option Container → String → Type 0
IsNamedFor none n = Unit
IsNamedFor (some c) n = c.name ≡ n

abbrev pub IsNamed : ContainerPresenceOp → Type 0
IsNamed op = IsNamedFor op.container op.name

-- What the operations say of a name, given what was there: the last operation for the name decides.
abbrev pub said : List ContainerPresenceOp → String → Option Container → Option Container
said [] n before = before
said (op ∷ ops) n before = said ops n (if str_eq op.name n then op.container else before)

op-find :
    (name : String) (c : Option Container) (cs : List Container) (n : String)
    → IsNamedFor c name
    → IsUnique container_name cs
    → let op : ContainerPresenceOp = record { name = name; container = c } in
      find container_name n (apply_presence_op op cs)
      ≡ (if str_eq name n then c else find container_name n cs)
unfolding apply_presence_op
op-find name none cs n h u = find-remove_first container_name name cs n u
op-find name (some c) cs n h u = rw (sym h) (find-ensure container_name c cs n)

op-IsUnique :
    (name : String) (c : Option Container) (cs : List Container)
    → IsNamedFor c name
    → IsUnique container_name cs
    → IsUnique container_name (apply_presence_op (record { name = name; container = c }) cs)
unfolding apply_presence_op
op-IsUnique name none cs h u = remove_first-IsUnique container_name name cs u
op-IsUnique name (some c) cs h u = rw (sym h) (ensure-IsUnique container_name c cs u)

-- For operations whose name is that of their container, and containers with distinct names, the names
-- stay distinct, and looking up a name afterwards gives what the last operation for that name says,
-- or else what was there.
pub apply_presence_ops-refines :
    (ops : List ContainerPresenceOp) (cs : List Container)
    → All IsNamed ops
    → IsUnique container_name cs
    → IsUnique container_name (apply_presence_ops ops cs)
      × ((n : String)
          → find container_name n (apply_presence_ops ops cs)
            ≡ said ops n (find container_name n cs))
unfolding apply_presence_ops
apply_presence_ops-refines [] cs h u = (u, λ n. refl)
apply_presence_ops-refines (op ∷ ops) cs h u =
    let rest =
      apply_presence_ops-refines ops (apply_presence_op op cs) h.1
        (op-IsUnique op.name op.container cs h.0 u) in
    (rest.0, λ n. rest.1 n ∙ ap (said ops n) (op-find op.name op.container cs n h.0 u))
