-- ===== src/Generic.antt =====
-- pkg/generic: the resource that the primitives are built on. It runs the feature mutations on the
-- object, keeps the mutated object, and answers for its data, its guard and its suspension.
pub mod Mutations
pub mod Cells
pub mod Base
pub mod Typed
pub mod Mutate
pub mod Firing
pub mod Guard
