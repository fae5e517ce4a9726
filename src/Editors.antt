-- ===== src/Editors.antt =====
-- pkg/mutation/editors and pkg/mutation/selectors: the operations of the editors.
--
-- An editor holds a pointer to a part of an object. A method of an editor is a function from the part
-- to the part as the method leaves it.
pub mod Selectors
pub mod Containers
pub mod PodSpecs
pub mod Metadata
pub mod Specs
pub mod Changes
use operator_component_frame.Prelude.{String, List}
use operator_component_frame.Pods.{Entry}
use operator_component_frame.Pods.Keyed.{ensure, remove_all}

abbrev pub key_of : Entry → String
key_of e = e.entry_key

-- the assignment `m[key] = value`, after the map has been made if it was nil
unfoldable pub set_entry : (key value : String) → List Entry → List Entry
set_entry key value = ensure key_of (record { entry_key = key; entry_value = value })

-- `delete(m, key)`
unfoldable pub delete_entry_of : (key : String) → List Entry → List Entry
delete_entry_of key = remove_all key_of key
