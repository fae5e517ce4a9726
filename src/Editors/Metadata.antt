-- ===== src/Editors/Metadata.antt =====
-- pkg/mutation/editors/objectmeta.go: the editor of an object's metadata.
use operator_component_frame.Prelude.{String}
use operator_component_frame.Pods.{ObjectMeta}
use operator_component_frame.Editors.{set_entry, delete_entry_of}

-- `EnsureLabel`
unfoldable pub ensure_label : (key value : String) → ObjectMeta → ObjectMeta
ensure_label key value m = record m { labels = set_entry key value m.labels }

-- `RemoveLabel`
unfoldable pub remove_label : String → ObjectMeta → ObjectMeta
remove_label key m = record m { labels = delete_entry_of key m.labels }

-- `EnsureAnnotation`
unfoldable pub ensure_annotation : (key value : String) → ObjectMeta → ObjectMeta
ensure_annotation key value m = record m { annotations = set_entry key value m.annotations }

-- `RemoveAnnotation`
unfoldable pub remove_annotation : String → ObjectMeta → ObjectMeta
remove_annotation key m = record m { annotations = delete_entry_of key m.annotations }
