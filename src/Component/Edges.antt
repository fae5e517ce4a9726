-- ===== src/Component/Edges.antt =====
-- The edges of a data topology: which cells have one, and which readers it names.
use operator_component_frame.Prelude.{
  ℕ, String, ◌≡◌, refl, ◌∙◌, Bool, true, ◌&&◌, ◌||◌, Option, none, some, List, [], ◌∷◌, ◌++◌, any,
  str_eq, ◌==◌, if◌then◌else◌, arith, eq_iff,
}
use operator_component_frame.Resource.{DataCell, DataConsumption}
use operator_component_frame.Topology.Order.{is_cell}
use operator_component_frame.Component.Inspection.{
  DataEdge, add_producer, add_producers, add_consumer, add_read, add_consumers,
}

abbrev pub has_text : String → List String → Bool
has_text n names = any (λ m. str_eq m n) names

-- whether there is an edge for a cell
abbrev pub has_edge : ℕ → List DataEdge → Bool
has_edge p es = any (λ e. e.pointer == p) es

-- whether an edge for a cell names a reader of it, among those that need it or those that do not
abbrev pub shows : String → Bool → ℕ → List DataEdge → Bool
shows identity optional p es =
    any (λ e. (e.pointer == p) && has_text identity (if optional then e.optional else e.guarded)) es

text-snoc :
    (n m : String) (ns : List String) → has_text n (ns ++ (m ∷ [])) ≡ (has_text n ns || str_eq m n)
text-snoc n m [] = ground arith
text-snoc n m (x ∷ xs) = ground (arith, text-snoc n m xs)

has_edge-add_producer :
    (i : String) (c : DataCell) (p : ℕ) (es : List DataEdge)
    → has_edge p (add_producer i c es) ≡ (has_edge p es || (c.pointer == p))
unfolding add_producer
has_edge-add_producer i c p [] = ground arith
has_edge-add_producer i c p (e ∷ es) = ground (arith, has_edge-add_producer i c p es)

has_edge-add_consumer :
    (i : String) (o : Bool) (q p : ℕ) (es : List DataEdge)
    → has_edge p (add_consumer i o q es) ≡ has_edge p es
unfolding add_consumer
has_edge-add_consumer i o q p [] = refl
has_edge-add_consumer i o q p (e ∷ es) = ground (arith, has_edge-add_consumer i o q p es)

shows-add_producer :
    (j : String) (c : DataCell) (i : String) (o : Bool) (p : ℕ) (es : List DataEdge)
    → shows i o p es ≡ true
    → shows i o p (add_producer j c es) ≡ true
unfolding add_producer
shows-add_producer j c i o p [] h = ground (arith, h)
shows-add_producer j c i o p (e ∷ es) h = ground (arith, h, shows-add_producer j c i o p es)

pub shows-add_consumer :
    (j : String) (o' : Bool) (q : ℕ) (i : String) (o : Bool) (p : ℕ) (es : List DataEdge)
    → shows i o p es ≡ true
    → shows i o p (add_consumer j o' q es) ≡ true
unfolding add_consumer
shows-add_consumer j o' q i o p [] h = ground (arith, h)
shows-add_consumer j o' q i o p (e ∷ es) h = ground (
  arith,
  h,
  shows-add_consumer j o' q i o p es,
  text-snoc i j e.optional,
  text-snoc i j e.guarded,
)

pub add_consumer-shows :
    (i : String) (o : Bool) (p : ℕ) (es : List DataEdge)
    → has_edge p es ≡ true
    → shows i o p (add_consumer i o p es) ≡ true
unfolding add_consumer
add_consumer-shows i o p [] h = ground (arith, h)
add_consumer-shows i o p (e ∷ es) h = ground (
  arith,
  h,
  add_consumer-shows i o p es,
  text-snoc i i e.optional,
  text-snoc i i e.guarded,
  eq_iff i i,
)

pub has_edge-add_producers :
    (i : String) (cs : List (Option DataCell)) (p : ℕ) (es : List DataEdge)
    → has_edge p (add_producers i cs es) ≡ (has_edge p es || any (is_cell p) cs)
unfolding add_producers
has_edge-add_producers i [] p es = ground arith
has_edge-add_producers i (none ∷ cs) p es = has_edge-add_producers i cs p es
has_edge-add_producers i (some c ∷ cs) p es =
    ground
      (arith, has_edge-add_producers i cs p (add_producer i c es), has_edge-add_producer i c p es)

pub shows-add_producers :
    (j : String) (cs : List (Option DataCell)) (i : String) (o : Bool) (p : ℕ) (es : List DataEdge)
    → shows i o p es ≡ true
    → shows i o p (add_producers j cs es) ≡ true
unfolding add_producers
shows-add_producers j [] i o p es h = h
shows-add_producers j (none ∷ cs) i o p es h = shows-add_producers j cs i o p es h
shows-add_producers j (some c ∷ cs) i o p es h =
    shows-add_producers j cs i o p (add_producer j c es) (shows-add_producer j c i o p es h)

pub has_edge-add_read :
    (i : String) (o : Bool) (c : Option DataCell) (p : ℕ) (es : List DataEdge)
    → has_edge p (add_read i o c es) ≡ has_edge p es
unfolding add_read
has_edge-add_read i o none p es = refl
has_edge-add_read i o (some c) p es = has_edge-add_consumer i o c.pointer p es

pub has_edge-add_consumers :
    (i : String) (cs : List DataConsumption) (p : ℕ) (es : List DataEdge)
    → has_edge p (add_consumers i cs es) ≡ has_edge p es
unfolding add_consumers
has_edge-add_consumers i [] p es = refl
has_edge-add_consumers i (c ∷ cs) p es =
    has_edge-add_consumers i cs p (add_read i c.optional c.cell es)
    ∙ has_edge-add_read i c.optional c.cell p es

shows-add_read :
    (j : String) (o' : Bool) (c : Option DataCell) (i : String) (o : Bool) (p : ℕ)
    (es : List DataEdge)
    → shows i o p es ≡ true
    → shows i o p (add_read j o' c es) ≡ true
unfolding add_read
shows-add_read j o' none i o p es h = h
shows-add_read j o' (some c) i o p es h = shows-add_consumer j o' c.pointer i o p es h

pub shows-add_consumers :
    (j : String) (cs : List DataConsumption) (i : String) (o : Bool) (p : ℕ) (es : List DataEdge)
    → shows i o p es ≡ true
    → shows i o p (add_consumers j cs es) ≡ true
unfolding add_consumers
shows-add_consumers j [] i o p es h = h
shows-add_consumers j (c ∷ cs) i o p es h =
    shows-add_consumers j cs i o p (add_read j c.optional c.cell es)
      (shows-add_read j c.optional c.cell i o p es h)
