-- ===== src/Objects/Ownership.antt =====
-- Owner references after they are released.
use operator_component_frame.Prelude.{
  String, ◌≡◌, refl, false, List, [], ◌∷◌, any, arith, str_eq, eq_iff,
}
use operator_component_frame.Resource.{OwnerReference, Object}
use operator_component_frame.Objects.{references_owner, owned_by, without_owner}

-- nothing that is left points to the owner
pub released :
    (uid : String) (refs : List OwnerReference)
    → any (references_owner uid) (without_owner uid refs) ≡ false
unfolding references_owner without_owner
released uid [] = refl
released uid (r ∷ refs) = ground (arith, released uid refs)

kept :
    (uid other : String) (refs : List OwnerReference)
    → str_eq uid other ≡ false
    → any (references_owner other) (without_owner uid refs) ≡ any (references_owner other) refs
unfolding references_owner without_owner
kept uid other [] h = refl
kept uid other (r ∷ refs) h =
    ground (arith, kept uid other refs h, eq_iff r.uid uid, eq_iff r.uid other, eq_iff uid other)

-- Releasing an owner leaves an object that this owner does not own any more, and changes nothing
-- about which other owners own it.
pub owned_by-without_owner :
    (obj : Object) (uid other : String)
    → str_eq uid other ≡ false
    → let left = record obj { owner_references = without_owner uid obj.owner_references } in
      (owned_by left uid ≡ false) × (owned_by left other ≡ owned_by obj other)
unfolding owned_by
owned_by-without_owner obj uid other h =
    (released uid obj.owner_references, kept uid other obj.owner_references h)
