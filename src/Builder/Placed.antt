-- ===== src/Builder/Placed.antt =====
-- The three lists of a component, and what registering a resource does to them.
use operator_component_frame.Prelude.{
  ℕ, ◌+◌, String, ◌≡◌, refl, Bool, true, false, List, [], ◌∷◌, ◌++◌, map, All, str_eq,
  if◌then◌else◌, arith,
}
use operator_component_frame.Cluster.Sends.{All-append}
use operator_component_frame.Resource.{Resource, ResourceOptions, ReconcileEntry}
use operator_component_frame.Options.Invariant.{IsCoherent}
use operator_component_frame.Component.{Component}
use operator_component_frame.Builder.{place}

module _ {W : Type 0} where
  -- how many resources of an identity a list has
  abbrev pub count : String → List (Resource W) → ℕ
  count n [] = 0
  count n (r ∷ rs) = (if str_eq r.identity n then 1 else 0) + count n rs

  abbrev pub resource_of : ReconcileEntry W → Resource W
  resource_of e = e.resource

  -- how many resources of an identity a component has, in its three lists
  abbrev pub registered : String → Component W → ℕ
  registered n c =
      count n (map resource_of c.reconcile_resources)
      + (count n (map resource_of c.delete_resources) + count n c.orphan_resources)

  -- Its options are coherent and ask for neither deletion nor orphaning.
  pub record IsReconciled (e : ReconcileEntry W) : Type 0 where
    pub coherent : IsCoherent e.options
    pub not_deleted : e.options.delete ≡ false
    pub not_orphaned : e.options.orphan ≡ false

  -- Its options are coherent and ask for deletion only.
  pub record IsDeleted (e : ReconcileEntry W) : Type 0 where
    pub coherent : IsCoherent e.options
    pub is_deleted : e.options.delete ≡ true
    pub not_orphaned : e.options.orphan ≡ false

  count-snoc :
      (n : String) (rs : List (Resource W)) (r : Resource W)
      → count n (rs ++ (r ∷ [])) ≡ count n rs + (if str_eq r.identity n then 1 else 0)
  count-snoc n [] r = omega arith
  count-snoc n (s ∷ rs) r = omega (arith, count-snoc n rs r)

  count-map_snoc :
      (n : String) (es : List (ReconcileEntry W)) (e : ReconcileEntry W)
      → count n (map resource_of (es ++ (e ∷ [])))
        ≡ count n (map resource_of es) + (if str_eq e.resource.identity n then 1 else 0)
  count-map_snoc n [] e = omega arith
  count-map_snoc n (d ∷ es) e = omega (arith, count-map_snoc n es e)

  pub registered-place :
      (n : String) (orphan delete : Bool) (r : Resource W) (o : ResourceOptions) (c : Component W)
      → registered n (place orphan delete r o c)
        ≡ registered n c + (if str_eq r.identity n then 1 else 0)
  unfolding place
  registered-place n true delete r o c = omega (arith, count-snoc n c.orphan_resources r)
  registered-place n false true r o c =
      omega (arith, count-map_snoc n c.delete_resources (record { resource = r; options = o }))
  registered-place n false false r o c =
      omega (arith, count-map_snoc n c.reconcile_resources (record { resource = r; options = o }))

  pub place-lists :
      (orphan delete : Bool) (r : Resource W) (o : ResourceOptions) (c : Component W)
      → o.orphan ≡ orphan
      → o.delete ≡ delete
      → IsCoherent o
      → All IsReconciled c.reconcile_resources
      → All IsDeleted c.delete_resources
      → All IsReconciled (place orphan delete r o c).reconcile_resources
        × All IsDeleted (place orphan delete r o c).delete_resources
  unfolding place
  place-lists true delete r o c p q h x y = (x, y)
  place-lists false true r o c p q h x y = (
    x,
    All-append IsDeleted c.delete_resources _ y
        (record { coherent = h; is_deleted = q; not_orphaned = p }, tt),
  )
  place-lists false false r o c p q h x y = (
    All-append IsReconciled c.reconcile_resources _ x
        (record { coherent = h; not_deleted = q; not_orphaned = p }, tt),
    y,
  )

  pub place-names :
      (orphan delete : Bool) (r : Resource W) (o : ResourceOptions) (c : Component W)
      → ((place orphan delete r o c).name ≡ c.name)
        × ((place orphan delete r o c).condition_type ≡ c.condition_type)
  unfolding place
  place-names true delete r o c = (refl, refl)
  place-names false true r o c = (refl, refl)
  place-names false false r o c = (refl, refl)
