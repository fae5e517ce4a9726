-- ===== src/Delete/Parts.antt =====
-- One error of a deletion does not keep the rest from being tried.
use operator_component_frame.Prelude.{
  String, ◌≡◌, refl, ◌∙◌, ap, List, [], ◌∷◌, ◌++◌, Result, ok, err, Error,
}
use operator_component_frame.Resource.{ReconcileEntry}
use operator_component_frame.Cluster.{Api, State}
use operator_component_frame.Delete.{delete_one, delete_all, gathered}

gathered-++ :
    {A : Type 0} (r : Result A) (es fs : List Error) → gathered r (es ++ fs) ≡ gathered r es ++ fs
gathered-++ (ok a) es fs = refl
gathered-++ (err e) es fs = refl

module _ {W : Type 0} (api : Api W) where
  -- An error does not keep a later entry from being deleted: a list of entries is worked off by
  -- working off any first part and then, from the state that this leaves, the rest, and the errors
  -- of both are returned in their order.
  pub delete_all-++ :
      (reason : String) (xs ys : List (ReconcileEntry W)) (s : State W)
      → delete_all api reason (xs ++ ys) s ≡ (
        (delete_all api reason xs s).0
            ++ (delete_all api reason ys (delete_all api reason xs s).1).0,
        (delete_all api reason ys (delete_all api reason xs s).1).1,
      )
  unfolding delete_all
  delete_all-++ reason [] ys s = refl
  delete_all-++ reason (entry ∷ xs) ys s =
      ap (λ (r : List Error × State W). (gathered (delete_one api reason entry s).0 r.0, r.1))
        (delete_all-++ reason xs ys (delete_one api reason entry s).1)
      ∙ ap
          (λ (es : List Error). (
            es,
            (delete_all api reason ys
                (delete_all api reason xs (delete_one api reason entry s).1).1).1,
          ))
          (gathered-++ (delete_one api reason entry s).0 _ _)
