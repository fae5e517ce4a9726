-- ===== src/Workload/Snapshot.antt =====
-- The loops of the container edits, exchanged: edit by edit instead of container by container.
use operator_component_frame.Prelude.{
  ℕ, suc, ◌≡◌, refl, sym, ap, ◌∙◌, Option, none, some, List, [], ◌∷◌, Result, ok, err,
  if◌then◌else◌,
}
use operator_component_frame.Prelude.Results.{◌>>=◌, bind_assoc}
use operator_component_frame.Pods.{Container}
use operator_component_frame.Workload.{
  ContainerEdit, edit_container, edit_each, apply_container_edits,
}
use mathlib.Core.Option

-- the value of a result, whatever the error is
abbrev pub value_of : {A : Type 0} → Result A → Option A
value_of (ok a) = some a
value_of (err e) = none

-- one edit on every container, from an index on, that it selects by the snapshots
unfoldable pub edit_selected :
    ContainerEdit → ℕ → (snapshots cs : List Container) → Result (List Container)
edit_selected ce i (snapshot ∷ snapshots) (c ∷ cs) =
    (if ce.selector i snapshot then ce.edit c else ok c) >>= λ d.
    edit_selected ce (suc i) snapshots cs >>= λ ds. ok (d ∷ ds)
edit_selected ce i _ cs = ok cs

-- the edits in their order, each on all of its containers before the next
unfoldable pub edit_by_edit :
    List ContainerEdit → ℕ → (snapshots cs : List Container) → Result (List Container)
unfolding edit_selected
edit_by_edit [] i snapshots cs = ok cs
edit_by_edit (ce ∷ ces) i snapshots cs =
    edit_selected ce i snapshots cs >>= edit_by_edit ces i snapshots

value_map :
    {A B : Type 0} (f : A → B) (r : Result A)
    → value_of (r >>= λ a. ok (f a)) ≡ Option.map f (value_of r)
value_map f (ok a) = refl
value_map f (err e) = refl

module _ {A : Type 0} where
  value_same :
      (b : Result A) (l r : Result (List A))
      → value_of l ≡ value_of r
      → value_of (b >>= λ d. l >>= λ ds. ok (d ∷ ds))
        ≡ value_of (b >>= λ d. r >>= λ ds. ok (d ∷ ds))
  value_same (ok d) l r h =
      value_map (◌∷◌ d) l ∙ ap (Option.map (◌∷◌ d)) h ∙ sym (value_map (◌∷◌ d) r)
  value_same (err e) l r h = refl

  -- a step that does not depend on another may come after it
  value_swap :
      (b : Result A) (x : Result (List A)) (k : List A → Result (List A))
      → value_of (b >>= λ d. x >>= k >>= λ ds. ok (d ∷ ds))
        ≡ value_of (x >>= λ ds. b >>= λ d. k ds >>= λ es. ok (d ∷ es))
  value_swap (ok d) (ok ds) k = refl
  value_swap (ok d) (err e) k = refl
  value_swap (err e) (ok ds) k = refl
  value_swap (err e) (err f) k = refl

-- the step of the exchange, for one container whose first edit ended in a result
exchange :
    (ces : List ContainerEdit) (i : ℕ) (s : Container) (ss : List Container)
    (first : Result Container) (l x : Result (List Container))
    → value_of l ≡ value_of (x >>= edit_each ces (suc i) ss)
    → value_of (first >>= edit_container ces i s >>= λ d. l >>= λ ds. ok (d ∷ ds))
      ≡ value_of (first >>= (λ d. x >>= λ ds. ok (d ∷ ds)) >>= edit_each ces i (s ∷ ss))
unfolding edit_each
exchange ces i s ss (err e) l x h = refl
exchange ces i s ss (ok c) l x h =
    value_same (edit_container ces i s c) l (x >>= edit_each ces (suc i) ss) h
    ∙ value_swap (edit_container ces i s c) x (edit_each ces (suc i) ss)
    ∙ sym (ap value_of (bind_assoc x (λ ds. ok (c ∷ ds)) (edit_each ces i (s ∷ ss))))

edit_each-cons :
    (ce : ContainerEdit) (ces : List ContainerEdit) (i : ℕ) (snapshots cs : List Container)
    → value_of (edit_each (ce ∷ ces) i snapshots cs)
      ≡ value_of (edit_selected ce i snapshots cs >>= edit_each ces i snapshots)
unfolding edit_each edit_selected edit_container
edit_each-cons ce ces i [] [] = refl
edit_each-cons ce ces i [] (c ∷ cs) = refl
edit_each-cons ce ces i (s ∷ ss) [] = refl
edit_each-cons ce ces i (s ∷ ss) (c ∷ cs) =
    exchange ces i s ss (if ce.selector i s then ce.edit c else ok c)
      (edit_each (ce ∷ ces) (suc i) ss cs) (edit_selected ce (suc i) ss cs)
      (edit_each-cons ce ces (suc i) ss cs)

edit_each-nil : (i : ℕ) (ss cs : List Container) → edit_each [] i ss cs ≡ ok cs
unfolding edit_each edit_container
edit_each-nil i [] [] = refl
edit_each-nil i [] (c ∷ cs) = refl
edit_each-nil i (s ∷ ss) [] = refl
edit_each-nil i (s ∷ ss) (c ∷ cs) = rw (edit_each-nil (suc i) ss cs) refl

value_bind :
    {A B : Type 0} (r : Result A) (f g : A → Result B)
    → ((a : A) → value_of (f a) ≡ value_of (g a))
    → value_of (r >>= f) ≡ value_of (r >>= g)
value_bind (ok a) f g h = h a
value_bind (err e) f g h = refl

each-by_edit :
    (ces : List ContainerEdit) (i : ℕ) (ss cs : List Container)
    → value_of (edit_each ces i ss cs) ≡ value_of (edit_by_edit ces i ss cs)
unfolding edit_by_edit
each-by_edit [] i ss cs = ap value_of (edit_each-nil i ss cs)
each-by_edit (ce ∷ ces) i ss cs =
    edit_each-cons ce ces i ss cs
    ∙ value_bind (edit_selected ce i ss cs) (edit_each ces i ss) (edit_by_edit ces i ss)
        (λ ds. each-by_edit ces i ss ds)

-- Going through the containers and making on each the edits that its snapshot selects has the same
-- outcome as making the edits in their order, each on all the containers that the snapshots select: the
-- same containers, or an error in both.
pub apply_container_edits-edit_by_edit :
    (ces : List ContainerEdit) (cs : List Container)
    → value_of (apply_container_edits ces cs) ≡ value_of (edit_by_edit ces 0 cs cs)
unfolding apply_container_edits edit_by_edit
apply_container_edits-edit_by_edit [] cs = refl
apply_container_edits-edit_by_edit (ce ∷ ces) cs = each-by_edit (ce ∷ ces) 0 cs cs
