-- ===== src/Component/Earliest.antt =====
-- The requeue delay of an owner with several components.
use operator_component_frame.Prelude.{
  ℕ, ◌≡◌, refl, sym, ◌∙◌, ◌≤◌, Option, none, some, List, [], ◌∷◌, All, Any, arith, ◌⊎◌, inl, inr,
}
use operator_component_frame.Condition.{Owner}
use operator_component_frame.Condition.Meta.{MetaApi}
use operator_component_frame.Component.{
  Clocked, clocked_remaining, earlier, earliest_from, earliest_grace_remaining,
}

-- The delay, if there is one, is at most the other.
abbrev pub AtMost : Option ℕ → Option ℕ → Type 0
AtMost d none = Unit
AtMost none (some r) = ⊥
AtMost (some d) (some r) = d ≤ r

AtMost-refl : (d : Option ℕ) → AtMost d d
AtMost-refl none = tt
AtMost-refl (some d) = omega arith

AtMost-trans : (a b c : Option ℕ) → AtMost a b → AtMost b c → AtMost a c
AtMost-trans a b none h k = tt
AtMost-trans a none (some c) h k = elim k [ ]
AtMost-trans none (some b) (some c) h k = elim h [ ]
AtMost-trans (some a) (some b) (some c) h k = omega arith

earlier-AtMost : (a b : Option ℕ) → AtMost (earlier a b) a × AtMost (earlier a b) b
unfolding earlier
earlier-AtMost none none = (tt, tt)
earlier-AtMost (some a) none = (omega arith, tt)
earlier-AtMost none (some b) = (tt, omega arith)
earlier-AtMost (some a) (some b) = ground arith

earlier_origin : (a b : Option ℕ) → (earlier a b ≡ a) ⊎ (earlier a b ≡ b)
unfolding earlier
earlier_origin a none = inl refl
earlier_origin none (some b) = inr refl
earlier_origin (some a) (some b) = ground arith

module _ {W : Type 0} (meta : MetaApi) (owner : Owner) where
  abbrev pub answer : Clocked W → Option ℕ
  answer p = clocked_remaining meta owner p

  from-AtMost :
      (e : Option ℕ) (comps : List (Clocked W))
      → AtMost (earliest_from meta e owner comps) e
        × All (λ (p : Clocked W). AtMost (earliest_from meta e owner comps) (answer p)) comps
  unfolding earliest_from
  from-AtMost e [] = (AtMost-refl e, tt)
  from-AtMost e (p ∷ comps) =
      let f = earlier e (answer p) in
      let h = from-AtMost f comps in
      let k = earlier-AtMost e (answer p) in
      (AtMost-trans _ f e h.0 k.0, (AtMost-trans _ f (answer p) h.0 k.1, h.1))

  from_origin :
      (e : Option ℕ) (comps : List (Clocked W))
      → (earliest_from meta e owner comps ≡ e)
        ⊎ Any (λ (p : Clocked W). answer p ≡ earliest_from meta e owner comps) comps
  unfolding earliest_from
  from_origin e [] = inl refl
  from_origin e (p ∷ comps) = elim (from_origin (earlier e (answer p)) comps) [
    | inl h ↦ elim (earlier_origin e (answer p)) [
      | inl k ↦ inl (h ∙ k)
      | inr k ↦ inr (inl (sym (h ∙ k)))
    ]
    | inr h ↦ inr (inr h)
  ]

  -- The requeue delay of several components, each with its own clock, is no later than the delay of
  -- any of them that has one, and it is the delay of one of them, or there is none.
  pub earliest_grace_remaining-AtMost :
      (comps : List (Clocked W))
      → All (λ (p : Clocked W). AtMost (earliest_grace_remaining meta owner comps) (answer p)) comps
        × ((earliest_grace_remaining meta owner comps ≡ none)
            ⊎ Any (λ (p : Clocked W). answer p ≡ earliest_grace_remaining meta owner comps) comps)
  unfolding earliest_grace_remaining
  earliest_grace_remaining-AtMost comps = ((from-AtMost none comps).1, from_origin none comps)
