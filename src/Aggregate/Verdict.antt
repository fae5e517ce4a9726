-- ===== src/Aggregate/Verdict.antt =====
-- The two decisions of an aggregation: truth by unanimity, the reason by priority.
use operator_component_frame.Prelude.{
  ℕ, ◌+◌, ◌≤◌, ◌<◌, String, ◌≡◌, refl, sym, ap, ◌∙◌, Bool-cases, ltb→lt, nltb→le, ◌⊎◌, inl, inr,
  Bool, ◌&&◌, List, [], ◌∷◌, ◌++◌, all, All, arith, ltb, if◌then◌else◌,
}
use operator_component_frame.Status.{Status, priority}
use operator_component_frame.Condition.{Condition, Owner, holds, status_of}
use operator_component_frame.Condition.Meta.{MetaApi}
use operator_component_frame.Aggregate.{
  Member, supersedes, get_condition, aggregate_loop, aggregate, aggregate_message,
}

module _ (meta : MetaApi) (owner : Owner) where
  abbrev cond_of : Member → Condition
  cond_of m = get_condition meta m.condition_type owner

  abbrev is_ready : Member → Bool
  is_ready m = holds (get_condition meta m.condition_type owner).status

  loop_unanimous :
      (ms : List Member) (g : Member) (c : Condition) (u : Bool)
      → (aggregate_loop meta owner ms g c u).2 ≡ (all is_ready ms && u)
  unfolding aggregate_loop
  loop_unanimous [] g c u = refl
  loop_unanimous (m ∷ ms) g c u = ground (
    arith,
    loop_unanimous ms (if supersedes (cond_of m) c then m else g)
        (if supersedes (cond_of m) c then cond_of m else c) (holds (cond_of m).status && u),
  )

  -- The aggregate is True exactly when there is a component and every component's condition is
  -- True, whatever the priorities are.
  pub aggregate_unanimous :
      (t : String) (m : Member) (ms : List Member)
      → (aggregate meta t owner (m ∷ ms)).status ≡ status_of (all is_ready (m ∷ ms))
  unfolding aggregate
  aggregate_unanimous t m ms = ground (arith, loop_unanimous ms m (cond_of m) (is_ready m))

-- How urgent a condition is to its reader: one that is not True goes before every one that is.
pub rank : Condition → ℕ
unfolding priority
rank c = (if holds c.status then 0 else 21) + priority c.reason

priority_bound : (s : Status) → priority s ≤ 20
unfolding priority
priority_bound s = ground arith

supersedes-rank : (a b : Condition) → supersedes a b ≡ ltb (rank b) (rank a)
unfolding supersedes rank
supersedes-rank a b = ground (arith, priority_bound a.reason, priority_bound b.reason)

module _ (meta : MetaApi) (owner : Owner) where
  abbrev rank_of : Member → ℕ
  rank_of m = rank (get_condition meta m.condition_type owner)

  -- The member is the first of the most urgent ones of the list.
  pub record IsGoverning (ms : List Member) (g : Member) : Type 0 where
    pub before : List Member
    pub after : List Member
    pub here : ms ≡ before ++ g ∷ after
    pub first : All (λ p. rank_of p < rank_of g) before
    pub top : All (λ q. rank_of q ≤ rank_of g) after

  record Beats (g r : Member) (ms : List Member) : Type 0 where
    governs : IsGoverning ms r
    above : rank_of g < rank_of r

  abbrev Leads : Member → Member → List Member → Type 0
  Leads g r ms = ((r ≡ g) × All (λ q. rank_of q ≤ rank_of g) ms) ⊎ Beats g r ms

  Beats-next :
      (m g r : Member) (ms : List Member)
      → rank_of m < rank_of r
      → rank_of g < rank_of r
      → IsGoverning ms r
      → Beats g r (m ∷ ms)
  Beats-next m g r ms hm hg b = record {
    governs = record {
      before = m ∷ b.before;
      after = b.after;
      here = ap (λ (l : List Member). m ∷ l) b.here;
      first = (hm, b.first);
      top = b.top;
    };
    above = hg;
  }

  Leads-moved :
      (m g r : Member) (ms : List Member)
      → rank_of g < rank_of m
      → Leads m r ms
      → Beats g r (m ∷ ms)
  Leads-moved m g r ms h (inl (same, top)) = record {
    governs = record {
      before = [];
      after = ms;
      here = ap (λ (x : Member). x ∷ ms) (sym same);
      first = tt;
      top = rw same top;
    };
    above = rw same h;
  }
  Leads-moved m g r ms h (inr b) = Beats-next m g r ms b.above (omega (arith, h, b.above)) b.governs

  Leads-stayed :
      (m g r : Member) (ms : List Member)
      → rank_of m ≤ rank_of g
      → Leads g r ms
      → Leads g r (m ∷ ms)
  Leads-stayed m g r ms h (inl (same, top)) = inl (same, (h, top))
  Leads-stayed m g r ms h (inr b) =
      inr (Beats-next m g r ms (omega (arith, h, b.above)) b.above b.governs)

  abbrev LoopGoverns : List Member → Member → Member × Condition × Bool → Type 0
  LoopGoverns ms g r = (r.1 ≡ get_condition meta r.0.condition_type owner) × Leads g r.0 ms

  loop_governs :
      (ms : List Member) (g : Member) (u : Bool)
      → LoopGoverns ms g
          (aggregate_loop meta owner ms g (get_condition meta g.condition_type owner) u)
  unfolding aggregate_loop
  loop_governs [] g u = (refl, inl (refl, tt))
  loop_governs (m ∷ ms) g u =
      let cm = get_condition meta m.condition_type owner in
      let cg = get_condition meta g.condition_type owner in
      let moved = loop_governs ms m (holds cm.status && u) in
      let stayed = loop_governs ms g (holds cm.status && u) in
      elim (Bool-cases (supersedes cm cg)) [
        | inl e ↦
            rw (e, aggregate_loop)
              (
                moved.0,
                inr (Leads-moved m g _ ms (ltb→lt _ _ (sym (supersedes-rank cm cg) ∙ e)) moved.1),
              )
        | inr e ↦
            rw (e, aggregate_loop)
              (
                stayed.0,
                Leads-stayed m g _ ms (nltb→le _ _ (sym (supersedes-rank cm cg) ∙ e)) stayed.1,
              )
      ]

  Leads-IsGoverning : (m r : Member) (ms : List Member) → Leads m r ms → IsGoverning (m ∷ ms) r
  Leads-IsGoverning m r ms (inl (same, top)) = record {
    before = [];
    after = ms;
    here = ap (λ (x : Member). x ∷ ms) (sym same);
    first = tt;
    top = rw same top;
  }
  Leads-IsGoverning m r ms (inr b) = (Beats-next m m r ms b.above b.above b.governs).governs

  -- The reason and the message come from one component of the list: every component before it is
  -- strictly less urgent and none after it is more urgent, where a condition that is not True is
  -- more urgent than every one that is, and otherwise the priority of the reason decides.
  pub aggregate-IsGoverning :
      (t : String) (m : Member) (ms : List Member)
      → (g : Member) × IsGoverning (m ∷ ms) g
        × ((aggregate meta t owner (m ∷ ms)).reason
            ≡ (get_condition meta g.condition_type owner).reason)
        × ((aggregate meta t owner (m ∷ ms)).message
            ≡ aggregate_message g.name (get_condition meta g.condition_type owner).message)
  unfolding aggregate
  aggregate-IsGoverning t m ms =
      let cm = get_condition meta m.condition_type owner in
      let r = aggregate_loop meta owner ms m cm (holds cm.status) in
      let h = loop_governs ms m (holds cm.status) in
      (
        r.0,
        Leads-IsGoverning m r.0 ms h.1,
        ap (λ (c : Condition). c.reason) h.0,
        ap (λ (c : Condition). aggregate_message r.0.name c.message) h.0,
      )
