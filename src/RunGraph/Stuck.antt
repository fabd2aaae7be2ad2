-- ===== src/RunGraph/Stuck.antt =====
-- The loop never finds a graph without cycles stuck: if no node is running and none is ready, none is pending.
use c4harness.Base.{
  ℕ, zero, suc, ◌<◌, String, ◌≡◌, ◌≢◌, refl, sym, ◌∙◌, true, Option, none, some, List, [], ◌∷◌,
  keys, values, lookup, contains, contains_self, contains_tail, contains-cons, contains-keys,
  lookup-has_key, all, missing, missing-le, missing-cons-lt, length, Nodup, string_eq, arith, inl,
  inr, ◌⊎◌, Bool-cases,
}
use c4harness.Core.Types.{TaskContractGraph}
use c4harness.Core.Walks.{one, Walk-append}
use c4harness.Core.Acyclic.Decides.{GraphWalk, IsAcyclic}
use c4harness.Scheduler.{
  NodeState, pending, running, succeeded, failed, blocked, is_final, Outcomes, GraphScheduler,
  is_terminal, outcomes_final, sources_of,
}
use c4harness.Scheduler.Propagate.Scan.{requires}
use c4harness.Scheduler.Propagate.Loop.{not_in_nil}
use c4harness.Scheduler.States.{
  state_at, state_at-lookup, state_known, source_known, requires-linked,
}
use c4harness.Scheduler.Ready.{IsReady}
use c4harness.RunGraph.Steps.{Run, Running}

module _ {R : Type 0} where
  -- All of the listed nodes have succeeded, or one has not.
  all_done :
      (outcomes : Outcomes R) (sources : List String)
      → ((u : String) → contains sources u ≡ true → state_at outcomes u ≡ some succeeded)
        ⊎ ((u : String) × (contains sources u ≡ true) × (state_at outcomes u ≢ some succeeded))
  all_done outcomes [] = inl (λ u m. absurd (not_in_nil u m))
  all_done outcomes (x ∷ sources) = elim (all_done outcomes sources) [
    | inr (u, m, bad) ↦ inr (u, contains_tail x sources u m, bad)
    | inl done ↦ elim (has_succeeded (state_at outcomes x)) [
      | inr bad ↦ inr (x, contains_self x sources, bad)
      | inl good ↦ inl (λ u m. elim ((contains-cons x sources u).0 m) [
        | inl here ↦ rw here good
        | inr there ↦ done u there
      ])
    ]
  ]
    where
      has_succeeded : (o : Option NodeState) → (o ≡ some succeeded) ⊎ (o ≢ some succeeded)
      has_succeeded none = inr (λ h. cc)
      has_succeeded (some pending) = inr (λ h. cc)
      has_succeeded (some running) = inr (λ h. cc)
      has_succeeded (some succeeded) = inl refl
      has_succeeded (some failed) = inr (λ h. cc)
      has_succeeded (some blocked) = inr (λ h. cc)

  all_final :
      (outcomes : Outcomes R)
      → Nodup (keys outcomes)
      → ((v : String) → state_at outcomes v ≢ some pending)
      → ((v : String) → state_at outcomes v ≢ some running)
      → outcomes_final outcomes ≡ true
  unfolding outcomes_final all values keys state_at lookup
  all_final [] distinct waits runs = refl
  all_final ((k, o) ∷ rest) distinct waits runs =
      ground
        (arith, here o.state refl, all_final rest distinct.1 (λ v. rest_waits v) (λ v. rest_runs v))
    where
      here : (st : NodeState) → o.state ≡ st → is_final st ≡ true
      here pending e = absurd (ground (arith, waits k))
      here running e = absurd (ground (arith, runs k))
      here succeeded e = refl
      here failed e = refl
      here blocked e = refl

      rest_waits : (v : String) → state_at rest v ≢ some pending
      rest_waits v h = ground (arith, waits v, contains-keys rest k, state_known rest v h)

      rest_runs : (v : String) → state_at rest v ≢ some running
      rest_runs v h = ground (arith, runs v, contains-keys rest k, state_known rest v h)

module _ {R : Type 0} (g : TaskContractGraph) (s : GraphScheduler R) (run : Run g s)
    (idle : Running s []) (acyclic : IsAcyclic s.graph)
    (stuck : (v : String) → ¬ IsReady s run.inv v) where
  -- A pending node has a pending source.
  pending_source :
      (v : String)
      → state_at s.outcomes v ≡ some pending
      → (u : String) × (requires s.graph.edges u v ≡ true) × (state_at s.outcomes u ≡ some pending)
  pending_source v waits = elim (all_done s.outcomes (sources_of s v)) [
    | inl done ↦ absurd (
        stuck v
          (record { waiting = waits; sources_done = λ u r. done u (run.inv.sources u v ∙ r) }))
    | inr (u, m, bad) ↦
        let r = sym (run.inv.sources u v) ∙ m in
        let (o, found) = lookup-has_key u s.outcomes (source_known s u v run.inv r) in
        (u, r, source_state u r bad o.state (state_at-lookup s.outcomes u ∙ rw found refl))
  ]
    where
      source_state :
          (u : String)
          → requires s.graph.edges u v ≡ true
          → state_at s.outcomes u ≢ some succeeded
          → (st : NodeState) → state_at s.outcomes u ≡ some st
          → state_at s.outcomes u ≡ some pending
      source_state u r bad pending e = e
      source_state u r bad running e = absurd (not_in_nil u ((idle u).0 e))
      source_state u r bad succeeded e = absurd (bad e)
      source_state u r bad failed e = absurd (ground (arith, run.resp.halted u v r))
      source_state u r bad blocked e = absurd (ground (arith, run.resp.halted u v r))

  -- Following pending sources never ends, and the nodes are not that many.
  chase :
      (fuel : ℕ) (v : String) (seen : List String)
      → missing (keys s.outcomes) seen < fuel
      → ((m : String) → contains seen m ≡ true → GraphWalk s.graph v m)
      → ¬ (state_at s.outcomes v ≡ some pending)
  chase zero v seen fits walks waits = omega arith
  chase (suc fuel) v seen fits walks waits =
      let (u, r, again) = pending_source v waits in
      let step : GraphWalk s.graph u v = one (requires-linked s.graph.edges u v r) in
      let known = contains-keys s.outcomes v ∙ state_known s.outcomes v waits in
      elim (Bool-cases (contains seen v)) [
        | inl back ↦ acyclic v (walks v back)
        | inr fresh ↦
            chase fuel u (v ∷ seen)
              (omega (arith, missing-cons-lt (keys s.outcomes) seen v known fresh))
              (λ m h. elim ((contains-cons v seen m).0 h) [
                | inl here ↦ rw here step
                | inr there ↦ Walk-append step (walks m there)
              ])
              again
      ]

  pub stuck-terminal : is_terminal s ≡ true
  unfolding is_terminal
  stuck-terminal =
      all_final s.outcomes (rw run.inv.same_keys run.inv.graph_ok.distinct)
        (λ v.
          chase (suc (length (keys s.outcomes))) v []
            (omega (arith, missing-le (keys s.outcomes) [])) (λ m h. absurd (not_in_nil m h)))
        (λ v h. not_in_nil v ((idle v).0 h))
