-- ===== src/RunGraph/Steps.antt =====
-- What holds of the scheduler between the steps of a run, and that starting and finishing a node keeps it.
use c4harness.Base.{
  String, ◌≡◌, ◌≢◌, refl, ◌∙◌, true, false, Option, some, List, [], ◌∷◌, ◌++◌, lookup, contains,
  contains-append, contains_self, contains_one, contains-cons, Nodup, ◌==◌, string_eq, arith, inl,
  inr, ◌⊎◌, ◌↔◌, Bool-cases, Option-cases, if◌then◌else◌,
}
use c4harness.Core.Errors.{ok}
use c4harness.Core.Types.{GraphEdge, TaskContractGraph}
use c4harness.Scheduler.{
  NodeState, pending, running, succeeded, failed, blocked, NodeOutcome, Outcomes, GraphScheduler,
  mark_running, mark_succeeded, mark_failed, error_or_none,
}
use c4harness.Scheduler.Propagate.Scan.{requires, Downstream}
use c4harness.Scheduler.Propagate.Loop.{Reached}
use c4harness.Scheduler.States.{was_started, state_at, IsScheduler, Respects}
use c4harness.Scheduler.Marks.{Settled, mark_failed-Settled}
use c4harness.Scheduler.Marks.Keeps.{
  fails, Settled-IsScheduler, state_at-Settled, Settled-Respects, with_running, with_succeeded,
  mark_running-eq, mark_succeeded-eq, state_at-with_running, state_at-with_succeeded,
  with_running-IsScheduler, with_succeeded-IsScheduler, with_running-Respects,
  with_succeeded-Respects,
}
use c4harness.Scheduler.Ready.{IsReady}

-- What a node requires stands before it.
abbrev pub IsOrdered : List GraphEdge → List String → List String → Type 0
IsOrdered edges seen [] = Unit
IsOrdered edges seen (v ∷ vs) =
    ((u : String) → requires edges u v ≡ true → contains seen u ≡ true)
    × IsOrdered edges (v ∷ seen) vs

IsOrdered-snoc :
    (edges : List GraphEdge) (seen vs : List String) (n : String)
    → IsOrdered edges seen vs
    → ((u : String) → requires edges u n ≡ true → (contains seen u ≡ true) ⊎ (contains vs u ≡ true))
    → IsOrdered edges seen (vs ++ n ∷ [])
IsOrdered-snoc edges seen [] n h k = (λ u r. unfold contains in ground (arith, k u r), tt)
IsOrdered-snoc edges seen (v ∷ vs) n h k = (
  h.0,
  IsOrdered-snoc edges (v ∷ seen) vs n h.1
      (λ u r. ground (arith, k u r, contains-cons v seen u, contains-cons v vs u)),
)

module _ {R : Type 0} where
  -- A blocked node is downstream of one that has failed.
  pub record Blame (edges : List GraphEdge) (outcomes : Outcomes R) (v : String) : Type 0 where
    pub culprit : String
    pub has_failed : state_at outcomes culprit ≡ some failed
    pub path : Downstream edges culprit v

  -- What holds of the scheduler of `g` in a run.
  pub record Run (g : TaskContractGraph) (s : GraphScheduler R) : Type 0 where
    pub graph : s.graph ≡ g
    pub inv : IsScheduler s
    pub resp : Respects s.graph.edges s.outcomes
    pub order_iff :
        (v : String) → contains s.execution_order v ≡ was_started (state_at s.outcomes v)
    pub distinct : Nodup s.execution_order
    pub ordered : IsOrdered s.graph.edges [] s.execution_order
    pub blame :
        (v : String) → state_at s.outcomes v ≡ some blocked → Blame s.graph.edges s.outcomes v

  -- The nodes that are running.
  abbrev pub Running : GraphScheduler R → List String → Type 0
  Running s ids = (v : String) → (state_at s.outcomes v ≡ some running) ↔ (contains ids v ≡ true)

  -- A step that starts nodes and stops running ones: what was started stays so, and what has
  -- succeeded too.
  pub record Later (s s' : GraphScheduler R) : Type 0 where
    pub same_graph : s'.graph ≡ s.graph
    pub still_started :
        (v : String)
        → was_started (state_at s.outcomes v) ≡ true
        → was_started (state_at s'.outcomes v) ≡ true
    pub still_done :
        (v : String)
        → state_at s.outcomes v ≡ some succeeded
        → state_at s'.outcomes v ≡ some succeeded

  pub Later-refl : (s : GraphScheduler R) → Later s s
  Later-refl s = record { same_graph = refl; still_started = λ v h. h; still_done = λ v h. h }

  pub Later-trans : {s t u : GraphScheduler R} → Later s t → Later t u → Later s u
  Later-trans a b = record {
    same_graph = b.same_graph ∙ a.same_graph;
    still_started = λ v h. b.still_started v (a.still_started v h);
    still_done = λ v h. b.still_done v (a.still_done v h);
  }

module _ {R : Type 0} (g : TaskContractGraph) (s : GraphScheduler R) (run : Run g s) where
  outcome_at :
      (nid : String) (st : NodeState)
      → state_at s.outcomes nid ≡ some st
      → (o : NodeOutcome R) × (lookup nid s.outcomes ≡ some o) × (o.state ≡ st)
  unfolding state_at
  outcome_at nid st h = elim (Option-cases (lookup nid s.outcomes)) [
    | inl absent ↦ absurd (ground arith)
    | inr (o, found) ↦ (o, found, ground arith)
  ]

  snoc-Nodup :
      (xs : List String) (x : String) → Nodup xs → contains xs x ≡ false → Nodup (xs ++ x ∷ [])
  unfolding contains
  snoc-Nodup [] x h k = ground arith
  snoc-Nodup (y ∷ xs) x h k =
      ground (arith, snoc-Nodup xs x, contains-append xs (x ∷ []) y, contains_one x y)

  -- Starting a ready node.
  pub start-Run :
      (nid : String)
      → IsReady s run.inv nid
      → (s' : GraphScheduler R) × (mark_running s nid ≡ ok s')
        × Run g s'
        × Later s s'
        × ((v : String)
            → state_at s'.outcomes v ≡ (if v == nid then some running else state_at s.outcomes v))
  start-Run nid ready =
      let (o, found, waits) = outcome_at nid pending ready.waiting in
      let s' = with_running s nid o in
      let now = state_at-with_running s nid o found in
      (
        s',
        mark_running-eq s nid o found waits,
        record {
          graph = run.graph;
          inv = with_running-IsScheduler s nid o found run.inv;
          resp = with_running-Respects s nid o found waits ready.sources_done run.resp;
          order_iff = λ v. ground (
            arith,
            now v,
            run.order_iff v,
            contains-append s.execution_order (nid ∷ []) v,
            contains_one nid v,
            contains_self nid [],
          );
          distinct =
              snoc-Nodup s.execution_order nid run.distinct
                (run.order_iff nid ∙ rw ready.waiting refl);
          ordered =
              IsOrdered-snoc s.graph.edges [] s.execution_order nid run.ordered
                (λ u r. inr (run.order_iff u ∙ rw (ready.sources_done u r) refl));
          blame = λ v h.
              let b = run.blame v (ground (arith, now v)) in
              record {
                culprit = b.culprit;
                has_failed = ground (arith, now b.culprit, b.has_failed, ready.waiting);
                path = b.path;
              };
        },
        record {
          same_graph = refl;
          still_started = λ v h. ground (arith, now v);
          still_done = λ v h. ground (arith, now v, ready.waiting);
        },
        now,
      )

  -- Finishing a running node well.
  pub succeed-Run :
      (nid : String) (result : Option R)
      → state_at s.outcomes nid ≡ some running
      → (s' : GraphScheduler R) × (mark_succeeded s nid result ≡ ok s')
        × Run g s'
        × Later s s'
        × ((v : String)
            → (state_at s'.outcomes v ≡ some running)
              ↔ ((v ≢ nid) × (state_at s.outcomes v ≡ some running)))
  succeed-Run nid result was =
      let (o, found, runs) = outcome_at nid running was in
      let s' = with_succeeded s nid o result in
      let now = state_at-with_succeeded s nid o found result in
      (
        s',
        mark_succeeded-eq s nid o found result runs,
        record {
          graph = run.graph;
          inv = with_succeeded-IsScheduler s nid o found result run.inv;
          resp = with_succeeded-Respects s nid o found result runs run.resp;
          order_iff = λ v. ground (arith, now v, run.order_iff v);
          distinct = run.distinct;
          ordered = run.ordered;
          blame = λ v h.
              let b = run.blame v (ground (arith, now v)) in
              record {
                culprit = b.culprit;
                has_failed = ground (arith, now b.culprit, b.has_failed);
                path = b.path;
              };
        },
        record {
          same_graph = refl;
          still_started = λ v h. ground (arith, now v);
          still_done = λ v h. ground (arith, now v);
        },
        λ v. ground (arith, now v),
      )

  -- Finishing a running node badly.
  pub fail-Run :
      (nid error : String)
      → state_at s.outcomes nid ≡ some running
      → (s' : GraphScheduler R) × (mark_failed s nid error ≡ ok s')
        × Run g s'
        × Later s s'
        × ((v : String)
            → (state_at s'.outcomes v ≡ some running)
              ↔ ((v ≢ nid) × (state_at s.outcomes v ≡ some running)))
  fail-Run nid error was =
      let (o, found, runs) = outcome_at nid running was in
      let o' : NodeOutcome R = record o { state = failed; error = error_or_none error } in
      let (s', ends, p) = mark_failed-Settled s run.inv nid error o found runs in
      let now = state_at-Settled s s' nid o' p in
      (
        s',
        ends,
        record {
          graph = p.same_graph ∙ run.graph;
          inv = Settled-IsScheduler s s' nid o' p run.inv;
          resp = Settled-Respects s s' nid o' p fails run.inv was refl run.resp;
          order_iff = λ v. rw p.same_order (ground (arith, now v, run.order_iff v));
          distinct = rw p.same_order run.distinct;
          ordered = rw (p.same_order, p.same_graph) run.ordered;
          blame = λ v h. rw p.same_graph (blame_after s' p v refl h);
        },
        record {
          same_graph = p.same_graph;
          still_started = λ v h. ground (arith, now v);
          still_done = λ v h. ground (arith, now v);
        },
        λ v. ground (arith, now v),
      )
    where
      blame_after :
          (s' : GraphScheduler R) {o' : NodeOutcome R} (p : Settled s s' nid o') (v : String)
          → o'.state ≡ failed
          → state_at s'.outcomes v ≡ some blocked
          → Blame s.graph.edges s'.outcomes v
      blame_after s' {o'} p v bad h =
          let now = state_at-Settled s s' nid o' p in
          elim (Bool-cases (contains p.reached v)) [
            | inl here ↦ record {
              culprit = nid;
              has_failed = ground (arith, now nid);
              path = downstream v h bad ((p.reached_iff v).0 here);
            }
            | inr away ↦
                let b = run.blame v (ground (arith, now v)) in
                record {
                  culprit = b.culprit;
                  has_failed = ground (arith, now b.culprit, b.has_failed);
                  path = b.path;
                }
          ]
        where
          downstream :
              (v : String)
              → state_at s'.outcomes v ≡ some blocked
              → o'.state ≡ failed
              → Reached s.graph.edges nid v
              → Downstream s.graph.edges nid v
          downstream v h bad (inr w) = w
          downstream v h bad (inl same) = absurd (ground (arith, state_at-Settled s s' nid o' p v))
