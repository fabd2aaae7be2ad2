-- ===== src/Scheduler/Propagate/Scan.antt =====
-- One run of `for edge in self._graph.edges`, for the id that was taken from the queue.
use c4harness.Base.{
  ◌+◌, ◌≤◌, String, ◌≡◌, refl, ◌∙◌, Bool, true, false, not, ◌&&◌, Option, none, some, List, [], ◌∷◌,
  ◌++◌, keys, lookup, insert, has_key, contains, contains-append, contains_one, contains_self,
  contains-cons, any, all, map, length, length-append, missing, missing-cons-lt, lookup-insert,
  keys-insert_present, lookup-has_key, has_key-eq_true, contains-keys, ◌==◌, string_eq, arith, inl,
  inr, ◌⊎◌, ◌↔◌, if◌then◌else◌, Bool-cases, sym,
}
use c4harness.Core.Errors.{ok, for_each}
use c4harness.Core.Types.{GraphEdge}
use c4harness.Core.Graph.{is_requires}
use c4harness.Core.Walks.{Walk}
use c4harness.Scheduler.{NodeOutcome, Outcomes, Front, block_pending, visit_edge, outcome_of}

-- Some `requires` edge of the list leads from `u` to `v`.
unfoldable pub requires : List GraphEdge → String → String → Bool
requires es u v = any (λ e. is_requires e && (e.source == u && e.target == v)) es

-- A chain of `requires` edges.
abbrev pub Downstream : List GraphEdge → String → String → Type 0
Downstream es = Walk (λ u v. requires es u v ≡ true)

targets : List GraphEdge → List String
targets = map (λ e. e.target)

module _ {R : Type 0} where
  abbrev pub block_found : Option (NodeOutcome R) → Option (NodeOutcome R)
  block_found none = none
  block_found (some o) = some (block_pending o)

  -- The outcomes are those of the start, with the pending ones of the visited ids blocked.
  abbrev pub BlockedView : Outcomes R → List String → Outcomes R → Type 0
  BlockedView start visited states =
      (v : String)
      → lookup v states
        ≡ (if contains visited v then block_found (lookup v start) else lookup v start)

  -- What the edges `es` make of the front `f`, where `all_targets` bounds what can be seen.
  pub record Scan (start : Outcomes R) (all_targets : List String) (es : List GraphEdge)
      (c : String) (f f' : Front R) : Type 0 where
    pub ran : for_each (visit_edge c) es f ≡ ok f'
    pub seen_iff :
        (v : String)
        → (contains f'.visited v ≡ true)
          ↔ ((contains f.visited v ≡ true) ⊎ (requires es c v ≡ true))
    pub kept : (v : String) → contains f.queue v ≡ true → contains f'.queue v ≡ true
    pub queued :
        (v : String)
        → contains f'.queue v ≡ true
        → (contains f.queue v ≡ true) ⊎ (contains f'.visited v ≡ true)
    pub fresh :
        (v : String)
        → contains f'.visited v ≡ true
        → (contains f.visited v ≡ true) ⊎ (contains f'.queue v ≡ true)
    pub view : BlockedView start f'.visited f'.states
    pub same_keys : keys f'.states ≡ keys f.states
    pub work :
        length f'.queue + missing all_targets f'.visited
        ≤ length f.queue + missing all_targets f.visited

  module _ (start : Outcomes R) (all_targets : List String) (c : String) where
    Scan-nil :
        (f : Front R) → BlockedView start f.visited f.states → Scan start all_targets [] c f f
    unfolding for_each requires any
    Scan-nil f view = record {
      ran = refl;
      seen_iff = λ v. ground arith;
      kept = λ v h. h;
      queued = λ v h. inl h;
      fresh = λ v h. inl h;
      view = view;
      same_keys = refl;
      work = omega arith;
    }

    Scan-cons :
        (e : GraphEdge) (es : List GraphEdge) (f g h : Front R)
        → visit_edge c e f ≡ ok g
        → Scan start all_targets (e ∷ []) c f g
        → Scan start all_targets es c g h
        → Scan start all_targets (e ∷ es) c f h
    unfolding for_each requires any
    Scan-cons e es f g h step first rest = record {
      ran = rw (step, for_each) rest.ran;
      seen_iff = λ v. ground (arith, first.seen_iff v, rest.seen_iff v);
      kept = λ v q. rest.kept v (first.kept v q);
      queued = λ v q. ground (arith, rest.queued v, first.queued v, rest.seen_iff v);
      fresh = λ v q. ground (arith, rest.fresh v, first.fresh v, rest.kept v);
      view = rest.view;
      same_keys = rest.same_keys ∙ first.same_keys;
      work = omega (arith, first.work, rest.work);
    }

    -- The test of the loop body.
    abbrev is_new : GraphEdge → Front R → Bool
    is_new e f = is_requires e && (e.source == c && not (contains f.visited e.target))

    visit_edge-skip : (e : GraphEdge) (f : Front R) → is_new e f ≡ false → visit_edge c e f ≡ ok f
    unfolding visit_edge
    visit_edge-skip e f skip = ground arith

    Scan-skip :
        (e : GraphEdge) (f : Front R)
        → BlockedView start f.visited f.states
        → is_new e f ≡ false
        → Scan start all_targets (e ∷ []) c f f
    unfolding requires any for_each
    Scan-skip e f view skip = record {
      ran = rw (visit_edge-skip e f skip, for_each) refl;
      seen_iff = λ v. ground arith;
      kept = λ v h. h;
      queued = λ v h. inl h;
      fresh = λ v h. inl h;
      view = view;
      same_keys = refl;
      work = omega arith;
    }

    -- The front after a new target.
    abbrev extended : GraphEdge → Front R → NodeOutcome R → Front R
    extended e f o = record {
      states = insert e.target (block_pending o) f.states;
      visited = e.target ∷ f.visited;
      queue = f.queue ++ e.target ∷ [];
    }

    visit_edge-new :
        (e : GraphEdge) (f : Front R) (o : NodeOutcome R)
        → lookup e.target f.states ≡ some o
        → is_new e f ≡ true
        → visit_edge c e f ≡ ok (extended e f o)
    unfolding visit_edge
    visit_edge-new e f o found new = rw new (rw (found, outcome_of) refl)

    extended-view :
        (e : GraphEdge) (f : Front R) (o : NodeOutcome R)
        → BlockedView start f.visited f.states
        → lookup e.target f.states ≡ some o
        → contains f.visited e.target ≡ false
        → BlockedView start (e.target ∷ f.visited) (extended e f o).states
    unfolding contains
    extended-view e f o view found unseen v =
        ground (arith, lookup-insert v e.target (block_pending o) f.states, view v, view e.target)

    Scan-new :
        (e : GraphEdge) (f : Front R) (o : NodeOutcome R)
        → BlockedView start f.visited f.states
        → contains all_targets e.target ≡ true
        → lookup e.target f.states ≡ some o
        → is_new e f ≡ true
        → Scan start all_targets (e ∷ []) c f (extended e f o)
    unfolding requires any for_each
    Scan-new e f o view bound found new =
        let unseen : contains f.visited e.target ≡ false = ground arith in
        let pushed = λ (v : String). contains-append f.queue (e.target ∷ []) v in
        record {
          ran = rw (visit_edge-new e f o found new, for_each) refl;
          seen_iff = λ v. ground (arith, contains-cons e.target f.visited v);
          kept = λ v h. ground (arith, pushed v);
          queued = λ v h.
              ground (arith, pushed v, contains_one e.target v, contains_self e.target f.visited);
          fresh = λ v h.
              ground
                (arith, pushed v, contains-cons e.target f.visited v, contains_self e.target []);
          view = extended-view e f o view found unseen;
          same_keys =
              keys-insert_present e.target (block_pending o) f.states
                (has_key-eq_true e.target f.states found);
          work = omega (
            arith,
            length-append f.queue (e.target ∷ []),
            missing-cons-lt all_targets f.visited e.target bound unseen,
          );
        }

    Scan-one :
        (e : GraphEdge) (f : Front R)
        → BlockedView start f.visited f.states
        → contains all_targets e.target ≡ true
        → has_key e.target f.states ≡ true
        → (g : Front R) × (visit_edge c e f ≡ ok g) × Scan start all_targets (e ∷ []) c f g
    Scan-one e f view bound known = elim (Bool-cases (is_new e f)) [
      | inr skip ↦ (f, visit_edge-skip e f skip, Scan-skip e f view skip)
      | inl new ↦
          let (o, found) = lookup-has_key e.target f.states known in
          (extended e f o, visit_edge-new e f o found new, Scan-new e f o view bound found new)
    ]

    -- Every edge is tried, and no key is missing.
    pub scan :
        (es : List GraphEdge) (f : Front R)
        → BlockedView start f.visited f.states
        → all (λ e. contains all_targets e.target && contains (keys f.states) e.target) es ≡ true
        → (g : Front R) × Scan start all_targets es c f g
    unfolding all
    scan [] f view known = (f, Scan-nil f view)
    scan (e ∷ es) f view known =
        let (g, step, first) =
          Scan-one e f view (ground arith) (sym (contains-keys f.states e.target) ∙ ground arith) in
        let (h, rest) = scan es g first.view (rw first.same_keys (ground arith)) in
        (h, Scan-cons e es f g h step first rest)
