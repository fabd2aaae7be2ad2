-- ===== src/Scheduler/Ready.antt =====
-- `ready_nodes` returns exactly the pending nodes whose `requires` sources have all succeeded.
use c4harness.Base.{
  subst, sorted-Nodup, sorted-IsSorted, contains-sorted, keys, sorted, Nodup, IsSorted, str_le, All,
  contains-keys, map, lookup, contains_tail, contains_self, String, ◌≡◌, refl, sym, ◌∙◌, Bool, true,
  false, some, List, [], ◌∷◌, has_key, contains, contains-cons, lookup-has_key, string_eq, arith,
  inl, inr, ◌↔◌, Bool-cases,
}
use mathlib.Core.Bool.{false≢true}
use c4harness.Core.Errors.{◌>>=◌, ok}
use c4harness.Scheduler.{
  node_of, ready_nodes, ready_among, TaskNodeContract, pending, succeeded, is_pending, is_succeeded,
  Outcomes, GraphScheduler, outcome_of, sources_succeeded, sources_of, is_ready,
}
use c4harness.Scheduler.Propagate.Scan.{requires}
use c4harness.Scheduler.Propagate.Loop.{not_in_nil}
use c4harness.Scheduler.States.{state_known, state_at-lookup, state_at, IsScheduler, source_known}

-- All of the listed nodes have succeeded.
abbrev AllSucceeded : {R : Type 0} → Outcomes R → List String → Type 0
AllSucceeded outcomes sources =
    (u : String) → contains sources u ≡ true → state_at outcomes u ≡ some succeeded

module _ {R : Type 0} where
  sources_succeeded-decides :
      (outcomes : Outcomes R) (sources : List String)
      → ((u : String) → contains sources u ≡ true → has_key u outcomes ≡ true)
      → (b : Bool) × (sources_succeeded outcomes sources ≡ ok b)
        × ((b ≡ true) ↔ AllSucceeded outcomes sources)
  unfolding sources_succeeded
  sources_succeeded-decides outcomes [] known =
      (true, refl, (λ h u m. absurd (not_in_nil u m), λ h. refl))
  sources_succeeded-decides outcomes (src ∷ sources) known =
      let (o, found) = lookup-has_key src outcomes (known src (contains_self src sources)) in
      let (b, ends, meaning) =
        sources_succeeded-decides outcomes sources
          (λ u m. known u (contains_tail src sources u m)) in
      elim (Bool-cases (is_succeeded o.state)) [
        | inl done ↦ (
          b,
          rw (found, outcome_of) (rw done ends),
          (
            λ h u m. elim ((contains-cons src sources u).0 m) [
              | inl here ↦ rw (state_at-lookup outcomes u) (rw here (rw found (ground arith)))
              | inr there ↦ meaning.0 h u there
            ],
            λ h. meaning.1 (λ u m. h u (contains_tail src sources u m)),
          ),
        )
        | inr other ↦ (
          false,
          rw (found, outcome_of) (rw other refl),
          (
            λ h. cc,
            λ h.
                let s : state_at outcomes src ≡ some succeeded =
                  h src (contains_self src sources) in
                ground (arith, state_at-lookup outcomes src, found),
          ),
        )
      ]

module _ {R : Type 0} (s : GraphScheduler R) (inv : IsScheduler s) where
  -- What a ready node is.
  pub record IsReady (nid : String) : Type 0 where
    pub waiting : state_at s.outcomes nid ≡ some pending
    pub sources_done :
        (u : String) → requires s.graph.edges u nid ≡ true → state_at s.outcomes u ≡ some succeeded

  is_ready-decides :
      (nid : String)
      → has_key nid s.outcomes ≡ true
      → (b : Bool) × (is_ready s nid ≡ ok b) × ((b ≡ true) ↔ IsReady nid)
  unfolding is_ready
  is_ready-decides nid known =
      let (o, found) = lookup-has_key nid s.outcomes known in
      let here : state_at s.outcomes nid ≡ some o.state =
        rw (state_at-lookup s.outcomes nid) (rw found refl) in
      let (b, ends, meaning) =
        sources_succeeded-decides s.outcomes (sources_of s nid)
          (λ u m. source_known s u nid inv (sym (inv.sources u nid) ∙ m)) in
      elim (Bool-cases (is_pending o.state)) [
        | inl waits ↦ (
          b,
          rw (found, outcome_of) (rw waits ends),
          (
            λ h. record {
              waiting = ground arith;
              sources_done = λ u r. meaning.0 h u (inv.sources u nid ∙ r);
            },
            λ r. meaning.1 (λ u m. r.sources_done u (sym (inv.sources u nid) ∙ m)),
          ),
        )
        | inr other ↦ (
          false,
          rw (found, outcome_of) (rw other refl),
          (λ h. cc, λ r. ground (arith, r.waiting)),
        )
      ]

  node_known :
      (nid : String)
      → has_key nid s.outcomes ≡ true
      → (n : TaskNodeContract) × (lookup nid s.graph.nodes ≡ some n)
  node_known nid h = lookup-has_key nid s.graph.nodes (
      sym (contains-keys s.graph.nodes nid)
      ∙ rw (← inv.same_keys) (contains-keys s.outcomes nid ∙ h))

  -- The result of the loop over the ids.
  record Listed (ids : List String) (nodes : List TaskNodeContract) : Type 0 where
    listed : ready_among s ids ≡ ok nodes
    listed_iff :
        (nid : String)
        → (contains (map (λ n. n.id) nodes) nid ≡ true) ↔ ((contains ids nid ≡ true) × IsReady nid)
    bounded :
        (t : String)
        → All (λ y. str_le t y ≡ true) ids
        → All (λ y. str_le t y ≡ true) (map (λ n. n.id) nodes)
    in_order : IsSorted ids → IsSorted (map (λ n. n.id) nodes)
    apart : Nodup ids → Nodup (map (λ n. n.id) nodes)
    owned : All (λ n. lookup n.id s.graph.nodes ≡ some n) nodes

  Listed-skip :
      (nid : String) (ids : List String) (nodes : List TaskNodeContract)
      → is_ready s nid ≡ ok false
      → ¬ IsReady nid
      → Listed ids nodes
      → Listed (nid ∷ ids) nodes
  unfolding ready_among
  Listed-skip nid ids nodes tested not_ready rest = record {
    listed = rw (tested, ◌>>=◌) rest.listed;
    listed_iff = λ m. (
      λ h. (contains_tail nid ids m ((rest.listed_iff m).0 h).0, ((rest.listed_iff m).0 h).1),
      λ h. elim ((contains-cons nid ids m).0 h.0) [
        | inl here ↦ absurd (not_ready (rw here at h.1))
        | inr there ↦ (rest.listed_iff m).1 (there, h.1)
      ],
    );
    bounded = λ t h. rest.bounded t h.1;
    in_order = λ h. rest.in_order h.1;
    apart = λ h. rest.apart h.1;
    owned = rest.owned;
  }

  Listed-take :
      (nid : String) (ids : List String) (n : TaskNodeContract) (nodes : List TaskNodeContract)
      → is_ready s nid ≡ ok true
      → IsReady nid
      → lookup nid s.graph.nodes ≡ some n
      → Listed ids nodes
      → Listed (nid ∷ ids) (n ∷ nodes)
  unfolding ready_among node_of
  Listed-take nid ids n nodes tested ready found rest =
      let same : n.id ≡ nid = inv.graph_ok.keyed nid n found in
      record {
        listed = rw (tested, ◌>>=◌) (rw (found, node_of) (rw rest.listed refl));
        listed_iff = λ m. (
          λ h. elim ((contains-cons n.id (map (λ x. x.id) nodes) m).0 h) [
            | inl here ↦ (rw (here ∙ same) (contains_self nid ids), rw (here ∙ same) ready)
            | inr there ↦ (
              contains_tail nid ids m ((rest.listed_iff m).0 there).0,
              ((rest.listed_iff m).0 there).1,
            )
          ],
          λ h. elim ((contains-cons nid ids m).0 h.0) [
            | inl here ↦ rw same (rw here (contains_self nid (map (λ x. x.id) nodes)))
            | inr there ↦
                contains_tail n.id (map (λ x. x.id) nodes) m ((rest.listed_iff m).1 (there, h.1))
          ],
        );
        bounded = λ t h. (rw same h.0, rest.bounded t h.1);
        in_order = λ h. (rest.bounded n.id (rw same h.0), rest.in_order h.1);
        apart = λ h. (absent h.0, rest.apart h.1);
        owned = (subst (λ k. lookup k s.graph.nodes ≡ some n) (sym same) found, rest.owned);
      }
    where
      absent : contains ids nid ≡ false → contains (map (λ x. x.id) nodes) n.id ≡ false
      absent h = elim (Bool-cases (contains (map (λ x. x.id) nodes) n.id)) [
        | inr out ↦ out
        | inl here ↦
            let m = ((rest.listed_iff n.id).0 here).0 in
            let same : n.id ≡ nid = inv.graph_ok.keyed nid n found in
            absurd (false≢true (sym h ∙ rw same at m))
      ]

  ready_among-Listed :
      (ids : List String)
      → ((nid : String) → contains ids nid ≡ true → has_key nid s.outcomes ≡ true)
      → (nodes : List TaskNodeContract) × Listed ids nodes
  unfolding ready_among
  ready_among-Listed [] known = (
    [],
    record {
      listed = refl;
      listed_iff = λ nid. (λ m. absurd (not_in_nil nid m), λ m. m.0);
      bounded = λ t h. tt;
      in_order = λ h. tt;
      apart = λ h. tt;
      owned = tt;
    },
  )
  ready_among-Listed (nid ∷ ids) known =
      let here = known nid (contains_self nid ids) in
      let (b, tested, meaning) = is_ready-decides nid here in
      let (nodes, rest) = ready_among-Listed ids (λ m h. known m (contains_tail nid ids m h)) in
      elim (Bool-cases b) [
        | inr waits ↦ (
          nodes,
          Listed-skip nid ids nodes (rw waits at tested) (λ r. false≢true (sym waits ∙ meaning.1 r))
              rest,
        )
        | inl ready ↦
            let (n, found) = node_known nid here in
            (
              n ∷ nodes,
              Listed-take nid ids n nodes (rw ready at tested) (meaning.0 ready) found rest,
            )
      ]

  -- For a scheduler that satisfies the invariant `IsScheduler`, `ready_nodes` returns. Its nodes are nodes of the graph, exactly the pending ones whose `requires`
  -- sources have all succeeded, each once, in the order of their ids.
  pub ready_nodes_correct :
      (nodes : List TaskNodeContract) × (ready_nodes s ≡ ok nodes)
      × ((nid : String) → (contains (map (λ n. n.id) nodes) nid ≡ true) ↔ IsReady nid)
      × IsSorted (map (λ n. n.id) nodes)
      × Nodup (map (λ n. n.id) nodes)
      × All (λ n. lookup n.id s.graph.nodes ≡ some n) nodes
  unfolding ready_nodes
  ready_nodes_correct =
      let ids = sorted (keys s.outcomes) in
      let (nodes, l) = ready_among-Listed ids (λ nid h.
        sym (contains-keys s.outcomes nid) ∙ (contains-sorted (keys s.outcomes) nid).0 h) in
      (
        nodes,
        l.listed,
        (λ nid. (
          λ h. ((l.listed_iff nid).0 h).1,
          λ r. (l.listed_iff nid).1 (pending_known nid r.waiting, r),
        )),
        l.in_order (sorted-IsSorted (keys s.outcomes)),
        l.apart (sorted-Nodup (keys s.outcomes) (rw inv.same_keys inv.graph_ok.distinct)),
        l.owned,
      )
    where
      pending_known :
          (nid : String)
          → state_at s.outcomes nid ≡ some pending
          → contains (sorted (keys s.outcomes)) nid ≡ true
      pending_known nid h =
          (contains-sorted (keys s.outcomes) nid).1
            (contains-keys s.outcomes nid ∙ state_known s.outcomes nid h)
