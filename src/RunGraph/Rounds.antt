-- ===== src/RunGraph/Rounds.antt =====
-- One round of the loop: its batch is started, then finished in any order, and no node is left running.
use mathlib.Core.List.Permᴰ as PermD
use mathlib.Core.List.{Permᴰ}
use c4harness.Base.{
  ℕ, ◌≤◌, String, ◌≡◌, ◌≢◌, refl, sym, ap, ◌∙◌, Bool, true, Option, none, some, List, [], ◌∷◌,
  contains, contains_self, contains_one, contains_tail, contains-cons, Nodup, length, ltb,
  string_eq, arith, inl, inr, ◌⊎◌, ◌↔◌, Bool-cases,
}
use c4harness.Core.Errors.{Result-cases, for_each-ok, ok, for_each, ◌>>=◌}
use c4harness.Core.Types.{TaskContractGraph, TaskNodeContract}
use c4harness.Scheduler.{pending, running, GraphScheduler}
use c4harness.Scheduler.Propagate.Loop.{not_in_nil}
use c4harness.Scheduler.States.{was_started, state_at}
use c4harness.Scheduler.Ready.{IsReady}
use c4harness.Scheduler.Batch.Greedy.{
  ids, Nodup-IsSublist, contains-IsSublist, select_parallel_batch_correct,
}
use c4harness.RunGraph.{
  RunnerCall, returned, raised, report, start_node, finish_node, completion, run_batch, round,
}
use c4harness.RunGraph.Steps.{
  Run, Running, Later, Later-refl, Later-trans, start-Run, succeed-Run, fail-Run,
}

contains-Perm :
    {xs ys : List TaskNodeContract}
    → Permᴰ xs ys
    → (a : String) → contains (ids xs) a ≡ contains (ids ys) a
unfolding contains
contains-Perm Permᴰ.nil a = refl
contains-Perm (Permᴰ.cons e p) a = ground (arith, ap (λ n. n.id) e, contains-Perm p a)
contains-Perm (Permᴰ.swap e f) a = ground (arith, ap (λ n. n.id) e, ap (λ n. n.id) f)
contains-Perm (Permᴰ.trans p q) a = contains-Perm p a ∙ contains-Perm q a

Nodup-Perm : {xs ys : List TaskNodeContract} → Permᴰ xs ys → Nodup (ids xs) → Nodup (ids ys)
unfolding contains
Nodup-Perm Permᴰ.nil h = tt
Nodup-Perm (Permᴰ.cons {b = b} e p) h =
    (sym (contains-Perm p b.id) ∙ ground (arith, ap (λ n. n.id) e), Nodup-Perm p h.1)
Nodup-Perm (Permᴰ.swap e f) h = ground (arith, ap (λ n. n.id) e, ap (λ n. n.id) f)
Nodup-Perm (Permᴰ.trans p q) h = Nodup-Perm q (Nodup-Perm p h)

module _ {R : Type 0} (g : TaskContractGraph) where
  Ready-Later :
      (s s' : GraphScheduler R) (run : Run g s) (run' : Run g s') (v : String)
      → Later s s'
      → state_at s'.outcomes v ≡ state_at s.outcomes v
      → IsReady s run.inv v
      → IsReady s' run'.inv v
  Ready-Later s s' run run' v l same h = record {
    waiting = same ∙ h.waiting;
    sources_done = λ u r. l.still_done u (h.sources_done u (rw l.same_graph at r));
  }

  -- `start_node` for each node of a batch.
  start_all-Run :
      (nodes : List TaskNodeContract) (s : GraphScheduler R) (run : Run g s)
      → Nodup (ids nodes)
      → ((v : String) → contains (ids nodes) v ≡ true → IsReady s run.inv v)
      → (s' : GraphScheduler R) × (for_each start_node nodes s ≡ ok s')
        × Run g s'
        × Later s s'
        × ((v : String)
            → (state_at s'.outcomes v ≡ some running)
              ↔ ((contains (ids nodes) v ≡ true) ⊎ (state_at s.outcomes v ≡ some running)))
  unfolding for_each start_node
  start_all-Run [] s run apart ready = (
    s,
    refl,
    run,
    Later-refl s,
    λ v. (λ h. inr h, λ h. elim h [ inl m ↦ absurd (not_in_nil v m) | inr r ↦ r ]),
  )
  start_all-Run (n ∷ nodes) s run apart ready =
      let (s1, ends, run1, l, now) =
        start-Run g s run n.id (ready n.id (contains_self n.id (ids nodes))) in
      let (s2, ends2, run2, l2, now2) = start_all-Run nodes s1 run1 apart.1 (λ v m.
        Ready-Later s s1 run run1 v l (ground (arith, now v, apart.0))
          (ready v (contains_tail n.id (ids nodes) v m))) in
      (
        s2,
        for_each-ok start_node n nodes s ends ends2,
        run2,
        Later-trans l l2,
        λ v. ground (arith, now v, now2 v, contains-cons n.id (ids nodes) v),
      )

  module _ (runner : TaskNodeContract → RunnerCall R) (execute : Bool) where
    finish-Run :
        (n : TaskNodeContract) (s : GraphScheduler R)
        → Run g s
        → state_at s.outcomes n.id ≡ some running
        → (s' : GraphScheduler R) × (finish_node runner execute n s ≡ ok s')
          × Run g s'
          × Later s s'
          × ((v : String)
              → (state_at s'.outcomes v ≡ some running)
                ↔ ((v ≢ n.id) × (state_at s.outcomes v ≡ some running)))
    unfolding finish_node report
    finish-Run n s run was = elim (Bool-cases execute) [
      | inr dry ↦ rw dry (succeed-Run g s run n.id none was)
      | inl wet ↦ rw wet (at (runner n))
    ]
      where
        at :
            (c : RunnerCall R)
            → (s' : GraphScheduler R) × (report n.id c s ≡ ok s')
              × Run g s'
              × Later s s'
              × ((v : String)
                  → (state_at s'.outcomes v ≡ some running)
                    ↔ ((v ≢ n.id) × (state_at s.outcomes v ≡ some running)))
        at (raised text) = fail-Run g s run n.id text was
        at (returned r) = elim (Bool-cases r.success) [
          | inl good ↦ rw good (succeed-Run g s run n.id r.result was)
          | inr bad ↦ rw bad (fail-Run g s run n.id r.error was)
        ]

    -- `finish_node` for each of the running nodes.
    finish_all-Run :
        (nodes : List TaskNodeContract) (s : GraphScheduler R)
        → Run g s
        → Nodup (ids nodes)
        → Running s (ids nodes)
        → (s' : GraphScheduler R) × (for_each (finish_node runner execute) nodes s ≡ ok s')
          × Run g s'
          × Later s s'
          × Running s' []
    unfolding for_each
    finish_all-Run [] s run apart here = (s, refl, run, Later-refl s, here)
    finish_all-Run (n ∷ nodes) s run apart here =
        let (s1, ends, run1, l, now) =
          finish-Run n s run ((here n.id).1 (contains_self n.id (ids nodes))) in
        let (s2, ends2, run2, l2, now2) =
          finish_all-Run nodes s1 run1 apart.1
            (λ v. ground (arith, now v, here v, contains-cons n.id (ids nodes) v, apart.0)) in
        (
          s2,
          for_each-ok (finish_node runner execute) n nodes s ends ends2,
          run2,
          Later-trans l l2,
          now2,
        )

    module _ (complete : List TaskNodeContract → List TaskNodeContract)
        (completes : (batch : List TaskNodeContract) → Permᴰ (complete batch) batch) where
      completion-Perm :
          (batch : List TaskNodeContract) → Permᴰ (completion complete execute batch) batch
      unfolding completion
      completion-Perm [] = Permᴰ.nil
      completion-Perm (n ∷ []) = PermD.refl (n ∷ [])
      completion-Perm (a ∷ b ∷ rest) = elim (Bool-cases execute) [
        | inl wet ↦ rw wet (completes (a ∷ b ∷ rest))
        | inr dry ↦ rw dry (PermD.refl (a ∷ b ∷ rest))
      ]

      -- What a round does: it leaves no node running, and has started one that was not.
      pub record Round (s s' : GraphScheduler R) : Type 0 where
        pub run : Run g s'
        pub idle : Running s' []
        pub later : Later s s'
        pub started : String
        pub was_fresh : state_at s.outcomes started ≡ some pending
        pub is_started : was_started (state_at s'.outcomes started) ≡ true

      batch-Round :
          (n : TaskNodeContract) (rest : List TaskNodeContract) (s : GraphScheduler R)
          (run : Run g s)
          → Running s []
          → Nodup (ids (n ∷ rest))
          → ((v : String) → contains (ids (n ∷ rest)) v ≡ true → IsReady s run.inv v)
          → (s' : GraphScheduler R) × (run_batch runner execute complete (n ∷ rest) s ≡ ok s')
            × Round s s'
      unfolding run_batch
      batch-Round n rest s run idle apart ready =
          let batch = n ∷ rest in
          let p = completion-Perm batch in
          let (s1, ends, run1, l, now) = start_all-Run batch s run apart ready in
          let (s2, ends2, run2, l2, idle2) =
            finish_all-Run (completion complete execute batch) s1 run1
              (Nodup-Perm (PermD.symm p) apart)
              (λ v. ground (arith, now v, idle v, not_in_nil v, contains-Perm p v)) in
          let here = ready n.id (contains_self n.id (ids rest)) in
          (
            s2,
            rw (ends, start_node) ends2,
            record {
              run = run2;
              idle = idle2;
              later = Later-trans l l2;
              started = n.id;
              was_fresh = here.waiting;
              is_started =
                  l2.still_started n.id
                    (rw ((now n.id).1 (inl (contains_self n.id (ids rest)))) refl);
            },
          )

      -- A batch of one node is what the sequential branch does.
      one_node :
          (s' : GraphScheduler R) (n : TaskNodeContract) (s : GraphScheduler R)
          → run_batch runner execute complete (n ∷ []) s ≡ ok s'
          → (start_node n s >>= finish_node runner execute n) ≡ ok s'
      unfolding run_batch completion for_each
      one_node s' n s h = elim (Result-cases (start_node n s)) [
        | inr (e, bad) ↦ ground arith
        | inl (t, good) ↦ elim (Result-cases (finish_node runner execute n t)) [
          | inr (e, bad) ↦ ground arith
          | inl (u, fine) ↦ ground arith
        ]
      ]

      module _ (resolve : String → String) (max_parallel : ℕ) (repo : Option String) where
        -- A round of the loop, in each of its branches.
        pub round-Round :
            (n : TaskNodeContract) (others : List TaskNodeContract) (s : GraphScheduler R)
            (run : Run g s)
            → Running s []
            → 1 ≤ max_parallel
            → Nodup (ids (n ∷ others))
            → ((v : String) → contains (ids (n ∷ others)) v ≡ true → IsReady s run.inv v)
            → (s' : GraphScheduler R) × (round runner complete resolve max_parallel repo execute n
                  others s
                ≡ ok s')
              × Round s s'
        unfolding round
        round-Round n others s run idle limit apart ready = elim (Bool-cases (ltb 1 max_parallel)) [
          | inr sequential ↦
              let (s', ends, r) =
                batch-Round n [] s run idle (unfold contains in refl, tt)
                  (λ v m. ready v (rw (contains_one n.id v m) (contains_self n.id (ids others)))) in
              (s', rw sequential (one_node s' n s ends), r)
          | inl parallel ↦
              let (batch, taken, part, short, nonempty, _, _) =
                select_parallel_batch_correct resolve repo max_parallel (n ∷ others) limit in
              let (s', ends, r) =
                some_nodes batch (nonempty (omega arith)) s run idle (Nodup-IsSublist part apart)
                  (λ v m. ready v (contains-IsSublist v part m)) in
              (s', rw parallel (rw taken ends), r)
        ]
          where
            some_nodes :
                (batch : List TaskNodeContract)
                → 1 ≤ length batch
                → (s : GraphScheduler R) (run : Run g s) → Running s []
                → Nodup (ids batch)
                → ((v : String) → contains (ids batch) v ≡ true → IsReady s run.inv v)
                → (s' : GraphScheduler R) × (run_batch runner execute complete batch s ≡ ok s')
                  × Round s s'
            some_nodes [] h s run = absurd (omega arith)
            some_nodes (m ∷ rest) h s run = batch-Round m rest s run
