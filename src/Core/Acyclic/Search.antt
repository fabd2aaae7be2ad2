-- ===== src/Core/Acyclic/Search.antt =====
-- What one call of the nested `visit` does: it restores the set of nodes being visited, keeps the
-- visited nodes in topological order, or stops at a node that lies on a cycle.
use c4harness.Base.{
  missing, missing-le, missing-cons-lt, ℕ, zero, suc, ◌<◌, String, ◌≡◌, refl, true, false, some,
  Bool-cases, List, [], ◌∷◌, Dict, keys, lookup, has_key, contains, contains-cons, contains-keys,
  discard, discard_head, contains_one, contains_self, contains_tail, lookup-has_key, length,
  string_eq, arith, inl, inr, ◌∙◌, sym,
}
use c4harness.Core.Errors.{Result, ok, err, for_each, ◌>>=◌}
use c4harness.Core.Walks.{Walk, one, more}
use c4harness.Core.Graph.{Dfs, visit, cycle_error}

module _ (outgoing : Dict String (List String)) where
  -- An edge of the adjacency dictionary.
  pub record Edge (u v : String) : Type 0 where
    pub targets : List String
    pub listed : lookup u outgoing ≡ some targets
    pub target : contains targets v ≡ true

  -- Every edge leads from a node to nodes further down the list.
  abbrev pub IsTopological : List String → Type 0
  IsTopological [] = Unit
  IsTopological (u ∷ rest) = ((v : String) → Edge u v → contains rest v ≡ true) × IsTopological rest

  -- Every target is a key.
  abbrev pub IsClosed : Type 0
  IsClosed = (u v : String) → Edge u v → has_key v outgoing ≡ true

  -- How many keys are not on the stack.
  pub room : List String → ℕ
  room visiting = missing (keys outgoing) visiting

  -- The results of visiting the nodes `ns` from the state `s`.
  abbrev pub Outcome : Dfs → List String → Result Dfs → Type 0
  Outcome s ns (ok s') =
      (s'.visiting ≡ s.visiting)
      × IsTopological s'.visited
      × ((m : String) → contains s.visited m ≡ true → contains s'.visited m ≡ true)
      × ((m : String) → contains ns m ≡ true → contains s'.visited m ≡ true)
  Outcome s ns (err e) = (e ≡ cycle_error) × (m : String) × Walk Edge m m

  Outcome-append :
      (s t : Dfs) (n : String) (ns : List String) (r : Result Dfs)
      → Outcome s (n ∷ []) (ok t)
      → Outcome t ns r
      → Outcome s (n ∷ ns) r
  unfolding contains
  Outcome-append s t n ns (err e) h k = k
  Outcome-append s t n ns (ok u) (same, top, kept, found) (same', top', kept', found') = (
    ground arith,
    top',
    λ m in_s. kept' m (kept m in_s),
    λ m in_ns. ground (arith, kept' m, found m, found' m),
  )

  for_each-Outcome :
      (step : String → Dfs → Result Dfs) (ns : List String) (s : Dfs)
      → IsTopological s.visited
      → ((n : String) (t : Dfs)
          → contains ns n ≡ true
          → t.visiting ≡ s.visiting
          → IsTopological t.visited
          → Outcome t (n ∷ []) (step n t))
      → Outcome s ns (for_each step ns s)
  unfolding for_each
  for_each-Outcome step [] s top h = (refl, top, λ m x. x, λ m x. unfold contains in cc)
  for_each-Outcome step (n ∷ ns) s top h =
      after (step n s) (h n s ((contains-cons n ns n).1 (inl refl)) refl top) λ t same top'.
        for_each-Outcome step ns t top' λ m u in_ns same' top''.
          h m u ((contains-cons n ns m).1 (inr in_ns)) (ground (arith, same)) top''
    where
      after :
          (r : Result Dfs)
          → Outcome s (n ∷ []) r
          → ((t : Dfs)
              → t.visiting ≡ s.visiting
              → IsTopological t.visited
              → Outcome t ns (for_each step ns t))
          → Outcome s (n ∷ ns) (elim r [ err e ↦ err e | ok t ↦ for_each step ns t ])
      after (err e) o k = o
      after (ok t) o k = Outcome-append s t n ns (for_each step ns t) o (k t o.0 o.1)

  -- The end of a call: `visiting.remove(node_id)`, `visited.add(node_id)`.
  abbrev leave : String → Dfs → Dfs
  leave n t = record { visiting = discard n t.visiting; visited = n ∷ t.visited }

  leave-Outcome :
      (n : String) (s : Dfs) (ts : List String) (r : Result Dfs)
      → lookup n outgoing ≡ some ts
      → Outcome (record s { visiting = n ∷ s.visiting }) ts r
      → Outcome s (n ∷ []) (r >>= λ t. ok (leave n t))
  leave-Outcome n s ts (err e) listed o = o
  leave-Outcome n s ts (ok t) listed (same, top, kept, found) = (
    rw same (discard_head n s.visiting),
    (λ v edge. found v (ground (arith, edge.listed, edge.target)), top),
    λ m in_s. contains_tail n t.visited m (kept m in_s),
    λ m in_n. rw (contains_one n m in_n) (contains_self n t.visited),
  )

  -- What a call needs of its arguments, and what it then does.
  abbrev Visits : ℕ → Type 0
  Visits fuel =
      (n : String) (s : Dfs)
      → room s.visiting < fuel
      → has_key n outgoing ≡ true
      → IsTopological s.visited
      → ((m : String) → contains s.visiting m ≡ true → Walk Edge m n)
      → Outcome s (n ∷ []) (visit fuel outgoing n s)

  module _ (closed : IsClosed) (fuel : ℕ) (ih : Visits fuel) (n : String) (s : Dfs)
      (ts : List String) (listed : lookup n outgoing ≡ some ts) where
    Edge-to : (v : String) → contains ts v ≡ true → Edge n v
    Edge-to v h = record { targets = ts; listed = listed; target = h }

    stack_below :
        ((m : String) → contains s.visiting m ≡ true → Walk Edge m n)
        → (v m : String) → contains ts v ≡ true
        → contains (n ∷ s.visiting) m ≡ true
        → Walk Edge m v
    stack_below stack v m in_ts on_stack = elim ((contains-cons n s.visiting m).0 on_stack) [
      | inl here ↦ rw here (one (Edge-to v in_ts))
      | inr above ↦ more (stack m above) (Edge-to v in_ts)
    ]

    children-Outcome :
        room s.visiting < suc fuel
        → has_key n outgoing ≡ true
        → contains s.visiting n ≡ false
        → IsTopological s.visited
        → ((m : String) → contains s.visiting m ≡ true → Walk Edge m n)
        → Outcome
            (record s { visiting = n ∷ s.visiting })
            ts
            (for_each (visit fuel outgoing) ts (record s { visiting = n ∷ s.visiting }))
    unfolding room
    children-Outcome fits known fresh top stack =
        for_each-Outcome (visit fuel outgoing) ts (record s { visiting = n ∷ s.visiting }) top
          λ v t in_ts same top'.
            ih v t
              (rw same (
                omega (
                  arith,
                  missing-cons-lt (keys outgoing) s.visiting n (contains-keys outgoing n ∙ known)
                      fresh,
                )))
              (closed n v (Edge-to v in_ts)) top'
              (λ m on. stack_below stack v m in_ts (rw same at on))

  pub visit-Outcome : IsClosed → (fuel : ℕ) → Visits fuel
  unfolding visit
  visit-Outcome closed zero n s fits known top stack = absurd (omega arith)
  visit-Outcome closed (suc fuel) n s fits known top stack =
      elim (Bool-cases (contains s.visiting n)) [
        | inl again ↦ rw (again, visit) (refl, n, stack n again)
        | inr fresh ↦ elim (Bool-cases (contains s.visited n)) [
          | inl done ↦
              rw (fresh, visit)
                (rw (done, visit) (refl, top, λ m x. x, λ m x. rw (contains_one n m x) done))
          | inr todo ↦
              let (ts, listed) = lookup-has_key n outgoing known in
              rw (fresh, visit)
                (rw (todo, visit)
                  (rw (listed, visit)
                    (leave-Outcome n s ts _ listed (
                      children-Outcome closed fuel (visit-Outcome closed fuel) n s ts listed fits
                        known fresh top stack))))
        ]
      ]

  topological-Edge :
      (l : List String) (u v : String)
      → IsTopological l
      → contains l u ≡ true
      → Edge u v
      → contains l v ≡ true
  topological-Edge [] u v top m e = unfold contains in cc
  topological-Edge (x ∷ l) u v top m e = elim ((contains-cons x l u).0 m) [
    | inl here ↦ contains_tail x l v (top.0 v (rw here at e))
    | inr below ↦ contains_tail x l v (topological-Edge l u v top.1 below e)
  ]

  below_head :
      (x v : String) (l : List String) → IsTopological (x ∷ l) → Walk Edge x v → contains l v ≡ true
  below_head x v l top (one e) = top.0 v e
  below_head x v l top (more {v = m} w e) = topological-Edge l m v top.1 (below_head x m l top w) e

  -- No walk leads from a node of a topological list to itself.
  pub topological-acyclic :
      (l : List String) (u : String) → IsTopological l → contains l u ≡ true → ¬ Walk Edge u u
  topological-acyclic [] u top m w = unfold contains in cc
  topological-acyclic (x ∷ l) u top m w = elim ((contains-cons x l u).0 m) [
    | inl here ↦ topological-acyclic l u top.1 (rw here (below_head x x l top (rw here at w))) w
    | inr below ↦ topological-acyclic l u top.1 below w
  ]

  -- The search of every key, from the empty state: all is visited, or there is a cycle.
  pub search-Outcome :
      IsClosed
      → (fuel : ℕ) → length (keys outgoing) < fuel
      → Outcome
          (record { visiting = []; visited = [] })
          (keys outgoing)
          (for_each (visit fuel outgoing) (keys outgoing) (record { visiting = []; visited = [] }))
  unfolding room
  search-Outcome closed fuel fits =
      for_each-Outcome (visit fuel outgoing) (keys outgoing)
        (record { visiting = []; visited = [] }) tt
        λ n t in_keys same top.
          visit-Outcome closed fuel n t (rw same (omega (arith, missing-le (keys outgoing) [])))
            (sym (contains-keys outgoing n) ∙ in_keys) top (λ m on. absurd_member m (rw same at on))
    where
      absurd_member : (m : String) {n : String} → contains {A = String} [] m ≡ true → Walk Edge m n
      absurd_member m h = unfold contains in cc
