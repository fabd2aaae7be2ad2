-- ===== src/Scheduler/Propagate/Loop.antt =====
-- The `while queue` loop of `_propagate_blocked`, and the method itself.
use c4harness.Base.{
  ℕ, zero, suc, ◌+◌, ◌<◌, String, ◌≡◌, refl, ◌∙◌, true, false, ◌&&◌, some, List, [], ◌∷◌, keys,
  lookup, contains, contains_one, contains_self, contains_tail, contains-cons, all, map, length,
  missing, missing-le, string_eq, arith, inl, inr, ◌⊎◌, ◌↔◌, ap,
}
use c4harness.Core.Errors.{ok}
use c4harness.Core.Types.{GraphEdge}
use c4harness.Core.Walks.{one, more, Walk-closed}
use c4harness.Scheduler.{NodeOutcome, Outcomes, Front, is_pending, propagate}
use c4harness.Scheduler.Propagate.Scan.{requires, Downstream, block_found, BlockedView, Scan, scan}

-- The nodes that `root` blocks: itself, and all that a chain of `requires` edges leads to.
abbrev pub Reached : List GraphEdge → String → String → Type 0
Reached edges root v = (v ≡ root) ⊎ Downstream edges root v

-- What the method makes of the outcomes `start`.
pub record Propagated {R : Type 0} (edges : List GraphEdge) (root : String)
    (start states : Outcomes R) : Type 0 where
  pub reached : List String
  pub reached_iff : (v : String) → (contains reached v ≡ true) ↔ Reached edges root v
  pub view : BlockedView start reached states
  pub same_keys : keys states ≡ keys start

List-cases :
    (xs : List String) → (xs ≡ []) ⊎ ((x : String) × (rest : List String) × (xs ≡ x ∷ rest))
List-cases [] = inl refl
List-cases (x ∷ rest) = inr (x, rest, refl)

pub not_in_nil : (v : String) → ¬ (contains [] v ≡ true)
not_in_nil v h = unfold contains in cc

goals-own :
    (es : List GraphEdge) (nodes : List String) (goals : List String)
    → ((v : String) → contains (map (λ e. e.target) es) v ≡ true → contains goals v ≡ true)
    → all (λ e. contains nodes e.target) es ≡ true
    → all (λ e. contains goals e.target && contains nodes e.target) es ≡ true
unfolding all
goals-own [] nodes goals h k = refl
goals-own (e ∷ es) nodes goals h k = ground (
  arith,
  h e.target (contains_self e.target (map (λ d. d.target) es)),
  goals-own es nodes goals (λ v m. h v (contains_tail e.target (map (λ d. d.target) es) v m)),
)

length-goals : (es : List GraphEdge) → length (map (λ e. e.target) es) ≡ length es
length-goals [] = refl
length-goals (e ∷ es) = ap suc (length-goals es)

module _ {R : Type 0} (edges : List GraphEdge) (root : String) (start : Outcomes R) where
  abbrev goals : List String
  goals = map (λ e. e.target) edges

  abbrev Known : Outcomes R → Type 0
  Known states = all (λ e. contains goals e.target && contains (keys states) e.target) edges ≡ true

  record Inv (f : Front R) : Type 0 where
    rooted : contains f.visited root ≡ true
    sound : (v : String) → contains f.visited v ≡ true → Reached edges root v
    queued : (v : String) → contains f.queue v ≡ true → contains f.visited v ≡ true
    closed :
        (u v : String)
        → contains f.visited u ≡ true
        → requires edges u v ≡ true
        → (contains f.queue u ≡ true) ⊎ (contains f.visited v ≡ true)
    view : BlockedView start f.visited f.states
    same_keys : keys f.states ≡ keys start

  Inv-Scan :
      (f g : Front R) (c : String) (rest : List String)
      → f.queue ≡ c ∷ rest
      → Inv f
      → Scan start goals edges c (record f { queue = rest }) g
      → Inv g
  Inv-Scan f g c rest e inv s =
      let from_queue : (u : String)
          → contains f.queue u ≡ true
          → (u ≡ c) ⊎ (contains rest u ≡ true) =
        λ u h. (contains-cons c rest u).0 (rw e at h) in
      let c_seen : contains f.visited c ≡ true = inv.queued c (rw e (contains_self c rest)) in
      record {
        rooted = (s.seen_iff root).1 (inl inv.rooted);
        sound = λ v h. elim ((s.seen_iff v).0 h) [
          | inl old ↦ inv.sound v old
          | inr new ↦ inr (beyond (inv.sound c c_seen) new)
        ];
        queued = λ v h. elim (s.queued v h) [
          | inl old ↦ (s.seen_iff v).1 (inl (inv.queued v (rw e (contains_tail c rest v old))))
          | inr new ↦ new
        ];
        closed = λ u v h r.
            ground (arith, s.fresh u h, inv.closed u v, from_queue u, s.kept u, s.seen_iff v);
        view = s.view;
        same_keys = s.same_keys ∙ inv.same_keys;
      }
    where
      beyond :
          {v : String} → Reached edges root c → requires edges c v ≡ true → Downstream edges root v
      beyond (inl same) r = one (rw same at r)
      beyond (inr w) r = more w r

  -- With an empty queue the visited set is closed.
  Inv-Propagated : (f : Front R) → Inv f → f.queue ≡ [] → Propagated edges root start f.states
  Inv-Propagated f inv empty = record {
    reached = f.visited;
    reached_iff = λ v. (inv.sound v, complete v);
    view = inv.view;
    same_keys = inv.same_keys;
  }
    where
      step :
          (a b : String)
          → requires edges a b ≡ true
          → contains f.visited a ≡ true
          → contains f.visited b ≡ true
      step a b r h = elim (inv.closed a b h r) [
        | inl waiting ↦ absurd (not_in_nil a (rw empty at waiting))
        | inr seen ↦ seen
      ]

      complete : (v : String) → Reached edges root v → contains f.visited v ≡ true
      complete v (inl same) = rw same inv.rooted
      complete v (inr w) = Walk-closed (λ x. contains f.visited x ≡ true) step w inv.rooted

  loop_ends :
      (fuel : ℕ) (f : Front R)
      → length f.queue + missing goals f.visited < fuel
      → Known start
      → Inv f
      → (states : Outcomes R) × (propagate fuel edges f ≡ ok states)
        × Propagated edges root start states
  unfolding propagate
  loop_ends zero f fits known inv = absurd (omega arith)
  loop_ends (suc fuel) f fits known inv = elim (List-cases f.queue) [
    | inl empty ↦ (f.states, rw (empty, propagate) refl, Inv-Propagated f inv empty)
    | inr (c, rest, e) ↦
        let (g, s) =
          scan start goals c edges (record f { queue = rest }) inv.view (rw inv.same_keys known) in
        let (states, ends, result) =
          loop_ends fuel g (omega (arith, s.work, ap length e)) known
            (Inv-Scan f g c rest e inv s) in
        (states, rw (e, propagate) (rw s.ran ends), result)
  ]

  opt_same : (o : NodeOutcome R) → is_pending o.state ≡ false → block_found (some o) ≡ some o
  opt_same o h = ground arith

  -- The front at the start of the method, where the root is known and no longer pending.
  Inv-start :
      (o : NodeOutcome R)
      → lookup root start ≡ some o
      → is_pending o.state ≡ false
      → Inv (record { states = start; visited = root ∷ []; queue = root ∷ [] })
  Inv-start o found settled = record {
    rooted = contains_self root [];
    sound = λ v h. inl (contains_one root v h);
    queued = λ v h. h;
    closed = λ u v h r. inl h;
    view = λ v. ground (
      arith,
      found,
      contains-cons root [] v,
      not_in_nil v,
      contains_one root v,
      opt_same o settled,
    );
    same_keys = refl;
  }

  -- From a known root that is not pending, the loop ends within two rounds more than there are
  -- edges.
  pub propagate-Propagated :
      (o : NodeOutcome R)
      → lookup root start ≡ some o
      → is_pending o.state ≡ false
      → all (λ e. contains (keys start) e.target) edges ≡ true
      → (states : Outcomes R) × (propagate
            (suc (suc (length edges)))
            edges
            (record { states = start; visited = root ∷ []; queue = root ∷ [] })
          ≡ ok states)
        × Propagated edges root start states
  propagate-Propagated o found settled known =
      loop_ends (suc (suc (length edges)))
        (record { states = start; visited = root ∷ []; queue = root ∷ [] })
        (omega (arith, length-goals edges, missing-le goals (root ∷ [])))
        (goals-own edges (keys start) goals (λ v h. h) known) (Inv-start o found settled)
