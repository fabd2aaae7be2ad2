-- ===== src/Reservations/Disjoint.antt =====
-- Active reservations of different nodes never overlap.
use c4harness.Base.{
  ◌≡◌, ◌≢◌, inl, inr, refl, String, Bool, true, false, some, List, [], ◌∷◌, ◌++◌, Dict, lookup,
  insert, erase, lookup-insert, lookup-erase, filter, map, contains, contains-cons, All, ==_iff,
  string_eq, arith, Bool-cases,
}
use c4harness.Core.Errors.{ok, >>=-eq-ok}
use c4harness.Core.Types.{is_nonempty}
use c4harness.Scheduler.Propagate.Loop.{not_in_nil}
use c4harness.Paths.{paths_overlap}
use c4harness.Paths.Overlap.{paths_overlap_comm}
use c4harness.Reservations.{
  ReservationRecord, WriteReservationManager, canonical_paths, in_conflict, reserve_conflicts,
  held_by, acquire, reserve, release, release_normalized, canonical_write_path,
}

-- The reservations of different nodes do not overlap.
abbrev pub IsDisjoint : Dict String ReservationRecord → Type 0
IsDisjoint active =
    (p q : String) (r s : ReservationRecord)
    → lookup p active ≡ some r
    → lookup q active ≡ some s
    → r.node_id ≢ s.node_id
    → paths_overlap p q ≡ false

-- A path overlaps no reservation of another node.
abbrev Free : Dict String ReservationRecord → String → String → Type 0
Free active node_id path =
    (q : String) (s : ReservationRecord)
    → lookup q active ≡ some s
    → s.node_id ≢ node_id
    → paths_overlap path q ≡ false

conflict-Free :
    (f : String × ReservationRecord → String) (d : Dict String ReservationRecord)
    (node_id path : String)
    → is_nonempty (map f (filter (in_conflict node_id path) d)) ≡ false
    → Free d node_id path
unfolding filter lookup
conflict-Free f [] node_id path h q s found other = cc
conflict-Free f ((j, w) ∷ d) node_id path h q s found other =
    elim (Bool-cases (in_conflict node_id path (j, w))) [
      | inl clash ↦ absurd (ground arith)
      | inr fine ↦
          let rest : is_nonempty (map f (filter (in_conflict node_id path) d)) ≡ false =
            ground arith in
          ground (arith, conflict-Free f d node_id path rest q s)
    ]

append-empty :
    (xs ys : List String)
    → is_nonempty (xs ++ ys) ≡ false
    → (is_nonempty xs ≡ false) × (is_nonempty ys ≡ false)
append-empty [] ys h = (refl, h)
append-empty (x ∷ xs) ys h = cc

no_conflicts :
    (d : Dict String ReservationRecord) (node_id : String) (paths : List String)
    → is_nonempty (reserve_conflicts d node_id paths) ≡ false
    → All (Free d node_id) paths
unfolding reserve_conflicts
no_conflicts d node_id [] h = tt
no_conflicts d node_id (p ∷ ps) h =
    let (a, b) = append-empty _ _ h in (conflict-Free _ d node_id p a, no_conflicts d node_id ps b)

module _ (node_id path : String) (fresh : ReservationRecord) (mine : fresh.node_id ≡ node_id) where
  insert-Free :
      (d : Dict String ReservationRecord) (p : String)
      → Free d node_id p
      → Free (insert path fresh d) node_id p
  insert-Free d p free q s found other =
      ground (arith, lookup-insert q path fresh d, free q s, mine)

  insert-All :
      (d : Dict String ReservationRecord) (ps : List String)
      → All (Free d node_id) ps
      → All (Free (insert path fresh d) node_id) ps
  insert-All d [] h = tt
  insert-All d (p ∷ ps) h = (insert-Free d p h.0, insert-All d ps h.1)

  insert-IsDisjoint :
      (d : Dict String ReservationRecord)
      → Free d node_id path
      → IsDisjoint d
      → IsDisjoint (insert path fresh d)
  insert-IsDisjoint d free apart p q r s at_p at_q other = ground (
    arith,
    lookup-insert p path fresh d,
    lookup-insert q path fresh d,
    apart p q r s,
    free q s,
    free p r,
    paths_overlap_comm p path,
    paths_overlap_comm p q,
    mine,
  )

acquire-IsDisjoint :
    (node_id : String) (paths : List String) (m : WriteReservationManager)
    → All (Free m.active node_id) paths
    → IsDisjoint m.active
    → IsDisjoint (acquire node_id paths m).0.active
unfolding acquire
acquire-IsDisjoint node_id [] m free apart = apart
acquire-IsDisjoint node_id (p ∷ ps) m free apart =
    let fresh : ReservationRecord = record { node_id = node_id; path = p; released = false } in
    elim (Bool-cases (held_by node_id (lookup p m.active))) [
      | inl held ↦ rw held (acquire-IsDisjoint node_id ps m free.1 apart)
      | inr open_path ↦ rw open_path (
          acquire-IsDisjoint node_id ps
            (record { active = insert p fresh m.active; all_records = m.all_records ++ fresh ∷ [] })
            (insert-All node_id p fresh refl m.active ps free.1)
            (insert-IsDisjoint node_id p fresh refl m.active free.0 apart))
    ]

-- A path is reserved by a node.
abbrev pub IsHeld : Dict String ReservationRecord → String → String → Type 0
IsHeld active node_id path = held_by node_id (lookup path active) ≡ true

acquire-keeps :
    (node_id : String) (paths : List String) (m : WriteReservationManager) (p : String)
    → IsHeld m.active node_id p
    → IsHeld (acquire node_id paths m).0.active node_id p
unfolding acquire
acquire-keeps node_id [] m p h = h
acquire-keeps node_id (q ∷ ps) m p h =
    let fresh : ReservationRecord = record { node_id = node_id; path = q; released = false } in
    elim (Bool-cases (held_by node_id (lookup q m.active))) [
      | inl held ↦ rw held (acquire-keeps node_id ps m p h)
      | inr open_path ↦ rw open_path (
          acquire-keeps node_id ps
            (record { active = insert q fresh m.active; all_records = m.all_records ++ fresh ∷ [] })
            p (ground (arith, lookup-insert p q fresh m.active, ==_iff node_id node_id)))
    ]

acquire-holds :
    (node_id : String) (paths : List String) (m : WriteReservationManager) (p : String)
    → contains paths p ≡ true
    → IsHeld (acquire node_id paths m).0.active node_id p
unfolding acquire
acquire-holds node_id [] m p h = absurd (not_in_nil p h)
acquire-holds node_id (q ∷ ps) m p h =
    let fresh : ReservationRecord = record { node_id = node_id; path = q; released = false } in
    let m' : WriteReservationManager = record {
      active = insert q fresh m.active;
      all_records = m.all_records ++ fresh ∷ [];
    } in
    elim (Bool-cases (held_by node_id (lookup q m.active))) [
      | inl held ↦ rw held (elim ((contains-cons q ps p).0 h) [
        | inl here ↦ acquire-keeps node_id ps m p (rw here held)
        | inr there ↦ acquire-holds node_id ps m p there
      ])
      | inr open_path ↦ rw open_path (elim ((contains-cons q ps p).0 h) [
        | inl here ↦
            acquire-keeps node_id ps m' p
              (ground (arith, lookup-insert p q fresh m.active, ==_iff node_id node_id))
        | inr there ↦ acquire-holds node_id ps m' p there
      ])
    ]

-- If no two reservations of different nodes overlap and `reserve` returns, the paths were canonical ones,
-- the node now holds each of them, and still no two reservations of different nodes overlap.
pub reserve-IsDisjoint :
    (m m' : WriteReservationManager) (node_id : String) (paths : List String)
    (records : List ReservationRecord)
    → IsDisjoint m.active
    → reserve m node_id paths ≡ ok (m', records)
    → (normalized : List String) × (canonical_paths paths ≡ ok normalized)
      × ((p : String) → contains normalized p ≡ true → IsHeld m'.active node_id p)
      × IsDisjoint m'.active
unfolding reserve
reserve-IsDisjoint m m' node_id paths records apart h =
    let (normalized, canonical, rest) = >>=-eq-ok (canonical_paths paths) _ h in
    let free : is_nonempty (reserve_conflicts m.active node_id normalized) ≡ false = ground arith in
    let same : (acquire node_id normalized m).0 ≡ m' = ground arith in
    (
      normalized,
      canonical,
      rw (← same) (acquire-holds node_id normalized m),
      rw (← same) (
          acquire-IsDisjoint node_id normalized m (no_conflicts m.active node_id normalized free)
            apart),
    )

-- `release` keeps the reservations of different nodes apart, and after it the node does not hold the path.
pub release-IsDisjoint :
    (m m' : WriteReservationManager) (node_id path normalized : String) (done : Bool)
    → IsDisjoint m.active
    → canonical_write_path path ≡ ok normalized
    → release m node_id path ≡ ok (m', done)
    → IsDisjoint m'.active
      × (held_by node_id (lookup normalized m'.active) ≡ false)
      × (done ≡ held_by node_id (lookup normalized m.active))
unfolding release release_normalized
release-IsDisjoint m m' node_id path normalized done apart canonical h =
    elim (Bool-cases (held_by node_id (lookup normalized m.active))) [
      | inl held ↦
          let same : erase normalized m.active ≡ m'.active = ground arith in
          let now : done ≡ true = ground arith in
          (
            rw (← same) (λ p q r s at_p at_q other. ground (
              arith,
              lookup-erase p normalized m.active,
              lookup-erase q normalized m.active,
              apart p q r s,
            )),
            rw (← same) (ground (arith, lookup-erase normalized normalized m.active)),
            ground arith,
          )
      | inr free ↦
          let same : m.active ≡ m'.active = ground arith in
          (rw (← same) apart, rw (← same) free, ground arith)
    ]
