-- ===== src/Scheduler/Batch/Greedy.antt =====
-- The batch is a part of the ready nodes, in their order, that is within the limit, whose nodes do not
-- write over one another, and that no further ready node could join.
use mathlib.Core.List.{append-nil, append_assoc}
use c4harness.Base.{
  contains_self, ◌↔◌, ℕ, ◌≤◌, ◌<◌, String, ◌≡◌, refl, subst, Bool, true, false, Option, List, [],
  ◌∷◌, ◌++◌, any, map, length, length-append, leb, All, Nodup, contains, contains-cons, string_eq,
  arith, inl, inr, ◌⊎◌, Bool-cases,
}
use c4harness.Core.Errors.{ok}
use c4harness.Core.Types.{TaskNodeContract}
use c4harness.Scheduler.Batch.{nodes_overlap, select_loop, select_parallel_batch}

-- The first list is the second with some items left out.
pub data IsSublist : List TaskNodeContract → List TaskNodeContract → Type 0 where
  end : IsSublist [] []
  keep :
      (n : TaskNodeContract) {xs ys : List TaskNodeContract}
      → IsSublist xs ys
      → IsSublist (n ∷ xs) (n ∷ ys)
  drop :
      (n : TaskNodeContract) {xs ys : List TaskNodeContract}
      → IsSublist xs ys
      → IsSublist xs (n ∷ ys)

IsSublist-refl : (xs : List TaskNodeContract) → IsSublist xs xs
IsSublist-refl [] = end
IsSublist-refl (x ∷ xs) = keep x (IsSublist-refl xs)

nil-IsSublist : (ys : List TaskNodeContract) → IsSublist [] ys
nil-IsSublist [] = end
nil-IsSublist (y ∷ ys) = drop y (nil-IsSublist ys)

IsSublist-append : (xs ys : List TaskNodeContract) → IsSublist xs (xs ++ ys)
IsSublist-append [] ys = nil-IsSublist ys
IsSublist-append (x ∷ xs) ys = keep x (IsSublist-append xs ys)

-- One more item in the middle of the longer list.
IsSublist-middle :
    (xs ys : List TaskNodeContract) (n : TaskNodeContract) {r : List TaskNodeContract}
    → IsSublist r (xs ++ ys)
    → IsSublist r (xs ++ n ∷ ys)
IsSublist-middle [] ys n h = drop n h
IsSublist-middle (x ∷ xs) ys n (keep _ h) = keep x (IsSublist-middle xs ys n h)
IsSublist-middle (x ∷ xs) ys n (drop _ h) = drop x (IsSublist-middle xs ys n h)

pub All-IsSublist :
    (P : TaskNodeContract → Type 0) {xs ys : List TaskNodeContract}
    → IsSublist xs ys
    → All P ys
    → All P xs
All-IsSublist P end h = h
All-IsSublist P (keep n s) h = (h.0, All-IsSublist P s h.1)
All-IsSublist P (drop n s) h = All-IsSublist P s h.1

abbrev pub ids : List TaskNodeContract → List String
ids = map (λ n. n.id)

pub contains-IsSublist :
    {xs ys : List TaskNodeContract} (a : String)
    → IsSublist xs ys
    → contains (ids xs) a ≡ true
    → contains (ids ys) a ≡ true
contains-IsSublist a end h = h
contains-IsSublist a (keep n {xs} {ys} s) h =
    ground
      (arith, contains-IsSublist a s, contains-cons n.id (ids xs) a, contains-cons n.id (ids ys) a)
contains-IsSublist a (drop n {xs} {ys} s) h =
    ground (arith, contains-IsSublist a s, contains-cons n.id (ids ys) a)

pub Nodup-IsSublist :
    {xs ys : List TaskNodeContract} → IsSublist xs ys → Nodup (ids ys) → Nodup (ids xs)
Nodup-IsSublist end h = h
Nodup-IsSublist (keep n s) h =
    (ground (arith, contains-IsSublist n.id s, h.0), Nodup-IsSublist s h.1)
Nodup-IsSublist (drop n s) h = Nodup-IsSublist s h.1

module _ (resolve : String → String) (repo : Option String) (max_parallel : ℕ) where
  abbrev pick : List TaskNodeContract → List TaskNodeContract → List TaskNodeContract
  pick = select_loop resolve repo max_parallel

  abbrev clashes : TaskNodeContract → List TaskNodeContract → Bool
  clashes n batch = any (nodes_overlap resolve repo n) batch

  -- No node writes where an earlier one does.
  abbrev pub IsApart : List TaskNodeContract → Type 0
  IsApart [] = Unit
  IsApart (x ∷ xs) = All (λ y. nodes_overlap resolve repo y x ≡ false) xs × IsApart xs

  All-snoc :
      (P : TaskNodeContract → Type 0) (xs : List TaskNodeContract) (n : TaskNodeContract)
      → All P xs
      → P n
      → All P (xs ++ n ∷ [])
  All-snoc P [] n h k = (k, tt)
  All-snoc P (x ∷ xs) n h k = (h.0, All-snoc P xs n h.1 k)

  IsApart-snoc :
      (batch : List TaskNodeContract) (n : TaskNodeContract)
      → IsApart batch
      → clashes n batch ≡ false
      → IsApart (batch ++ n ∷ [])
  unfolding any
  IsApart-snoc [] n h k = (tt, tt)
  IsApart-snoc (x ∷ batch) n h k = (
    All-snoc (λ y. nodes_overlap resolve repo y x ≡ false) batch n h.0 (ground arith),
    IsApart-snoc batch n h.1 (ground arith),
  )

  -- What the loop makes of the batch.
  record Picked (ready batch result : List TaskNodeContract) : Type 0 where
    picked : pick ready batch ≡ result
    part : IsSublist result (batch ++ ready)
    longer : length batch ≤ length result
    within : length batch ≤ max_parallel → length result ≤ max_parallel
    apart : IsApart batch → IsApart result
    kept : (n : TaskNodeContract) → clashes n batch ≡ true → clashes n result ≡ true
    full :
        length result < max_parallel
        → All (λ n. (contains (ids result) n.id ≡ true) ⊎ (clashes n result ≡ true)) ready
    members : (a : String) → contains (ids batch) a ≡ true → contains (ids result) a ≡ true

  any-append :
      (f : TaskNodeContract → Bool) (xs ys : List TaskNodeContract)
      → any f xs ≡ true
      → any f (xs ++ ys) ≡ true
  unfolding any
  any-append f [] ys h = ground arith
  any-append f (x ∷ xs) ys h = ground (arith, any-append f xs ys)

  contains-ids-append :
      (xs ys : List TaskNodeContract) (a : String)
      → (contains (ids (xs ++ ys)) a ≡ true)
        ↔ ((contains (ids xs) a ≡ true) ⊎ (contains (ids ys) a ≡ true))
  unfolding contains
  contains-ids-append [] ys a = ground arith
  contains-ids-append (x ∷ xs) ys a = ground (arith, contains-ids-append xs ys a)

  -- The loop stops at a full batch.
  Picked-full :
      (n : TaskNodeContract) (ready batch : List TaskNodeContract)
      → leb max_parallel (length batch) ≡ true
      → Picked (n ∷ ready) batch batch
  unfolding select_loop
  Picked-full n ready batch full = record {
    picked = rw full refl;
    part = IsSublist-append batch (n ∷ ready);
    longer = omega arith;
    within = λ h. h;
    apart = λ h. h;
    kept = λ m h. h;
    full = λ h. absurd (ground arith);
    members = λ a h. h;
  }

  -- The loop passes over a node that clashes.
  Picked-clash :
      (n : TaskNodeContract) (ready batch result : List TaskNodeContract)
      → leb max_parallel (length batch) ≡ false
      → clashes n batch ≡ true
      → Picked ready batch result
      → Picked (n ∷ ready) batch result
  unfolding select_loop
  Picked-clash n ready batch result room clash p = record {
    picked = rw (room, clash) p.picked;
    part = IsSublist-middle batch ready n p.part;
    longer = p.longer;
    within = p.within;
    apart = p.apart;
    kept = p.kept;
    full = λ h. (inr (p.kept n clash), p.full h);
    members = p.members;
  }

  -- The loop takes a node that does not clash.
  Picked-free :
      (n : TaskNodeContract) (ready batch result : List TaskNodeContract)
      → leb max_parallel (length batch) ≡ false
      → clashes n batch ≡ false
      → Picked ready (batch ++ n ∷ []) result
      → Picked (n ∷ ready) batch result
  unfolding select_loop
  Picked-free n ready batch result room free p = record {
    picked = rw (room, free) p.picked;
    part = subst (IsSublist result) (append_assoc batch (n ∷ []) ready) p.part;
    longer = ground (arith, p.longer, length-append batch (n ∷ []));
    within = λ h. p.within (ground (arith, length-append batch (n ∷ [])));
    apart = λ h. p.apart (IsApart-snoc batch n h free);
    kept = λ m h. p.kept m (any-append (nodes_overlap resolve repo m) batch (n ∷ []) h);
    full = λ h. (
      inl (
          p.members n.id
            ((contains-ids-append batch (n ∷ []) n.id).1 (inr (contains_self n.id [])))),
      p.full h,
    );
    members = λ a h. p.members a ((contains-ids-append batch (n ∷ []) a).1 (inl h));
  }

  picks :
      (ready batch : List TaskNodeContract)
      → (result : List TaskNodeContract) × Picked ready batch result
  unfolding select_loop
  picks [] batch = (
    batch,
    record {
      picked = refl;
      part = rw append-nil (IsSublist-refl batch);
      longer = omega arith;
      within = λ h. h;
      apart = λ h. h;
      kept = λ n h. h;
      full = λ h. tt;
      members = λ a h. h;
    },
  )
  picks (n ∷ ready) batch =
      let (clashed, p) = picks ready batch in
      let (taken, q) = picks ready (batch ++ n ∷ []) in
      elim (Bool-cases (leb max_parallel (length batch))) [
        | inl full ↦ (batch, Picked-full n ready batch full)
        | inr room ↦ elim (Bool-cases (clashes n batch)) [
          | inl clash ↦ (clashed, Picked-clash n ready batch clashed room clash p)
          | inr free ↦ (taken, Picked-free n ready batch taken room free q)
        ]
      ]

  -- The first ready node is always taken.
  picks-nonempty :
      (n : TaskNodeContract) (ready : List TaskNodeContract)
      → 1 ≤ max_parallel
      → 1 ≤ length (pick (n ∷ ready) [])
  unfolding select_loop any
  picks-nonempty n ready h =
      let (taken, q) = picks ready (n ∷ []) in
      elim (Bool-cases (leb max_parallel 0)) [
        | inl full ↦ absurd (ground arith)
        | inr room ↦ rw (room, q.picked) (ground (arith, q.longer))
      ]

  -- With a limit of at least one, the batch of `select_parallel_batch` is made of ready nodes in their
  -- order, has at most the limit of them, at least one if any is ready, and no two of them write where
  -- the other does. If it has fewer than the limit, every ready node is in it or writes where one of its
  -- nodes does.
  pub select_parallel_batch_correct :
      (ready : List TaskNodeContract)
      → 1 ≤ max_parallel
      → (batch : List TaskNodeContract) × (select_parallel_batch resolve ready max_parallel repo
          ≡ ok batch)
        × IsSublist batch ready
        × (length batch ≤ max_parallel)
        × ((1 ≤ length ready) → 1 ≤ length batch)
        × IsApart batch
        × ((length batch < max_parallel)
            → All
                (λ n.
                  (contains (ids batch) n.id ≡ true)
                  ⊎ (any (nodes_overlap resolve repo n) batch ≡ true))
                ready)
  unfolding select_parallel_batch
  select_parallel_batch_correct ready h =
      let (batch, p) = picks ready [] in
      (
        batch,
        ground (arith, p.picked),
        p.part,
        p.within (omega arith),
        nonempty ready batch p.picked,
        p.apart tt,
        p.full,
      )
    where
      nonempty :
          (ready batch : List TaskNodeContract)
          → pick ready [] ≡ batch
          → 1 ≤ length ready
          → 1 ≤ length batch
      nonempty [] batch e k = absurd (omega arith)
      nonempty (n ∷ ready) batch e k = rw e at (picks-nonempty n ready h)
