-- ===== src/Core/Walks.antt =====
-- Walks along a relation between node ids: one step or more.
use c4harness.Base.{String}

pub data Walk (R : String → String → Type 0) (u : String) : String → Type 0 where
  one : {v : String} → R u v → Walk R u v
  more : {v w : String} → Walk R u v → R v w → Walk R u w

pub Walk-map :
    {R S : String → String → Type 0} {u v : String}
    → ((a b : String) → R a b → S a b)
    → Walk R u v
    → Walk S u v
Walk-map f (one r) = one (f _ _ r)
Walk-map f (more w r) = more (Walk-map f w) (f _ _ r)

-- A set that is closed under the relation is closed under walks.
pub Walk-closed {ℓ} :
    {R : String → String → Type 0} (P : String → Type ℓ) {u v : String}
    → ((a b : String) → R a b → P a → P b)
    → Walk R u v
    → P u
    → P v
Walk-closed P f (one r) p = f _ _ r p
Walk-closed P f (more w r) p = f _ _ r (Walk-closed P f w p)

pub Walk-append :
    {R : String → String → Type 0} {u v w : String} → Walk R u v → Walk R v w → Walk R u w
Walk-append p (one r) = more p r
Walk-append p (more q r) = more (Walk-append p q) r
