-- ===== src/Base/Dicts.antt =====
-- Python's dict in insertion order. A write to a present key keeps its place.
use mathlib.Core.Path.{◌≡◌, refl, subst}
use mathlib.Core.Logic.{inl, inr}
use mathlib.Core.Bool.{Bool, true, false}
use mathlib.Core.Option.{Option, none, some}
use mathlib.Core.List.{List, [], ◌∷◌}
use native.Mathlib.Omega.{arith}
use c4harness.Base.Equality.{Bool-cases, ==_refl, Eq, ◌==◌, if◌then◌else◌}
use c4harness.Base.Lists.{contains, All, Nodup}

abbrev pub Dict {ℓ κ} : Type ℓ → Type κ → Type (ℓ ⊔ κ)
Dict K V = List (K × V)

module _ {ℓ κ} {K : Type ℓ} {V : Type κ} where
  unfoldable pub keys : Dict K V → List K
  keys [] = []
  keys ((k, _) ∷ d) = k ∷ keys d

  unfoldable pub values : Dict K V → List V
  values [] = []
  values ((_, v) ∷ d) = v ∷ values d

module _ {ℓ κ} {K : Type ℓ} {V : Type κ} ⦃e : Eq K⦄ where
  -- `d.get(k)`
  unfoldable pub lookup : K → Dict K V → Option V
  lookup k [] = none
  lookup k ((j, v) ∷ d) = if k == j then some v else lookup k d

  -- `d[k] = v`
  unfoldable pub insert : K → V → Dict K V → Dict K V
  insert k v [] = (k, v) ∷ []
  insert k v ((j, w) ∷ d) = if k == j then (j, v) ∷ d else (j, w) ∷ insert k v d

  -- `del d[k]`, `d.pop(k, None)`
  unfoldable pub erase : K → Dict K V → Dict K V
  erase k [] = []
  erase k ((j, w) ∷ d) = let rest = erase k d in if k == j then rest else (j, w) ∷ rest

  -- `k in d`
  unfoldable pub has_key : K → Dict K V → Bool
  unfolding lookup
  has_key k d = elim (lookup k d) [ none ↦ false | some _ ↦ true ]

  pub lookup-insert :
      (j k : K) (v : V) (d : Dict K V)
      → lookup j (insert k v d) ≡ (if j == k then some v else lookup j d)
  unfolding insert lookup
  lookup-insert j k v [] = refl
  lookup-insert j k v ((i, _) ∷ d) = ground (arith, lookup-insert j k v d)

  pub lookup-erase :
      (j k : K) (d : Dict K V) → lookup j (erase k d) ≡ (if j == k then none else lookup j d)
  unfolding erase lookup
  lookup-erase j k [] = ground arith
  lookup-erase j k (_ ∷ d) = ground (arith, lookup-erase j k d)

  pub contains-keys : (d : Dict K V) (k : K) → contains (keys d) k ≡ has_key k d
  unfolding keys contains has_key
  contains-keys [] k = refl
  contains-keys ((j, v) ∷ d) k = ground (arith, contains-keys d k)

  pub keys-insert_present :
      (k : K) (v : V) (d : Dict K V) → has_key k d ≡ true → keys (insert k v d) ≡ keys d
  unfolding keys insert has_key
  keys-insert_present k v [] h = ground arith
  keys-insert_present k v ((j, w) ∷ d) h = ground (arith, keys-insert_present k v d)

  pub has_key-eq_false : (k : K) (d : Dict K V) → lookup k d ≡ none → has_key k d ≡ false
  unfolding has_key
  has_key-eq_false k d h = rw (h, has_key)

  pub has_key-eq_true : (k : K) (d : Dict K V) {v : V} → lookup k d ≡ some v → has_key k d ≡ true
  unfolding has_key
  has_key-eq_true k d h = rw (h, has_key)

  pub lookup-has_key : (k : K) (d : Dict K V) → has_key k d ≡ true → (v : V) × (lookup k d ≡ some v)
  unfolding has_key
  lookup-has_key k d h = ground arith

  pub erase-insert :
      (k : K) (v : V) (d : Dict K V) → has_key k d ≡ false → erase k (insert k v d) ≡ d
  unfolding erase insert has_key lookup
  erase-insert k v [] new = ground arith
  erase-insert k v ((j, w) ∷ d) new = ground (arith, erase-insert k v d)

  -- What holds of each item holds of what is found, and conversely if no key is there twice.
  pub All-lookup {μ} :
      (P : K × V → Type μ) (d : Dict K V) (k : K) (v : V) → All P d → lookup k d ≡ some v → P (k, v)
  unfolding lookup
  All-lookup P [] k v every found = absurd cc
  All-lookup P ((j, w) ∷ d) k v (first, every) found = elim (Bool-cases (k == j)) [
    | inl same ↦
        let there : Path (K × V) (j, w) (k, v) = ground (arith, same, found) in subst P there first
    | inr other ↦ All-lookup P d k v every (ground (arith, other, found))
  ]

  lookup-other :
      (d : Dict K V) (j k : K) (v : V)
      → contains (keys d) j ≡ false
      → lookup k d ≡ some v
      → (k == j) ≡ false
  lookup-other d j k v new found = ground (arith, new, contains-keys d j, has_key-eq_true k d found)

  pub lookup-All {μ} :
      (P : K × V → Type μ) (d : Dict K V)
      → Nodup (keys d)
      → ((k : K) (v : V) → lookup k d ≡ some v → P (k, v))
      → All P d
  unfolding lookup keys
  lookup-All P [] distinct each = tt
  lookup-All P ((j, w) ∷ d) (new, distinct) each = (
    each j w (ground (arith, ==_refl j)),
    lookup-All P d distinct
        (λ k v found. each k v (ground (arith, found, lookup-other d j k v new found))),
  )
