-- ===== src/Integrator/Conflicts/Unchanged.antt =====
-- No conflict is found exactly if the source is as it was.
use c4harness.Base.{
  suc, zero, ℕ, contains, none, some, Nodup, keys, has_key-eq_false, has_key-eq_true, All-lookup,
  lookup-All, Option-cases, lookup, true, refl, All, ◌∷◌, ◌++◌, ◌↔◌, [], List, Dict, String, Option,
  string_eq, ◌≡◌, ◌⊎◌, inl, inr, has_key, false, arith,
}
use c4harness.Integrator.Workspace.{Os, FileState}
use c4harness.Integrator.Conflicts.{
  take, listed, ok, is_excluded_relative_path, Conflict, Entry, baseline_conflict,
  baseline_conflicts, detect_conflicts, directory, new_conflict, new_conflicts, regular, relevant,
  selected_paths, special, symbolic, unreadable,
}

-- No entry is listed twice.
contains-take :
    {A : Type 0} (n : ℕ) (d : Dict String A) (p : String)
    → contains (keys d) p ≡ false
    → contains (keys (take n d)) p ≡ false
unfolding contains keys
contains-take zero d p out = refl
contains-take (suc n) [] p out = refl
contains-take (suc n) ((k, v) ∷ d) p out = ground (arith, contains-take n d p)

Nodup-take : {A : Type 0} (n : ℕ) (d : Dict String A) → Nodup (keys d) → Nodup (keys (take n d))
unfolding keys
Nodup-take zero d distinct = tt
Nodup-take (suc n) [] distinct = tt
Nodup-take (suc n) ((k, v) ∷ d) (new, distinct) = (contains-take n d k new, Nodup-take n d distinct)

listed-Nodup :
    (os : Os) (source : Dict String Entry) → Nodup (keys source) → Nodup (keys (listed os source))
unfolding listed
listed-Nodup os source distinct = elim (Option-cases os.listing_fault) [
  | inl all ↦ rw (listed, all) distinct
  | inr (n, stops) ↦ rw (listed, stops) (Nodup-take n source distinct)
]

module _ (os : Os) where
  -- At a path of the baseline there is a file with the hash that the baseline has.
  abbrev pub IsKept : FileState → Option Entry → Type 0
  IsKept base entry =
      (text : String) × (entry ≡ some (regular text)) × (os.sha256 text ≡ base.sha256)

  -- What may be new in the source: directories, and files that cannot be read.
  abbrev pub IsIgnored : Entry → Type 0
  IsIgnored entry = (entry ≡ directory) ⊎ ((text : String) × (entry ≡ unreadable text))

  baseline_conflict-IsKept :
      (path : String) (base : FileState) (entry : Option Entry)
      → (baseline_conflict os path base entry ≡ []) ↔ IsKept base entry
  unfolding baseline_conflict
  baseline_conflict-IsKept path base none = (λ none_found. cc, λ (_, there, _). cc)
  baseline_conflict-IsKept path base (some (symbolic true)) =
      (λ none_found. cc, λ (_, there, _). cc)
  baseline_conflict-IsKept path base (some (symbolic false)) =
      (λ none_found. cc, λ (_, there, _). cc)
  baseline_conflict-IsKept path base (some directory) = (λ none_found. cc, λ (_, there, _). cc)
  baseline_conflict-IsKept path base (some special) = (λ none_found. cc, λ (_, there, _). cc)
  baseline_conflict-IsKept path base (some (unreadable _)) = (λ none_found. cc, λ (_, there, _). cc)
  baseline_conflict-IsKept path base (some (regular text)) = (
    λ none_found. (text, refl, ground (arith, none_found)),
    λ (_, there, same). ground (arith, there, same),
  )

  new_conflict-IsIgnored :
      (path : String) (entry : Entry) → (new_conflict os path entry ≡ []) ↔ IsIgnored entry
  unfolding new_conflict
  new_conflict-IsIgnored path (symbolic to) = ground arith
  new_conflict-IsIgnored path directory = ground arith
  new_conflict-IsIgnored path special = ground arith
  new_conflict-IsIgnored path (unreadable text) = (λ _. inr (text, refl), λ _. refl)
  new_conflict-IsIgnored path (regular text) = ground arith

  append-empty : (xs ys : List Conflict) → ((xs ++ ys) ≡ []) ↔ ((xs ≡ []) × (ys ≡ []))
  append-empty [] ys = (λ h. (refl, h), λ h. h.1)
  append-empty (x ∷ xs) ys = (λ h. cc, λ h. cc)

  baseline_conflicts-All :
      (source : Dict String Entry) (selected : Option (List String))
      (baseline : Dict String FileState)
      → (baseline_conflicts os source selected baseline ≡ [])
        ↔ All (λ x. relevant selected x.0 ≡ true → IsKept x.1 (lookup x.0 source)) baseline
  unfolding baseline_conflicts
  baseline_conflicts-All source selected [] = (λ _. tt, λ _. refl)
  baseline_conflicts-All source selected ((path, base) ∷ baseline) = ground (
    arith,
    baseline_conflicts-All source selected baseline,
    baseline_conflict-IsKept path base (lookup path source),
    append-empty (baseline_conflict os path base (lookup path source))
        (baseline_conflicts os source selected baseline),
  )

  new_conflicts-All :
      (baseline : Dict String FileState) (selected : Option (List String))
      (source : Dict String Entry)
      → (new_conflicts os baseline selected source ≡ [])
        ↔ All
            (λ x.
              is_excluded_relative_path x.0 ≡ false
              → has_key x.0 baseline ≡ false
              → relevant selected x.0 ≡ true
              → IsIgnored x.1)
            source
  unfolding new_conflicts
  new_conflicts-All baseline selected [] = (λ _. tt, λ _. refl)
  new_conflicts-All baseline selected ((path, entry) ∷ source) = ground (
    arith,
    new_conflicts-All baseline selected source,
    new_conflict-IsIgnored path entry,
    append-empty (new_conflict os path entry) (new_conflicts os baseline selected source),
  )

  module _ (source : Dict String Entry) (baseline : Dict String FileState) where
    -- What the source has at a path is as it was in the baseline, or is not listed, or is ignored.
    abbrev pub IsUnchanged : String → Type 0
    IsUnchanged p =
        ((base : FileState) → lookup p baseline ≡ some base → IsKept base (lookup p source))
        × ((entry : Entry)
            → lookup p baseline ≡ none
            → is_excluded_relative_path p ≡ false
            → lookup p (listed os source) ≡ some entry
            → IsIgnored entry)

    -- No conflict is found exactly if, at each relevant path, a file of the baseline is still a regular
    -- file with its hash, and what is not in the baseline is excluded, a directory, a file that cannot be
    -- read, or not among the entries that are listed before the listing fails. The paths can be made canonical, and neither dictionary has a key twice.
    pub detect_conflicts_iff :
        (paths : Option (List String)) (selected : Option (List String))
        → selected_paths paths ≡ ok selected
        → Nodup (keys baseline)
        → Nodup (keys source)
        → (detect_conflicts os source baseline none paths ≡ ok [])
          ↔ ((p : String) → relevant selected p ≡ true → IsUnchanged p)
    unfolding detect_conflicts
    detect_conflicts_iff paths selected found distinct_baseline distinct_source = (
      λ silent p here.
          let (old, rest) = (append-empty _ _).0 (nothing silent) in
          let (new, _) = (append-empty _ _).0 rest in
          (
            λ base there.
                All-lookup _ baseline p base
                  ((baseline_conflicts-All source selected baseline).0 old) there here,
            λ entry absent tracked there.
                All-lookup _ (listed os source) p entry
                  ((new_conflicts-All baseline selected (listed os source)).0 new) there tracked
                  (has_key-eq_false p baseline absent) here,
          ),
      λ each.
          let old = (baseline_conflicts-All source selected baseline).1 (
            lookup-All _ baseline distinct_baseline
              (λ p base there here. (each p here).0 base there)) in
          let new = (new_conflicts-All baseline selected (listed os source)).1 (
            lookup-All _ (listed os source) (listed-Nodup os source distinct_source)
              (λ p entry there tracked absent here.
                (each p here).1 entry (absent-none p absent) tracked there)) in
          rw (found, old, new) refl,
    )
      where
        absent-none : (p : String) → has_key p baseline ≡ false → lookup p baseline ≡ none
        absent-none p absent = elim (Option-cases (lookup p baseline)) [
          | inl nowhere ↦ nowhere
          | inr (base, there) ↦ absurd (ground (arith, absent, has_key-eq_true p baseline there))
        ]

        nothing :
            detect_conflicts os source baseline none paths ≡ ok []
            → (baseline_conflicts os source selected baseline
                ++ (new_conflicts os baseline selected (listed os source) ++ []))
              ≡ []
        nothing silent = ground (arith, silent, found)
