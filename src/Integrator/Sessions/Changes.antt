-- ===== src/Integrator/Sessions/Changes.antt =====
-- What `post_verification_issues` reports.
use c4harness.Base.{
  String, Bool, true, false, Option, none, some, List, [], ◌∷◌, ◌++◌, Dict, lookup, keys, filter,
  to_set, contains, contains-sorted, contains-filter, contains-to_set, contains-append,
  contains-keys, contains_self, has_key, string_eq, ◌≡◌, ◌↔◌, refl, arith, Option-cases, inl, inr,
}
use c4harness.Core.Types.{is_nonempty}
use c4harness.Integrator.Workspace.{Os, FileState, scan_file_states}
use c4harness.Integrator.Sessions.{
  IntegrationAttempt, Session, differ, changed_paths, post_verification_issues,
}

-- Two states of a file that do not differ are equal.
differ-eq_false : (a b : Option FileState) → (differ a b ≡ false) ↔ (a ≡ b)
differ-eq_false none none = (λ _. refl, λ _. refl)
differ-eq_false none (some b) = (λ same. cc, λ same. cc)
differ-eq_false (some a) none = (λ same. cc, λ same. cc)
differ-eq_false (some a) (some b) = (λ same. ground (arith, same), λ same. ground (arith, same))

contains-changed_paths :
    (expected current : Dict String FileState) (p : String)
    → (contains (changed_paths expected current) p ≡ true)
      ↔ (differ (lookup p expected) (lookup p current) ≡ true)
unfolding changed_paths has_key
contains-changed_paths expected current p =
    let test : String → Bool = λ path. differ (lookup path expected) (lookup path current) in
    let both = keys expected ++ keys current in
    ground (
      arith,
      contains-sorted (filter test (to_set both)) p,
      contains-filter test (to_set both) p,
      contains-to_set both p,
      contains-append (keys expected) (keys current) p,
      contains-keys expected p,
      contains-keys current p,
    )

is_nonempty-contains :
    (xs : List String) → ((p : String) → contains xs p ≡ false) → is_nonempty xs ≡ false
is_nonempty-contains [] nowhere = refl
is_nonempty-contains (x ∷ xs) nowhere = absurd (ground (arith, contains_self x xs, nowhere x))

contains-empty : (xs : List String) (p : String) → is_nonempty xs ≡ false → contains xs p ≡ false
unfolding contains
contains-empty [] p empty = refl
contains-empty (x ∷ xs) p empty = cc

-- After verification nothing is reported exactly if there is no symbolic link in the workspace, and a scan
-- of it does not fail and finds the states that the attempt expects, at every path.
pub post_verification_issues_iff :
    (os : Os) (a : IntegrationAttempt) (s : Session)
    → (post_verification_issues os a s ≡ []) ↔ (
        (os.symlink ≡ none)
        × (os.scan_fault ≡ none)
        × ((p : String)
            → lookup p a.expected_states ≡ lookup p (scan_file_states os s.workspace.files)))
unfolding post_verification_issues
post_verification_issues_iff os a s =
    let current = scan_file_states os s.workspace.files in
    let changed = changed_paths a.expected_states current in
    elim (Option-cases os.symlink) [
      | inr (link, linked) ↦ (
        λ silent. absurd (ground (arith, silent, linked)),
        λ (unlinked, _, _). absurd (ground (arith, unlinked, linked)),
      )
      | inl unlinked ↦ elim (Option-cases os.scan_fault) [
        | inr (text, fails) ↦ (
          λ silent. absurd (ground (arith, silent, unlinked, fails)),
          λ (_, scans, _). absurd (ground (arith, scans, fails)),
        )
        | inl scans ↦ (
          λ silent. (
            unlinked,
            scans,
            λ p.
                let empty : is_nonempty changed ≡ false = ground (arith, silent, unlinked, scans) in
                (differ-eq_false _ _).0 (
                  ground (
                    arith,
                    contains-empty changed p empty,
                    contains-changed_paths a.expected_states current p,
                  )),
          ),
          λ (_, _, same).
              let empty : is_nonempty changed ≡ false = is_nonempty-contains changed (λ p. ground (
                arith,
                contains-changed_paths a.expected_states current p,
                (differ-eq_false (lookup p a.expected_states) (lookup p current)).1 (same p),
              )) in
              ground (arith, empty, unlinked, scans),
        )
      ]
    ]
