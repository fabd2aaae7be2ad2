-- ===== src/Capabilities/Eligible.antt =====
-- Which workers are eligible, and that the registry gives exactly those.
use Prim.Native.String.{◌++◌ as ◌<>◌}
use c4harness.Core.Graph.{join, minus}
use c4harness.Base.{
  decimal, sorted, ◌||◌, ap, has_key-eq_true, ◌≤◌, ◌≡◌, ◌↔◌, refl, String, Bool, true, false, not,
  ◌&&◌, some, List, [], ◌∷◌, ◌++◌, Dict, keys, values, lookup, contains-keys, filter, map, Nodup,
  ltb, string_eq, arith, ◌∙◌,
}
use c4harness.Core.Errors.{ok}
use c4harness.Core.Types.{HardCapabilityRequirements, WorkerCapabilities, WorkerArm, is_nonempty}
use c4harness.Capabilities.{
  CapabilityMatch, mismatch_reasons, match_capabilities, reason_if, is_subset, excluded,
  WorkerRegistry, evaluate, eligible_among, eligible,
}

-- The hard requirements, as a condition on a worker's capabilities.
abbrev pub Meets : HardCapabilityRequirements → WorkerCapabilities → Type 0
Meets r c =
    (is_subset r.modalities c.modalities ≡ true)
    × (is_subset r.tools c.tools ≡ true)
    × (excluded r.write_isolation c.write_isolation ≡ false)
    × ((r.network_required ≡ true) → c.network ≡ true)
    × ((r.structured_output_required ≡ true) → c.structured_output ≡ true)
    × (r.min_context_tokens ≤ c.context_tokens)
    × ((r.persistent_session_required ≡ true) → c.persistent_session ≡ true)
    × (excluded r.provider_protocols c.provider_protocol ≡ false)
    × (excluded r.privacy_zones c.privacy_zone ≡ false)

reason_if-append :
    (b : Bool) (text : String) (ys : List String)
    → is_nonempty (reason_if b text ++ ys) ≡ (b || is_nonempty ys)
unfolding reason_if
reason_if-append true text ys = refl
reason_if-append false text ys = refl

reason_if-nonempty : (b : Bool) (text : String) → is_nonempty (reason_if b text) ≡ b
unfolding reason_if
reason_if-nonempty true text = refl
reason_if-nonempty false text = refl

nine_reasons :
    (b1 b2 b3 b4 b5 b6 b7 b8 b9 : Bool) (t1 t2 t3 t4 t5 t6 t7 t8 t9 : String)
    → is_nonempty (
        reason_if b1 t1
        ++ (reason_if b2 t2
            ++ (reason_if b3 t3
                ++ (reason_if b4 t4
                    ++ (reason_if b5 t5
                        ++ (reason_if b6 t6
                            ++ (reason_if b7 t7 ++ (reason_if b8 t8 ++ reason_if b9 t9))))))))
      ≡ (b1 || (b2 || (b3 || (b4 || (b5 || (b6 || (b7 || (b8 || b9))))))))
nine_reasons b1 b2 b3 b4 b5 b6 b7 b8 b9 t1 t2 t3 t4 t5 t6 t7 t8 t9 =
    reason_if-append b1 t1 (
      reason_if b2 t2
      ++ (reason_if b3 t3
          ++ (reason_if b4 t4
              ++ (reason_if b5 t5
                  ++ (reason_if b6 t6
                      ++ (reason_if b7 t7 ++ (reason_if b8 t8 ++ reason_if b9 t9)))))))
    ∙ ap (λ z. b1 || z)
        (reason_if-append b2 t2 (
            reason_if b3 t3
            ++ (reason_if b4 t4
                ++ (reason_if b5 t5
                    ++ (reason_if b6 t6
                        ++ (reason_if b7 t7 ++ (reason_if b8 t8 ++ reason_if b9 t9))))))
          ∙ ap (λ z. b2 || z)
              (reason_if-append b3 t3 (
                  reason_if b4 t4
                  ++ (reason_if b5 t5
                      ++ (reason_if b6 t6
                          ++ (reason_if b7 t7 ++ (reason_if b8 t8 ++ reason_if b9 t9)))))
                ∙ ap (λ z. b3 || z)
                    (reason_if-append b4 t4 (
                        reason_if b5 t5
                        ++ (reason_if b6 t6
                            ++ (reason_if b7 t7 ++ (reason_if b8 t8 ++ reason_if b9 t9))))
                      ∙ ap (λ z. b4 || z)
                          (reason_if-append b5 t5 (
                              reason_if b6 t6
                              ++ (reason_if b7 t7 ++ (reason_if b8 t8 ++ reason_if b9 t9)))
                            ∙ ap (λ z. b5 || z)
                                (reason_if-append b6 t6
                                    (reason_if b7 t7 ++ (reason_if b8 t8 ++ reason_if b9 t9))
                                  ∙ ap (λ z. b6 || z)
                                      (reason_if-append b7 t7 (reason_if b8 t8 ++ reason_if b9 t9)
                                        ∙ ap (λ z. b7 || z)
                                            (reason_if-append b8 t8 (reason_if b9 t9)
                                              ∙ ap (λ z. b8 || z) (reason_if-nonempty b9 t9))))))))

mismatch_reasons-nonempty :
    (r : HardCapabilityRequirements) (c : WorkerCapabilities)
    → is_nonempty (mismatch_reasons r c) ≡ (
        not (is_subset r.modalities c.modalities)
        || (not (is_subset r.tools c.tools)
            || (excluded r.write_isolation c.write_isolation
                || ((r.network_required && not c.network)
                    || ((r.structured_output_required && not c.structured_output)
                        || (ltb c.context_tokens r.min_context_tokens
                            || ((r.persistent_session_required && not c.persistent_session)
                                || (excluded r.provider_protocols c.provider_protocol
                                    || excluded r.privacy_zones c.privacy_zone))))))))
unfolding mismatch_reasons
mismatch_reasons-nonempty r c =
    nine_reasons (not (is_subset r.modalities c.modalities)) (not (is_subset r.tools c.tools))
      (excluded r.write_isolation c.write_isolation) (r.network_required && not c.network)
      (r.structured_output_required && not c.structured_output)
      (ltb c.context_tokens r.min_context_tokens)
      (r.persistent_session_required && not c.persistent_session)
      (excluded r.provider_protocols c.provider_protocol) (excluded r.privacy_zones c.privacy_zone)
      ("missing modalities: " <> join (sorted (minus r.modalities c.modalities)))
      ("missing tools: " <> join (sorted (minus r.tools c.tools)))
      ("unsupported write isolation: " <> c.write_isolation) "network access is required"
      "structured output is required"
      ("context limit " <> decimal c.context_tokens <> " < " <> decimal r.min_context_tokens)
      "persistent session is required" ("unsupported provider protocol: " <> c.provider_protocol)
      ("privacy zone is not allowed: " <> c.privacy_zone)

-- A worker matches exactly if it is enabled and its capabilities meet every hard requirement.
pub match_capabilities_iff :
    (r : HardCapabilityRequirements) (w : WorkerArm)
    → ((match_capabilities r w).eligible ≡ true) ↔ ((w.enabled ≡ true) × Meets r w.capabilities)
unfolding match_capabilities
match_capabilities_iff r w = ground (arith, mismatch_reasons-nonempty r w.capabilities)

lookup-evaluate :
    (r : HardCapabilityRequirements) (d : Dict String WorkerArm) (k : String) (w : WorkerArm)
    → lookup k d ≡ some w
    → lookup k (map (λ (worker_id, x). (worker_id, match_capabilities r x)) d)
      ≡ some (match_capabilities r w)
unfolding lookup
lookup-evaluate r [] k w h = cc
lookup-evaluate r ((j, x) ∷ d) k w h = ground (arith, lookup-evaluate r d k w)

-- `filter` over the workers that `matches` covers.
eligible_among-eq :
    (r : HardCapabilityRequirements) (matches : Dict String CapabilityMatch)
    (d : Dict String WorkerArm)
    → Nodup (keys d)
    → ((k : String) (w : WorkerArm)
        → lookup k d ≡ some w
        → lookup k matches ≡ some (match_capabilities r w))
    → eligible_among matches d ≡ ok (filter (λ w. (match_capabilities r w).eligible) (values d))
unfolding eligible_among filter values keys lookup
eligible_among-eq r matches [] distinct h = refl
eligible_among-eq r matches ((j, x) ∷ d) distinct h =
    let here : lookup j matches ≡ some (match_capabilities r x) = h j x (ground arith) in
    let rest = eligible_among-eq r matches d distinct.1 (λ k w found. h k w (later k w found)) in
    rw (eligible_among, here) (rw rest (ground arith))
  where
    later : (k : String) (w : WorkerArm) → lookup k d ≡ some w → lookup k ((j, x) ∷ d) ≡ some w
    later k w found = ground (arith, contains-keys d j, has_key-eq_true k d found)

-- For a registry with distinct ids, `eligible` returns. Its workers are the registered ones, in their
-- order, that are enabled and meet every hard requirement.
pub eligible_correct :
    (g : WorkerRegistry) (r : HardCapabilityRequirements)
    → Nodup (keys g.workers)
    → (eligible g r ≡ ok (filter (λ w. (match_capabilities r w).eligible) (values g.workers)))
      × ((w : WorkerArm)
          → ((match_capabilities r w).eligible ≡ true)
            ↔ ((w.enabled ≡ true) × Meets r w.capabilities))
unfolding eligible evaluate
eligible_correct g r distinct = (
  eligible_among-eq r (evaluate g r) g.workers distinct
      (λ k w h. lookup-evaluate r g.workers k w h),
  match_capabilities_iff r,
)
