-- ===== src/Capabilities.antt =====
-- c4harness/decompose/capabilities.py: the hard requirements of a node against a worker.
pub mod Eligible
use Prim.Native.String.{◌++◌ as ◌<>◌}
use c4harness.Base.{
  ℕ, String, Bool, true, false, not, ◌&&◌, ◌||◌, Option, none, some, List, [], ◌∷◌, ◌++◌, Dict,
  lookup, insert, has_key, keys, values, contains, filter, sorted, all, map, ltb, decimal,
  string_eq, if◌then◌else◌,
}
use c4harness.Core.Errors.{Result, ok, err, value_error, key_error, raise_if, ◌>>=◌, ◌>>◌}
use c4harness.Core.Types.{HardCapabilityRequirements, WorkerCapabilities, WorkerArm, is_nonempty}
use c4harness.Core.Graph.{join, minus}

pub record CapabilityMatch : Type 0 where
  pub eligible : Bool
  pub reasons : List String

-- `if test: reasons.append(reason)`
unfoldable pub reason_if : Bool → String → List String
reason_if test reason = if test then reason ∷ [] else []

-- `a.issubset(b)`
abbrev pub is_subset : List String → List String → Bool
is_subset a b = all (λ x. contains b x) a

-- `xs and x not in xs`
abbrev pub excluded : List String → String → Bool
excluded allowed x = is_nonempty allowed && not (contains allowed x)

-- The list `reasons` of `match_capabilities`.
unfoldable pub mismatch_reasons : HardCapabilityRequirements → WorkerCapabilities → List String
unfolding reason_if
mismatch_reasons r c =
    reason_if (not (is_subset r.modalities c.modalities))
      ("missing modalities: " <> join (sorted (minus r.modalities c.modalities)))
    ++ (reason_if (not (is_subset r.tools c.tools))
          ("missing tools: " <> join (sorted (minus r.tools c.tools)))
        ++ (reason_if (excluded r.write_isolation c.write_isolation)
              ("unsupported write isolation: " <> c.write_isolation)
            ++ (reason_if (r.network_required && not c.network) "network access is required"
                ++ (reason_if (r.structured_output_required && not c.structured_output)
                      "structured output is required"
                    ++ (reason_if (ltb c.context_tokens r.min_context_tokens) (
                          "context limit "
                          <> decimal c.context_tokens
                          <> " < "
                          <> decimal r.min_context_tokens)
                        ++ (reason_if (r.persistent_session_required && not c.persistent_session)
                              "persistent session is required"
                            ++ (reason_if (excluded r.provider_protocols c.provider_protocol)
                                  ("unsupported provider protocol: " <> c.provider_protocol)
                                ++ (reason_if (excluded r.privacy_zones c.privacy_zone)
                                    ("privacy zone is not allowed: " <> c.privacy_zone)))))))))

unfoldable pub match_capabilities : HardCapabilityRequirements → WorkerArm → CapabilityMatch
unfolding mismatch_reasons
match_capabilities r w =
    if not w.enabled
    then record { eligible = false; reasons = "worker is disabled" ∷ [] }
    else let reasons = mismatch_reasons r w.capabilities in
      record { eligible = not (is_nonempty reasons); reasons = reasons }

pub record WorkerRegistry : Type 0 where
  pub workers : Dict String WorkerArm

unfoldable pub register : WorkerRegistry → WorkerArm → Result WorkerRegistry
register g w = do
  raise_if (has_key w.id g.workers) (value_error ("Duplicate worker id: " <> w.id))
  ok (record { workers = insert w.id w g.workers })

unfoldable pub get : WorkerRegistry → String → Result WorkerArm
get g worker_id = elim (lookup worker_id g.workers) [
  | none ↦ err (key_error ("Unknown worker id: " <> worker_id))
  | some w ↦ ok w
]

unfoldable pub evaluate : WorkerRegistry → HardCapabilityRequirements → Dict String CapabilityMatch
unfolding match_capabilities
evaluate g r = map (λ (worker_id, w). (worker_id, match_capabilities r w)) g.workers

-- The list comprehension of `eligible`, where `matches[worker_id]` may raise.
unfoldable pub eligible_among :
    Dict String CapabilityMatch → Dict String WorkerArm → Result (List WorkerArm)
eligible_among matches [] = ok []
eligible_among matches ((worker_id, w) ∷ rest) =
    let others = eligible_among matches rest in
    elim (lookup worker_id matches) [
      | none ↦ err (key_error worker_id)
      | some m ↦ others >>= λ ws. ok (if m.eligible then w ∷ ws else ws)
    ]

unfoldable pub eligible : WorkerRegistry → HardCapabilityRequirements → Result (List WorkerArm)
unfolding evaluate eligible_among
eligible g r = eligible_among (evaluate g r) g.workers
