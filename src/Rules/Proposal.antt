-- ===== src/Rules/Proposal.antt =====
-- ledger_daemon/rules.py: `RuleProposal.__post_init__`, which runs wherever a proposal is built, also by
-- `replace` and `from_json`.
use Prim.Native.String.{compare}
use text.Mathlib.Text.{is_le, starts_with}
use ledger_daemon.Prelude.{
  ◌==◌, String, Bool, true, false, ◌&&◌, ◌||◌, not, List, [], ◌∷◌, map, any, all, sorted, is_empty,
  str_eq, if◌then◌else◌,
}
use ledger_daemon.Prelude.Dict.{Dict}
use ledger_daemon.Prelude.Attempt.{Attempt, returned, ◌>>=◌, ◌>>◌, raise_if}
use ledger_daemon.Distinct.{dedupe}
use ledger_daemon.Rules.{RuleStatus, RuleError, RuleProposal, Outside}
use ledger_daemon.Rules.Patterns.{is_id, is_hash, is_utc}
use ledger_daemon.Rules.Parameters.{valid_parameters}

abbrev pub machine_actors : List String
machine_actors =
    "agent" ∷ "chatgpt" ∷ "gpt" ∷ "ledger-daemon" ∷ "llm" ∷ "model" ∷ "pipeline" ∷ "service"
    ∷ "system" ∷ []

-- `f"{name}-"` for each of them.
abbrev pub machine_prefixes : List String
machine_prefixes =
    "agent-" ∷ "chatgpt-" ∷ "gpt-" ∷ "ledger-daemon-" ∷ "llm-" ∷ "model-" ∷ "pipeline-" ∷ "service-"
    ∷ "system-" ∷ []

unfoldable pub is_machine : String → Bool
is_machine normalized =
    any (str_eq normalized) machine_actors || any (starts_with normalized) machine_prefixes

-- `_human_actor`.
unfoldable pub human_actor : Outside → String → Attempt RuleError String
unfolding is_machine
human_actor P actor = do
  raise_if (str_eq (P.strip actor) "") (RuleError.value_error "a human actor is required")
  raise_if (is_machine (P.lower (P.strip actor)))
      (RuleError.value_error "rule authority must be a named human")
  returned (P.strip actor)

abbrev pub le_text : String → String → Bool
le_text a b = is_le (compare a b)

abbrev pub le_pair : String × String → String × String → Bool
le_pair a b = if str_eq a.0 b.0 then le_text a.1 b.1 else le_text a.0 b.0

unfoldable pub same_texts : List String → List String → Bool
same_texts [] [] = true
same_texts (x ∷ xs) (y ∷ ys) = str_eq x y && same_texts xs ys
same_texts _ _ = false

unfoldable pub same_pairs : Dict String → Dict String → Bool
same_pairs [] [] = true
same_pairs (x ∷ xs) (y ∷ ys) = (str_eq x.0 y.0 && str_eq x.1 y.1) && same_pairs xs ys
same_pairs _ _ = false

-- The checks on the cases that a rule was learned from.
unfoldable pub bad_evidence : RuleProposal → Bool
unfolding same_texts same_pairs
bad_evidence p =
    let ids = p.evidence_case_ids in
    let hashes = p.source_case_hashes in
    (is_empty ids || any (str_eq "") ids)
    || (not (same_texts (sorted le_text (dedupe str_eq ids)) ids)
        || ((not (same_pairs (sorted le_pair hashes) hashes)
              || not (same_texts (map (λ (e : String × String). e.0) hashes) ids))
            || not (all (λ (e : String × String). is_hash e.1) hashes)))

abbrev pub is_approved : RuleStatus → Bool
is_approved RuleStatus.approved = true
is_approved RuleStatus.active = true
is_approved _ = false

abbrev pub is_active : RuleStatus → Bool
is_active RuleStatus.active = true
is_active _ = false

-- The name of the approver, which a rule has just where it is approved or active.
unfoldable pub checked_approver : Outside → Bool → String → Attempt RuleError String
checked_approver P true approver = human_actor P approver
checked_approver P false approver = do
  raise_if (not (str_eq approver ""))
      (RuleError.value_error "an unapproved rule cannot name an approver")
  returned approver

unfoldable pub checked_activation : Outside → Bool → String → String → Attempt RuleError String
checked_activation P true activated_by activation_time = do
  human ← human_actor P activated_by
  raise_if (not (is_utc P.is_decimal activation_time))
      (RuleError.value_error "an active rule requires a UTC activation time")
  returned human
checked_activation P false activated_by activation_time = do
  raise_if (not (str_eq activation_time "") || not (str_eq activated_by ""))
      (RuleError.value_error "only an active rule can have activation metadata")
  returned activated_by

unfoldable pub post_init : Outside → RuleProposal → Attempt RuleError RuleProposal
unfolding human_actor checked_approver checked_activation bad_evidence
post_init P p = do
  raise_if (not (is_id p.rule_id)) (RuleError.value_error "invalid rule id")
  raise_if (p.version == 0) (RuleError.value_error "rule version must be a positive integer")
  raise_if (not (valid_parameters p.family p.parameters))
      (RuleError.value_error "invalid rule parameters")
  raise_if (bad_evidence p) (RuleError.value_error "invalid evidence cases")
  author ← human_actor P p.author
  approver ← checked_approver P (is_approved p.status) p.approver
  activated_by ← checked_activation P (is_active p.status) p.activated_by p.activation_time
  returned (record p { author = author; approver = approver; activated_by = activated_by })
