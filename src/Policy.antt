-- ===== src/Policy.antt =====
-- packages/policy-engine/src/engine.ts: the rules of a flow, and what they decide about an event.
-- `lower` is String.prototype.toLowerCase; `decided_at` is the date at which the engine decides.
pub mod Laws
mod Tests
use qev_platform.Base.{
  ℕ, String, Bool, true, false, not, ◌&&◌, ◌||◌, Option, none, some, List, [], ◌∷◌, ◌==◌,
  if◌then◌else◌, or_else, truthy, includes, any, length, contains,
}
use qev_platform.Json.{Json, Fields, end, str, bool, get_field}
use qev_platform.Event.{
  PolicyEffect, allow_and_record, require_approval, block, QevEvent, QevArtifact, Outcome, success,
  failure, pending, blocked, unknown, EventPolicy,
}

pub record PolicyDecision : Type 0 where
  pub policy_id : String
  pub policy_version : String
  pub effect : PolicyEffect
  pub reason : String
  pub event_id : String
  pub decided_at : String

pub record RuleWhen : Type 0 where
  pub flow_id : Option String
  pub action_includes : Option (List String)
  pub outcome : Option (List String)
  pub require_artifacts : Option Bool
  pub block_if_destructive_without_backup : Option Bool

pub record PolicyRule : Type 0 where
  pub id : String
  pub when : RuleWhen
  pub effect : PolicyEffect
  pub reason : String

pub record FlowPolicy : Type 0 where
  pub policy_id : String
  pub policy_version : String
  pub rules : List PolicyRule
  pub default_effect : PolicyEffect

abbrev pub field_service_policy_v1 : FlowPolicy
field_service_policy_v1 = record {
  policy_id = "field-service";
  policy_version = "1.0.0";
  default_effect = allow_and_record;
  rules =
      record {
        id = "record-scope-change";
        when = record {
          flow_id = some "field-service";
          action_includes = some ("scope.changed" ∷ []);
          outcome = none;
          require_artifacts = none;
          block_if_destructive_without_backup = none;
        };
        effect = allow_and_record;
        reason =
            "Scope change recorded; change.approved expected before added work (gate mode later).";
      }
      ∷ record {
        id = "record-approvals";
        when = record {
          flow_id = some "field-service";
          action_includes = some ("estimate.approved" ∷ "change.approved" ∷ []);
          outcome = none;
          require_artifacts = none;
          block_if_destructive_without_backup = none;
        };
        effect = allow_and_record;
        reason = "Customer approval recorded with source-asserted identity.";
      }
      ∷ [];
}

abbrev pub devops_change_policy_v1 : FlowPolicy
devops_change_policy_v1 = record {
  policy_id = "devops-change";
  policy_version = "1.0.0";
  default_effect = allow_and_record;
  rules =
      record {
        id = "block-destroy-without-backup";
        when = record {
          flow_id = some "devops-change";
          action_includes = some ("destroy" ∷ "delete" ∷ "infra.destroy" ∷ []);
          outcome = none;
          require_artifacts = none;
          block_if_destructive_without_backup = some true;
        };
        effect = block;
        reason = "Destructive production action without recorded backup evidence.";
      }
      ∷ record {
        id = "require-approval-for-prod-deploy";
        when = record {
          flow_id = some "devops-change";
          action_includes = some ("deployment.production" ∷ "deploy.prod" ∷ []);
          outcome = none;
          require_artifacts = none;
          block_if_destructive_without_backup = none;
        };
        effect = require_approval;
        reason = "Production deployment requires recorded approval.";
      }
      ∷ record {
        id = "warn-missing-artifacts";
        when = record {
          flow_id = some "devops-change";
          action_includes = none;
          outcome = none;
          require_artifacts = some true;
          block_if_destructive_without_backup = none;
        };
        effect = allow_and_record;
        reason = "Event accepted; missing artifact fingerprints noted as gaps.";
      }
      ∷ [];
}

unfoldable pub policy_for_flow : String → FlowPolicy
policy_for_flow flow_id =
    if flow_id == "field-service" then field_service_policy_v1 else devops_change_policy_v1

abbrev pub outcome_text : Outcome → String
outcome_text success = "success"
outcome_text failure = "failure"
outcome_text pending = "pending"
outcome_text blocked = "blocked"
outcome_text unknown = "unknown"

abbrev is_text : Json → String → Bool
is_text (str s) t = s == t
is_text _ t = false

abbrev is_true : Json → Bool
is_true (bool true) = true
is_true _ = false

-- payload.backup_status === "ok", payload.backup_verified === true, or an artifact named for a backup
unfoldable pub has_backup : QevEvent → Bool
unfolding get_field includes
has_backup event =
    let payload = or_else event.payload end in
    is_text (get_field "backup_status" payload) "ok"
    || is_true (get_field "backup_verified" payload)
    || any (λ (a : QevArtifact). includes a.name "backup") (or_else event.artifacts [])

abbrev pub needs_backup : PolicyRule → Bool
needs_backup rule = or_else rule.when.block_if_destructive_without_backup false

abbrev pub needs_artifacts : PolicyRule → Bool
needs_artifacts rule = or_else rule.when.require_artifacts false

abbrev pub has_artifacts : QevEvent → Bool
has_artifacts event = elim (or_else event.artifacts []) [ [] ↦ false | _ ↦ true ]

abbrev pub decision_by : FlowPolicy → PolicyRule → QevEvent → (decided_at : String) → PolicyDecision
decision_by policy rule event decided_at = record {
  policy_id = policy.policy_id;
  policy_version = policy.policy_version;
  effect = rule.effect;
  reason = rule.reason;
  event_id = event.event_id;
  decided_at = decided_at;
}

abbrev pub default_decision : FlowPolicy → QevEvent → (decided_at : String) → PolicyDecision
default_decision policy event decided_at = record {
  policy_id = policy.policy_id;
  policy_version = policy.policy_version;
  effect = policy.default_effect;
  reason = "Default policy: record event.";
  event_id = event.event_id;
  decided_at = decided_at;
}

-- The tests of a rule that let the loop go on to the next rule: flow, action and outcome.
module _ (lower : String → String) where
  abbrev flow_matches : PolicyRule → QevEvent → Bool
  flow_matches rule event =
      let flow = or_else rule.when.flow_id "" in not (truthy flow) || flow == event.flow_id

  abbrev action_matches : PolicyRule → QevEvent → Bool
  action_matches rule event = elim (or_else rule.when.action_includes []) [
    | [] ↦ true
    | frag ∷ frags ↦ any (λ f. includes (lower event.action) (lower f)) (frag ∷ frags)
  ]

  abbrev outcome_matches : PolicyRule → QevEvent → Bool
  outcome_matches rule event = elim (or_else rule.when.outcome []) [
    | [] ↦ true
    | o ∷ os ↦ contains (o ∷ os) (outcome_text event.outcome)
  ]

  unfoldable pub rule_matches : PolicyRule → QevEvent → Bool
  rule_matches rule event =
      flow_matches rule event && action_matches rule event && outcome_matches rule event

  -- A rule decides an event that passes its tests.
  unfoldable pub decides : PolicyRule → QevEvent → Bool
  unfolding rule_matches
  decides rule event =
      if rule_matches rule event
      then (if needs_backup rule && not (has_backup event)
          then true
          else if needs_artifacts rule
          then not (has_artifacts event)
          else not (needs_backup rule))
      else false

  -- The loop over the rules that are left.
  unfoldable pub evaluate_rules :
      FlowPolicy → List PolicyRule → QevEvent → (decided_at : String) → PolicyDecision
  unfolding decides
  evaluate_rules policy [] event decided_at = default_decision policy event decided_at
  evaluate_rules policy (rule ∷ rules) event decided_at =
      if decides rule event
      then decision_by policy rule event decided_at
      else evaluate_rules policy rules event decided_at

  -- With no policy given, that of the event's flow.
  unfoldable pub evaluate_policy :
      QevEvent → Option FlowPolicy → (decided_at : String) → PolicyDecision
  unfolding policy_for_flow
  evaluate_policy event policy decided_at =
      let p = or_else policy (policy_for_flow event.flow_id) in
      evaluate_rules p p.rules event decided_at

abbrev pub policy_record : PolicyDecision → EventPolicy
policy_record d = record {
  policy_id = d.policy_id;
  policy_version = d.policy_version;
  effect = d.effect;
  reason = some d.reason;
}

abbrev outcome_after : PolicyEffect → Outcome → Outcome
outcome_after block outcome = blocked
outcome_after _ outcome = outcome

unfoldable pub apply_decision_to_event : QevEvent → PolicyDecision → QevEvent
apply_decision_to_event event decision = record event {
  policy = some (policy_record decision);
  outcome = outcome_after decision.effect event.outcome;
}
