-- ===== src/Policy/Tests.antt =====
-- The policies at concrete events.
use qev_platform.Base.{String, ◌≡◌, ◌≢◌, refl, none}
use qev_platform.Event.{block, QevEvent}
use qev_platform.Event.Samples.{event_of}
use qev_platform.Policy.{
  PolicyDecision, evaluate_policy, policy_for_flow, has_backup, rule_matches, decides,
  evaluate_rules,
}
use qev_platform.Policy.Laws.{devops_effect, devops_policy}

abbrev same : String → String
same s = s

abbrev destroy : QevEvent
destroy = event_of "evt_1" "devops-change" "infra.destroy"

abbrev unknown_flow : QevEvent
unknown_flow = event_of "evt_1" "billing" "infra.destroy"

destroy_blocked : (evaluate_policy same destroy none "now").effect ≡ block
unfolding evaluate_policy evaluate_rules decides rule_matches has_backup policy_for_flow
destroy_blocked = refl

devops_policy_example :
    (evaluate_policy same destroy none "now").effect ≡ devops_effect same destroy
devops_policy_example = devops_policy same destroy "now" refl

other_flow : unknown_flow.flow_id ≢ "devops-change"
other_flow e = cc

abbrev decided : PolicyDecision
decided = record {
  policy_id = "devops-change";
  policy_version = "1.0.0";
  effect = block;
  reason = "no backup";
  event_id = "evt_1";
  decided_at = "now";
}
