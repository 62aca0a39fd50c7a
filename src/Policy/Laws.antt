-- ===== src/Policy/Laws.antt =====
-- packages/policy-engine/src/engine.ts: what the policies decide: the first rule that applies, and the two pilot policies in full.
use qev_platform.Base.{
  String, ◌≡◌, ◌≢◌, ◌↔◌, ◌⊎◌, refl, sym, ap, ◌∙◌, Bool, true, false, not, ◌&&◌, ◌||◌, Option, none,
  some, List, [], ◌∷◌, ◌++◌, arith, inl, inr, ◌==◌, eq_iff, includes, All, Bool-cases,
  if◌then◌else◌, or_else,
}
use qev_platform.Event.{PolicyEffect, allow_and_record, require_approval, block, QevEvent, blocked}
use qev_platform.Policy.{
  PolicyDecision, PolicyRule, policy_record, FlowPolicy, field_service_policy_v1,
  devops_change_policy_v1, policy_for_flow, has_backup, decides, decision_by, default_decision,
  evaluate_rules, evaluate_policy, apply_decision_to_event,
}

devops_flow : policy_for_flow "devops-change" ≡ devops_change_policy_v1
unfolding policy_for_flow
devops_flow = refl

module _ (lower : String → String) where
  -- Which decision a list of rules gives: that of the first rule that decides the event, or the
  -- default if none does.
  pub data FirstRule (policy : FlowPolicy) (event : QevEvent) (at : String)
      : List PolicyRule → PolicyDecision → Type 0 where
    by_rule :
        (before : List PolicyRule) (rule : PolicyRule) (behind : List PolicyRule)
        {rules : List PolicyRule}
        → rules ≡ before ++ rule ∷ behind
        → All (λ r. decides lower r event ≡ false) before
        → decides lower rule event ≡ true
        → FirstRule policy event at rules (decision_by policy rule event at)
    by_default :
        {rules : List PolicyRule}
        → All (λ r. decides lower r event ≡ false) rules
        → FirstRule policy event at rules (default_decision policy event at)

  first_later :
      {policy : FlowPolicy} {event : QevEvent} {at : String} {rules : List PolicyRule}
      {d : PolicyDecision} (rule : PolicyRule)
      → decides lower rule event ≡ false
      → FirstRule policy event at rules d
      → FirstRule policy event at (rule ∷ rules) d
  first_later rule off (by_rule before r behind e skipped hit) =
      by_rule (rule ∷ before) r behind (ap (λ rs. rule ∷ rs) e) (off, skipped) hit
  first_later rule off (by_default skipped) = by_default (off, skipped)

  evaluate_rules-first :
      (policy : FlowPolicy) (rules : List PolicyRule) (event : QevEvent) (at : String)
      → FirstRule policy event at rules (evaluate_rules lower policy rules event at)
  unfolding evaluate_rules
  evaluate_rules-first policy [] event at = by_default tt
  evaluate_rules-first policy (rule ∷ rules) event at =
      elim (Bool-cases (decides lower rule event)) [
        | inl hit ↦ rw hit (by_rule [] rule rules refl tt hit)
        | inr off ↦ rw off (first_later rule off (evaluate_rules-first policy rules event at))
      ]

  -- An event is decided by the first rule of the policy that applies to it, in the policy's order,
  -- and by the default effect exactly if no rule applies; with no policy given it is that of its flow.
  pub evaluate_policy-first :
      (event : QevEvent) (policy : Option FlowPolicy) (at : String)
      → FirstRule
          (or_else policy (policy_for_flow event.flow_id))
          event
          at
          (or_else policy (policy_for_flow event.flow_id)).rules
          (evaluate_policy lower event policy at)
  unfolding evaluate_policy
  evaluate_policy-first event policy at =
      let p = or_else policy (policy_for_flow event.flow_id) in
      evaluate_rules-first p p.rules event at

  abbrev pub names_destruction : QevEvent → Bool
  names_destruction event =
      includes (lower event.action) (lower "destroy")
      || includes (lower event.action) (lower "delete")
      || includes (lower event.action) (lower "infra.destroy")

  abbrev pub names_deployment : QevEvent → Bool
  names_deployment event =
      includes (lower event.action) (lower "deployment.production")
      || includes (lower event.action) (lower "deploy.prod")

  abbrev pub devops_effect : QevEvent → PolicyEffect
  devops_effect event =
      if names_destruction event && not (has_backup event)
      then block
      else if names_deployment event
      then require_approval
      else allow_and_record

  devops_rules :
      (event : QevEvent) (at : String)
      → ("devops-change" == event.flow_id) ≡ true
      → (evaluate_rules lower devops_change_policy_v1 devops_change_policy_v1.rules event at).effect
        ≡ devops_effect event
  unfolding evaluate_rules decides
  devops_rules event at flow = ground arith

  -- The policy of devops-change blocks an event exactly if its action names a destruction and no
  -- backup is recorded, asks for approval of other production deployments, and records the rest.
  pub devops_policy :
      (event : QevEvent) (at : String)
      → event.flow_id ≡ "devops-change"
      → (evaluate_policy lower event none at).effect ≡ devops_effect event
  unfolding evaluate_policy
  devops_policy event at flow =
      ap (λ p. (evaluate_rules lower p p.rules event at).effect)
        (ap policy_for_flow flow ∙ devops_flow)
      ∙ devops_rules event at ((eq_iff "devops-change" event.flow_id).1 (sym flow))

  other_rules :
      (event : QevEvent) (at : String)
      → ("devops-change" == event.flow_id) ≡ false
      → (evaluate_rules lower devops_change_policy_v1 devops_change_policy_v1.rules event at).effect
        ≡ allow_and_record
  unfolding evaluate_rules decides
  other_rules event at flow = ground arith

  field_rules :
      (event : QevEvent) (at : String)
      → (evaluate_rules lower field_service_policy_v1 field_service_policy_v1.rules event at).effect
        ≡ allow_and_record
  unfolding evaluate_rules decides
  field_rules event at = ground arith

  -- Events of every other flow are recorded, never blocked or held: those of field-service by its
  -- own policy, and those of unknown flows because no rule of the devops policy applies to them.
  pub other_policy :
      (event : QevEvent) (at : String)
      → event.flow_id ≢ "devops-change"
      → (evaluate_policy lower event none at).effect ≡ allow_and_record
  unfolding evaluate_policy policy_for_flow
  other_policy event at other = elim (Bool-cases (event.flow_id == "field-service")) [
    | inl field ↦ rw field (field_rules event at)
    | inr unknown_flow ↦ rw unknown_flow (
        other_rules event at (
          ground (
            arith,
            eq_iff "devops-change" event.flow_id,
            λ (e : "devops-change" ≡ event.flow_id). other (sym e),
          )))
  ]

-- A decision marks the event as blocked exactly if it blocks, records the policy that decided, and
-- leaves the identity, the case, the action, the payload and the evidence of the event alone.
pub apply_decision_lem :
    (event : QevEvent) (d : PolicyDecision)
    → (((apply_decision_to_event event d).outcome ≡ blocked)
        ↔ ((d.effect ≡ block) ⊎ (event.outcome ≡ blocked)))
      × ((apply_decision_to_event event d).policy ≡ some (policy_record d))
      × (record (apply_decision_to_event event d) { outcome = event.outcome; policy = event.policy }
          ≡ event)
unfolding apply_decision_to_event
apply_decision_lem event d = ((ground arith, ground arith), refl, refl)
