-- ===== src/Bundle/Build.antt =====
-- packages/evidence-bundle/src/build.ts: an evidence bundle of a case's events. `sha256` is sha256Hex of
-- packages/shared; `new_id` and `now` are what newId("pkg") and the clock give.
use qev_platform.Base.{
  String, ◌==◌, Bool, true, false, not, ◌||◌, Option, none, some, List, [], ◌∷◌, map, ◌<>◌,
  if◌then◌else◌, or_else, length, any, contains, flat_map, decimal, eqb,
}
use qev_platform.Json.{canonical_json}
use qev_platform.Event.{
  Outcome, failure, Severity, critical, QevArtifact, QevKnownGap, QevEvent, BundleOutcome, complete,
  incomplete, failed, BundleQuestion, BundleDecision, EvidenceBundle,
}
use qev_platform.Policy.{PolicyDecision}
use qev_platform.Bundle.Encode.{events_json, bundle_json}

pub record QuestionText : Type 0 where
  pub id : String
  pub question : String

abbrev ask : String → String → QuestionText
ask id question = record { id = id; question = question }

abbrev pub devops_questions : List QuestionText
devops_questions =
    ask "who" "Who initiated the change?"
    ∷ ask "what" "What action was performed?"
    ∷ ask "artifacts" "What artifacts were fingerprinted?"
    ∷ ask "policy" "What policy effect applied?"
    ∷ ask "outcome" "What was the outcome?"
    ∷ []

abbrev pub field_service_questions : List QuestionText
field_service_questions =
    ask "job" "What job is this?"
    ∷ ask "estimate" "Who approved the estimate?"
    ∷ ask "before" "Were before photos captured?"
    ∷ ask "scope" "Was scope changed, and was the change approved?"
    ∷ ask "after" "Were after photos captured?"
    ∷ ask "gaps" "What evidence is missing?"
    ∷ ask "seal" "Did the package change after sealing?"
    ∷ []

pub record BuildOptions : Type 0 where
  pub events : List QevEvent
  pub decisions : Option (List PolicyDecision)
  pub package_id : Option String
  pub flow_pack_version : Option String
  pub title : Option String

abbrev pub is_blocked : Outcome → Bool
is_blocked Outcome.blocked = true
is_blocked _ = false

abbrev pub is_failure : Outcome → Bool
is_failure failure = true
is_failure _ = false

abbrev pub is_critical : Option Severity → Bool
is_critical (some critical) = true
is_critical _ = false

abbrev pub gaps_of : List QevEvent → List QevKnownGap
gaps_of events = flat_map (λ (e : QevEvent). or_else e.known_gaps []) events

abbrev pub artifacts_of : List QevEvent → List QevArtifact
artifacts_of events = flat_map (λ (e : QevEvent). or_else e.artifacts []) events

abbrev pub action_names : List QevEvent → List String
action_names events = map (λ (e : QevEvent). e.action) events

abbrev pub event_ids : List QevEvent → List String
event_ids events = map (λ (e : QevEvent). e.event_id) events

abbrev pub any_blocked : List QevEvent → Bool
any_blocked events = any (λ (e : QevEvent). is_blocked e.outcome) events

abbrev pub any_failure : List QevEvent → Bool
any_failure events = any (λ (e : QevEvent). is_failure e.outcome) events

abbrev pub any_critical : List QevEvent → Bool
any_critical events = any (λ (g : QevKnownGap). is_critical g.severity) (gaps_of events)

unfoldable pub outcome_of : List QevEvent → BundleOutcome
outcome_of events =
    if any_blocked events
    then BundleOutcome.blocked
    else if any_failure events
    then failed
    else if any_critical events
    then incomplete
    else complete

-- Whether a question has an answer, and the note beside it.
unfoldable pub answer : List QevEvent → (id : String) → Bool × Option String
unfolding decimal
answer events id =
    let actions = action_names events in
    let told : Bool → String → Bool × Option String =
      λ ok note. (ok, if ok then none else some note) in
    let gaps = length (gaps_of events) in
    if id == "artifacts"
    then told (not (eqb (length (artifacts_of events)) 0))
        "No artifact fingerprints present — recorded as known gap."
    else if id == "before"
    then told (contains actions "evidence.before_captured") "Before evidence not recorded."
    else if id == "after"
    then told (contains actions "evidence.after_captured") "After evidence not recorded."
    else if id == "estimate"
    then told (contains actions "estimate.approved") "No estimate approval event."
    else if id == "scope"
    then told (not (contains actions "scope.changed") || contains actions "change.approved")
        "Scope changed without change.approved — known gap."
    else if id == "gaps"
    then (
      true,
      some (
          if eqb gaps 0
          then "No known gaps recorded"
          else decimal gaps <> " known gap(s) recorded"),
    )
    else if id == "seal"
    then (true, some "Sealed packages are immutable; re-seal creates a new package_id.")
    else (true, none)

unfoldable pub answered : List QevEvent → QuestionText → BundleQuestion
unfolding answer
answered events q = record {
  id = q.id;
  question = q.question;
  answerable = (answer events q.id).0;
  evidence_event_ids = some (event_ids events);
  note = (answer events q.id).1;
}

unfoldable pub questions_of : (flow_id : String) → List QevEvent → List BundleQuestion
unfolding answered
questions_of flow_id events =
    map (answered events)
      (if flow_id == "field-service" then field_service_questions else devops_questions)

abbrev bundle_decision : PolicyDecision → BundleDecision
bundle_decision d = record {
  policy_id = d.policy_id;
  policy_version = d.policy_version;
  effect = d.effect;
  reason = some d.reason;
  event_id = d.event_id;
  decided_at = some d.decided_at;
}

abbrev pub with_bundle_hash : EvidenceBundle → String → EvidenceBundle
with_bundle_hash b hash = record b { integrity = record b.integrity { bundle_sha256 = hash } }

module _ (sha256 : String → String) (new_id now : String) where
  -- The bundle before its own hash is filled in; `first` is the first of the events.
  unfoldable pub partial_bundle : BuildOptions → (first : QevEvent) → EvidenceBundle
  unfolding canonical_json events_json outcome_of questions_of
  partial_bundle opts first = record {
    schema = "QEV-EVIDENCE-BUNDLE-V1";
    package_id = or_else opts.package_id new_id;
    created_at = now;
    tenant_id = first.tenant_id;
    flow_id = first.flow_id;
    case_id = first.case_id;
    flow_pack_version = some (or_else opts.flow_pack_version "0.1.0");
    events = opts.events;
    summary = record {
      event_count = length opts.events;
      outcome = outcome_of opts.events;
      title = some (or_else opts.title (first.flow_id <> ":" <> first.case_id));
      questions = questions_of first.flow_id opts.events;
    };
    artifacts = some (artifacts_of opts.events);
    policy_decisions = some (map bundle_decision (or_else opts.decisions []));
    known_gaps = gaps_of opts.events;
    access_policy = some (record {
      retention = some "customer-controlled";
      authorized_roles = some ("operator" ∷ "auditor" ∷ []);
      legal_hold = some false;
    });
    integrity = record {
      events_sha256 = sha256 (canonical_json (events_json opts.events));
      bundle_sha256 = "";
      algorithm = some "SHA-256";
    };
    package_signature = none;
  }

  unfoldable pub finished_bundle : BuildOptions → (first : QevEvent) → EvidenceBundle
  unfolding partial_bundle canonical_json bundle_json
  finished_bundle opts first =
      let partial = partial_bundle opts first in
      with_bundle_hash partial (sha256 (canonical_json (bundle_json (with_bundle_hash partial ""))))

  abbrev pub build_from : BuildOptions → List QevEvent → Option EvidenceBundle
  build_from opts [] = none
  build_from opts (first ∷ rest) = some (finished_bundle opts first)

  -- With no events it throws.
  unfoldable pub build_evidence_bundle : BuildOptions → Option EvidenceBundle
  build_evidence_bundle opts = build_from opts opts.events
