-- ===== src/Bundle/Encode.antt =====
-- packages/event-schema/src/types.ts: events and bundles as the objects that canonical.ts prints.
-- An optional property without a value is undefined, which the printer leaves out.
use qev_platform.Base.{ℕ, Option, none, some, List, [], ◌∷◌, Assoc, decimal}
use qev_platform.Json.{
  Json, Items, Fields, undefined, bool, num, str, arr, obj, nil, cons, end, field, optional,
}
use qev_platform.Event.{
  PrivacyMode, full, redacted, hash_only, reference_only, drop, IdentityAssurance, typed,
  source_asserted, company_sso, cryptographically_signed, device_bound, PolicyEffect, allow,
  allow_and_record, require_approval, block, IngestionPath, webhook, otlp, sdk, poll, file, proxy,
  Severity, info, warning, critical, QevArtifact, QevKnownGap, EventSource, EventActor, EventPolicy,
  EventPrivacy, TimeAssurance, ConnectorSignature, QevEvent, BundleOutcome, complete, incomplete,
  blocked, failed, BundleQuestion, BundleSummary, BundleDecision, AccessPolicy, Integrity,
  BundleSignature, EvidenceBundle,
}
use qev_platform.Policy.{outcome_text}

abbrev opt {ℓ} : {A : Type ℓ} → (A → Json) → Option A → Json
opt f none = undefined
opt f (some a) = f a

abbrev pub items {ℓ} : {A : Type ℓ} → (A → Json) → List A → Items
items f [] = nil
items f (x ∷ xs) = cons (f x) (items f xs)

abbrev pub list {ℓ} : {A : Type ℓ} → (A → Json) → List A → Json
list f xs = arr (items f xs)

privacy_mode : PrivacyMode → Json
privacy_mode full = str "full"
privacy_mode redacted = str "redacted"
privacy_mode hash_only = str "hash_only"
privacy_mode reference_only = str "reference_only"
privacy_mode drop = str "drop"

identity_assurance : IdentityAssurance → Json
identity_assurance typed = str "typed"
identity_assurance source_asserted = str "source_asserted"
identity_assurance company_sso = str "company_sso"
identity_assurance cryptographically_signed = str "cryptographically_signed"
identity_assurance device_bound = str "device_bound"

policy_effect : PolicyEffect → Json
policy_effect allow = str "allow"
policy_effect allow_and_record = str "allow_and_record"
policy_effect require_approval = str "require_approval"
policy_effect block = str "block"

ingestion_path : IngestionPath → Json
ingestion_path webhook = str "webhook"
ingestion_path otlp = str "otlp"
ingestion_path sdk = str "sdk"
ingestion_path poll = str "poll"
ingestion_path file = str "file"
ingestion_path proxy = str "proxy"

severity : Severity → Json
severity info = str "info"
severity warning = str "warning"
severity critical = str "critical"

size : ℕ → Json
unfolding decimal
size n = num (decimal n)

artifact : QevArtifact → Json
unfolding size
artifact a = obj (
    field "name" (str a.name) (
      field "sha256" (str a.sha256) (
        field "media_type" (optional a.media_type)
          (field "size_bytes" (opt size a.size_bytes) (field "uri" (optional a.uri) end)))))

unfoldable pub known_gap : QevKnownGap → Json
unfolding severity
known_gap g = obj (
    field "code" (str g.code) (
      field "message" (str g.message)
        (field "field" (optional g.field) (field "severity" (opt severity g.severity) end))))

unfoldable pub source : EventSource → Json
unfolding ingestion_path
source s = obj (
    field "system" (str s.system) (
      field "connector" (str s.connector) (
        field "connector_version" (str s.connector_version) (
          field "provider_event_id" (optional s.provider_event_id) (
            field "raw_body_sha256" (optional s.raw_body_sha256)
              (field "ingestion_path" (opt ingestion_path s.ingestion_path) end))))))

unfoldable pub actor : EventActor → Json
unfolding identity_assurance
actor a = obj (
    field "id" (str a.id) (
      field "display_name" (optional a.display_name) (
        field "identity_assurance" (identity_assurance a.identity_assurance)
          (field "auth_context" (optional a.auth_context) end))))

policy : EventPolicy → Json
unfolding policy_effect
policy p = obj (
    field "policy_id" (str p.policy_id) (
      field "policy_version" (str p.policy_version)
        (field "effect" (policy_effect p.effect) (field "reason" (optional p.reason) end))))

mode_fields : Assoc PrivacyMode → Fields
unfolding privacy_mode
mode_fields [] = end
mode_fields ((k, m) ∷ rest) = field k (privacy_mode m) (mode_fields rest)

unfoldable pub privacy : EventPrivacy → Json
unfolding privacy_mode mode_fields
privacy p = obj (
    field "default_mode" (privacy_mode p.default_mode)
      (field "field_modes" (opt (λ m. obj (mode_fields m)) p.field_modes) end))

time_assurance : TimeAssurance → Json
time_assurance t = obj (
    field "source_system_time" (optional t.source_system_time) (
      field "gateway_receipt_time" (optional t.gateway_receipt_time) (
        field "org_signed_time" (optional t.org_signed_time)
          (field "independent_timestamp" (optional t.independent_timestamp) end))))

connector_signature : ConnectorSignature → Json
connector_signature s = obj (
    field "algorithm" (str s.algorithm)
      (field "key_id" (str s.key_id) (field "signature" (str s.signature) end)))

unfoldable pub event_json : QevEvent → Json
unfolding source actor artifact policy privacy known_gap time_assurance connector_signature
event_json e = obj (
    field "schema" (str "qev.event.v1") (
      field "event_id" (str e.event_id) (
        field "occurred_at" (str e.occurred_at) (
          field "observed_at" (str e.observed_at) (
            field "tenant_id" (str e.tenant_id) (
              field "flow_id" (str e.flow_id) (
                field "case_id" (str e.case_id) (
                  field "source" (source e.source) (
                    field "actor" (actor e.actor) (
                      field "action" (str e.action) (
                        field "target" (opt obj e.target) (
                          field "outcome" (str (outcome_text e.outcome)) (
                            field "artifacts" (opt (list artifact) e.artifacts) (
                              field "policy" (opt policy e.policy) (
                                field "privacy" (privacy e.privacy) (
                                  field "payload" (opt obj e.payload) (
                                    field "known_gaps" (opt (list known_gap) e.known_gaps) (
                                      field "time_assurance" (opt time_assurance e.time_assurance) (
                                        field "connector_signature"
                                          (opt connector_signature e.connector_signature)
                                          end)))))))))))))))))))

unfoldable pub events_json : List QevEvent → Json
unfolding event_json
events_json events = list event_json events

bundle_outcome : BundleOutcome → Json
bundle_outcome complete = str "complete"
bundle_outcome incomplete = str "incomplete"
bundle_outcome blocked = str "blocked"
bundle_outcome failed = str "failed"

question : BundleQuestion → Json
question q = obj (
    field "id" (str q.id) (
      field "question" (str q.question) (
        field "answerable" (bool q.answerable) (
          field "evidence_event_ids" (opt (list str) q.evidence_event_ids)
            (field "note" (optional q.note) end)))))

summary : BundleSummary → Json
unfolding size bundle_outcome question
summary s = obj (
    field "event_count" (size s.event_count) (
      field "outcome" (bundle_outcome s.outcome)
        (field "title" (optional s.title) (field "questions" (list question s.questions) end))))

decision : BundleDecision → Json
unfolding policy_effect
decision d = obj (
    field "policy_id" (str d.policy_id) (
      field "policy_version" (str d.policy_version) (
        field "effect" (policy_effect d.effect) (
          field "reason" (optional d.reason)
            (field "event_id" (str d.event_id) (field "decided_at" (optional d.decided_at) end))))))

access_policy : AccessPolicy → Json
access_policy a = obj (
    field "retention" (optional a.retention) (
      field "authorized_roles" (opt (list str) a.authorized_roles)
        (field "legal_hold" (opt bool a.legal_hold) end)))

integrity : Integrity → Json
integrity i = obj (
    field "events_sha256" (str i.events_sha256)
      (field "bundle_sha256" (str i.bundle_sha256) (field "algorithm" (optional i.algorithm) end)))

signature : BundleSignature → Json
signature s = obj (
    field "algorithm" (str s.algorithm)
      (field "key_id" (str s.key_id) (field "signature" (str s.signature) end)))

unfoldable pub bundle_json : EvidenceBundle → Json
unfolding events_json summary artifact decision known_gap access_policy integrity signature
bundle_json b = obj (
    field "schema" (str b.schema) (
      field "package_id" (str b.package_id) (
        field "created_at" (str b.created_at) (
          field "tenant_id" (str b.tenant_id) (
            field "flow_id" (str b.flow_id) (
              field "case_id" (str b.case_id) (
                field "flow_pack_version" (optional b.flow_pack_version) (
                  field "events" (events_json b.events) (
                    field "summary" (summary b.summary) (
                      field "artifacts" (opt (list artifact) b.artifacts) (
                        field "policy_decisions" (opt (list decision) b.policy_decisions) (
                          field "known_gaps" (list known_gap b.known_gaps) (
                            field "access_policy" (opt access_policy b.access_policy) (
                              field "integrity" (integrity b.integrity) (
                                field "package_signature" (opt signature b.package_signature)
                                  end)))))))))))))))
