-- ===== src/Event.antt =====
-- packages/event-schema/src/types.ts: events, and the bundles that hold them.
pub mod Samples
use qev_platform.Base.{ℕ, String, Bool, Option, List, Assoc}
use qev_platform.Json.{Json, Fields}

pub data PrivacyMode : Type 0 where
  full redacted hash_only reference_only drop : PrivacyMode

pub data IdentityAssurance : Type 0 where
  typed source_asserted company_sso cryptographically_signed device_bound : IdentityAssurance

pub data Outcome : Type 0 where
  success failure pending blocked unknown : Outcome

pub data PolicyEffect : Type 0 where
  allow allow_and_record require_approval block : PolicyEffect

pub data IngestionPath : Type 0 where
  webhook otlp sdk poll file proxy : IngestionPath

pub data Severity : Type 0 where
  info warning critical : Severity

pub record QevArtifact : Type 0 where
  pub name : String
  pub sha256 : String
  pub media_type : Option String
  pub size_bytes : Option ℕ
  pub uri : Option String

pub record QevKnownGap : Type 0 where
  pub code : String
  pub message : String
  pub field : Option String
  pub severity : Option Severity

pub record EventSource : Type 0 where
  pub system : String
  pub connector : String
  pub connector_version : String
  pub provider_event_id : Option String
  pub raw_body_sha256 : Option String
  pub ingestion_path : Option IngestionPath

pub record EventActor : Type 0 where
  pub id : String
  pub display_name : Option String
  pub identity_assurance : IdentityAssurance
  pub auth_context : Option String

pub record EventPolicy : Type 0 where
  pub policy_id : String
  pub policy_version : String
  pub effect : PolicyEffect
  pub reason : Option String

pub record EventPrivacy : Type 0 where
  pub default_mode : PrivacyMode
  pub field_modes : Option (Assoc PrivacyMode)

pub record TimeAssurance : Type 0 where
  pub source_system_time : Option String
  pub gateway_receipt_time : Option String
  pub org_signed_time : Option String
  pub independent_timestamp : Option String

pub record ConnectorSignature : Type 0 where
  pub algorithm : String
  pub key_id : String
  pub signature : String

-- `schema` is the constant "qev.event.v1", and is not a field; `target` and `payload` are objects.
pub record QevEvent : Type 0 where
  pub event_id : String
  pub occurred_at : String
  pub observed_at : String
  pub tenant_id : String
  pub flow_id : String
  pub case_id : String
  pub source : EventSource
  pub actor : EventActor
  pub action : String
  pub target : Option Fields
  pub outcome : Outcome
  pub artifacts : Option (List QevArtifact)
  pub policy : Option EventPolicy
  pub privacy : EventPrivacy
  pub payload : Option Fields
  pub known_gaps : Option (List QevKnownGap)
  pub time_assurance : Option TimeAssurance
  pub connector_signature : Option ConnectorSignature

pub data BundleOutcome : Type 0 where
  complete incomplete blocked failed : BundleOutcome

pub record BundleQuestion : Type 0 where
  pub id : String
  pub question : String
  pub answerable : Bool
  pub evidence_event_ids : Option (List String)
  pub note : Option String

pub record BundleSummary : Type 0 where
  pub event_count : ℕ
  pub outcome : BundleOutcome
  pub title : Option String
  pub questions : List BundleQuestion

pub record BundleDecision : Type 0 where
  pub policy_id : String
  pub policy_version : String
  pub effect : PolicyEffect
  pub reason : Option String
  pub event_id : String
  pub decided_at : Option String

pub record AccessPolicy : Type 0 where
  pub retention : Option String
  pub authorized_roles : Option (List String)
  pub legal_hold : Option Bool

pub record Integrity : Type 0 where
  pub events_sha256 : String
  pub bundle_sha256 : String
  pub algorithm : Option String

pub record BundleSignature : Type 0 where
  pub algorithm : String
  pub key_id : String
  pub signature : String

-- `schema` is a field, since the verifier checks it.
pub record EvidenceBundle : Type 0 where
  pub schema : String
  pub package_id : String
  pub created_at : String
  pub tenant_id : String
  pub flow_id : String
  pub case_id : String
  pub flow_pack_version : Option String
  pub events : List QevEvent
  pub summary : BundleSummary
  pub artifacts : Option (List QevArtifact)
  pub policy_decisions : Option (List BundleDecision)
  pub known_gaps : List QevKnownGap
  pub access_policy : Option AccessPolicy
  pub integrity : Integrity
  pub package_signature : Option BundleSignature
