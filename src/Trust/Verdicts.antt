-- ===== src/Trust/Verdicts.antt =====
-- packages/trust/src/verdicts.ts: the report on a package, one verdict per question.
use qev_platform.Base.{
  ℕ, ◌-◌, String, Bool, true, false, not, ◌&&◌, Option, none, some, List, [], ◌∷◌, ◌++◌, ◌<>◌, eqb,
  truthy, if◌then◌else◌, or_else, length, filter, any, all, map, contains, distinct, decimal,
  sort_by,
}
use qev_platform.Event.{
  QevArtifact, QevKnownGap, IdentityAssurance, IngestionPath, QevEvent, EvidenceBundle,
  TimeAssurance, BundleSignature, webhook, typed, source_asserted, company_sso,
  cryptographically_signed, device_bound,
}
use qev_platform.Flow.{FlowPack}
use qev_platform.Ops.Completeness.{join_list, actions_of}
use qev_platform.Bundle.Verify.{BundleVerifyReport, is_sha256, verify_evidence_bundle}
use qev_platform.Core.Signing.{PackageSignature}
use qev_platform.Core.PackageFile.{Vaults, QevPackageFile}
use qev_platform.Trust.Levels.{
  VerdictLevel, verified, partial, failed, not_present, not_applicable, not_determined,
}

pub record VerdictLine : Type 0 where
  pub id : String
  pub label : String
  pub level : VerdictLevel
  pub detail : String

pub record RequiredEvidence : Type 0 where
  pub have : ℕ
  pub need : ℕ
  pub missing : List String

pub record TimelineEntry : Type 0 where
  pub at : String
  pub action : String
  pub actor : String
  pub source : String
  pub event_id : String

-- `content_truth` is the constant "not_independently_determined", and is not a field.
pub record MultiVerdictReport : Type 0 where
  pub package_id : String
  pub case_id : String
  pub flow_id : String
  pub lines : List VerdictLine
  pub required_evidence : RequiredEvidence
  pub known_gaps : List QevKnownGap
  pub timeline : List TimelineEntry
  pub shadow_mode : Option Bool
  pub overall_safe_to_rely_for : List String
  pub overall_not_safe_to_rely_for : List String

pub record PackageSigner : Type 0 where
  pub level : VerdictLevel
  pub detail : String

-- `decrypt_ok` and `webhook_signature_on_events` are taken by the code and not read.
pub record VerdictOptions (vaults : Vaults) : Type 0 where
  pub pkg : QevPackageFile vaults
  pub bundle : EvidenceBundle
  pub vault_sha256_ok : Bool
  pub flow_pack : Option FlowPack
  pub shadow_mode : Option Bool
  pub package_signer : Option PackageSigner

abbrev pub integrity_line : (vault_ok : Bool) → BundleVerifyReport → VerdictLine
integrity_line vault_ok report = record {
  id = "package_integrity";
  label = "Package integrity";
  level = if vault_ok && (report.events_hash_ok && report.bundle_hash_ok) then verified else failed;
  detail =
      if vault_ok
      then "Outer vault_sha256 and evidence digests match recorded values"
      else "Outer vault_sha256 mismatch or evidence digests failed";
}

-- The signer when the caller has not checked the signature.
abbrev default_signer : Option PackageSignature → Option BundleSignature → PackageSigner
default_signer (some outer) inner = record {
  level = partial;
  detail =
      "Outer package_signature present — run verifyOuterPackageSignature for cryptographic check";
}
default_signer none (some inner) = record {
  level = partial;
  detail = "Inner bundle signature algorithm " <> inner.algorithm;
}
default_signer none none = record {
  level = not_present;
  detail = "No organization package signature";
}

abbrev signer_line : PackageSigner → VerdictLine
signer_line signer = record {
  id = "package_signer";
  label = "Package signer";
  level = signer.level;
  detail = signer.detail;
}

abbrev came_by_webhook : Option IngestionPath → Bool
came_by_webhook (some webhook) = true
came_by_webhook _ = false

abbrev webhook_events : List QevEvent → List QevEvent
webhook_events events = filter (λ (e : QevEvent). came_by_webhook e.source.ingestion_path) events

-- A text that is given and not empty.
abbrev given : Option String → Bool
given none = false
given (some s) = truthy s

abbrev pub webhook_line : List QevEvent → VerdictLine
webhook_line events =
    let hooks = webhook_events events in
    record {
      id = "source_webhook";
      label = "Source webhook";
      level =
          if eqb (length hooks) 0
          then not_applicable
          else if all (λ (e : QevEvent). given e.source.raw_body_sha256) hooks
          then verified
          else partial;
      detail =
          if eqb (length hooks) 0
          then "No webhook-ingested events in this package"
          else "Raw body SHA-256 bound on webhook events (HMAC verified at ingest)";
    }

abbrev assurance_text : IdentityAssurance → String
assurance_text typed = "typed"
assurance_text source_asserted = "source_asserted"
assurance_text company_sso = "company_sso"
assurance_text cryptographically_signed = "cryptographically_signed"
assurance_text device_bound = "device_bound"

identity_line : List QevEvent → VerdictLine
unfolding join_list
identity_line events =
    let names =
      join_list
        (distinct (map (λ (e : QevEvent). assurance_text e.actor.identity_assurance) events)) in
    record {
      id = "actor_identity";
      label = "Actor identity";
      level = partial;
      detail = "Strongest recorded: " <> (if truthy names then names else "none");
    }

unfoldable pub artifact_line : List QevArtifact → VerdictLine
unfolding is_sha256 decimal
artifact_line arts =
    let well_formed = filter (λ (a : QevArtifact). is_sha256 a.sha256) arts in
    record {
      id = "artifact_match";
      label = "Artifact fingerprints";
      level =
          if eqb (length arts) 0
          then not_present
          else if eqb (length well_formed) (length arts)
          then verified
          else partial;
      detail =
          if eqb (length arts) 0
          then "No artifact fingerprints recorded"
          else decimal (length well_formed)
            <> "/"
            <> decimal (length arts)
            <> " well-formed SHA-256 fingerprints (content truth not re-fetched)";
    }

abbrev has_timestamp : Option TimeAssurance → Bool
has_timestamp none = false
has_timestamp (some t) = given t.independent_timestamp

abbrev any_timestamp : List QevEvent → Bool
any_timestamp events = any (λ (e : QevEvent). has_timestamp e.time_assurance) events

abbrev time_lines : Bool → List VerdictLine
time_lines independent =
    record {
      id = "time";
      label = "Time";
      level = if independent then verified else partial;
      detail =
          if independent
          then "Independent timestamp present on at least one event"
          else "Gateway observed and/or source system time only";
    }
    ∷ record {
      id = "external_time_anchor";
      label = "External time anchor";
      level = if independent then verified else not_present;
      detail =
          if independent
          then "RFC 3161-style or independent timestamp recorded"
          else "Not present (optional for pilot)";
    }
    ∷ []

abbrev pub required_of : Option FlowPack → List String
required_of none = []
required_of (some pack) = pack.required_actions

abbrev pub missing_of : List String → List QevEvent → List String
missing_of required events = filter (λ a. not (contains (actions_of events) a)) required

unfoldable pub required_line : List String → List QevEvent → VerdictLine
unfolding decimal
required_line required events =
    let missing = missing_of required events in
    record {
      id = "required_evidence";
      label = "Required evidence";
      level =
          if eqb (length required) 0
          then not_applicable
          else if eqb (length missing) 0
          then verified
          else partial;
      detail =
          if eqb (length required) 0
          then "No required action list on flow pack"
          else decimal (length required - length missing)
            <> " of "
            <> decimal (length required)
            <> " required actions present";
    }

abbrev content_line : VerdictLine
content_line = record {
  id = "content_truth";
  label = "Content truth";
  level = not_determined;
  detail = "QEV does not independently determine whether source content is true";
}

abbrev post_seal_line : VerdictLine
post_seal_line = record {
  id = "post_seal";
  label = "Post-seal rewrite";
  level = verified;
  detail = "Sealed packages are immutable; late events must open a new package or known gap";
}

abbrev shadow_lines : Option Bool → List VerdictLine
shadow_lines (some true) =
    record {
      id = "shadow_mode";
      label = "Shadow mode";
      level = partial;
      detail = "Recording only — QEV did not control or block the business process";
    }
    ∷ []
shadow_lines _ = []

abbrev timeline_entry : QevEvent → TimelineEntry
timeline_entry e = record {
  at = e.occurred_at;
  action = e.action;
  actor = or_else e.actor.display_name e.actor.id;
  source = e.source.system <> " / " <> e.source.connector;
  event_id = e.event_id;
}

-- `locale_lt s t` says that s.localeCompare(t) is negative.
module _ (locale_lt : String → String → Bool) where
  abbrev pub earlier : QevEvent → QevEvent → Bool
  earlier a b = locale_lt a.occurred_at b.occurred_at

  unfoldable pub timeline_of : List QevEvent → List TimelineEntry
  unfolding sort_by
  timeline_of events = map timeline_entry (sort_by earlier events)

module _ {vaults : Vaults} (sha256 : String → String) where
  unfoldable pub verdict_lines : VerdictOptions vaults → List VerdictLine
  unfolding verify_evidence_bundle identity_line artifact_line required_line
  verdict_lines opts =
      let events = opts.bundle.events in
      integrity_line opts.vault_sha256_ok (verify_evidence_bundle sha256 opts.bundle)
      ∷ signer_line (
          or_else opts.package_signer
            (default_signer opts.pkg.package_signature opts.bundle.package_signature))
      ∷ webhook_line events
      ∷ identity_line events
      ∷ artifact_line (or_else opts.bundle.artifacts [])
      ∷ (time_lines (any_timestamp events)
          ++ (required_line (required_of opts.flow_pack) events
              ∷ content_line
              ∷ post_seal_line
              ∷ shadow_lines opts.shadow_mode))

  unfoldable pub build_multi_verdict :
      (locale_lt : String → String → Bool) → VerdictOptions vaults → MultiVerdictReport
  unfolding verdict_lines timeline_of
  build_multi_verdict locale_lt opts =
      let required = required_of opts.flow_pack in
      let missing = missing_of required opts.bundle.events in
      record {
        package_id = opts.pkg.package_id;
        case_id = opts.pkg.case_id;
        flow_id = opts.pkg.flow_id;
        lines = verdict_lines opts;
        required_evidence = record {
          have = length required - length missing;
          need = length required;
          missing = missing;
        };
        known_gaps = opts.bundle.known_gaps;
        timeline = timeline_of locale_lt opts.bundle.events;
        shadow_mode = opts.shadow_mode;
        overall_safe_to_rely_for =
            "Whether sealed package bytes match integrity digests"
            ∷ "Whether decrypt succeeded with authorized unlock"
            ∷ "Which events and artifact hashes were recorded"
            ∷ "Which required flow steps are present or missing" ∷ [];
        overall_not_safe_to_rely_for =
            "Truth of statements inside source systems" ∷ "Legal privilege or court admissibility"
            ∷ "That unlogged actions never occurred"
            ∷ "Identity stronger than recorded identity_assurance" ∷ [];
      }
