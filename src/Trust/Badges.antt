-- ===== src/Trust/Badges.antt =====
-- packages/trust/src/workflow-badge.ts: certificates for the workflows of a company, and their badges.
use qev_platform.Base.{
  ℕ, ◌+◌, ◌*◌, String, ◌==◌, Bool, Option, none, some, List, [], ◌∷◌, ◌<>◌, if◌then◌else◌, or_else,
  any, Assoc,
}
use qev_platform.Json.{Json, Fields, undefined, str, obj, end, field, optional, canonical_json}
use qev_platform.Bundle.Encode.{list}
use qev_platform.Core.Signing.{
  Result, returned, threw, SigningKeyPair, PackageSignature, Crypto, bad_text, sign_package_payload,
}

pub data TrustBadgeLevel : Type 0 where
  qev_compatible : TrustBadgeLevel
  qev_pilot_configuration_passed : TrustBadgeLevel
  qev_verified_workflow : TrustBadgeLevel
  qev_protected_workflow : TrustBadgeLevel
  qev_independently_assessed : TrustBadgeLevel

pub data TrustCertStatus : Type 0 where
  active expiring suspended revoked expired superseded draft : TrustCertStatus

pub data Control : Type 0 where
  pass fail not_tested n_a : Control

abbrev pub level_text : TrustBadgeLevel → String
level_text qev_compatible = "qev_compatible"
level_text qev_pilot_configuration_passed = "qev_pilot_configuration_passed"
level_text qev_verified_workflow = "qev_verified_workflow"
level_text qev_protected_workflow = "qev_protected_workflow"
level_text qev_independently_assessed = "qev_independently_assessed"

abbrev status_text : TrustCertStatus → String
status_text active = "active"
status_text expiring = "expiring"
status_text suspended = "suspended"
status_text revoked = "revoked"
status_text expired = "expired"
status_text superseded = "superseded"
status_text draft = "draft"

abbrev control_text : Control → String
control_text pass = "pass"
control_text fail = "fail"
control_text not_tested = "not_tested"
control_text n_a = "n_a"

abbrev pub issuable_now : List TrustBadgeLevel
issuable_now = qev_compatible ∷ qev_pilot_configuration_passed ∷ []

abbrev pub public_badge_label : TrustBadgeLevel → String
public_badge_label qev_compatible = "QEV Compatible"
public_badge_label qev_pilot_configuration_passed = "QEV Pilot Configuration Passed"
public_badge_label qev_verified_workflow = "QEV Verified Workflow"
public_badge_label qev_protected_workflow = "QEV Protected Workflow"
public_badge_label qev_independently_assessed = "QEV Independently Assessed"

pub record BadgeSubject : Type 0 where
  pub legal_name : String
  pub domain : String

pub record BadgeScope : Type 0 where
  pub workspace : String
  pub environment : String
  pub flow_id : String
  pub flow_version : String
  pub included_systems : List String
  pub excluded_systems : List String
  pub scope_sentence : String

pub record Assessor : Type 0 where
  pub type_of : String
  pub name : String

-- `schema` is the constant "qev.trust-certificate.v1", and is not a field; `type_of` is the field "type".
pub record WorkflowTrustCertificate : Type 0 where
  pub certificate_id : String
  pub subject : BadgeSubject
  pub level : TrustBadgeLevel
  pub public_label : String
  pub scope : BadgeScope
  pub controls : Assoc Control
  pub issued_at : String
  pub expires_at : String
  pub last_health_check : Option String
  pub status : TrustCertStatus
  pub assessor : Assessor
  pub exceptions : List String
  pub revocation_reason : Option String
  pub public_key_fingerprint : String
  pub signature : Option PackageSignature
  pub certificate_sha256 : String
  pub badge_disclaimer : String

pub record BadgeOptions : Type 0 where
  pub level : TrustBadgeLevel
  pub legal_name : String
  pub domain : String
  pub scope : BadgeScope
  pub controls : Assoc Control
  pub exceptions : Option (List String)
  pub signing_key : SigningKeyPair
  pub ttl_days : Option ℕ

-- ISSUABLE_NOW.includes(level)
abbrev pub is_issuable : TrustBadgeLevel → Bool
is_issuable level = any (λ l. level_text l == level_text level) issuable_now

-- The error that assertIssuable throws, if any.
abbrev pub assert_issuable : TrustBadgeLevel → Option String
assert_issuable level =
    if is_issuable level
    then none
    else some (
        "Level "
        <> level_text level
        <> " is not issuable yet. Public product is controlled-use preview without independent audit / full KMS. Stronger badges require assessment process.")

abbrev controls_json : Assoc Control → Fields
controls_json [] = end
controls_json ((name, c) ∷ rest) = field name (str (control_text c)) (controls_json rest)

abbrev subject_json : BadgeSubject → Json
subject_json s = obj (field "legal_name" (str s.legal_name) (field "domain" (str s.domain) end))

abbrev scope_json : BadgeScope → Json
scope_json s = obj (
    field "workspace" (str s.workspace) (
      field "environment" (str s.environment) (
        field "flow_id" (str s.flow_id) (
          field "flow_version" (str s.flow_version) (
            field "included_systems" (list str s.included_systems) (
              field "excluded_systems" (list str s.excluded_systems)
                (field "scope_sentence" (str s.scope_sentence) end)))))))

abbrev assessor_json : Assessor → Json
assessor_json a = obj (field "type" (str a.type_of) (field "name" (str a.name) end))

-- A certificate as it is hashed: without its signature, and with an empty hash.
unfoldable pub hashed_json : WorkflowTrustCertificate → Json
hashed_json c = obj (
    field "schema" (str "qev.trust-certificate.v1") (
      field "certificate_id" (str c.certificate_id) (
        field "subject" (subject_json c.subject) (
          field "level" (str (level_text c.level)) (
            field "public_label" (str c.public_label) (
              field "scope" (scope_json c.scope) (
                field "controls" (obj (controls_json c.controls)) (
                  field "issued_at" (str c.issued_at) (
                    field "expires_at" (str c.expires_at) (
                      field "last_health_check" (optional c.last_health_check) (
                        field "status" (str (status_text c.status)) (
                          field "assessor" (assessor_json c.assessor) (
                            field "exceptions" (list str c.exceptions) (
                              field "public_key_fingerprint" (str c.public_key_fingerprint) (
                                field "badge_disclaimer" (str c.badge_disclaimer) (
                                  field "certificate_sha256" (str "")
                                    (field "signature" undefined end)))))))))))))))))

-- What the signature of a certificate covers.
unfoldable pub badge_payload : WorkflowTrustCertificate → String
unfolding canonical_json
badge_payload c = canonical_json (
    obj (
      field "certificate_id" (str c.certificate_id) (
        field "certificate_sha256" (str c.certificate_sha256) (
          field "level" (str (level_text c.level)) (
            field "domain" (str c.subject.domain) (
              field "flow_id" (str c.scope.flow_id) (
                field "issued_at" (str c.issued_at)
                  (field "expires_at" (str c.expires_at) end))))))))

abbrev assessor_for : TrustBadgeLevel → Assessor
assessor_for level = record {
  type_of =
      if level_text level == "qev_compatible"
      then "qev_interop_tests"
      else "qev_automated_pilot_preflight";
  name = "Qira (self-issued pilot)";
}

-- `iso` turns milliseconds into the text of a date, `year` gives the year of one, `cut_24` is
-- slice(0, 24), and `tag` stands for newId("").slice(0, 6).toUpperCase().
module _ (crypto : Crypto) (iso year : ℕ → String) (cut_24 : String → String) where
  open crypto use {sha256}

  abbrev unsigned_certificate : (now : ℕ) (tag : String) → BadgeOptions → WorkflowTrustCertificate
  unsigned_certificate now tag opts = record {
    certificate_id = "QEV-" <> year now <> "-" <> tag;
    subject = record { legal_name = opts.legal_name; domain = opts.domain };
    level = opts.level;
    public_label = public_badge_label opts.level;
    scope = opts.scope;
    controls = opts.controls;
    issued_at = iso now;
    expires_at = iso (now + or_else opts.ttl_days 90 * 86400000);
    last_health_check = some (iso now);
    status = active;
    assessor = assessor_for opts.level;
    exceptions = or_else opts.exceptions (
        "Not an independent security audit"
        ∷ "Does not cover company systems outside declared scope" ∷ []);
    revocation_reason = none;
    public_key_fingerprint = cut_24 opts.signing_key.public_key;
    signature = none;
    certificate_sha256 = "";
    badge_disclaimer =
        "The badge graphic proves nothing. Only the linked signed certificate and live status matter. Scope is limited to the named workflow.";
  }

  unfoldable pub hashed_certificate :
      (now : ℕ) (tag : String) → BadgeOptions → WorkflowTrustCertificate
  unfolding canonical_json hashed_json
  hashed_certificate now tag opts =
      let base = unsigned_certificate now tag opts in
      record base { certificate_sha256 = sha256 (canonical_json (hashed_json base)) }

  unfoldable pub with_badge_signature :
      WorkflowTrustCertificate → Option PackageSignature → Result WorkflowTrustCertificate
  with_badge_signature c none = threw bad_text
  with_badge_signature c (some s) = returned (record c { signature = some s })

  unfoldable pub issue_asserted :
      Option String → (now : ℕ) (tag : String) → BadgeOptions → Result WorkflowTrustCertificate
  unfolding with_badge_signature hashed_certificate badge_payload sign_package_payload
  issue_asserted (some message) now tag opts = threw message
  issue_asserted none now tag opts =
      let c = hashed_certificate now tag opts in
      with_badge_signature c
        (sign_package_payload crypto (badge_payload c) (iso now) opts.signing_key)

  unfoldable pub issue_workflow_certificate :
      (now : ℕ) (tag : String) → BadgeOptions → Result WorkflowTrustCertificate
  unfolding issue_asserted
  issue_workflow_certificate now tag opts = issue_asserted (assert_issuable opts.level) now tag opts

abbrev badge_color : TrustCertStatus → String
badge_color active = "#3ecf8e"
badge_color suspended = "#f07178"
badge_color revoked = "#f07178"
badge_color _ = "#e6b84d"

pub record BadgeImage : Type 0 where
  pub label : String
  pub scope_short : String
  pub status : TrustCertStatus
  pub verify_url : String

badge_svg : BadgeImage → String
badge_svg opts =
    "<?xml version=\"1.0\" encoding=\"UTF-8\"?>\n"
    <> "<svg xmlns=\"http://www.w3.org/2000/svg\" width=\"320\" height=\"72\" role=\"img\" aria-label=\""
    <> opts.label
    <> "\">\n  <title>"
    <> opts.label
    <> " — verify at "
    <> opts.verify_url
    <> "</title>\n  <rect width=\"320\" height=\"72\" rx=\"8\" fill=\"#1a222c\" stroke=\""
    <> badge_color opts.status
    <> "\" />\n  <text x=\"16\" y=\"28\" fill=\"#e7eef7\" font-family=\"system-ui,sans-serif\" font-size=\"14\" font-weight=\"700\">"
    <> opts.label
    <> "</text>\n  <text x=\"16\" y=\"48\" fill=\"#8b9bb0\" font-family=\"system-ui,sans-serif\" font-size=\"10\">"
    <> opts.scope_short
    <> "</text>\n  <text x=\"16\" y=\"64\" fill=\"#8b9bb0\" font-family=\"system-ui,sans-serif\" font-size=\"9\">Status: "
    <> status_text opts.status
    <> " · Certificate is evidence, not this image</text>\n</svg>"
