-- ===== src/Trust/Tests.antt =====
-- packages/trust/src: verdicts and certificates of concrete packages.
use qev_platform.Base.{
  ◌+◌, String, ◌≡◌, ◌↔◌, ◌⊎◌, Bool, true, false, none, some, [], ◌∷◌, eqb, length, All, contains,
  or_else, decimal,
}
use qev_platform.Event.{EvidenceBundle}
use qev_platform.Event.Samples.{event_of}
use qev_platform.Flow.{field_service_pack}
use qev_platform.Json.{canonical_json}
use qev_platform.Ops.Completeness.{actions_of}
use qev_platform.Bundle.Build.{BuildOptions, finished_bundle}
use qev_platform.Bundle.Verify.{events_hash_ok, bundle_hash_ok}
use qev_platform.Core.Signing.{returned, threw}
use qev_platform.Core.PackageFile.{
  QevPackageFile, unsigned_package, with_signature, verify_outer_package_signature,
}
use qev_platform.Core.Samples.{
  crypto, crypto-IsBase64, crypto-AreKeys, key, private_text, public_text, vaults, seal_options,
}
use qev_platform.Trust.Levels.{verified, not_determined}
use qev_platform.Trust.Verdicts.{VerdictOptions, required_of, build_multi_verdict}
use qev_platform.Trust.Honest.{verdict_on, verdicts_lem}
use qev_platform.Trust.Badges.{
  WorkflowTrustCertificate, BadgeOptions, qev_compatible, issue_workflow_certificate,
}
use qev_platform.Trust.Issued.{IsEarned, IsChecked, issue_workflow_certificate_lem}
use qev_platform.Trust.Certificate.{
  PackageSealCertificate, CertificateOptions, sealed_json, build_package_seal_certificate,
}
use qev_platform.Trust.Sealed.{build_package_seal_certificate_lem}

abbrev built : BuildOptions
built = record {
  events = event_of "evt_1" "field-service" "job.created" ∷ [];
  decisions = none;
  package_id = none;
  flow_pack_version = none;
  title = none;
}

abbrev bundle : EvidenceBundle
bundle =
    finished_bundle crypto.sha256 "pkg_1" "now" built
      (event_of "evt_1" "field-service" "job.created")

abbrev bare : QevPackageFile vaults
bare = unsigned_package crypto vaults "now" seal_options ("{}", "secret")

abbrev asked : VerdictOptions vaults
asked = record {
  pkg = bare;
  bundle = bundle;
  vault_sha256_ok = true;
  flow_pack = some field_service_pack;
  shadow_mode = some true;
  package_signer = none;
}

abbrev earlier : String → String → Bool
earlier s t = false

verdicts_lem_example :
    ((verdict_on "package_integrity" (build_multi_verdict crypto.sha256 earlier asked).lines
        ≡ some verified)
      ↔ ((true ≡ true)
          × (events_hash_ok crypto.sha256 bundle ≡ true)
          × (bundle_hash_ok crypto.sha256 bundle ≡ true)))
    × (verdict_on "content_truth" (build_multi_verdict crypto.sha256 earlier asked).lines
        ≡ some not_determined)
    × ((verdict_on "required_evidence" (build_multi_verdict crypto.sha256 earlier asked).lines
          ≡ some verified)
        ↔ ((eqb (length (required_of asked.flow_pack)) 0 ≡ false)
            × All
                (λ a. contains (actions_of bundle.events) a ≡ true)
                (required_of asked.flow_pack)))
    × ((build_multi_verdict crypto.sha256 earlier asked).required_evidence.have
          + length (build_multi_verdict crypto.sha256 earlier asked).required_evidence.missing
        ≡ (build_multi_verdict crypto.sha256 earlier asked).required_evidence.need)
verdicts_lem_example = verdicts_lem crypto.sha256 earlier asked

abbrev badge : BadgeOptions
badge = record {
  level = qev_compatible;
  legal_name = "Acme";
  domain = "acme.example";
  scope = record {
    workspace = "main";
    environment = "pilot";
    flow_id = "field-service";
    flow_version = "0.1.0";
    included_systems = "portal" ∷ [];
    excluded_systems = [];
    scope_sentence = "Field service jobs";
  };
  controls = [];
  exceptions = none;
  signing_key = key;
  ttl_days = none;
}

issue_workflow_certificate_lem_example :
    (IsEarned qev_compatible
      × (c : WorkflowTrustCertificate) × (issue_workflow_certificate crypto decimal decimal
            (λ s. s)
            5
            "AB12CD"
            badge
          ≡ returned c)
      × IsChecked crypto qev_compatible c)
    ⊎ ((m : String) × (issue_workflow_certificate crypto decimal decimal (λ s. s) 5 "AB12CD" badge
          ≡ threw m))
issue_workflow_certificate_lem_example =
    issue_workflow_certificate_lem crypto crypto-IsBase64 true false crypto-AreKeys badge
      private_text public_text decimal decimal (λ s. s) 5 "AB12CD"

abbrev certified : CertificateOptions vaults
certified = record {
  pkg = bare;
  bundle = bundle;
  signing_key = key;
  completeness = none;
  gateway_version = none;
  package_kind = none;
  parent_package_id = none;
}

abbrev text_of : QevPackageFile vaults → String
text_of pkg = pkg.package_id

build_package_seal_certificate_lem_example :
    (c : PackageSealCertificate) × (build_package_seal_certificate crypto vaults text_of "later"
        certified
      ≡ some c)
    × (c.package_id ≡ "pkg_1")
    × (c.artifact_count ≡ length (or_else bundle.artifacts []))
    × (crypto.sha256 (canonical_json (sealed_json c)) ≡ c.certificate_sha256)
    × ((verify_outer_package_signature crypto vaults
          (with_signature crypto vaults bare c.signature)).level
        ≡ verified)
build_package_seal_certificate_lem_example =
    build_package_seal_certificate_lem crypto crypto-IsBase64 true false crypto-AreKeys vaults
      text_of certified private_text public_text "later"
