-- ===== src/Gateway/Report.antt =====
-- apps/gateway/src/server.ts: verifyPackageFull, the answer of the gateway on a package and a passphrase.
use qev_platform.Base.{
  String, ◌==◌, Bool, true, false, not, ◌&&◌, Option, none, some, List, [], ◌∷◌, ◌++◌, ◌<>◌,
  if◌then◌else◌, map, filter,
}
use qev_platform.Event.{EvidenceBundle}
use qev_platform.Flow.{FlowPack, field_service_pack}
use qev_platform.Bundle.Verify.{BundleVerifyReport, verify_evidence_bundle}
use qev_platform.Core.Signing.{Result, returned, threw, Crypto}
use qev_platform.Core.PackageFile.{
  Vaults, QevPackageFile, SignatureReport, Opened, verify_outer_package_signature,
  open_evidence_package,
}
use qev_platform.Trust.Levels.{VerdictLevel, verified, failed}
use qev_platform.Trust.Verdicts.{
  VerdictLine, VerdictOptions, MultiVerdictReport, build_multi_verdict,
}

-- The parts of the answer that stand only where decryption worked.
pub record Evidence : Type 0 where
  pub package_signer : SignatureReport
  pub bundle : BundleVerifyReport
  pub multi_verdict : MultiVerdictReport

pub record PackageReport : Type 0 where
  pub package_id : String
  pub vault_sha256_ok : Bool
  pub decrypt_ok : Bool
  pub evidence : Option Evidence
  pub claims : List String
  pub failures : List String
  pub overall_ok : Bool
  pub does_not_prove : List String

abbrev is_verified : VerdictLevel → Bool
is_verified verified = true
is_verified _ = false

abbrev pub is_failed : VerdictLevel → Bool
is_failed failed = true
is_failed _ = false

abbrev claims_of : List VerdictLine → List String
claims_of lines =
    map (λ (l : VerdictLine). l.label <> ": " <> l.detail)
      (filter (λ (l : VerdictLine). is_verified l.level) lines)

abbrev pub closed_report : (package_id message : String) → PackageReport
closed_report package_id message = record {
  package_id = package_id;
  vault_sha256_ok = false;
  decrypt_ok = false;
  evidence = none;
  claims = [];
  failures = message ∷ [];
  overall_ok = false;
  does_not_prove = "anything — decrypt failed (wrong passphrase or corrupted vault)" ∷ [];
}

abbrev pub unless_ok : Bool → String → List String
unless_ok true message = []
unless_ok false message = message ∷ []

abbrev pub pack_for : String → Option FlowPack
pack_for flow_id = if flow_id == "field-service" then some field_service_pack else none

module _ {vaults : Vaults} where
  abbrev pub verdict_options :
      (shadow_mode : Bool)
      → QevPackageFile vaults
      → (vault_ok : Bool) → SignatureReport
      → EvidenceBundle
      → VerdictOptions vaults
  verdict_options shadow_mode pkg vault_ok signer bundle = record {
    pkg = pkg;
    bundle = bundle;
    vault_sha256_ok = vault_ok;
    flow_pack = pack_for pkg.flow_id;
    shadow_mode = some shadow_mode;
    package_signer = some (record { level = signer.level; detail = signer.detail });
  }

  abbrev pub opened_report :
      QevPackageFile vaults
      → (vault_ok : Bool) → SignatureReport
      → BundleVerifyReport
      → MultiVerdictReport
      → PackageReport
  opened_report pkg vault_ok signer report multi = record {
    package_id = pkg.package_id;
    vault_sha256_ok = vault_ok;
    decrypt_ok = true;
    evidence = some (record { package_signer = signer; bundle = report; multi_verdict = multi });
    claims = claims_of multi.lines;
    failures =
        unless_ok vault_ok "vault_sha256 mismatch"
        ++ (unless_ok (not (is_failed signer.level)) signer.detail ++ report.failures);
    overall_ok = vault_ok && (report.overall_ok && not (is_failed signer.level));
    does_not_prove = multi.overall_not_safe_to_rely_for;
  }

-- `parse` is JSON.parse of a bundle, `none` the error that it throws.
module _ (crypto : Crypto) (vaults : Vaults) (parse : String → Option EvidenceBundle)
    (locale_lt : String → String → Bool) (shadow_mode : Bool) where
  open crypto use {sha256}

  unfoldable pub report_bundle :
      QevPackageFile vaults → (vault_ok : Bool) → Option EvidenceBundle → Option PackageReport
  unfolding build_multi_verdict verify_evidence_bundle verify_outer_package_signature
  report_bundle pkg vault_ok none = none
  report_bundle pkg vault_ok (some bundle) =
      let signer = verify_outer_package_signature crypto vaults pkg in
      some (
        opened_report pkg vault_ok signer (verify_evidence_bundle sha256 bundle) (
          build_multi_verdict sha256 locale_lt
            (verdict_options shadow_mode pkg vault_ok signer bundle)))

  unfoldable pub report_opened : QevPackageFile vaults → Result Opened → Option PackageReport
  unfolding report_bundle
  report_opened pkg (threw message) = some (closed_report pkg.package_id message)
  report_opened pkg (returned opened) =
      report_bundle pkg opened.vault_sha256_ok (parse opened.evidence_json)

  -- `none` is the error of a decrypted text that is no JSON, which is not caught.
  unfoldable pub verify_package_full :
      QevPackageFile vaults → (passphrase : String) → Option PackageReport
  unfolding report_opened open_evidence_package
  verify_package_full pkg passphrase =
      report_opened pkg (open_evidence_package crypto vaults pkg passphrase)
