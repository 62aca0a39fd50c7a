-- ===== src/Trust/Certificate.antt =====
-- packages/trust/src/seal-certificate.ts: the certificate of a sealed package.
use qev_platform.Base.{
  ℕ, String, Option, none, some, List, [], ◌∷◌, ◌<>◌, or_else, length, decimal, map,
}
use qev_platform.Json.{Json, num, str, obj, end, field, optional, canonical_json}
use qev_platform.Event.{QevArtifact, QevKnownGap, EvidenceBundle}
use qev_platform.Bundle.Encode.{list, known_gap}
use qev_platform.Gateway.Store.{PackageKind, primary, supplemental}
use qev_platform.Core.Signing.{SigningKeyPair, PackageSignature, Crypto, sign_package_payload}
use qev_platform.Core.PackageFile.{Vaults, QevPackageFile, payload_of}

pub record CompletenessSnapshot : Type 0 where
  pub percent : ℕ
  pub required_present : ℕ
  pub required_total : ℕ
  pub required_missing : Option (List String)
  pub missing : Option (List String)

pub record Fingerprint : Type 0 where
  pub name : String
  pub sha256 : String

pub record EvidenceCompleteness : Type 0 where
  pub percent : ℕ
  pub required_present : ℕ
  pub required_total : ℕ
  pub missing : List String

-- `schema` is the constant "qev.package-seal-certificate.v1", and is not a field.
pub record PackageSealCertificate : Type 0 where
  pub certificate_id : String
  pub package_id : String
  pub package_hash : String
  pub vault_sha256 : String
  pub qev_gateway_version : String
  pub qev_core_version : String
  pub tenant_id : String
  pub key_id : String
  pub flow_id : String
  pub case_id : String
  pub created_at : String
  pub sealed_at : String
  pub signature : PackageSignature
  pub signature_result : String
  pub artifact_count : ℕ
  pub artifact_fingerprints : List Fingerprint
  pub evidence_completeness : EvidenceCompleteness
  pub known_gaps : List QevKnownGap
  pub package_kind : PackageKind
  pub parent_package_id : Option String
  pub verification_instructions : List String
  pub does_not_claim : List String
  pub certificate_sha256 : String

pub record CertificateOptions (vaults : Vaults) : Type 0 where
  pub pkg : QevPackageFile vaults
  pub bundle : EvidenceBundle
  pub signing_key : SigningKeyPair
  pub completeness : Option CompletenessSnapshot
  pub gateway_version : Option String
  pub package_kind : Option PackageKind
  pub parent_package_id : Option String

-- xs ?? ys
abbrev either_list : Option (List String) → Option (List String) → List String
either_list (some xs) ys = xs
either_list none ys = or_else ys []

abbrev pub completeness_of : Option CompletenessSnapshot → EvidenceCompleteness
completeness_of none = record {
  percent = 0;
  required_present = 0;
  required_total = 0;
  missing = [];
}
completeness_of (some c) = record {
  percent = c.percent;
  required_present = c.required_present;
  required_total = c.required_total;
  missing = either_list c.required_missing c.missing;
}

abbrev number : ℕ → Json
number n = num (decimal n)

abbrev pub fingerprint_of : QevArtifact → Fingerprint
fingerprint_of a = record { name = a.name; sha256 = a.sha256 }

abbrev fingerprint_json : Fingerprint → Json
fingerprint_json a = obj (field "name" (str a.name) (field "sha256" (str a.sha256) end))

abbrev kind_text : PackageKind → String
kind_text primary = "primary"
kind_text supplemental = "supplemental"

abbrev signature_json : PackageSignature → Json
signature_json s = obj (
    field "algorithm" (str s.algorithm) (
      field "key_id" (str s.key_id) (
        field "public_key" (str s.public_key) (
          field "signature" (str s.signature) (
            field "signed_at" (str s.signed_at)
              (field "payload_sha256" (str s.payload_sha256) end))))))

completeness_json : EvidenceCompleteness → Json
unfolding decimal
completeness_json c = obj (
    field "percent" (number c.percent) (
      field "required_present" (number c.required_present) (
        field "required_total" (number c.required_total)
          (field "missing" (list str c.missing) end))))

-- A certificate as it is hashed: with an empty hash.
unfoldable pub sealed_json : PackageSealCertificate → Json
unfolding completeness_json known_gap decimal
sealed_json c = obj (
    field "schema" (str "qev.package-seal-certificate.v1") (
      field "certificate_id" (str c.certificate_id) (
        field "package_id" (str c.package_id) (
          field "package_hash" (str c.package_hash) (
            field "vault_sha256" (str c.vault_sha256) (
              field "qev_gateway_version" (str c.qev_gateway_version) (
                field "qev_core_version" (str c.qev_core_version) (
                  field "issuing_organization"
                    (obj (field "tenant_id" (str c.tenant_id) (field "key_id" (str c.key_id) end)))
                    (field "flow_id" (str c.flow_id) (
                      field "case_id" (str c.case_id) (
                        field "created_at" (str c.created_at) (
                          field "sealed_at" (str c.sealed_at) (
                            field "signature_result" (str c.signature_result) (
                              field "artifact_count" (number c.artifact_count) (
                                field "artifact_fingerprints"
                                  (list fingerprint_json c.artifact_fingerprints)
                                  (field "evidence_completeness"
                                    (completeness_json c.evidence_completeness)
                                    (field "known_gaps" (list known_gap c.known_gaps) (
                                      field "package_kind" (str (kind_text c.package_kind)) (
                                        field "parent_package_id" (optional c.parent_package_id) (
                                          field "verification_instructions"
                                            (list str c.verification_instructions)
                                            (field "does_not_claim" (list str c.does_not_claim) (
                                              field "signature" (signature_json c.signature) (
                                                field "certificate_sha256" (str "")
                                                  end)))))))))))))))))))))))

-- `package_text` is JSON.stringify of the package.
module _ (crypto : Crypto) (vaults : Vaults) (package_text : QevPackageFile vaults → String) where
  open crypto use {sha256}

  abbrev signed_certificate :
      (now : String) → CertificateOptions vaults → PackageSignature → PackageSealCertificate
  signed_certificate now opts signature =
      let arts = map fingerprint_of (or_else opts.bundle.artifacts []) in
      record {
        certificate_id = "SEAL-" <> opts.pkg.package_id;
        package_id = opts.pkg.package_id;
        package_hash = sha256 (package_text opts.pkg);
        vault_sha256 = opts.pkg.vault_sha256;
        qev_gateway_version = or_else opts.gateway_version "0.3.0";
        qev_core_version = "0.1.0";
        tenant_id = opts.pkg.tenant_id;
        key_id = opts.signing_key.key_id;
        flow_id = opts.pkg.flow_id;
        case_id = opts.pkg.case_id;
        created_at = opts.pkg.created_at;
        sealed_at = now;
        signature = signature;
        signature_result = "valid_when_verified";
        artifact_count = length arts;
        artifact_fingerprints = arts;
        evidence_completeness = completeness_of opts.completeness;
        known_gaps = opts.bundle.known_gaps;
        package_kind = or_else opts.package_kind primary;
        parent_package_id = opts.parent_package_id;
        verification_instructions =
            "1. Obtain the .qevpkg.json file and this certificate."
            ∷ "2. Verify package_signature with the issuing public key (Ed25519)."
            ∷ "3. Confirm vault_sha256 matches the sealed vault JSON."
            ∷ "4. Decrypt with an authorized unlock method."
            ∷ "5. Verify evidence integrity.events_sha256 and integrity.bundle_sha256."
            ∷ "6. Review multi-verdict output; content truth is not independently determined." ∷ [];
        does_not_claim =
            "Truth of source-system content" ∷ "Company-wide security posture"
            ∷ "Legal privilege or court admissibility" ∷ "That unlogged actions never occurred"
            ∷ [];
        certificate_sha256 = "";
      }

  unfoldable pub finished_seal :
      (now : String) → CertificateOptions vaults → PackageSignature → PackageSealCertificate
  unfolding canonical_json sealed_json
  finished_seal now opts signature =
      let c = signed_certificate now opts signature in
      record c { certificate_sha256 = sha256 (canonical_json (sealed_json c)) }

  unfoldable pub hashed_seal :
      (now : String)
      → CertificateOptions vaults
      → Option PackageSignature
      → Option PackageSealCertificate
  unfolding finished_seal
  hashed_seal now opts none = none
  hashed_seal now opts (some signature) = some (finished_seal now opts signature)

  -- `none` is the error of a private key that cannot be read.
  unfoldable pub build_package_seal_certificate :
      (now : String) → CertificateOptions vaults → Option PackageSealCertificate
  unfolding hashed_seal sign_package_payload
  build_package_seal_certificate now opts =
      hashed_seal now opts
        (sign_package_payload crypto (payload_of crypto vaults opts.pkg) now opts.signing_key)
