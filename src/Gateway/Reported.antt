-- ===== src/Gateway/Reported.antt =====
-- apps/gateway/src/server.ts: what the report of verifyPackageFull on a package and a passphrase comes down to.
mod Tests
use mathlib.Core.Path.{subst}
use qev_platform.Base.{
  ℕ, zero, suc, ◌+◌, String, ◌≡◌, ◌↔◌, refl, Bool, true, false, not, ◌&&◌, Option, none, some, List,
  [], ◌∷◌, ◌++◌, eqb, length, arith, inl, inr, Bool-cases, ap,
}
use qev_platform.Event.{EvidenceBundle}
use qev_platform.Bundle.Verify.{
  BundleVerifyReport, events_hash_ok, bundle_hash_ok, verify_evidence_bundle,
}
use qev_platform.Core.Signing.{Result, returned, threw, Crypto}
use qev_platform.Core.PackageFile.{
  Vaults, QevPackageFile, SignatureReport, Opened, open_evidence_package,
  verify_outer_package_signature,
}
use qev_platform.Trust.Verdicts.{MultiVerdictReport}
use qev_platform.Gateway.Report.{
  PackageReport, closed_report, unless_ok, is_failed, report_bundle, report_opened,
  verify_package_full,
}

report_of_some : {a b : PackageReport} → ◌≡◌ {A = Option PackageReport} (some a) (some b) → a ≡ b
report_of_some e = cc

failures_iff :
    (a b c : Bool) (m n : String) (rest : List String)
    → c ≡ eqb (length rest) 0
    → ((a && (c && not b)) ≡ true)
      ↔ (eqb (length (unless_ok a m ++ (unless_ok (not b) n ++ rest))) 0 ≡ true)
failures_iff true false c m n rest e = rw (← e) ((λ h. ground arith), (λ h. ground arith))
failures_iff true true c m n rest e = ((λ h. absurd (ground arith)), (λ h. absurd (ground arith)))
failures_iff false b c m n rest e = ((λ h. absurd (ground arith)), (λ h. absurd (ground arith)))

abbrev Agrees : PackageReport → Type 0
Agrees r = (r.overall_ok ≡ true) ↔ (eqb (length r.failures) 0 ≡ true)

module _ (crypto : Crypto) (vaults : Vaults) (parse : String → Option EvidenceBundle)
    (locale_lt : String → String → Bool) (shadow_mode : Bool) where
  open crypto use {sha256}

  bundle-Agrees :
      (pkg : QevPackageFile vaults) (vault_ok : Bool) (bundle : Option EvidenceBundle)
      (r : PackageReport)
      → report_bundle crypto vaults parse locale_lt shadow_mode pkg vault_ok bundle ≡ some r
      → Agrees r
  unfolding report_bundle verify_evidence_bundle
  bundle-Agrees pkg vault_ok none r e = absurd cc
  bundle-Agrees pkg vault_ok (some bundle) r e =
      let signer = verify_outer_package_signature crypto vaults pkg in
      let report = verify_evidence_bundle sha256 bundle in
      let same = report_of_some e in
      subst Agrees same (
        failures_iff vault_ok (is_failed signer.level) report.overall_ok "vault_sha256 mismatch"
          signer.detail report.failures refl)

  opened-Agrees :
      (pkg : QevPackageFile vaults) (opened : Result Opened) (r : PackageReport)
      → report_opened crypto vaults parse locale_lt shadow_mode pkg opened ≡ some r
      → Agrees r
  unfolding report_opened
  opened-Agrees pkg (threw message) r e =
      subst Agrees (report_of_some e) ((λ h. absurd cc), (λ h. absurd (ground arith)))
  opened-Agrees pkg (returned opened) r e =
      bundle-Agrees pkg opened.vault_sha256_ok (parse opened.evidence_json) r e

  -- A package is reported to be in order exactly if the report lists no failure, whether or not it
  -- could be decrypted.
  pub report_ok_iff :
      (pkg : QevPackageFile vaults) (passphrase : String) (r : PackageReport)
      → verify_package_full crypto vaults parse locale_lt shadow_mode pkg passphrase ≡ some r
      → (r.overall_ok ≡ true) ↔ (eqb (length r.failures) 0 ≡ true)
  unfolding verify_package_full
  report_ok_iff pkg passphrase r e =
      opened-Agrees pkg (open_evidence_package crypto vaults pkg passphrase) r e
