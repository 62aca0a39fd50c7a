-- ===== src/Gateway/Reported/Tests.antt =====
-- apps/gateway/src/server.ts: the report on a package that was built, sealed and signed.
use qev_platform.Base.{
  String, ◌≡◌, ◌↔◌, refl, Bool, true, false, Option, none, some, [], ◌∷◌, eqb, length,
}
use qev_platform.Event.{EvidenceBundle}
use qev_platform.Event.Samples.{event_of}
use qev_platform.Bundle.Build.{BuildOptions, finished_bundle}
use qev_platform.Core.PackageFile.{QevPackageFile, unsigned_package, open_evidence_package}
use qev_platform.Core.Samples.{crypto, vaults, seal_options}
use qev_platform.Gateway.Report.{PackageReport, closed_report, report_opened, verify_package_full}
use qev_platform.Gateway.Reported.{report_ok_iff}

abbrev built : BuildOptions
built = record {
  events = event_of "evt_1" "field-service" "job.created" ∷ [];
  decisions = none;
  package_id = none;
  flow_pack_version = none;
  title = none;
}

abbrev bundle : EvidenceBundle
bundle =
    finished_bundle crypto.sha256 "pkg_1" "now" built
      (event_of "evt_1" "field-service" "job.created")

abbrev parse : String → Option EvidenceBundle
parse text = some bundle

abbrev earlier : String → String → Bool
earlier s t = false

abbrev unsealed : QevPackageFile vaults
unsealed = unsigned_package crypto vaults "now" seal_options ("{}", "secret")

abbrev refused : PackageReport
refused = closed_report "pkg_1" "decryption failed"

wrong_password :
    verify_package_full crypto vaults parse earlier true unsealed "guess" ≡ some refused
unfolding verify_package_full report_opened open_evidence_package
wrong_password = refl

report_ok_iff_example : (refused.overall_ok ≡ true) ↔ (eqb (length refused.failures) 0 ≡ true)
report_ok_iff_example =
    report_ok_iff crypto vaults parse earlier true unsealed "guess" refused wrong_password
