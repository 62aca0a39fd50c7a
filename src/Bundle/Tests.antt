-- ===== src/Bundle/Tests.antt =====
-- Bundles at concrete inputs.
use qev_platform.Base.{String, ◌≡◌, ◌↔◌, refl, true, none, some, List, [], ◌∷◌, All}
use qev_platform.Event.{QevEvent, QevArtifact, EvidenceBundle}
use qev_platform.Event.Samples.{event_of}
use qev_platform.Flow.{field_service_pack}
use qev_platform.Ops.Completeness.{evaluate_completeness}
use qev_platform.Bundle.Build.{BuildOptions, artifacts_of, finished_bundle, build_evidence_bundle}
use qev_platform.Bundle.Verify.{verify_evidence_bundle}
use qev_platform.Bundle.Integrity.{IsFingerprint, verify-build}

abbrev hash : String → String
hash s = "d"

abbrev picture : QevArtifact
picture = record {
  name = "before.jpg";
  sha256 = "d";
  media_type = none;
  size_bytes = some 10;
  uri = none;
}

abbrev job : QevEvent
job = record (event_of "evt_1" "field-service" "job.created") { artifacts = some (picture ∷ []) }

abbrev opts : BuildOptions
opts = record {
  events = job ∷ event_of "evt_2" "field-service" "work.completed" ∷ [];
  decisions = none;
  package_id = none;
  flow_pack_version = none;
  title = none;
}

abbrev bundle : EvidenceBundle
bundle = finished_bundle hash "pkg_1" "now" opts job

built : build_evidence_bundle hash "pkg_1" "now" opts ≡ some bundle
unfolding build_evidence_bundle
built = refl

verify-build_example :
    ((verify_evidence_bundle hash bundle).schema_ok ≡ true)
    × ((verify_evidence_bundle hash bundle).events_hash_ok ≡ true)
    × ((verify_evidence_bundle hash bundle).bundle_hash_ok ≡ true)
    × (((verify_evidence_bundle hash bundle).overall_ok ≡ true)
        ↔ All IsFingerprint (artifacts_of opts.events))
verify-build_example = verify-build hash "pkg_1" "now" opts bundle built

abbrev whole_case : List QevEvent
whole_case =
    event_of "evt_1" "field-service" "job.created"
    ∷ event_of "evt_2" "field-service" "estimate.approved"
    ∷ event_of "evt_3" "field-service" "evidence.before_captured"
    ∷ event_of "evt_4" "field-service" "work.completed"
    ∷ event_of "evt_5" "field-service" "evidence.after_captured"
    ∷ event_of "evt_6" "field-service" "scope.changed"
    ∷ []

whole_case_complete :
    (evaluate_completeness whole_case field_service_pack "JOB-1").complete_for_seal ≡ true
unfolding evaluate_completeness
whole_case_complete = refl
