-- ===== src/Bundle/Verify.antt =====
-- packages/evidence-bundle/src/verify.ts: what a bundle's hashes and fingerprints say of it.
use Prim.Native.Char.{code}
use qev_platform.Base.{
  ℕ, suc, String, ◌==◌, Bool, true, false, ◌&&◌, ◌||◌, List, [], ◌∷◌, ◌++◌, ◌<>◌, leb, eqb,
  if◌then◌else◌, or_else, length,
}
use qev_platform.Json.{canonical_json}
use qev_platform.Event.{QevArtifact, EvidenceBundle}
use qev_platform.Bundle.Encode.{events_json, bundle_json}
use qev_platform.Bundle.Build.{with_bundle_hash}

pub record BundleVerifyReport : Type 0 where
  pub schema_ok : Bool
  pub events_hash_ok : Bool
  pub bundle_hash_ok : Bool
  pub known_gaps : ℕ
  pub event_count : ℕ
  pub claims : List String
  pub failures : List String
  pub overall_ok : Bool

abbrev is_hex : ℕ → Bool
is_hex n = (leb 0x61 n && leb n 0x66) || (leb 0x30 n && leb n 0x39)

abbrev all_hex : String → Bool
all_hex String.[] = true
all_hex (String.◌∷◌ c s) = is_hex (code c) && all_hex s

abbrev count : String → ℕ
count String.[] = 0
count (String.◌∷◌ c s) = suc (count s)

-- /^[a-f0-9]{64}$/
unfoldable pub is_sha256 : String → Bool
is_sha256 s = eqb (count s) 64 && all_hex s

-- A list with one message if the test has the given result.
abbrev pub message : Bool → Bool → String → List String
message true true m = m ∷ []
message false false m = m ∷ []
message _ _ m = []

-- The messages about artifacts that are well formed, or those about the others.
unfoldable pub artifact_messages : Bool → List QevArtifact → List String
unfolding is_sha256
artifact_messages ok [] = []
artifact_messages ok (a ∷ rest) =
    message ok (is_sha256 a.sha256) (
      if ok
      then "artifact " <> a.name <> " has a well-formed sha256 fingerprint"
      else "artifact " <> a.name <> " has invalid sha256")
    ++ artifact_messages ok rest

abbrev pub schema_ok : EvidenceBundle → Bool
schema_ok bundle = bundle.schema == "QEV-EVIDENCE-BUNDLE-V1"

module _ (sha256 : String → String) where
  unfoldable pub events_hash_ok : EvidenceBundle → Bool
  unfolding canonical_json events_json
  events_hash_ok bundle =
      sha256 (canonical_json (events_json bundle.events)) == bundle.integrity.events_sha256

  unfoldable pub bundle_hash_ok : EvidenceBundle → Bool
  unfolding canonical_json bundle_json
  bundle_hash_ok bundle =
      sha256 (canonical_json (bundle_json (with_bundle_hash bundle "")))
      == bundle.integrity.bundle_sha256

  unfoldable pub verify_evidence_bundle : EvidenceBundle → BundleVerifyReport
  unfolding events_hash_ok bundle_hash_ok artifact_messages
  verify_evidence_bundle bundle =
      let failures =
        message false (schema_ok bundle) "schema is not QEV-EVIDENCE-BUNDLE-V1"
        ++ (message false (events_hash_ok bundle)
              "events content does not match integrity.events_sha256"
            ++ (message false (bundle_hash_ok bundle)
                  "bundle content does not match integrity.bundle_sha256"
                ++ artifact_messages false (or_else bundle.artifacts []))) in
      record {
        schema_ok = schema_ok bundle;
        events_hash_ok = events_hash_ok bundle;
        bundle_hash_ok = bundle_hash_ok bundle;
        known_gaps = length bundle.known_gaps;
        event_count = length bundle.events;
        claims =
            message true (schema_ok bundle) "schema is QEV-EVIDENCE-BUNDLE-V1"
            ++ (message true (events_hash_ok bundle)
                  "events content matches integrity.events_sha256"
                ++ (message true (bundle_hash_ok bundle)
                      "bundle content matches integrity.bundle_sha256"
                    ++ artifact_messages true (or_else bundle.artifacts [])));
        failures = failures;
        overall_ok = eqb (length failures) 0;
      }
