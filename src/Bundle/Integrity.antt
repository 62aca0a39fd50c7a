-- ===== src/Bundle/Integrity.antt =====
-- packages/evidence-bundle/src/build.ts and verify.ts: the checks of the verifier, on any bundle and on built ones.
use qev_platform.Base.{
  ℕ, ◌+◌, String, eq_refl, ◌≡◌, ◌↔◌, suc, refl, Bool, true, false, some, List, [], ◌∷◌, ◌++◌, eqb,
  or_else, ◌<>◌, length, All, arith,
}
use mathlib.Core.Path.{subst}
use qev_platform.Event.{QevArtifact, QevEvent, EvidenceBundle}
use qev_platform.Bundle.Build.{
  BuildOptions, artifacts_of, finished_bundle, build_from, partial_bundle, build_evidence_bundle,
}
use qev_platform.Bundle.Verify.{
  is_sha256, message, artifact_messages, schema_ok, events_hash_ok, bundle_hash_ok,
  verify_evidence_bundle,
}

abbrev pub IsFingerprint : QevArtifact → Type 0
IsFingerprint a = is_sha256 a.sha256 ≡ true

message-both :
    (ok : Bool) (m n : String) (xs ys : List String) {k : ℕ}
    → length xs + length ys ≡ k
    → length (message true ok m ++ xs) + length (message false ok n ++ ys) ≡ suc k
message-both true m n xs ys e = omega (arith, e)
message-both false m n xs ys e = omega (arith, e)

three_more : (n : ℕ) → 3 + n ≡ suc (suc (suc n))
three_more n = omega arith

message-ok :
    (ok : Bool) (m : String) (rest : List String)
    → (eqb (length (message false ok m ++ rest)) 0 ≡ true)
      ↔ ((ok ≡ true) × (eqb (length rest) 0 ≡ true))
message-ok true m rest = ((λ h. (refl, h)), (λ h. h.1))
message-ok false m rest = ((λ h. absurd (ground (arith, h))), (λ h. absurd (ground (arith, h.0))))

artifact_messages-ok :
    (xs : List QevArtifact)
    → (eqb (length (artifact_messages false xs)) 0 ≡ true) ↔ All IsFingerprint xs
unfolding artifact_messages
artifact_messages-ok [] = ((λ _. tt), (λ _. refl))
artifact_messages-ok (a ∷ rest) =
    let one =
      message-ok (is_sha256 a.sha256) ("artifact " <> a.name <> " has invalid sha256")
        (artifact_messages false rest) in
    (
      (λ h. ((one.0 h).0, (artifact_messages-ok rest).0 (one.0 h).1)),
      (λ h. one.1 (h.0, (artifact_messages-ok rest).1 h.1)),
    )

artifact_messages-both :
    (xs : List QevArtifact)
    → length (artifact_messages true xs) + length (artifact_messages false xs) ≡ length xs
unfolding artifact_messages
artifact_messages-both [] = refl
artifact_messages-both (a ∷ rest) =
    message-both (is_sha256 a.sha256) _ _ (artifact_messages true rest)
      (artifact_messages false rest) (artifact_messages-both rest)

module _ (sha256 : String → String) where
  -- A bundle verifies exactly if its schema is the expected one, both hashes are those of its content and
  -- each artifact has a well-formed fingerprint.
  pub verify_iff :
      (bundle : EvidenceBundle)
      → ((verify_evidence_bundle sha256 bundle).overall_ok ≡ true) ↔ (
          (schema_ok bundle ≡ true)
          × (events_hash_ok sha256 bundle ≡ true)
          × (bundle_hash_ok sha256 bundle ≡ true)
          × All IsFingerprint (or_else bundle.artifacts []))
  unfolding verify_evidence_bundle
  verify_iff bundle =
      let artifacts = or_else bundle.artifacts [] in
      let about_artifacts = artifact_messages false artifacts in
      let about_bundle =
        message false (bundle_hash_ok sha256 bundle)
          "bundle content does not match integrity.bundle_sha256"
        ++ about_artifacts in
      let about_events =
        message false (events_hash_ok sha256 bundle)
          "events content does not match integrity.events_sha256"
        ++ about_bundle in
      let first =
        message-ok (schema_ok bundle) "schema is not QEV-EVIDENCE-BUNDLE-V1" about_events in
      let second =
        message-ok (events_hash_ok sha256 bundle)
          "events content does not match integrity.events_sha256" about_bundle in
      let third =
        message-ok (bundle_hash_ok sha256 bundle)
          "bundle content does not match integrity.bundle_sha256" about_artifacts in
      let fourth = artifact_messages-ok artifacts in
      (
        (λ h.
            let s = first.0 h in
            let e = second.0 s.1 in let b = third.0 e.1 in (s.0, e.0, b.0, fourth.0 b.1)),
        (λ h. let (s, e, b, a) = h in first.1 (s, second.1 (e, third.1 (b, fourth.1 a)))),
      )

  -- Each of the three checks and each artifact is reported once, as a claim or as a failure.
  pub verify_reports :
      (bundle : EvidenceBundle)
      → length (verify_evidence_bundle sha256 bundle).claims
          + length (verify_evidence_bundle sha256 bundle).failures
        ≡ 3 + length (or_else bundle.artifacts [])
  unfolding verify_evidence_bundle
  verify_reports bundle = rw (three_more (length (or_else bundle.artifacts []))) (
      message-both (schema_ok bundle) _ _ _ _ (
        message-both (events_hash_ok sha256 bundle) _ _ _ _ (
          message-both (bundle_hash_ok sha256 bundle) _ _ _ _
            (artifact_messages-both (or_else bundle.artifacts [])))))

module _ (sha256 : String → String) (new_id now : String) where
  build-finished :
      (opts : BuildOptions) (events : List QevEvent) (bundle : EvidenceBundle)
      → build_from sha256 new_id now opts events ≡ some bundle
      → (first : QevEvent) × (finished_bundle sha256 new_id now opts first ≡ bundle)
  build-finished opts [] bundle h = cc
  build-finished opts (first ∷ rest) bundle h = (first, cc)

  finished-verifies :
      (opts : BuildOptions) (first : QevEvent)
      → (events_hash_ok sha256 (finished_bundle sha256 new_id now opts first) ≡ true)
        × (bundle_hash_ok sha256 (finished_bundle sha256 new_id now opts first) ≡ true)
  unfolding events_hash_ok bundle_hash_ok finished_bundle partial_bundle
  finished-verifies opts first = (eq_refl _, eq_refl _)

  abbrev Verifies : BuildOptions → EvidenceBundle → Type 0
  Verifies opts bundle =
      ((verify_evidence_bundle sha256 bundle).schema_ok ≡ true)
      × ((verify_evidence_bundle sha256 bundle).events_hash_ok ≡ true)
      × ((verify_evidence_bundle sha256 bundle).bundle_hash_ok ≡ true)
      × (((verify_evidence_bundle sha256 bundle).overall_ok ≡ true)
          ↔ All IsFingerprint (artifacts_of opts.events))

  finished-Verifies :
      (opts : BuildOptions) (first : QevEvent)
      → Verifies opts (finished_bundle sha256 new_id now opts first)
  unfolding verify_evidence_bundle finished_bundle partial_bundle
  finished-Verifies opts first =
      let (events, whole) = finished-verifies opts first in
      let iff = verify_iff sha256 (finished_bundle sha256 new_id now opts first) in
      (refl, events, whole, ((λ h. (iff.0 h).3), (λ h. iff.1 (refl, events, whole, h))))

  -- A bundle that was built has the expected schema and both hashes, whatever the hash function, so it
  -- verifies exactly if the artifacts of its events have well-formed fingerprints.
  pub verify-build :
      (opts : BuildOptions) (bundle : EvidenceBundle)
      → build_evidence_bundle sha256 new_id now opts ≡ some bundle
      → ((verify_evidence_bundle sha256 bundle).schema_ok ≡ true)
        × ((verify_evidence_bundle sha256 bundle).events_hash_ok ≡ true)
        × ((verify_evidence_bundle sha256 bundle).bundle_hash_ok ≡ true)
        × (((verify_evidence_bundle sha256 bundle).overall_ok ≡ true)
            ↔ All IsFingerprint (artifacts_of opts.events))
  unfolding build_evidence_bundle
  verify-build opts bundle h =
      let (first, e) = build-finished opts opts.events bundle h in
      subst (Verifies opts) e (finished-Verifies opts first)
