-- ===== src/Trust/Issued.antt =====
-- packages/trust/src/workflow-badge.ts: which certificates are issued, and that those check.
use qev_platform.Base.{ℕ, String, ◌≡◌, ◌⊎◌, inl, inr, refl, true, none, some}
use qev_platform.Json.{canonical_json}
use qev_platform.Core.Signing.{
  returned, threw, PackageSignature, Crypto, encode, verify_package_signature,
}
use qev_platform.Core.Authentic.{IsBase64, AreKeys, signed, sign_lem, verify-sign}
use qev_platform.Trust.Badges.{
  TrustBadgeLevel, qev_compatible, qev_pilot_configuration_passed, qev_verified_workflow,
  qev_protected_workflow, qev_independently_assessed, WorkflowTrustCertificate, BadgeOptions,
  assert_issuable, hashed_json, badge_payload, hashed_certificate, with_badge_signature,
  issue_asserted, issue_workflow_certificate,
}

abbrev pub IsEarned : TrustBadgeLevel → Type 0
IsEarned level = (level ≡ qev_compatible) ⊎ (level ≡ qev_pilot_configuration_passed)

IsEarned-or_not :
    (level : TrustBadgeLevel)
    → (IsEarned level × (assert_issuable level ≡ none))
      ⊎ ((m : String) × (assert_issuable level ≡ some m))
IsEarned-or_not qev_compatible = inl (inl refl, refl)
IsEarned-or_not qev_pilot_configuration_passed = inl (inr refl, refl)
IsEarned-or_not qev_verified_workflow = inr (_, refl)
IsEarned-or_not qev_protected_workflow = inr (_, refl)
IsEarned-or_not qev_independently_assessed = inr (_, refl)

-- A certificate of the level whose recorded hash is that of its content and whose signature is
-- verified on what it covers.
pub record IsChecked (crypto : Crypto) (level : TrustBadgeLevel) (c : WorkflowTrustCertificate)
    : Type 0 where
  pub signature : PackageSignature
  pub leveled : c.level ≡ level
  pub hashed : crypto.sha256 (canonical_json (hashed_json c)) ≡ c.certificate_sha256
  pub signs : c.signature ≡ some signature
  pub accepted : (verify_package_signature crypto (badge_payload c) signature).0 ≡ true

module _ (crypto : Crypto) (base64 : IsBase64 crypto) (secret public_bytes : crypto.Bytes)
    (keys : AreKeys crypto secret public_bytes) (opts : BadgeOptions)
    (private_text : opts.signing_key.private_key ≡ encode crypto secret)
    (public_text : opts.signing_key.public_key ≡ encode crypto public_bytes) (iso year : ℕ → String)
    (cut_24 : String → String) where
  issue-IsChecked :
      (now : ℕ) (tag : String)
      → (c : WorkflowTrustCertificate) × (issue_asserted crypto iso year cut_24 none now tag opts
          ≡ returned c)
        × IsChecked crypto opts.level c
  unfolding issue_asserted with_badge_signature hashed_certificate hashed_json badge_payload
  issue-IsChecked now tag =
      let key = opts.signing_key in
      let c = hashed_certificate crypto iso year cut_24 now tag opts in
      let s =
        signed crypto base64 secret public_bytes keys key private_text public_text (badge_payload c)
          (iso now) in
      (
        record c { signature = some s },
        rw
            (sign_lem crypto base64 secret public_bytes keys key private_text public_text
              (badge_payload c) (iso now))
            refl,
        record {
          signature = s;
          leveled = refl;
          hashed = refl;
          signs = refl;
          accepted =
              verify-sign crypto base64 secret public_bytes keys key private_text public_text
                (badge_payload c) (iso now);
        },
      )

  -- A certificate is issued only for the two levels that may be issued now, and then it checks; for
  -- every other level the call throws.
  pub issue_workflow_certificate_lem :
      (now : ℕ) (tag : String)
      → (IsEarned opts.level
          × (c : WorkflowTrustCertificate) × (issue_workflow_certificate crypto iso year cut_24 now
                tag opts
              ≡ returned c)
          × IsChecked crypto opts.level c)
        ⊎ ((m : String) × (issue_workflow_certificate crypto iso year cut_24 now tag opts
              ≡ threw m))
  unfolding issue_workflow_certificate issue_asserted
  issue_workflow_certificate_lem now tag = elim (IsEarned-or_not opts.level) [
    | inl earned ↦
        let (c, issued, checked) = issue-IsChecked now tag in
        inl (earned.0, c, rw (earned.1) issued, checked)
    | inr refused ↦ inr (refused.0, rw (refused.1) refl)
  ]
