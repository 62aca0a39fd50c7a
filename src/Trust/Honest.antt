-- ===== src/Trust/Honest.antt =====
-- packages/trust/src/verdicts.ts: what the single verdicts of a report depend on.
use qev_platform.Base.{
  ◌+◌, String, ◌≡◌, ◌↔◌, ◌==◌, refl, Bool, true, false, not, ◌&&◌, Option, none, some, List, [],
  ◌∷◌, eqb, if◌then◌else◌, length, contains, All, arith, length-filter-le,
}
use qev_platform.Ops.Completeness.{actions_of, missing-zero}
use qev_platform.Bundle.Verify.{events_hash_ok, bundle_hash_ok, verify_evidence_bundle}
use qev_platform.Core.PackageFile.{Vaults}
use qev_platform.Trust.Levels.{
  VerdictLevel, verified, partial, failed, not_applicable, not_determined,
}
use qev_platform.Trust.Verdicts.{
  VerdictLine, VerdictOptions, missing_of, required_of, required_line, verdict_lines,
  build_multi_verdict,
}

-- The first verdict under an identifier.
unfoldable pub verdict_on : String → List VerdictLine → Option VerdictLevel
verdict_on id [] = none
verdict_on id (line ∷ rest) = if line.id == id then some line.level else verdict_on id rest

three_checks :
    (a b c : Bool)
    → (◌≡◌ {A = Option VerdictLevel}
        (some (if a && (b && c) then verified else failed))
        (some verified))
      ↔ ((a ≡ true) × (b ≡ true) × (c ≡ true))
three_checks true true true = ((λ _. (refl, refl, refl)), (λ _. refl))
three_checks false b c = ((λ h. absurd cc), (λ h. absurd cc))
three_checks true false c = ((λ h. absurd cc), (λ h. absurd cc))
three_checks true true false = ((λ h. absurd cc), (λ h. absurd cc))

two_checks :
    (empty full : Bool)
    → (◌≡◌ {A = Option VerdictLevel}
        (some (if empty then not_applicable else if full then verified else partial))
        (some verified))
      ↔ ((empty ≡ false) × (full ≡ true))
two_checks true full = ((λ h. absurd cc), (λ h. absurd cc))
two_checks false true = ((λ _. (refl, refl)), (λ _. refl))
two_checks false false = ((λ h. absurd cc), (λ h. absurd cc))

module _ {vaults : Vaults} (sha256 : String → String) (locale_lt : String → String → Bool)
    (opts : VerdictOptions vaults) where
  -- The integrity of a package is called verified exactly if the hash of its vault and both hashes of
  -- its bundle are right, and the truth of its content is never determined. Its required evidence is
  -- called verified exactly if its flow requires an action and every required action is that of one of
  -- its events; the actions that it has and those that are missing add up to the actions required.
  pub verdicts_lem :
      ((verdict_on "package_integrity" (build_multi_verdict sha256 locale_lt opts).lines
          ≡ some verified)
        ↔ ((opts.vault_sha256_ok ≡ true)
            × (events_hash_ok sha256 opts.bundle ≡ true)
            × (bundle_hash_ok sha256 opts.bundle ≡ true)))
      × (verdict_on "content_truth" (build_multi_verdict sha256 locale_lt opts).lines
          ≡ some not_determined)
      × ((verdict_on "required_evidence" (build_multi_verdict sha256 locale_lt opts).lines
            ≡ some verified)
          ↔ ((eqb (length (required_of opts.flow_pack)) 0 ≡ false)
              × All
                  (λ a. contains (actions_of opts.bundle.events) a ≡ true)
                  (required_of opts.flow_pack)))
      × ((build_multi_verdict sha256 locale_lt opts).required_evidence.have
            + length (build_multi_verdict sha256 locale_lt opts).required_evidence.missing
          ≡ (build_multi_verdict sha256 locale_lt opts).required_evidence.need)
  unfolding build_multi_verdict verdict_lines verdict_on verify_evidence_bundle required_line
  verdicts_lem =
      let required = required_of opts.flow_pack in
      let checks =
        two_checks (eqb (length required) 0)
          (eqb (length (missing_of required opts.bundle.events)) 0) in
      (
        three_checks opts.vault_sha256_ok (events_hash_ok sha256 opts.bundle)
            (bundle_hash_ok sha256 opts.bundle),
        refl,
        (
          (λ h.
              let both = checks.0 h in
              (both.0, (missing-zero (actions_of opts.bundle.events) required).0 both.1)),
          (λ h. checks.1 (h.0, (missing-zero (actions_of opts.bundle.events) required).1 h.1)),
        ),
        omega (
          arith,
          length-filter-le (λ a. not (contains (actions_of opts.bundle.events) a)) required,
        ),
      )
