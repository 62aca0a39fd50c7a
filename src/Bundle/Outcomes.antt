-- ===== src/Bundle/Outcomes.antt =====
-- packages/evidence-bundle/src/build.ts: the outcome of a bundle.
use qev_platform.Base.{
  ◌≡◌, ◌↔◌, refl, Bool, true, false, List, [], ◌∷◌, any, if◌then◌else◌, Bool-cases, inl, inr, All,
}
use qev_platform.Event.{QevEvent, QevKnownGap, BundleOutcome, complete, incomplete, failed}
use qev_platform.Bundle.Build.{
  outcome_of, is_blocked, is_failure, is_critical, gaps_of, any_blocked, any_failure, any_critical,
}

-- A predicate that fails on every element.
any-false {ℓ} :
    {A : Type ℓ} (p : A → Bool) (xs : List A) → (any p xs ≡ false) ↔ All (λ x. p x ≡ false) xs
any-false p [] = ((λ _. tt), (λ _. refl))
any-false p (x ∷ xs) = elim (Bool-cases (p x)) [
  | inl e ↦ rw e ((λ h. cc), (λ h. cc))
  | inr e ↦ rw e ((λ h. (refl, (any-false p xs).0 h)), (λ h. (any-false p xs).1 h.1))
]

-- An event that was neither blocked nor failed.
pub record IsFine (e : QevEvent) : Type 0 where
  pub not_blocked : is_blocked e.outcome ≡ false
  pub not_failed : is_failure e.outcome ≡ false

IsFine-join :
    (events : List QevEvent)
    → All (λ e. is_blocked e.outcome ≡ false) events
    → All (λ e. is_failure e.outcome ≡ false) events
    → All IsFine events
IsFine-join [] b f = tt
IsFine-join (e ∷ events) b f =
    (record { not_blocked = b.0; not_failed = f.0 }, IsFine-join events b.1 f.1)

IsFine-split :
    (events : List QevEvent)
    → All IsFine events
    → All (λ e. is_blocked e.outcome ≡ false) events
      × All (λ e. is_failure e.outcome ≡ false) events
IsFine-split [] h = (tt, tt)
IsFine-split (e ∷ events) h =
    let (b, f) = IsFine-split events h.1 in ((h.0.not_blocked, b), (h.0.not_failed, f))

complete_iff :
    (b f c : Bool)
    → ((if b
          then BundleOutcome.blocked
          else if f
          then failed
          else if c
          then incomplete
          else complete)
        ≡ complete)
      ↔ ((b ≡ false) × (f ≡ false) × (c ≡ false))
complete_iff true f c = ((λ h. cc), (λ h. cc))
complete_iff false true c = ((λ h. cc), (λ h. cc))
complete_iff false false true = ((λ h. cc), (λ h. cc))
complete_iff false false false = ((λ h. (refl, refl, refl)), (λ h. refl))

-- A bundle's outcome is `complete` exactly if none of its events was blocked or failed and none of
-- the gaps they record is critical.
pub outcome_complete_iff :
    (events : List QevEvent)
    → (outcome_of events ≡ complete)
      ↔ (All IsFine events × All (λ g. is_critical g.severity ≡ false) (gaps_of events))
unfolding outcome_of
outcome_complete_iff events =
    let iff = complete_iff (any_blocked events) (any_failure events) (any_critical events) in
    let blocked = any-false (λ (e : QevEvent). is_blocked e.outcome) events in
    let failure = any-false (λ (e : QevEvent). is_failure e.outcome) events in
    let gaps = any-false (λ (g : QevKnownGap). is_critical g.severity) (gaps_of events) in
    (
      (λ h. let (b, f, c) = iff.0 h in (IsFine-join events (blocked.0 b) (failure.0 f), gaps.0 c)),
      (λ h. let (b, f) = IsFine-split events h.0 in iff.1 (blocked.1 b, failure.1 f, gaps.1 h.1)),
    )
