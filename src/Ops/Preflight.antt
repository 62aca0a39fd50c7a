-- ===== src/Ops/Preflight.antt =====
-- packages/ops/src/preflight.ts: the checks before activation.
use qev_platform.Base.{
  ℕ, String, ◌≡◌, ◌↔◌, refl, Bool, true, false, not, ◌&&◌, Option, none, some, List, [], ◌∷◌, ◌++◌,
  arith, ◌<>◌, decimal, eqb, ltb, length, filter, if◌then◌else◌, or_else, All, All-append_iff,
  length-filter-zero,
}

pub data PreflightSeverity : Type 0 where
  critical warning info : PreflightSeverity

pub record PreflightCheck : Type 0 where
  pub id : String
  pub label : String
  pub ok : Bool
  pub severity : PreflightSeverity
  pub detail : String

pub record PreflightReport : Type 0 where
  pub checked_at : String
  pub checks : List PreflightCheck
  pub critical_failures : ℕ
  pub warnings : ℕ
  pub can_activate : Bool
  pub summary : String

-- `clock_skew` holds the skew's absolute value in whole seconds, rounded down, and how it is printed.
pub record PreflightInput : Type 0 where
  pub gateway_reachable : Bool
  pub storage_writable : Bool
  pub backup_writable : Bool
  pub signing_key_present : Bool
  pub encryption_passphrase_configured : Bool
  pub webhook_secret_configured : Bool
  pub queue_healthy : Bool
  pub case_log_chain_ok : Bool
  pub package_roundtrip_ok : Option Bool
  pub clock_skew : Option (ℕ × String)

abbrev check : (id label : String) → Bool → PreflightSeverity → (good bad : String) → PreflightCheck
check id label ok severity good bad = record {
  id = id;
  label = label;
  ok = ok;
  severity = severity;
  detail = if ok then good else bad;
}

abbrev fixed_checks : PreflightInput → List PreflightCheck
fixed_checks input =
    check "gateway" "Gateway reachable" input.gateway_reachable critical "Process responding"
      "Not reachable"
    ∷ check "storage" "Storage writable" input.storage_writable critical
        "Package directory writable" "Cannot write packages"
    ∷ check "backup" "Backup location writable" input.backup_writable warning
        "Backup folder writable" "Backup folder not writable"
    ∷ check "signing_key" "Organization signing key" input.signing_key_present critical
        "Ed25519 signing key available" "Signing key missing"
    ∷ check "passphrase" "Package unlock configured" input.encryption_passphrase_configured critical
        "Passphrase present in environment (pilot)" "No package passphrase configured"
    ∷ check "webhook_secret" "Webhook secret configured" input.webhook_secret_configured warning
        "Webhook HMAC secret set" "Using insecure default secret"
    ∷ check "queue" "Durable queue healthy" input.queue_healthy critical "Queue directories OK"
        "Queue not healthy"
    ∷ check "case_log" "Case log chain" input.case_log_chain_ok warning "Append-only chain verifies"
        "Case log chain broken"
    ∷ []

abbrev roundtrip_check : Option Bool → List PreflightCheck
roundtrip_check none = []
roundtrip_check (some ok) =
    check "roundtrip" "Package seal/open self-test" ok critical "Encrypt/decrypt self-test passed"
      "Encrypt/decrypt self-test failed"
    ∷ []

abbrev clock_check : Option (ℕ × String) → List PreflightCheck
clock_check none = []
clock_check (some (seconds, text)) =
    record {
      id = "clock";
      label = "Clock skew";
      ok = ltb seconds 300;
      severity = if ltb seconds 300 then info else warning;
      detail = "Skew " <> text <> "s (warn if >300s)";
    }
    ∷ []

unfoldable pub preflight_checks : PreflightInput → List PreflightCheck
preflight_checks input =
    fixed_checks input
    ++ (roundtrip_check input.package_roundtrip_ok ++ clock_check input.clock_skew)

abbrev is_critical : PreflightSeverity → Bool
is_critical critical = true
is_critical _ = false

abbrev is_warning : PreflightSeverity → Bool
is_warning warning = true
is_warning _ = false

abbrev fails_critically : PreflightCheck → Bool
fails_critically c = not c.ok && is_critical c.severity

abbrev warns : PreflightCheck → Bool
warns c = not c.ok && is_warning c.severity

unfoldable pub run_preflight : (checked_at : String) → PreflightInput → PreflightReport
unfolding preflight_checks
run_preflight checked_at input =
    let checks = preflight_checks input in
    let critical_failures = length (filter fails_critically checks) in
    let warnings = length (filter warns checks) in
    record {
      checked_at = checked_at;
      checks = checks;
      critical_failures = critical_failures;
      warnings = warnings;
      can_activate = eqb critical_failures 0;
      summary =
          if eqb critical_failures 0
          then (if eqb warnings 0
              then "All critical preflight checks passed"
              else "Ready with " <> decimal warnings <> " warning(s)")
          else "Blocked: " <> decimal critical_failures <> " critical failure(s)";
    }

-- What activation needs.
pub record IsReady (input : PreflightInput) : Type 0 where
  pub gateway : input.gateway_reachable ≡ true
  pub storage : input.storage_writable ≡ true
  pub signing_key : input.signing_key_present ≡ true
  pub passphrase : input.encryption_passphrase_configured ≡ true
  pub queue : input.queue_healthy ≡ true
  pub roundtrip : or_else input.package_roundtrip_ok true ≡ true

passes : (ok : Bool) → (not ok && true) ≡ false → ok ≡ true
passes true h = refl
passes false h = cc

passed : {ok : Bool} → ok ≡ true → (not ok && true) ≡ false
passed h = rw h refl

not_critical : (ok : Bool) → (not ok && false) ≡ false
not_critical true = refl
not_critical false = refl

optional_checks :
    (roundtrip : Option Bool) (skew : Option (ℕ × String))
    → All (λ c. fails_critically c ≡ false) (roundtrip_check roundtrip ++ clock_check skew)
      ↔ (or_else roundtrip true ≡ true)
optional_checks none none = ((λ _. refl), (λ _. tt))
optional_checks none (some (seconds, text)) = ((λ _. refl), (λ _. ground arith))
optional_checks (some ok) none = ((λ h. passes ok h.0), (λ h. ground arith))
optional_checks (some ok) (some (seconds, text)) = ((λ h. passes ok h.0), (λ h. ground arith))

-- The flow can be activated exactly if the gateway, the storage, the signing key, the passphrase and
-- the queue are in order and the self-test, if it ran, passed; a backup folder, a webhook secret, a
-- case log or a clock that is not never prevents it.
pub run_preflight_iff :
    (at : String) (input : PreflightInput)
    → ((run_preflight at input).can_activate ≡ true) ↔ IsReady input
unfolding run_preflight preflight_checks
run_preflight_iff at input =
    let optional = optional_checks input.package_roundtrip_ok input.clock_skew in
    let split =
      All-append_iff (λ c. fails_critically c ≡ false) (fixed_checks input)
        (roundtrip_check input.package_roundtrip_ok ++ clock_check input.clock_skew) in
    let zero = length-filter-zero fails_critically (preflight_checks input) in
    (
      (λ h.
          let both = split.0 (zero.0 h) in
          record {
            gateway = passes _ both.0.0;
            storage = passes _ both.0.1.0;
            signing_key = passes _ both.0.1.1.1.0;
            passphrase = passes _ both.0.1.1.1.1.0;
            queue = passes _ both.0.1.1.1.1.1.1.0;
            roundtrip = optional.0 both.1;
          }),
      (λ r. zero.1 (
          split.1 (
            (
              passed r.gateway,
              (
                passed r.storage,
                (
                  not_critical input.backup_writable,
                  (
                    passed r.signing_key,
                    (
                      passed r.passphrase,
                      (
                        not_critical input.webhook_secret_configured,
                        (passed r.queue, (not_critical input.case_log_chain_ok, tt)),
                      ),
                    ),
                  ),
                ),
              ),
            ),
            optional.1 r.roundtrip,
          ))),
    )
