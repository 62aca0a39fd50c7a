-- ===== src/Ops/Tests.antt =====
-- Completeness, modes, preflight and matching at concrete inputs.
use mathlib.Core.List.{Mem}
use qev_platform.Base.{
  ◌+◌, ◌<◌, ◌≤◌, String, ◌≡◌, ◌↔◌, refl, true, false, none, some, List, [], ◌∷◌, length, contains,
  All,
}
use qev_platform.Event.{QevEvent}
use qev_platform.Event.Samples.{event_of}
use qev_platform.Flow.{field_service_pack}
use qev_platform.Ops.Completeness.{
  CompletenessReport, evaluate_completeness, actions_of, completeness_lem,
}
use qev_platform.Ops.Modes.{gate, GateQuestion}
use qev_platform.Ops.Preflight.{PreflightInput}
use qev_platform.Ops.Matching.{MatchInput, MatchCandidate, match_case, match_candidates}
use qev_platform.Ops.Matching.Best.{IsBelow, match_case-best}
use qev_platform.Ops.Matching.Explicit.{match_case-explicit}

abbrev whole_case : List QevEvent
whole_case =
    event_of "evt_1" "field-service" "job.created"
    ∷ event_of "evt_1" "field-service" "estimate.approved"
    ∷ event_of "evt_1" "field-service" "evidence.before_captured"
    ∷ event_of "evt_1" "field-service" "work.completed"
    ∷ event_of "evt_1" "field-service" "evidence.after_captured"
    ∷ []

whole_case_complete :
    (evaluate_completeness whole_case field_service_pack "JOB-1").complete_for_seal ≡ true
unfolding evaluate_completeness
whole_case_complete = refl

abbrev report_of : List QevEvent → CompletenessReport
report_of events = evaluate_completeness events field_service_pack "JOB-1"

completeness_lem_example :
    (((report_of whole_case).complete_for_seal ≡ true)
      ↔ All (λ a. contains (actions_of whole_case) a ≡ true) field_service_pack.required_actions)
    × ((report_of whole_case).complete_for_seal ≡ true
        → (report_of whole_case).seal_allowed_in_shadow ≡ true)
    × ((report_of whole_case).required_present + length (report_of whole_case).required_missing
        ≡ length field_service_pack.required_actions)
    × ((report_of whole_case).percent ≤ 100)
    × ((report_of whole_case).complete_for_seal ≡ true → (report_of whole_case).percent ≡ 100)
    × (length field_service_pack.required_actions < 200
        → (report_of whole_case).percent ≡ 100
        → (report_of whole_case).complete_for_seal ≡ true)
completeness_lem_example = completeness_lem whole_case field_service_pack "JOB-1"

abbrev label : String
label = "live"

abbrev seal_question : GateQuestion
seal_question = record {
  mode = gate;
  action = "package.seal";
  has_change_approval = true;
  completeness_ok = false;
}

abbrev preflight_input : PreflightInput
preflight_input = record {
  gateway_reachable = true;
  storage_writable = true;
  backup_writable = false;
  signing_key_present = true;
  encryption_passphrase_configured = true;
  webhook_secret_configured = false;
  queue_healthy = true;
  case_log_chain_ok = false;
  package_roundtrip_ok = some true;
  clock_skew = some (400, "400");
}

abbrev match_input : MatchInput
match_input = record {
  explicit_case_id = some "JOB-9";
  provider_object_id = some "po_1";
  invoice_ref = some "INV JOB-3";
  email_subject = some "Re: [JOB-2] done";
  folder_path = none;
  artifact_name = some "photo.jpg";
  known_case_ids = "JOB-2" ∷ [];
  provider_index = some (("po_1", "JOB-4") ∷ []);
}

match_case-best_example :
    (best : MatchCandidate) × (rest : List MatchCandidate) × ((match_case match_input).candidates
      ≡ best ∷ rest)
    × (best.case_id ≡ "JOB-9")
    × Mem best (match_candidates match_input)
    × All (IsBelow best) (match_candidates match_input)
match_case-best_example =
    match_case-best match_input "JOB-9" (match_case-explicit match_input "JOB-9" refl refl).0
