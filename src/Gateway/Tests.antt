-- ===== src/Gateway/Tests.antt =====
-- Sealing and ingestion at concrete inputs.
use qev_platform.Base.{◌≡◌, refl, true, none, some, [], ◌∷◌, lookup, includes}
use qev_platform.Event.{QevEvent, block, complete}
use qev_platform.Event.Samples.{event_of}
use qev_platform.Policy.{
  evaluate_policy, evaluate_rules, decides, rule_matches, has_backup, policy_for_flow,
}
use qev_platform.Bundle.Build.{finished_bundle}
use qev_platform.Runtime.Queue.{DurableQueue}
use qev_platform.Runtime.CaseLog.{opened}
use qev_platform.Gateway.Store.{
  CaseSealRecord, GatewayStore, storage_id, get_seal_record, Package, supplemental, unsealed_events,
}
use qev_platform.Gateway.Sealing.Parts.{Settings, Gateway, Platform, sealed}
use qev_platform.Gateway.Sealing.{seal_case}
use qev_platform.Gateway.Sealing.Complete.{seal_case-unsealed_events}
use qev_platform.Gateway.Sealing.Primary.{KeepsSeal, seal_case-KeepsSeal}
use qev_platform.Gateway.Sealing.Kept.{KeepsFiles}
use qev_platform.Gateway.Ingest.{IngestOptions, Process, duplicate_event, ingest_event}
use qev_platform.Gateway.Ingest.Once.{ingest_event-twice, IsUnsealed, ingest_event-IsUnsealed}
use qev_platform.Connect.Webhook.{event_for}
use qev_platform.Connect.Normal.{redelivery}
use qev_platform.Connect.Samples.{hash, delivery, normalized, delivery-valid_id}
use qev_platform.Gateway.Samples.{empty, job, one_event}

abbrev platform : Platform
platform = record {
  sha256 = λ _. "d";
  encrypt = λ _ _. "v";
  certificate = λ _ _. "c";
  new_id = "pkg_2";
  now = "2026-07-02";
  tenant_id = "t1";
}

abbrev settings : Settings
settings = record { mode = some "shadow"; auto_seal = true; supplemental_packages = true }

abbrev process : Process
process = record {
  platform = platform;
  settings = settings;
  package_passphrase = "secret";
  job_id = "job_1";
  lower = λ s. s;
  generated = λ _. "g";
}

abbrev options : IngestOptions
options = record { seal_if_complete = true; passphrase = none }

abbrev seal : CaseSealRecord
seal = record {
  flow_id = "field-service";
  case_id = "JOB-1";
  primary_package_id = "pkg_1";
  supplemental_package_ids = [];
  sealed_event_ids = "evt_0" ∷ [];
  updated_at = "2026-07-01";
}

abbrev blank_queue : DurableQueue
blank_queue = record {
  disk = record {
    pending_dir = [];
    processing_dir = [];
    done_dir = [];
    dead_dir = [];
    index = none;
  };
  idempo = [];
  ready = true;
}

abbrev gateway_of : GatewayStore → Gateway
gateway_of store = record { store = store; queue = blank_queue; log = opened none none }

-- A case with a primary package and an event that came later.
abbrev late : Gateway
late = gateway_of (record one_event { seals_by_case = ("field-service::JOB-1", seal) ∷ [] })

late_seal : get_seal_record "field-service" "JOB-1" late.store ≡ some seal
unfolding get_seal_record lookup
late_seal = refl

seal_case-KeepsSeal_example :
    KeepsSeal "field-service" "JOB-1" seal
      (seal_case platform settings "secret" "field-service" "JOB-1" late).1.store
    × KeepsFiles "pkg_2" late.store
        (seal_case platform settings "secret" "field-service" "JOB-1" late).1.store
seal_case-KeepsSeal_example =
    seal_case-KeepsSeal platform settings "secret" "field-service" "JOB-1" late seal late_seal

valid_id : storage_id "evt_1" ≡ true
unfolding storage_id includes
valid_id = refl

ingest_event-twice_example :
    ingest_event process options job (ingest_event process options job (gateway_of empty)).1
    ≡ (duplicate_event, (ingest_event process options job (gateway_of empty)).1)
ingest_event-twice_example =
    ingest_event-twice process process options options job job (gateway_of empty) valid_id refl

abbrev destroy : QevEvent
destroy = event_of "evt_2" "devops-change" "infra.destroy"

destroy_blocked :
    (evaluate_policy process.lower destroy
      (some (policy_for_flow "devops-change"))
      "2026-07-02").effect
    ≡ block
unfolding evaluate_policy evaluate_rules decides rule_matches has_backup policy_for_flow
destroy_blocked = refl

ingest_event-IsUnsealed_example :
    IsUnsealed empty (ingest_event process options destroy (gateway_of empty)).1.store
ingest_event-IsUnsealed_example =
    ingest_event-IsUnsealed process options destroy (gateway_of empty) destroy_blocked

abbrev late_package : Package
late_package = record {
  package_id = "pkg_2";
  created_at = "2026-07-02";
  tenant_id = "t1";
  flow_id = "field-service";
  case_id = "JOB-1";
  public_meta = record {
    title = some "field-service JOB-1 (supplemental)";
    event_count = 1;
    outcome = complete;
    integrity_events_sha256 = "d";
    package_kind = some supplemental;
    parent_package_id = some "pkg_1";
    sealed_event_ids = some ("evt_1" ∷ []);
  };
  vault = "v";
}

late_sealed :
    (seal_case platform settings "secret" "field-service" "JOB-1" late).0
    ≡ sealed supplemental late_package
unfolding seal_case finished_bundle
late_sealed = refl

seal_case-unsealed_events_example :
    unsealed_events "field-service" "JOB-1"
      (seal_case platform settings "secret" "field-service" "JOB-1" late).1.store
    ≡ []
seal_case-unsealed_events_example =
    seal_case-unsealed_events platform settings "secret" "field-service" "JOB-1" late supplemental
      late_package late_sealed

redelivery_example :
    ingest_event process options
      (event_for hash "evt_8" "later" delivery "CHG-42")
      (ingest_event process options
        (event_for hash "evt_7" "now" delivery "CHG-42")
        (gateway_of empty)).1
    ≡ (
      duplicate_event,
      (ingest_event process options
          (event_for hash "evt_7" "now" delivery "CHG-42")
          (gateway_of empty)).1,
    )
redelivery_example =
    redelivery hash "evt_7" "evt_8" "now" "later" "77" delivery delivery
      (event_for hash "evt_7" "now" delivery "CHG-42")
      (event_for hash "evt_8" "later" delivery "CHG-42") refl refl refl refl
      (normalized "evt_7" "now") (normalized "evt_8" "later") delivery-valid_id process process
      options options (gateway_of empty)
