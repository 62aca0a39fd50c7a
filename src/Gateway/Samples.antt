-- ===== src/Gateway/Samples.antt =====
-- Stores for the tests of the other modules.
use qev_platform.Base.{none, [], ◌∷◌}
use qev_platform.Event.{QevEvent, allow_and_record}
use qev_platform.Event.Samples.{event_of}
use qev_platform.Policy.{PolicyDecision}
use qev_platform.Gateway.Store.{GatewayStore}
use qev_platform.Gateway.Store.Cases.{row_of}

abbrev pub empty : GatewayStore
empty = record {
  events_by_case = [];
  events_by_id = [];
  packages = [];
  seals_by_case = [];
  event_files = [];
  seals_file = none;
  package_files = [];
  backup_files = [];
  certificate_files = [];
}

abbrev pub decision : PolicyDecision
decision = record {
  policy_id = "field-service";
  policy_version = "1.0.0";
  effect = allow_and_record;
  reason = "Default policy: record event.";
  event_id = "evt_1";
  decided_at = "now";
}

abbrev pub job : QevEvent
job = event_of "evt_1" "field-service" "job.created"

abbrev pub one_event : GatewayStore
one_event = record empty {
  events_by_id = ("evt_1", row_of job decision) ∷ [];
  events_by_case = ("field-service::JOB-1", "evt_1" ∷ []) ∷ [];
  event_files = ("evt_1", row_of job decision) ∷ [];
}
