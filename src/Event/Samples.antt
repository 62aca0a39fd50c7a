-- ===== src/Event/Samples.antt =====
-- An event for the tests of the other modules.
use qev_platform.Base.{String, none}
use qev_platform.Event.{QevEvent, success, source_asserted, full}

-- A successful event of a flow, with the given id and action.
abbrev pub event_of : (id flow_id action : String) → QevEvent
event_of id flow_id action = record {
  event_id = id;
  occurred_at = "2026-07-01";
  observed_at = "2026-07-01";
  tenant_id = "t1";
  flow_id = flow_id;
  case_id = "JOB-1";
  source = record {
    system = "github";
    connector = "github";
    connector_version = "1";
    provider_event_id = none;
    raw_body_sha256 = none;
    ingestion_path = none;
  };
  actor = record {
    id = "u1";
    display_name = none;
    identity_assurance = source_asserted;
    auth_context = none;
  };
  action = action;
  target = none;
  outcome = success;
  artifacts = none;
  policy = none;
  privacy = record { default_mode = full; field_modes = none };
  payload = none;
  known_gaps = none;
  time_assurance = none;
  connector_signature = none;
}
