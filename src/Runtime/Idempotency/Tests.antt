-- ===== src/Runtime/Idempotency/Tests.antt =====
-- Keys of concrete deliveries.
use qev_platform.Base.{String, none, some}
use qev_platform.Runtime.Idempotency.{KeyParts}

abbrev delivery : (provider_event : String) → KeyParts
delivery provider_event = record {
  tenant_id = "t1";
  connector = "github";
  provider_event_id = some provider_event;
  event_id = some "evt_1";
  raw_body_sha256 = none;
}

abbrev first : String
first = "gh_1"

abbrev second : String
second = "gh_2"
