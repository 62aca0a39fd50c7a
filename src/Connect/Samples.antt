-- ===== src/Connect/Samples.antt =====
-- packages/event-schema/src/normalize-webhook.ts: a delivery for the tests of the other modules.
use qev_platform.Base.{String, ◌≡◌, refl, true, some, none, includes}
use qev_platform.Json.{str}
use qev_platform.Gateway.Store.{storage_id}
use qev_platform.Connect.Webhook.{
  GenericWebhookBody, WebhookOptions, event_for, event_of_case, normalize_generic_webhook,
}

abbrev pub hash : String → String
hash s = "d"

abbrev pub body : GenericWebhookBody
body = record {
  flow_id = some "devops-change";
  case_id = str "CHG-42";
  action = some "deployment.completed";
  actor = none;
  outcome = none;
  target = none;
  payload = none;
  artifacts = none;
  occurred_at = none;
  provider_event_id = some "77";
  known_gaps = none;
}

abbrev pub delivery : WebhookOptions
delivery = record {
  body = body;
  raw_body = "{}";
  tenant_id = "t1";
  connector_id = "github";
  connector_version = none;
  default_flow_id = none;
}

pub normalized :
    (fresh now : String)
    → normalize_generic_webhook hash fresh now delivery
      ≡ some (event_for hash fresh now delivery "CHG-42")
unfolding normalize_generic_webhook event_of_case
normalized fresh now = refl

pub delivery-valid_id : storage_id "wh_github_77" ≡ true
unfolding storage_id includes
delivery-valid_id = refl
