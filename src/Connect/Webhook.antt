-- ===== src/Connect/Webhook.antt =====
-- packages/event-schema/src/normalize-webhook.ts: the event that a generic webhook delivery stands for.
use qev_platform.Base.{
  String, Bool, false, Option, none, some, List, [], ◌∷◌, ◌++◌, ◌<>◌, truthy, if◌then◌else◌,
  or_else, eqb, length,
}
use qev_platform.Json.{Json, Fields, end, str, undefined, null, get_field}
use qev_platform.Event.{
  QevArtifact, QevKnownGap, Outcome, EventActor, QevEvent, unknown, webhook, source_asserted, typed,
  full, warning,
}

pub record WebhookActor : Type 0 where
  pub id : Option String
  pub display_name : Option String

-- The interface that the code declares for a body; `case_id` may hold any value, since the code tests
-- its type. Nothing checks a body against the interface: `Untyped` is about bodies of any type.
pub record GenericWebhookBody : Type 0 where
  pub flow_id : Option String
  pub case_id : Json
  pub action : Option String
  pub actor : Option WebhookActor
  pub outcome : Option Outcome
  pub target : Option Fields
  pub payload : Option Fields
  pub artifacts : Option (List QevArtifact)
  pub occurred_at : Option String
  pub provider_event_id : Option String
  pub known_gaps : Option (List QevKnownGap)

pub record WebhookOptions : Type 0 where
  pub body : GenericWebhookBody
  pub raw_body : String
  pub tenant_id : String
  pub connector_id : String
  pub connector_version : Option String
  pub default_flow_id : Option String

-- body.payload?.case_id
abbrev case_in : Option Fields → Json
case_in none = undefined
case_in (some payload) = get_field "case_id" payload

-- x ?? y on values
abbrev pub given_or : Json → Json → Json
given_or undefined other = other
given_or null other = other
given_or x other = x

abbrev pub case_value : GenericWebhookBody → Json
case_value body = given_or body.case_id (case_in body.payload)

-- A value that is a text and not empty.
abbrev pub text_value : Json → Option String
text_value (str s) = if truthy s then some s else none
text_value _ = none

abbrev pub actor_id : Option WebhookActor → Option String
actor_id none = none
actor_id (some a) = a.id

abbrev actor_name : Option WebhookActor → Option String
actor_name none = none
actor_name (some a) = a.display_name

abbrev pub is_given : Option String → Bool
is_given none = false
is_given (some s) = truthy s

abbrev pub event_actor : Option WebhookActor → EventActor
event_actor a = record {
  id = or_else (actor_id a) "unknown";
  display_name = actor_name a;
  identity_assurance = if is_given (actor_id a) then source_asserted else typed;
  auth_context = none;
}

-- An empty provider id counts as none; `fresh` is newId("evt").
abbrev pub delivery_id : (connector_id fresh : String) → Option String → String
delivery_id connector_id fresh none = fresh
delivery_id connector_id fresh (some id) =
    if truthy id then "wh_" <> connector_id <> "_" <> id else fresh

-- The known gaps that the body names, and one if it has no artifact.
abbrev pub webhook_gaps : Option (List QevArtifact) → List QevKnownGap → List QevKnownGap
webhook_gaps artifacts gaps =
    if eqb (length (or_else artifacts [])) 0
    then gaps
      ++ record {
        code = "missing_artifacts";
        message = "No artifact fingerprints were supplied with this event.";
        field = none;
        severity = some warning;
      }
        ∷ []
    else gaps

abbrev source_time : Option String → Option String
source_time none = none
source_time (some t) = if truthy t then some t else none

abbrev pub flow_or : Option String → Option String → String
flow_or (some flow) other = flow
flow_or none other = or_else other "devops-change"

module _ (sha256 : String → String) where
  abbrev pub event_for : (fresh now : String) → WebhookOptions → (case_id : String) → QevEvent
  event_for fresh now opts case_id =
      let body = opts.body in
      record {
        event_id = delivery_id opts.connector_id fresh body.provider_event_id;
        occurred_at = or_else body.occurred_at now;
        observed_at = now;
        tenant_id = opts.tenant_id;
        flow_id = flow_or body.flow_id opts.default_flow_id;
        case_id = case_id;
        source = record {
          system = opts.connector_id;
          connector = "generic-webhook";
          connector_version = or_else opts.connector_version "0.1.0";
          provider_event_id = body.provider_event_id;
          raw_body_sha256 = some (sha256 opts.raw_body);
          ingestion_path = some webhook;
        };
        actor = event_actor body.actor;
        action = or_else body.action "webhook.received";
        target = body.target;
        outcome = or_else body.outcome unknown;
        artifacts = body.artifacts;
        policy = none;
        privacy = record { default_mode = full; field_modes = some [] };
        payload = some (or_else body.payload end);
        known_gaps = some (webhook_gaps body.artifacts (or_else body.known_gaps []));
        time_assurance = some (record {
          source_system_time = source_time body.occurred_at;
          gateway_receipt_time = some now;
          org_signed_time = none;
          independent_timestamp = none;
        });
        connector_signature = none;
      }

  unfoldable pub event_of_case :
      (fresh now : String) → WebhookOptions → Option String → Option QevEvent
  event_of_case fresh now opts none = none
  event_of_case fresh now opts (some case_id) = some (event_for fresh now opts case_id)

  -- `none` is the error "Webhook body requires case_id".
  unfoldable pub normalize_generic_webhook : (fresh now : String) → WebhookOptions → Option QevEvent
  unfolding event_of_case get_field
  normalize_generic_webhook fresh now opts =
      event_of_case fresh now opts (text_value (case_value opts.body))
