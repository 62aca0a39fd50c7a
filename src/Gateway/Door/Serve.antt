-- ===== src/Gateway/Door/Serve.antt =====
-- apps/gateway/src/server.ts, createServer: the handler of requests with the route of the signed webhooks.
-- What the other routes do with a request that is passed to them is not said here.
use qev_platform.Base.{ℕ, String, ◌==◌, Bool, true, false, Option, none, some, if◌then◌else◌, codes}
use qev_platform.Json.{Json, Fields, bool, get_field}
use qev_platform.Event.{QevEvent}
use qev_platform.Shared.Hash.{timing_safe_equal_hex}
use qev_platform.Connect.Webhook.{GenericWebhookBody, WebhookOptions, normalize_generic_webhook}
use qev_platform.Gateway.Sealing.Parts.{Gateway}
use qev_platform.Gateway.Ingest.{IngestAnswer, failed, ingest_event}
use qev_platform.Gateway.Headers.{parse_auth, webhook_segment}
use qev_platform.Gateway.Door.{
  Request, Server, Passage, answered, passed, routed_path, front_door, may_pass, read_body,
  request_signature,
}

abbrev is_true : Json → Bool
is_true (bool true) = true
is_true _ = false

-- body.payload?.seal === true
abbrev seal_asked : Option Fields → Bool
seal_asked none = false
seal_asked (some payload) = is_true (get_field "seal" payload)

abbrev pub reply : IngestAnswer × Gateway → Passage × Gateway
reply (failed message, g) = (answered 500, g)
reply (answer, g) = (answered 202, g)

-- `fresh` is the identifier that newId gives.
module _ (server : Server) (fresh : String) (req : Request) where
  open server use {process, webhook_secret, hmac, parse, body_of, untyped, decode_uri}

  unfoldable pub ingest_delivery :
      GenericWebhookBody → Option QevEvent → Gateway → Passage × Gateway
  unfolding ingest_event get_field
  ingest_delivery body none g = (answered 500, g)
  ingest_delivery body (some event) g = reply (
      ingest_event process
        (record { seal_if_complete = seal_asked body.payload; passphrase = none }) event g)

  abbrev pub delivery_options : (connector_id : String) → GenericWebhookBody → WebhookOptions
  delivery_options connector_id body = record {
    body = body;
    raw_body = req.raw_body;
    tenant_id = process.platform.tenant_id;
    connector_id = connector_id;
    connector_version = none;
    default_flow_id = some "field-service";
  }

  unfoldable pub deliver_body :
      (connector_id : String) → Json → Option GenericWebhookBody → Gateway → Passage × Gateway
  unfolding ingest_delivery normalize_generic_webhook
  deliver_body connector_id value none g = (answered (untyped value g).0, (untyped value g).1)
  deliver_body connector_id value (some body) g =
      ingest_delivery body
        (normalize_generic_webhook process.platform.sha256 fresh process.platform.now
          (delivery_options connector_id body))
        g

  unfoldable pub deliver : (connector_id : String) → Option Json → Gateway → Passage × Gateway
  unfolding deliver_body
  deliver connector_id none g = (answered 400, g)
  deliver connector_id (some value) g = deliver_body connector_id value (body_of value) g

  unfoldable pub deliver_signed :
      (connector_id : String) → Option String → Gateway → Passage × Gateway
  unfolding deliver timing_safe_equal_hex
  deliver_signed connector_id none g = (answered 401, g)
  deliver_signed connector_id (some signature) g =
      if timing_safe_equal_hex (codes signature) (codes (hmac webhook_secret req.raw_body))
      then deliver connector_id (parse req.raw_body) g
      else (answered 401, g)

  unfoldable pub after_body : (connector_id : String) → Option ℕ → Gateway → Passage × Gateway
  unfolding deliver_signed request_signature
  after_body connector_id (some status) g = (answered status, g)
  after_body connector_id none g = deliver_signed connector_id (request_signature req) g

  -- The route of the signed webhooks, with the name of the connector, `none` where it is no encoding.
  unfoldable pub receive_webhook : Option String → Gateway → Passage × Gateway
  unfolding after_body read_body
  receive_webhook none g = (answered 500, g)
  receive_webhook (some connector_id) g = after_body connector_id (read_body server req) g

  abbrev pub segment_for : (path : String) → Option String
  segment_for path = if req.method == "POST" then webhook_segment path else none

  unfoldable pub route : (path : String) → Option String → Gateway → Passage × Gateway
  unfolding receive_webhook may_pass parse_auth
  route path (some segment) g = receive_webhook (decode_uri segment) g
  route path none g =
      if may_pass server.ingest_token req.method path (parse_auth req.authorization)
      then (passed path, g)
      else (answered 401, g)

  unfoldable pub through_door : (path : String) → Option ℕ → Gateway → Passage × Gateway
  unfolding route webhook_segment
  through_door path (some status) g = (answered status, g)
  through_door path none g = route path (segment_for path) g

  -- The handler of the server, up to the other routes.
  unfoldable pub serve : Gateway → Passage × Gateway
  unfolding through_door front_door routed_path
  serve g =
      let path = routed_path server.path_prefix req.pathname in
      if req.method == "OPTIONS"
      then (answered 204, g)
      else through_door path (front_door server req path) g
